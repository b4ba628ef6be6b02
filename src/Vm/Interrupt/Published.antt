-- ===== src/Vm/Interrupt/Published.antt =====
-- What the other CPUs read is what the controllers hold, after any abort of the guest.
use switchvisor.Base.{
  ℕ, ◌≡◌, refl, ap, false, ◌&&◌, ◌||◌, List, Option, none, some, Result, ok, err, arith, Bool-cases,
  Option-cases, Result-cases, inl, inr, if◌then◌else◌,
}
use switchvisor.Drivers.{Mmio}
use switchvisor.Drivers.Gic.{Layout}
use switchvisor.Mmio.Decode.{Access, Writeback, decode_region}
use switchvisor.Mmio.Emulate.{VirtualDevice, emulate_access, store_data}
use switchvisor.Mmio.Emulate
use switchvisor.Vdev.Uart.Device.{DeviceError}
use switchvisor.Vdev.Gic
use switchvisor.Vdev.Gic.{Distributor}
use switchvisor.Vdev.Lic
use switchvisor.Vdev.Lic.{Lic}
use switchvisor.Vm.Interrupt.{
  Shared, publish_distributor, publish_lic, kept_read, distributor_device, lic_device, Attempt,
  by_syndrome, by_instruction, with_writeback, at_distributor, at_lic, dispatch_access, emulate,
  emulate_store_post_index, initialize, new, source_of, is_none,
}

unfoldable pub DistributorShown : Shared → Option Distributor → Type 0
DistributorShown w none = Unit
DistributorShown w (some d) =
    (w.enabled ≡ Gic.is_enabled d)
    × (w.owned_interrupt_enabled ≡ d.usb.enabled)
    × (w.network_interrupt_enabled ≡ d.network.enabled)
    × (w.owned_interrupt_priority ≡ d.usb.priority)
    × (w.network_interrupt_priority ≡ d.network.priority)

-- Of the legacy controller, the enables of the sources that EL2 owns.
unfoldable pub LicShown : Shared → Option Lic → Type 0
LicShown w none = Unit
LicShown w (some l) =
    ((n : ℕ) → l.usb.owned_source ≡ some n → w.lic_owned_source_enabled ≡ l.usb.guest_enabled)
    × ((n : ℕ)
        → l.network.owned_source ≡ some n
        → w.lic_network_source_enabled ≡ l.network.guest_enabled)

unfoldable pub IsPublished : Shared → Type 0
IsPublished w = DistributorShown w w.distributor × LicShown w w.legacy

-- An attempt that is not done leaves the device.
abbrev IsQuiet : {D S : Type 0} → VirtualDevice (D × S) DeviceError → Attempt D S → Type 0
IsQuiet {D} {S} device attempt =
    (ds : D × S) (registers : List ℕ)
    → (attempt device ds registers).0 ≡ false
    → (attempt device ds registers).1 ≡ ds

-- A device whose refused reads leave it.
abbrev IsKind : {D S : Type 0} → VirtualDevice (D × S) DeviceError → Type 0
IsKind {D} {S} device =
    (ds : D × S) (offset size : ℕ) (e : DeviceError)
    → (device.read ds offset size).0 ≡ err e
    → (device.read ds offset size).1 ≡ ds

kept_read-IsKind :
    {D S : Type 0} (ds : D × S) (r : Result DeviceError (ℕ × S)) {e : DeviceError}
    → (kept_read ds r).0 ≡ err e
    → (kept_read ds r).1 ≡ ds
unfolding kept_read
kept_read-IsKind (d, s) (err e') h = refl
kept_read-IsKind (d, s) (ok (value, s')) h = ground arith

module _ {D S : Type 0} (device : VirtualDevice (D × S) DeviceError) (kind : IsKind device) where
  emulate_access-IsQuiet :
      (a : Access) (ds : D × S) (registers : List ℕ)
      → (emulate_access device a ds registers).0 ≡ false
      → (emulate_access device a ds registers).1 ≡ ds
  unfolding emulate_access
  emulate_access-IsQuiet a ds registers h =
      elim (Result-cases (device.write ds a.offset a.size (store_data a registers))) [
        | inl (u', w) ↦ elim (Result-cases (device.read ds a.offset a.size).0) [
          | inl (value, r) ↦ ground arith
          | inr (e, r) ↦ (let same = kind ds a.offset a.size e r in ground arith)
        ]
        | inr (e', w) ↦ elim (Result-cases (device.read ds a.offset a.size).0) [
          | inl (value, r) ↦ ground arith
          | inr (e, r) ↦ (let same = kind ds a.offset a.size e r in ground arith)
        ]
      ]

  by_syndrome-IsQuiet : (esr far hpfar : ℕ) → IsQuiet device (by_syndrome esr far hpfar)
  unfolding by_syndrome Emulate.emulate
  by_syndrome-IsQuiet esr far hpfar ds registers h =
      elim (Option-cases (decode_region esr far hpfar device.base device.size)) [
        | inl e ↦ rw (by_syndrome, Emulate.emulate, e) refl
        | inr (a, e) ↦ (let law = emulate_access-IsQuiet a ds registers in ground arith)
      ]

  with_writeback-IsQuiet :
      (decoded : Option (Access × Writeback)) (ds : D × S) (registers : List ℕ)
      → (with_writeback device decoded ds registers).0 ≡ false
      → (with_writeback device decoded ds registers).1 ≡ ds
  unfolding with_writeback
  with_writeback-IsQuiet none ds registers h = refl
  with_writeback-IsQuiet (some (a, w)) ds registers h = emulate_access-IsQuiet a ds registers h

  by_instruction-IsQuiet :
      (esr far hpfar instruction : ℕ) → IsQuiet device (by_instruction esr far hpfar instruction)
  unfolding by_instruction
  by_instruction-IsQuiet esr far hpfar instruction ds registers h =
      with_writeback-IsQuiet _ ds registers h

-- The flags of the legacy controller as it starts.
abbrev started : Option ℕ → Option ℕ → Lic
started owned network = Lic.set_network_source (Lic.set_owned_source Lic.new owned) network

started-LicShown :
    (w : Shared) (owned network : Option ℕ)
    → LicShown
        (record w {
          lic_owned_source_enabled = is_none owned || (started owned network).usb.guest_enabled;
          lic_network_source_enabled =
              is_none network || (started owned network).network.guest_enabled;
        })
        (if is_none owned && is_none network then none else some (started owned network))
unfolding LicShown Lic.set_network_source Lic.set_owned_source Lic.select
started-LicShown w none none = tt
started-LicShown w (some m) none = (λ n e. refl, λ n e. ground arith)
started-LicShown w none (some m) = (λ n e. ground arith, λ n e. refl)
started-LicShown w (some m) (some k) = (λ n e. refl, λ n e. refl)

module _ {S : Type 0} (mmio : Mmio S) (layout : Layout) where
  distributor-IsKind : IsKind (distributor_device mmio layout)
  distributor-IsKind ds offset size e h =
      kept_read-IsKind ds (Gic.read mmio layout.distributor ds.0 offset size ds.1) h

  lic-IsKind : IsKind (lic_device mmio layout)
  lic-IsKind ls offset size e h = kept_read-IsKind ls (Lic.read mmio ls.0 offset size ls.1) h

  at_distributor-IsPublished :
      (attempt : Attempt Distributor S) (d : Option Distributor) (w : Shared) (s : S)
      (registers : List ℕ)
      → IsQuiet (distributor_device mmio layout) attempt
      → w.distributor ≡ d
      → IsPublished w
      → IsPublished (at_distributor mmio layout attempt d w s registers).1.0
  unfolding at_distributor IsPublished DistributorShown publish_distributor LicShown
  at_distributor-IsPublished attempt none w s registers quiet e v = v
  at_distributor-IsPublished attempt (some d) w s registers quiet e v =
      let tried = attempt (distributor_device mmio layout) (d, s) registers in
      elim (Bool-cases tried.0) [
        | inl h ↦ rw (at_distributor, h) ((refl, refl, refl, refl, refl), v.1)
        | inr h ↦
            (let same : tried.1.0 ≡ d =
                ap (λ (ds : Distributor × S). ds.0) (quiet (d, s) registers h) in
              let shown = v.0 in rw (at_distributor, h, same) (rw e at shown, v.1))
      ]

  at_lic-IsPublished :
      (attempt : Attempt Lic S) (l : Option Lic) (w : Shared) (s : S) (registers : List ℕ)
      → IsQuiet (lic_device mmio layout) attempt
      → w.legacy ≡ l
      → IsPublished w
      → IsPublished (at_lic mmio layout attempt l w s registers).1.0
  unfolding at_lic IsPublished DistributorShown publish_lic LicShown
  at_lic-IsPublished attempt none w s registers quiet e v = v
  at_lic-IsPublished attempt (some l) w s registers quiet e v =
      let tried = attempt (lic_device mmio layout) (l, s) registers in
      elim (Bool-cases tried.0) [
        | inl h ↦ rw (at_lic, h) (v.0, (λ n f. refl, λ n f. refl))
        | inr h ↦
            (let same : tried.1.0 ≡ l = ap (λ (ls : Lic × S). ls.0) (quiet (l, s) registers h) in
              let shown = v.1 in rw (at_lic, h, same) (v.0, rw e at shown))
      ]

  dispatch_access-IsPublished :
      (first : Attempt Distributor S) (second : Attempt Lic S) (w : Shared) (s : S)
      (registers : List ℕ)
      → IsQuiet (distributor_device mmio layout) first
      → IsQuiet (lic_device mmio layout) second
      → IsPublished w
      → IsPublished (dispatch_access mmio layout first second w s registers).1.0
  unfolding dispatch_access
  dispatch_access-IsPublished first second w s registers quiet quiet' v =
      let tried = at_distributor mmio layout first w.distributor w s registers in
      let kept = at_distributor-IsPublished first w.distributor w s registers quiet refl v in
      elim (Bool-cases tried.0) [
        | inl h ↦ rw (dispatch_access, h) kept
        | inr h ↦
            rw (dispatch_access, h)
              (at_lic-IsPublished second tried.1.0.legacy tried.1.0 tried.1.1 tried.2 quiet' refl
                kept)
      ]

  -- After any abort, decoded by its syndrome or by its instruction, what the other CPUs read of the
  -- enables and the priorities is what the controllers hold.
  pub emulate-IsPublished :
      (esr far hpfar instruction : ℕ) (w : Shared) (s : S) (registers : List ℕ)
      → IsPublished w
      → IsPublished (emulate mmio layout esr far hpfar w s registers).1.0
        × IsPublished
            (emulate_store_post_index mmio layout esr far hpfar instruction w s registers).1.0
  unfolding emulate emulate_store_post_index
  emulate-IsPublished esr far hpfar instruction w s registers v = (
    dispatch_access-IsPublished _ _ w s registers
        (by_syndrome-IsQuiet (distributor_device mmio layout) distributor-IsKind esr far hpfar)
        (by_syndrome-IsQuiet (lic_device mmio layout) lic-IsKind esr far hpfar) v,
    dispatch_access-IsPublished _ _ w s registers
        (by_instruction-IsQuiet (distributor_device mmio layout) distributor-IsKind esr far hpfar
          instruction)
        (by_instruction-IsQuiet (lic_device mmio layout) lic-IsKind esr far hpfar instruction) v,
  )

  -- So it is from the start.
  pub initialize-IsPublished :
      (owned network : Option ℕ) (s : S) → IsPublished (initialize mmio layout owned network s).0
  unfolding initialize IsPublished DistributorShown LicShown publish_distributor
  initialize-IsPublished owned network s = (
    (refl, refl, refl, refl, refl),
    started-LicShown
        (publish_distributor new
          (Gic.initialize mmio layout.distributor
            (Gic.set_network_interrupt (Gic.set_owned_interrupt Gic.new owned) network) s).0)
        (source_of layout owned) (source_of layout network),
  )
