-- ===== src/Drivers/Gic/Take.antt =====
-- The whole of what the CPU does with an interrupt: the state stays well-formed, and an interrupt
-- for the guest is delivered.
use switchvisor.Base.{
  ℕ, ◌+◌, ◌/◌, ◌%◌, ◌^◌, ◌<◌, ◌≤◌, ◌≡◌, ◌≢◌, refl, Bool, true, false, ◌||◌, not, leb, ltb, ◌==◌,
  if◌then◌else◌, arith, Bool-cases, inl, inr, bit_and, bit_and-le_right, ℕ_discrete, ◌⊎◌, ok, err,
}
use switchvisor.Drivers.{Mmio}
use switchvisor.Drivers.Gic.{
  Gic, Layout, Pending, Event, nothing, guest, maintenance, owned, id_of, spurious_irq, new,
  is_valid, not_gic_v2,
}
use switchvisor.Drivers.Gic.Controller.{
  drain_sgi_eois, write_cpu, read_cpu, read_hyp, service, poll, finish_owned_interrupt,
  take_maintenance, take_pending, take_other, take_interrupt, set_distributor_enabled,
}
use switchvisor.Drivers.Gic.Setup.{initialize, reset, start}
use switchvisor.Drivers.Gic.Valid.{new-IsValid, get_or-replicate}
use switchvisor.Drivers.Gic.Sgi.{IsSound, drain_sgi_eois-IsSound, table-IsSound}
use switchvisor.Drivers.Gic.Deliver.{IsKept, IsDelivered, deliver-IsDelivered, refill-IsKept}

module _ {S : Type 0} (mmio : Mmio S) (layout : Layout)
    (words : (s : S) (address : ℕ) → (mmio.read32 s address).0 < 2 ^ 32) where
  service-IsSound : (g : Gic) (s : S) → IsSound g → IsSound (service mmio layout g s).0
  unfolding service
  service-IsSound g s v =
      (refill-IsKept mmio layout words _ _ (drain_sgi_eois-IsSound mmio layout g s v)).0

  pub poll-IsSound : (g : Gic) (s : S) → IsSound g → IsSound (poll mmio layout g s).0
  unfolding poll
  poll-IsSound g s v = service-IsSound g s v

  enabled-IsSound :
      (g : Gic) (b : Bool) → IsSound g → IsSound (record g { distributor_enabled = b })
  enabled-IsSound g b v =
      table-IsSound g (record g { distributor_enabled = b }) refl refl v
        (record {
          length_pending = v.valid.length_pending;
          length_lr_iar = v.valid.length_lr_iar;
          few = v.valid.few;
          counted = v.valid.counted;
          in_slot = v.valid.in_slot;
        })

  pub set_distributor_enabled-IsSound :
      (g : Gic) (b : Bool) (s : S)
      → IsSound g
      → IsSound (set_distributor_enabled mmio layout g b s).0
  unfolding set_distributor_enabled
  set_distributor_enabled-IsSound g b s v =
      let changed = (refill-IsKept mmio layout words _ s (enabled-IsSound g b v)).0 in
      elim (Bool-cases (if b then g.distributor_enabled else not g.distributor_enabled)) [
        | inl e ↦ rw e v
        | inr e ↦ rw e changed
      ]

  pub finish_owned_interrupt-IsSound :
      (g : Gic) (p : Pending) (b : Bool) (s : S)
      → IsSound g
      → is_valid p ≡ true
      → IsSound (finish_owned_interrupt mmio layout g p b s).0
  unfolding finish_owned_interrupt
  finish_owned_interrupt-IsSound g p true s v h =
      (deliver-IsDelivered mmio layout words g p _ v h).0
  finish_owned_interrupt-IsSound g p false s v h = v

  take_pending-IsSound :
      (g : Gic) (p : Pending) (s : S)
      → IsSound g
      → is_valid p ≡ true
      → IsSound (take_pending mmio layout g p s).0.1
  unfolding take_pending
  take_pending-IsSound g p s v h =
      let delivered = (deliver-IsDelivered mmio layout words g p s v h).0 in
      elim (Bool-cases (id_of p.iar == g.owned_interrupt || id_of p.iar == g.network_interrupt)) [
        | inl e ↦ rw e v
        | inr e ↦ rw e delivered
      ]

  pub take_interrupt-IsSound :
      (g : Gic) (s : S) → IsSound g → IsSound (take_interrupt mmio layout g s).0.1
  unfolding take_interrupt take_maintenance take_other is_valid
  take_interrupt-IsSound g s v =
      let iar = (read_cpu mmio layout 0x00c s).0 in
      elim (Bool-cases (leb 1020 (id_of iar))) [
        | inl e ↦ rw (take_interrupt, e) v
        | inr e ↦ elim (Bool-cases (id_of iar == 25)) [
          | inl f ↦ rw (take_interrupt, e, f) (service-IsSound g _ v)
          | inr f ↦ rw (take_interrupt, e, f) (take_pending-IsSound g _ _ v (ground arith))
        ]
      ]

  -- An acknowledged interrupt has the priority that the CPU runs at.
  abbrev pub acknowledged : ℕ → S → Pending
  acknowledged iar s = record {
    iar = iar;
    priority = (read_cpu mmio layout 0x014 s).0 / 2 ^ 3 % 32;
  }

  abbrev pub dropped : ℕ → S → S
  dropped iar s = write_cpu mmio layout 0x010 iar (read_cpu mmio layout 0x014 s).1

  abbrev pub is_owned : Gic → ℕ → Bool
  is_owned g iar = id_of iar == g.owned_interrupt || id_of iar == g.network_interrupt

  -- What the interrupt `iar` comes to, by the event, from the hardware after it was acknowledged. For
  -- one that is handed on, the running priority is read and the acknowledged one is dropped first.
  unfoldable pub IsTaken : Gic → ℕ → S → Event → Gic × S → Type 0
  IsTaken g iar s nothing after = (1020 ≤ id_of iar) × (after ≡ (g, s))
  IsTaken g iar s maintenance after =
      (id_of iar ≡ 25)
      × (served : Gic × S) × IsKept mmio layout words (drain_sgi_eois mmio layout g s).0
          (drain_sgi_eois mmio layout g s).1 served
      × (after ≡ (
        served.0,
        mmio.barrier (write_cpu mmio layout 0x1000 iar (write_cpu mmio layout 0x010 iar served.1)),
      ))
  IsTaken g iar s (owned p) after =
      (p ≡ acknowledged iar s)
      × (is_owned g iar ≡ true)
      × (after ≡ (g, mmio.barrier (dropped iar s)))
  IsTaken g iar s guest after =
      (delivered : Gic × S) × (is_owned g iar ≡ false)
      × IsDelivered mmio layout words g (acknowledged iar s) (dropped iar s) delivered
      × (after ≡ (delivered.0, mmio.barrier delivered.1))

-- A reset leaves the driver with nothing that waits and no software interrupt in a list register.
pub reset-IsSound : (g : Gic) (count : ℕ) → count ≤ 64 → IsSound (reset g count)
unfolding reset new
reset-IsSound g count h = record {
  valid = record {
    length_pending = new-IsValid.length_pending;
    length_lr_iar = refl;
    few = h;
    counted = new-IsValid.counted;
    in_slot = new-IsValid.in_slot;
  };
  apart = λ i j li lj soft same.
      (let nothing = get_or-replicate 64 i spurious_irq in absurd (omega arith));
}

-- A driver that starts is well-formed; it does not start just where the hardware is no GICv2, since
-- the number of list registers that it reads is at most 64.
pub initialize_lem :
    {S : Type 0} (mmio : Mmio S) (layout : Layout) (g : Gic) (s : S)
    → let identity = (read_cpu mmio layout 0x0fc s).0 in
      (initialize mmio layout g s ≡ err not_gic_v2) × (bit_and identity 0x00ff_0fff ≢ 0x0002_043b)
      ⊎ ((g' : Gic) × (s' : S) × (initialize mmio layout g s ≡ ok (g', s'))
          × (bit_and identity 0x00ff_0fff ≡ 0x0002_043b)
          × IsSound g')
unfolding initialize
initialize_lem mmio layout g s =
    let identity = (read_cpu mmio layout 0x0fc s).0 in
    let kind = (read_hyp mmio layout 0x004 (read_cpu mmio layout 0x0fc s).1).0 in
    let few = bit_and-le_right kind 0x3f in
    let enough : ltb 64 (bit_and kind 0x3f + 1) ≡ false = ground arith in
    elim (ℕ_discrete (bit_and identity 0x00ff_0fff) 0x0002_043b) [
      | yes e ↦
          (let right : not (bit_and identity 0x00ff_0fff == 0x0002_043b) ≡ false = ground arith in
            inr (
              reset g (bit_and kind 0x3f + 1),
              start mmio layout (bit_and kind 0x3f + 1)
                  (read_hyp mmio layout 0x004 (read_cpu mmio layout 0x0fc s).1).1,
              rw (initialize, right, enough) refl,
              e,
              reset-IsSound g (bit_and kind 0x3f + 1) (omega arith),
            ))
      | no ne ↦
          (let wrong : not (bit_and identity 0x00ff_0fff == 0x0002_043b) ≡ true = ground arith in
            inl (rw (initialize, wrong) refl, ne))
    ]
