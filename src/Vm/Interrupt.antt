-- ===== src/Vm/Interrupt.antt =====
-- crates/switchvisor/src/vm/interrupt.rs: the two interrupt controllers of the guest behind the
-- decoding of its aborts, and what the other CPUs read of them without the lock. The atomic
-- variables are the record `Shared`; the code under one lock is one step.
pub mod Published
mod Tests
use switchvisor.Base.{
  ℕ, ◌-◌, Bool, true, false, ◌&&◌, ◌||◌, leb, ◌==◌, if◌then◌else◌, List, set, Option, none, some,
  Result, ok, err, and_then,
}
use switchvisor.Drivers.{Mmio}
use switchvisor.Drivers.Gic.{Layout, tegra210}
use switchvisor.Mmio.Decode.{Access, Writeback, decode_store_post_index_region}
use switchvisor.Mmio.Emulate.{VirtualDevice, emulate_access}
use switchvisor.Mmio.Emulate
use switchvisor.Vdev.Uart.Device.{DeviceError}
use switchvisor.Vdev.Gic
use switchvisor.Vdev.Gic.{Distributor}
use switchvisor.Vdev.Lic
use switchvisor.Vdev.Lic.{Lic}

pub record Shared : Type 0 where
  pub distributor : Option Distributor
  pub legacy : Option Lic
  pub enabled : Bool
  pub network_interrupt_enabled : Bool
  pub lic_network_source_enabled : Bool
  pub owned_interrupt_enabled : Bool
  pub lic_owned_source_enabled : Bool
  pub network_interrupt_priority : ℕ
  pub owned_interrupt_priority : ℕ

unfoldable pub new : Shared
new = record {
  distributor = none;
  legacy = none;
  enabled = true;
  network_interrupt_enabled = false;
  lic_network_source_enabled = true;
  owned_interrupt_enabled = false;
  lic_owned_source_enabled = true;
  network_interrupt_priority = Gic.default_owned_priority;
  owned_interrupt_priority = Gic.default_owned_priority;
}

-- The state of the distributor with what is published of it.
unfoldable pub publish_distributor : Shared → Distributor → Shared
publish_distributor w d = record w {
  distributor = some d;
  network_interrupt_priority = d.network.priority;
  owned_interrupt_priority = d.usb.priority;
  network_interrupt_enabled = d.network.enabled;
  owned_interrupt_enabled = d.usb.enabled;
  enabled = Gic.is_enabled d;
}

unfoldable pub publish_lic : Shared → Lic → Shared
publish_lic w l = record w {
  legacy = some l;
  lic_owned_source_enabled = l.usb.guest_enabled;
  lic_network_source_enabled = l.network.guest_enabled;
}

-- What the other CPUs ask.
unfoldable pub is_network_enabled : Shared → Bool
is_network_enabled w = w.network_interrupt_enabled && w.lic_network_source_enabled

unfoldable pub is_owned_enabled : Shared → Bool
is_owned_enabled w = w.owned_interrupt_enabled && w.lic_owned_source_enabled

-- `layout == Layout::TEGRA210`
unfoldable pub is_tegra210 : Layout → Bool
is_tegra210 l =
    l.distributor == tegra210.distributor
    && l.distributor_size == tegra210.distributor_size
    && l.cpu == tegra210.cpu
    && l.cpu_size == tegra210.cpu_size
    && l.hypervisor == tegra210.hypervisor
    && l.hypervisor_size == tegra210.hypervisor_size
    && l.virtual_cpu == tegra210.virtual_cpu
    && l.virtual_cpu_size == tegra210.virtual_cpu_size

-- The source of an interrupt at the legacy controller, which the board has.
unfoldable pub source_of : Layout → Option ℕ → Option ℕ
source_of l interrupt =
    and_then (if is_tegra210 l then interrupt else none)
      (λ id. if leb 32 id then some (id - 32) else none)

abbrev pub is_none : Option ℕ → Bool
is_none none = true
is_none (some n) = false

-- A refused read leaves the state.
unfoldable pub kept_read :
    {D S : Type 0} → D × S → Result DeviceError (ℕ × S) → Result DeviceError ℕ × (D × S)
kept_read (d, s) (err e) = (err e, (d, s))
kept_read (d, s) (ok (value, s')) = (ok value, (d, s'))

module _ {S : Type 0} (mmio : Mmio S) (layout : Layout) where
  -- The controllers as devices.
  abbrev pub distributor_device : VirtualDevice (Distributor × S) DeviceError
  distributor_device = record {
    base = layout.distributor;
    size = layout.distributor_size;
    read = λ ds offset size. kept_read ds (Gic.read mmio layout.distributor ds.0 offset size ds.1);
    write = λ ds offset size value. Gic.write mmio layout.distributor ds.0 offset size value ds.1;
  }

  abbrev pub lic_device : VirtualDevice (Lic × S) DeviceError
  lic_device = record {
    base = Lic.base;
    size = Lic.region_size;
    read = λ ls offset size. kept_read ls (Lic.read mmio ls.0 offset size ls.1);
    write = λ ls offset size value. Lic.write mmio ls.0 offset size value ls.1;
  }

  unfoldable pub initialize : Option ℕ → Option ℕ → S → Shared × S
  initialize owned_interrupt network_interrupt s =
      let distributor =
        Gic.set_network_interrupt (Gic.set_owned_interrupt Gic.new owned_interrupt)
          network_interrupt in
      let (d, s') = Gic.initialize mmio layout.distributor distributor s in
      let owned_source = source_of layout owned_interrupt in
      let network_source = source_of layout network_interrupt in
      let lic = Lic.set_network_source (Lic.set_owned_source Lic.new owned_source) network_source in
      (
        record (publish_distributor new d) {
          legacy = if is_none owned_source && is_none network_source then none else some lic;
          lic_owned_source_enabled = is_none owned_source || lic.usb.guest_enabled;
          lic_network_source_enabled = is_none network_source || lic.network.guest_enabled;
        },
        Lic.initialize mmio lic s',
      )

-- An attempt of an access at one device: whether it was done, the state and the registers.
abbrev pub Attempt : Type 0 → Type 0 → Type 0
Attempt D S = VirtualDevice (D × S) DeviceError → D × S → List ℕ → Bool × (D × S) × List ℕ

unfoldable pub by_syndrome : {D S : Type 0} → ℕ → ℕ → ℕ → Attempt D S
by_syndrome esr far hpfar device ds registers = Emulate.emulate device esr far hpfar ds registers

unfoldable pub with_writeback :
    {D S : Type 0}
    → VirtualDevice (D × S) DeviceError
    → Option (Access × Writeback)
    → D × S
    → List ℕ
    → Bool × (D × S) × List ℕ
with_writeback device none ds registers = (false, ds, registers)
with_writeback device (some (a, w)) ds registers =
    let (handled, ds', registers') = emulate_access device a ds registers in
    (handled, ds', if handled then set registers' w.base_register w.value else registers')

unfoldable pub by_instruction : {D S : Type 0} → ℕ → ℕ → ℕ → ℕ → Attempt D S
by_instruction esr far hpfar instruction device ds registers =
    with_writeback device
      (decode_store_post_index_region esr far hpfar instruction device.base device.size registers)
      ds registers

module _ {S : Type 0} (mmio : Mmio S) (layout : Layout) where
  -- The step under each lock, and both in order.
  unfoldable pub at_distributor :
      Attempt Distributor S
      → Option Distributor
      → Shared
      → S
      → List ℕ
      → Bool × (Shared × S) × List ℕ
  at_distributor attempt none w s registers = (false, (w, s), registers)
  at_distributor attempt (some d) w s registers =
      let (handled, (d', s'), registers') =
        attempt (distributor_device mmio layout) (d, s) registers in
      (
        handled,
        (if handled then publish_distributor w d' else record w { distributor = some d' }, s'),
        registers',
      )

  unfoldable pub at_lic :
      Attempt Lic S → Option Lic → Shared → S → List ℕ → Bool × (Shared × S) × List ℕ
  at_lic attempt none w s registers = (false, (w, s), registers)
  at_lic attempt (some l) w s registers =
      let (handled, (l', s'), registers') = attempt (lic_device mmio layout) (l, s) registers in
      (
        handled,
        (if handled then publish_lic w l' else record w { legacy = some l' }, s'),
        registers',
      )

  unfoldable pub dispatch_access :
      Attempt Distributor S → Attempt Lic S → Shared → S → List ℕ → Bool × (Shared × S) × List ℕ
  dispatch_access first second w s registers =
      let (handled, (w', s'), registers') = at_distributor first w.distributor w s registers in
      if handled then (true, (w', s'), registers') else at_lic second w'.legacy w' s' registers'

  unfoldable pub emulate : ℕ → ℕ → ℕ → Shared → S → List ℕ → Bool × (Shared × S) × List ℕ
  emulate esr far hpfar = dispatch_access (by_syndrome esr far hpfar) (by_syndrome esr far hpfar)

  unfoldable pub emulate_store_post_index :
      ℕ → ℕ → ℕ → ℕ → Shared → S → List ℕ → Bool × (Shared × S) × List ℕ
  emulate_store_post_index esr far hpfar instruction =
      dispatch_access (by_instruction esr far hpfar instruction)
        (by_instruction esr far hpfar instruction)
