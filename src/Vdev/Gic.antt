-- ===== src/Vdev/Gic.antt =====
-- crates/switchvisor/src/vdev/gicv2.rs: the distributor that the guest sees, passed through but for
-- the maintenance interrupt and the two interrupts that EL2 owns. `Owned` holds the elements of
-- `owned_interrupt`, `owned_interrupt_enabled` and `owned_interrupt_priority` at one index; `usb` is
-- the index 0 and `network` the index 1.
pub mod Masks
pub mod Protect
pub mod View
mod Tests
use switchvisor.Base.{
  ℕ, ◌+◌, ◌-◌, ◌*◌, ◌/◌, ◌%◌, ◌^◌, Bool, true, false, ◌&&◌, ◌||◌, not, leb, ltb, ◌==◌,
  if◌then◌else◌, List, [], ◌∷◌, bit_and, bit_or, not32, Option, none, some, Result, ok, err,
}
use switchvisor.Drivers.{Mmio}
use switchvisor.Vdev.Ownership.{is_one_of}
use switchvisor.Vdev.Uart.Device.{DeviceError, access_size}

abbrev pub spurious_irq : ℕ
spurious_irq = 1023

abbrev pub gicd_ctlr : ℕ
gicd_ctlr = 0x000

abbrev pub gicd_isenabler0 : ℕ
gicd_isenabler0 = 0x100

abbrev pub gicd_icenabler0 : ℕ
gicd_icenabler0 = 0x180

abbrev pub gicd_ipriorityr0 : ℕ
gicd_ipriorityr0 = 0x400

abbrev pub gicd_itargetsr0 : ℕ
gicd_itargetsr0 = 0x800

abbrev pub gicd_icfgr0 : ℕ
gicd_icfgr0 = 0xc00

-- `IGROUPR0`, `ISENABLER0`, `ICENABLER0`, `ISPENDR0`, `ICPENDR0`, `ISACTIVER0` and `ICACTIVER0`.
abbrev pub action_bases : List ℕ
action_bases = 0x080 ∷ gicd_isenabler0 ∷ gicd_icenabler0 ∷ 0x200 ∷ 0x280 ∷ 0x300 ∷ 0x380 ∷ []

abbrev pub maintenance_bit : ℕ
maintenance_bit = 2 ^ 25

abbrev pub maintenance_priority : ℕ
maintenance_priority = 0xff * 2 ^ 8

abbrev pub maintenance_config : ℕ
maintenance_config = 3 * 2 ^ 18

abbrev pub default_owned_priority : ℕ
default_owned_priority = 0xa0

pub record Owned : Type 0 where
  pub interrupt : ℕ
  pub enabled : Bool
  pub priority : ℕ

pub record Distributor : Type 0 where
  pub guest_control : ℕ
  pub usb : Owned
  pub network : Owned

abbrev pub unowned : Owned
unowned = record { interrupt = spurious_irq; enabled = false; priority = default_owned_priority }

unfoldable pub new : Distributor
new = record { guest_control = 0; usb = unowned; network = unowned }

-- `interrupt.filter(|id| (32..1020).contains(id)).unwrap_or(SPURIOUS_IRQ)`
unfoldable pub select : Option ℕ → Owned
select none = unowned
select (some id) = if leb 32 id && ltb id 1020 then record unowned { interrupt = id } else unowned

unfoldable pub set_owned_interrupt : Distributor → Option ℕ → Distributor
set_owned_interrupt d interrupt = record d { usb = select interrupt }

unfoldable pub set_network_interrupt : Distributor → Option ℕ → Distributor
set_network_interrupt d interrupt = record d { network = select interrupt }

unfoldable pub is_enabled : Distributor → Bool
is_enabled d = not (bit_and d.guest_control 1 == 0)

unfoldable pub word_mask : ℕ → ℕ → ℕ → ℕ
word_mask id offset base = if ltb id 1020 && offset == base + id / 32 * 4 then 2 ^ (id % 32) else 0

unfoldable pub owned_word_mask : Distributor → ℕ → ℕ → ℕ
owned_word_mask d offset base =
    bit_or (word_mask d.usb.interrupt offset base) (word_mask d.network.interrupt offset base)

unfoldable pub byte_mask : ℕ → ℕ → ℕ → ℕ
byte_mask id offset base =
    if ltb id 1020 && offset == base + id / 4 * 4 then 0xff * 2 ^ (id % 4 * 8) else 0

unfoldable pub owned_byte_mask : Distributor → ℕ → ℕ → ℕ
owned_byte_mask d offset base =
    bit_or (byte_mask d.usb.interrupt offset base) (byte_mask d.network.interrupt offset base)

unfoldable pub config_mask : ℕ → ℕ → ℕ
config_mask id offset =
    if ltb id 1020 && offset == gicd_icfgr0 + id / 16 * 4 then 3 * 2 ^ (id % 16 * 2) else 0

unfoldable pub owned_config_mask : Distributor → ℕ → ℕ
owned_config_mask d offset =
    bit_or (config_mask d.usb.interrupt offset) (config_mask d.network.interrupt offset)

-- The loop of `owned_action_mask`: the first mask that is not 0.
unfoldable pub first_mask : Distributor → ℕ → List ℕ → ℕ
first_mask d offset [] = 0
first_mask d offset (base ∷ bases) =
    let rest = first_mask d offset bases in
    if owned_word_mask d offset base == 0 then rest else owned_word_mask d offset base

unfoldable pub owned_action_mask : Distributor → ℕ → ℕ
owned_action_mask d offset = first_mask d offset action_bases

-- `IPRIORITYR6` is 0x418 and `ICFGR1` is 0xc04.
unfoldable pub maintenance_mask : ℕ → ℕ
maintenance_mask offset =
    if is_one_of offset action_bases
    then maintenance_bit
    else if offset == 0x418
    then maintenance_priority
    else if offset == 0xc04
    then maintenance_config
    else 0

unfoldable pub protected_mask : Distributor → ℕ → ℕ
protected_mask d offset =
    bit_or
      (bit_or
        (bit_or (bit_or (maintenance_mask offset) (owned_action_mask d offset))
          (owned_byte_mask d offset gicd_ipriorityr0))
        (owned_byte_mask d offset gicd_itargetsr0))
      (owned_config_mask d offset)

unfoldable pub is_write_one : ℕ → Bool
is_write_one offset = leb 0x100 offset && ltb offset 0x400 || leb 0xf10 offset && ltb offset 0xf30

-- The word that holds an access, the shift and the mask of the bytes in it.
unfoldable pub decode_access : ℕ → ℕ → Result DeviceError ((ℕ × ℕ) × ℕ)
decode_access offset size =
    let word = offset / 4 * 4 in
    let shift = offset % 4 * 8 in
    if not (is_one_of size (1 ∷ 2 ∷ 4 ∷ []))
    then err access_size
    else if ltb (word + 4) (offset + size)
    then err access_size
    else ok ((word, shift), 0xffff_ffff / 2 ^ (32 - size * 8) * 2 ^ shift % 2 ^ 32)

-- `guest_word`, of a register that holds `value`: the bits that the guest's own enables add.
unfoldable pub enable_bits : Owned → ℕ → ℕ
enable_bits o offset =
    if o.enabled
    then bit_or (word_mask o.interrupt offset gicd_isenabler0)
        (word_mask o.interrupt offset gicd_icenabler0)
    else 0

unfoldable pub with_priority : Owned → ℕ → ℕ → ℕ
with_priority o offset value =
    if ltb o.interrupt 1020 && offset == gicd_ipriorityr0 + o.interrupt / 4 * 4
    then bit_or (bit_and value (not32 (0xff * 2 ^ (o.interrupt % 4 * 8))))
        (o.priority * 2 ^ (o.interrupt % 4 * 8))
    else value

unfoldable pub without_maintenance : ℕ → ℕ → ℕ
without_maintenance offset value =
    if is_one_of offset (gicd_isenabler0 ∷ gicd_icenabler0 ∷ 0x200 ∷ 0x280 ∷ 0x300 ∷ 0x380 ∷ [])
    then bit_and value (not32 maintenance_bit)
    else value

unfoldable pub with_enables : Distributor → ℕ → ℕ → ℕ
with_enables d offset value =
    if owned_action_mask d offset == 0
    then value
    else bit_or
        (bit_or (bit_and value (not32 (owned_action_mask d offset))) (enable_bits d.usb offset))
        (enable_bits d.network offset)

unfoldable pub seen : Distributor → ℕ → ℕ → ℕ
seen d offset value =
    with_priority d.network offset
      (with_priority d.usb offset (with_enables d offset (without_maintenance offset value)))

-- One round of the loop of `write`: `value` and `mask` are those of the word.
unfoldable pub change_enable : Owned → ℕ → ℕ → Bool
change_enable o word value =
    if not (bit_and value (word_mask o.interrupt word gicd_icenabler0) == 0)
    then false
    else if not (bit_and value (word_mask o.interrupt word gicd_isenabler0) == 0)
    then true
    else o.enabled

unfoldable pub change_priority : Owned → ℕ → ℕ → ℕ → ℕ
change_priority o word mask value =
    let shift = o.interrupt % 4 * 8 in
    if ltb o.interrupt 1020
      && word == gicd_ipriorityr0 + o.interrupt / 4 * 4
      && not (bit_and mask (0xff * 2 ^ shift) == 0)
    then bit_and (value / 2 ^ shift % 256) 0xf8
    else o.priority

unfoldable pub change : Owned → ℕ → ℕ → ℕ → Owned
change o word mask value = record o {
  enabled = change_enable o word value;
  priority = change_priority o word mask value;
}

-- What is written to a word other than the control register, which holds `current`.
unfoldable pub merged : Distributor → ℕ → ℕ → ℕ → ℕ → ℕ
merged d word mask value current =
    bit_or (bit_and (bit_or (bit_and current (not32 mask)) value) (not32 (protected_mask d word)))
      (bit_and current (protected_mask d word))

-- `((self.guest_control & !mask) | value) & 1`
unfoldable pub next_control : ℕ → ℕ → ℕ → ℕ
next_control control mask value = bit_and (bit_or (bit_and control (not32 mask)) value) 1

-- What is written to a word that holds `current`.
unfoldable pub stored : Distributor → ℕ → ℕ → ℕ → ℕ → ℕ
stored d word mask value current =
    if word == gicd_ctlr
    then bit_or d.guest_control 1
    else if is_write_one word
    then bit_and value (not32 (protected_mask d word))
    else merged d word mask value current

-- The state of the device after a write: both rounds, and the control register.
unfoldable pub change_all : Distributor → ℕ → ℕ → ℕ → Distributor
change_all d word mask value = record {
  guest_control =
      if word == gicd_ctlr then next_control d.guest_control mask value else d.guest_control;
  usb = change d.usb word mask value;
  network = change d.network word mask value;
}

module _ {S : Type 0} (mmio : Mmio S) (distributor : ℕ) where
  unfoldable pub initialize : Distributor → S → Distributor × S
  initialize d s =
      let (control, s') = mmio.read32 s (distributor + gicd_ctlr) in
      let guest_control = bit_and control 1 in
      (
        record d { guest_control = guest_control },
        mmio.barrier (mmio.write32 s' (distributor + gicd_ctlr) (bit_or guest_control 1)),
      )

  unfoldable pub guest_word : Distributor → ℕ → S → ℕ × S
  guest_word d offset s =
      let (value, s') = mmio.read32 s (distributor + offset) in
      if offset == gicd_ctlr then (d.guest_control, s) else (seen d offset value, s')

  unfoldable pub read : Distributor → ℕ → ℕ → S → Result DeviceError (ℕ × S)
  read d offset size s = elim (decode_access offset size) [
    | err e ↦ err e
    | ok ((word, shift), mask) ↦
        (let (value, s') = guest_word d word s in ok (bit_and value mask / 2 ^ shift, s'))
  ]

  -- A word is read before it is written only where it is merged.
  unfoldable pub store : Distributor → ℕ → ℕ → ℕ → S → S
  store d word mask value s =
      let (current, s') = mmio.read32 s (distributor + word) in
      let before = if word == gicd_ctlr || is_write_one word then s else s' in
      mmio.write32 before (distributor + word) (stored d word mask value current)

  unfoldable pub write_word : Distributor → ℕ → ℕ → ℕ → S → Distributor × S
  write_word d word mask value s =
      let d' = change_all d word mask value in (d', mmio.barrier (store d' word mask value s))

  unfoldable pub write : Distributor → ℕ → ℕ → ℕ → S → Result DeviceError (Distributor × S)
  write d offset size value s = elim (decode_access offset size) [
    | err e ↦ err e
    | ok ((word, shift), mask) ↦
        ok (write_word d word mask (bit_and (value % 2 ^ 32 * 2 ^ shift % 2 ^ 32) mask) s)
  ]
