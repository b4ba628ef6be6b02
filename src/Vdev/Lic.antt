-- ===== src/Vdev/Lic.antt =====
-- crates/switchvisor/src/vdev/lic.rs: the legacy interrupt controller, passed through but for the
-- two sources that EL2 owns. `Owned` holds the elements of `owned_source` and `guest_enabled` at
-- one index; `usb` is the index 0 and `network` the index 1.
pub mod Protect
pub mod Enable
mod Tests
use switchvisor.Base.{
  ℕ, ◌+◌, ◌-◌, ◌*◌, ◌/◌, ◌%◌, ◌^◌, Bool, true, false, ◌&&◌, ◌||◌, not, leb, ltb, ◌==◌,
  if◌then◌else◌, [], ◌∷◌, bit_and, bit_or, not32, Option, none, some, Result, ok, err,
}
use switchvisor.Drivers.{Mmio}
use switchvisor.Vdev.Ownership.{is_one_of}
use switchvisor.Vdev.Uart.Device.{DeviceError, access_size}

abbrev pub base : ℕ
base = 0x6000_4000

abbrev pub region_size : ℕ
region_size = 0x1000

abbrev pub bank_stride : ℕ
bank_stride = 0x100

abbrev pub source_count : ℕ
source_count = 192

abbrev pub cpu_ier : ℕ
cpu_ier = 0x20

abbrev pub cpu_ier_set : ℕ
cpu_ier_set = 0x24

abbrev pub cpu_ier_clr : ℕ
cpu_ier_clr = 0x28

abbrev pub cpu_iep_class : ℕ
cpu_iep_class = 0x2c

-- `VFIQ`, `ISR`, the three of `FIR` and `IER`.
abbrev pub is_masked : ℕ → Bool
is_masked register = is_one_of register (0x08 ∷ 0x10 ∷ 0x14 ∷ 0x18 ∷ 0x1c ∷ cpu_ier ∷ [])

abbrev pub is_register : ℕ → Bool
is_register register =
    is_masked register || is_one_of register (cpu_ier_set ∷ cpu_ier_clr ∷ cpu_iep_class ∷ [])

pub record Owned : Type 0 where
  pub owned_source : Option ℕ
  pub guest_enabled : Bool

pub record Lic : Type 0 where
  pub usb : Owned
  pub network : Owned

unfoldable pub new : Lic
new = record {
  usb = record { owned_source = none; guest_enabled = false };
  network = record { owned_source = none; guest_enabled = false };
}

-- `source.filter(|source| *source < SOURCE_COUNT)`
unfoldable pub select : Option ℕ → Owned
select none = record { owned_source = none; guest_enabled = false }
select (some n) = record {
  owned_source = if ltb n source_count then some n else none;
  guest_enabled = false;
}

unfoldable pub set_owned_source : Lic → Option ℕ → Lic
set_owned_source l source = record l { usb = select source }

unfoldable pub set_network_source : Lic → Option ℕ → Lic
set_network_source l source = record l { network = select source }

-- `owned`: the bank of a source and its bit there.
abbrev pub bank_of : ℕ → ℕ
bank_of n = n / 32 * bank_stride

abbrev pub owned_bit : ℕ → ℕ
owned_bit n = 2 ^ (n % 32)

-- `offset.checked_sub(bank)`
abbrev pub register_in : ℕ → ℕ → Option ℕ
register_in n offset = if leb (bank_of n) offset then some (offset - bank_of n) else none

-- One round of the loop of `read_word`.
unfoldable pub read_register : ℕ → Bool → Option ℕ → ℕ → ℕ
read_register n enabled none value = value
read_register n enabled (some register) value =
    let hidden = if is_register register then bit_and value (not32 (owned_bit n)) else value in
    if register == cpu_ier && enabled then bit_or hidden (owned_bit n) else hidden

unfoldable pub read_round : ℕ → Option ℕ → Bool → ℕ → ℕ
read_round offset none enabled value = value
read_round offset (some n) enabled value = read_register n enabled (register_in n offset) value

-- What the guest reads where the register holds `value`.
unfoldable pub seen : Lic → ℕ → ℕ → ℕ
seen l offset value =
    read_round offset l.network.owned_source l.network.guest_enabled
      (read_round offset l.usb.owned_source l.usb.guest_enabled value)

-- A size other than 4, an offset that is not aligned or not within the region.
abbrev pub is_refused : ℕ → ℕ → Bool
is_refused offset size = not (size == 4) || not (offset % 4 == 0) || leb region_size offset

module _ {S : Type 0} (mmio : Mmio S) where
  unfoldable pub initialize_one : Option ℕ → S → S
  initialize_one none s = s
  initialize_one (some n) s =
      let (class, s') = mmio.read32 s (base + bank_of n + cpu_iep_class) in
      let routed =
        mmio.write32 s' (base + bank_of n + cpu_iep_class) (bit_and class (not32 (owned_bit n))) in
      mmio.write32 routed (base + bank_of n + cpu_ier_set) (owned_bit n)

  unfoldable pub initialize : Lic → S → S
  initialize l s =
      mmio.barrier (initialize_one l.network.owned_source (initialize_one l.usb.owned_source s))

  unfoldable pub read_word : Lic → ℕ → S → ℕ × S
  read_word l offset s =
      let (value, s') = mmio.read32 s (base + offset) in (seen l offset value, s')

  -- The match of the loop of `write_word`: the guest's enable, what is left of the value, and the
  -- state after a read of the current class.
  unfoldable pub write_register : ℕ → Bool → ℕ → Option ℕ → ℕ → S → (Bool × ℕ) × S
  write_register n enabled offset none value s = ((enabled, value), s)
  write_register n enabled offset (some register) value s =
      let mine = bit_and value (owned_bit n) in
      let others = bit_and value (not32 (owned_bit n)) in
      let (current, s') = mmio.read32 s (base + offset) in
      if register == cpu_ier_set
      then ((enabled || not (mine == 0), others), s)
      else if register == cpu_ier_clr
      then ((enabled && mine == 0, others), s)
      else if register == cpu_iep_class
      then ((enabled, bit_or others (bit_and current (owned_bit n))), s')
      else if is_masked register
      then ((enabled, others), s)
      else ((enabled, value), s)

  unfoldable pub write_round : Owned → ℕ → ℕ → S → (Owned × ℕ) × S
  write_round o offset value s = elim o.owned_source [
    | none ↦ ((o, value), s)
    | some n ↦
        (let ((enabled, left), s') =
            write_register n o.guest_enabled offset (register_in n offset) value s in
          ((record o { guest_enabled = enabled }, left), s'))
  ]

  -- Both rounds: the state of the device and the value that is left to write.
  unfoldable pub filter : Lic → ℕ → ℕ → S → (Lic × ℕ) × S
  filter l offset value s =
      let ((usb, first), s') = write_round l.usb offset value s in
      let ((network, second), s'') = write_round l.network offset first s' in
      ((record { usb = usb; network = network }, second), s'')

  unfoldable pub write_word : Lic → ℕ → ℕ → S → Lic × S
  write_word l offset value s =
      let ((l', left), s') = filter l offset value s in
      (l', mmio.barrier (mmio.write32 s' (base + offset) left))

  unfoldable pub read : Lic → ℕ → ℕ → S → Result DeviceError (ℕ × S)
  read l offset size s =
      if is_refused offset size then err access_size else ok (read_word l offset s)

  unfoldable pub write : Lic → ℕ → ℕ → ℕ → S → Result DeviceError (Lic × S)
  write l offset size value s =
      if is_refused offset size
      then err access_size
      else ok (write_word l offset (value % 2 ^ 32) s)
