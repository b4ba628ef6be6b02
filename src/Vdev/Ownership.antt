-- ===== src/Vdev/Ownership.antt =====
-- crates/switchvisor/src/vdev/usb_ownership.rs: which registers EL2 keeps for its USB device, and
-- what is left of a guest's write to a register that they share.
pub mod Protect
mod Tests
use switchvisor.Base.{
  ℕ, ◌+◌, ◌-◌, ◌*◌, ◌/◌, ◌%◌, ◌^◌, Bool, true, false, ◌&&◌, ◌||◌, not, leb, ltb, ◌==◌,
  if◌then◌else◌, List, [], ◌∷◌, any, bit_and, bit_or, not32, Option, none, some, bit,
}

abbrev pub car : ℕ
car = 0x6000_6000

abbrev pub pmc : ℕ
pmc = 0x7000_e400

abbrev pub dev_asid : ℕ
dev_asid = 0x7001_928c

abbrev pub lic : ℕ
lic = 0x6000_4000

-- `PMC & !4095`
abbrev pub pmc_page : ℕ
pmc_page = pmc / 4096 * 4096

-- `XUSB` host and `PADCTL`; `XUDC`, `PCI` and `IPFS`; the legacy controllers.
abbrev pub controllers : List (ℕ × ℕ)
controllers = (0x7009_0000, 0x1_0000) ∷ (0x700d_0000, 0x1_0000) ∷ (0x7d00_0000, 0x20_0000) ∷ []

unfoldable pub controller : ℕ → Bool
controller address = any (λ c. leb c.0 address && ltb address (c.0 + c.1)) controllers

-- `matches!(v, a | b | …)`
abbrev pub is_one_of : ℕ → List ℕ → Bool
is_one_of v = any (λ w. v == w)

-- `address.checked_sub(CAR)` is `none` below `CAR`.
unfoldable pub reads_current : ℕ → Bool
reads_current address =
    address == pmc + 0xf0
    || (leb car address
        && is_one_of (address - car)
            (0x04 ∷ 0x08 ∷ 0x0c ∷ 0x10 ∷ 0x14 ∷ 0x18 ∷ 0x35c ∷ 0x364 ∷ 0x298 ∷ 0x2a4 ∷ []))

-- The registers of the clock controller that the guest may not write.
abbrev pub is_blocked : ℕ → Bool
is_blocked offset = is_one_of offset (
    0xc0 ∷ 0xc4 ∷ 0xcc ∷ 0x480 ∷ 0x484 ∷ 0x488 ∷ 0x4c0 ∷ 0x52c ∷ 0x608 ∷ 0x60c ∷ 0x610 ∷ 0x6cc ∷ [])

abbrev pub mask_l : ℕ
mask_l = 2 ^ 22

abbrev pub mask_h : ℕ
mask_h = 2 ^ 26 + 2 ^ 27

abbrev pub mask_u : ℕ
mask_u = 2 ^ 25 + 2 ^ 31

abbrev pub mask_w : ℕ
mask_w = 2 ^ 14 + 2 ^ 15 + 2 ^ 28

abbrev pub mask_y : ℕ
mask_y = 2 ^ 18 + 2 ^ 19

-- The bits of a register that belong to EL2, and whether it is written one bit at a time.
unfoldable pub protection : ℕ → Option (ℕ × Bool)
protection offset =
    if is_one_of offset (0x04 ∷ 0x10 ∷ [])
    then some (mask_l, false)
    else if is_one_of offset (0x08 ∷ 0x14 ∷ [])
    then some (mask_h, false)
    else if is_one_of offset (0x0c ∷ 0x18 ∷ [])
    then some (mask_u, false)
    else if is_one_of offset (0x35c ∷ 0x364 ∷ [])
    then some (mask_w, false)
    else if is_one_of offset (0x298 ∷ 0x2a4 ∷ [])
    then some (mask_y, false)
    else if is_one_of offset (0x300 ∷ 0x304 ∷ 0x320 ∷ 0x324 ∷ [])
    then some (mask_l, true)
    else if is_one_of offset (0x308 ∷ 0x30c ∷ 0x328 ∷ 0x32c ∷ [])
    then some (mask_h, true)
    else if is_one_of offset (0x310 ∷ 0x314 ∷ 0x330 ∷ 0x334 ∷ [])
    then some (mask_u, true)
    else if is_one_of offset (0x438 ∷ 0x43c ∷ 0x448 ∷ 0x44c ∷ [])
    then some (mask_w, true)
    else if is_one_of offset (0x29c ∷ 0x2a0 ∷ 0x2a8 ∷ 0x2ac ∷ [])
    then some (mask_y, true)
    else none

-- `(value & !mask) | (current & mask)`
unfoldable pub merge : ℕ → ℕ → ℕ → ℕ
merge value current mask = bit_or (bit_and value (not32 mask)) (bit_and current mask)

-- What is written for a guest's write of `value` where `current` is read back; `none` if the
-- write is suppressed.
unfoldable pub write : ℕ → ℕ → ℕ → Option ℕ
write address value current =
    if address == dev_asid
    then none
    else if address == pmc + 0x30 && bit value 8 && leb 20 (value % 32) && leb (value % 32) 22
    then none
    else if address == pmc + 0xf0
    then some (merge value current 12)
    else if ltb address car || leb 4096 (address - car)
    then some value
    else if is_blocked (address - car)
    then none
    else elim (protection (address - car)) [
      | none ↦ some value
      | some (mask, write_one) ↦
          some (if write_one then bit_and value (not32 mask) else merge value current mask)
    ]
