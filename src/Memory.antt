-- ===== src/Memory.antt =====
-- crates/switchvisor/src/memory.rs: nonempty half-open ranges of 64-bit addresses, and the
-- address constants of lib.rs and payload.rs.
use switchvisor.Base.{
  ℕ, ◌+◌, ◌-◌, ◌^◌, ◌≤◌, ◌<◌, max, ◌≡◌, ◌↔◌, Bool, true, ◌&&◌, Result, ok, err, checked_add, ltb,
  ◌==◌, if◌then◌else◌, none, some, arith,
}

abbrev pub ipa_limit : ℕ
ipa_limit = 2 ^ 36

abbrev pub page_size : ℕ
page_size = 4096

abbrev pub block_size : ℕ
block_size = 0x20_0000

abbrev pub load_base : ℕ
load_base = 0xaa00_0000

abbrev pub resident_base : ℕ
resident_base = 0xfec0_0000

abbrev pub resident_size : ℕ
resident_size = 0x100_0000

abbrev pub stack_top : ℕ
stack_top = 0x8a80_0000

pub record AddressRange : Type 0 where
  pub start : ℕ
  pub end : ℕ

pub data RangeError : Type 0 where
  empty overflow : RangeError

unfoldable pub new : ℕ → ℕ → Result RangeError AddressRange
new start size = if size == 0 then err empty else elim (checked_add start size) [
  | none ↦ err overflow
  | some end ↦ ok (record { start = start; end = end })
]

-- On a constructed range `start < end`, so the subtraction is exact.
abbrev pub size : AddressRange → ℕ
size r = r.end - r.start

abbrev pub overlaps : AddressRange → AddressRange → Bool
overlaps r other = ltb r.start other.end && ltb other.start r.end

abbrev pub Contains : AddressRange → ℕ → Type 0
Contains r a = (r.start ≤ a) × (a < r.end)

-- What the constructor accepts: the range is nonempty, has the asked size, and does not wrap.
pub new_bounds :
    (start n : ℕ) {r : AddressRange}
    → new start n ≡ ok r
    → (r.start ≡ start) × (r.end ≡ start + n) × (0 < n) × (start + n < 2 ^ 64)
unfolding new
new_bounds start n h = ground arith

-- Two constructed ranges overlap by the test exactly if they share an address.
pub overlaps_iff :
    (r q : AddressRange)
    → r.start < r.end
    → q.start < q.end
    → (overlaps r q ≡ true) ↔ ((a : ℕ) × Contains r a × Contains q a)
overlaps_iff r q hr hq =
    (λ h. (max r.start q.start, ground arith, ground arith), λ shared. ground arith)
