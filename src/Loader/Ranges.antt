-- ===== src/Loader/Ranges.antt =====
-- `guest_range` of loader.rs: the ranges that an upload may write.
use switchvisor.Base.{
  ℕ, ◌+◌, ◌-◌, ◌≤◌, ◌<◌, max, ◌≡◌, ◌↔◌, Bool, true, false, ◌||◌, ok, err, ltb, if◌then◌else◌, any,
  [], ◌∷◌, arith,
}
use switchvisor.Memory
use switchvisor.Memory.{AddressRange, Contains, overlaps, resident_base, stack_top}

abbrev pub guest_ram_base : ℕ
guest_ram_base = 0x8000_0000

abbrev pub guest_ram_end : ℕ
guest_ram_end = resident_base

-- The stack that EL2 boots on.
abbrev pub boot_stack : AddressRange
boot_stack = record { start = stack_top - 0x1_0000; end = stack_top }

abbrev pub framebuffer : AddressRange
framebuffer = record { start = 0xf5a0_0000; end = 0xf5a0_0000 + 0x40_0000 }

unfoldable pub guest_range : ℕ → ℕ → Bool
guest_range address size = elim (Memory.new address size) [
  | err e ↦ false
  | ok range ↦
      if ltb range.start guest_ram_base || ltb guest_ram_end range.end
      then false
      else if any (overlaps range) (boot_stack ∷ framebuffer ∷ [])
      then false
      else true
]

-- What the code means to protect, address by address.
pub record InGuest (address size : ℕ) : Type 0 where
  pub nonempty : 0 < size
  pub low : guest_ram_base ≤ address
  pub high : address + size ≤ guest_ram_end
  pub off_stack : (a : ℕ) → address ≤ a → a < address + size → ¬ Contains boot_stack a
  pub off_framebuffer : (a : ℕ) → address ≤ a → a < address + size → ¬ Contains framebuffer a

pub guest_range-InGuest :
    (address size : ℕ) → guest_range address size ≡ true → InGuest address size
unfolding guest_range Memory.new
guest_range-InGuest address size h = record {
  nonempty = ground arith;
  low = ground arith;
  high = ground arith;
  off_stack = λ a p q c. ground arith;
  off_framebuffer = λ a p q c. ground arith;
}

-- A nonempty part of an allowed range is allowed.
pub InGuest-part :
    (address size a n : ℕ)
    → InGuest address size
    → address ≤ a
    → a + n ≤ address + size
    → 0 < n
    → InGuest a n
InGuest-part address size a n g low high pos = record {
  nonempty = pos;
  low = omega (arith, g.low);
  high = omega (arith, g.high);
  off_stack = λ x p q. g.off_stack x (omega arith) (omega arith);
  off_framebuffer = λ x p q. g.off_framebuffer x (omega arith) (omega arith);
}

pub InGuest-guest_range :
    (address size : ℕ) → InGuest address size → guest_range address size ≡ true
unfolding guest_range Memory.new
InGuest-guest_range address size g = ground (
  arith,
  g.nonempty,
  g.low,
  g.high,
  g.off_stack (max address boot_stack.start),
  g.off_framebuffer (max address framebuffer.start),
)

-- A range passes the test exactly if it is nonempty, lies in low guest RAM below the resident
-- region, and has no address of EL2's boot stack or of the framebuffer.
pub guest_range_iff : (address size : ℕ) → (guest_range address size ≡ true) ↔ InGuest address size
guest_range_iff address size = (guest_range-InGuest address size, InGuest-guest_range address size)
