-- ===== src/Psci/Bakery.antt =====
-- `Claims` of psci.rs: the Bakery lock, one load or store of a slot at a time. A step in which a CPU
-- only spins changes nothing. The memory is sequentially consistent, as the code's accesses ask for.
pub mod Agreement
pub mod Exclusion
pub mod Progress
mod Tests
use switchvisor.Base.{
  ℕ, ◌+◌, ◌*◌, ◌/◌, ◌%◌, ◌^◌, ◌-◌, max, Bool, true, false, ◌||◌, ◌&&◌, not, ltb, leb, ◌==◌,
  if◌then◌else◌, List, [], ◌∷◌, Option, none, some,
}
use switchvisor.Psci.{cpu_count}

-- Where a CPU is in `enter`: outside of it; in the scan for the maximum, with `k` slots loaded;
-- at the loop on the choosing bit of a CPU; at the loop on its number; past `enter`.
pub data Stage : Type 0 where
  outside : Stage
  scans : (k maximum : ℕ) → Stage
  waits_choice waits_turn : (number other : ℕ) → Stage
  holds : (number : ℕ) → Stage

-- `u64::MAX >> 1`
abbrev pub last_number : ℕ
last_number = 2 ^ 63 - 1

-- `theirs == 0 || (theirs, other) >= (number, caller)`
unfoldable pub may_pass : ℕ → ℕ → ℕ → ℕ → Bool
may_pass theirs other number caller =
    theirs == 0 || ltb number theirs || (theirs == number && leb caller other)

-- The next CPU to wait for; the CPU itself is left out.
unfoldable pub await : ℕ → ℕ → ℕ → Stage
await caller number other =
    if other == caller then waits_choice number (other + 1) else waits_choice number other

-- One step of `caller`: its new stage, and what it stores to its slot. Past `enter` the step is the
-- drop of the claim.
unfoldable pub act : (ℕ → ℕ) → ℕ → Stage → Stage × Option ℕ
act slots caller outside = (scans 0 0, some 1)
act slots caller (scans k maximum) =
    if ltb k cpu_count
    then (scans (k + 1) (max maximum (slots k / 2)), none)
    else if maximum == last_number
    then (outside, some 0)
    else (await caller (maximum + 1) 0, some ((maximum + 1) * 2 % 2 ^ 64))
act slots caller (waits_choice number other) =
    if leb cpu_count other
    then (holds number, none)
    else if slots other % 2 == 0
    then (waits_turn number other, none)
    else (waits_choice number other, none)
act slots caller (waits_turn number other) =
    if may_pass (slots other / 2) other number caller
    then (await caller number (other + 1), none)
    else (waits_turn number other, none)
act slots caller (holds number) = (outside, some 0)

pub record World : Type 0 where
  pub slots : ℕ → ℕ
  pub stage : ℕ → Stage

unfoldable pub start : World
start = record { slots = λ c. 0; stage = λ c. outside }

abbrev pub stored : (ℕ → ℕ) → ℕ → Option ℕ → ℕ → ℕ
stored slots caller none c = slots c
stored slots caller (some word) c = if c == caller then word else slots c

unfoldable pub step : World → ℕ → World
step w caller =
    let (next, store) = act w.slots caller (w.stage caller) in
    record {
      slots = stored w.slots caller store;
      stage = λ c. if c == caller then next else w.stage c;
    }

-- A schedule names the CPU of each step; there are no CPUs but the four.
unfoldable pub run : World → List ℕ → World
run w [] = w
run w (caller ∷ rest) = run (if ltb caller cpu_count then step w caller else w) rest

abbrev pub is_inside : Stage → Bool
is_inside outside = false
is_inside (scans k m) = false
is_inside (waits_choice n o) = false
is_inside (waits_turn n o) = false
is_inside (holds n) = true
