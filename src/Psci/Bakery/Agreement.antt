-- ===== src/Psci/Bakery/Agreement.antt =====
-- What two CPUs know of each other while they are in `enter`, and that a step of either keeps it.
use switchvisor.Base.{
  ℕ, ◌*◌, ◌/◌, ◌%◌, ◌<◌, ◌≤◌, ◌≡◌, ◌≢◌, refl, ap, ◌∙◌, max, Bool, true, false, ◌||◌, ◌&&◌, not, ltb,
  leb, ◌==◌, arith, ℕ_discrete,
}
use switchvisor.Psci.{cpu_count}
use switchvisor.Psci.Bakery.{
  Stage, outside, scans, waits_choice, waits_turn, holds, last_number, may_pass, await, act, stored,
}

-- What a CPU's slot holds, and the number that it announces.
abbrev pub number_of : Stage → ℕ
number_of outside = 0
number_of (scans k m) = 0
number_of (waits_choice n o) = n
number_of (waits_turn n o) = n
number_of (holds n) = n

abbrev pub slot_of : Stage → ℕ
slot_of outside = 0
slot_of (scans k m) = 1
slot_of (waits_choice n o) = n * 2
slot_of (waits_turn n o) = n * 2
slot_of (holds n) = n * 2

-- Numbers that are announced are positive and fit; so does a maximum.
abbrev pub is_sound : ℕ → Stage → Bool
is_sound c outside = true
is_sound c (scans k m) = leb m last_number
is_sound c (waits_choice n o) = ltb 0 n && leb n last_number && not (o == c)
is_sound c (waits_turn n o) = ltb 0 n && leb n last_number && not (o == c) && ltb o cpu_count
is_sound c (holds n) = ltb 0 n && leb n last_number

-- The CPU has seen `j` outside of its choice, or has passed it.
abbrev pub saw_choice : Stage → ℕ → Bool
saw_choice outside j = false
saw_choice (scans k m) j = false
saw_choice (waits_choice n o) j = ltb j o
saw_choice (waits_turn n o) j = leb j o
saw_choice (holds n) j = true

abbrev pub has_passed : Stage → ℕ → Bool
has_passed outside j = false
has_passed (scans k m) j = false
has_passed (waits_choice n o) j = ltb j o
has_passed (waits_turn n o) j = ltb j o
has_passed (holds n) j = true

-- A scan that has loaded the slot of `i` has met the number `n` there, or a larger one.
abbrev pub has_met : Stage → ℕ → ℕ → Bool
has_met outside i n = true
has_met (scans k m) i n = leb k i || leb n m
has_met (waits_choice n' o) i n = true
has_met (waits_turn n' o) i n = true
has_met (holds n') i n = true

-- The pair of the number and the CPU comes first, if the other announces a number at all.
abbrev pub is_first : ℕ → ℕ → ℕ → ℕ → Bool
is_first n i n' j = n' == 0 || ltb n n' || (n == n' && ltb i j)

-- What a CPU at the stage `p` knows of another at the stage `q`.
abbrev pub agrees : ℕ → ℕ → Stage → Stage → Bool
agrees i j p q =
    (not (saw_choice p j) || has_met q i (number_of p))
    && (not (has_passed p j) || is_first (number_of p) i (number_of q) j)

-- What a step stores is what belongs to the stage it leads to.
pub act-slot :
    (slots : ℕ → ℕ) (c : ℕ) (p : Stage)
    → slots c ≡ slot_of p
    → is_sound c p ≡ true
    → (k : ℕ) → stored slots c (act slots c p).1 c ≡ slot_of (act slots c p).0
unfolding act await
act-slot slots c outside m s k = ground arith
act-slot slots c (scans k' max) m s k = ground arith
act-slot slots c (waits_choice n o) m s k = ground arith
act-slot slots c (waits_turn n o) m s k = ground arith
act-slot slots c (holds n) m s k = ground arith

pub slot_half : (q : Stage) → slot_of q / 2 ≡ number_of q
slot_half outside = refl
slot_half (scans k m) = refl
slot_half (waits_choice n o) = omega arith
slot_half (waits_turn n o) = omega arith
slot_half (holds n) = omega arith

-- A slot without the choosing bit is not that of a scan.
pub has_met_even : (q : Stage) (i n : ℕ) → slot_of q % 2 ≡ 0 → has_met q i n ≡ true
has_met_even outside i n h = refl
has_met_even (scans k m) i n h = ground arith
has_met_even (waits_choice n' o) i n h = refl
has_met_even (waits_turn n' o) i n h = refl
has_met_even (holds n') i n h = refl

-- The CPU that moves, `c`, and another, `j`.
pub act-mine :
    (slots : ℕ → ℕ) (c j : ℕ) (p q : Stage)
    → slots j ≡ slot_of q
    → c < cpu_count
    → j < cpu_count
    → c ≢ j
    → is_sound c p ≡ true
    → is_sound j q ≡ true
    → agrees c j p q ≡ true
    → agrees c j (act slots c p).0 q ≡ true
unfolding act await may_pass
act-mine slots c j outside q m lc lj ne s t a = ground arith
act-mine slots c j (scans k max) q m lc lj ne s t a = ground arith
act-mine slots c j (waits_choice n o) q m lc lj ne s t a = elim (ℕ_discrete o j) [
  | yes e ↦
      let same : slots o ≡ slot_of q = ap slots e ∙ m in
      let met = has_met_even q c n in ground arith
  | no ne' ↦ ground arith
]
act-mine slots c j (waits_turn n o) q m lc lj ne s t a = elim (ℕ_discrete o j) [
  | yes e ↦
      let theirs : slots o / 2 ≡ number_of q =
        ap (λ k. slots k / 2) e ∙ ap (λ k. k / 2) m ∙ slot_half q in
      ground arith
  | no ne' ↦ ground arith
]
act-mine slots c j (holds n) q m lc lj ne s t a = ground arith

pub act-theirs :
    (slots : ℕ → ℕ) (c i : ℕ) (p q : Stage)
    → slots i ≡ slot_of q
    → c < cpu_count
    → i < cpu_count
    → c ≢ i
    → is_sound i q ≡ true
    → agrees i c q p ≡ true
    → agrees i c q (act slots c p).0 ≡ true
unfolding act await
act-theirs slots c i outside outside m lc li ne s a = ground arith
act-theirs slots c i outside (scans k' max') m lc li ne s a = ground arith
act-theirs slots c i outside (waits_choice n o) m lc li ne s a = ground arith
act-theirs slots c i outside (waits_turn n o) m lc li ne s a = ground arith
act-theirs slots c i outside (holds n) m lc li ne s a = ground arith
act-theirs slots c i (scans k maximum) outside m lc li ne s a = ground arith
act-theirs slots c i (scans k maximum) (scans k' max') m lc li ne s a = ground arith
act-theirs slots c i (scans k maximum) (waits_choice n o) m lc li ne s a = ground arith
act-theirs slots c i (scans k maximum) (waits_turn n o) m lc li ne s a = ground arith
act-theirs slots c i (scans k maximum) (holds n) m lc li ne s a = ground arith
act-theirs slots c i (waits_choice number other) outside m lc li ne s a = ground arith
act-theirs slots c i (waits_choice number other) (scans k' max') m lc li ne s a = ground arith
act-theirs slots c i (waits_choice number other) (waits_choice n o) m lc li ne s a = ground arith
act-theirs slots c i (waits_choice number other) (waits_turn n o) m lc li ne s a = ground arith
act-theirs slots c i (waits_choice number other) (holds n) m lc li ne s a = ground arith
act-theirs slots c i (waits_turn number other) outside m lc li ne s a = ground arith
act-theirs slots c i (waits_turn number other) (scans k' max') m lc li ne s a = ground arith
act-theirs slots c i (waits_turn number other) (waits_choice n o) m lc li ne s a = ground arith
act-theirs slots c i (waits_turn number other) (waits_turn n o) m lc li ne s a = ground arith
act-theirs slots c i (waits_turn number other) (holds n) m lc li ne s a = ground arith
act-theirs slots c i (holds number) outside m lc li ne s a = ground arith
act-theirs slots c i (holds number) (scans k' max') m lc li ne s a = ground arith
act-theirs slots c i (holds number) (waits_choice n o) m lc li ne s a = ground arith
act-theirs slots c i (holds number) (waits_turn n o) m lc li ne s a = ground arith
act-theirs slots c i (holds number) (holds n) m lc li ne s a = ground arith

pub number_bound : (c : ℕ) (q : Stage) → is_sound c q ≡ true → number_of q ≤ last_number
number_bound c outside h = omega arith
number_bound c (scans k m) h = omega arith
number_bound c (waits_choice n o) h = ground arith
number_bound c (waits_turn n o) h = ground arith
number_bound c (holds n) h = ground arith

pub act_sound :
    (slots : ℕ → ℕ) (c : ℕ) (p : Stage)
    → ((k : ℕ) → slots k / 2 ≤ last_number)
    → is_sound c p ≡ true
    → is_sound c (act slots c p).0 ≡ true
unfolding act await
act_sound slots c outside b s = ground arith
act_sound slots c (scans k m) b s = let here = b k in ground arith
act_sound slots c (waits_choice n o) b s = ground arith
act_sound slots c (waits_turn n o) b s = ground arith
act_sound slots c (holds n) b s = ground arith
