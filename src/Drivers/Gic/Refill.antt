-- ===== src/Drivers/Gic/Refill.antt =====
-- The loop of `refill` ends within its rounds, and moves the most urgent interrupts to free list
-- registers until there is none of either.
use native.Mathlib.Nat.{pow-succ'}
use switchvisor.Base.{
  ℕ, zero, suc, ◌+◌, ◌-◌, ◌/◌, ◌%◌, ◌^◌, ◌<◌, ◌≤◌, ◌≡◌, ◌≢◌, refl, ap, ◌∙◌, sym, Bool, true, false,
  ◌&&◌, ◌||◌, not, ◌==◌, List, [], ◌∷◌, get_or, Option, none, some, arith, bit, bit-suc, bit_and,
  not64, bit-clear64, bit_two_pow, bit_and-le, no_bits, Bool-cases, inl, inr, ◌⊎◌, dec_lt,
  ℕ_discrete, length-set,
}
use switchvisor.Drivers.{Mmio}
use switchvisor.Drivers.Gic.{
  Gic, Layout, Pending, is_valid, pending_slots, empty_pending, pending_at, place, pop_highest,
  next_pop, trailing_zeros,
}
use switchvisor.Drivers.Gic.Controller.{inject, refill_rounds}
use switchvisor.Drivers.Gic.Valid.{IsValid, IsWaiting, put, put-IsValid, waiting, waiting-set}
use switchvisor.Drivers.Gic.Pop.{is_eligible, IsPop, IsUrgent, pop_highest-IsPop}

below_suc :
    (x : ℕ) {t : ℕ}
    → (x % 2 == 1) ≡ false
    → ((k : ℕ) → k < t → bit (x / 2) k ≡ false)
    → (k : ℕ) → k < suc t
    → bit x k ≡ false
below_suc x e f zero lt = ground arith
below_suc x e f (suc k) lt = bit-suc x k ∙ f k (omega arith)

-- The lowest bit of a word that is not 0.
pub trailing_zeros-lowest :
    (w x : ℕ)
    → x < 2 ^ w
    → x ≢ 0
    → (trailing_zeros w x < w)
      × (bit x (trailing_zeros w x) ≡ true)
      × ((k : ℕ) → k < trailing_zeros w x → bit x k ≡ false)
unfolding trailing_zeros
trailing_zeros-lowest zero x h ne = absurd (ne (omega arith))
trailing_zeros-lowest (suc w) x h ne = elim (Bool-cases (x % 2 == 1)) [
  | inl e ↦ rw e (omega arith, ground arith, λ k lt. absurd (omega arith))
  | inr e ↦ rw e (
      let ih =
        trailing_zeros-lowest w (x / 2) (omega (arith, pow-succ' 2 w))
          (λ z. ne (let even : x % 2 ≡ 0 = ground arith in omega arith)) in
      (omega (arith, ih.0), bit-suc x (trailing_zeros w (x / 2)) ∙ ih.1, below_suc x e ih.2))
]

-- The word after a round: its lowest bit is gone.
abbrev pub clear_lowest : ℕ → ℕ
clear_lowest x = bit_and x (not64 (2 ^ trailing_zeros 64 x))

bit-clear_lowest :
    (x k : ℕ) → k < 64 → bit (clear_lowest x) k ≡ (bit x k && not (k == trailing_zeros 64 x))
bit-clear_lowest x k h =
    bit-clear64 k x (2 ^ trailing_zeros 64 x) h
    ∙ ap (λ t. bit x k && not t) (bit_two_pow (trailing_zeros 64 x) k)

-- No bit below `j`: then there is none up to the lowest one, after the round.
unfoldable pub IsClearBelow : ℕ → ℕ → Type 0
IsClearBelow x j = (x < 2 ^ 64) × ((k : ℕ) → k < j → k < 64 → bit x k ≡ false)

clear_lowest-IsClearBelow :
    (x j : ℕ) → x ≢ 0 → IsClearBelow x j → IsClearBelow (clear_lowest x) (suc j)
unfolding IsClearBelow
clear_lowest-IsClearBelow x j ne c =
    let low = trailing_zeros-lowest 64 x c.0 ne in
    let t = trailing_zeros 64 x in
    (
      omega (arith, bit_and-le x (not64 (2 ^ t)), c.0),
      λ k lt lt'.
          (let cleared = bit-clear_lowest x k lt' in
            elim (ℕ_discrete k t) [
              | yes e ↦ ground arith
              | no apart ↦ elim (dec_lt k t) [
                | yes below ↦ (let nothing = low.2 k below in ground arith)
                | no above ↦
                    (let nothing : bit x t ≡ false = c.1 t (omega arith) low.0 in ground arith)
              ]
            ]),
    )

clear_below-zero : (x j : ℕ) → 64 ≤ j → IsClearBelow x j → x ≡ 0
unfolding IsClearBelow
clear_below-zero x j h c = no_bits 64 x c.0 (λ k lt. c.1 k (omega arith) lt)

not_clear : (x j : ℕ) → x ≢ 0 → IsClearBelow x j → j < 64
not_clear x j ne c = elim (dec_lt j 64) [
  | yes lt ↦ lt
  | no ge ↦ absurd (ne (clear_below-zero x j (omega arith) c))
]

-- `moves` tells the slot that an interrupt leaves and the list register that it goes to.
abbrev pub take_out : Gic → ℕ → Gic
take_out g k = put g k empty_pending (g.pending_count - 1)

abbrev pub move : Gic → ℕ → ℕ → Gic
move g k i = place (take_out g k) i (pending_at g k)

-- Each move takes the most urgent eligible interrupt to a list register that is free in `empty`; at
-- the end no list register is free or no interrupt is eligible.
unfoldable pub IsPlan : Gic → ℕ → List (ℕ × ℕ) → Type 0
IsPlan g empty [] = (empty ≡ 0) ⊎ ((k : ℕ) → is_eligible g k ≡ false)
IsPlan g empty ((k, i) ∷ moves) =
    (i < 64)
    × (bit empty i ≡ true)
    × (k < pending_slots)
    × (is_eligible g k ≡ true)
    × ((j : ℕ) → is_eligible g j ≡ true → IsUrgent (pending_at g k) (pending_at g j))
    × IsPlan (move g k i) (bit_and empty (not64 (2 ^ i))) moves

-- An empty table has no eligible interrupt.
waiting-zero :
    (ps : List Pending) → waiting ps ≡ 0 → (k : ℕ) → is_valid (get_or ps k empty_pending) ≡ false
unfolding waiting is_valid
waiting-zero [] h k = refl
waiting-zero (p ∷ ps) h zero = ground arith
waiting-zero (p ∷ ps) h (suc k) = waiting-zero ps (ground arith) k

none_waiting : (g : Gic) → IsValid g → g.pending_count ≡ 0 → (k : ℕ) → is_eligible g k ≡ false
unfolding is_eligible
none_waiting g v h k = let nothing = waiting-zero g.pending (sym v.counted ∙ h) k in ground arith

pub take_out-IsValid :
    (g : Gic) (k : ℕ) → IsValid g → k < pending_slots → IsWaiting g k → IsValid (take_out g k)
unfolding IsWaiting is_valid
take_out-IsValid g k v h w =
    let total = waiting-set g.pending k empty_pending (omega (arith, v.length_pending)) in
    let counts = v.counted in
    put-IsValid g k empty_pending (g.pending_count - 1) v h (λ f. ground arith) (ground arith)

pub move-IsValid :
    (g : Gic) (k i : ℕ) → IsValid g → k < pending_slots → IsWaiting g k → IsValid (move g k i)
unfolding place
move-IsValid g k i v h w =
    let taken = take_out-IsValid g k v h w in
    record {
      length_pending = taken.length_pending;
      length_lr_iar = length-set g.lr_iar i _ ∙ v.length_lr_iar;
      few = v.few;
      counted = taken.counted;
      in_slot = taken.in_slot;
    }

module _ {S : Type 0} (mmio : Mmio S) (layout : Layout) where
  -- The moves on the hardware.
  unfoldable pub replay : Gic → S → List (ℕ × ℕ) → Gic × S
  replay g s [] = (g, s)
  replay g s ((k, i) ∷ moves) =
      let (g', s') = inject mmio layout (take_out g k) i (pending_at g k) s in replay g' s' moves

  -- What a loop that ends does.
  unfoldable pub IsRefill : Gic → ℕ → S → Bool × (Gic × S) → Type 0
  IsRefill g empty s result =
      (moves : List (ℕ × ℕ)) × (result ≡ (true, replay g s moves)) × IsPlan g empty moves

  ended-IsRefill :
      (g : Gic) (empty : ℕ) (s : S)
      → (empty ≡ 0) ⊎ ((k : ℕ) → is_eligible g k ≡ false)
      → IsRefill g empty s (true, (g, s))
  unfolding IsRefill IsPlan replay
  ended-IsRefill g empty s h = ([], refl, h)

  moved-IsRefill :
      (g : Gic) (empty k : ℕ) (s : S) (result : Bool × (Gic × S))
      → empty < 2 ^ 64
      → empty ≢ 0
      → k < pending_slots
      → is_eligible g k ≡ true
      → ((j : ℕ) → is_eligible g j ≡ true → IsUrgent (pending_at g k) (pending_at g j))
      → IsRefill
          (move g k (trailing_zeros 64 empty))
          (clear_lowest empty)
          (inject mmio layout (take_out g k) (trailing_zeros 64 empty) (pending_at g k) s).1
          result
      → IsRefill g empty s result
  unfolding IsRefill IsPlan replay inject
  moved-IsRefill g empty k s result h ne lt el best r =
      let low = trailing_zeros-lowest 64 empty h ne in
      ((k, trailing_zeros 64 empty) ∷ r.0, r.1, (low.0, low.1, lt, el, best, r.2))

  -- A round, given what the rounds after it do.
  round-IsRefill :
      (n empty : ℕ) (g : Gic) (s : S) (popped : Option (Pending × Gic))
      → empty < 2 ^ 64
      → empty ≢ 0
      → IsPop g popped
      → ((k : ℕ)
          → k < pending_slots
          → is_eligible g k ≡ true
          → let next =
              inject mmio layout (take_out g k) (trailing_zeros 64 empty) (pending_at g k) s in
            IsRefill next.0
              (clear_lowest empty)
              next.1
              (refill_rounds mmio layout n (clear_lowest empty) next.0 next.1))
      → IsRefill g empty s (elim popped [
        | none ↦ (true, (g, s))
        | some (p, g') ↦
            (let (g'', s') = inject mmio layout g' (trailing_zeros 64 empty) p s in
              refill_rounds mmio layout n (clear_lowest empty) g'' s')
      ])
  unfolding IsPop inject
  round-IsRefill n empty g s none h ne popped rest = ended-IsRefill g empty s (inr popped)
  round-IsRefill n empty g s (some (p, g')) h ne (k, lt, mine, el, best, taken) rest =
      rw (taken, mine)
        (moved-IsRefill g empty k s _ h ne lt el (λ j e. rw mine at (best j e)) (rest k lt el))

  pub refill_rounds-IsRefill :
      (n j empty : ℕ) (g : Gic) (s : S)
      → 65 ≤ n + j
      → j ≤ 64
      → IsClearBelow empty j
      → IsValid g
      → IsRefill g empty s (refill_rounds mmio layout n empty g s)
  unfolding refill_rounds next_pop inject IsClearBelow is_eligible IsWaiting
  refill_rounds-IsRefill zero j empty g s h le c v = absurd (omega arith)
  refill_rounds-IsRefill (suc n) j empty g s h le c v =
      elim (Bool-cases (empty == 0 || g.pending_count == 0)) [
        | inl e ↦
            rw (refill_rounds, e)
              (ended-IsRefill g empty s (elim (ℕ_discrete empty 0) [
                | yes z ↦ inl z
                | no ne ↦ inr (none_waiting g v (ground arith))
              ]))
        | inr e ↦
            rw (refill_rounds, e)
              (let ne : empty ≢ 0 = λ z. ground arith in
                let more : j < 64 = not_clear empty j ne c in
                round-IsRefill n empty g s (pop_highest g) c.0 ne (pop_highest-IsPop g v)
                  (λ k lt el.
                    refill_rounds-IsRefill n (suc j) (clear_lowest empty) _ _ (omega arith)
                      (omega arith) (clear_lowest-IsClearBelow empty j ne c)
                      (move-IsValid g k _ v lt (ground arith))))
      ]
