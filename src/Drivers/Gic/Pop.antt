-- ===== src/Drivers/Gic/Pop.antt =====
-- `pop_highest`: the scan of the table finds the first of the most urgent interrupts.
use switchvisor.Base.{
  ℕ, suc, ◌+◌, ◌-◌, ◌<◌, ◌≤◌, ◌≡◌, refl, ap, ◌∙◌, sym, Bool, true, false, ◌&&◌, List, [], ◌∷◌,
  length, get_or, Option, none, some, arith, Bool-cases, inl, inr, ◌⊎◌, dec_lt, ℕ_discrete,
}
use switchvisor.Drivers.Gic.{
  Gic, Pending, is_valid, is_injectable, pending_slots, empty_pending, pending_at, id_of, precedes,
  beats, find_best, pop_at, pop_highest,
}
use switchvisor.Drivers.Gic.Valid.{IsValid, put, get_or-out}

-- An interrupt waits at `k` that may go to a list register.
unfoldable pub is_eligible : Gic → ℕ → Bool
is_eligible g k = is_valid (pending_at g k) && is_injectable g (pending_at g k)

-- None of the first `n` slots is eligible, or `k` is, and no eligible one of them is more urgent.
unfoldable pub IsBest : Gic → ℕ → Option ℕ → Type 0
IsBest g n none = (j : ℕ) → j < n → is_eligible g j ≡ false
IsBest g n (some k) =
    (k < n)
    × (is_eligible g k ≡ true)
    × ((j : ℕ)
        → j < n
        → is_eligible g j ≡ true
        → precedes (pending_at g j) (pending_at g k) ≡ false)

precedes-irreflexive : (p : Pending) → precedes p p ≡ false
unfolding precedes
precedes-irreflexive p = ground arith

-- What is not before `q` is not before anything that `q` is not after.
precedes_trans :
    (p q r : Pending) → precedes r q ≡ true → precedes p q ≡ false → precedes p r ≡ false
unfolding precedes
precedes_trans p q r h k = ground arith

keep-IsBest :
    (g : Gic) (n : ℕ) (best : Option ℕ)
    → IsBest g n best
    → (is_eligible g n && beats g (pending_at g n) best) ≡ false
    → IsBest g (suc n) best
unfolding IsBest beats
keep-IsBest g n none b h = λ j lt. elim (ℕ_discrete j n) [
  | yes e ↦ ap (is_eligible g) e ∙ ground arith
  | no ne ↦ b j (omega arith)
]
keep-IsBest g n (some k) b h = (
  omega (arith, b.0),
  b.1,
  λ j lt e. elim (ℕ_discrete j n) [
    | yes same ↦
        (let mine = ap (is_eligible g) (sym same) ∙ e in
          ap (λ t. precedes (pending_at g t) (pending_at g k)) same ∙ ground arith)
    | no ne ↦ b.2 j (omega arith) e
  ],
)

take-IsBest :
    (g : Gic) (n : ℕ) (best : Option ℕ)
    → IsBest g n best
    → (is_eligible g n && beats g (pending_at g n) best) ≡ true
    → IsBest g (suc n) (some n)
unfolding IsBest beats
take-IsBest g n none b h = (
  omega arith,
  ground arith,
  λ j lt e. elim (ℕ_discrete j n) [
    | yes same ↦
        ap (λ t. precedes (pending_at g t) (pending_at g n)) same
        ∙ precedes-irreflexive (pending_at g n)
    | no ne ↦ (let nothing = b j (omega arith) in ground arith)
  ],
)
take-IsBest g n (some k) b h = (
  omega arith,
  ground arith,
  λ j lt e. elim (ℕ_discrete j n) [
    | yes same ↦
        ap (λ t. precedes (pending_at g t) (pending_at g n)) same
        ∙ precedes-irreflexive (pending_at g n)
    | no ne ↦
        precedes_trans (pending_at g j) (pending_at g k) (pending_at g n) (ground arith)
          (b.2 j (omega arith) e)
  ],
)

find_best-IsBest :
    (g : Gic) (n : ℕ) (values : List Pending) (best : Option ℕ)
    → ((j : ℕ) → get_or values j empty_pending ≡ pending_at g (n + j))
    → IsBest g n best
    → IsBest g (n + length values) (find_best g n values best)
unfolding find_best is_eligible
find_best-IsBest g n [] best same b = (let total : n + 0 ≡ n = omega arith in rw total b)
find_best-IsBest g n (value ∷ values) best same b =
    let here : value ≡ pending_at g n = same 0 ∙ ap (pending_at g) {y = n} (omega arith) in
    let rest : (j : ℕ) → get_or values j empty_pending ≡ pending_at g (suc n + j) =
      λ j. same (suc j) ∙ ap (pending_at g) (omega arith) in
    let total : n + suc (length values) ≡ suc n + length values = omega arith in
    let eq : (is_valid value && is_injectable g value && beats g value best)
        ≡ (is_eligible g n && beats g (pending_at g n) best) =
      ap (λ v. is_valid v && is_injectable g v && beats g v best) here in
    elim (Bool-cases (is_valid value && is_injectable g value && beats g value best)) [
      | inl e ↦
          rw (total, e)
            (find_best-IsBest g (suc n) values (some n) rest (take-IsBest g n best b (sym eq ∙ e)))
      | inr e ↦
          rw (total, e)
            (find_best-IsBest g (suc n) values best rest (keep-IsBest g n best b (sym eq ∙ e)))
    ]

-- At least as urgent: of a lower number, which is a higher priority, or of the same and an id that is
-- not higher.
abbrev pub IsUrgent : Pending → Pending → Type 0
IsUrgent p q = (p.priority < q.priority) ⊎ ((p.priority ≡ q.priority) × (id_of p.iar ≤ id_of q.iar))

precedes-IsUrgent : (p q : Pending) → precedes q p ≡ false → IsUrgent p q
unfolding precedes
precedes-IsUrgent p q h = elim (dec_lt p.priority q.priority) [
  | yes lt ↦ inl lt
  | no ge ↦ inr (ground arith)
]

-- What `pop_highest` gives: nothing where no interrupt is eligible, or an eligible one that none is
-- more urgent than, taken out of its slot.
unfoldable pub IsPop : Gic → Option (Pending × Gic) → Type 0
IsPop g none = (k : ℕ) → is_eligible g k ≡ false
IsPop g (some (p, g')) =
    (k : ℕ) × (k < pending_slots)
    × (p ≡ pending_at g k)
    × (is_eligible g k ≡ true)
    × ((j : ℕ) → is_eligible g j ≡ true → IsUrgent p (pending_at g j))
    × (g' ≡ put g k empty_pending (g.pending_count - 1))

-- A slot out of range holds nothing.
eligible-lt : (g : Gic) (k : ℕ) → IsValid g → is_eligible g k ≡ true → k < pending_slots
unfolding is_eligible is_valid
eligible-lt g k v h = elim (dec_lt k pending_slots) [
  | yes lt ↦ lt
  | no ge ↦
      (let total = v.length_pending in
        let nothing = get_or-out g.pending k empty_pending (omega arith) in ground arith)
]

pop_at-IsPop :
    (g : Gic) (best : Option ℕ) → IsValid g → IsBest g pending_slots best → IsPop g (pop_at g best)
unfolding pop_at IsPop IsBest
pop_at-IsPop g none v b =
    λ k. elim (Bool-cases (is_eligible g k)) [ inl e ↦ b k (eligible-lt g k v e) | inr e ↦ e ]
pop_at-IsPop g (some k) v b = (
  k,
  b.0,
  refl,
  b.1,
  λ j e. precedes-IsUrgent (pending_at g k) (pending_at g j) (b.2 j (eligible-lt g j v e) e),
  refl,
)

-- The interrupt that is taken out of the table waited there and may go to a list register, and no
-- other such one has a higher priority, or the same and a lower id; with none such, none is taken.
pub pop_highest-IsPop : (g : Gic) → IsValid g → IsPop g (pop_highest g)
unfolding pop_highest IsBest
pop_highest-IsPop g v =
    let found =
      find_best-IsBest g 0 g.pending none (λ j. ap (pending_at g) (omega arith))
        (λ j lt. absurd (omega arith)) in
    let total : 0 + length g.pending ≡ pending_slots = omega (arith, v.length_pending) in
    pop_at-IsPop g (find_best g 0 g.pending none) v (rw total at found)
