-- ===== src/Psci/Bakery/Exclusion.antt =====
-- No two CPUs are past `enter` at once.
use switchvisor.Base.{
  ℕ, ◌/◌, ◌<◌, ◌≤◌, ◌≡◌, ◌≢◌, refl, ap, sym, ◌∙◌, true, false, ◌&&◌, ltb, List, [], ◌∷◌, Option,
  none, some, arith, ℕ_discrete, dec_lt,
}
use mathlib.Core.Path.{subst, subst₂}
use switchvisor.Psci.{cpu_count}
use switchvisor.Psci.Bakery.{
  Stage, outside, scans, waits_choice, waits_turn, holds, last_number, act, World, start, stored,
  step, run, is_inside,
}
use switchvisor.Psci.Bakery.Agreement.{
  slot_of, is_sound, agrees, slot_half, act-slot, act-mine, act-theirs, number_bound, act_sound,
}

pub record IsOrdered (w : World) : Type 0 where
  pub matching : (c : ℕ) → w.slots c ≡ slot_of (w.stage c)
  pub sound : (c : ℕ) → is_sound c (w.stage c) ≡ true
  pub pairs :
      (i j : ℕ) → i < cpu_count → j < cpu_count → i ≢ j → agrees i j (w.stage i) (w.stage j) ≡ true

start-IsOrdered : IsOrdered start
unfolding start
start-IsOrdered = record { matching = λ c. refl; sound = λ c. refl; pairs = λ i j hi hj ne. refl }

stored-other : (slots : ℕ → ℕ) (c k : ℕ) (word : Option ℕ) → k ≢ c → stored slots c word k ≡ slots k
stored-other slots c k none ne = refl
stored-other slots c k (some word) ne = ground arith

-- What a step leaves at the CPU that moves, and elsewhere.
pub stage_here : (w : World) (c : ℕ) → (step w c).stage c ≡ (act w.slots c (w.stage c)).0
unfolding step
stage_here w c = ground arith

stage_elsewhere : (w : World) (c k : ℕ) → k ≢ c → (step w c).stage k ≡ w.stage k
unfolding step
stage_elsewhere w c k ne = ground arith

slots_here :
    (w : World) (c : ℕ) → (step w c).slots c ≡ stored w.slots c (act w.slots c (w.stage c)).1 c
unfolding step
slots_here w c = refl

slots_elsewhere : (w : World) (c k : ℕ) → k ≢ c → (step w c).slots k ≡ w.slots k
unfolding step
slots_elsewhere w c k ne = stored-other w.slots c k (act w.slots c (w.stage c)).1 ne

half_bound : (w : World) (k : ℕ) → IsOrdered w → w.slots k / 2 ≤ last_number
half_bound w k v =
    let bound = number_bound k (w.stage k) (v.sound k) in
    omega (arith, ap (λ s. s / 2) (v.matching k), slot_half (w.stage k))

step_mine :
    (w : World) (c j : ℕ)
    → IsOrdered w
    → c < cpu_count
    → j < cpu_count
    → j ≢ c
    → (agrees c j ((step w c).stage c) ((step w c).stage j) ≡ true)
      × (agrees j c ((step w c).stage j) ((step w c).stage c) ≡ true)
step_mine w c j v lc lj ne =
    let ne' : c ≢ j = λ e. ne (sym e) in
    (
      subst₂ (λ p q. agrees c j p q ≡ true) (sym (stage_here w c)) (sym (stage_elsewhere w c j ne))
          (act-mine w.slots c j (w.stage c) (w.stage j) (v.matching j) lc lj ne' (v.sound c)
            (v.sound j) (v.pairs c j lc lj ne')),
      subst₂ (λ p q. agrees j c p q ≡ true) (sym (stage_elsewhere w c j ne)) (sym (stage_here w c))
          (act-theirs w.slots c j (w.stage c) (w.stage j) (v.matching j) lc lj ne' (v.sound j)
            (v.pairs j c lj lc ne)),
    )

step-IsOrdered : (w : World) (c : ℕ) → IsOrdered w → c < cpu_count → IsOrdered (step w c)
step-IsOrdered w c v lc = record {
  matching = λ k. elim (ℕ_discrete k c) [
    | yes e ↦
        subst (λ k. (step w c).slots k ≡ slot_of ((step w c).stage k)) (sym e)
          (slots_here w c
            ∙ act-slot w.slots c (w.stage c) (v.matching c) (v.sound c) c
            ∙ sym (ap slot_of (stage_here w c)))
    | no ne ↦ slots_elsewhere w c k ne ∙ v.matching k ∙ sym (ap slot_of (stage_elsewhere w c k ne))
  ];
  sound = λ k. elim (ℕ_discrete k c) [
    | yes e ↦
        subst (λ k. is_sound k ((step w c).stage k) ≡ true) (sym e)
          (ap (is_sound c) (stage_here w c)
            ∙ act_sound w.slots c (w.stage c) (λ k. half_bound w k v) (v.sound c))
    | no ne ↦ ap (is_sound k) (stage_elsewhere w c k ne) ∙ v.sound k
  ];
  pairs = λ i j hi hj ne. elim (ℕ_discrete i c) [
    | yes e ↦
        subst (λ i. agrees i j ((step w c).stage i) ((step w c).stage j) ≡ true) (sym e)
          (step_mine w c j v lc hj (λ e'. ne (e ∙ sym e'))).0
    | no ne' ↦ elim (ℕ_discrete j c) [
      | yes e ↦
          subst (λ j. agrees i j ((step w c).stage i) ((step w c).stage j) ≡ true) (sym e)
            (step_mine w c i v lc hi ne').1
      | no ne'' ↦
          subst₂ (λ p q. agrees i j p q ≡ true) (sym (stage_elsewhere w c i ne'))
            (sym (stage_elsewhere w c j ne'')) (v.pairs i j hi hj ne)
    ]
  ];
}

run-IsOrdered : (w : World) (schedule : List ℕ) → IsOrdered w → IsOrdered (run w schedule)
unfolding run
run-IsOrdered w [] v = v
run-IsOrdered w (c ∷ rest) v = elim (dec_lt c cpu_count) [
  | yes lt ↦
      let test : ltb c cpu_count ≡ true = ground arith in
      rw test (run-IsOrdered (step w c) rest (step-IsOrdered w c v lt))
  | no ge ↦ let test : ltb c cpu_count ≡ false = ground arith in rw test (run-IsOrdered w rest v)
]

pub reached-IsOrdered : (schedule : List ℕ) → IsOrdered (run start schedule)
reached-IsOrdered schedule = run-IsOrdered start schedule start-IsOrdered

inside_apart :
    (i j : ℕ) (p q : Stage)
    → is_sound i p ≡ true
    → is_sound j q ≡ true
    → agrees i j p q ≡ true
    → agrees j i q p ≡ true
    → (is_inside p && is_inside q) ≡ false
inside_apart i j (holds n) (holds n') s t a b = ground arith
inside_apart i j outside q s t a b = refl
inside_apart i j (scans k m) q s t a b = refl
inside_apart i j (waits_choice n o) q s t a b = refl
inside_apart i j (waits_turn n o) q s t a b = refl
inside_apart i j (holds n) outside s t a b = refl
inside_apart i j (holds n) (scans k m) s t a b = refl
inside_apart i j (holds n) (waits_choice n' o) s t a b = refl
inside_apart i j (holds n) (waits_turn n' o) s t a b = refl

-- However the loads and stores of the four CPUs interleave, no two of them are past `enter` and
-- before the drop of the claim at once.
pub run_exclusive :
    (schedule : List ℕ) (i j : ℕ)
    → i < cpu_count
    → j < cpu_count
    → i ≢ j
    → (is_inside ((run start schedule).stage i) && is_inside ((run start schedule).stage j)) ≡ false
run_exclusive schedule i j hi hj ne =
    let v = reached-IsOrdered schedule in
    inside_apart i j ((run start schedule).stage i) ((run start schedule).stage j) (v.sound i)
      (v.sound j) (v.pairs i j hi hj ne) (v.pairs j i hj hi (λ e. ne (sym e)))
