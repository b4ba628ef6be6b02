-- ===== src/Drivers/Gic/Valid.antt =====
-- The table of waiting interrupts: each stands in the slot of its own, and their number is counted.
use switchvisor.Base.{
  ℕ, zero, suc, ◌+◌, ◌*◌, ◌<◌, ◌≤◌, ◌≡◌, ◌≢◌, refl, ap, ◌∙◌, sym, Bool, true, false, ltb, List, [],
  ◌∷◌, length, set, get_or, replicate, length-set, get_or-set_self, get_or-set_ne, length-replicate,
  some, arith, Bool-cases, Option-cases, inl, inr, ◌⊎◌, ℕ_discrete,
}
use switchvisor.Drivers.Gic.{
  Gic, Pending, new, is_valid, slot, id_of, pending_slots, empty_pending, pending_at, enqueue,
  enqueue_at, sgi_slots, source_cpu,
}

abbrev pub count_of : Bool → ℕ
count_of true = 1
count_of false = 0

-- The number of elements that are not `EMPTY`.
unfoldable pub waiting : List Pending → ℕ
waiting [] = 0
waiting (p ∷ ps) = count_of (is_valid p) + waiting ps

pub waiting-set :
    (ps : List Pending) (k : ℕ) (p : Pending)
    → k < length ps
    → waiting (set ps k p) + count_of (is_valid (get_or ps k empty_pending))
      ≡ waiting ps + count_of (is_valid p)
unfolding waiting
waiting-set [] k p h = absurd (omega arith)
waiting-set (q ∷ ps) zero p h = omega arith
waiting-set (q ∷ ps) (suc k) p h = omega (arith, waiting-set ps k p (omega arith))

waiting-replicate : (n : ℕ) → waiting (replicate n empty_pending) ≡ 0
unfolding waiting is_valid
waiting-replicate zero = refl
waiting-replicate (suc n) = omega (arith, waiting-replicate n)

pub get_or-out {ℓ} : {A : Type ℓ} (xs : List A) (k : ℕ) (d : A) → length xs ≤ k → get_or xs k d ≡ d
get_or-out [] k d h = refl
get_or-out (x ∷ xs) zero d h = absurd (omega arith)
get_or-out (x ∷ xs) (suc k) d h = get_or-out xs k d (omega arith)

pub get_or-replicate {ℓ} : {A : Type ℓ} (n k : ℕ) (d : A) → get_or (replicate n d) k d ≡ d
get_or-replicate zero k d = refl
get_or-replicate (suc n) zero d = refl
get_or-replicate (suc n) (suc k) d = get_or-replicate n k d

-- The slots of two interrupts differ where their ids do, and of an SGI where the source CPUs do.
pub slot-lt : (iar : ℕ) {k : ℕ} → slot iar ≡ some k → k < pending_slots
unfolding slot
slot-lt iar h = ground arith

pub slot-injective :
    (iar iar' : ℕ) {k : ℕ}
    → slot iar ≡ some k
    → slot iar' ≡ some k
    → (id_of iar ≡ id_of iar') × (id_of iar < 16 → source_cpu iar ≡ source_cpu iar')
unfolding slot
slot-injective iar iar' h h' = (ground arith, λ lt. ground arith)

pub slot-valid : (p : Pending) → is_valid p ≡ true → (k : ℕ) × (slot p.iar ≡ some k)
unfolding slot is_valid
slot-valid p v = elim (Bool-cases (ltb (id_of p.iar) 16)) [
  | inl e ↦ (id_of p.iar * 8 + source_cpu p.iar, ground arith)
  | inr e ↦ (sgi_slots + id_of p.iar, ground arith)
]

pub slot-is_valid : (p : Pending) {k : ℕ} → slot p.iar ≡ some k → is_valid p ≡ true
unfolding slot is_valid
slot-is_valid p h = ground arith

pub record IsValid (g : Gic) : Type 0 where
  pub length_pending : length g.pending ≡ pending_slots
  pub length_lr_iar : length g.lr_iar ≡ 64
  pub few : g.list_registers ≤ 64
  pub counted : g.pending_count ≡ waiting g.pending
  pub in_slot : (k : ℕ) → is_valid (pending_at g k) ≡ true → slot (pending_at g k).iar ≡ some k

pub new-IsValid : IsValid new
unfolding new is_valid
new-IsValid = record {
  length_pending = length-replicate pending_slots empty_pending;
  length_lr_iar = refl;
  few = omega arith;
  counted = sym (waiting-replicate pending_slots);
  in_slot = λ k h. (let nothing = get_or-replicate pending_slots k empty_pending in ground arith);
}

-- A write to one slot.
abbrev pub put : Gic → ℕ → Pending → ℕ → Gic
put g k p count = record g { pending = set g.pending k p; pending_count = count }

pub pending_at-put_self :
    (g : Gic) (k : ℕ) (p : Pending) (count : ℕ)
    → IsValid g
    → k < pending_slots
    → pending_at (put g k p count) k ≡ p
pending_at-put_self g k p count v h =
    let total = v.length_pending in get_or-set_self g.pending k p empty_pending (omega arith)

pub pending_at-put_ne :
    (g : Gic) {k j : ℕ} (p : Pending) (count : ℕ)
    → k ≢ j
    → pending_at (put g k p count) j ≡ pending_at g j
pending_at-put_ne g p count ne = get_or-set_ne g.pending p empty_pending ne

pub put-IsValid :
    (g : Gic) (k : ℕ) (p : Pending) (count : ℕ)
    → IsValid g
    → k < pending_slots
    → (is_valid p ≡ true → slot p.iar ≡ some k)
    → count + count_of (is_valid (pending_at g k)) ≡ g.pending_count + count_of (is_valid p)
    → IsValid (put g k p count)
put-IsValid g k p count v h mine counts = record {
  length_pending = length-set g.pending k p ∙ v.length_pending;
  length_lr_iar = v.length_lr_iar;
  few = v.few;
  counted =
      (let total = v.length_pending in
        let before = v.counted in
        let after = waiting-set g.pending k p (omega arith) in omega arith);
  in_slot = λ j f. elim (ℕ_discrete k j) [
    | yes e ↦
        (let here = pending_at-put_self g k p count v h in
          let there : pending_at (put g k p count) j ≡ p =
            ap (pending_at (put g k p count)) (sym e) ∙ here in
          rw there (mine (ap is_valid (sym there) ∙ f) ∙ ap some e))
    | no ne ↦
        (let same = pending_at-put_ne g p count ne in
          ap (λ q. slot q.iar) same ∙ v.in_slot j (ap is_valid (sym same) ∙ f))
  ];
}

-- There is an interrupt in the slot.
unfoldable pub IsWaiting : Gic → ℕ → Type 0
IsWaiting g k = is_valid (pending_at g k) ≡ true

pub enqueue-IsValid : (g : Gic) (p : Pending) → IsValid g → IsValid (enqueue g p)
unfolding enqueue enqueue_at
enqueue-IsValid g p v = elim (Option-cases (slot p.iar)) [
  | inl e ↦ rw e v
  | inr (k, e) ↦ rw e (elim (Bool-cases (is_valid (pending_at g k))) [
    | inl f ↦ rw f v
    | inr f ↦ rw f (
        put-IsValid g k p (suc g.pending_count) v (slot-lt p.iar e) (λ h. e)
          (let in_slot = slot-is_valid p e in ground arith))
  ])
]

-- An interrupt that is put off waits in its slot, and so do all that waited before.
pub enqueue-IsWaiting :
    (g : Gic) (p : Pending) (k j : ℕ)
    → IsValid g
    → slot p.iar ≡ some k
    → (j ≡ k) ⊎ IsWaiting g j
    → IsWaiting (enqueue g p) j
unfolding enqueue enqueue_at IsWaiting
enqueue-IsWaiting g p k j v e w = rw e (elim (Bool-cases (is_valid (pending_at g k))) [
  | inl f ↦
      rw f (elim w [ inl same ↦ ap (λ t. is_valid (pending_at g t)) same ∙ f | inr old ↦ old ])
  | inr f ↦ rw f (elim (ℕ_discrete k j) [
    | yes same ↦
        ap is_valid (
          ap (pending_at (put g k p (suc g.pending_count))) (sym same)
          ∙ pending_at-put_self g k p (suc g.pending_count) v (slot-lt p.iar e))
        ∙ slot-is_valid p e
    | no ne ↦
        ap is_valid (pending_at-put_ne g p (suc g.pending_count) ne)
        ∙ elim w [ inl same ↦ absurd (ne (sym same)) | inr old ↦ old ]
  ])
])
