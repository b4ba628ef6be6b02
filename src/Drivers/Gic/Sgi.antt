-- ===== src/Drivers/Gic/Sgi.antt =====
-- No two list registers hold the same software interrupt.
use switchvisor.Base.{
  ℕ, zero, suc, ◌+◌, ◌<◌, ◌≤◌, ◌≡◌, ◌≢◌, refl, ap, ◌∙◌, sym, Bool, true, false, ltb, ◌==◌, List, [],
  ◌∷◌, length, set, get_or, any, take, arith, Bool-cases, inl, inr, ℕ_discrete, length-set,
  get_or-set_self, get_or-set_ne, bit,
}
use switchvisor.Drivers.{Mmio}
use switchvisor.Drivers.Gic.{
  Gic, Layout, Pending, id_of, spurious_irq, is_injectable, sgi_in_lr, place, pending_at,
  pending_slots,
}
use switchvisor.Drivers.Gic.Controller.{drain_one, drain_from, drain_sgi_eois}
use switchvisor.Drivers.Gic.Valid.{IsValid, IsWaiting}
use switchvisor.Drivers.Gic.Pop.{is_eligible}
use switchvisor.Drivers.Gic.Refill.{move, take_out, take_out-IsValid}

abbrev pub lr_at : Gic → ℕ → ℕ
lr_at g i = get_or g.lr_iar i spurious_irq

pub record IsSound (g : Gic) : Type 0 where
  pub valid : IsValid g
  pub apart :
      (i j : ℕ)
      → i < g.list_registers
      → j < g.list_registers
      → id_of (lr_at g i) < 16
      → id_of (lr_at g i) ≡ id_of (lr_at g j)
      → i ≡ j

any-take :
    (f : ℕ → Bool) (xs : List ℕ) (n i : ℕ)
    → any f (take n xs) ≡ false
    → i < n
    → i < length xs
    → f (get_or xs i spurious_irq) ≡ false
any-take f [] n i h lt lt' = absurd (omega arith)
any-take f (x ∷ xs) zero i h lt lt' = absurd (omega arith)
any-take f (x ∷ xs) (suc n) zero h lt lt' = ground arith
any-take f (x ∷ xs) (suc n) (suc i) h lt lt' =
    any-take f xs n i (ground arith) (omega arith) (omega arith)

-- A software interrupt that may go to a list register is in none.
injectable-apart :
    (g : Gic) (p : Pending) (i : ℕ)
    → IsValid g
    → is_injectable g p ≡ true
    → id_of p.iar < 16
    → i < g.list_registers
    → id_of (lr_at g i) ≢ id_of p.iar
unfolding is_injectable sgi_in_lr
injectable-apart g p i v h soft lt e =
    let few = v.few in
    let total = v.length_lr_iar in
    let other =
      any-take (λ iar. id_of iar == id_of p.iar) g.lr_iar g.list_registers i (ground arith) lt
        (omega arith) in
    ground arith

-- A list register is changed to one that holds nothing, or what no other one holds.
set-apart :
    (g : Gic) (i iar : ℕ)
    → IsSound g
    → i < 64
    → ((j : ℕ) → j < g.list_registers → id_of iar < 16 → id_of (lr_at g j) ≢ id_of iar)
    → IsSound (record g { lr_iar = set g.lr_iar i iar })
set-apart g i iar v lt new = record {
  valid = record {
    length_pending = v.valid.length_pending;
    length_lr_iar = length-set g.lr_iar i iar ∙ v.valid.length_lr_iar;
    few = v.valid.few;
    counted = v.valid.counted;
    in_slot = v.valid.in_slot;
  };
  apart =
      (let here : get_or (set g.lr_iar i iar) i spurious_irq ≡ iar =
          get_or-set_self g.lr_iar i iar spurious_irq (omega (arith, v.valid.length_lr_iar)) in
        let there = λ (j : ℕ) (ne : i ≢ j). get_or-set_ne g.lr_iar iar spurious_irq ne in
        λ a b la lb soft same. elim (ℕ_discrete i a) [
          | yes e ↦ elim (ℕ_discrete i b) [
            | yes f ↦ sym e ∙ f
            | no ne ↦
                (let at_a : get_or (set g.lr_iar i iar) a spurious_irq ≡ iar =
                    ap (λ t. get_or (set g.lr_iar i iar) t spurious_irq) (sym e) ∙ here in
                  let at_b = there b ne in absurd (new b lb (omega arith) (omega arith)))
          ]
          | no ne ↦ elim (ℕ_discrete i b) [
            | yes f ↦
                (let at_b : get_or (set g.lr_iar i iar) b spurious_irq ≡ iar =
                    ap (λ t. get_or (set g.lr_iar i iar) t spurious_irq) (sym f) ∙ here in
                  let at_a = there a ne in absurd (new a la (omega arith) (omega arith)))
            | no ne' ↦
                (let at_a = there a ne in
                  let at_b = there b ne' in v.apart a b la lb (omega arith) (omega arith))
          ]
        ]);
}

pub place-IsSound :
    (g : Gic) (i : ℕ) (p : Pending)
    → IsSound g
    → i < 64
    → is_injectable g p ≡ true
    → IsSound (place g i p)
unfolding place
place-IsSound g i p v lt h = elim (Bool-cases (ltb (id_of p.iar) 16)) [
  | inl e ↦ rw e (set-apart g i p.iar v lt (λ j lj soft. injectable-apart g p j v.valid h soft lj))
  | inr e ↦ rw e (set-apart g i spurious_irq v lt (λ j lj soft. absurd (omega arith)))
]

-- A change of the table does not touch the list registers.
pub table-IsSound :
    (g g' : Gic)
    → g'.lr_iar ≡ g.lr_iar
    → g'.list_registers ≡ g.list_registers
    → IsSound g
    → IsValid g'
    → IsSound g'
table-IsSound g g' same few v valid = record { valid = valid; apart = rw (same, few) v.apart }

pub move-IsSound :
    (g : Gic) (k i : ℕ)
    → IsSound g
    → k < pending_slots
    → i < 64
    → is_eligible g k ≡ true
    → IsSound (move g k i)
unfolding is_eligible IsWaiting is_injectable sgi_in_lr
move-IsSound g k i v lt lt' el =
    place-IsSound (take_out g k) i (pending_at g k)
      (table-IsSound g (take_out g k) refl refl v (take_out-IsValid g k v.valid lt (ground arith)))
      lt' (ground arith)

module _ {S : Type 0} (mmio : Mmio S) (layout : Layout) where
  drain_one-IsSound :
      (eois i : ℕ) (gs : Gic × S)
      → i < 64
      → IsSound gs.0
      → IsSound (drain_one mmio layout eois i gs).0
        × ((drain_one mmio layout eois i gs).0.list_registers ≡ gs.0.list_registers)
  unfolding drain_one
  drain_one-IsSound eois i (g, s) lt v = elim (Bool-cases (bit eois i)) [
    | inl e ↦ rw e (set-apart g i spurious_irq v lt (λ j lj soft. absurd (omega arith)), refl)
    | inr e ↦ rw e (v, refl)
  ]

  drain_from-IsSound :
      (n i eois : ℕ) (gs : Gic × S)
      → n + i ≤ 64
      → IsSound gs.0
      → IsSound (drain_from mmio layout n i eois gs).0
  unfolding drain_from
  drain_from-IsSound zero i eois gs le v = v
  drain_from-IsSound (suc n) i eois gs le v =
      drain_from-IsSound n (suc i) eois (drain_one mmio layout eois i gs) (omega arith)
        (drain_one-IsSound eois i gs (omega arith) v).0

  pub drain_sgi_eois-IsSound :
      (g : Gic) (s : S) → IsSound g → IsSound (drain_sgi_eois mmio layout g s).0
  unfolding drain_sgi_eois
  drain_sgi_eois-IsSound g s v =
      drain_from-IsSound g.list_registers 0 _ _ (omega (arith, v.valid.few)) v
