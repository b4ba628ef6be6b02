-- ===== src/Drivers/Gic/Deliver.antt =====
-- An interrupt that the CPU takes for the guest is in a list register or waits, and none that
-- waited is lost.
use native.Mathlib.Nat.{one-le-pow}
use switchvisor.Base.{
  ℕ, ◌+◌, ◌-◌, ◌*◌, ◌%◌, ◌^◌, ◌<◌, ◌≡◌, ◌≢◌, refl, ap, ◌∙◌, Bool, true, false, ◌||◌, not, ltb, ◌==◌,
  List, [], ◌∷◌, any, all, arith, Bool-cases, inl, inr, ◌⊎◌, ℕ_discrete, dec_lt, bit, bit_and,
  not64, bit_or-lt, bit_and-le, bit-bit_and, bit_above, some,
}
use switchvisor.Drivers.{Mmio}
use switchvisor.Drivers.Gic.{
  Gic, Layout, Pending, slot, is_valid, is_injectable, place, empty_pending, implemented, enqueue,
  enqueue_at, trailing_zeros, lr0, encode_lr,
}
use switchvisor.Drivers.Gic.Controller.{
  read_pair, read_hyp, empty_lrs, inject, inject_empty, try_inject, refill_rounds, refill_empty,
  refill_if, refill, settle, deliver, update_hcr, write_hyp,
}
use switchvisor.Drivers.Gic.Valid.{
  IsValid, IsWaiting, slot-valid, enqueue-IsValid, enqueue-IsWaiting, pending_at-put_ne,
}
use switchvisor.Drivers.Gic.Refill.{
  move, replay, IsPlan, IsRefill, IsClearBelow, refill_rounds-IsRefill, trailing_zeros-lowest,
}
use switchvisor.Drivers.Gic.Sgi.{IsSound, move-IsSound, place-IsSound, table-IsSound}

-- The moves take the interrupt out of the slot `k`.
abbrev pub leaves : ℕ → List (ℕ × ℕ) → Bool
leaves k moves = any (λ m. m.0 == k) moves

-- Every move is to a list register that the hardware has.
abbrev pub are_within : ℕ → List (ℕ × ℕ) → Bool
are_within n moves = all (λ m. ltb m.1 n) moves

move-IsWaiting : (g : Gic) (k i j : ℕ) → IsWaiting g j → k ≢ j → IsWaiting (move g k i) j
unfolding IsWaiting place
move-IsWaiting g k i j w ne =
    ap is_valid (pending_at-put_ne g empty_pending (g.pending_count - 1) ne) ∙ w

-- A list register that is free, after others were taken.
free-lt :
    (n empty i : ℕ)
    → ((j : ℕ) → j < 64 → bit empty j ≡ true → j < n)
    → (j : ℕ) → j < 64
    → bit (bit_and empty (not64 (2 ^ i))) j ≡ true
    → j < n
free-lt n empty i free j lt h =
    free j lt (let both = bit-bit_and j empty (not64 (2 ^ i)) in ground arith)

enqueue-IsSound : (g : Gic) (p : Pending) → IsSound g → IsSound (enqueue g p)
unfolding enqueue enqueue_at
enqueue-IsSound g p v =
    table-IsSound g (enqueue g p) (ground arith) (ground arith) v (enqueue-IsValid g p v.valid)

module _ {S : Type 0} (mmio : Mmio S) (layout : Layout) where
  replay-IsSound :
      (g : Gic) (empty : ℕ) (s : S) (moves : List (ℕ × ℕ))
      → IsPlan g empty moves
      → IsSound g
      → IsSound (replay mmio layout g s moves).0
  unfolding replay IsPlan inject
  replay-IsSound g empty s [] plan v = v
  replay-IsSound g empty s ((k, i) ∷ moves) plan v =
      replay-IsSound (move g k i) _ _ moves plan.5 (move-IsSound g k i v plan.2 plan.0 plan.3)

  replay-IsWaiting :
      (g : Gic) (s : S) (moves : List (ℕ × ℕ)) (j : ℕ)
      → IsWaiting g j
      → IsWaiting (replay mmio layout g s moves).0 j ⊎ (leaves j moves ≡ true)
  unfolding replay inject
  replay-IsWaiting g s [] j w = inl w
  replay-IsWaiting g s ((k, i) ∷ moves) j w = elim (ℕ_discrete k j) [
    | yes e ↦ inr (ground arith)
    | no ne ↦ elim (replay-IsWaiting (move g k i) _ moves j (move-IsWaiting g k i j w ne)) [
      | inl still ↦ inl still
      | inr left ↦ inr (ground arith)
    ]
  ]

  plan-within :
      (n : ℕ) (moves : List (ℕ × ℕ)) (empty : ℕ) (g : Gic)
      → ((j : ℕ) → j < 64 → bit empty j ≡ true → j < n)
      → IsPlan g empty moves
      → are_within n moves ≡ true
  unfolding IsPlan
  plan-within n [] empty g free plan = refl
  plan-within n ((k, i) ∷ moves) empty g free plan =
      let here = free i plan.0 plan.1 in
      let rest =
        plan-within n moves (bit_and empty (not64 (2 ^ i))) (move g k i) (free-lt n empty i free)
          plan.5 in
      ground arith

  -- The free list registers are among those that the hardware has, where a register is a word of 32
  -- bits.
  module _ (words : (s : S) (address : ℕ) → (mmio.read32 s address).0 < 2 ^ 32) where
    read_pair-lt : (n low high : ℕ) (s : S) → (read_pair mmio layout n low high s).0 < 2 ^ 64
    unfolding read_pair read_hyp
    read_pair-lt n low high s =
        let first = words s ((layout.hypervisor + low) % 2 ^ 64) in
        let second = words (read_hyp mmio layout low s).1 ((layout.hypervisor + high) % 2 ^ 64) in
        elim (Bool-cases (ltb 32 n)) [
          | inl e ↦ rw e (bit_or-lt 64 _ _ (omega arith) (omega arith))
          | inr e ↦ rw e (omega arith)
        ]

    empty_lrs-lt : (g : Gic) (s : S) → (empty_lrs mmio layout g s).0 < 2 ^ 64
    unfolding empty_lrs
    empty_lrs-lt g s = omega (
      arith,
      read_pair-lt g.list_registers 0x30 0x34 s,
      bit_and-le (read_pair mmio layout g.list_registers 0x30 0x34 s).0
          (implemented g.list_registers),
    )

    empty_lrs-within :
        (g : Gic) (s : S) (j : ℕ)
        → bit (empty_lrs mmio layout g s).0 j ≡ true
        → j < g.list_registers
    unfolding empty_lrs
    empty_lrs-within g s j h = elim (dec_lt j g.list_registers) [
      | yes lt ↦ lt
      | no ge ↦
          (let both =
              bit-bit_and j (read_pair mmio layout g.list_registers 0x30 0x34 s).0
                (implemented g.list_registers) in
            let nothing =
              bit_above g.list_registers (implemented g.list_registers) j
                (omega (arith, one-le-pow g.list_registers 2 (omega arith))) (omega arith) in
            ground arith)
    ]

    -- The loop that fills the free list registers ends. It moves the most urgent interrupts that may
    -- go there, one to each, until no list register is free or no interrupt is left that may go.
    pub refill_empty-IsPlan :
        (g : Gic) (s : S)
        → IsValid g
        → let (empty, s') = empty_lrs mmio layout g s in
          (moves : List (ℕ × ℕ)) × ((refill_rounds mmio layout 65 empty g s').0 ≡ true)
          × (refill_empty mmio layout g s ≡ replay mmio layout g s' moves)
          × IsPlan g empty moves
          × (are_within g.list_registers moves ≡ true)
    unfolding refill_empty IsRefill IsClearBelow
    refill_empty-IsPlan g s v =
        let empty = (empty_lrs mmio layout g s).0 in
        let all =
          refill_rounds-IsRefill mmio layout 65 0 empty g (empty_lrs mmio layout g s).1
            (omega arith) (omega arith) (empty_lrs-lt g s, λ k lt. absurd (omega arith)) v in
        (
          all.0,
          ap (λ r. r.0) all.1,
          ap (λ r. r.1) all.1,
          all.2,
          plan-within g.list_registers all.0 empty g (λ j lt h. empty_lrs-within g s j h) all.2,
        )

    -- The list registers filled where the distributor is enabled: the moves are a plan for those that
    -- the hardware reads as free, and each waiting interrupt waits still, or is in a list register.
    unfoldable pub IsFilled : Bool → Gic → S → Gic × S → Type 0
    IsFilled enabled g s after =
        (moves : List (ℕ × ℕ)) × (before : S) × (((enabled ≡ true)
            × (before ≡ (empty_lrs mmio layout g s).1)
            × IsPlan g (empty_lrs mmio layout g s).0 moves)
          ⊎ ((enabled ≡ false) × (before ≡ s) × (moves ≡ [])))
        × (after ≡ replay mmio layout g before moves)
        × (are_within g.list_registers moves ≡ true)
        × ((j : ℕ) → IsWaiting g j → IsWaiting after.0 j ⊎ (leaves j moves ≡ true))

    -- A refill fills the list registers and then writes the control register.
    unfoldable pub IsKept : Gic → S → Gic × S → Type 0
    IsKept g s after =
        (filled : Gic × S) × IsFilled g.distributor_enabled g s filled
        × (after ≡ (filled.0, update_hcr mmio layout filled.0 filled.1))

    refill_if-IsFilled :
        (b : Bool) (g : Gic) (s : S)
        → IsSound g
        → IsSound (refill_if mmio layout b g s).0 × IsFilled b g s (refill_if mmio layout b g s)
    unfolding refill_if IsFilled replay
    refill_if-IsFilled false g s v = (v, ([], s, inr (refl, refl, refl), refl, refl, λ j w. inl w))
    refill_if-IsFilled true g s v =
        let (moves, ended, eq, plan, within) = refill_empty-IsPlan g s v.valid in
        let before = (empty_lrs mmio layout g s).1 in
        rw eq (
          replay-IsSound g (empty_lrs mmio layout g s).0 before moves plan v,
          (
            moves,
            before,
            inl (refl, refl, plan),
            refl,
            within,
            λ j w. replay-IsWaiting g before moves j w,
          ),
        )

    pub refill-IsKept :
        (g : Gic) (s : S)
        → IsSound g
        → IsSound (refill mmio layout g s).0 × IsKept g s (refill mmio layout g s)
    unfolding refill IsKept
    refill-IsKept g s v =
        let filled = refill_if-IsFilled g.distributor_enabled g s v in
        (filled.0, (refill_if mmio layout g.distributor_enabled g s, filled.1, refl))

    -- The list register `i` is free by what the hardware reads, and the entry of the interrupt is
    -- written to it.
    unfoldable pub IsInjected : Gic → ℕ → Pending → S → Gic × S → Type 0
    IsInjected g i p s after =
        (i < g.list_registers)
        × (bit (empty_lrs mmio layout g s).0 i ≡ true)
        × (after ≡ (
          place g i p,
          mmio.write32 (empty_lrs mmio layout g s).1 ((layout.hypervisor + (lr0 + i * 4)) % 2 ^ 64)
              (encode_lr p),
        ))

    -- A delivered interrupt is in a free list register of the hardware, or waits and others may have
    -- gone to list registers: what waits then or waited before waits still, or went there.
    unfoldable pub IsDelivered : Gic → Pending → S → Gic × S → Type 0
    IsDelivered g p s after =
        ((i : ℕ) × IsInjected g i p s after)
        ⊎ ((k : ℕ) × (before : S) × ((before ≡ s) ⊎ (before ≡ (empty_lrs mmio layout g s).1))
            × (slot p.iar ≡ some k)
            × IsWaiting (enqueue g p) k
            × ((j : ℕ) → IsWaiting g j → IsWaiting (enqueue g p) j)
            × IsKept (enqueue g p) before after)

    unfoldable pub IsTry : Gic → Pending → S → Bool × (Gic × S) → Type 0
    IsTry g p s (false, gs) = (gs.0 ≡ g) × ((gs.1 ≡ s) ⊎ (gs.1 ≡ (empty_lrs mmio layout g s).1))
    IsTry g p s (true, gs) = (i : ℕ) × (i < 64) × (is_injectable g p ≡ true) × IsInjected g i p s gs

    try_inject-IsTry : (g : Gic) (p : Pending) (s : S) → IsTry g p s (try_inject mmio layout g p s)
    unfolding try_inject inject_empty IsTry IsInjected inject write_hyp
    try_inject-IsTry g p s =
        elim (Bool-cases (not g.distributor_enabled || not (is_injectable g p))) [
          | inl e ↦ rw (try_inject, e) (refl, inl refl)
          | inr e ↦ elim (ℕ_discrete (empty_lrs mmio layout g s).0 0) [
            | yes z ↦
                (let none_free : ((empty_lrs mmio layout g s).0 == 0) ≡ true = ground arith in
                  rw (try_inject, e, none_free) (refl, inr refl))
            | no ne ↦
                (let some_free : ((empty_lrs mmio layout g s).0 == 0) ≡ false = ground arith in
                  let low =
                    trailing_zeros-lowest 64 (empty_lrs mmio layout g s).0 (empty_lrs-lt g s) ne in
                  rw (try_inject, e, some_free)
                    (
                      trailing_zeros 64 (empty_lrs mmio layout g s).0,
                      low.0,
                      ground arith,
                      (empty_lrs-within g s _ low.1, low.1, refl),
                    ))
          ]
        ]

    settle-IsDelivered :
        (g : Gic) (p : Pending) (s : S) (tried : Bool × (Gic × S))
        → IsSound g
        → is_valid p ≡ true
        → IsTry g p s tried
        → IsSound (settle mmio layout p tried).0 × IsDelivered g p s (settle mmio layout p tried)
    unfolding settle IsTry IsDelivered IsInjected
    settle-IsDelivered g p s (true, gs) v ok_p (i, lt', free, (lt, empty, eq)) =
        (rw eq (place-IsSound g i p v lt' free), inl (i, (lt, empty, eq)))
    settle-IsDelivered g p s (false, (g', s')) v ok_p (eq, before) =
        let (k, at_k) = slot-valid p ok_p in
        let sound = enqueue-IsSound g p v in
        rw eq (
          let kept = refill-IsKept (enqueue g p) s' sound in
          (
            kept.0,
            inr (
              k,
              s',
              before,
              at_k,
              enqueue-IsWaiting g p k k v.valid at_k (inl refl),
              λ j w. enqueue-IsWaiting g p k j v.valid at_k (inr w),
              kept.1,
            ),
          ))

    -- An interrupt that is delivered goes to a free list register of the hardware, or takes the slot
    -- of its own among those that wait. Then each of them still waits or went to a list register.
    -- The table and the list registers stay well-formed.
    pub deliver-IsDelivered :
        (g : Gic) (p : Pending) (s : S)
        → IsSound g
        → is_valid p ≡ true
        → IsSound (deliver mmio layout g p s).0 × IsDelivered g p s (deliver mmio layout g p s)
    unfolding deliver IsTry
    deliver-IsDelivered g p s v ok_p =
        settle-IsDelivered g p s _ v ok_p (elim (Bool-cases (g.pending_count == 0)) [
          | inl e ↦ rw e (try_inject-IsTry g p s)
          | inr e ↦ rw e (refl, inl refl)
        ])
