-- ===== src/Psci/Bakery/Progress.antt =====
-- The lock does not come to a stop: when a CPU is in `enter`, some CPU has a step that is no spin.
use switchvisor.Base.{
  ℕ, zero, suc, ◌+◌, ◌*◌, ◌/◌, ◌%◌, ◌<◌, ◌≤◌, ◌≡◌, ◌≢◌, refl, ◌⊎◌, ap, sym, ◌∙◌, true, false, ◌||◌,
  leb, ◌==◌, List, arith, Bool-cases, inl, inr,
}
use switchvisor.Psci.{cpu_count}
use switchvisor.Psci.Bakery.{
  Stage, outside, scans, waits_choice, waits_turn, holds, may_pass, await, act, World, start, run,
}
use switchvisor.Psci.Bakery.Exclusion.{IsOrdered, reached-IsOrdered}
use switchvisor.Psci.Bakery.Agreement.{number_of, slot_of, slot_half, is_sound}

-- A step of the CPU at the stage `p` that is no spin.
abbrev Moves : (ℕ → ℕ) → ℕ → Stage → Type 0
Moves slots c p = (act slots c p).0 ≢ p

outside-Moves : (slots : ℕ → ℕ) (c : ℕ) → Moves slots c outside
unfolding act
outside-Moves slots c = λ e. ground arith

scans-Moves : (slots : ℕ → ℕ) (c k m : ℕ) → Moves slots c (scans k m)
unfolding act await
scans-Moves slots c k m = λ e. ground arith

holds-Moves : (slots : ℕ → ℕ) (c n : ℕ) → Moves slots c (holds n)
unfolding act
holds-Moves slots c n = λ e. ground arith

-- A CPU that waits for another's choice moves, unless that one's choosing bit is set.
choice-Moves :
    (slots : ℕ → ℕ) (c n o : ℕ)
    → (slots o % 2 ≡ 0) ⊎ (cpu_count ≤ o)
    → Moves slots c (waits_choice n o)
unfolding act
choice-Moves slots c n o h = λ e. ground arith

turn-Moves :
    (slots : ℕ → ℕ) (c n o : ℕ)
    → may_pass (slots o / 2) o n c ≡ true
    → Moves slots c (waits_turn n o)
unfolding act await
turn-Moves slots c n o h = λ e. ground arith

-- A slot with the choosing bit is that of a scan.
choosing-Moves :
    (slots : ℕ → ℕ) (c : ℕ) (p : Stage) → slot_of p % 2 ≢ 0 → (p ≢ outside) × Moves slots c p
choosing-Moves slots c outside h = absurd (h refl)
choosing-Moves slots c (scans k m) h = ((λ e. ground arith), scans-Moves slots c k m)
choosing-Moves slots c (waits_choice n o) h = absurd (h (omega arith))
choosing-Moves slots c (waits_turn n o) h = absurd (h (omega arith))
choosing-Moves slots c (holds n) h = absurd (h (omega arith))

numbered : (p : Stage) → number_of p ≢ 0 → p ≢ outside
numbered p h e = h (ap number_of e)

-- Who is in `enter` or past it, and has a step that is no spin.
abbrev pub CanGo : World → Type 0
CanGo w =
    (j : ℕ) × (j < cpu_count) × (w.stage j ≢ outside) × ((act w.slots j (w.stage j)).0 ≢ w.stage j)

behind :
    (theirs n o c fuel : ℕ) {number : ℕ}
    → theirs ≡ number
    → may_pass theirs o n c ≡ false
    → o < cpu_count
    → n * cpu_count + c < suc fuel
    → (number ≢ 0) × (number * cpu_count + o < fuel)
unfolding may_pass
behind theirs n o c fuel e held lo h = ground arith

-- Whom a CPU is behind in the order of the numbers comes earlier in it.
goes :
    (w : World) (fuel c : ℕ) (p : Stage)
    → IsOrdered w
    → c < cpu_count
    → w.stage c ≡ p
    → p ≢ outside
    → number_of p * cpu_count + c < fuel
    → CanGo w
goes w zero c p v lc e out h = absurd (omega arith)
goes w (suc fuel) c outside v lc e out h = absurd (out refl)
goes w (suc fuel) c (scans k m) v lc e out h = (c, lc, rw e out, rw e (scans-Moves w.slots c k m))
goes w (suc fuel) c (holds n) v lc e out h = (c, lc, rw e out, rw e (holds-Moves w.slots c n))
goes w (suc fuel) c (waits_choice n o) v lc e out h =
    elim (Bool-cases (w.slots o % 2 == 0 || leb cpu_count o)) [
      | inl free ↦ (c, lc, rw e out, rw e (choice-Moves w.slots c n o (ground arith)))
      | inr held ↦
          let odd : slot_of (w.stage o) % 2 ≢ 0 = λ z. ground (arith, v.matching o) in
          let scanning = choosing-Moves w.slots o (w.stage o) odd in
          (o, ground arith, scanning.0, scanning.1)
    ]
goes w (suc fuel) c (waits_turn n o) v lc e out h =
    elim (Bool-cases (may_pass (w.slots o / 2) o n c)) [
      | inl free ↦ (c, lc, rw e out, rw e (turn-Moves w.slots c n o free))
      | inr held ↦
          let sound : is_sound c (waits_turn n o) ≡ true = ap (is_sound c) (sym e) ∙ v.sound c in
          let lo : o < cpu_count = ground arith in
          let theirs : w.slots o / 2 ≡ number_of (w.stage o) =
            ap (λ s. s / 2) (v.matching o) ∙ slot_half (w.stage o) in
          let earlier = behind (w.slots o / 2) n o c fuel theirs held lo h in
          goes w fuel o (w.stage o) v lo refl (numbered (w.stage o) earlier.0) earlier.1
    ]

-- The lock does not come to a stop: in every reachable state in which some CPU is in `enter` or past
-- it, one of those CPUs has a step that is no spin.
pub run_progress :
    (schedule : List ℕ) (c : ℕ)
    → c < cpu_count
    → (run start schedule).stage c ≢ outside
    → CanGo (run start schedule)
run_progress schedule c lc out =
    goes (run start schedule) (suc (number_of ((run start schedule).stage c) * cpu_count + c)) c
      ((run start schedule).stage c) (reached-IsOrdered schedule) lc refl out (omega arith)
