-- ===== src/Vdev/Ownership/Protect.antt =====
-- What a guest's write can do to the bits that EL2 keeps.
use switchvisor.Base.{
  ℕ, ◌+◌, ◌-◌, ◌<◌, ◌≡◌, sym, ap, ap₂, ◌∙◌, Bool, true, false, ◌||◌, Option, none, some, bit,
  bit_and, not32, bit-bit_and, bit-bit_or, bit-clear32, if◌then◌else◌, arith, any, List, [], ◌∷◌,
  ◌++◌, ◌==◌, ◌&&◌, not, refl, Bool-cases, inl, inr, every_below, every_below_at, all, ltb, leb,
  ℕ_discrete,
}
use mathlib.Core.Option.{some-injective}
use switchvisor.Vdev.Ownership.{
  car, merge, write, protection, is_one_of, reads_current, dev_asid, pmc,
}

-- A merge takes the bits of the mask from the current word, and all others from the value.
pub bit-merge :
    (value current mask k : ℕ)
    → k < 32
    → bit (merge value current mask) k ≡ (if bit mask k then bit current k else bit value k)
unfolding merge
bit-merge value current mask k h =
    bit-bit_or k (bit_and value (not32 mask)) (bit_and current mask)
    ∙ ap₂ ◌||◌ (bit-clear32 k value mask h) (bit-bit_and k current mask)
    ∙ ground arith

-- The bit of what is written to a shared register of the clock controller.
abbrev pub shared_bit : Option (ℕ × Bool) → ℕ → ℕ → ℕ → Bool
shared_bit none value current k = bit value k
shared_bit (some (mask, write_one)) value current k =
    if bit mask k then (if write_one then false else bit current k) else bit value k

protected_bit :
    (p : Option (ℕ × Bool)) (value current k : ℕ) {v : ℕ}
    → k < 32
    → elim p [
      | none ↦ some value
      | some (mask, write_one) ↦
          some (if write_one then bit_and value (not32 mask) else merge value current mask)
    ]
      ≡ some v
    → bit v k ≡ shared_bit p value current k
protected_bit none value current k h e = ground arith
protected_bit (some (mask, true)) value current k h e =
    ap (λ t. bit t k) (sym (some-injective _ _ e)) ∙ bit-clear32 k value mask h ∙ ground arith
protected_bit (some (mask, false)) value current k h e =
    ap (λ t. bit t k) (sym (some-injective _ _ e)) ∙ bit-merge value current mask k h

-- The clocks of one bank that drive the USB controllers: their bits, the registers that hold the
-- resets and enables of the bank, and those whose ones set or clear a reset or an enable.
pub record Bank : Type 0 where
  pub clocks : List ℕ
  pub holding : List ℕ
  pub acting : List ℕ

abbrev pub banks : List Bank
banks =
    record {
      clocks = 22 ∷ [];
      holding = 0x04 ∷ 0x10 ∷ [];
      acting = 0x300 ∷ 0x304 ∷ 0x320 ∷ 0x324 ∷ [];
    }
    ∷ record {
      clocks = 26 ∷ 27 ∷ [];
      holding = 0x08 ∷ 0x14 ∷ [];
      acting = 0x308 ∷ 0x30c ∷ 0x328 ∷ 0x32c ∷ [];
    }
    ∷ record {
      clocks = 25 ∷ 31 ∷ [];
      holding = 0x0c ∷ 0x18 ∷ [];
      acting = 0x310 ∷ 0x314 ∷ 0x330 ∷ 0x334 ∷ [];
    }
    ∷ record {
      clocks = 14 ∷ 15 ∷ 28 ∷ [];
      holding = 0x35c ∷ 0x364 ∷ [];
      acting = 0x438 ∷ 0x43c ∷ 0x448 ∷ 0x44c ∷ [];
    }
    ∷ record {
      clocks = 18 ∷ 19 ∷ [];
      holding = 0x298 ∷ 0x2a4 ∷ [];
      acting = 0x29c ∷ 0x2a0 ∷ 0x2a8 ∷ 0x2ac ∷ [];
    }
    ∷ []

-- The PLL of USB, and the sources of its clocks.
abbrev pub closed : List ℕ
closed =
    (0xc0 ∷ 0xc4 ∷ 0xcc ∷ [])
    ++ (0x480 ∷ 0x484 ∷ 0x488 ∷ 0x4c0 ∷ 0x52c ∷ [])
    ++ (0x608 ∷ 0x60c ∷ 0x610 ∷ 0x6cc ∷ [])

abbrev pub holds : ℕ → ℕ → Bool
holds offset k = any (λ b. is_one_of offset b.holding && is_one_of k b.clocks) banks

abbrev pub acts : ℕ → ℕ → Bool
acts offset k = any (λ b. is_one_of offset b.acting && is_one_of k b.clocks) banks

-- What becomes of a bit: the guest's, the one that was read back, or 0.
abbrev verdict : Option (ℕ × Bool) → ℕ → ℕ
verdict none k = 0
verdict (some (mask, write_one)) k = if bit mask k then (if write_one then 2 else 1) else 0

abbrev expected : ℕ → ℕ → ℕ
expected offset k = if holds offset k then 1 else if acts offset k then 2 else 0

abbrev by_verdict : ℕ → Bool → Bool → Bool
by_verdict n asked current = if n == 1 then current else if n == 2 then false else asked

shared_bit-verdict :
    (p : Option (ℕ × Bool)) (value current k : ℕ)
    → shared_bit p value current k ≡ by_verdict (verdict p k) (bit value k) (bit current k)
shared_bit-verdict none value current k = refl
shared_bit-verdict (some (mask, write_one)) value current k = ground arith

by_verdict-expected :
    (holding acting asked current : Bool)
    → by_verdict (if holding then 1 else if acting then 2 else 0) asked current
      ≡ (if holding then current else if acting then false else asked)
by_verdict-expected true acting asked current = refl
by_verdict-expected false true asked current = refl
by_verdict-expected false false asked current = refl

abbrev registers : List ℕ
registers =
    0x04 ∷ 0x10 ∷ 0x08 ∷ 0x14 ∷ 0x0c ∷ 0x18 ∷ 0x35c ∷ 0x364 ∷ 0x298 ∷ 0x2a4 ∷ 0x300 ∷ 0x304 ∷ 0x320
    ∷ 0x324 ∷ 0x308 ∷ 0x30c ∷ 0x328 ∷ 0x32c ∷ 0x310 ∷ 0x314 ∷ 0x330 ∷ 0x334 ∷ 0x438 ∷ 0x43c ∷ 0x448
    ∷ 0x44c ∷ 0x29c ∷ 0x2a0 ∷ 0x2a8 ∷ 0x2ac ∷ []

agrees : ℕ → Bool
agrees offset = every_below 32 (λ k. verdict (protection offset) k == expected offset k)

registers-agree : all agrees registers ≡ true
unfolding agrees every_below protection
registers-agree = refl

all-member :
    (test : ℕ → Bool) (xs : List ℕ) (x : ℕ)
    → all test xs ≡ true
    → is_one_of x xs ≡ true
    → test x ≡ true
all-member test [] x h m = ground arith
all-member test (y ∷ ys) x h m = elim (ℕ_discrete x y) [
  | yes e ↦ ap test e ∙ ground arith
  | no ne ↦ all-member test ys x (ground arith) (ground arith)
]

protection-other : (offset : ℕ) → is_one_of offset registers ≡ false → protection offset ≡ none
unfolding protection
protection-other offset h = ground arith

holds-other : (offset k : ℕ) → is_one_of offset registers ≡ false → holds offset k ≡ false
holds-other offset k h = ground arith

acts-other : (offset k : ℕ) → is_one_of offset registers ≡ false → acts offset k ≡ false
acts-other offset k h = ground arith

equal : {m n : ℕ} → (m == n) ≡ true → m ≡ n
equal h = ground arith

verdict-expected : (offset k : ℕ) → k < 32 → verdict (protection offset) k ≡ expected offset k
unfolding agrees
verdict-expected offset k h = elim (Bool-cases (is_one_of offset registers)) [
  | inl e ↦
      (let found =
          every_below_at 32 (λ k. verdict (protection offset) k == expected offset k)
            (all-member agrees registers offset registers-agree e) k h in
        equal found)
  | inr e ↦
      ap (λ p. verdict p k) (protection-other offset e)
      ∙ rw (holds-other offset k e, acts-other offset k e) refl
]

shared_bit-protection :
    (offset value current k : ℕ)
    → k < 32
    → shared_bit (protection offset) value current k
      ≡ (if holds offset k then bit current k else if acts offset k then false else bit value k)
shared_bit-protection offset value current k h =
    shared_bit-verdict (protection offset) value current k
    ∙ ap (λ n. by_verdict n (bit value k) (bit current k)) (verdict-expected offset k h)
    ∙ by_verdict-expected (holds offset k) (acts offset k) (bit value k) (bit current k)

-- A register that holds clocks of USB is read before it is written.
reads_current-holds : (offset k : ℕ) → holds offset k ≡ true → reads_current (car + offset) ≡ true
unfolding reads_current
reads_current-holds offset k h = ground arith

write_clock :
    (offset value current : ℕ)
    → offset < 4096
    → write (car + offset) value current ≡ (
        if is_one_of offset closed then none else elim (protection offset) [
          | none ↦ some value
          | some (mask, write_one) ↦
              some (if write_one then bit_and value (not32 mask) else merge value current mask)
        ])
unfolding write
write_clock offset value current h =
    let here : car + offset - car ≡ offset = omega arith in
    let asid : (car + offset == dev_asid) ≡ false = ground arith in
    let command : (car + offset == pmc + 0x30) ≡ false = ground arith in
    let control : (car + offset == pmc + 0xf0) ≡ false = ground arith in
    let above : ltb (car + offset) car ≡ false = ground arith in
    let below : leb 4096 offset ≡ false = ground arith in
    rw (write, asid, command, control, above, here, below) refl

passed_on :
    {A : Type 0} (b : Bool) (o : Option A) {v : A}
    → (if b then none else o) ≡ some v
    → (b ≡ false) × (o ≡ some v)
passed_on true o e = ground arith
passed_on false o e = (refl, e)

-- A guest's write to the clock controller that is not suppressed is to none of the closed registers.
-- In a register that holds resets or enables, the bits of USB's clocks get what was read back, and
-- such a register is read before; in one whose ones act, these bits are 0. Every other bit is the
-- guest's.
pub bit-write :
    (offset value current k : ℕ) {v : ℕ}
    → k < 32
    → offset < 4096
    → write (car + offset) value current ≡ some v
    → (is_one_of offset closed ≡ false)
      × ((not (holds offset k) || reads_current (car + offset)) ≡ true)
      × (bit v k ≡ (
          if holds offset k then bit current k else if acts offset k then false else bit value k))
bit-write offset value current k {v} h hi e =
    let found = sym (write_clock offset value current hi) ∙ e in
    let passed = passed_on (is_one_of offset closed) _ found in
    (
      passed.0,
      elim (Bool-cases (holds offset k)) [
        | inl f ↦ rw (f, reads_current-holds offset k f) refl
        | inr f ↦ rw f refl
      ],
      protected_bit (protection offset) value current k {v = v} h passed.1
          ∙ shared_bit-protection offset value current k h,
    )
