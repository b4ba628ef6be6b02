-- ===== src/Base/Results.antt =====
-- `Result<A, E>`, and additions on `u64` that are checked or saturate.
use Prim.Native.Nat.{ℕ, ◌+◌, ◌-◌, ◌^◌, min}
use mathlib.Core.Bool.{Bool, true, false}
use mathlib.Core.Option.{Option, none, some}
use mathlib.Core.Logic.{◌⊎◌, inl, inr}
use mathlib.Core.Path.{◌≡◌, refl}
use native.Mathlib.Omega.{arith}
use switchvisor.Base.Tests.{ltb, if◌then◌else◌}

pub data Result {ℓ} (E A : Type ℓ) : Type ℓ where
  ok : A → Result E A
  err : E → Result E A

infixl 5 ◌>>=◌ ◌>>◌
abbrev pub ◌>>=◌ {ℓ} : {E A B : Type ℓ} → Result E A → (A → Result E B) → Result E B
ok a >>= f = f a
err e >>= f = err e

abbrev pub ◌>>◌ {ℓ} : {E B : Type ℓ} → Result E (Unit {ℓ}) → Result E B → Result E B
m >> k = m >>= λ _. k

-- `if bad { return Err(e) }`
abbrev pub reject {ℓ} : {E : Type ℓ} → Bool → E → Result E (Unit {ℓ})
reject true e = err e
reject false e = ok tt

-- `Option::ok_or`
abbrev pub ok_or {ℓ} : {E A : Type ℓ} → Option A → E → Result E A
ok_or none e = err e
ok_or (some a) e = ok a

-- `u64::checked_add`
abbrev pub checked_add : ℕ → ℕ → Option ℕ
checked_add a b = if ltb (a + b) (2 ^ 64) then some (a + b) else none

-- `u64::saturating_add`
abbrev pub saturating_add : ℕ → ℕ → ℕ
saturating_add a b = min (a + b) (2 ^ 64 - 1)

-- There is a value, and it satisfies `P`.
abbrev pub Given {ℓ} : {A : Type ℓ} → Option A → (A → Type 0) → Type 0
Given none P = ⊥
Given (some a) P = P a

-- What holds of the value of an option, if it has one.
abbrev pub IfSome {ℓ} : {A : Type ℓ} → Option A → (A → Type 0) → Type 0
IfSome none Q = Unit
IfSome (some a) Q = Q a

pub Given_map :
    {A : Type 0} (o : Option A) {P Q : A → Type 0} → Given o P → ((a : A) → P a → Q a) → Given o Q
Given_map none p f = elim p [ ]
Given_map (some a) p f = f a p

-- The chain of two calls that may have no value.
abbrev pub and_then {ℓ} : {A B : Type ℓ} → Option A → (A → Option B) → Option B
and_then none f = none
and_then (some a) f = f a

pub Given-and_then :
    {A B : Type 0} (Q : B → Type 0) (o : Option A) (f : A → Option B) {P : A → Type 0}
    → Given o P
    → ((a : A) → P a → Given (f a) Q)
    → Given (and_then o f) Q
Given-and_then Q none f p g = p
Given-and_then Q (some a) f p g = g a p

-- If the call succeeds, its result satisfies `P`.
abbrev pub Holds {ℓ} : {E A : Type ℓ} → Result E A → (A → Type 0) → Type 0
Holds (ok a) P = P a
Holds (err e) P = Unit

-- What a sequence that succeeds says of its parts.
pub then-ok {ℓ} :
    {E B : Type ℓ} (m : Result E (Unit {ℓ})) (k : Result E B) {b : B}
    → m >> k ≡ ok b
    → (m ≡ ok tt) × (k ≡ ok b)
then-ok (ok u) k h = (refl, h)
then-ok (err e) k h = ground arith

pub bind-ok {ℓ} :
    {E A B : Type ℓ} (m : Result E A) (f : A → Result E B) {b : B}
    → m >>= f ≡ ok b
    → (a : A) × (m ≡ ok a) × (f a ≡ ok b)
bind-ok (ok a) f h = (a, refl, h)
bind-ok (err e) f h = ground arith

pub reject-ok : {E : Type 0} (bad : Bool) (e : E) → reject bad e ≡ ok tt → bad ≡ false
reject-ok true e h = ground arith
reject-ok false e h = refl

pub ok-injective {ℓ} : {E A : Type ℓ} {a b : A} → ◌≡◌ {A = Result E A} (ok a) (ok b) → a ≡ b
ok-injective h = ground arith

pub Result-cases {ℓ} :
    {E A : Type ℓ} (r : Result E A) → ((a : A) × (r ≡ ok a)) ⊎ ((e : E) × (r ≡ err e))
Result-cases (ok a) = inl (a, refl)
Result-cases (err e) = inr (e, refl)
