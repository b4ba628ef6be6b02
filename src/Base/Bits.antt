-- ===== src/Base/Bits.antt =====
-- The bits of a number, and what `&`, `|`, `^` and `!` of the machine do to each of them.
use Prim.Native.Nat.{ℕ, zero, suc, ◌+◌, ◌-◌, ◌*◌, ◌/◌, ◌%◌, ◌^◌, ◌≤◌, ◌<◌, min, max}
use Prim.Native.Nat.{bit_and, bit_or, bit_xor, digits}
use Prim.Native.Nat.{bit_and-bitwise, bit_or-bitwise, bit_xor-bitwise, differ}
use mathlib.Core.Path.{◌≡◌, refl, sym, ap, ap₂, ◌∙◌}
use mathlib.Core.Logic.{inl, inr}
use mathlib.Core.Bool.{Bool, true, false, ◌&&◌, ◌||◌, not, xor}
use native.Mathlib.Nat.{div-div-eq-div-mul, pow-succ', one-le-pow, mul-one}
use native.Mathlib.Decide.{ℕ_discrete}
use native.Mathlib.Omega.{arith}
use switchvisor.Base.Tests.{◌==◌, leb, ltb, Bool-cases, if◌then◌else◌}

-- `x & (1 << k) != 0`
abbrev pub bit : ℕ → ℕ → Bool
bit x k = x / 2 ^ k % 2 == 1

-- `!x` on 32 and on 64 bits
abbrev pub not32 : ℕ → ℕ
not32 x = bit_xor x 0xffff_ffff

abbrev pub not64 : ℕ → ℕ
not64 x = bit_xor x 0xffff_ffff_ffff_ffff

pub bit-suc : (x k : ℕ) → bit x (suc k) ≡ bit (x / 2) k
bit-suc x k =
    ap (λ t. t % 2 == 1) (ap (λ t. x / t) (pow-succ' 2 k) ∙ sym (div-div-eq-div-mul x 2 (2 ^ k)))

pub bit-zero : (k : ℕ) → bit 0 k ≡ false
bit-zero zero = refl
bit-zero (suc k) = bit-suc 0 k ∙ bit-zero k

-- An operation on two numbers, digit by digit: `rest y` is what is left when the first number has
-- run out, and `op` acts on two digits.
module _ (rest : ℕ → ℕ) (op : ℕ → ℕ → ℕ)
    (rest_halves : (y : ℕ) → rest y ≡ op 0 (y % 2) + 2 * rest (y / 2)) where
  -- Any count that reaches the first number gives the same digits.
  count_irrelevant : (x y c c' : ℕ) → x ≤ c → x ≤ c' → digits rest op c x y ≡ digits rest op c' x y
  count_irrelevant zero y zero zero h h' = refl
  count_irrelevant zero y (suc c) zero h h' = refl
  count_irrelevant zero y zero (suc c') h h' = refl
  count_irrelevant zero y (suc c) (suc c') h h' = refl
  count_irrelevant (suc x) y zero c' h h' = absurd (omega arith)
  count_irrelevant (suc x) y (suc c) zero h h' = absurd (omega arith)
  count_irrelevant (suc x) y (suc c) (suc c') h h' =
      ap (λ t. t * 2 + op (suc x % 2) (y % 2))
        (count_irrelevant (suc x / 2) (y / 2) c c' (omega arith) (omega arith))

  halves :
      (x y : ℕ)
      → digits rest op x x y ≡ op (x % 2) (y % 2) + 2 * digits rest op (x / 2) (x / 2) (y / 2)
  halves zero y = rest_halves y
  halves (suc x) y =
      let same = count_irrelevant (suc x / 2) (y / 2) x (suc x / 2) (omega arith) (omega arith) in
      omega arith

bit_and-halves : (x y : ℕ) → bit_and x y ≡ min (x % 2) (y % 2) + 2 * bit_and (x / 2) (y / 2)
bit_and-halves x y =
    let law = halves (λ _. zero) min (λ _. omega arith) x y in
    bit_and-bitwise x y
    ∙ law
    ∙ sym (ap (λ t. min (x % 2) (y % 2) + 2 * t) (bit_and-bitwise (x / 2) (y / 2)))

bit_or-halves : (x y : ℕ) → bit_or x y ≡ max (x % 2) (y % 2) + 2 * bit_or (x / 2) (y / 2)
bit_or-halves x y =
    let law = halves (λ t. t) max (λ _. omega arith) x y in
    bit_or-bitwise x y
    ∙ law
    ∙ sym (ap (λ t. max (x % 2) (y % 2) + 2 * t) (bit_or-bitwise (x / 2) (y / 2)))

bit_xor-halves : (x y : ℕ) → bit_xor x y ≡ differ (x % 2) (y % 2) + 2 * bit_xor (x / 2) (y / 2)
bit_xor-halves x y =
    let law = halves (λ t. t) differ (λ _. omega arith) x y in
    bit_xor-bitwise x y
    ∙ law
    ∙ sym (ap (λ t. differ (x % 2) (y % 2) + 2 * t) (bit_xor-bitwise (x / 2) (y / 2)))

-- A number with a lowest digit put under `r` has that digit's bit, and above it those of `r`.
bit_digit_zero : (n r d : ℕ) → d ≤ 1 → n ≡ d + 2 * r → bit n 0 ≡ (d == 1)
bit_digit_zero n r d h e = ground arith

bit_digit_suc : (n r d k : ℕ) → d ≤ 1 → n ≡ d + 2 * r → bit n (suc k) ≡ bit r k
bit_digit_suc n r d k h e = bit-suc n k ∙ ap (λ t. bit t k) {x = n / 2} {y = r} (omega arith)

differ-le : (a b : ℕ) → a ≤ 1 → b ≤ 1 → differ a b ≤ 1
differ-le zero b h k = k
differ-le (suc zero) zero h k = omega arith
differ-le (suc zero) (suc b) h k = omega arith
differ-le (suc (suc a)) b h k = absurd (omega arith)

differ_digit : (a b : ℕ) → a ≤ 1 → b ≤ 1 → (differ a b == 1) ≡ xor (a == 1) (b == 1)
unfolding xor
differ_digit zero zero h k = refl
differ_digit zero (suc zero) h k = refl
differ_digit (suc zero) zero h k = refl
differ_digit (suc zero) (suc zero) h k = refl
differ_digit (suc (suc a)) b h k = absurd (omega arith)
differ_digit zero (suc (suc b)) h k = absurd (omega arith)
differ_digit (suc zero) (suc (suc b)) h k = absurd (omega arith)

digit-le : (a : ℕ) → a % 2 ≤ 1
digit-le a = omega arith

-- `&`, `|` and `^` act on each bit by itself.
pub bit-bit_and : (k a b : ℕ) → bit (bit_and a b) k ≡ (bit a k && bit b k)
bit-bit_and zero a b =
    bit_digit_zero (bit_and a b) _ (min (a % 2) (b % 2)) (omega arith) (bit_and-halves a b)
    ∙ ground arith
bit-bit_and (suc k) a b =
    bit_digit_suc (bit_and a b) _ (min (a % 2) (b % 2)) k (omega arith) (bit_and-halves a b)
    ∙ bit-bit_and k (a / 2) (b / 2)
    ∙ sym (ap₂ ◌&&◌ (bit-suc a k) (bit-suc b k))

pub bit-bit_or : (k a b : ℕ) → bit (bit_or a b) k ≡ (bit a k || bit b k)
bit-bit_or zero a b =
    bit_digit_zero (bit_or a b) _ (max (a % 2) (b % 2)) (omega arith) (bit_or-halves a b)
    ∙ ground arith
bit-bit_or (suc k) a b =
    bit_digit_suc (bit_or a b) _ (max (a % 2) (b % 2)) k (omega arith) (bit_or-halves a b)
    ∙ bit-bit_or k (a / 2) (b / 2)
    ∙ sym (ap₂ ◌||◌ (bit-suc a k) (bit-suc b k))

pub bit-bit_xor : (k a b : ℕ) → bit (bit_xor a b) k ≡ xor (bit a k) (bit b k)
bit-bit_xor zero a b =
    bit_digit_zero (bit_xor a b) _ (differ (a % 2) (b % 2))
      (differ-le _ _ (digit-le a) (digit-le b)) (bit_xor-halves a b)
    ∙ differ_digit (a % 2) (b % 2) (digit-le a) (digit-le b)
    ∙ ground arith
bit-bit_xor (suc k) a b =
    bit_digit_suc (bit_xor a b) _ (differ (a % 2) (b % 2)) k
      (differ-le _ _ (digit-le a) (digit-le b)) (bit_xor-halves a b)
    ∙ bit-bit_xor k (a / 2) (b / 2)
    ∙ sym (ap₂ xor (bit-suc a k) (bit-suc b k))

-- The bits of a power of two, and of a word of ones.
pub bit_two_pow : (n k : ℕ) → bit (2 ^ n) k ≡ (k == n)
bit_two_pow zero zero = refl
bit_two_pow zero (suc k) = bit-suc 1 k ∙ bit-zero k ∙ ground arith
bit_two_pow (suc n) zero = ground (arith, pow-succ' 2 n)
bit_two_pow (suc n) (suc k) =
    bit-suc (2 ^ suc n) k
    ∙ ap (λ t. bit t k) {x = 2 ^ suc n / 2} {y = 2 ^ n} (omega (arith, pow-succ' 2 n))
    ∙ bit_two_pow n k
    ∙ ground arith

-- A number shifted by `n` places.
pub bit_shifted : (n x k : ℕ) → bit (x * 2 ^ n) k ≡ (leb n k && bit x (k - n))
bit_shifted zero x k = ap (λ t. bit t k) (mul-one x) ∙ ground arith
bit_shifted (suc n) x zero =
    let double : x * 2 ^ suc n ≡ 2 * (x * 2 ^ n) =
      omega (arith, ap (λ (t : ℕ). x * t) (pow-succ' 2 n)) in
    ground arith
bit_shifted (suc n) x (suc k) =
    let double : x * 2 ^ suc n ≡ 2 * (x * 2 ^ n) =
      omega (arith, ap (λ (t : ℕ). x * t) (pow-succ' 2 n)) in
    bit-suc (x * 2 ^ suc n) k
    ∙ ap (λ t. bit t k) {x = x * 2 ^ suc n / 2} {y = x * 2 ^ n} (omega arith)
    ∙ bit_shifted n x k
    ∙ ground arith

-- A number below a power of two has no bit from there on.
pub bit_above : (w x k : ℕ) → x < 2 ^ w → w ≤ k → bit x k ≡ false
bit_above zero zero k h le = bit-zero k
bit_above zero (suc x) k h le = absurd (omega arith)
bit_above (suc w) x zero h le = absurd (omega arith)
bit_above (suc w) x (suc k) h le =
    bit-suc x k ∙ bit_above w (x / 2) k (omega (arith, pow-succ' 2 w)) (omega arith)

pub bit_ones : (w k : ℕ) → k < w → bit (2 ^ w - 1) k ≡ true
bit_ones zero k h = absurd (omega arith)
bit_ones (suc w) zero h = ground (arith, pow-succ' 2 w, one-le-pow w 2)
bit_ones (suc w) (suc k) h =
    bit-suc (2 ^ suc w - 1) k
    ∙ ap (λ t. bit t k) {x = (2 ^ suc w - 1) / 2} {y = 2 ^ w - 1}
        (omega (arith, pow-succ' 2 w, one-le-pow w 2))
    ∙ bit_ones w k (omega arith)

-- `w` ones from the bit `n` on.
pub bit_field : (w n k : ℕ) → bit ((2 ^ w - 1) * 2 ^ n) k ≡ (leb n k && ltb k (n + w))
bit_field w n k = bit_shifted n (2 ^ w - 1) k ∙ elim (Bool-cases (leb n k)) [
  | inl e ↦ elim (Bool-cases (ltb k (n + w))) [
    | inl f ↦ (let one = bit_ones w (k - n) (ground arith) in ground arith)
    | inr f ↦
        (let nothing =
            bit_above w (2 ^ w - 1) (k - n) (omega (arith, one-le-pow w 2 (omega arith)))
              (ground arith) in
          ground arith)
  ]
  | inr e ↦ ground arith
]

xor-true : (b : Bool) → xor b true ≡ not b
unfolding xor
xor-true true = refl
xor-true false = refl

pub bit-not32 : (k x : ℕ) → k < 32 → bit (not32 x) k ≡ not (bit x k)
bit-not32 k x h =
    bit-bit_xor k x 0xffff_ffff ∙ ap (xor (bit x k)) (bit_ones 32 k h) ∙ xor-true (bit x k)

-- `x & !m`: the bits of `m` are cleared, all others of a word stay.
pub bit-clear32 : (k x m : ℕ) → k < 32 → bit (bit_and x (not32 m)) k ≡ (bit x k && not (bit m k))
bit-clear32 k x m h = bit-bit_and k x (not32 m) ∙ ap (◌&&◌ (bit x k)) (bit-not32 k m h)

pub bit-clear64 : (k x m : ℕ) → k < 64 → bit (bit_and x (not64 m)) k ≡ (bit x k && not (bit m k))
bit-clear64 k x m h =
    bit-bit_and k x (not64 m)
    ∙ ap (◌&&◌ (bit x k)) (
        bit-bit_xor k m 0xffff_ffff_ffff_ffff
        ∙ ap (xor (bit m k)) (bit_ones 64 k h)
        ∙ xor-true (bit m k))

-- A number without a bit is 0.
pub no_bits : (w x : ℕ) → x < 2 ^ w → ((k : ℕ) → k < w → bit x k ≡ false) → x ≡ 0
no_bits zero x h none = omega arith
no_bits (suc w) x h none =
    let half =
      no_bits w (x / 2) (omega (arith, pow-succ' 2 w))
        (λ k lt. sym (bit-suc x k) ∙ none (suc k) (omega arith)) in
    let low = none 0 (omega arith) in ground arith

-- A bound on the parts bounds `&` and `|`.
bit_and-le_below : (bound x y : ℕ) → x < bound → bit_and x y ≤ x
bit_and-le_below zero x y h = absurd (omega arith)
bit_and-le_below (suc bound) zero y h = omega (arith, bit_and-bitwise 0 y)
bit_and-le_below (suc bound) (suc x) y h =
    let half = bit_and-le_below bound (suc x / 2) (y / 2) (omega arith) in
    omega (arith, bit_and-halves (suc x) y)

pub bit_and-le : (x y : ℕ) → bit_and x y ≤ x
bit_and-le x y = bit_and-le_below (suc x) x y (omega arith)

pub bit_or-lt : (w a b : ℕ) → a < 2 ^ w → b < 2 ^ w → bit_or a b < 2 ^ w
bit_or-lt zero zero zero h k = omega (arith, bit_or-bitwise 0 0)
bit_or-lt zero (suc a) b h k = absurd (omega arith)
bit_or-lt zero zero (suc b) h k = absurd (omega arith)
bit_or-lt (suc w) a b h k = omega (
  arith,
  bit_or-halves a b,
  pow-succ' 2 w,
  bit_or-lt w (a / 2) (b / 2) (omega (arith, pow-succ' 2 w)) (omega (arith, pow-succ' 2 w)),
)

pub bit_xor-lt : (w a b : ℕ) → a < 2 ^ w → b < 2 ^ w → bit_xor a b < 2 ^ w
bit_xor-lt zero zero zero h k = omega (arith, bit_xor-bitwise 0 0)
bit_xor-lt zero (suc a) b h k = absurd (omega arith)
bit_xor-lt zero zero (suc b) h k = absurd (omega arith)
bit_xor-lt (suc w) a b h k =
    let digit = differ-le (a % 2) (b % 2) (digit-le a) (digit-le b) in
    omega (
      arith,
      bit_xor-halves a b,
      pow-succ' 2 w,
      bit_xor-lt w (a / 2) (b / 2) (omega (arith, pow-succ' 2 w)) (omega (arith, pow-succ' 2 w)),
    )

pub bit_or-zero : (x : ℕ) → bit_or x 0 ≡ x
bit_or-zero x = go x x (omega arith)
  where
    go : (bound x : ℕ) → x ≤ bound → bit_or x 0 ≡ x
    go bound zero h = omega (arith, bit_or-bitwise 0 0)
    go zero (suc x) h = absurd (omega arith)
    go (suc bound) (suc x) h =
        omega (arith, bit_or-halves (suc x) 0, go bound (suc x / 2) (omega arith))

pub bit_and-zero : (x : ℕ) → bit_and x 0 ≡ 0
bit_and-zero x = go x x (omega arith)
  where
    go : (bound x : ℕ) → x ≤ bound → bit_and x 0 ≡ 0
    go bound zero h = omega (arith, bit_and-bitwise 0 0)
    go zero (suc x) h = absurd (omega arith)
    go (suc bound) (suc x) h =
        omega (arith, bit_and-halves (suc x) 0, go bound (suc x / 2) (omega arith))

bit_and-le_right_below : (bound x y : ℕ) → y < bound → bit_and x y ≤ y
bit_and-le_right_below zero x y h = absurd (omega arith)
bit_and-le_right_below (suc bound) x zero h = omega (arith, bit_and-zero x)
bit_and-le_right_below (suc bound) x (suc y) h =
    let half = bit_and-le_right_below bound (x / 2) (suc y / 2) (omega arith) in
    omega (arith, bit_and-halves x (suc y))

pub bit_and-le_right : (x y : ℕ) → bit_and x y ≤ y
bit_and-le_right x y = bit_and-le_right_below (suc y) x y (omega arith)

-- A mask of one bit keeps it.
pub bit_and_two_pow : (k x : ℕ) → bit_and x (2 ^ k) ≡ (if bit x k then 2 ^ k else 0)
bit_and_two_pow zero x =
    let halves = bit_and-halves x 1 in let none_above = bit_and-zero (x / 2) in ground arith
bit_and_two_pow (suc k) x =
    let two : 2 ^ suc k ≡ 2 * 2 ^ k = pow-succ' 2 k in
    let halves : bit_and x (2 ^ suc k) ≡ 2 * bit_and (x / 2) (2 ^ k) =
      bit_and-halves x (2 ^ suc k)
      ∙ ap (λ t. min (x % 2) (2 ^ suc k % 2) + 2 * bit_and (x / 2) t) {y = 2 ^ k} (omega arith)
      ∙ omega arith in
    let below = bit_and_two_pow k (x / 2) in let same = bit-suc x k in ground arith

-- Setting the two lowest bits of a multiple of four adds them.
pub bit_or_three : (x : ℕ) → x % 4 ≡ 0 → bit_or x 3 ≡ x + 3
bit_or_three x h =
    omega (arith, bit_or-halves x 3, bit_or-halves (x / 2) 1, bit_or-zero (x / 2 / 2))

-- A mask of ones keeps what fits it, shifted by any number of places.
bit_and_ones : (w x : ℕ) → x < 2 ^ w → bit_and x (2 ^ w - 1) ≡ x
bit_and_ones zero x h = omega (arith, bit_and-le x 0)
bit_and_ones (suc w) x h =
    let two : 2 ^ suc w ≡ 2 * 2 ^ w = pow-succ' 2 w in
    let pos : 1 ≤ 2 ^ w = one-le-pow w 2 (omega arith) in
    bit_and-halves x (2 ^ suc w - 1)
    ∙ ap (λ t. min (x % 2) ((2 ^ suc w - 1) % 2) + 2 * bit_and (x / 2) t) {y = 2 ^ w - 1}
        (omega arith)
    ∙ ap (λ t. min (x % 2) ((2 ^ suc w - 1) % 2) + 2 * t) (bit_and_ones w (x / 2) (omega arith))
    ∙ omega arith

bit_and_double : (x y : ℕ) → bit_and (2 * x) (2 * y) ≡ 2 * bit_and x y
bit_and_double x y =
    bit_and-halves (2 * x) (2 * y)
    ∙ ap₂ (λ a b. min (2 * x % 2) (2 * y % 2) + 2 * bit_and a b) {y = x} {v = y} (omega arith)
        (omega arith)
    ∙ omega arith

pub bit_and_mask : (n w x : ℕ) → x < 2 ^ w → bit_and (x * 2 ^ n) ((2 ^ w - 1) * 2 ^ n) ≡ x * 2 ^ n
bit_and_mask zero w x h = simp mul-one (bit_and_ones w x h)
bit_and_mask (suc n) w x h =
    let ih = bit_and_mask n w x h in
    let double : (y : ℕ) → y * 2 ^ suc n ≡ 2 * (y * 2 ^ n) =
      λ y. omega (arith, ap (λ (t : ℕ). y * t) (pow-succ' 2 n)) in
    simp double (bit_and_double (x * 2 ^ n) ((2 ^ w - 1) * 2 ^ n) ∙ ap (λ t. 2 * t) ih)

-- Every number below a bound passes a test.
unfoldable pub every_below : ℕ → (ℕ → Bool) → Bool
every_below zero test = true
every_below (suc n) test = every_below n test && test n

pub every_below_at :
    (n : ℕ) (test : ℕ → Bool) → every_below n test ≡ true → (k : ℕ) → k < n → test k ≡ true
unfolding every_below
every_below_at zero test h k lt = absurd (omega arith)
every_below_at (suc n) test h k lt = elim (ℕ_discrete k n) [
  | yes e ↦ ground arith
  | no ne ↦ every_below_at n test (ground arith) k (omega arith)
]
