-- ===== src/Network/Management/Header.antt =====
-- The IP header of a reply, and its checksum.
use switchvisor.Base.{
  ℕ, zero, suc, ◌+◌, ◌-◌, ◌%◌, ◌^◌, ◌<◌, ◌≡◌, List, [], ◌∷◌, get_or, arith, AllBytes, ℕ_discrete,
}
use switchvisor.Network.Checksum.{sum_words, fold, fold_fuel, fold_folded, checksum}
use switchvisor.Network.Management.{ip_header}

-- The checksum of a header that holds its checksum is 0.
pub checksum_zero :
    (sum : ℕ)
    → 0 < sum
    → sum < 2 ^ 31
    → 2 ^ 16 - 1 - fold fold_fuel (sum + (2 ^ 16 - 1 - fold fold_fuel sum % 2 ^ 16)) % 2 ^ 16 ≡ 0
checksum_zero sum lo hi =
    let (small, same_class, (zero_of, of_zero)) = fold_folded sum (omega arith) in
    let whole = sum + (2 ^ 16 - 1 - fold fold_fuel sum % 2 ^ 16) in
    let (small', same_class', (zero_of', of_zero')) = fold_folded whole (omega arith) in
    elim (ℕ_discrete (fold fold_fuel whole) 0) [
      | yes e ↦ absurd (omega (arith, zero_of' e))
      | no ne ↦ omega arith
    ]

pub get_or-byte : (bytes : List ℕ) (k : ℕ) → AllBytes bytes → get_or bytes k 0 < 256
get_or-byte [] k h = omega arith
get_or-byte (b ∷ bytes) zero (here, h) = here
get_or-byte (b ∷ bytes) (suc k) (here, h) = get_or-byte bytes k h

pub sum_words-ip_header :
    (frame : List ℕ) (size sum : ℕ)
    → sum < 2 ^ 16
    → sum_words (ip_header frame size sum) ≡ sum_words (ip_header frame size 0) + sum
unfolding sum_words ip_header
sum_words-ip_header frame size sum h = omega arith

pub sum_words-bounds :
    (frame : List ℕ) (size : ℕ)
    → AllBytes frame
    → (0 < sum_words (ip_header frame size 0)) × (sum_words (ip_header frame size 0) < 2 ^ 31)
unfolding sum_words ip_header
sum_words-bounds frame size h =
    let byte : (k : ℕ) → get_or frame k 0 < 256 = λ k. get_or-byte frame k h in
    (
      omega arith,
      omega
          (arith, byte 14, byte 15, byte 18, byte 19, byte 23, byte 26, byte 27, byte 28, byte 29),
    )

pub checksum-ip_header :
    (frame : List ℕ) (size : ℕ)
    → AllBytes frame
    → checksum (ip_header frame size (checksum (ip_header frame size 0))) ≡ 0
unfolding checksum
checksum-ip_header frame size h =
    let (lo, hi) = sum_words-bounds frame size h in
    let sum = sum_words (ip_header frame size 0) in
    let total =
      sum_words-ip_header frame size (2 ^ 16 - 1 - fold fold_fuel sum % 2 ^ 16) (omega arith) in
    rw total (checksum_zero sum lo hi)
