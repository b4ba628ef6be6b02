-- ===== src/Network/Checksum.antt =====
-- The Internet checksum: `checksum` and the loop that folds a sum into 16 bits. The sums stay far
-- below `2 ^ 32`.
use switchvisor.Base.{
  ℕ, zero, suc, ◌+◌, ◌-◌, ◌*◌, ◌/◌, ◌%◌, ◌^◌, ◌≤◌, ◌<◌, ◌≡◌, ◌↔◌, AllBytes, ◌==◌, if◌then◌else◌,
  List, [], ◌∷◌, length, arith,
}

-- The bytes in pairs, the last one with 0 if it stands alone.
unfoldable pub sum_words : List ℕ → ℕ
sum_words [] = 0
sum_words (high ∷ []) = high * 2 ^ 8
sum_words (high ∷ low ∷ rest) = high * 2 ^ 8 + low + sum_words rest

-- `while sum >> 16 != 0`
unfoldable pub fold : ℕ → ℕ → ℕ
fold zero sum = sum
fold (suc fuel) sum =
    let rest = fold fuel (sum % 2 ^ 16 + sum / 2 ^ 16) in if sum / 2 ^ 16 == 0 then sum else rest

-- Two rounds fold every sum of 32 bits.
abbrev pub fold_fuel : ℕ
fold_fuel = 2

unfoldable pub checksum : List ℕ → ℕ
checksum bytes = 2 ^ 16 - 1 - fold fold_fuel (sum_words bytes) % 2 ^ 16

-- The loop ends after two rounds, with a sum of 16 bits: it is the same modulo 65535, and 0 only
-- for 0.
pub fold_folded :
    (sum : ℕ)
    → sum < 2 ^ 32
    → (fold fold_fuel sum < 2 ^ 16)
      × (fold fold_fuel sum % 65535 ≡ sum % 65535)
      × (fold fold_fuel sum ≡ 0 ↔ sum ≡ 0)
unfolding fold
fold_folded sum h = ground arith

pub sum_words-le : (bytes : List ℕ) → AllBytes bytes → sum_words bytes ≤ length bytes * 2 ^ 16
unfolding sum_words
sum_words-le [] h = omega arith
sum_words-le (high ∷ []) (a, h) = omega arith
sum_words-le (high ∷ low ∷ rest) (a, (b, h)) = let more = sum_words-le rest h in omega arith
