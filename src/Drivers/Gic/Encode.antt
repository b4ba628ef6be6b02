-- ===== src/Drivers/Gic/Encode.antt =====
-- The word of a list register, bit by bit.
use switchvisor.Base.{
  ℕ, ◌-◌, ◌*◌, ◌%◌, ◌^◌, ◌<◌, ◌≡◌, ap, ap₂, ◌∙◌, Bool, ◌&&◌, ◌||◌, leb, ltb, ◌==◌, if◌then◌else◌,
  arith, bit, bit_and, bit_or, bit-bit_and, bit-bit_or, bit_two_pow, bit_shifted, bit_field,
  Bool-cases, inl, inr,
}
use switchvisor.Drivers.Gic.{Pending, id_of, encode_lr}

-- The id in the bits 0 to 9, the priority in 23 to 27, and the state `pending` in 28. A software
-- interrupt has its source CPU in 10 to 12 and asks for an EOI in 19; a hardware one has the
-- physical id in 10 to 19 and the bit 31.
unfoldable pub lr_bit : Pending → ℕ → Bool
lr_bit p k =
    let id = id_of p.iar in
    bit id k
    || k == 28
    || leb 23 k && bit p.priority (k - 23)
    || (if ltb id 16
        then bit p.iar k && leb 10 k && ltb k 13 || k == 19
        else k == 31 || leb 10 k && bit id (k - 10))

bit-common :
    (id priority k : ℕ)
    → priority < 2 ^ 5
    → bit (bit_or (bit_or id (2 ^ 28)) (priority * 2 ^ 23 % 2 ^ 32)) k
      ≡ (bit id k || k == 28 || leb 23 k && bit priority (k - 23))
bit-common id priority k h =
    let fits : priority * 2 ^ 23 % 2 ^ 32 ≡ priority * 2 ^ 23 = omega arith in
    bit-bit_or k (bit_or id (2 ^ 28)) (priority * 2 ^ 23 % 2 ^ 32)
    ∙ ap₂ ◌||◌ (bit-bit_or k id (2 ^ 28) ∙ ap (◌||◌ (bit id k)) (bit_two_pow 28 k))
        (ap (λ t. bit t k) fits ∙ bit_shifted 23 priority k)

-- A list register holds just the fields of its interrupt, for a priority of five bits.
pub bit-encode_lr : (p : Pending) (k : ℕ) → p.priority < 2 ^ 5 → bit (encode_lr p) k ≡ lr_bit p k
unfolding encode_lr lr_bit
bit-encode_lr p k h =
    let id = id_of p.iar in
    let lr = bit_or (bit_or id (2 ^ 28)) (p.priority * 2 ^ 23 % 2 ^ 32) in
    let common = bit-common id p.priority k h in
    elim (Bool-cases (ltb id 16)) [
      | inl e ↦
          (let source = bit-bit_and k p.iar (7 * 2 ^ 10) in
            let field = bit_field 3 10 k in
            let first = bit-bit_or k lr (bit_and p.iar (7 * 2 ^ 10)) in
            let eoi = bit_two_pow 19 k in
            let both = bit-bit_or k (bit_or lr (bit_and p.iar (7 * 2 ^ 10))) (2 ^ 19) in
            rw e (
              both
              ∙ ap₂ ◌||◌ (first ∙ ap₂ ◌||◌ common (source ∙ ap (◌&&◌ (bit p.iar k)) field)) eoi
              ∙ ground arith))
      | inr e ↦
          (let hardware = bit_two_pow 31 k in
            let physical = bit_shifted 10 id k in
            let high = bit-bit_or k (2 ^ 31) (id * 2 ^ 10) in
            let both = bit-bit_or k lr (bit_or (2 ^ 31) (id * 2 ^ 10)) in
            rw e (both ∙ ap₂ ◌||◌ common (high ∙ ap₂ ◌||◌ hardware physical) ∙ ground arith))
    ]
