-- ===== src/Vdev/Gic/Protect.antt =====
-- What is written to the physical distributor for a guest's write.
use switchvisor.Base.{
  ℕ, ◌<◌, ◌≡◌, Bool, ◌&&◌, ◌||◌, not, ◌==◌, if◌then◌else◌, arith, bit, bit_or, bit_and, not32,
  bit-bit_or, bit-bit_and, bit-clear32, Bool-cases, inl, inr, bit_two_pow,
}
use switchvisor.Vdev.Gic.{Distributor, protected_mask, merged, stored, is_write_one, gicd_ctlr}
use switchvisor.Vdev.Gic.Masks.{is_kept, bit-protected_mask}

-- What a write by a guest asks of a bit: its own within the mask, the old one elsewhere.
abbrev pub asked_bit : ℕ → ℕ → ℕ → ℕ → Bool
asked_bit mask value current k = bit current k && not (bit mask k) || bit value k

bit-merged :
    (d : Distributor) (word mask value current k : ℕ)
    → k < 32
    → bit (merged d word mask value current) k
      ≡ (if is_kept d word k then bit current k else asked_bit mask value current k)
unfolding merged
bit-merged d word mask value current k h =
    let kept = bit-protected_mask d word k in
    let p = protected_mask d word in
    let asked = bit_or (bit_and current (not32 mask)) value in
    let low = bit-clear32 k asked p h in
    let old = bit-clear32 k current mask h in
    let both = bit-bit_or k (bit_and current (not32 mask)) value in
    let high = bit-bit_and k current p in
    let all = bit-bit_or k (bit_and asked (not32 p)) (bit_and current p) in ground arith

-- A guest's write leaves each bit that EL2 keeps as it is, or 0 where a 1 acts on it. Every other
-- bit is what the guest asks for; the control register has the group of the maintenance interrupt
-- enabled.
pub bit-stored :
    (d : Distributor) (word mask value current k : ℕ)
    → k < 32
    → bit (stored d word mask value current) k ≡ (
        if word == gicd_ctlr
        then k == 0 || bit d.guest_control k
        else if is_write_one word
        then not (is_kept d word k) && bit value k
        else if is_kept d word k
        then bit current k
        else asked_bit mask value current k)
unfolding stored
bit-stored d word mask value current k h =
    let kept = bit-protected_mask d word k in
    let merge = bit-merged d word mask value current k h in
    let cleared = bit-clear32 k value (protected_mask d word) h in
    let control = bit-bit_or k d.guest_control 1 in
    let one = bit_two_pow 0 k in
    elim (Bool-cases (word == gicd_ctlr)) [
      | inl e ↦ ground arith
      | inr e ↦ elim (Bool-cases (is_write_one word)) [
        | inl f ↦ ground arith
        | inr f ↦ ground arith
      ]
    ]
