-- ===== src/Mmio/Access.antt =====
-- What a decoded access is, and how it moves data between the registers and a device.
use switchvisor.Base.{
  ℕ, zero, suc, ◌+◌, ◌/◌, ◌%◌, ◌^◌, ◌<◌, ◌≤◌, ◌≡◌, ◌≢◌, refl, true, false, ◌&&◌, ◌||◌, not, ◌==◌,
  List, get_or, some, Given, arith, ◌⊎◌, Option-cases, inl, inr,
}
use switchvisor.Memory.{ipa_limit}
use switchvisor.Mmio.Decode.{
  Access, Writeback, ipa, offset_in, decode_region, add_signed, decode_store_post_index_region,
}

-- The access is of 1, 2, 4 or 8 bytes, aligned and whole within `len` bytes at `base`, and these
-- are at the address `address`.
abbrev pub IsWithin : Access → ℕ → ℕ → ℕ → Type 0
IsWithin a address base len =
    (base + a.offset ≡ address)
    × (a.offset + a.size ≤ len)
    × (a.offset % a.size ≡ 0)
    × (a.register < 32)
    × ((a.size ≡ 1) ⊎ ((a.size ≡ 2) ⊎ ((a.size ≡ 4) ⊎ (a.size ≡ 8))))

offset_in_bounds :
    (address base len size : ℕ) {offset : ℕ}
    → offset_in address base len size ≡ some offset
    → (base + offset ≡ address) × (offset + size ≤ len) × (offset % size ≡ 0)
unfolding offset_in
offset_in_bounds address base len size h = ground arith

ipa_bounds : (far hpfar : ℕ) {address : ℕ} → ipa far hpfar ≡ some address → address < ipa_limit
unfolding ipa
ipa_bounds far hpfar h = ground arith

-- The nine bits as a number from -256 to 255, moved up by 256.
add_signed_moves :
    (address immediate : ℕ)
    → immediate < 2 ^ 9
    → (add_signed address immediate + 256) % 2 ^ 64 ≡ (address + (immediate + 256) % 2 ^ 9) % 2 ^ 64
unfolding add_signed
add_signed_moves address immediate h = ground arith

size_cases : (k : ℕ) → k < 4 → (2 ^ k ≡ 1) ⊎ ((2 ^ k ≡ 2) ⊎ ((2 ^ k ≡ 4) ⊎ (2 ^ k ≡ 8)))
size_cases zero h = inl refl
size_cases (suc zero) h = inr (inl refl)
size_cases (suc (suc zero)) h = inr (inr (inl refl))
size_cases (suc (suc (suc zero))) h = inr (inr (inr refl))
size_cases (suc (suc (suc (suc k)))) h = absurd (omega arith)

-- A decoded access lies whole in the region, at the address that faulted, which is one of the
-- guest's; no store extends a sign, and what has eight bytes is wide.
pub decode_region-IsWithin :
    (esr far hpfar base len : ℕ) {a : Access}
    → decode_region esr far hpfar base len ≡ some a
    → Given (ipa far hpfar) (λ address. IsWithin a address base len × (address < ipa_limit))
      × ((a.sign_extend && (a.write || a.size == 8)) ≡ false)
      × ((not (a.size == 8) || a.wide) ≡ true)
unfolding decode_region
decode_region-IsWithin esr far hpfar base len {a} h = elim (Option-cases (ipa far hpfar)) [
  | inl e ↦ ground arith
  | inr (address, e) ↦ elim (Option-cases (offset_in address base len (2 ^ (esr / 2 ^ 22 % 4)))) [
    | inl f ↦ ground arith
    | inr (offset, f) ↦
        let bounds = offset_in_bounds address base len (2 ^ (esr / 2 ^ 22 % 4)) f in
        let sizes = size_cases (esr / 2 ^ 22 % 4) (omega arith) in
        let small = ipa_bounds far hpfar e in ground arith
  ]
]

-- A decoded store with writeback lies whole in the region too; its two registers differ, neither is the
-- stack pointer nor, for the address, the zero register, and the address register is moved by less
-- than 256 bytes either way.
pub decode_store_post_index_region-IsWithin :
    (esr far hpfar instruction base len : ℕ) (registers : List ℕ) {a : Access} {w : Writeback}
    → instruction < 2 ^ 32
    → decode_store_post_index_region esr far hpfar instruction base len registers ≡ some (a, w)
    → Given (ipa far hpfar) (λ address. IsWithin a address base len × (address < ipa_limit))
      × (a.write ≡ true)
      × (w.base_register < 31)
      × (w.base_register ≢ a.register)
      × (get_or registers w.base_register 0 ≡ far)
      × ((w.value + 256) % 2 ^ 64 ≡ (far + (instruction / 2 ^ 12 % 2 ^ 9 + 256) % 2 ^ 9) % 2 ^ 64)
unfolding decode_store_post_index_region
decode_store_post_index_region-IsWithin esr far hpfar instruction base len registers {a} {w} small
      h =
    elim (Option-cases (ipa far hpfar)) [
      | inl e ↦ ground arith
      | inr (address, e) ↦
          elim (Option-cases (offset_in address base len (2 ^ (instruction / 2 ^ 30)))) [
            | inl f ↦ ground arith
            | inr (offset, f) ↦
                let bounds = offset_in_bounds address base len (2 ^ (instruction / 2 ^ 30)) f in
                let sizes = size_cases (instruction / 2 ^ 30) (omega arith) in
                let below = ipa_bounds far hpfar e in
                let moved = add_signed_moves far (instruction / 2 ^ 12 % 2 ^ 9) (omega arith) in
                ground arith
          ]
    ]
