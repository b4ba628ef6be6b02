-- ===== src/Payload/Crc.antt =====
-- `Crc32` of payload.rs: the reflected CRC-32, a byte at a time.
use switchvisor.Base.{
  ℕ, zero, suc, ◌-◌, ◌/◌, ◌%◌, ◌^◌, ◌≡◌, refl, List, [], ◌∷◌, ◌++◌, bit_and, bit_xor, not32,
}

abbrev pub new : ℕ
new = 0xffff_ffff

-- `(crc >> 1) ^ (0xedb8_8320 & 0u32.wrapping_sub(crc & 1))`
unfoldable pub shift : ℕ → ℕ
shift crc = bit_xor (crc / 2) (bit_and 0xedb8_8320 ((2 ^ 32 - crc % 2) % 2 ^ 32))

unfoldable pub shifts : ℕ → ℕ → ℕ
shifts zero crc = crc
shifts (suc n) crc = shifts n (shift crc)

unfoldable pub update : ℕ → List ℕ → ℕ
unfolding shift shifts
update crc [] = crc
update crc (byte ∷ bytes) = update (shifts 8 (bit_xor crc byte)) bytes

unfoldable pub finish : ℕ → ℕ
finish crc = not32 crc

unfoldable pub crc32 : List ℕ → ℕ
crc32 bytes = finish (update new bytes)

-- Feeding two pieces in turn is feeding them at once.
pub update-append : (crc : ℕ) (xs ys : List ℕ) → update crc (xs ++ ys) ≡ update (update crc xs) ys
unfolding update
update-append crc [] ys = refl
update-append crc (x ∷ xs) ys = update-append (shifts 8 (bit_xor crc x)) xs ys

-- The check value of CRC-32: the CRC of "123456789".
check_value :
    crc32 (0x31 ∷ 0x32 ∷ 0x33 ∷ 0x34 ∷ 0x35 ∷ 0x36 ∷ 0x37 ∷ 0x38 ∷ 0x39 ∷ []) ≡ 0xcbf4_3926
unfolding crc32 update finish
check_value = refl
