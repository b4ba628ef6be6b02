-- ===== src/Payload/Checksum.antt =====
-- The bytes of a descriptor and their checksum, which fits its word and does not depend on itself.
use switchvisor.Base.{
  ℕ, zero, suc, ◌+◌, ◌-◌, ◌%◌, ◌^◌, ◌<◌, ◌≡◌, refl, List, [], ◌∷◌, ◌++◌, arith, AllBytes, replicate,
  le_bytes, le_bytes-AllBytes, bit_xor, bit_xor-lt, bit_and-le,
}
use switchvisor.Payload.Crc
use switchvisor.Payload.Crc.{crc32, shift, shifts, update, finish}
use switchvisor.Loader.Descriptor.{to_list, encode_words}
use switchvisor.Payload.Config.{magic, Payload, shifted, with_crc, config_crc, fields, masked}

abbrev pub flags_of : Payload → ℕ
flags_of p =
    shifted p.preserve_boot_args 0
    + shifted p.usb_uart 1
    + shifted p.usb_control 2
    + shifted p.require_upload 3
    + shifted p.usb_net 4

shift-lt : (crc : ℕ) → crc < 2 ^ 32 → shift crc < 2 ^ 32
unfolding shift
shift-lt crc h =
    bit_xor-lt 32 _ _ (omega arith)
      (omega (arith, bit_and-le 0xedb8_8320 ((2 ^ 32 - crc % 2) % 2 ^ 32)))

shifts-lt : (n crc : ℕ) → crc < 2 ^ 32 → shifts n crc < 2 ^ 32
unfolding shifts
shifts-lt zero crc h = h
shifts-lt (suc n) crc h = shifts-lt n (shift crc) (shift-lt crc h)

update-lt : (bytes : List ℕ) (crc : ℕ) → AllBytes bytes → crc < 2 ^ 32 → update crc bytes < 2 ^ 32
unfolding update shifts
update-lt [] crc b h = h
update-lt (byte ∷ bytes) crc b h =
    update-lt bytes (shifts 8 (bit_xor crc byte)) b.1
      (shifts-lt 8 (bit_xor crc byte) (bit_xor-lt 32 crc byte h (omega (arith, b.0))))

crc32-lt : (bytes : List ℕ) → AllBytes bytes → crc32 bytes < 2 ^ 32
unfolding crc32 finish
crc32-lt bytes b = bit_xor-lt 32 _ _ (update-lt bytes Crc.new b (omega arith)) (omega arith)

AllBytes-append : (xs ys : List ℕ) → AllBytes xs → AllBytes ys → AllBytes (xs ++ ys)
AllBytes-append [] ys h k = k
AllBytes-append (x ∷ xs) ys h k = (h.0, AllBytes-append xs ys h.1 k)

encode_words-AllBytes : (ws : List ℕ) → AllBytes (encode_words ws)
encode_words-AllBytes [] = tt
encode_words-AllBytes (w ∷ ws) =
    AllBytes-append (le_bytes 8 w) (encode_words ws) (le_bytes-AllBytes 8 w)
      (encode_words-AllBytes ws)

replicate-AllBytes : (n : ℕ) → AllBytes (replicate n 0)
replicate-AllBytes zero = tt
replicate-AllBytes (suc n) = (omega arith, replicate-AllBytes n)

with_crc-AllBytes : (p : Payload) (crc : ℕ) → AllBytes (with_crc p crc)
unfolding with_crc fields
with_crc-AllBytes p crc =
    let words =
      p.package_size ∷ p.bootstrap_size ∷ p.offset ∷ p.file_size ∷ p.runtime_size ∷ p.entry_offset
      ∷ [] in
    let tail = le_bytes 4 crc ++ replicate 120 0 in
    let registers = encode_words (to_list p.registers) ++ le_bytes 4 p.crc in
    let sizes = encode_words words ++ registers in
    let flags = le_bytes 4 (flags_of p) ++ sizes in
    AllBytes-append (fields p) tail
      (AllBytes-append (magic ++ le_bytes 4 1) flags (ground arith) (
        AllBytes-append (le_bytes 4 (flags_of p)) sizes (le_bytes-AllBytes 4 (flags_of p)) (
          AllBytes-append (encode_words words) registers (encode_words-AllBytes words) (
            AllBytes-append (encode_words (to_list p.registers)) (le_bytes 4 p.crc)
              (encode_words-AllBytes (to_list p.registers)) (le_bytes-AllBytes 4 p.crc)))))
      (AllBytes-append (le_bytes 4 crc) (replicate 120 0) (le_bytes-AllBytes 4 crc)
        (replicate-AllBytes 120))

masked-AllBytes : (i : ℕ) (bytes : List ℕ) → AllBytes bytes → AllBytes (masked i bytes)
unfolding masked
masked-AllBytes i [] h = tt
masked-AllBytes i (byte ∷ bytes) h = (ground arith, masked-AllBytes (i + 1) bytes h.1)

-- The checksum does not depend on the bytes where it stands.
pub config_crc-with_crc :
    (p : Payload) (crc : ℕ) → config_crc (with_crc p crc) ≡ config_crc (with_crc p 0)
unfolding config_crc with_crc fields masked
config_crc-with_crc p crc = refl

pub config_crc-lt : (p : Payload) → config_crc (with_crc p 0) < 2 ^ 32
unfolding config_crc
config_crc-lt p = crc32-lt _ (masked-AllBytes 0 (with_crc p 0) (with_crc-AllBytes p 0))
