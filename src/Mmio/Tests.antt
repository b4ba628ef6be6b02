-- ===== src/Mmio/Tests.antt =====
-- The theorems on decoding, on a word load and on a store with writeback at the timer's registers.
use switchvisor.Base.{
  ℕ, ◌≡◌, inl, inr, refl, arith, ◌∷◌, List, false, true, replicate, ◌+◌, ◌*◌, ◌^◌, ◌%◌, ◌<◌, ◌&&◌,
  ◌||◌, ◌==◌, not, get_or, some, Given,
}
use switchvisor.Memory.{ipa_limit}
use switchvisor.Mmio.Decode.{
  Access, Writeback, ipa, has_syndrome, offset_in, decode_region, is_post_index, add_signed,
  decode_store_post_index_region,
}
use switchvisor.Mmio.Access.{IsWithin, decode_region-IsWithin}
use switchvisor.Mmio.Emulate.{store_data, load_data, reading, width_of, store_data-load_data}

abbrev syndrome : ℕ
syndrome = 0x24 * 2 ^ 26 + 2 ^ 25 + 2 ^ 24 + 2 * 2 ^ 22 + 3 * 2 ^ 16 + 7

abbrev word : Access
word = record {
  offset = 0x10;
  register = 3;
  write = false;
  sign_extend = false;
  size = 4;
  wide = false;
}

word_decoded : decode_region syndrome 0xff00_0010 0x60_0050 0x6000_5000 4096 ≡ some word
unfolding decode_region has_syndrome ipa offset_in
word_decoded = refl

decode_region-IsWithin_example :
    Given
      (ipa 0xff00_0010 0x60_0050)
      (λ address. IsWithin word address 0x6000_5000 4096 × (address < ipa_limit))
    × ((word.sign_extend && (word.write || word.size == 8)) ≡ false)
    × ((not (word.size == 8) || word.wide) ≡ true)
decode_region-IsWithin_example =
    decode_region-IsWithin syndrome 0xff00_0010 0x60_0050 0x6000_5000 4096 word_decoded

store_data-load_data_example :
    (store_data word (load_data word 0x1234 (replicate 31 0)) ≡ 0x1234 % 2 ^ (8 * word.size))
    × (get_or (load_data word 0x1234 (replicate 31 0)) word.register 0 < 2 ^ width_of word)
    × (reading false 32 (get_or (load_data word 0x1234 (replicate 31 0)) word.register 0)
        ≡ reading false 32 (0x1234 % 2 ^ (8 * word.size)))
store_data-load_data_example =
    store_data-load_data word 0x1234 (replicate 31 0) (omega arith) (inr (inr (inl refl))) refl

abbrev stored : Access
stored = record {
  offset = 0x10;
  register = 1;
  write = true;
  sign_extend = false;
  size = 4;
  wide = false;
}

-- STR W1, [X2], #-4
abbrev post_index : ℕ
post_index = 0xb81f_c441

abbrev store_registers : List ℕ
store_registers = 0 ∷ 7 ∷ 0xff00_0010 ∷ replicate 28 0

abbrev moved : Writeback
moved = record { base_register = 2; value = 0xff00_000c }

store_decoded :
    decode_store_post_index_region
      (0x24 * 2 ^ 26 + 2 ^ 25 + 2 ^ 6 + 7)
      0xff00_0010
      0x60_0050
      post_index
      0x6000_5000
      4096
      store_registers
    ≡ some (stored, moved)
unfolding decode_store_post_index_region is_post_index ipa offset_in add_signed
store_decoded = refl
