-- ===== src/Mmio/Decode.antt =====
-- The decoding of an abort, from its syndrome or from the instruction.
use switchvisor.Base.{
  ℕ, ◌+◌, ◌-◌, ◌*◌, ◌/◌, ◌%◌, ◌^◌, Bool, true, false, ◌&&◌, ◌||◌, not, ltb, leb, ◌==◌,
  if◌then◌else◌, List, bit, get_or, Option, none, some,
}

pub record Access : Type 0 where
  pub offset : ℕ
  pub register : ℕ
  pub write : Bool
  pub sign_extend : Bool
  pub size : ℕ
  pub wide : Bool

pub record Writeback : Type 0 where
  pub base_register : ℕ
  pub value : ℕ

-- The mask keeps the bits 4 to 27 of HPFAR.
unfoldable pub ipa : ℕ → ℕ → Option ℕ
ipa far hpfar =
    if hpfar % 2 ^ 4 == 0 && ltb hpfar (2 ^ 28) then some (hpfar * 2 ^ 8 + far % 2 ^ 12) else none

-- A translation fault at level 2 or 3.
abbrev pub is_translation : ℕ → Bool
is_translation esr = esr % 2 ^ 6 == 6 || esr % 2 ^ 6 == 7

-- A data abort with a valid syndrome: `esr & 0x780` are its bits 7 to 10.
unfoldable pub has_syndrome : ℕ → Bool
has_syndrome esr =
    esr / 2 ^ 26 == 0x24
    && bit esr 25
    && bit esr 24
    && esr / 2 ^ 7 % 2 ^ 4 == 0
    && is_translation esr

-- `address.checked_sub(base)?`, and the tests of the offset.
unfoldable pub offset_in : ℕ → ℕ → ℕ → ℕ → Option ℕ
offset_in address base length size =
    if leb base address
      && ltb (address - base + size) (2 ^ 64)
      && leb (address - base + size) length
      && (address - base) % size == 0
    then some (address - base)
    else none

unfoldable pub decode_region : ℕ → ℕ → ℕ → ℕ → ℕ → Option Access
decode_region esr far hpfar base length =
    if not (has_syndrome esr) then none else elim (ipa far hpfar) [
      | none ↦ none
      | some address ↦
          let size = 2 ^ (esr / 2 ^ 22 % 4) in
          let sign_extend = bit esr 21 in
          let wide = bit esr 15 in
          let write = bit esr 6 in
          elim (offset_in address base length size) [
            | none ↦ none
            | some offset ↦
                if (sign_extend && (write || size == 8))
                  || (size == 8 && not wide)
                  || (not (size == 8) && not sign_extend && wide)
                then none
                else some (record {
                  offset = offset;
                  register = esr / 2 ^ 16 % 2 ^ 5;
                  write = write;
                  sign_extend = sign_extend;
                  size = size;
                  wide = wide;
                })
          ]
    ]

abbrev pub mc_base : ℕ
mc_base = 0x7001_9000

abbrev pub mc_size : ℕ
mc_size = 4096

unfoldable pub decode : ℕ → ℕ → ℕ → Option Access
decode esr far hpfar = elim (decode_region esr far hpfar mc_base mc_size) [
  | none ↦ none
  | some access ↦
      if access.size == 4 && esr % 2 ^ 6 == 7 && (not access.sign_extend || access.wide)
      then some access
      else none
]

-- A store that faulted without a syndrome, by an instruction STR{B,H,W,X} Rt, [Xn], #simm9:
-- `instruction & 0x3fe0_0c00` are its bits 21 to 29, and 10 and 11.
unfoldable pub is_post_index : ℕ → ℕ → Bool
is_post_index esr instruction =
    esr / 2 ^ 26 == 0x24
    && bit esr 25
    && not (bit esr 24)
    && esr / 2 ^ 7 % 2 ^ 4 == 0
    && bit esr 6
    && is_translation esr
    && instruction / 2 ^ 21 % 2 ^ 9 == 0x1c0
    && instruction / 2 ^ 10 % 2 ^ 2 == 1

-- The sum of a word and a nine-bit signed number.
unfoldable pub add_signed : ℕ → ℕ → ℕ
add_signed address immediate =
    if ltb immediate (2 ^ 8)
    then (address + immediate) % 2 ^ 64
    else (address + 2 ^ 64 - (2 ^ 9 - immediate)) % 2 ^ 64

unfoldable pub decode_store_post_index_region :
    ℕ → ℕ → ℕ → ℕ → ℕ → ℕ → List ℕ → Option (Access × Writeback)
decode_store_post_index_region esr far hpfar instruction base length registers =
    let source = instruction % 2 ^ 5 in
    let address_register = instruction / 2 ^ 5 % 2 ^ 5 in
    let virtual_address = get_or registers address_register 0 in
    let size = 2 ^ (instruction / 2 ^ 30) in
    if not (is_post_index esr instruction)
      || address_register == 31
      || address_register == source
      || not (virtual_address == far)
    then none
    else elim (ipa far hpfar) [
      | none ↦ none
      | some address ↦ elim (offset_in address base length size) [
        | none ↦ none
        | some offset ↦ some (
          record {
            offset = offset;
            register = source;
            write = true;
            sign_extend = false;
            size = size;
            wide = size == 8;
          },
          record {
            base_register = address_register;
            value = add_signed virtual_address (instruction / 2 ^ 12 % 2 ^ 9);
          },
        )
      ]
    ]
