-- ===== src/Payload/Config.antt =====
-- `Payload` of payload.rs: the descriptor of a packaged payload.
use switchvisor.Base.{
  ℕ, ◌+◌, ◌-◌, ◌*◌, ◌/◌, ◌%◌, ◌^◌, Bool, false, ◌&&◌, ◌||◌, not, ltb, leb, ◌==◌, if◌then◌else◌,
  List, [], ◌∷◌, ◌++◌, length, take, drop, replicate, all, same, Option, none, some, Result, ok,
  err, ◌>>=◌, ◌>>◌, reject, ok_or, checked_add, le_bytes, from_le, get_range, bit,
}
use mathlib.Core.Option
use switchvisor.Memory.{load_base}
use switchvisor.Payload.Crc.{crc32}
use switchvisor.Loader.Descriptor.{Registers, to_list, encode_words}

abbrev pub max_package_size : ℕ
max_package_size = 64 * 1024 * 1024

abbrev pub max_runtime_size : ℕ
max_runtime_size = 64 * 1024 * 1024

abbrev pub config_offset : ℕ
config_offset = 4096

abbrev pub config_size : ℕ
config_size = 256

abbrev pub config_crc_offset : ℕ
config_crc_offset = 132

-- "SVRAW001"
abbrev pub magic : List ℕ
magic = 83 ∷ 86 ∷ 82 ∷ 65 ∷ 87 ∷ 48 ∷ 48 ∷ 49 ∷ []

pub data PayloadError : Type 0 where
  truncated header checksum_error package_range runtime_range entry_error : PayloadError

pub record Payload : Type 0 where
  pub package_size : ℕ
  pub bootstrap_size : ℕ
  pub offset : ℕ
  pub file_size : ℕ
  pub runtime_size : ℕ
  pub entry_offset : ℕ
  pub registers : Registers
  pub preserve_boot_args : Bool
  pub usb_uart : Bool
  pub usb_control : Bool
  pub usb_net : Bool
  pub require_upload : Bool
  pub crc : ℕ

-- The bytes from the place `i` on, those of the checksum read as 0.
unfoldable pub masked : ℕ → List ℕ → List ℕ
masked i [] = []
masked i (byte ∷ bytes) =
    (if leb config_crc_offset i && ltb i (config_crc_offset + 4) then 0 else byte)
    ∷ masked (i + 1) bytes

unfoldable pub config_crc : List ℕ → ℕ
config_crc bytes = crc32 (masked 0 bytes)

-- `u32_at` and `u64_at`, for the width in bytes.
unfoldable pub word_at : ℕ → List ℕ → ℕ → Result PayloadError ℕ
word_at width bytes offset = ok_or (Option.map from_le (get_range bytes offset width)) truncated

-- `a.checked_add(b) != Some(c)`
abbrev pub adds_to : ℕ → ℕ → ℕ → Bool
adds_to a b c = elim (checked_add a b) [ none ↦ false | some sum ↦ sum == c ]

abbrev pub ends_by : ℕ → ℕ → ℕ → Bool
ends_by a b limit = elim (checked_add a b) [ none ↦ false | some end ↦ leb end limit ]

unfoldable pub validate : Payload → Result PayloadError Unit
validate p =
    reject
      (ltb p.bootstrap_size (config_offset + config_size)
        || not (p.bootstrap_size % 16 == 0)
        || ltb p.offset p.bootstrap_size
        || not (p.offset % 16 == 0)
        || not (adds_to p.offset p.file_size p.package_size)
        || ltb max_package_size p.package_size)
      package_range
    >> reject
        (p.file_size == 0 || ltb p.runtime_size p.file_size || ltb max_runtime_size p.runtime_size)
        runtime_range
    >> reject (not (p.entry_offset % 4 == 0) || not (ends_by p.entry_offset 4 p.file_size))
        entry_error
    >> reject (p.preserve_boot_args && not (all (λ v. v == 0) (to_list p.registers))) header
    >> reject (p.require_upload && not (p.usb_uart || p.usb_control || p.usb_net)) header

unfoldable pub entry : Payload → Result PayloadError ℕ
entry p = validate p >> ok_or (checked_add load_base p.entry_offset) entry_error

unfoldable pub source : Payload → List ℕ → Result PayloadError (List ℕ)
source p bytes_in =
    validate p
    >> reject (not (length bytes_in == p.package_size)) package_range
    >> ok_or (if leb p.offset (length bytes_in) then some (drop p.offset bytes_in) else none)
        package_range
    >>= λ bytes. reject (not (crc32 bytes == p.crc)) checksum_error >> ok bytes

abbrev pub shifted : Bool → ℕ → ℕ
shifted b k = if b then 2 ^ k else 0

-- The bytes before the checksum, and those from the checksum on are all 0 but for it.
unfoldable pub fields : Payload → List ℕ
fields p =
    magic
    ++ le_bytes 4 1
    ++ le_bytes 4 (
        shifted p.preserve_boot_args 0
        + shifted p.usb_uart 1
        + shifted p.usb_control 2
        + shifted p.require_upload 3
        + shifted p.usb_net 4)
    ++ encode_words (
        p.package_size ∷ p.bootstrap_size ∷ p.offset ∷ p.file_size ∷ p.runtime_size ∷ p.entry_offset
        ∷ [])
    ++ encode_words (to_list p.registers)
    ++ le_bytes 4 p.crc

unfoldable pub with_crc : Payload → ℕ → List ℕ
with_crc p crc = fields p ++ le_bytes 4 crc ++ replicate (config_size - 136) 0

unfoldable pub encode : Payload → Result PayloadError (List ℕ)
encode p = validate p >> ok (with_crc p (config_crc (with_crc p 0)))

unfoldable pub decode_registers : List ℕ → Result PayloadError Registers
decode_registers bytes = word_at 8 bytes 64 >>= λ x0. word_at 8 bytes 72 >>= λ x1.
    word_at 8 bytes 80 >>= λ x2. word_at 8 bytes 88 >>= λ x3. word_at 8 bytes 96 >>= λ x4.
    word_at 8 bytes 104 >>= λ x5. word_at 8 bytes 112 >>= λ x6. word_at 8 bytes 120 >>= λ x7.
    ok (record { x0 = x0; x1 = x1; x2 = x2; x3 = x3; x4 = x4; x5 = x5; x6 = x6; x7 = x7 })

unfoldable pub decode_fields : List ℕ → ℕ → Result PayloadError Payload
decode_fields bytes flags = decode_registers bytes >>= λ registers.
    word_at 8 bytes 16 >>= λ package_size. word_at 8 bytes 24 >>= λ bootstrap_size.
    word_at 8 bytes 32 >>= λ offset. word_at 8 bytes 40 >>= λ file_size.
    word_at 8 bytes 48 >>= λ runtime_size. word_at 8 bytes 56 >>= λ entry_offset.
    word_at 4 bytes 128 >>= λ crc. ok (record {
      package_size = package_size;
      bootstrap_size = bootstrap_size;
      offset = offset;
      file_size = file_size;
      runtime_size = runtime_size;
      entry_offset = entry_offset;
      registers = registers;
      preserve_boot_args = bit flags 0;
      usb_uart = bit flags 1;
      usb_control = bit flags 2;
      usb_net = bit flags 4;
      require_upload = bit flags 3;
      crc = crc;
    })

-- The version is 1, and there are no flags but the lowest five.
unfoldable pub check_header : List ℕ → Result PayloadError ℕ
check_header bytes =
    reject (not (same (take 8 bytes) magic)) header
    >> (word_at 4 bytes 8 >>= λ version. reject (not (version == 1)) header)
    >> (word_at 4 bytes 12 >>= λ flags. reject (not (flags / 2 ^ 5 == 0)) header >> ok flags)

-- The checks on what was decoded.
unfoldable pub confirm : List ℕ → Payload → Result PayloadError Payload
confirm bytes p =
    validate p >> (encode p >>= λ again. reject (not (same again bytes)) header >> ok p)

unfoldable pub decode_filled : List ℕ → Result PayloadError Payload
decode_filled bytes = check_header bytes >>= λ flags. word_at 4 bytes config_crc_offset >>= λ crc.
    reject (not (config_crc bytes == crc)) checksum_error
    >> (decode_fields bytes flags >>= λ p. confirm bytes p)

unfoldable pub decode : List ℕ → Result PayloadError (Option Payload)
decode bytes =
    if not (length bytes == config_size)
    then err truncated
    else if all (λ b. b == 0) bytes
    then ok none
    else decode_filled bytes >>= λ p. ok (some p)
