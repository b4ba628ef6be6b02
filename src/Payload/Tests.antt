-- ===== src/Payload/Tests.antt =====
-- The theorems on payloads, on one of four bytes.
use switchvisor.Base.{
  ℕ, ◌≡◌, refl, true, false, List, [], ◌∷◌, ◌++◌, length, replicate, arith, ok, some,
}
use switchvisor.Memory.{load_base}
use switchvisor.Payload.Crc.{crc32, shift, shifts, update, finish}
use switchvisor.Payload.Config.{
  Payload, validate, entry, source, encode, decode, confirm, decode_filled, decode_fields,
  decode_registers, check_header, word_at, config_crc, with_crc, fields, masked,
}
use switchvisor.Payload.Valid.{validate-IsPlaced}
use switchvisor.Payload.Roundtrip.{IsAcceptable, decode-encode_payload}

abbrev code : List ℕ
code = 1 ∷ 2 ∷ 3 ∷ 4 ∷ []

abbrev small : Payload
small = record {
  package_size = 4356;
  bootstrap_size = 4352;
  offset = 4352;
  file_size = 4;
  runtime_size = 4096;
  entry_offset = 0;
  registers = record { x0 = 0; x1 = 0; x2 = 0; x3 = 0; x4 = 0; x5 = 0; x6 = 0; x7 = 0 };
  preserve_boot_args = true;
  usb_uart = false;
  usb_control = false;
  usb_net = false;
  require_upload = false;
  crc = 0xb63c_fbcd;
}

small_entry : entry small ≡ ok load_base
unfolding entry validate
small_entry = refl

abbrev image : List ℕ
image = replicate 4352 0 ++ code

small-source : source small image ≡ ok code
unfolding source validate crc32 update shift shifts finish
small-source = refl

abbrev block : List ℕ
block = with_crc small (config_crc (with_crc small 0))

small_decoded : decode block ≡ ok (some small)
unfolding decode confirm decode_filled decode_fields decode_registers check_header word_at encode
    validate config_crc with_crc fields masked crc32 update shift shifts finish
small_decoded = refl

small-IsAcceptable : IsAcceptable small
unfolding validate
small-IsAcceptable = record {
  placed = validate-IsPlaced small refl;
  bootstrap_aligned = refl;
  offset_aligned = refl;
  arguments_kept = refl;
  upload_possible = refl;
  registers_fit = ground arith;
  crc_fits = omega arith;
}

decode-encode_payload_example :
    (bytes : List ℕ) × (encode small ≡ ok bytes)
    × (length bytes ≡ 256)
    × (decode bytes ≡ ok (some small))
decode-encode_payload_example = decode-encode_payload small small-IsAcceptable
