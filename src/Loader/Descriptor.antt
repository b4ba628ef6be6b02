-- ===== src/Loader/Descriptor.antt =====
-- The two descriptors of loader.rs: the bundle's, with the entry state, and each image's.
use switchvisor.Base.{
  ℕ, ◌+◌, ◌%◌, ◌/◌, Bool, false, ◌&&◌, ◌||◌, not, leb, ◌==◌, if◌then◌else◌, List, [], ◌∷◌, ◌++◌,
  Option, none, some, length, all, checked_add, le_bytes, bit, from_le, get_range,
}
use mathlib.Core.Option
use switchvisor.Memory.{AddressRange, overlaps}
use switchvisor.Loader.Types.{bundle_descriptor_size, image_descriptor_size, max_images}
use switchvisor.Loader.Ranges.{guest_range}

-- `u64_at(bytes, offset).ok()?` and its like, for the width in bytes.
abbrev pub word : ℕ → List ℕ → ℕ → Option ℕ
word width bytes offset = Option.map from_le (get_range bytes offset width)

infixl 5 ◌>>=◌
abbrev ◌>>=◌ : {A B : Type 0} → Option A → (A → Option B) → Option B
none >>= f = none
some a >>= f = f a

-- The source's array of eight registers.
pub record Registers : Type 0 where
  pub x0 : ℕ
  pub x1 : ℕ
  pub x2 : ℕ
  pub x3 : ℕ
  pub x4 : ℕ
  pub x5 : ℕ
  pub x6 : ℕ
  pub x7 : ℕ

abbrev pub to_list : Registers → List ℕ
to_list r = r.x0 ∷ r.x1 ∷ r.x2 ∷ r.x3 ∷ r.x4 ∷ r.x5 ∷ r.x6 ∷ r.x7 ∷ []

abbrev pub encode_words : List ℕ → List ℕ
encode_words [] = []
encode_words (w ∷ ws) = le_bytes 8 w ++ encode_words ws

pub record BundleDescriptor : Type 0 where
  pub entry : ℕ
  pub image_count : ℕ
  pub flags : ℕ
  pub registers : Registers

-- `flags & PRESERVE_BOOT_ARGS != 0`, the mask being 1.
abbrev pub preserve_boot_args : BundleDescriptor → Bool
preserve_boot_args d = bit d.flags 0

-- `flags & !PRESERVE_BOOT_ARGS == 0` says that `flags` has no other bit.
unfoldable pub validate_bundle : BundleDescriptor → Bool
validate_bundle d =
    not (d.image_count == 0)
    && leb d.image_count max_images
    && d.entry % 4 == 0
    && guest_range d.entry 4
    && d.flags / 2 == 0
    && (not (preserve_boot_args d) || all (λ v. v == 0) (to_list d.registers))

unfoldable pub encode_bundle : BundleDescriptor → List ℕ
encode_bundle d =
    le_bytes 8 d.entry
    ++ le_bytes 4 d.image_count
    ++ le_bytes 4 d.flags
    ++ encode_words (to_list d.registers)

unfoldable pub decode_registers : List ℕ → Option Registers
decode_registers bytes = do
  a0 ← word 8 bytes 16
  a1 ← word 8 bytes 24
  a2 ← word 8 bytes 32
  a3 ← word 8 bytes 40
  a4 ← word 8 bytes 48
  a5 ← word 8 bytes 56
  a6 ← word 8 bytes 64
  a7 ← word 8 bytes 72
  some (record { x0 = a0; x1 = a1; x2 = a2; x3 = a3; x4 = a4; x5 = a5; x6 = a6; x7 = a7 })

unfoldable pub decode_bundle : List ℕ → Option BundleDescriptor
decode_bundle bytes = if not (length bytes == bundle_descriptor_size) then none else do
  registers ← decode_registers bytes
  entry ← word 8 bytes 0
  count ← word 4 bytes 8
  flags ← word 4 bytes 12
  let d : BundleDescriptor = record {
    entry = entry;
    image_count = count;
    flags = flags;
    registers = registers;
  }
  if validate_bundle d then some d else none

pub record ImageDescriptor : Type 0 where
  pub address : ℕ
  pub file_size : ℕ
  pub runtime_size : ℕ
  pub crc32 : ℕ
  pub flags : ℕ

unfoldable pub validate_image : ImageDescriptor → Bool
validate_image d =
    not (d.file_size == 0)
    && leb d.file_size d.runtime_size
    && d.flags == 0
    && guest_range d.address d.runtime_size

unfoldable pub contains_entry : ImageDescriptor → ℕ → Bool
contains_entry d entry = entry % 4 == 0 && elim (checked_add d.address d.file_size) [
  | none ↦ false
  | some end ↦
      leb d.address entry
      && elim (checked_add entry 4) [ none ↦ false | some value ↦ leb value end ]
]

-- `expect("validated image")`: the caller holds images whose extents make a range.
abbrev pub extent : ImageDescriptor → AddressRange
extent d = record { start = d.address; end = d.address + d.runtime_size }

abbrev pub image_overlaps : ImageDescriptor → ImageDescriptor → Bool
image_overlaps d other = overlaps (extent d) (extent other)

unfoldable pub encode_image : ImageDescriptor → List ℕ
encode_image d =
    le_bytes 8 d.address
    ++ le_bytes 8 d.file_size
    ++ le_bytes 8 d.runtime_size
    ++ le_bytes 4 d.crc32
    ++ le_bytes 4 d.flags

unfoldable pub decode_image : List ℕ → Option ImageDescriptor
decode_image bytes = if not (length bytes == image_descriptor_size) then none else do
  address ← word 8 bytes 0
  file_size ← word 8 bytes 8
  runtime_size ← word 8 bytes 16
  crc32 ← word 4 bytes 24
  flags ← word 4 bytes 28
  let d : ImageDescriptor = record {
    address = address;
    file_size = file_size;
    runtime_size = runtime_size;
    crc32 = crc32;
    flags = flags;
  }
  if validate_image d then some d else none
