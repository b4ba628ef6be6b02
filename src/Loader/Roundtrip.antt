-- ===== src/Loader/Roundtrip.antt =====
-- Descriptors are read back as they were written, and only valid ones are read.
use switchvisor.Base.{
  ℕ, ◌^◌, ◌<◌, ◌≡◌, Bool, true, Option, none, some, List, from_le-le_bytes, arith,
}
use switchvisor.Loader.Descriptor.{
  Registers, BundleDescriptor, ImageDescriptor, validate_bundle, validate_image, encode_bundle,
  decode_bundle, encode_image, decode_image, decode_registers,
}

pub record RegistersFit (r : Registers) : Type 0 where
  pub x0_fits : r.x0 < 2 ^ 64
  pub x1_fits : r.x1 < 2 ^ 64
  pub x2_fits : r.x2 < 2 ^ 64
  pub x3_fits : r.x3 < 2 ^ 64
  pub x4_fits : r.x4 < 2 ^ 64
  pub x5_fits : r.x5 < 2 ^ 64
  pub x6_fits : r.x6 < 2 ^ 64
  pub x7_fits : r.x7 < 2 ^ 64

pub record BundleFits (d : BundleDescriptor) : Type 0 where
  pub entry_fits : d.entry < 2 ^ 64
  pub image_count_fits : d.image_count < 2 ^ 32
  pub flags_fits : d.flags < 2 ^ 32
  pub registers_fit : RegistersFit d.registers

pub record ImageFits (d : ImageDescriptor) : Type 0 where
  pub address_fits : d.address < 2 ^ 64
  pub file_size_fits : d.file_size < 2 ^ 64
  pub runtime_size_fits : d.runtime_size < 2 ^ 64
  pub crc32_fits : d.crc32 < 2 ^ 32
  pub flags_fit : d.flags < 2 ^ 32

-- A valid image descriptor is read back as it was written.
pub decode_image-encode_image :
    (d : ImageDescriptor)
    → ImageFits d
    → validate_image d ≡ true
    → decode_image (encode_image d) ≡ some d
unfolding decode_image encode_image
decode_image-encode_image d f v = ground (
  arith,
  from_le-le_bytes 8 d.address,
  from_le-le_bytes 8 d.file_size,
  from_le-le_bytes 8 d.runtime_size,
  from_le-le_bytes 4 d.crc32,
  from_le-le_bytes 4 d.flags,
)

-- A valid bundle descriptor is read back as it was written.
pub decode_bundle-encode_bundle :
    (d : BundleDescriptor)
    → BundleFits d
    → validate_bundle d ≡ true
    → decode_bundle (encode_bundle d) ≡ some d
unfolding decode_bundle encode_bundle decode_registers
decode_bundle-encode_bundle d f v = ground (
  arith,
  from_le-le_bytes 8 d.entry,
  from_le-le_bytes 4 d.image_count,
  from_le-le_bytes 4 d.flags,
  from_le-le_bytes 8 d.registers.x0,
  from_le-le_bytes 8 d.registers.x1,
  from_le-le_bytes 8 d.registers.x2,
  from_le-le_bytes 8 d.registers.x3,
  from_le-le_bytes 8 d.registers.x4,
  from_le-le_bytes 8 d.registers.x5,
  from_le-le_bytes 8 d.registers.x6,
  from_le-le_bytes 8 d.registers.x7,
)

-- `p` holds of the value, if there is one.
abbrev pub holds {ℓ} : {A : Type ℓ} → (A → Bool) → Option A → Bool
holds p none = true
holds p (some a) = p a

-- What is read passes its validation, whatever the bytes.
pub decode_image-valid : (bytes : List ℕ) → holds validate_image (decode_image bytes) ≡ true
unfolding decode_image
decode_image-valid bytes = ground arith

pub decode_bundle-valid : (bytes : List ℕ) → holds validate_bundle (decode_bundle bytes) ≡ true
unfolding decode_bundle
decode_bundle-valid bytes = ground arith
