-- ===== src/Loader/Header.antt =====
-- `Header` of loader.rs: the 32 bytes in front of every message, and of every reply.
use switchvisor.Base.{
  ℕ, ◌+◌, ◌^◌, ◌≤◌, ◌<◌, ◌≡◌, Bool, false, ◌&&◌, ◌||◌, not, Result, ok, reject, ok_or, ◌>>=◌, ◌>>◌,
  ltb, ◌==◌, List, [], ◌∷◌, ◌++◌, length, get_range, from_le, le_bytes, from_le-le_bytes, arith,
}
use mathlib.Core.Option
use switchvisor.Loader.Types.{
  ProtocolError, truncated, magic, version_mismatch, length_mismatch, version, header_size,
  max_body_size,
}

pub record Header : Type 0 where
  pub opcode : ℕ
  pub request_id : ℕ
  pub length : ℕ
  pub arg0 : ℕ
  pub arg1 : ℕ

-- `b"SWVL"`
abbrev pub magic_bytes : List ℕ
magic_bytes = 0x53 ∷ 0x57 ∷ 0x56 ∷ 0x4c ∷ []

-- `u16_at`, `u32_at` and `u64_at`, for the width in bytes.
abbrev pub word_at : ℕ → List ℕ → ℕ → Result ProtocolError ℕ
word_at width bytes offset = ok_or (Option.map from_le (get_range bytes offset width)) truncated

-- `bytes[..4] == MAGIC`
abbrev pub has_magic : List ℕ → Bool
has_magic (a ∷ b ∷ c ∷ d ∷ rest) = a == 0x53 && b == 0x57 && c == 0x56 && d == 0x4c
has_magic _ = false

unfoldable pub encode : Header → List ℕ
encode h =
    magic_bytes
    ++ le_bytes 2 version
    ++ le_bytes 2 h.opcode
    ++ le_bytes 4 h.request_id
    ++ le_bytes 4 h.length
    ++ le_bytes 8 h.arg0
    ++ le_bytes 8 h.arg1

unfoldable pub decode : List ℕ → Result ProtocolError Header
decode bytes = do
  reject (ltb (length bytes) header_size) truncated
  reject (not (has_magic bytes)) magic
  v ← word_at 2 bytes 4
  reject (not (v == version)) version_mismatch
  opcode ← word_at 2 bytes 6
  request_id ← word_at 4 bytes 8
  len ← word_at 4 bytes 12
  arg0 ← word_at 8 bytes 16
  arg1 ← word_at 8 bytes 24
  reject (ltb max_body_size len || not (length bytes == header_size + len)) length_mismatch
  ok (record { opcode = opcode; request_id = request_id; length = len; arg0 = arg0; arg1 = arg1 })

-- The fields are machine words.
pub record Fits (h : Header) : Type 0 where
  pub opcode_fits : h.opcode < 2 ^ 16
  pub request_id_fits : h.request_id < 2 ^ 32
  pub length_fits : h.length ≤ max_body_size
  pub arg0_fits : h.arg0 < 2 ^ 64
  pub arg1_fits : h.arg1 < 2 ^ 64

-- A header in front of a body of the length it gives is read back as it was written.
pub decode-encode :
    (h : Header) (body : List ℕ)
    → Fits h
    → length body ≡ h.length
    → decode (encode h ++ body) ≡ ok h
unfolding decode encode
decode-encode h body f e = ground (
  arith,
  from_le-le_bytes 2 h.opcode,
  from_le-le_bytes 4 h.request_id,
  from_le-le_bytes 4 h.length,
  from_le-le_bytes 8 h.arg0,
  from_le-le_bytes 8 h.arg1,
)
