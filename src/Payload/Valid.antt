-- ===== src/Payload/Valid.antt =====
-- What is known of a payload that the code accepts.
use switchvisor.Base.{
  Result-cases, inl, inr, ap, ◌∙◌, ok-injective, then-ok, bind-ok, reject-ok, ltb, not, ◌||◌, ℕ,
  ◌+◌, ◌%◌, ◌≤◌, ◌<◌, ◌≡◌, false, ◌==◌, List, ◌++◌, length, take, same, same_sound, take-drop,
  length-drop, some, ok, arith,
}
use mathlib.Core.Path.{subst}
use switchvisor.Memory.{load_base}
use switchvisor.Payload.Crc.{crc32}
use switchvisor.Payload.Config.{
  adds_to, ends_by, package_range, runtime_range, entry_error, header, Payload, max_package_size,
  max_runtime_size, config_offset, config_size, validate, entry, source, encode, decode, confirm,
  decode_filled, check_header, decode_fields, word_at, config_crc_offset,
}

-- What a descriptor that passes `validate` says of the package and of memory.
pub record IsPlaced (p : Payload) : Type 0 where
  pub past_config : config_offset + config_size ≤ p.bootstrap_size
  pub past_bootstrap : p.bootstrap_size ≤ p.offset
  pub adds_up : p.offset + p.file_size ≡ p.package_size
  pub package_fits : p.package_size ≤ max_package_size
  pub file_fits : (0 < p.file_size) × (p.file_size ≤ p.runtime_size)
  pub runtime_fits : p.runtime_size ≤ max_runtime_size
  pub entry_fits : (p.entry_offset % 4 ≡ 0) × (p.entry_offset + 4 ≤ p.file_size)

package_bounds :
    (b o f s : ℕ)
    → (ltb b (config_offset + config_size)
        || not (b % 16 == 0)
        || ltb o b
        || not (o % 16 == 0)
        || not (adds_to o f s)
        || ltb max_package_size s)
      ≡ false
    → (config_offset + config_size ≤ b) × (b ≤ o) × (o + f ≡ s) × (s ≤ max_package_size)
package_bounds b o f s h = ground arith

entry_bounds :
    (e f : ℕ) → (not (e % 4 == 0) || not (ends_by e 4 f)) ≡ false → (e % 4 ≡ 0) × (e + 4 ≤ f)
entry_bounds e f h = ground arith

-- The tests of `validate` one by one, but for those of the flags.
pub validate-IsPlaced : (p : Payload) → validate p ≡ ok tt → IsPlaced p
unfolding validate
validate-IsPlaced p h =
    let four = then-ok _ _ h in
    let three = then-ok _ _ four.0 in
    let two = then-ok _ _ three.0 in
    let one = then-ok _ _ two.0 in
    let in_package =
      package_bounds p.bootstrap_size p.offset p.file_size p.package_size
        (reject-ok _ package_range one.0) in
    let in_memory = reject-ok _ runtime_range one.1 in
    let in_file = entry_bounds p.entry_offset p.file_size (reject-ok _ entry_error two.1) in
    record {
      past_config = in_package.0;
      past_bootstrap = in_package.1;
      adds_up = in_package.2;
      package_fits = in_package.3;
      file_fits = ground arith;
      runtime_fits = ground arith;
      entry_fits = in_file;
    }

-- The entry point is aligned, and its first instruction lies in what was loaded from the file.
pub entry-ok :
    (p : Payload) {e : ℕ}
    → entry p ≡ ok e
    → (load_base ≤ e) × (e + 4 ≤ load_base + p.file_size) × (e % 4 ≡ 0)
unfolding entry
entry-ok p {e} h =
    let placed = validate-IsPlaced p (ground arith) in ground (arith, placed.entry_fits)

-- The source is the end of the package from the payload's offset, as long as the descriptor says,
-- and has the descriptor's checksum.
pub source-ok :
    (p : Payload) (whole : List ℕ) {bytes : List ℕ}
    → source p whole ≡ ok bytes
    → (take p.offset whole ++ bytes ≡ whole)
      × (length bytes ≡ p.file_size)
      × (crc32 bytes ≡ p.crc)
      × IsPlaced p
unfolding source
source-ok p whole {bytes} h =
    let placed = validate-IsPlaced p in
    let split = take-drop p.offset whole in let size = length-drop p.offset whole in ground arith

confirm-ok :
    (bytes : List ℕ) (q : Payload) {p : Payload}
    → confirm bytes q ≡ ok p
    → (q ≡ p) × (validate q ≡ ok tt) × (encode q ≡ ok bytes)
unfolding confirm
confirm-ok bytes q h =
    let (valid, rest) = then-ok _ _ h in
    let (again, encoded, last) = bind-ok _ _ rest in
    let (equal, done) = then-ok _ _ last in
    let found = reject-ok (not (same again bytes)) header equal in
    let exact = same_sound again bytes (ground arith) in
    (ok-injective done, valid, encoded ∙ ap ok exact)

decode_filled-ok :
    (bytes : List ℕ) {p : Payload}
    → decode_filled bytes ≡ ok p
    → (validate p ≡ ok tt) × (encode p ≡ ok bytes)
unfolding decode_filled
decode_filled-ok bytes {p} h = elim (Result-cases (check_header bytes)) [
  | inr (e, a) ↦ ground arith
  | inl (flags, a) ↦ elim (Result-cases (word_at 4 bytes config_crc_offset)) [
    | inr (e, b) ↦ ground arith
    | inl (crc, b) ↦ elim (Result-cases (decode_fields bytes flags)) [
      | inr (e, c) ↦ ground arith
      | inl (q, c) ↦
          let read = confirm-ok bytes q {p = p} in
          let kept : (q ≡ p) × (validate q ≡ ok tt) × (encode q ≡ ok bytes) = ground arith in
          subst (λ p. (validate p ≡ ok tt) × (encode p ≡ ok bytes)) kept.0 (kept.1, kept.2)
    ]
  ]
]

-- Only what `encode` makes is decoded: a descriptor that is read is valid and is written back
-- as the very bytes it was read from.
pub encode-decode :
    (bytes : List ℕ) {p : Payload} → decode bytes ≡ ok (some p) → (encode p ≡ ok bytes) × IsPlaced p
unfolding decode
encode-decode bytes {p} h = elim (Result-cases (decode_filled bytes)) [
  | inl (q, e) ↦
      let found = decode_filled-ok bytes e in
      let placed = validate-IsPlaced q found.0 in ground arith
  | inr (e', e) ↦ ground arith
]
