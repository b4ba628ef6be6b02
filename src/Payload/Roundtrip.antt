-- ===== src/Payload/Roundtrip.antt =====
-- A payload that keeps to the rules is encoded, and decoded again as what it was.
use switchvisor.Base.{
  ℕ, ◌+◌, ◌/◌, ◌%◌, ◌^◌, ◌≤◌, ◌<◌, ◌≡◌, refl, ap, ◌∙◌, Bool, true, false, ◌||◌, ◌&&◌, not, ltb,
  ◌==◌, List, [], ◌∷◌, length, all, same, some, ok, arith, bit, from_le-le_bytes,
}
use switchvisor.Loader.Descriptor.{to_list}
use switchvisor.Payload.Config.{
  Payload, shifted, adds_to, ends_by, config_offset, config_size, max_package_size,
  max_runtime_size, validate, encode, decode, confirm, decode_filled, check_header, decode_fields,
  decode_registers, word_at, with_crc, config_crc, fields,
}
use switchvisor.Payload.Valid.{IsPlaced}
use switchvisor.Payload.Checksum.{flags_of, config_crc-with_crc, config_crc-lt}

abbrev pub AllWords : List ℕ → Type 0
AllWords [] = Unit
AllWords (w ∷ ws) = (w < 2 ^ 64) × AllWords ws

-- The rules of a payload: its places, their alignment, what its flags ask for, and words of 64 bits
-- (what the places bound need not be said).
pub record IsAcceptable (p : Payload) : Type 0 where
  pub placed : IsPlaced p
  pub bootstrap_aligned : p.bootstrap_size % 16 ≡ 0
  pub offset_aligned : p.offset % 16 ≡ 0
  pub arguments_kept : (not p.preserve_boot_args || all (λ v. v == 0) (to_list p.registers)) ≡ true
  pub upload_possible : (not p.require_upload || (p.usb_uart || p.usb_control || p.usb_net)) ≡ true
  pub registers_fit : AllWords (to_list p.registers)
  pub crc_fits : p.crc < 2 ^ 32

flag_bits :
    (a b c d e : Bool)
    → let flags = shifted a 0 + shifted b 1 + shifted c 2 + shifted d 3 + shifted e 4 in
      (flags < 2 ^ 5)
      × (bit flags 0 ≡ a)
      × (bit flags 1 ≡ b)
      × (bit flags 2 ≡ c)
      × (bit flags 3 ≡ d)
      × (bit flags 4 ≡ e)
flag_bits a b c d e = ground arith

same_self : (xs : List ℕ) → same xs xs ≡ true
same_self [] = refl
same_self (x ∷ xs) = let rest = same_self xs in ground arith

decode_registers-with_crc :
    (p : Payload) (crc : ℕ)
    → AllWords (to_list p.registers)
    → decode_registers (with_crc p crc) ≡ ok p.registers
unfolding decode_registers word_at with_crc fields
decode_registers-with_crc p crc (h0, (h1, (h2, (h3, (h4, (h5, (h6, (h7, done)))))))) =
    let r = p.registers in
    rw
      (
        from_le-le_bytes 8 r.x0 h0,
        from_le-le_bytes 8 r.x1 h1,
        from_le-le_bytes 8 r.x2 h2,
        from_le-le_bytes 8 r.x3 h3,
        from_le-le_bytes 8 r.x4 h4,
        from_le-le_bytes 8 r.x5 h5,
        from_le-le_bytes 8 r.x6 h6,
        from_le-le_bytes 8 r.x7 h7,
      )
      refl

few_flags : (n : ℕ) → n < 2 ^ 5 → not (n / 2 ^ 5 == 0) ≡ false
few_flags n h = ground arith

check_header-with_crc : (p : Payload) (crc : ℕ) → check_header (with_crc p crc) ≡ ok (flags_of p)
unfolding check_header word_at with_crc fields
check_header-with_crc p crc =
    let bits = flag_bits p.preserve_boot_args p.usb_uart p.usb_control p.require_upload p.usb_net in
    let none_above : not (flags_of p / 2 ^ 5 == 0) ≡ false = few_flags (flags_of p) bits.0 in
    rw (from_le-le_bytes 4 (flags_of p) (omega (arith, bits.0)), none_above) refl

stored_crc : (p : Payload) (crc : ℕ) → crc < 2 ^ 32 → word_at 4 (with_crc p crc) 132 ≡ ok crc
unfolding word_at with_crc fields
stored_crc p crc h = rw (from_le-le_bytes 4 crc h) refl

package_tests :
    (b o f s : ℕ)
    → config_offset + config_size ≤ b
    → b % 16 ≡ 0
    → b ≤ o
    → o % 16 ≡ 0
    → o + f ≡ s
    → s ≤ max_package_size
    → (ltb b (config_offset + config_size)
        || not (b % 16 == 0)
        || ltb o b
        || not (o % 16 == 0)
        || not (adds_to o f s)
        || ltb max_package_size s)
      ≡ false
package_tests b o f s h1 h2 h3 h4 h5 h6 = ground arith

runtime_tests :
    (f r : ℕ)
    → (0 < f) × (f ≤ r)
    → r ≤ max_runtime_size
    → (f == 0 || ltb r f || ltb max_runtime_size r) ≡ false
runtime_tests f r h k = ground arith

entry_tests :
    (e f : ℕ)
    → (e % 4 ≡ 0) × (e + 4 ≤ f)
    → f < 2 ^ 64
    → (not (e % 4 == 0) || not (ends_by e 4 f)) ≡ false
entry_tests e f h k = ground arith

kept : (flag test : Bool) → (not flag || test) ≡ true → (flag && not test) ≡ false
kept flag test h = ground arith

validate-ok : (p : Payload) → IsAcceptable p → validate p ≡ ok tt
unfolding validate
validate-ok p a =
    let places = a.placed in
    let placed =
      package_tests p.bootstrap_size p.offset p.file_size p.package_size places.past_config
        a.bootstrap_aligned places.past_bootstrap a.offset_aligned places.adds_up
        places.package_fits in
    let memory = runtime_tests p.file_size p.runtime_size places.file_fits places.runtime_fits in
    let first =
      entry_tests p.entry_offset p.file_size places.entry_fits
        (omega (arith, places.file_fits, places.runtime_fits)) in
    let arguments =
      kept p.preserve_boot_args (all (λ v. v == 0) (to_list p.registers)) a.arguments_kept in
    let upload =
      kept p.require_upload (p.usb_uart || p.usb_control || p.usb_net) a.upload_possible in
    rw (validate, placed, memory, first, arguments, upload) refl

-- The words of the sizes and places, where they fit.
sizes-with_crc :
    (p : Payload) (crc : ℕ)
    → AllWords (
        p.package_size ∷ p.bootstrap_size ∷ p.offset ∷ p.file_size ∷ p.runtime_size ∷ p.entry_offset
        ∷ [])
    → (word_at 8 (with_crc p crc) 16 ≡ ok p.package_size)
      × (word_at 8 (with_crc p crc) 24 ≡ ok p.bootstrap_size)
      × (word_at 8 (with_crc p crc) 32 ≡ ok p.offset)
      × (word_at 8 (with_crc p crc) 40 ≡ ok p.file_size)
      × (word_at 8 (with_crc p crc) 48 ≡ ok p.runtime_size)
      × (word_at 8 (with_crc p crc) 56 ≡ ok p.entry_offset)
unfolding word_at with_crc fields
sizes-with_crc p crc (h0, (h1, (h2, (h3, (h4, (h5, done)))))) = (
  ap ok (from_le-le_bytes 8 p.package_size h0),
  ap ok (from_le-le_bytes 8 p.bootstrap_size h1),
  ap ok (from_le-le_bytes 8 p.offset h2),
  ap ok (from_le-le_bytes 8 p.file_size h3),
  ap ok (from_le-le_bytes 8 p.runtime_size h4),
  ap ok (from_le-le_bytes 8 p.entry_offset h5),
)

payload_crc-with_crc :
    (p : Payload) (crc : ℕ) → p.crc < 2 ^ 32 → word_at 4 (with_crc p crc) 128 ≡ ok p.crc
unfolding word_at with_crc fields
payload_crc-with_crc p crc h = ap ok (from_le-le_bytes 4 p.crc h)

sizes_fit :
    (p : Payload)
    → IsPlaced p
    → AllWords (
        p.package_size ∷ p.bootstrap_size ∷ p.offset ∷ p.file_size ∷ p.runtime_size ∷ p.entry_offset
        ∷ [])
sizes_fit p h =
    let sum = h.adds_up in
    let whole = h.package_fits in
    let before = h.past_bootstrap in
    let file = h.file_fits in
    let runtime = h.runtime_fits in
    let first = h.entry_fits in
    (
      omega arith,
      (omega arith, (omega arith, (omega arith, (omega arith, (omega (arith, first.1), tt))))),
    )

decode_fields-with_crc :
    (p : Payload) (crc : ℕ) → IsAcceptable p → decode_fields (with_crc p crc) (flags_of p) ≡ ok p
unfolding decode_fields
decode_fields-with_crc p crc a =
    let sizes = sizes-with_crc p crc (sizes_fit p a.placed) in
    let bits = flag_bits p.preserve_boot_args p.usb_uart p.usb_control p.require_upload p.usb_net in
    rw
      (
        decode_registers-with_crc p crc a.registers_fit,
        sizes.0,
        sizes.1,
        sizes.2,
        sizes.3,
        sizes.4,
        sizes.5,
        payload_crc-with_crc p crc a.crc_fits,
        bits.1,
        bits.2,
        bits.3,
        bits.4,
        bits.5,
      )
      refl

confirm-with_crc :
    (p : Payload) → IsAcceptable p → confirm (with_crc p (config_crc (with_crc p 0))) p ≡ ok p
unfolding confirm encode
confirm-with_crc p a = rw (validate-ok p a, same_self (with_crc p (config_crc (with_crc p 0)))) refl

not_blank : (p : Payload) (crc : ℕ) → all (λ b. b == 0) (with_crc p crc) ≡ false
unfolding with_crc fields
not_blank p crc = refl

length-with_crc : (p : Payload) (crc : ℕ) → length (with_crc p crc) ≡ 256
unfolding with_crc fields
length-with_crc p crc = refl

decode_filled-with_crc :
    (p : Payload) → IsAcceptable p → decode_filled (with_crc p (config_crc (with_crc p 0))) ≡ ok p
unfolding decode_filled
decode_filled-with_crc p a =
    let crc = config_crc (with_crc p 0) in
    let sum : not (config_crc (with_crc p crc) == crc) ≡ false =
      ap (λ t. not (t == crc)) (config_crc-with_crc p crc) ∙ ground arith in
    rw
      (
        check_header-with_crc p crc,
        stored_crc p crc (config_crc-lt p),
        sum,
        decode_fields-with_crc p crc a,
      )
      (confirm-with_crc p a)

-- A payload that keeps to the rules is encoded, to 256 bytes, and what these are decoded to is that
-- very payload.
pub decode-encode_payload :
    (p : Payload)
    → IsAcceptable p
    → (bytes : List ℕ) × (encode p ≡ ok bytes) × (length bytes ≡ 256) × (decode bytes ≡ ok (some p))
unfolding encode decode
decode-encode_payload p a =
    let crc = config_crc (with_crc p 0) in
    let blank = not_blank p crc in
    let size : not (length (with_crc p crc) == 256) ≡ false =
      ap (λ n. not (n == 256)) (length-with_crc p crc) in
    (
      with_crc p crc,
      rw (validate-ok p a) refl,
      length-with_crc p crc,
      rw (decode, size, blank, decode_filled-with_crc p a) refl,
    )
