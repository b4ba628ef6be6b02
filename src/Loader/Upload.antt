-- ===== src/Loader/Upload.antt =====
-- An image that is sent in pieces: what the loader and guest RAM hold when the last has arrived.
use switchvisor.Base.{
  ℕ, ◌+◌, ◌^◌, ◌≤◌, ◌<◌, ◌≡◌, refl, ap, ap₂, ◌∙◌, true, List, [], ◌∷◌, ◌++◌, some, length, drop,
  arith, length-append,
}
use switchvisor.Payload.Crc
use switchvisor.Loader.Types.{opcode_decode, State, max_body_size, header_size}
use switchvisor.Loader.Ranges.{InGuest, InGuest-part}
use switchvisor.Loader.Header
use switchvisor.Loader.Header.{Header, Fits, decode-encode}
use switchvisor.Loader.Descriptor.{ImageDescriptor}
use switchvisor.Loader.Response.{Storage}
use switchvisor.Loader.Machine.{Loader}
use switchvisor.Loader.Arms.{on_data, on_end_image}
use switchvisor.Loader.Handle.{dispatch, handle_decoded, handle}

-- The message that a host sends for one piece, and the one that ends the image.
abbrev pub data_header : ℕ → ℕ → List ℕ → Header
data_header id offset body = record {
  opcode = 4;
  request_id = id;
  length = length body;
  arg0 = offset;
  arg1 = 0;
}

abbrev pub data_message : ℕ → ℕ → List ℕ → List ℕ
data_message id offset body = Header.encode (data_header id offset body) ++ body

abbrev pub concat : List (List ℕ) → List ℕ
concat [] = []
concat (x ∷ xs) = x ++ concat xs

-- Every piece is nonempty and fits a message.
abbrev pub Pieces : List (List ℕ) → Type 0
Pieces [] = Unit
Pieces (x ∷ xs) = (0 < length x) × (length x ≤ max_body_size) × Pieces xs

abbrev pub end_header : ℕ → Header
end_header id = record { opcode = 5; request_id = id; length = 0; arg0 = 0; arg1 = 0 }

-- What the loader holds after pieces of `n` bytes in all, whose running CRC is `crc`.
abbrev pub advanced : Loader → ℕ → ℕ → Loader
advanced l crc n = record l { crc32 = crc; received = l.received + n }

drop-encode :
    (header : Header) (body : List ℕ) → drop header_size (Header.encode header ++ body) ≡ body
unfolding Header.encode
drop-encode header body = refl

module _ {S : Type 0} (ram : Storage S) where
  -- The host sends the pieces in turn.
  pub send : Loader → S → ℕ → List (List ℕ) → Loader × S
  send l s id [] = (l, s)
  send l s id (x ∷ xs) =
      let (l', s', reply) = handle ram l s (data_message id l.received x) in send l' s' id xs

  -- What guest RAM goes through if each piece is stored behind the last.
  pub store : S → ℕ → List (List ℕ) → S
  store s address [] = s
  store s address (x ∷ xs) = store (ram.write s address x).0 (address + length x) xs

  pub handle_message :
      (l : Loader) (s : S) (header : Header) (body : List ℕ)
      → Fits header
      → length body ≡ header.length
      → handle ram l s (Header.encode header ++ body) ≡ handle_decoded ram l s header body
  unfolding handle
  handle_message l s header body f e =
      rw (decode-encode header body f e, handle)
        (ap (handle_decoded ram l s header) (drop-encode header body))

  decoded_data :
      (l : Loader) (s : S) (id offset : ℕ) (body : List ℕ)
      → handle_decoded ram l s (data_header id offset body) body
        ≡ on_data ram l s (data_header id offset body) body
  unfolding handle_decoded opcode_decode dispatch
  decoded_data l s id offset body = refl

  pub decoded_end :
      (l : Loader) (s : S) (id : ℕ)
      → handle_decoded ram l s (end_header id) [] ≡ on_end_image ram l s (end_header id)
  unfolding handle_decoded opcode_decode dispatch
  decoded_end l s id = refl

  module _ (image : ImageDescriptor) (fits : image.address + image.file_size < 2 ^ 64)
      (room : InGuest image.address image.runtime_size)
      (small : image.file_size ≤ image.runtime_size)
      (accepts : (s : S) (address : ℕ) (bytes : List ℕ)
        → InGuest address (length bytes)
        → (ram.write s address bytes).1 ≡ true) where
    -- A piece of an image goes to a range that the loader may write.
    piece-InGuest :
        (received n : ℕ)
        → 0 < n
        → received + n ≤ image.file_size
        → InGuest (image.address + received) n
    piece-InGuest received n pos le =
        InGuest-part image.address image.runtime_size (image.address + received) n room
          (omega arith) (omega arith) pos

    on_data_accepted :
        (l : Loader) (s : S) (id : ℕ) (x : List ℕ)
        → l.state ≡ State.receiving
        → l.current ≡ some image
        → 0 < length x
        → l.received + length x ≤ image.file_size
        → let out = on_data ram l s (data_header id l.received x) x in
          (out.0 ≡ advanced l (Crc.update l.crc32 x) (length x))
          × (out.1 ≡ (ram.write s (image.address + l.received) x).0)
    unfolding on_data
    on_data_accepted l s id x st c pos le =
        let taken =
          accepts s (image.address + l.received) x (piece-InGuest l.received (length x) pos le) in
        ground arith

    send_piece :
        (l : Loader) (s : S) (id : ℕ) (x : List ℕ)
        → id < 2 ^ 32
        → l.state ≡ State.receiving
        → l.current ≡ some image
        → 0 < length x
        → length x ≤ max_body_size
        → l.received + length x ≤ image.file_size
        → let out = handle ram l s (data_message id l.received x) in
          (out.0 ≡ advanced l (Crc.update l.crc32 x) (length x))
          × (out.1 ≡ (ram.write s (image.address + l.received) x).0)
    send_piece l s id x hid st c pos small le =
        rw
          (
            handle_message l s (data_header id l.received x) x
                (record {
                  opcode_fits = omega arith;
                  request_id_fits = hid;
                  length_fits = small;
                  arg0_fits = omega arith;
                  arg1_fits = omega arith;
                })
                refl,
            decoded_data l s id l.received x,
          )
          (on_data_accepted l s id x st c pos le)

    pub send-Pieces :
        (xs : List (List ℕ)) (l : Loader) (s : S) (id : ℕ)
        → id < 2 ^ 32
        → l.state ≡ State.receiving
        → l.current ≡ some image
        → Pieces xs
        → l.received + length (concat xs) ≤ image.file_size
        → let out = send l s id xs in
          (out.0 ≡ advanced l (Crc.update l.crc32 (concat xs)) (length (concat xs)))
          × (out.1 ≡ store s (image.address + l.received) xs)
    unfolding send store Crc.update
    send-Pieces [] l s id hid st c p le = (ground arith, refl)
    send-Pieces (x ∷ xs) l s id hid st c p le =
        let step =
          send_piece l s id x hid st c p.0 p.1 (ground (arith, length-append x (concat xs))) in
        let rest =
          send-Pieces xs (advanced l (Crc.update l.crc32 x) (length x))
            (ram.write s (image.address + l.received) x).0 id hid st c p.2
            (ground (arith, length-append x (concat xs))) in
        let on = ap₂ (λ l' s'. send l' s' id xs) step.0 step.1 in
        (
          ap (λ t. t.0) on
              ∙ rest.0
              ∙ ground
                  (arith, Crc.update-append l.crc32 x (concat xs), length-append x (concat xs)),
          ap (λ t. t.1) on
              ∙ rest.1
              ∙ ap (λ a. store (ram.write s (image.address + l.received) x).0 a xs) (omega arith),
        )
