-- ===== src/Loader/Accept.antt =====
-- A whole image: sent in pieces, ended, and stored exactly if its CRC is the declared one.
use switchvisor.Base.{
  ℕ, ◌+◌, ◌-◌, ◌^◌, ◌<◌, ◌≡◌, ◌≢◌, refl, sym, ap, ap₂, ◌∙◌, true, List, [], ◌∷◌, ◌++◌, Option, none,
  some, length, arith, ok, err, ◌==◌, if◌then◌else◌,
}
use switchvisor.Payload.Crc
use switchvisor.Loader.Types.{State, StatusCode, status_code}
use switchvisor.Loader.Ranges.{InGuest, InGuest-part}
use switchvisor.Loader.Header
use switchvisor.Loader.Descriptor.{ImageDescriptor, validate_image}
use switchvisor.Loader.Response
use switchvisor.Loader.Response.{Storage, Action}
use switchvisor.Loader.Machine.{Loader, Outcome, stored}
use switchvisor.Loader.Arms.{on_end_image, finish_image}
use switchvisor.Loader.Handle.{handle}
use switchvisor.Loader.Invariant.{
  IsValid, receiving_room, receiving_current, image-InGuest, validate_image_sizes, present-set,
}
use switchvisor.Loader.Upload.{
  end_header, Pieces, concat, send, store, advanced, handle_message, decoded_end, send-Pieces,
}

abbrev pub end_message : ℕ → List ℕ
end_message id = Header.encode (end_header id)

encode_nil : (id : ℕ) → Header.encode (end_header id) ++ [] ≡ end_message id
unfolding Header.encode
encode_nil id = refl

abbrev pub reply_status : {S : Type 0} → Outcome S → Option ℕ
reply_status (l, s, err e) = none
reply_status (l, s, ok (r, a)) = some r.header.arg0

module _ {S : Type 0} (ram : Storage S) where
  -- Guest RAM after the part of the extent behind the file is cleared.
  abbrev pub fill : S → ImageDescriptor → S
  fill s image =
      if image.runtime_size - image.file_size == 0
      then s
      else (ram.zero_fill s (image.address + image.file_size)
          (image.runtime_size - image.file_size)).0

  handle_end :
      (l : Loader) (s : S) (id : ℕ)
      → id < 2 ^ 32
      → handle ram l s (end_message id) ≡ on_end_image ram l s (end_header id)
  handle_end l s id hid =
      ap (handle ram l s) (sym (encode_nil id))
      ∙ handle_message ram l s (end_header id) []
          (record {
            opcode_fits = omega arith;
            request_id_fits = hid;
            length_fits = omega arith;
            arg0_fits = omega arith;
            arg1_fits = omega arith;
          })
          refl
      ∙ decoded_end ram l s id

  -- The host sends the pieces of an image and ends it.
  pub upload : Loader → S → ℕ → List (List ℕ) → Outcome S
  upload l s id xs = let (l', s') = send ram l s id xs in handle ram l' s' (end_message id)

  module _ (image : ImageDescriptor) (fits : image.address + image.file_size < 2 ^ 64)
      (accepts : (s : S) (address : ℕ) (bytes : List ℕ)
        → InGuest address (length bytes)
        → (ram.write s address bytes).1 ≡ true)
      (clears : (s : S) (address size : ℕ)
        → InGuest address size
        → (ram.zero_fill s address size).1 ≡ true)
      (l : Loader) (s : S) (id : ℕ) (xs : List (List ℕ)) (hid : id < 2 ^ 32)
      (state : l.state ≡ State.receiving) (current : l.current ≡ some image)
      (start : l.received ≡ 0) (fresh : l.crc32 ≡ Crc.new) (pieces : Pieces xs)
      (whole : length (concat xs) ≡ image.file_size) (v : IsValid l) where
    valid_image : validate_image image ≡ true
    valid_image = (receiving_current image v state current).0

    upload_end :
        upload l s id xs
        ≡ on_end_image ram
            (advanced l (Crc.update Crc.new (concat xs)) image.file_size)
            (store ram s image.address xs)
            (end_header id)
    unfolding upload
    upload_end =
        let sent =
          send-Pieces ram image fits (image-InGuest image valid_image)
            (validate_image_sizes image valid_image).1 accepts xs l s id hid state current pieces
            (omega arith) in
        ap₂ (λ l' s'. handle ram l' s' (end_message id)) sent.0 sent.1
        ∙ handle_end _ _ id hid
        ∙ ap₂ (λ l' s'. on_end_image ram l' s' (end_header id))
            (ap₂ (advanced l) (ap (λ c. Crc.update c (concat xs)) fresh) whole)
            (ap (λ a. store ram s a xs) (omega arith))

    filled :
        image.runtime_size - image.file_size ≢ 0
        → (ram.zero_fill
            (store ram s image.address xs)
            (image.address + image.file_size)
            (image.runtime_size - image.file_size)).1
          ≡ true
    filled ne =
        let sizes = validate_image_sizes image valid_image in
        clears _ _ _ (
          InGuest-part image.address image.runtime_size _ _ (image-InGuest image valid_image)
            (omega arith) (omega arith) (omega arith))

    -- The pieces of an image, sent in turn and ended, leave the image stored behind those before
    -- it, the pieces written one behind the other and the rest of its extent cleared, if their
    -- CRC is the declared one. The loader is valid, and the storage takes writes and fills of ranges
    -- that the loader may write.
    pub upload_accepted :
        Crc.crc32 (concat xs) ≡ image.crc32
        → let out = upload l s id xs in
          (out.0.state ≡ State.bundle)
          × (stored out.0 ≡ stored l ++ (image ∷ []))
          × (out.1 ≡ fill (store ram s image.address xs) image)
    unfolding on_end_image finish_image Crc.crc32
    upload_accepted crc =
        rw upload_end
          (ground (arith, filled, present-set l.images l.completed image (receiving_room v state)))

    -- With another CRC the image is refused: nothing is stored or cleared, and the loader waits
    -- for the host to abort. The storage takes writes of ranges that the loader may write.
    pub upload_refused :
        Crc.crc32 (concat xs) ≢ image.crc32
        → let out = upload l s id xs in
          (stored out.0 ≡ stored l)
          × (out.0.state ≡ State.receiving)
          × (out.1 ≡ store ram s image.address xs)
          × (reply_status out ≡ some (status_code StatusCode.checksum))
    unfolding on_end_image Crc.crc32 Response.new
    upload_refused ne = rw upload_end (ground arith)
