-- ===== src/Loader/Arms.antt =====
-- The arms of `Loader::handle`: what each opcode does to the loader and to guest RAM.
use switchvisor.Base.{
  ℕ, ◌+◌, ◌-◌, Bool, true, false, ◌||◌, not, ok, ltb, leb, ◌==◌, if◌then◌else◌, List, [], ◌++◌,
  Option, none, some, length, set, any, replicate, le_bytes, checked_add,
}
use switchvisor.Payload.Crc
use switchvisor.Loader.Types.{
  State, is_state, state_code, StatusCode, max_body_size, bundle_descriptor_size,
  image_descriptor_size, max_images,
}
use switchvisor.Loader.Ranges.{guest_ram_base, guest_ram_end}
use switchvisor.Loader.Header.{Header}
use switchvisor.Loader.Descriptor.{
  BundleDescriptor, ImageDescriptor, decode_bundle, decode_image, image_overlaps, contains_entry,
}
use switchvisor.Loader.Response
use switchvisor.Loader.Response.{Response, Action, Storage}
use switchvisor.Loader.Machine.{Loader, Outcome, clear, stored, reply, reply_with}

abbrev pub claimed_word : Bool → ℕ
claimed_word true = 1
claimed_word false = 0

abbrev pub count_word : Option BundleDescriptor → ℕ
count_word none = 0
count_word (some b) = b.image_count

abbrev pub image_words : Option ImageDescriptor → List ℕ
image_words none = replicate 24 0
image_words (some image) =
    le_bytes 8 image.address ++ le_bytes 8 image.file_size ++ le_bytes 8 image.runtime_size

module _ {S : Type 0} where
  unfoldable pub on_hello : Loader → S → Header → Outcome S
  on_hello l s header = reply_with l s header StatusCode.ok (
      le_bytes 8 guest_ram_base
      ++ le_bytes 8 guest_ram_end
      ++ le_bytes 4 max_body_size
      ++ le_bytes 4 bundle_descriptor_size
      ++ le_bytes 4 image_descriptor_size
      ++ le_bytes 4 max_images)

  unfoldable pub on_status : Loader → S → Header → Outcome S
  on_status l s header = reply_with l s header StatusCode.ok (
      le_bytes 4 (state_code l.state)
      ++ le_bytes 4 (claimed_word l.claimed)
      ++ le_bytes 8 l.received
      ++ le_bytes 4 (count_word l.bundle)
      ++ le_bytes 4 l.completed
      ++ image_words l.current)

  unfoldable pub on_begin_bundle : Loader → S → Header → List ℕ → Outcome S
  on_begin_bundle l s header body =
      if is_state l.state State.disabled
      then reply l s header StatusCode.guest_running
      else if not (is_state l.state State.idle)
      then reply l s header StatusCode.bad_state
      else if not (header.arg0 == 0) || not (header.arg1 == 0)
      then reply l s header StatusCode.bad_length
      else elim (decode_bundle body) [
        | none ↦ reply l s header StatusCode.invalid_descriptor
        | some b ↦
            reply (record l { bundle = some b; state = State.bundle; claimed = true }) s header
              StatusCode.ok
      ]

  unfoldable pub on_begin_image : Loader → S → Header → List ℕ → Outcome S
  on_begin_image l s header body =
      if not (is_state l.state State.bundle)
      then reply l s header StatusCode.bad_state
      else if not (header.arg0 == 0) || not (header.arg1 == 0)
      then reply l s header StatusCode.bad_length
      else elim l.bundle [
        | none ↦ reply (clear l State.idle) s header StatusCode.bad_state
        | some b ↦
            if leb b.image_count l.completed
            then reply l s header StatusCode.image_count
            else elim (decode_image body) [
              | none ↦ reply l s header StatusCode.invalid_descriptor
              | some image ↦
                  if any (image_overlaps image) (stored l)
                  then reply l s header StatusCode.overlap
                  else reply
                      (record l {
                        current = some image;
                        received = 0;
                        crc32 = Crc.new;
                        state = State.receiving;
                      })
                      s header StatusCode.ok
            ]
      ]

  -- A reply that carries `received` in place of the state.
  abbrev pub reply_received : Loader → S → Header → Outcome S
  reply_received l s header =
      let response = Response.new header StatusCode.ok l.state [] in
      (
        l,
        s,
        ok (
          record response { header = record (response.header) { arg1 = l.received } },
          Action.none,
        ),
      )

  unfoldable pub on_commit_bundle : Loader → S → Header → Outcome S
  on_commit_bundle l s header =
      if not (is_state l.state State.bundle)
      then reply l s header StatusCode.bad_state
      else elim l.bundle [
        | none ↦ reply (clear l State.idle) s header StatusCode.bad_state
        | some b ↦
            if not (l.completed == b.image_count)
            then reply l s header StatusCode.image_count
            else if not (any (λ image. contains_entry image b.entry) (stored l))
            then reply l s header StatusCode.entry
            else reply (record l { state = State.ready }) s header StatusCode.ok
      ]

  unfoldable pub on_abort : Loader → S → Header → Outcome S
  on_abort l s header =
      if not (
        is_state l.state State.bundle
        || is_state l.state State.receiving
        || is_state l.state State.ready)
      then reply l s header StatusCode.bad_state
      else reply (clear l State.idle) s header StatusCode.ok

  unfoldable pub on_boot : Loader → S → Header → Outcome S
  on_boot l s header =
      if not (is_state l.state State.ready)
      then reply l s header StatusCode.bad_state
      else elim l.bundle [
        | none ↦ reply (clear l State.idle) s header StatusCode.bad_state
        | some b ↦
            let l' = clear l State.disabled in
            (l', s, ok (Response.new header StatusCode.ok l'.state [], Action.boot b))
      ]

module _ {S : Type 0} (ram : Storage S) where
  unfoldable pub on_data : Loader → S → Header → List ℕ → Outcome S
  on_data l s header body =
      if not (is_state l.state State.receiving)
      then reply l s header StatusCode.bad_state
      else elim l.current [
        | none ↦ reply (clear l State.idle) s header StatusCode.bad_state
        | some image ↦
            if length body == 0
            then reply l s header StatusCode.bad_length
            else if not (header.arg0 == l.received)
                || not (header.arg1 == 0)
                || elim (checked_add l.received (length body)) [
                  | none ↦ true
                  | some end ↦ ltb image.file_size end
                ]
            then reply l s header StatusCode.bad_offset
            else elim (checked_add image.address l.received) [
              | none ↦ reply l s header StatusCode.bad_offset
              | some address ↦
                  let (s', written) = ram.write s address body in
                  if not written
                  then reply l s' header StatusCode.storage
                  else reply_received
                      (record l {
                        crc32 = Crc.update l.crc32 body;
                        received = l.received + length body;
                      })
                      s' header
            ]
      ]

  unfoldable pub finish_image : Loader → S → Header → ImageDescriptor → Outcome S
  finish_image l s header image =
      reply
        (record l {
          images = set l.images l.completed (some image);
          completed = l.completed + 1;
          current = none;
          received = 0;
          crc32 = Crc.new;
          state = State.bundle;
        })
        s header StatusCode.ok

  unfoldable pub on_end_image : Loader → S → Header → Outcome S
  on_end_image l s header =
      if not (is_state l.state State.receiving)
      then reply l s header StatusCode.bad_state
      else elim l.current [
        | none ↦ reply (clear l State.idle) s header StatusCode.bad_state
        | some image ↦
            if not (l.received == image.file_size)
            then reply l s header StatusCode.bad_length
            else if not (Crc.finish l.crc32 == image.crc32)
            then reply l s header StatusCode.checksum
            else let zero_size = image.runtime_size - image.file_size in
              if zero_size == 0
              then finish_image l s header image
              else let (s', zeroed) = ram.zero_fill s (image.address + image.file_size) zero_size in
                if zeroed
                then finish_image l s' header image
                else reply l s' header StatusCode.storage
      ]
