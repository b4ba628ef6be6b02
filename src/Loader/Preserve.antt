-- ===== src/Loader/Preserve.antt =====
-- Every message keeps the loader's invariant.
use switchvisor.Base.{
  ℕ, ◌+◌, ◌<◌, ◌≡◌, ap, ◌∙◌, Bool, true, List, [], ◌∷◌, some, length, arith, length-set,
  length-append, Option-cases, inl, inr, ◌-◌,
}
use switchvisor.Loader.Types.{
  Opcode, hello, begin_bundle, begin_image, data_chunk, end_image, commit_bundle, abort, boot,
  status, State,
}
use switchvisor.Loader.Header.{Header}
use switchvisor.Loader.Response.{Storage}
use switchvisor.Loader.Descriptor.{ImageDescriptor}
use switchvisor.Loader.Roundtrip.{decode_bundle-valid, decode_image-valid}
use switchvisor.Loader.Machine.{Loader, stored}
use switchvisor.Loader.Arms.{
  finish_image, on_hello, on_status, on_begin_bundle, on_begin_image, on_data, on_end_image,
  on_commit_bundle, on_abort, on_boot,
}
use switchvisor.Loader.Handle.{dispatch, handle, handle_cases}
use switchvisor.Loader.Invariant.{
  IsValid, Phase, receiving_room, receiving_current, clear-idle-IsValid, clear-disabled-IsValid,
  present-set, AllValid-append, Disjoint-append,
}

module _ {S : Type 0} (l : Loader) (s : S) (header : Header) (v : IsValid l) where
  begin_bundle-IsValid : (body : List ℕ) → IsValid (on_begin_bundle l s header body).0
  unfolding on_begin_bundle
  begin_bundle-IsValid body = ground (arith, v.slots, v.filled, v.phase, decode_bundle-valid body)

  begin_image-IsValid : (body : List ℕ) → IsValid (on_begin_image l s header body).0
  unfolding on_begin_image
  begin_image-IsValid body =
      ground (arith, v.slots, v.filled, v.phase, clear-idle-IsValid l, decode_image-valid body)

  commit_bundle-IsValid : IsValid (on_commit_bundle l s header).0
  unfolding on_commit_bundle
  commit_bundle-IsValid = ground (arith, v.slots, v.filled, v.phase, clear-idle-IsValid l)

  abort-IsValid : IsValid (on_abort l s header).0
  unfolding on_abort
  abort-IsValid = ground (arith, clear-idle-IsValid l)

  boot-IsValid : IsValid (on_boot l s header).0
  unfolding on_boot
  boot-IsValid = ground (arith, clear-idle-IsValid l, clear-disabled-IsValid l)

module _ {S : Type 0} (ram : Storage S) (l : Loader) (header : Header) (v : IsValid l) where
  finish_image-Phase :
      (s : S) (image : ImageDescriptor)
      → l.state ≡ State.receiving
      → Phase State.bundle (finish_image ram l s header image).0
  unfolding finish_image
  finish_image-Phase s image e = ground (arith, v.phase)

  finish_image-IsValid :
      (s : S) (image : ImageDescriptor)
      → l.state ≡ State.receiving
      → l.current ≡ some image
      → IsValid (finish_image ram l s header image).0
  unfolding finish_image
  finish_image-IsValid s image e c =
      let room : l.completed < length l.images = receiving_room v e in
      let current = receiving_current image v e c in
      record {
        slots = length-set l.images l.completed (some image) ∙ v.slots;
        filled =
            rw (present-set l.images l.completed image room)
              (length-append (stored l) (image ∷ []) ∙ ap (λ n. n + 1) v.filled);
        images_valid =
            rw (present-set l.images l.completed image room)
              (AllValid-append (stored l) image v.images_valid current.0);
        disjoint =
            rw (present-set l.images l.completed image room)
              (Disjoint-append (stored l) image v.disjoint current.2);
        phase = finish_image-Phase s image e;
      }

module _ {S : Type 0} (ram : Storage S) (l : Loader) (s : S) (header : Header) (v : IsValid l) where
  data-IsValid : (body : List ℕ) → IsValid (on_data ram l s header body).0
  unfolding on_data
  data-IsValid body = ground (arith, v.slots, v.filled, v.phase, clear-idle-IsValid l)

  end_image-IsValid : IsValid (on_end_image ram l s header).0
  unfolding on_end_image
  end_image-IsValid = elim (Option-cases l.current) [
    | inl e ↦ ground (arith, clear-idle-IsValid l)
    | inr (image, e) ↦ ground (
      arith,
      finish_image-IsValid ram l header v s image,
      finish_image-IsValid ram l header v
          (ram.zero_fill s (image.address + image.file_size)
            (image.runtime_size - image.file_size)).0
          image,
    )
  ]

  dispatch-IsValid :
      (opcode : Opcode) (empty : Bool) (body : List ℕ)
      → IsValid (dispatch ram opcode empty l s header body).0
  unfolding dispatch on_hello on_status
  dispatch-IsValid hello true body = v
  dispatch-IsValid status true body = v
  dispatch-IsValid begin_bundle empty body = begin_bundle-IsValid l s header v body
  dispatch-IsValid begin_image empty body = begin_image-IsValid l s header v body
  dispatch-IsValid data_chunk empty body = data-IsValid body
  dispatch-IsValid end_image true body = end_image-IsValid
  dispatch-IsValid commit_bundle true body = commit_bundle-IsValid l s header v
  dispatch-IsValid abort true body = abort-IsValid l s header v
  dispatch-IsValid boot true body = boot-IsValid l s header v
  dispatch-IsValid _ _ body = v

-- Every message, of any bytes, keeps the loader's invariant.
pub handle-IsValid :
    {S : Type 0} (ram : Storage S) (l : Loader) (s : S) (message : List ℕ)
    → IsValid l
    → IsValid (handle ram l s message).0
handle-IsValid ram l s message v =
    handle_cases ram l s (λ out. IsValid out.0) (λ e. v) (λ header. v)
      (λ opcode empty header body. dispatch-IsValid ram l s header v opcode empty body) message
