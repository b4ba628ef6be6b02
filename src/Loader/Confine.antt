-- ===== src/Loader/Confine.antt =====
-- No message makes the loader write outside the ranges that `guest_range` allows.
use switchvisor.Base.{
  ℕ, ◌+◌, ◌-◌, ◌≤◌, ◌<◌, ◌≡◌, ◌≢◌, Bool, true, List, some, length, arith, Option-cases, inl, inr,
}
use switchvisor.Loader.Types.{Opcode, hello, data_chunk, end_image, State}
use switchvisor.Loader.Ranges.{InGuest, InGuest-part}
use switchvisor.Loader.Header.{Header}
use switchvisor.Loader.Descriptor.{ImageDescriptor}
use switchvisor.Loader.Response.{Storage}
use switchvisor.Loader.Machine.{Loader}
use switchvisor.Loader.Arms.{
  on_hello, on_status, on_begin_bundle, on_begin_image, on_data, on_end_image, on_commit_bundle,
  on_abort, on_boot, finish_image,
}
use switchvisor.Loader.Handle.{dispatch, handle, handle_cases}
use switchvisor.Loader.Invariant.{IsValid, receiving_current, image-InGuest, validate_image_sizes}

module _ {S : Type 0} (ram : Storage S) (Safe : S → Type 0)
    (write_safe : (s : S) (address : ℕ) (bytes : List ℕ)
      → InGuest address (length bytes)
      → Safe s
      → Safe (ram.write s address bytes).0)
    (zero_safe : (s : S) (address size : ℕ)
      → InGuest address size
      → Safe s
      → Safe (ram.zero_fill s address size).0) where
  -- The write of a data message, and the fill behind the file when an image ends.
  chunk_safe :
      (l : Loader) (s : S) (image : ImageDescriptor) (body : List ℕ)
      → IsValid l
      → Safe s
      → l.current ≡ some image
      → l.state ≡ State.receiving
      → 0 < length body
      → l.received + length body ≤ image.file_size
      → Safe (ram.write s (image.address + l.received) body).0
  chunk_safe l s image body v safe c e pos fits =
      let valid = receiving_current image v e c in
      let sizes = validate_image_sizes image valid.0 in
      write_safe s (image.address + l.received) body
        (InGuest-part image.address image.runtime_size _ _ (image-InGuest image valid.0)
          (omega arith) (omega arith) pos)
        safe

  fill_safe :
      (l : Loader) (s : S) (image : ImageDescriptor)
      → IsValid l
      → Safe s
      → l.current ≡ some image
      → l.state ≡ State.receiving
      → image.runtime_size - image.file_size ≢ 0
      → Safe
          (ram.zero_fill s
            (image.address + image.file_size)
            (image.runtime_size - image.file_size)).0
  fill_safe l s image v safe c e ne =
      let valid = receiving_current image v e c in
      let sizes = validate_image_sizes image valid.0 in
      zero_safe s _ _
        (InGuest-part image.address image.runtime_size _ _ (image-InGuest image valid.0)
          (omega arith) (omega arith) (omega arith))
        safe

  data_safe :
      (l : Loader) (s : S) (header : Header) (body : List ℕ)
      → IsValid l
      → Safe s
      → Safe (on_data ram l s header body).1
  unfolding on_data
  data_safe l s header body v safe = elim (Option-cases l.current) [
    | inl e ↦ ground arith
    | inr (image, e) ↦ ground (arith, chunk_safe l s image body v safe)
  ]

  end_safe :
      (l : Loader) (s : S) (header : Header)
      → IsValid l
      → Safe s
      → Safe (on_end_image ram l s header).1
  unfolding on_end_image finish_image
  end_safe l s header v safe = elim (Option-cases l.current) [
    | inl e ↦ ground arith
    | inr (image, e) ↦ ground (arith, fill_safe l s image v safe)
  ]

  dispatch_safe :
      (l : Loader) (s : S) (opcode : Opcode) (empty : Bool) (header : Header) (body : List ℕ)
      → IsValid l
      → Safe s
      → Safe (dispatch ram opcode empty l s header body).1
  unfolding dispatch on_hello on_status on_begin_bundle on_begin_image on_commit_bundle on_abort
      on_boot
  dispatch_safe l s hello true header body v safe = safe
  dispatch_safe l s data_chunk empty header body v safe = data_safe l s header body v safe
  dispatch_safe l s end_image true header body v safe = end_safe l s header v safe
  dispatch_safe l s _ _ header body v safe = ground arith

  -- A property of guest RAM that writes and zero fills of allowed ranges keep is kept by every
  -- message: the loader touches no other range.
  pub handle_confined :
      (l : Loader) (s : S) (message : List ℕ) → IsValid l → Safe s → Safe (handle ram l s message).1
  handle_confined l s message v safe =
      handle_cases ram l s (λ out. Safe out.1) (λ e. safe) (λ header. safe)
        (λ opcode empty header body. dispatch_safe l s opcode empty header body v safe) message
