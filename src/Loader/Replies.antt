-- ===== src/Loader/Replies.antt =====
-- What a reply says of the loader: refusals change nothing, and a boot comes from a ready bundle.
use switchvisor.Base.{ℕ, ◌≡◌, ◌≢◌, refl, Bool, true, List, some, length, arith, ok, err, any}
use switchvisor.Loader.Types.{
  Opcode, hello, begin_bundle, begin_image, data_chunk, end_image, commit_bundle, State,
}
use switchvisor.Loader.Header.{Header}
use switchvisor.Loader.Descriptor.{BundleDescriptor, contains_entry}
use switchvisor.Loader.Response
use switchvisor.Loader.Response.{Response, Action, Storage}
use switchvisor.Loader.Machine.{Loader, Outcome, stored, clear}
use switchvisor.Loader.Arms.{
  on_hello, on_status, on_begin_bundle, on_begin_image, on_data, on_end_image, on_commit_bundle,
  on_abort, on_boot, finish_image,
}
use switchvisor.Loader.Handle.{dispatch, handle, handle_cases}
use switchvisor.Loader.Invariant.{IsValid}

-- A refusal: an error, or a reply whose status is not `Ok`.
abbrev pub Refused : {S : Type 0} → Outcome S → Type 0
Refused (l, s, err e) = Unit
Refused (l, s, ok (r, a)) = r.header.arg0 ≢ 0

abbrev pub NoBoot : {S : Type 0} → Outcome S → Type 0
NoBoot (l, s, err e) = Unit
NoBoot (l, s, ok (r, a)) = a ≡ Action.none

-- What stands behind a boot of the bundle `b`, from the loader `l` and guest RAM `s`.
abbrev pub BootFrom : {S : Type 0} → Loader → S → BundleDescriptor → Outcome S → Type 0
BootFrom l s b out =
    (l.state ≡ State.ready)
    × (l.bundle ≡ some b)
    × (length (stored l) ≡ b.image_count)
    × (any (λ image. contains_entry image b.entry) (stored l) ≡ true)
    × (out.0.state ≡ State.disabled)
    × (out.1 ≡ s)

-- Nothing has happened.
abbrev pub Silent : {S : Type 0} → Loader → S → Outcome S → Type 0
Silent l s out = (out.0 ≡ l) × (out.1 ≡ s) × NoBoot out

module _ {S : Type 0} (ram : Storage S) (l : Loader) (s : S) (v : IsValid l) where
  dispatch-Refused :
      (opcode : Opcode) (empty : Bool) (header : Header) (body : List ℕ)
      → let out = dispatch ram opcode empty l s header body in
        Refused out → (out.0 ≡ l) × NoBoot out
  unfolding dispatch on_hello on_status on_begin_bundle on_begin_image on_data on_end_image
      on_commit_bundle on_abort on_boot finish_image Response.new clear
  dispatch-Refused hello true header body h = ground arith
  dispatch-Refused begin_bundle empty header body h = ground (arith, v.phase)
  dispatch-Refused begin_image empty header body h = ground (arith, v.phase)
  dispatch-Refused data_chunk empty header body h = ground (arith, v.phase)
  dispatch-Refused end_image empty header body h = ground (arith, v.phase)
  dispatch-Refused commit_bundle empty header body h = ground (arith, v.phase)
  dispatch-Refused _ _ header body h = ground (arith, v.phase)

  -- A message that is refused, by an error or by a reply whose status is not `Ok`, leaves the
  -- loader as it was and does not boot.
  pub handle-Refused :
      (message : List ℕ)
      → Refused (handle ram l s message)
      → let out = handle ram l s message in (out.0 ≡ l) × NoBoot out
  handle-Refused =
      handle_cases ram l s (λ out. Refused out → (out.0 ≡ l) × NoBoot out) (λ e h. (refl, tt))
        (λ header h. (refl, refl))
        (λ opcode empty header body. dispatch-Refused opcode empty header body)

module _ {S : Type 0} (ram : Storage S) (l : Loader) (s : S) (off : l.state ≡ State.disabled) where
  dispatch_disabled :
      (opcode : Opcode) (empty : Bool) (header : Header) (body : List ℕ)
      → Silent l s (dispatch ram opcode empty l s header body)
  unfolding dispatch on_hello on_status on_begin_bundle on_begin_image on_data on_end_image
      on_commit_bundle on_abort on_boot
  dispatch_disabled hello true header body = ground arith
  dispatch_disabled _ _ header body = ground arith

  -- Once disabled, which is what a boot leaves, the loader answers every message without a
  -- change to itself or to guest RAM, and never boots again.
  pub handle_disabled : (message : List ℕ) → Silent l s (handle ram l s message)
  handle_disabled =
      handle_cases ram l s (Silent l s) (λ e. (refl, refl, tt)) (λ header. (refl, refl, refl))
        dispatch_disabled
