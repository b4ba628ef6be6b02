-- ===== src/Loader/Handle.antt =====
-- `Loader::handle`: the header is decoded, and the opcode's arm is run.
use switchvisor.Base.{
  ℕ, Bool, true, false, ◌&&◌, Result, ok, err, ◌==◌, if◌then◌else◌, List, Option, none, some,
  length, drop, bit, ◌≡◌, refl, Bool-cases, inl, inr,
}
use switchvisor.Loader.Types.{
  Opcode, hello, begin_bundle, begin_image, data_chunk, end_image, commit_bundle, abort, boot,
  status, opcode_decode, StatusCode, ProtocolError, header_size,
}
use switchvisor.Loader.Header
use switchvisor.Loader.Header.{Header}
use switchvisor.Loader.Response.{Storage}
use switchvisor.Loader.Machine.{Loader, Outcome, reply}
use switchvisor.Loader.Arms.{
  on_hello, on_status, on_begin_bundle, on_begin_image, on_data, on_end_image, on_commit_bundle,
  on_abort, on_boot,
}

module _ {S : Type 0} (ram : Storage S) where
  -- `empty` is the guard of the arms that take no body and no arguments.
  unfoldable pub dispatch : Opcode → Bool → Loader → S → Header → List ℕ → Outcome S
  dispatch hello true l s header body = on_hello l s header
  dispatch status true l s header body = on_status l s header
  dispatch begin_bundle empty l s header body = on_begin_bundle l s header body
  dispatch begin_image empty l s header body = on_begin_image l s header body
  dispatch data_chunk empty l s header body = on_data ram l s header body
  dispatch end_image true l s header body = on_end_image ram l s header
  dispatch commit_bundle true l s header body = on_commit_bundle l s header
  dispatch abort true l s header body = on_abort l s header
  dispatch boot true l s header body = on_boot l s header
  dispatch _ _ l s header body = reply l s header StatusCode.bad_length

  -- What is done once the header is decoded.
  unfoldable pub handle_decoded : Loader → S → Header → List ℕ → Outcome S
  handle_decoded l s header body =
      if bit header.opcode 15
      then (l, s, err ProtocolError.reply)
      else elim (opcode_decode header.opcode) [
        | none ↦ reply l s header StatusCode.unknown_opcode
        | some opcode ↦
            dispatch opcode (length body == 0 && header.arg0 == 0 && header.arg1 == 0) l s header
              body
      ]

  unfoldable pub handle : Loader → S → List ℕ → Outcome S
  handle l s message = elim (Header.decode message) [
    | err e ↦ (l, s, err e)
    | ok header ↦ handle_decoded l s header (drop header_size message)
  ]

-- A property of the outcome of every message, from its cases: the errors, an unknown opcode, and
-- the arms.
module _ {S : Type 0} (ram : Storage S) (l : Loader) (s : S) (P : Outcome S → Type 0)
    (on_error : (e : ProtocolError) → P (l, s, err e))
    (on_unknown : (header : Header) → P (reply l s header StatusCode.unknown_opcode))
    (on_opcode : (opcode : Opcode) (empty : Bool) (header : Header) (body : List ℕ)
      → P (dispatch ram opcode empty l s header body)) where
  opcode_cases :
      (header : Header) (body : List ℕ) (found : Option Opcode)
      → opcode_decode header.opcode ≡ found
      → bit header.opcode 15 ≡ false
      → P (handle_decoded ram l s header body)
  unfolding handle_decoded
  opcode_cases header body none e plain = rw (plain, e) (on_unknown header)
  opcode_cases header body (some opcode) e plain = rw (plain, e) (on_opcode opcode _ header body)

  decoded_cases : (header : Header) (body : List ℕ) → P (handle_decoded ram l s header body)
  unfolding handle_decoded
  decoded_cases header body = elim (Bool-cases (bit header.opcode 15)) [
    | inl e ↦ rw e (on_error ProtocolError.reply)
    | inr e ↦ opcode_cases header body (opcode_decode header.opcode) refl e
  ]

  pub handle_cases : (message : List ℕ) → P (handle ram l s message)
  unfolding handle
  handle_cases message = go (Header.decode message) refl
    where
      go :
          (r : Result ProtocolError Header) → Header.decode message ≡ r → P (handle ram l s message)
      go (err e) q = rw (q, handle) (on_error e)
      go (ok header) q = rw (q, handle) (decoded_cases header (drop header_size message))
