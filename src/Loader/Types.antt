-- ===== src/Loader/Types.antt =====
-- The enumerations of loader.rs, and its size constants.
use switchvisor.Base.{ℕ, Bool, Option, none, some, ◌≡◌, refl, ◌==◌, if◌then◌else◌}

abbrev pub magic_len : ℕ
magic_len = 4

abbrev pub version : ℕ
version = 2

abbrev pub header_size : ℕ
header_size = 32

abbrev pub max_body_size : ℕ
max_body_size = 4064

abbrev pub bundle_descriptor_size : ℕ
bundle_descriptor_size = 80

abbrev pub image_descriptor_size : ℕ
image_descriptor_size = 32

abbrev pub max_images : ℕ
max_images = 16

abbrev pub reply_flag : ℕ
reply_flag = 0x8000

-- `Data` is `data_chunk`, since `data` is a reserved word.
pub data Opcode : Type 0 where
  hello begin_bundle begin_image data_chunk end_image commit_bundle abort boot status : Opcode

abbrev pub opcode_code : Opcode → ℕ
opcode_code hello = 1
opcode_code begin_bundle = 2
opcode_code begin_image = 3
opcode_code data_chunk = 4
opcode_code end_image = 5
opcode_code commit_bundle = 6
opcode_code abort = 7
opcode_code boot = 8
opcode_code status = 9

unfoldable pub opcode_decode : ℕ → Option Opcode
opcode_decode v =
    if v == 1
    then some hello
    else if v == 2
    then some begin_bundle
    else if v == 3
    then some begin_image
    else if v == 4
    then some data_chunk
    else if v == 5
    then some end_image
    else if v == 6
    then some commit_bundle
    else if v == 7
    then some abort
    else if v == 8
    then some boot
    else if v == 9
    then some status
    else none

pub opcode_decode-code : (o : Opcode) → opcode_decode (opcode_code o) ≡ some o
unfolding opcode_decode
opcode_decode-code hello = refl
opcode_decode-code _ = refl

pub data State : Type 0 where
  idle bundle receiving ready disabled : State

abbrev pub state_code : State → ℕ
state_code idle = 0
state_code bundle = 1
state_code receiving = 2
state_code ready = 3
state_code disabled = 4

-- `self.state == state`
abbrev pub is_state : State → State → Bool
is_state s t = state_code s == state_code t

pub data StatusCode : Type 0 where
  ok unknown_opcode bad_length bad_state invalid_descriptor bad_offset : StatusCode
  checksum storage guest_running image_count overlap entry : StatusCode

abbrev pub status_code : StatusCode → ℕ
status_code ok = 0
status_code unknown_opcode = 1
status_code bad_length = 2
status_code bad_state = 3
status_code invalid_descriptor = 4
status_code bad_offset = 5
status_code checksum = 6
status_code storage = 7
status_code guest_running = 8
status_code image_count = 9
status_code overlap = 10
status_code entry = 11

pub data ProtocolError : Type 0 where
  truncated magic version_mismatch length_mismatch reply : ProtocolError
