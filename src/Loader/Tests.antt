-- ===== src/Loader/Tests.antt =====
-- An upload of one image of six bytes, and the loader's theorems at it.
use switchvisor.Base.{
  if◌then◌else◌, false, ℕ, ◌≡◌, ◌≢◌, ◌↔◌, refl, true, List, [], ◌∷◌, none, some, length, ok, arith,
  replicate,
}
use switchvisor.Payload.Crc
use switchvisor.Memory
use switchvisor.Loader.Types.{State, StatusCode, opcode_decode}
use switchvisor.Loader.Ranges.{InGuest, guest_range, guest_range_iff, InGuest-guest_range}
use switchvisor.Loader.Header
use switchvisor.Loader.Header.{Header, decode-encode}
use switchvisor.Loader.Descriptor.{
  Registers, BundleDescriptor, ImageDescriptor, validate_image, validate_bundle,
}
use switchvisor.Loader.Response
use switchvisor.Loader.Response.{Storage, Response}
use switchvisor.Loader.Machine.{Loader, stored}
use switchvisor.Loader.Arms.{on_data}
use switchvisor.Loader.Handle.{handle, handle_decoded, dispatch}
use switchvisor.Loader.Invariant.{IsValid}
use switchvisor.Loader.Preserve.{handle-IsValid}
use switchvisor.Loader.Confine.{handle_confined}
use switchvisor.Loader.Replies.{Refused, NoBoot, handle-Refused}
use switchvisor.Loader.Upload.{concat, store, data_message}
use switchvisor.Loader.Accept.{upload, fill, reply_status, upload_accepted, upload_refused}

-- Guest RAM as the list of the ranges that were written, latest first.
abbrev Ranges : Type 0
Ranges = List (ℕ × ℕ)

abbrev ram : Storage Ranges
ram = record {
  write = λ s address bytes. ((address, length bytes) ∷ s, true);
  zero_fill = λ s address size. ((address, size) ∷ s, true);
}

-- Storage that refuses every other range, as the guest's memory does.
abbrev guarded : Storage Ranges
guarded = record {
  write = λ s address bytes.
      if guest_range address (length bytes)
      then ((address, length bytes) ∷ s, true)
      else (s, false);
  zero_fill = λ s address size.
      if guest_range address size then ((address, size) ∷ s, true) else (s, false);
}

guarded-write :
    (s : Ranges) (address : ℕ) (bytes : List ℕ)
    → InGuest address (length bytes)
    → (guarded.write s address bytes).1 ≡ true
guarded-write s address bytes g =
    let allowed = InGuest-guest_range address (length bytes) g in rw allowed refl

guarded-zero_fill :
    (s : Ranges) (address size : ℕ)
    → InGuest address size
    → (guarded.zero_fill s address size).1 ≡ true
guarded-zero_fill s address size g =
    let allowed = InGuest-guest_range address size g in rw allowed refl

abbrev AllInGuest : Ranges → Type 0
AllInGuest [] = Unit
AllInGuest ((address, size) ∷ s) = InGuest address size × AllInGuest s

abbrev pieces : List (List ℕ)
pieces = (1 ∷ 2 ∷ 3 ∷ []) ∷ (4 ∷ 5 ∷ 6 ∷ []) ∷ []

abbrev good_image : ImageDescriptor
good_image = record {
  address = 0x8000_0000;
  file_size = 6;
  runtime_size = 16;
  crc32 = 0x81f67724;
  flags = 0;
}

abbrev bad_image : ImageDescriptor
bad_image = record good_image { crc32 = 1 }

abbrev no_registers : Registers
no_registers = record { x0 = 0; x1 = 0; x2 = 0; x3 = 0; x4 = 0; x5 = 0; x6 = 0; x7 = 0 }

abbrev one_bundle : BundleDescriptor
one_bundle = record { entry = 0x8000_0000; image_count = 1; flags = 1; registers = no_registers }

abbrev receiving_image : ImageDescriptor → Loader
receiving_image image = record {
  state = State.receiving;
  bundle = some one_bundle;
  images = replicate 16 none;
  completed = 0;
  current = some image;
  received = 0;
  crc32 = Crc.new;
  claimed = true;
}

abbrev ready : Loader
ready = record {
  state = State.ready;
  bundle = some one_bundle;
  images = some good_image ∷ replicate 15 none;
  completed = 1;
  current = none;
  received = 0;
  crc32 = Crc.new;
  claimed = true;
}

crc_of_pieces : Crc.crc32 (concat pieces) ≡ 0x81f6_7724
unfolding Crc.crc32 Crc.update Crc.finish
crc_of_pieces = refl

crc_is_not_one : Crc.crc32 (concat pieces) ≢ 1
unfolding Crc.crc32 Crc.update Crc.finish
crc_is_not_one = omega arith

good_image-valid : validate_image good_image ≡ true
unfolding validate_image guest_range Memory.new
good_image-valid = refl

one_bundle-valid : validate_bundle one_bundle ≡ true
unfolding validate_bundle guest_range Memory.new
one_bundle-valid = refl

receiving-IsValid : IsValid (receiving_image good_image)
unfolding validate_bundle validate_image guest_range Memory.new
receiving-IsValid = record {
  slots = refl;
  filled = refl;
  images_valid = tt;
  disjoint = tt;
  phase = ((refl, omega arith), (refl, omega arith, refl));
}

bad_receiving-IsValid : IsValid (receiving_image bad_image)
unfolding validate_bundle validate_image guest_range Memory.new
bad_receiving-IsValid = record {
  slots = refl;
  filled = refl;
  images_valid = tt;
  disjoint = tt;
  phase = ((refl, omega arith), (refl, omega arith, refl));
}

upload_accepted_example :
    let out = upload guarded (receiving_image good_image) [] 7 pieces in
    (out.0.state ≡ State.bundle)
    × (stored out.0 ≡ good_image ∷ [])
    × (out.1 ≡ fill guarded (store guarded [] 0x8000_0000 pieces) good_image)
upload_accepted_example =
    upload_accepted guarded good_image (omega arith) guarded-write guarded-zero_fill
      (receiving_image good_image) [] 7 pieces (omega arith) refl refl refl refl (omega arith) refl
      receiving-IsValid crc_of_pieces

upload_refused_example :
    let out = upload guarded (receiving_image bad_image) [] 7 pieces in
    (stored out.0 ≡ [])
    × (out.0.state ≡ State.receiving)
    × (out.1 ≡ store guarded [] 0x8000_0000 pieces)
    × (reply_status out ≡ some 6)
upload_refused_example =
    upload_refused guarded bad_image (omega arith) guarded-write guarded-zero_fill
      (receiving_image bad_image) [] 7 pieces (omega arith) refl refl refl refl (omega arith) refl
      bad_receiving-IsValid crc_is_not_one

-- The first piece is taken, and goes to the image's address.
data_written :
    let out = handle ram (receiving_image good_image) [] (data_message 7 0 (1 ∷ 2 ∷ 3 ∷ [])) in
    (out.0.received ≡ 3) × (out.1 ≡ (0x8000_0000, 3) ∷ [])
unfolding handle Header.decode Header.encode handle_decoded opcode_decode dispatch on_data
data_written = (refl, refl)

handle-IsValid_example :
    IsValid (handle ram (receiving_image good_image) [] (data_message 7 0 (1 ∷ 2 ∷ 3 ∷ []))).0
handle-IsValid_example =
    handle-IsValid ram (receiving_image good_image) [] (data_message 7 0 (1 ∷ 2 ∷ 3 ∷ []))
      receiving-IsValid

handle_confined_example :
    AllInGuest (handle ram (receiving_image good_image) [] (data_message 7 0 (1 ∷ 2 ∷ 3 ∷ []))).1
handle_confined_example =
    handle_confined ram AllInGuest (λ s address bytes g safe. (g, safe))
      (λ s address size g safe. (g, safe)) (receiving_image good_image) []
      (data_message 7 0 (1 ∷ 2 ∷ 3 ∷ [])) receiving-IsValid tt

-- A data message with a wrong offset.
abbrev misplaced : List ℕ
misplaced = data_message 7 5 (1 ∷ 2 ∷ 3 ∷ [])

misplaced-Refused : Refused (handle ram (receiving_image good_image) [] misplaced)
unfolding handle Header.decode Header.encode handle_decoded opcode_decode dispatch on_data
    Response.new
misplaced-Refused = omega arith

handle-Refused_example :
    let out = handle ram (receiving_image good_image) [] misplaced in
    (out.0 ≡ receiving_image good_image) × NoBoot out
handle-Refused_example =
    handle-Refused ram (receiving_image good_image) [] receiving-IsValid misplaced misplaced-Refused

abbrev boot_message : List ℕ
boot_message = Header.encode (record { opcode = 8; request_id = 9; length = 0; arg0 = 0; arg1 = 0 })

abbrev boot_reply : Response
boot_reply =
    Response.new (record { opcode = 8; request_id = 9; length = 0; arg0 = 0; arg1 = 0 })
      StatusCode.ok State.disabled []

guest_range_iff_example : (guest_range 0x8000_0000 4096 ≡ true) ↔ InGuest 0x8000_0000 4096
guest_range_iff_example = guest_range_iff 0x8000_0000 4096
