-- ===== src/Loader/Invariant.antt =====
-- What holds of the loader between two messages.
use switchvisor.Base.{
  Given, ℕ, zero, suc, ◌+◌, ◌≤◌, ◌<◌, ◌≡◌, refl, ap, Bool, true, false, ◌||◌, List, [], ◌∷◌, ◌++◌,
  Option, none, some, length, set, take, any, arith,
}
use native.Mathlib.Numerals.{add-one}
use switchvisor.Loader.Types.{State, idle, bundle, receiving, ready, disabled, max_images}
use switchvisor.Loader.Ranges.{InGuest, guest_range-InGuest}
use switchvisor.Loader.Descriptor.{
  ImageDescriptor, validate_bundle, validate_image, image_overlaps, contains_entry,
}
use switchvisor.Loader.Machine.{Loader, new, clear, present, stored}

abbrev pub AllValid : List ImageDescriptor → Type 0
AllValid [] = Unit
AllValid (image ∷ images) = (validate_image image ≡ true) × AllValid images

abbrev pub Disjoint : List ImageDescriptor → Type 0
Disjoint [] = Unit
Disjoint (image ∷ images) = (any (image_overlaps image) images ≡ false) × Disjoint images

-- What each state says of the other fields.
abbrev pub Phase : State → Loader → Type 0
Phase idle l = (l.bundle ≡ none) × (l.completed ≡ 0) × (l.current ≡ none)
Phase bundle l =
    Given l.bundle (λ b. (validate_bundle b ≡ true) × (l.completed ≤ b.image_count))
    × (l.current ≡ none)
Phase receiving l =
    Given l.bundle (λ b. (validate_bundle b ≡ true) × (l.completed < b.image_count))
    × Given l.current (λ image.
      (validate_image image ≡ true)
      × (l.received ≤ image.file_size)
      × (any (image_overlaps image) (stored l) ≡ false))
Phase ready l =
    Given l.bundle (λ b.
      (validate_bundle b ≡ true)
      × (l.completed ≡ b.image_count)
      × (any (λ image. contains_entry image b.entry) (stored l) ≡ true))
    × (l.current ≡ none)
Phase disabled l = (l.bundle ≡ none) × (l.completed ≡ 0) × (l.current ≡ none)

pub record IsValid (l : Loader) : Type 0 where
  pub slots : length l.images ≡ max_images
  pub filled : length (stored l) ≡ l.completed
  pub images_valid : AllValid (stored l)
  pub disjoint : Disjoint (stored l)
  pub phase : Phase l.state l

-- While an image is received there is a slot left for it.
pub receiving_room : {l : Loader} → IsValid l → l.state ≡ receiving → l.completed < length l.images
unfolding validate_bundle
receiving_room v e = ground (arith, v.phase, v.slots)

-- The image being received is valid, and meets none of those stored.
pub receiving_current :
    {l : Loader} (image : ImageDescriptor)
    → IsValid l
    → l.state ≡ receiving
    → l.current ≡ some image
    → (validate_image image ≡ true)
      × (l.received ≤ image.file_size)
      × (any (image_overlaps image) (stored l) ≡ false)
receiving_current image v e c = ground (arith, v.phase)

pub image-InGuest :
    (image : ImageDescriptor)
    → validate_image image ≡ true
    → InGuest image.address image.runtime_size
image-InGuest image h =
    guest_range-InGuest image.address image.runtime_size (unfold validate_image in ground arith)

pub validate_image_sizes :
    (image : ImageDescriptor)
    → validate_image image ≡ true
    → (0 < image.file_size) × (image.file_size ≤ image.runtime_size)
unfolding validate_image
validate_image_sizes image h = ground arith

pub clear-idle-IsValid : (l : Loader) → IsValid (clear l idle)
unfolding clear
clear-idle-IsValid l = record {
  slots = refl;
  filled = refl;
  images_valid = tt;
  disjoint = tt;
  phase = (refl, refl, refl);
}

pub clear-disabled-IsValid : (l : Loader) → IsValid (clear l disabled)
unfolding clear
clear-disabled-IsValid l = record {
  slots = refl;
  filled = refl;
  images_valid = tt;
  disjoint = tt;
  phase = (refl, refl, refl);
}

pub new-IsValid : IsValid new
unfolding new
new-IsValid = record {
  slots = refl;
  filled = refl;
  images_valid = tt;
  disjoint = tt;
  phase = (refl, refl, refl);
}

present-set-suc {ℓ} :
    {A : Type ℓ} (slots : List (Option A)) (n : ℕ) (a : A)
    → n < length slots
    → present (take (suc n) (set slots n (some a))) ≡ present (take n slots) ++ (a ∷ [])
present-set-suc [] n a h = absurd (omega arith)
present-set-suc (x ∷ slots) zero a h = refl
present-set-suc (none ∷ slots) (suc n) a h = present-set-suc slots n a (omega arith)
present-set-suc (some x ∷ slots) (suc n) a h = ap (◌∷◌ x) (present-set-suc slots n a (omega arith))

-- Filling the next slot puts one image behind those that are stored.
pub present-set {ℓ} :
    {A : Type ℓ} (slots : List (Option A)) (n : ℕ) (a : A)
    → n < length slots
    → present (take (n + 1) (set slots n (some a))) ≡ present (take n slots) ++ (a ∷ [])
present-set slots n a h = rw add-one (present-set-suc slots n a h)

pub AllValid-append :
    (images : List ImageDescriptor) (image : ImageDescriptor)
    → AllValid images
    → validate_image image ≡ true
    → AllValid (images ++ (image ∷ []))
AllValid-append [] image v h = (h, tt)
AllValid-append (x ∷ images) image v h = (v.0, AllValid-append images image v.1 h)

any-append {ℓ} :
    {A : Type ℓ} (p : A → Bool) (xs : List A) (a : A) → any p (xs ++ (a ∷ [])) ≡ (any p xs || p a)
any-append p [] a = ground arith
any-append p (x ∷ xs) a = ground (arith, any-append p xs a)

pub Disjoint-append :
    (images : List ImageDescriptor) (image : ImageDescriptor)
    → Disjoint images
    → any (image_overlaps image) images ≡ false
    → Disjoint (images ++ (image ∷ []))
Disjoint-append [] image d h = (refl, tt)
Disjoint-append (x ∷ images) image d h = (
  ground (arith, any-append (image_overlaps x) images image),
  Disjoint-append images image d.1 (ground arith),
)
