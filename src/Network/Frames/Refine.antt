-- ===== src/Network/Frames/Refine.antt =====
-- The ring is a queue of at most eight frames, which `iter` lists.
use switchvisor.Base.{
  ℕ, zero, suc, ◌+◌, ◌-◌, ◌%◌, ◌≡◌, ◌≢◌, ◌&&◌, refl, sym, ap, ap₂, ◌∙◌, true, false, not, ◌==◌,
  if◌then◌else◌, List, [], ◌∷◌, ◌++◌, length, none, arith, ℕ_discrete, Given, length-take,
}
use switchvisor.Network.Frames.{
  Frames, full, empty, push, front, from, iter, pop, clear, frame_at, is_size,
}
use switchvisor.Network.Frames.Push.{IsValid, push-iter}

-- The frames after the first are those of the ring that was popped.
from_shift :
    (f : Frames) (k n : ℕ)
    → from f (k + 1) n ≡ from (record f { head = (f.head + 1) % 8; count = f.count - 1 }) k n
unfolding from
from_shift f k zero = refl
from_shift f k (suc n) =
    let slot : (f.head + (k + 1)) % 8 ≡ ((f.head + 1) % 8 + k) % 8 = omega arith in
    ap₂ ◌∷◌ (ap (frame_at f) slot) (from_shift f (k + 1) n)

iter_zero : (f : Frames) → f.count ≡ 0 → iter f ≡ []
unfolding iter from
iter_zero f e = ap (from f 0) e

shifted : Frames → Frames
shifted f = record f { head = (f.head + 1) % 8; count = f.count - 1 }

shifted-IsValid : (f : Frames) → IsValid f → f.count ≢ 0 → IsValid (shifted f)
unfolding shifted
shifted-IsValid f v some_frame = record {
  head_in = omega arith;
  count_in = let most = v.count_in in omega arith;
  slots = v.slots;
  sizes = λ k lo.
      (let slot : (f.head + (k + 1)) % 8 ≡ ((f.head + 1) % 8 + k) % 8 = omega arith in
        let next = v.sizes (k + 1) (omega arith) in
        ap (λ j. is_size (f.lengths j)) (sym slot) ∙ next);
}

shifted-iter :
    (f : Frames) → IsValid f → f.count ≢ 0 → iter f ≡ frame_at f f.head ∷ iter (shifted f)
unfolding shifted iter from
shifted-iter f v some_frame =
    let low = v.head_in in
    let count : f.count ≡ suc (f.count - 1) = omega arith in
    let first : (f.head + 0) % 8 ≡ f.head = omega arith in
    ap (from f 0) count ∙ ap₂ ◌∷◌ (ap (frame_at f) first) (from_shift f 0 (f.count - 1))

front_size : (f : Frames) → IsValid f → f.count ≢ 0 → is_size (length (frame_at f f.head)) ≡ true
front_size f v some_frame =
    let low = v.head_in in
    let first : (f.head + 0) % 8 ≡ f.head = omega arith in
    let size = v.sizes 0 (omega arith) in
    let here : is_size (f.lengths f.head) ≡ true =
      ap (λ j. is_size (f.lengths j)) (sym first) ∙ size in
    let whole = v.slots f.head in
    let taken = length-take (f.lengths f.head) (f.bytes f.head) in ground arith

pub pop-iter :
    (f : Frames)
    → IsValid f
    → IsValid (pop f)
      × (if empty f
          then (front f ≡ none) × (iter f ≡ []) × (pop f ≡ f)
          else Given
              (front f)
              (λ frame. (is_size (length frame) ≡ true) × (iter f ≡ frame ∷ iter (pop f))))
unfolding pop empty front shifted
pop-iter f v = elim (ℕ_discrete f.count 0) [
  | yes e ↦
      (let nothing : (f.count == 0) ≡ true = ground arith in
        rw nothing (v, (refl, iter_zero f e, refl)))
  | no ne ↦
      (let something : (f.count == 0) ≡ false = ground arith in
        rw something (shifted-IsValid f v ne, (front_size f v ne, shifted-iter f v ne)))
]

pub clear-iter : (f : Frames) → IsValid f → IsValid (clear f) × (iter (clear f) ≡ [])
unfolding clear iter from
clear-iter f v = (
  record {
    head_in = ground arith;
    count_in = ground arith;
    slots = v.slots;
    sizes = λ k h. absurd (ground arith);
  },
  refl,
)

-- The ring against the list of its frames: a push adds at the end if there is room and the size is
-- legal, and else changes nothing; the front is the first of the list and a pop takes it away; a
-- clear leaves none. All keep the ring well formed.
pub ring_lem :
    (f : Frames) (frame : List ℕ)
    → IsValid f
    → (if not (full f) && is_size (length frame)
        then ((push f frame).0 ≡ true)
          × IsValid (push f frame).1
          × (iter (push f frame).1 ≡ iter f ++ frame ∷ [])
        else (push f frame ≡ (false, f)))
      × IsValid (pop f)
      × (if empty f
          then (front f ≡ none) × (iter f ≡ []) × (pop f ≡ f)
          else Given
              (front f)
              (λ first. (is_size (length first) ≡ true) × (iter f ≡ first ∷ iter (pop f))))
      × IsValid (clear f)
      × (iter (clear f) ≡ [])
ring_lem f frame v =
    let (popped, first) = pop-iter f v in
    let (cleared, nothing) = clear-iter f v in
    (push-iter f frame v, popped, first, cleared, nothing)
