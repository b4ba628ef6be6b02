-- ===== src/Network/Frames.antt =====
-- `Frames`: a ring of eight slots of 1514 bytes, each with the size of its frame.
use switchvisor.Base.{
  ℕ, zero, suc, ◌+◌, ◌-◌, ◌%◌, Bool, true, false, ◌||◌, not, ◌==◌, ltb, if◌then◌else◌, List, [],
  ◌∷◌, ◌++◌, length, take, drop, replicate, Option, none, some,
}
use switchvisor.Vdev.Virtio.Device.{frame_size}
pub mod Push
pub mod Refine
pub mod Replies

abbrev pub ring_size : ℕ
ring_size = 8

pub record Frames : Type 0 where
  pub bytes : ℕ → List ℕ
  pub lengths : ℕ → ℕ
  pub head : ℕ
  pub count : ℕ

unfoldable pub new : Frames
new = record { bytes = λ slot. replicate frame_size 0; lengths = λ slot. 0; head = 0; count = 0 }

unfoldable pub full : Frames → Bool
full f = f.count == ring_size

unfoldable pub empty : Frames → Bool
empty f = f.count == 0

-- The slot after the last frame.
abbrev pub tail : Frames → ℕ
tail f = (f.head + f.count) % ring_size

unfoldable pub spare : Frames → Option ℕ
spare f = if full f then none else some (tail f)

-- The first bytes of a slot are overwritten.
unfoldable pub fill : Frames → ℕ → List ℕ → Frames
fill f slot piece = record f {
  bytes = λ k. if k == slot then piece ++ drop (length piece) (f.bytes k) else f.bytes k;
}

-- `(14..=FRAME_SIZE).contains`
abbrev pub is_size : ℕ → Bool
is_size size = not (ltb size 14 || ltb frame_size size)

unfoldable pub commit : Frames → ℕ → Bool × Frames
commit f size = if full f || not (is_size size) then (false, f) else (
  true,
  record f { lengths = λ k. if k == tail f then size else f.lengths k; count = f.count + 1 },
)

-- The spare slot is there where `push` takes it.
unfoldable pub push : Frames → List ℕ → Bool × Frames
push f frame = if full f || not (is_size (length frame)) then (false, f) else elim (spare f) [
  | none ↦ (false, f)
  | some slot ↦ commit (fill f slot frame) (length frame)
]

abbrev pub frame_at : Frames → ℕ → List ℕ
frame_at f slot = take (f.lengths slot) (f.bytes slot)

unfoldable pub front : Frames → Option (List ℕ)
front f = if f.count == 0 then none else some (frame_at f f.head)

-- `n` frames from the offset `k` on.
unfoldable pub from : Frames → ℕ → ℕ → List (List ℕ)
from f k zero = []
from f k (suc n) = frame_at f ((f.head + k) % ring_size) ∷ from f (k + 1) n

unfoldable pub iter : Frames → List (List ℕ)
iter f = from f 0 f.count

unfoldable pub pop : Frames → Frames
pop f =
    if f.count == 0 then f else record f { head = (f.head + 1) % ring_size; count = f.count - 1 }

unfoldable pub clear : Frames → Frames
clear f = record f { count = 0; head = 0 }
