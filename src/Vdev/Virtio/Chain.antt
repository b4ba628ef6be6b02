-- ===== src/Vdev/Virtio/Chain.antt =====
-- `Segment` and `Chain`: the buffers of one packet, and the copies to and from them.
use switchvisor.Base.{
  ℕ, ◌+◌, ◌-◌, min, Bool, true, false, ◌==◌, leb, if◌then◌else◌, List, [], ◌∷◌, ◌++◌, length, take,
  drop, Option, none, some,
}
use switchvisor.Vdev.Virtio.Memory.{GuestMemory}

abbrev pub queue_size : ℕ
queue_size = 128

pub record Segment : Type 0 where
  pub address : ℕ
  pub size : ℕ

-- `segments` are the first `count` of the array.
pub record Chain : Type 0 where
  pub head : ℕ
  pub segments : List Segment
  pub total : ℕ

unfoldable pub new : Chain
new = record { head = 0; segments = []; total = 0 }

module _ {S : Type 0} (memory : GuestMemory S) where
  -- The loop of `Chain::read`: `want` bytes are left to read, `got` have been.
  unfoldable pub gather : List Segment → S → ℕ → ℕ → List ℕ → Option (List ℕ) × S
  gather [] s offset want got = (if want == 0 then some got else none, s)
  gather (segment ∷ rest) s offset want got =
      let skipped = gather rest s (offset - segment.size) want got in
      let count = min (segment.size - offset) want in
      let (bytes, s') = memory.read s (segment.address + offset) count in
      let copied : Option (List ℕ) × S = elim bytes [
        | none ↦ (none, s')
        | some b ↦
            if want - count == 0
            then (some (got ++ b), s')
            else gather rest s' 0 (want - count) (got ++ b)
      ] in
      if leb segment.size offset then skipped else copied

  unfoldable pub read : Chain → S → ℕ → ℕ → Option (List ℕ) × S
  read chain s offset want = gather chain.segments s offset want []

  -- The loop of `Chain::write`: `bytes` are left to write.
  unfoldable pub scatter : List Segment → S → ℕ → List ℕ → Bool × S
  scatter [] s offset bytes = (length bytes == 0, s)
  scatter (segment ∷ rest) s offset bytes =
      let skipped = scatter rest s (offset - segment.size) bytes in
      let count = min (segment.size - offset) (length bytes) in
      let (written, s') = memory.write s (segment.address + offset) (take count bytes) in
      let left = drop count bytes in
      let copied : Bool × S =
        if written
        then (if length left == 0 then (true, s') else scatter rest s' 0 left)
        else (false, s') in
      if leb segment.size offset then skipped else copied

  unfoldable pub write : Chain → S → ℕ → List ℕ → Bool × S
  write chain s offset bytes = scatter chain.segments s offset bytes
