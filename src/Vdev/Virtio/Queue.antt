-- ===== src/Vdev/Virtio/Queue.antt =====
-- `Queue`: a split queue in guest memory. `next` takes a chain of descriptors off the available
-- ring, `finish` puts it on the used ring. A word of `w` bits is below `2 ^ w`.
use switchvisor.Base.{
  ℕ, zero, suc, ◌+◌, ◌-◌, ◌*◌, ◌/◌, ◌%◌, ◌^◌, Bool, true, false, ◌&&◌, ◌||◌, not, ◌==◌, ltb, leb,
  if◌then◌else◌, List, [], ◌∷◌, ◌++◌, length, take, drop, Option, none, some, from_le, le_bytes,
  bit, bit_and,
}
use switchvisor.Vdev.Virtio.Memory.{GuestMemory, read16}
use switchvisor.Vdev.Virtio.Chain.{Chain, queue_size}

pub record Queue : Type 0 where
  pub num : ℕ
  pub ready : Bool
  pub poll_pending : Bool
  pub desc : ℕ
  pub avail : ℕ
  pub used : ℕ
  pub next_avail : ℕ
  pub next_used : ℕ

unfoldable pub new : Queue
new = record {
  num = 0;
  ready = false;
  poll_pending = false;
  desc = 0;
  avail = 0;
  used = 0;
  next_avail = 0;
  next_used = 0;
}

-- What the guest wrote in a descriptor of 16 bytes.
pub record Descriptor : Type 0 where
  pub address : ℕ
  pub size : ℕ
  pub flags : ℕ
  pub link : ℕ

unfoldable pub parse : List ℕ → Descriptor
parse bytes = record {
  address = from_le (take 8 bytes);
  size = from_le (take 4 (drop 8 bytes));
  flags = from_le (take 2 (drop 12 bytes));
  link = from_le (take 2 (drop 14 bytes));
}

-- How the walk along a chain ends; `panicked` is a write past the array of segments.
pub data Walk (S : Type 0) : Type 0 where
  done failed : S → Chain → Walk S
  panicked out_of_fuel : Walk S

-- What a round leads to: the end of the walk, or the next slot.
pub data Round (S : Type 0) : Type 0 where
  over : Walk S → Round S
  onward : S → Chain → ℕ → Round S

-- The bits of `seen`, by slot.
abbrev pub mark : (ℕ → Bool) → ℕ → ℕ → Bool
mark seen slot k = if k == slot then true else seen k

-- `Ok` of a Boolean, or `Err` as `none`, with what was changed on the way.
abbrev pub Next : Type 0 → Type 0
Next S = Option Bool × S × Queue × Chain

-- Each round marks a slot, so the slots and one more are enough.
abbrev pub walk_fuel : ℕ
walk_fuel = queue_size + 1

-- The segment of a descriptor is added.
unfoldable pub extend : Chain → Descriptor → Chain
extend chain d = record chain {
  segments = chain.segments ++ record { address = d.address; size = d.size } ∷ [];
  total = chain.total + d.size;
}

module _ {S : Type 0} (memory : GuestMemory S) where
  unfoldable pub is_valid : Queue → Bool
  is_valid q =
      not (q.num == 0)
      && bit_and q.num (q.num - 1) == 0
      && leb q.num queue_size
      && q.desc % 16 == 0
      && q.avail % 2 == 0
      && q.used % 4 == 0
      && memory.valid q.desc (q.num * 16)
      && memory.valid q.avail (6 + q.num * 2)
      && memory.valid q.used (6 + q.num * 8)

  -- The tests of a descriptor.
  unfoldable pub is_good : Bool → Descriptor → Bool
  is_good writable d =
      d.flags / 2 ^ 2 == 0
      && (if writable then bit d.flags 1 else not (bit d.flags 1))
      && not (d.size == 0)
      && memory.valid d.address d.size

  -- A round of the loop, after a descriptor is read.
  unfoldable pub examine : Bool → Chain → S → Descriptor → Round S
  examine writable chain s d =
      if not (is_good writable d)
      then over (failed s chain)
      else if leb (2 ^ 64) (chain.total + d.size)
      then over (failed s chain)
      else if leb queue_size (length chain.segments)
      then over panicked
      else if bit d.flags 0
      then onward s (extend chain d) d.link
      else over (done s (extend chain d))

  unfoldable pub visit : Bool → Chain → Option (List ℕ) × S → Round S
  visit writable chain (none, s) = over (failed s chain)
  visit writable chain (some bytes, s) = examine writable chain s (parse bytes)

  -- The loop of `next`.
  unfoldable pub walk : ℕ → Queue → Bool → S → ℕ → (ℕ → Bool) → Chain → Walk S
  walk zero q writable s index seen chain = out_of_fuel
  walk (suc fuel) q writable s index seen chain =
      let round : Round S = visit writable chain (memory.read s (q.desc + index * 16) 16) in
      let rest : Walk S = elim round [
        | over end ↦ end
        | onward s' longer link ↦ walk fuel q writable s' link (mark seen index) longer
      ] in
      if leb q.num index then failed s chain else if seen index then failed s chain else rest

  -- The chain at the head `head`; `none` if the code does not return.
  unfoldable pub take_chain : Queue → Bool → S → ℕ → Option (Next S)
  take_chain q writable s head =
      let empty : Chain = record { head = head; segments = []; total = 0 } in
      elim (walk walk_fuel q writable s head (λ k. false) empty) [
        | done s' chain ↦ some (some true, s', q, chain)
        | failed s' chain ↦ some (none, s', q, chain)
        | panicked ↦ none
        | out_of_fuel ↦ none
      ]

  -- After the index of the available ring is read: `wrapping_sub` on 16 bits.
  unfoldable pub take_available : Queue → Bool → S → Chain → ℕ → Option (Next S)
  take_available q writable s chain available =
      let count = (available + 2 ^ 16 - q.next_avail) % 2 ^ 16 in
      if count == 0
      then some (some false, s, record q { poll_pending = false }, chain)
      else if ltb q.num count
      then some (none, s, q, chain)
      else (let (head, s') = read16 memory s (q.avail + 4 + q.next_avail % q.num * 2) in
          elim head [ none ↦ some (none, s', q, chain) | some h ↦ take_chain q writable s' h ])

  unfoldable pub next : Queue → Bool → S → Chain → Option (Next S)
  next q writable s chain =
      if not q.ready || not q.poll_pending
      then some (some false, s, q, chain)
      else if not (is_valid q)
      then some (none, s, q, chain)
      else (let (available, s') = read16 memory s (q.avail + 2) in
          elim available [
            | none ↦ some (none, s', q, chain)
            | some a ↦ take_available q writable (memory.barrier s') chain a
          ])

  -- The end of `finish`, after the used entry is written.
  unfoldable pub publish : Queue → S → Option Bool × S × Queue
  publish q s =
      let s' = memory.barrier s in
      let q' : Queue = record q { next_used = (q.next_used + 1) % 2 ^ 16 } in
      let (written, s'') = memory.write s' (q.used + 2) (le_bytes 2 q'.next_used) in
      let q'' : Queue = record q' { next_avail = (q.next_avail + 1) % 2 ^ 16 } in
      let (flags, s''') = read16 memory (memory.barrier s'') q.avail in
      if not written
      then (none, s'', q')
      else elim flags [ none ↦ (none, s''', q'') | some f ↦ (some (not (bit f 0)), s''', q'') ]

  -- `num` is not 0 where `finish` is called, so the remainder is defined.
  unfoldable pub finish : Queue → S → ℕ → ℕ → Option Bool × S × Queue
  finish q s head size =
      let entry = le_bytes 4 head ++ le_bytes 4 (size % 2 ^ 32) in
      let (written, s') = memory.write s (q.used + 4 + q.next_used % q.num * 8) entry in
      if written then publish q s' else (none, s', q)
