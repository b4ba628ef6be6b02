-- ===== src/Vdev/Virtio/Confine.antt =====
-- What `next` and `finish` of a queue, and the copies to a chain, do to guest memory.
use switchvisor.Base.{
  ℕ, ◌+◌, ◌-◌, ◌*◌, ◌%◌, ◌^◌, ◌≤◌, ◌<◌, ◌≡◌, refl, inl, inr, Bool, true, false, List, [], ◌∷◌, ◌++◌,
  length, take, drop, Option, none, some, Bool-cases, Option-cases, Given, Given_map, IfSome, arith,
  dec_lt, length-append, length-take, le_bytes, length-le_bytes, min,
}
use native.Mathlib.Nat.{mod-lt}
use mathlib.Core.Path.{subst}
use switchvisor.Vdev.Virtio.Memory.{GuestMemory, IsKept, IsAllowed, IsExact, read16}
use switchvisor.Vdev.Virtio.Chain.{Chain, Segment, queue_size, scatter, gather}
use switchvisor.Vdev.Virtio.Queue.{
  Queue, Next, done, failed, panicked, out_of_fuel, walk, walk_fuel, is_valid, take_chain,
  take_available, next, publish, finish,
}
use switchvisor.Vdev.Virtio.Visits.{IsTaken, AllValid, sum_sizes, walk-Ends, Ends, unseen_fresh}

module _ {S : Type 0} (memory : GuestMemory S) (P : S → Type 0) (kept : IsKept memory P) where
  read16-kept : (s : S) (address : ℕ) → P s → P (read16 memory s address).1
  unfolding read16
  read16-kept s address p = let p' = kept.by_read s address 2 p in ground arith

  -- What `next` may return: only from a queue in valid memory is a chain taken.
  unfoldable pub IsFound : Queue → Next S → Type 0
  IsFound q (some true, s, q', chain) =
      P s × IsTaken memory chain × (is_valid memory q ≡ true) × (q' ≡ q)
  IsFound q (some false, s, q', chain) = P s
  IsFound q (none, s, q', chain) = P s

  take_chain-IsFound :
      (q : Queue) (writable : Bool) (s : S) (head : ℕ)
      → P s
      → is_valid memory q ≡ true
      → Given (take_chain memory q writable s head) (IsFound q)
  unfolding take_chain IsFound Ends is_valid AllValid sum_sizes
  take_chain-IsFound q writable s head p valid =
      let chain : Chain = record { head = head; segments = []; total = 0 } in
      let fresh = unseen_fresh q.num in
      let small : q.num ≤ queue_size = ground arith in
      let taken : IsTaken memory chain = record {
        all_valid = tt;
        few = ground arith;
        counted = refl;
        fits = ground arith;
      } in
      let ends =
        walk-Ends memory P kept walk_fuel q writable s head (λ k. false) chain p taken (omega arith)
          small (omega arith) in
      elim (walk memory walk_fuel q writable s head (λ k. false) chain)
          as (λ w.
            Ends memory P kept w
            → Given
                (elim w as (λ x. Option (Next S)) [
                  | done s' c ↦ some (some true, s', q, c)
                  | failed s' c ↦ some (none, s', q, c)
                  | panicked ↦ none
                  | out_of_fuel ↦ none
                ])
                (IsFound q)) [
                  | done s' c ↦ λ (p', t). (p', t, valid, refl)
                  | failed s' c ↦ λ p'. p'
                  | panicked ↦ λ e. e
                  | out_of_fuel ↦ λ e. e
                ]
        ends

  take_available-IsFound :
      (q : Queue) (writable : Bool) (s : S) (chain : Chain) (available : ℕ)
      → P s
      → is_valid memory q ≡ true
      → Given (take_available memory q writable s chain available) (IsFound q)
  unfolding take_available IsFound
  take_available-IsFound q writable s chain available p valid =
      let address = q.avail + 4 + q.next_avail % q.num * 2 in
      let p' = read16-kept s address p in
      elim (Option-cases (read16 memory s address).0) [
        | inl e ↦ ground arith
        | inr (head, e) ↦
            (let last = take_chain-IsFound q writable (read16 memory s address).1 head p' valid in
              ground arith)
      ]

  -- The call returns, and if it took a chain the chain is one that `valid` accepts.
  pub next-IsFound :
      (q : Queue) (writable : Bool) (s : S) (chain : Chain)
      → P s
      → Given (next memory q writable s chain) (IsFound q)
  unfolding next IsFound
  next-IsFound q writable s chain p =
      let p' = read16-kept s (q.avail + 2) p in
      let p'' = kept.by_barrier (read16 memory s (q.avail + 2)).1 p' in
      elim (Bool-cases (is_valid memory q)) [
        | inr bad ↦ ground arith
        | inl valid ↦ elim (Option-cases (read16 memory s (q.avail + 2)).0) [
          | inl e ↦ ground arith
          | inr (available, e) ↦
              (let last =
                  take_available-IsFound q writable
                    (memory.barrier (read16 memory s (q.avail + 2)).1) chain available p'' valid in
                ground arith)
        ]
      ]

  -- Both writes of `finish` are in the used ring.
  pub publish-kept : (q : Queue) (s : S) → P s → is_valid memory q ≡ true → P (publish memory q s).1
  unfolding publish is_valid
  publish-kept q s p valid =
      let used : memory.valid q.used (6 + q.num * 8) ≡ true = ground arith in
      let bytes = le_bytes 2 ((q.next_used + 1) % 2 ^ 16) in
      let size = length-le_bytes 2 ((q.next_used + 1) % 2 ^ 16) in
      let allowed : IsAllowed memory (q.used + 2) (length bytes) = record {
        range_start = q.used;
        range_size = 6 + q.num * 8;
        accepted = used;
        above = omega arith;
        below = omega arith;
      } in
      let ready = kept.by_barrier s p in
      let written = kept.by_write (memory.barrier s) (q.used + 2) bytes allowed ready in
      let after = kept.by_barrier _ written in
      let last = read16-kept _ q.avail after in ground arith

  pub finish-kept :
      (q : Queue) (s : S) (head size : ℕ)
      → P s
      → is_valid memory q ≡ true
      → P (finish memory q s head size).1
  unfolding finish is_valid
  finish-kept q s head size p valid =
      let used : memory.valid q.used (6 + q.num * 8) ≡ true = ground arith in
      let some_slots : 0 < q.num = ground arith in
      let slot : q.next_used % q.num < q.num = mod-lt q.next_used some_slots in
      let address = q.used + 4 + q.next_used % q.num * 8 in
      let entry = le_bytes 4 head ++ le_bytes 4 (size % 2 ^ 32) in
      let first = length-le_bytes 4 head in
      let second = length-le_bytes 4 (size % 2 ^ 32) in
      let both = length-append (le_bytes 4 head) (le_bytes 4 (size % 2 ^ 32)) in
      let allowed : IsAllowed memory address (length entry) = record {
        range_start = q.used;
        range_size = 6 + q.num * 8;
        accepted = used;
        above = omega arith;
        below = omega arith;
      } in
      let p' = kept.by_write s address entry allowed p in
      let last = publish-kept q (memory.write s address entry).1 p' valid in ground arith

  -- Copies from and to the segments of a chain.
  pub gather-kept :
      (segments : List Segment) (s : S) (offset want : ℕ) (got : List ℕ)
      → P s
      → P (gather memory segments s offset want got).1
  unfolding gather
  gather-kept [] s offset want got p = p
  gather-kept (segment ∷ rest) s offset want got p =
      let count = min (segment.size - offset) want in
      let skipped = gather-kept rest s (offset - segment.size) want got p in
      let p' = kept.by_read s (segment.address + offset) count p in
      let s' = (memory.read s (segment.address + offset) count).1 in
      elim (Option-cases (memory.read s (segment.address + offset) count).0) [
        | inl e ↦ ground arith
        | inr (b, e) ↦
            (let more = gather-kept rest s' 0 (want - count) (got ++ b) p' in ground arith)
      ]

  pub scatter-kept :
      (segments : List Segment) (s : S) (offset : ℕ) (bytes : List ℕ)
      → P s
      → AllValid memory segments
      → P (scatter memory segments s offset bytes).1
  unfolding scatter AllValid
  scatter-kept [] s offset bytes p valid = p
  scatter-kept (segment ∷ rest) s offset bytes p (here, valid) = elim (dec_lt offset segment.size) [
    | no past ↦
        (let skipped = scatter-kept rest s (offset - segment.size) bytes p valid in ground arith)
    | yes inside ↦
        (let count = min (segment.size - offset) (length bytes) in
          let size = length-take count bytes in
          let address = segment.address + offset in
          let allowed : IsAllowed memory address (length (take count bytes)) = record {
            range_start = segment.address;
            range_size = segment.size;
            accepted = here;
            above = omega arith;
            below = omega arith;
          } in
          let p' = kept.by_write s address (take count bytes) allowed p in
          let more =
            scatter-kept rest (memory.write s address (take count bytes)).1 0 (drop count bytes) p'
              valid in
          ground arith)
  ]

-- What is gathered has the size that was asked for.
pub gather-size :
    {S : Type 0} (memory : GuestMemory S) (segments : List Segment) (s : S) (offset want : ℕ)
    (got : List ℕ)
    → IsExact memory
    → IfSome
        (gather memory segments s offset want got).0
        (λ bytes. length bytes ≡ length got + want)
unfolding gather
gather-size memory [] s offset want got exact = ground arith
gather-size memory (segment ∷ rest) s offset want got exact =
    let count = min (segment.size - offset) want in
    let o = memory.read s (segment.address + offset) count in
    let skipped = gather-size memory rest s (offset - segment.size) want got exact in
    elim (Option-cases o.0) [
      | inl e ↦ ground arith
      | inr (b, e) ↦
          (let size = exact s (segment.address + offset) count b e in
            let both = length-append got b in
            let more = gather-size memory rest o.1 0 (want - count) (got ++ b) exact in
            let sum : length (got ++ b) + (want - count) ≡ length got + want = omega arith in
            let whole =
              subst
                (λ n.
                  IfSome (gather memory rest o.1 0 (want - count) (got ++ b)).0
                    (λ bytes. length bytes ≡ n))
                sum more in
            ground arith)
    ]

-- A chain that was taken off the ring is made of ranges that `valid` accepts, and is counted right.
unfoldable pub IsSoundNext : {S : Type 0} → GuestMemory S → Queue → Next S → Type 0
IsSoundNext memory q (some true, s, q', chain) = IsTaken memory chain × (q' ≡ q)
IsSoundNext memory q (some false, s, q', chain) = Unit
IsSoundNext memory q (none, s, q', chain) = Unit

sound_next :
    {S : Type 0} (memory : GuestMemory S) (P : S → Type 0) (kept : IsKept memory P) (q : Queue)
    (o : Next S)
    → IsFound memory P kept q o
    → IsSoundNext memory q o
unfolding IsFound IsSoundNext
sound_next memory P kept q (some true, s, q', chain) (p, taken, valid, same) = (taken, same)
sound_next memory P kept q (some false, s, q', chain) p = tt
sound_next memory P kept q (none, s, q', chain) p = tt

-- Whatever the guest wrote in its rings, `next` comes to an end and does not leave the array of
-- segments: a chain that loops is refused. A chain that it takes has at most 128 segments, all in
-- memory that `valid` accepts, and its total is the sum of their sizes, without an overflow.
pub next_returns :
    {S : Type 0} (memory : GuestMemory S) (q : Queue) (writable : Bool) (s : S) (chain : Chain)
    → Given (next memory q writable s chain) (IsSoundNext memory q)
next_returns {S} memory q writable s chain =
    let kept : IsKept memory (λ (_ : S). Unit) = record {
      by_read = λ _ _ _ _. tt;
      by_write = λ _ _ _ _ _. tt;
      by_barrier = λ _ _. tt;
    } in
    Given_map (next memory q writable s chain)
      (next-IsFound memory (λ _. Unit) kept q writable s chain tt)
      (sound_next memory (λ _. Unit) kept q)
