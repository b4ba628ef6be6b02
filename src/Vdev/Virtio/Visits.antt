-- ===== src/Vdev/Virtio/Visits.antt =====
-- The walk along a chain of descriptors: it ends, and it stays within what `valid` accepts.
use switchvisor.Base.{
  ℕ, zero, suc, ◌+◌, ◌*◌, ◌^◌, ◌≤◌, ◌<◌, ◌≡◌, refl, inl, inr, ap, ◌∙◌, sym, Bool, true, false, leb,
  if◌then◌else◌, List, [], ◌∷◌, ◌++◌, length, Option, none, some, Bool-cases, arith, ℕ_discrete,
  dec_lt, length-append,
}
use switchvisor.Vdev.Virtio.Memory.{GuestMemory, IsKept}
use switchvisor.Vdev.Virtio.Chain.{Chain, Segment, queue_size}
use switchvisor.Vdev.Virtio.Queue.{
  Queue, Descriptor, Walk, done, failed, panicked, out_of_fuel, mark, walk, Round, over, onward,
  examine, visit, extend, parse, is_good,
}

-- How many of the first `n` slots are not seen.
unfoldable pub unseen : ℕ → (ℕ → Bool) → ℕ
unseen zero seen = 0
unseen (suc n) seen = (if seen n then 0 else 1) + unseen n seen

pub unseen_fresh : (n : ℕ) → unseen n (λ k. false) ≡ n
unfolding unseen
unseen_fresh zero = refl
unseen_fresh (suc n) = let rest = unseen_fresh n in ground arith

unseen_above : (n slot : ℕ) (seen : ℕ → Bool) → n ≤ slot → unseen n (mark seen slot) ≡ unseen n seen
unfolding unseen
unseen_above zero slot seen h = refl
unseen_above (suc n) slot seen h = let rest = unseen_above n slot seen (omega arith) in ground arith

-- A slot that is marked for the first time is one less that is not seen.
unseen-mark :
    (n slot : ℕ) (seen : ℕ → Bool)
    → slot < n
    → seen slot ≡ false
    → unseen n seen ≡ suc (unseen n (mark seen slot))
unfolding unseen
unseen-mark zero slot seen h fresh = absurd (omega arith)
unseen-mark (suc n) slot seen h fresh = elim (ℕ_discrete slot n) [
  | yes e ↦
      let rest = unseen_above n slot seen (omega arith) in
      let here : seen n ≡ false = ap seen (sym e) ∙ fresh in ground arith
  | no ne ↦ let rest = unseen-mark n slot seen (omega arith) fresh in ground arith
]

-- Segments that `valid` accepts, and the sum of their sizes.
unfoldable pub AllValid : {S : Type 0} → GuestMemory S → List Segment → Type 0
AllValid memory [] = Unit
AllValid memory (segment ∷ rest) =
    (memory.valid segment.address segment.size ≡ true) × AllValid memory rest

unfoldable pub sum_sizes : List Segment → ℕ
sum_sizes [] = 0
sum_sizes (segment ∷ rest) = segment.size + sum_sizes rest

AllValid-append :
    {S : Type 0} (memory : GuestMemory S) (segments : List Segment) (segment : Segment)
    → AllValid memory segments
    → memory.valid segment.address segment.size ≡ true
    → AllValid memory (segments ++ segment ∷ [])
unfolding AllValid
AllValid-append memory [] segment all one = (one, tt)
AllValid-append memory (first ∷ rest) segment (here, all) one =
    (here, AllValid-append memory rest segment all one)

sum_sizes-append :
    (segments : List Segment) (segment : Segment)
    → sum_sizes (segments ++ segment ∷ []) ≡ sum_sizes segments + segment.size
unfolding sum_sizes
sum_sizes-append [] segment = omega arith
sum_sizes-append (first ∷ rest) segment = let more = sum_sizes-append rest segment in omega arith

-- A chain as the walk leaves it.
pub record IsTaken {S : Type 0} (memory : GuestMemory S) (chain : Chain) : Type 0 where
  pub all_valid : AllValid memory chain.segments
  pub few : length chain.segments ≤ queue_size
  pub counted : chain.total ≡ sum_sizes chain.segments
  pub fits : chain.total < 2 ^ 64

module _ {S : Type 0} (memory : GuestMemory S) (P : S → Type 0) (kept : IsKept memory P) where
  -- The walk comes to an end, either way, and has kept `P`.
  unfoldable pub Ends : Walk S → Type 0
  Ends (done s chain) = P s × IsTaken memory chain
  Ends (failed s chain) = P s
  Ends panicked = ⊥
  Ends out_of_fuel = ⊥

  -- A round ends so too, or makes the chain longer by one.
  unfoldable pub Goes : Chain → Round S → Type 0
  Goes chain (over end) = Ends end
  Goes chain (onward s longer link) =
      P s × IsTaken memory longer × (length longer.segments ≡ suc (length chain.segments))

  extend-IsTaken :
      (chain : Chain) (writable : Bool) (d : Descriptor)
      → IsTaken memory chain
      → is_good memory writable d ≡ true
      → chain.total + d.size < 2 ^ 64
      → length chain.segments < queue_size
      → IsTaken memory (extend chain d)
        × (length (extend chain d).segments ≡ suc (length chain.segments))
  unfolding is_good extend
  extend-IsTaken chain writable d taken good fit room =
      let segment : Segment = record { address = d.address; size = d.size } in
      let valid : memory.valid d.address d.size ≡ true = ground arith in
      let longer = length-append chain.segments (segment ∷ []) in
      let sum = sum_sizes-append chain.segments segment in
      let now = taken.counted in
      let before = taken.all_valid in
      (
        record {
          all_valid = AllValid-append memory chain.segments segment before valid;
          few = omega arith;
          counted = omega arith;
          fits = fit;
        },
        omega arith,
      )

  examine-Goes :
      (writable : Bool) (chain : Chain) (s : S) (d : Descriptor)
      → P s
      → IsTaken memory chain
      → length chain.segments < queue_size
      → Goes chain (examine memory writable chain s d)
  unfolding examine Goes Ends
  examine-Goes writable chain s d p taken room =
      let grows = extend-IsTaken chain writable d taken in ground (arith)

  visit-Goes :
      (writable : Bool) (chain : Chain) (o : Option (List ℕ) × S)
      → P o.1
      → IsTaken memory chain
      → length chain.segments < queue_size
      → Goes chain (visit memory writable chain o)
  unfolding visit Goes Ends
  visit-Goes writable chain (none, s) p taken room = p
  visit-Goes writable chain (some bytes, s) p taken room =
      examine-Goes writable chain s (parse bytes) p taken room

  pub walk-Ends :
      (fuel : ℕ) (q : Queue) (writable : Bool) (s : S) (index : ℕ) (seen : ℕ → Bool) (chain : Chain)
      → P s
      → IsTaken memory chain
      → length chain.segments + unseen q.num seen ≡ q.num
      → q.num ≤ queue_size
      → unseen q.num seen < fuel
      → Ends (walk memory fuel q writable s index seen chain)
  unfolding walk Ends Goes
  walk-Ends zero q writable s index seen chain p taken count small enough = absurd (omega arith)
  walk-Ends (suc fuel) q writable s index seen chain p taken count small enough =
      let o = memory.read s (q.desc + index * 16) 16 in
      let p' = kept.by_read s (q.desc + index * 16) 16 p in
      let round = visit memory writable chain o in
      elim (dec_lt index q.num) [
        | no out ↦ let bad : leb q.num index ≡ true = ground arith in rw bad p
        | yes inside ↦
            (let good : leb q.num index ≡ false = ground arith in
              elim (Bool-cases (seen index)) [
                | inl again ↦ rw (good, again) p
                | inr fresh ↦
                    (let less = unseen-mark q.num index seen inside fresh in
                      let goes = visit-Goes writable chain o p' taken (omega arith) in
                      rw (good, fresh)
                        (elim round
                            as (λ r.
                              Goes chain r
                              → Ends (elim r [
                                | over end ↦ end
                                | onward s' longer link ↦
                                    walk memory fuel q writable s' link (mark seen index) longer
                              ])) [
                                | over end ↦ λ e. e
                                | onward s' longer link ↦ λ (p'', more, one).
                                    walk-Ends fuel q writable s' link (mark seen index) longer p''
                                      more (omega arith) small (omega arith)
                              ]
                          goes))
              ])
      ]
