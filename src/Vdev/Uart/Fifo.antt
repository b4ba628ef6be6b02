-- ===== src/Vdev/Uart/Fifo.antt =====
-- The rings of uart.rs as sequences of bytes.
use switchvisor.Base.{
  ℕ, zero, suc, ◌+◌, ◌-◌, ◌%◌, ◌<◌, ◌≤◌, ◌≡◌, ◌≢◌, refl, ap, ap₂, ◌∙◌, sym, min, ◌==◌, ltb,
  if◌then◌else◌, List, [], ◌∷◌, ◌++◌, length, get_or, set, take, drop, length-set, length-replicate,
  get_or-set_self, get_or-set_ne, arith, ◌⊎◌, ◌^◌, get_elem?, ℕ_discrete, dec_lt,
}
use native.Mathlib.Nat.{mod-eq_of_lt, mod-lt, mod-mod, mod-add-mod, add-mod_right}
use switchvisor.Vdev.Uart.Queue.{
  Ring, TxQueue, new, store, push, pop, advance, clear, peek_from, tx_push, tx_peek, tx_consume,
}

-- Two places less than a turn apart are different.
mod_apart : (cap s m : ℕ) → 0 < m → m < cap → (s + m) % cap ≢ s % cap
mod_apart cap s m h k e = elim (dec_lt (s % cap + m) cap) [
  | yes small ↦ omega (arith, mod-eq_of_lt small, mod-add-mod s cap m)
  | no big ↦
      let r = mod-lt s {m = cap} (omega arith) in
      let inside : s % cap + m - cap < cap = omega arith in
      let turn : (s % cap + m) % cap ≡ s % cap + m - cap =
        ap (λ t. t % cap) (omega arith)
        ∙ add-mod_right (s % cap + m - cap) cap
        ∙ mod-eq_of_lt inside in
      omega (arith, mod-add-mod s cap m)
]

drop-min : (xs : List ℕ) (k : ℕ) → drop (min k (length xs)) xs ≡ drop k xs
drop-min xs zero = ground arith
drop-min [] (suc k) = ground arith
drop-min (x ∷ xs) (suc k) =
    drop_next {n = min (suc k) (suc (length xs))} (omega arith) ∙ drop-min xs k
  where
    drop_next : {n m : ℕ} → n ≡ suc m → drop n (x ∷ xs) ≡ drop m xs
    drop_next e = ap (λ n. drop n (x ∷ xs)) e

module _ (cap : ℕ) where
  -- The `n` bytes from the place `s` on, around the end of the array.
  unfoldable pub stored : List ℕ → ℕ → ℕ → List ℕ
  stored bytes s zero = []
  stored bytes s (suc n) = get_or bytes (s % cap) 0 ∷ stored bytes (s + 1) n

  restored : (bytes : List ℕ) (s m n : ℕ) → m ≡ n → stored bytes s m ≡ stored bytes s n
  restored bytes s m n e = ap (stored bytes s) e

  length-stored : (bytes : List ℕ) (s n : ℕ) → length (stored bytes s n) ≡ n
  unfolding stored
  length-stored bytes s zero = refl
  length-stored bytes s (suc n) = ap suc (length-stored bytes (s + 1) n)

  stored-snoc :
      (bytes : List ℕ) (s n : ℕ)
      → stored bytes s (n + 1) ≡ stored bytes s n ++ get_or bytes ((s + n) % cap) 0 ∷ []
  unfolding stored
  stored-snoc bytes s zero = ap (λ t. get_or bytes (t % cap) 0 ∷ []) (omega arith)
  stored-snoc bytes s (suc n) =
      restored bytes s (suc n + 1) (suc (n + 1)) (omega arith)
      ∙ ap (◌∷◌ (get_or bytes (s % cap) 0)) (
          stored-snoc bytes (s + 1) n
          ∙ ap (λ t. stored bytes (s + 1) n ++ get_or bytes (t % cap) 0 ∷ []) (omega arith))

  stored-set :
      (bytes : List ℕ) (v s n m i : ℕ)
      → i ≡ (s + m) % cap
      → n ≤ m
      → m < cap
      → stored (set bytes i v) s n ≡ stored bytes s n
  unfolding stored
  stored-set bytes v s zero m i e h k = refl
  stored-set bytes v s (suc n) m i e h k =
      ap₂ ◌∷◌ (get_or-set_ne bytes v 0 (λ d. mod_apart cap s m (omega arith) k (sym e ∙ d))) (
        stored-set bytes v (s + 1) n (m - 1) i (e ∙ ap (λ t. t % cap) (omega arith)) (omega arith)
          (omega arith))

  stored_turn :
      (bytes : List ℕ) (s t n : ℕ) → s % cap ≡ t % cap → stored bytes s n ≡ stored bytes t n
  unfolding stored
  stored_turn bytes s t zero e = refl
  stored_turn bytes s t (suc n) e = ap₂ ◌∷◌ (ap (λ i. get_or bytes i 0) e) (
      stored_turn bytes (s + 1) (t + 1) n
        (sym (mod-add-mod s cap 1) ∙ ap (λ i. (i + 1) % cap) e ∙ mod-add-mod t cap 1))

  drop-stored :
      (bytes : List ℕ) (s n k : ℕ) → drop k (stored bytes s n) ≡ stored bytes (s + k) (n - k)
  unfolding stored
  drop-stored bytes s n zero = ap₂ (stored bytes) (omega arith) (omega arith)
  drop-stored bytes s zero (suc k) = restored bytes (s + suc k) 0 (0 - suc k) (omega arith)
  drop-stored bytes s (suc n) (suc k) =
      drop-stored bytes (s + 1) n k ∙ ap₂ (stored bytes) (omega arith) (omega arith)

  take-stored : (bytes : List ℕ) (s n k : ℕ) → take k (stored bytes s n) ≡ stored bytes s (min k n)
  unfolding stored
  take-stored bytes s n zero = restored bytes s 0 (min 0 n) (omega arith)
  take-stored bytes s zero (suc k) = restored bytes s 0 (min (suc k) 0) (omega arith)
  take-stored bytes s (suc n) (suc k) =
      ap (◌∷◌ (get_or bytes (s % cap) 0)) (take-stored bytes (s + 1) n k)
      ∙ restored bytes s (suc (min k n)) (min (suc k) (suc n)) (omega arith)

  pub contents : Ring → List ℕ
  contents q = stored q.bytes q.head q.len

  pub record IsValid (q : Ring) : Type 0 where
    pub full : length q.bytes ≡ cap
    pub fits : q.len ≤ cap
    pub room : 0 < cap
    pub within : q.head < cap

  pub length-contents : (q : Ring) → length (contents q) ≡ q.len
  unfolding contents
  length-contents q = length-stored q.bytes q.head q.len

  pub contents-store :
      (q : Ring) (byte : ℕ)
      → IsValid q
      → q.len < cap
      → contents (store cap q byte) ≡ contents q ++ byte ∷ []
  unfolding contents store
  contents-store q byte v h =
      let place = (q.head + q.len) % cap in
      let inside : place < length q.bytes =
        omega (arith, v.full, mod-lt (q.head + q.len) {m = cap} v.room) in
      stored-snoc (set q.bytes place byte) q.head q.len
      ∙ ap₂ (λ xs b. xs ++ b ∷ [])
          (stored-set q.bytes byte q.head q.len q.len place refl (omega arith) h)
          (get_or-set_self q.bytes place byte 0 inside)

  pub store-IsValid : (q : Ring) (byte : ℕ) → IsValid q → q.len < cap → IsValid (store cap q byte)
  unfolding store
  store-IsValid q byte v h = record {
    full = length-set q.bytes ((q.head + q.len) % cap) byte ∙ v.full;
    fits = omega arith;
    room = v.room;
    within = v.within;
  }

  pub contents-advance :
      (q : Ring) (count : ℕ) → IsValid q → contents (advance cap q count) ≡ drop count (contents q)
  unfolding contents advance
  contents-advance q count v =
      let head : (if cap == 0 then q.head else (q.head + count) % cap) % cap
          ≡ (q.head + count) % cap =
        ground (arith, v.room, mod-mod (q.head + count) cap) in
      stored_turn q.bytes (if cap == 0 then q.head else (q.head + count) % cap) (q.head + count)
        (q.len - count) head
      ∙ sym (drop-stored q.bytes q.head q.len count)

  pub advance-IsValid : (q : Ring) (count : ℕ) → IsValid q → IsValid (advance cap q count)
  unfolding advance
  advance-IsValid q count v = record {
    full = v.full;
    fits = omega (arith, v.fits);
    room = v.room;
    within = ground (arith, v.room, mod-lt (q.head + count) {m = cap} v.room);
  }

  pub new-IsValid : 0 < cap → IsValid (new cap)
  unfolding new
  new-IsValid h = record { full = length-replicate cap 0; fits = omega arith; room = h; within = h }

  peek_from-stored :
      (q : Ring) (index count : ℕ)
      → peek_from cap q index count ≡ stored q.bytes (q.head + index) count
  unfolding peek_from stored
  peek_from-stored q index zero = refl
  peek_from-stored q index (suc count) =
      ap (◌∷◌ (get_or q.bytes ((q.head + index) % cap) 0))
        (peek_from-stored q (index + 1) count ∙ ap (λ t. stored q.bytes t count) (omega arith))

  -- A byte that is pushed goes to the end; a full ring refuses it and stays as it is.
  pub contents-push :
      (q : Ring) (byte : ℕ)
      → IsValid q
      → IsValid (push cap q byte).1
        × ((push cap q byte).0 ≡ ltb (length (contents q)) cap)
        × (contents (push cap q byte).1
            ≡ (if ltb (length (contents q)) cap then contents q ++ byte ∷ [] else contents q))
  unfolding push
  contents-push q byte v = rw (length-contents q) (elim (dec_lt q.len cap) [
    | yes h ↦ ground (arith, contents-store q byte v h, store-IsValid q byte v h)
    | no h ↦ ground (arith, v.fits)
  ])

  -- A pop takes the first byte; an empty ring has none and stays as it is.
  pub contents-pop :
      (q : Ring)
      → IsValid q
      → IsValid (pop cap q).1
        × ((pop cap q).0 ≡ get_elem? (contents q) 0)
        × (contents (pop cap q).1 ≡ drop 1 (contents q))
  unfolding pop contents stored
  contents-pop q v = elim (ℕ_discrete q.len 0) [
    | yes h ↦
        let none_left : contents q ≡ [] = ap (stored q.bytes q.head) h in ground (arith, none_left)
    | no h ↦
        let first : contents q
            ≡ get_or q.bytes (q.head % cap) 0 ∷ stored q.bytes (q.head + 1) (q.len - 1) =
          restored q.bytes q.head q.len (suc (q.len - 1)) (omega arith) in
        ground (arith, first, mod-eq_of_lt v.within, contents-advance q 1 v, advance-IsValid q 1 v)
  ]

  pub clear-IsValid : (q : Ring) → IsValid q → IsValid (clear q)
  unfolding clear
  clear-IsValid q v = record { full = v.full; fits = omega arith; room = v.room; within = v.room }

  pub tx_push-IsValid :
      (q : TxQueue) (byte : ℕ) → IsValid q.ring → IsValid (tx_push cap q byte).ring
  unfolding tx_push
  tx_push-IsValid q byte v = ground (arith, v.fits, store-IsValid q.ring byte v)

  pub contents-tx_push :
      (q : TxQueue) (byte : ℕ)
      → IsValid q.ring
      → contents (tx_push cap q byte).ring
        ≡ (if q.ring.len == cap then contents q.ring else contents q.ring ++ byte ∷ [])
  unfolding tx_push
  contents-tx_push q byte v = ground (arith, v.fits, contents-store q.ring byte v)

  -- What the host peeks at is the start of the queue, as much as there is room for; what it
  -- consumes is taken from there; what the guest pushes goes to the end, or is counted as dropped.
  pub tx_queue_lem :
      (q : TxQueue) (byte count room : ℕ)
      → IsValid q.ring
      → (tx_peek cap q room ≡ take room (contents q.ring))
        × IsValid (tx_consume cap q count).ring
        × (contents (tx_consume cap q count).ring ≡ drop count (contents q.ring))
        × IsValid (tx_push cap q byte).ring
        × ((contents (tx_push cap q byte).ring ≡ contents q.ring ++ byte ∷ [])
            ⊎ ((q.ring.len ≡ cap)
                × (contents (tx_push cap q byte).ring ≡ contents q.ring)
                × ((tx_push cap q byte).dropped ≡ min (q.dropped + 1) (2 ^ 64 - 1))))
  unfolding tx_peek tx_consume tx_push contents
  tx_queue_lem q byte count room v =
      let before = contents-advance q.ring (min count q.ring.len) v in
      let valid = advance-IsValid q.ring (min count q.ring.len) v in
      let peeked : tx_peek cap q room ≡ take room (contents q.ring) =
        peek_from-stored q.ring 0 (min q.ring.len room)
        ∙ ap₂ (stored q.ring.bytes) (omega arith) (omega arith)
        ∙ sym (take-stored q.ring.bytes q.ring.head q.ring.len room) in
      let consumed : drop (min count q.ring.len) (contents q.ring) ≡ drop count (contents q.ring) =
        ap (λ n. drop (min count n) (contents q.ring)) (sym (length-contents q.ring))
        ∙ drop-min (contents q.ring) count in
      ground (arith, v.fits, contents-store q.ring byte v, store-IsValid q.ring byte v)
