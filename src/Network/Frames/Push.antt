-- ===== src/Network/Frames/Push.antt =====
-- A frame that is put in the ring, and the list of the ring after it.
use switchvisor.Base.{
  ℕ, zero, suc, ◌+◌, ◌%◌, ◌≤◌, ◌<◌, ◌≡◌, ◌≢◌, ◌&&◌, refl, ap, ap₂, ◌∙◌, true, false, ◌||◌, not,
  ◌==◌, if◌then◌else◌, List, [], ◌∷◌, ◌++◌, length, drop, arith, Bool-cases, inl, inr, dec_lt,
  length-append, length-drop, length-replicate, take_length-append,
}
use switchvisor.Vdev.Virtio.Device.{frame_size}
use switchvisor.Network.Frames.{
  Frames, new, full, spare, fill, commit, push, from, iter, frame_at, tail, is_size, ring_size,
}

pub record IsValid (f : Frames) : Type 0 where
  pub head_in : f.head < ring_size
  pub count_in : f.count ≤ ring_size
  pub slots : (k : ℕ) → length (f.bytes k) ≡ frame_size
  pub sizes : (k : ℕ) → k < f.count → is_size (f.lengths ((f.head + k) % ring_size)) ≡ true

-- Frames that agree slot by slot from `k` on give the same list.
pub from_cong :
    (f g : Frames) (k n : ℕ)
    → ((j : ℕ)
        → k ≤ j
        → j < k + n
        → frame_at f ((f.head + j) % ring_size) ≡ frame_at g ((g.head + j) % ring_size))
    → from f k n ≡ from g k n
unfolding from
from_cong f g k zero same = refl
from_cong f g k (suc n) same =
    ap₂ ◌∷◌ (same k (omega arith) (omega arith))
      (from_cong f g (k + 1) n (λ j lo hi. same j (omega arith) (omega arith)))

pub from-last :
    (f : Frames) (k n : ℕ)
    → from f k (suc n) ≡ from f k n ++ frame_at f ((f.head + (k + n)) % ring_size) ∷ []
unfolding from
from-last f k zero = ap (λ j. frame_at f ((f.head + j) % ring_size) ∷ []) (omega arith)
from-last f k (suc n) =
    let rest = from-last f (k + 1) n in
    let index : (k + 1) + n ≡ k + suc n = omega arith in
    ap (λ xs. frame_at f ((f.head + k) % ring_size) ∷ xs)
      (rest ∙ ap (λ j. from f (k + 1) n ++ frame_at f ((f.head + j) % ring_size) ∷ []) index)

-- The empty ring.
pub new-IsValid : IsValid new
unfolding new
new-IsValid = record {
  head_in = ground arith;
  count_in = ground arith;
  slots = λ k. length-replicate {A = ℕ} frame_size 0;
  sizes = λ k h. absurd (ground arith);
}

-- A new slot is none of those in use.
pub slot_fresh :
    (head k count : ℕ) → head < 8 → k < count → count < 8 → (head + k) % 8 ≢ (head + count) % 8
slot_fresh head k count h lo hi e = omega arith

-- A frame in the slot after the last one.
unfoldable pub put : Frames → List ℕ → Frames
put f frame = record {
  bytes = λ k. if k == tail f then frame ++ drop (length frame) (f.bytes k) else f.bytes k;
  lengths = λ k. if k == tail f then length frame else f.lengths k;
  head = f.head;
  count = f.count + 1;
}

pub commit-fill :
    (f : Frames) (frame : List ℕ)
    → f.count < 8
    → is_size (length frame) ≡ true
    → commit (fill f (tail f) frame) (length frame) ≡ (true, put f frame)
unfolding commit full fill put
commit-fill f frame lo size =
    let room : (f.count == 8) ≡ false = ground arith in rw (room, size) refl

pub push_taken :
    (f : Frames) (frame : List ℕ)
    → f.count < 8
    → is_size (length frame) ≡ true
    → push f frame ≡ (true, put f frame)
unfolding push spare full
push_taken f frame lo size =
    let room : (f.count == 8) ≡ false = ground arith in
    rw (room, size) (commit-fill f frame lo size)

-- The frames that were there before are not touched.
pub put_kept :
    (f : Frames) (frame : List ℕ) (k : ℕ)
    → IsValid f
    → k < f.count
    → f.count < 8
    → frame_at (put f frame) ((f.head + k) % 8) ≡ frame_at f ((f.head + k) % 8)
unfolding put
put_kept f frame k v lo hi =
    let fresh = slot_fresh f.head k f.count v.head_in lo hi in
    let other : ((f.head + k) % 8 == (f.head + f.count) % 8) ≡ false = ground arith in rw other refl

pub put_new :
    (f : Frames) (frame : List ℕ) → frame_at (put f frame) ((f.head + f.count) % 8) ≡ frame
unfolding put
put_new f frame =
    let own : ((f.head + f.count) % 8 == (f.head + f.count) % 8) ≡ true = ground arith in
    rw own (take_length-append frame (drop (length frame) (f.bytes ((f.head + f.count) % 8))))

pub put-iter :
    (f : Frames) (frame : List ℕ)
    → IsValid f
    → f.count < 8
    → iter (put f frame) ≡ iter f ++ frame ∷ []
unfolding iter put
put-iter f frame v hi =
    let one_more : f.count + 1 ≡ suc f.count = omega arith in
    ap (from (put f frame) 0) one_more
    ∙ from-last (put f frame) 0 f.count
    ∙ ap₂ (λ xs x. xs ++ x ∷ [])
        (from_cong (put f frame) f 0 f.count (λ j lo up. put_kept f frame j v (omega arith) hi))
        (ap (λ j. frame_at (put f frame) ((f.head + j) % 8)) (omega arith) ∙ put_new f frame)

pub put-IsValid :
    (f : Frames) (frame : List ℕ)
    → IsValid f
    → f.count < 8
    → is_size (length frame) ≡ true
    → IsValid (put f frame)
unfolding put
put-IsValid f frame v hi size = record {
  head_in = v.head_in;
  count_in = omega arith;
  slots = λ k. elim (Bool-cases (k == (f.head + f.count) % 8)) [
    | inr other ↦ rw other (v.slots k)
    | inl own ↦
        (let whole = v.slots k in
          let sum = length-append frame (drop (length frame) (f.bytes k)) in
          let rest = length-drop (length frame) (f.bytes k) in rw own (ground arith))
  ];
  sizes = λ k lo. elim (dec_lt k f.count) [
    | yes old ↦
        (let fresh = slot_fresh f.head k f.count v.head_in old hi in
          let other : ((f.head + k) % 8 == (f.head + f.count) % 8) ≡ false = ground arith in
          rw other (v.sizes k old))
    | no late ↦
        (let last : k ≡ f.count = omega arith in
          let own : ((f.head + k) % 8 == (f.head + f.count) % 8) ≡ true = ground arith in
          rw own size)
  ];
}

pub push_refused :
    (f : Frames) (frame : List ℕ)
    → (full f || not (is_size (length frame))) ≡ true
    → push f frame ≡ (false, f)
unfolding push
push_refused f frame h = rw h refl

-- What the ring holds, after each operation.
pub push-iter :
    (f : Frames) (frame : List ℕ)
    → IsValid f
    → if not (full f) && is_size (length frame)
      then ((push f frame).0 ≡ true)
        × IsValid (push f frame).1
        × (iter (push f frame).1 ≡ iter f ++ frame ∷ [])
      else (push f frame ≡ (false, f))
unfolding full
push-iter f frame v = elim (dec_lt f.count 8) [
  | no crowded ↦
      (let most = v.count_in in
        let stuck : (f.count == 8) ≡ true = ground arith in
        rw stuck (push_refused f frame (rw stuck refl)))
  | yes room ↦ elim (Bool-cases (is_size (length frame))) [
    | inr odd ↦
        (let free : (f.count == 8) ≡ false = ground arith in
          rw (free, odd) (push_refused f frame (rw (free, odd) refl)))
    | inl size ↦
        (let free : (f.count == 8) ≡ false = ground arith in
          rw (free, size, push_taken f frame room size)
            (refl, put-IsValid f frame v room size, put-iter f frame v room))
  ]
]
