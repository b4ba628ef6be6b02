-- ===== src/Network/Frames/Replies.antt =====
-- A queue of at most eight frames as a list, and what a push or a committed reply does to it.
use switchvisor.Base.{
  ℕ, zero, suc, ◌+◌, ◌%◌, ◌<◌, ◌≡◌, ◌⊎◌, refl, ap, ◌∙◌, true, false, not, ◌==◌, ltb, if◌then◌else◌,
  List, [], ◌∷◌, ◌++◌, length, take, arith, Bool-cases, inl, inr, dec_lt,
}
use switchvisor.Network.Frames.{
  Frames, full, fill, commit, push, from, iter, tail, is_size, ring_size,
}
use switchvisor.Network.Frames.Push.{
  IsValid, from_cong, put-iter, put-IsValid, commit-fill, push_taken, push_refused,
}

length-from : (f : Frames) (k n : ℕ) → length (from f k n) ≡ n
unfolding from
length-from f k zero = refl
length-from f k (suc n) = ap suc (length-from f (k + 1) n)

pub length-iter : (f : Frames) → length (iter f) ≡ f.count
unfolding iter
length-iter f = length-from f 0 f.count

-- A frame at the end of a queue that has less than eight.
abbrev pub offered : List (List ℕ) → List ℕ → List (List ℕ)
offered frames frame = if ltb (length frames) ring_size then frames ++ frame ∷ [] else frames

-- A reply at the end, if there is one.
abbrev pub answered : List (List ℕ) → List ℕ → List (List ℕ)
answered frames [] = frames
answered frames (b ∷ reply) = offered frames (b ∷ reply)

fill_nothing :
    (f : Frames) (slot : ℕ)
    → IsValid f
    → IsValid (fill f slot []) × (iter (fill f slot []) ≡ iter f)
unfolding fill iter
fill_nothing f slot v =
    let unchanged : (k : ℕ) → (if k == slot then f.bytes k else f.bytes k) ≡ f.bytes k =
      λ k. elim (Bool-cases (k == slot)) [ inl e ↦ rw e refl | inr e ↦ rw e refl ] in
    (
      record {
        head_in = v.head_in;
        count_in = v.count_in;
        slots = λ k. ap length (unchanged k) ∙ v.slots k;
        sizes = v.sizes;
      },
      from_cong (fill f slot []) f 0 f.count
          (λ j lo hi. ap (take (f.lengths ((f.head + j) % 8))) (unchanged ((f.head + j) % 8))),
    )

-- Whether the ring is full, by its list.
pub full_iff : (f : Frames) → IsValid f → full f ≡ not (ltb (length (iter f)) ring_size)
unfolding full
full_iff f v = let size = length-iter f in let most = v.count_in in ground arith

fill_count :
    (f : Frames) (slot : ℕ) (piece : List ℕ) → ((fill f slot piece).count == 8) ≡ (f.count == 8)
unfolding fill
fill_count f slot piece = refl

ltb_short : (f : Frames) → IsValid f → full f ≡ false → ltb (length (iter f)) ring_size ≡ true
unfolding full
ltb_short f v room = let size = length-iter f in let most = v.count_in in ground arith

pub push-offered :
    (f : Frames) (frame : List ℕ)
    → IsValid f
    → is_size (length frame) ≡ true
    → IsValid (push f frame).1
      × (iter (push f frame).1 ≡ offered (iter f) frame)
      × ((push f frame).0 ≡ ltb (length (iter f)) ring_size)
push-offered f frame v size =
    let by_list = full_iff f v in
    let most = v.count_in in
    let long = length-iter f in
    elim (dec_lt f.count 8) [
      | no crowded ↦
          (let short : ltb (length (iter f)) ring_size ≡ false = ground arith in
            let stuck : full f ≡ true = by_list ∙ ap not short in
            rw (push_refused f frame (rw stuck refl), short) (v, refl, refl))
      | yes room ↦
          (let short : ltb (length (iter f)) ring_size ≡ true = ground arith in
            rw (push_taken f frame room size, short)
              (put-IsValid f frame v room size, put-iter f frame v room, refl))
    ]

pub commit-answered :
    (f : Frames) (reply : List ℕ)
    → IsValid f
    → full f ≡ false
    → (reply ≡ []) ⊎ (is_size (length reply) ≡ true)
    → IsValid (commit (fill f (tail f) reply) (length reply)).1
      × (iter (commit (fill f (tail f) reply) (length reply)).1 ≡ answered (iter f) reply)
unfolding commit full
commit-answered f [] v room size =
    let (valid, same) = fill_nothing f (tail f) v in
    let free : ((fill f (tail f) []).count == 8) ≡ false = fill_count f (tail f) [] ∙ room in
    rw free (valid, same)
commit-answered f (b ∷ reply) v room (inl e) = absurd (ground arith)
commit-answered f (b ∷ reply) v room (inr size) =
    let by_list = full_iff f v in
    let most = v.count_in in
    let below : f.count < 8 = ground arith in
    let short : ltb (length (iter f)) ring_size ≡ true = ltb_short f v room in
    rw (commit-fill f (b ∷ reply) below size, short)
      (put-IsValid f (b ∷ reply) v below size, put-iter f (b ∷ reply) v below)
