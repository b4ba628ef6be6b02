-- ===== src/Network/Management/Arp.antt =====
-- The answers to ARP requests, field by field.
use switchvisor.Base.{
  zero, suc, ap₂, same_sound, ℕ, ◌+◌, ◌-◌, ◌≤◌, ◌≡◌, refl, sym, ap, ◌∙◌, Bool, true, ◌&&◌, not, ltb,
  List, [], ◌∷◌, ◌++◌, length, take, drop, replicate, same, arith, take_length-append,
}
use mathlib.Core.List.{append_assoc}
use switchvisor.Network.Management.{
  slice, management_mac, management_ip, ethernet_header, arp_reply, is_arp_request,
}
use switchvisor.Network.Management.Lengths.{length-slice, length-arp_reply}

first_test : (n : ℕ) (a b c : Bool) → (not (ltb n 42) && a && b && c) ≡ true → 42 ≤ n
first_test n a b c h = ground arith

arp_size : (frame : List ℕ) → is_arp_request frame ≡ true → 42 ≤ length frame
unfolding is_arp_request
arp_size frame h =
    first_test (length frame) (same (slice frame 14 22) _) (same (slice frame 38 42) management_ip)
      (same (slice frame 22 28) (slice frame 6 12)) h

-- The parts of a list behind a prefix.
drop-append : (xs ys : List ℕ) (a : ℕ) {n : ℕ} → length xs ≡ n → drop (n + a) (xs ++ ys) ≡ drop a ys
drop-append [] ys a e = ap (λ m. drop m ys) (omega arith)
drop-append (x ∷ xs) ys a {n = zero} e = absurd (omega arith)
drop-append (x ∷ xs) ys a {n = suc n} e =
    let next : suc n + a ≡ suc (n + a) = omega arith in
    ap (λ m. drop m (x ∷ xs ++ ys)) next ∙ drop-append xs ys a (omega arith)

slice_after :
    (xs ys : List ℕ) (a b : ℕ) {n : ℕ}
    → length xs ≡ n
    → slice (xs ++ ys) (n + a) (n + b) ≡ slice ys a b
slice_after xs ys a b {n} e =
    let size : n + b - (n + a) ≡ b - a = omega arith in
    ap (λ m. take m (drop (n + a) (xs ++ ys))) size ∙ ap (take (b - a)) (drop-append xs ys a e)

-- An ARP request for the address of the endpoint, whose sender is that of the frame: the type of the
-- frame, then the kinds and sizes of the addresses with the operation 1, the sender's hardware
-- address and the address that is asked for.
pub record IsRequest (frame : List ℕ) : Type 0 where
  pub whole : 42 ≤ length frame
  pub type_arp : slice frame 12 14 ≡ 8 ∷ 6 ∷ []
  pub operation : slice frame 14 22 ≡ 0 ∷ 1 ∷ 8 ∷ 0 ∷ 6 ∷ 4 ∷ 0 ∷ 1 ∷ []
  pub sender : slice frame 22 28 ≡ slice frame 6 12
  pub target : slice frame 38 42 ≡ management_ip

-- The answer: the same kinds and sizes with the operation 2, from the endpoint to the sender's two
-- addresses.
pub record IsAnswer (frame out : List ℕ) : Type 0 where
  pub size : length out ≡ 60
  pub type_arp : slice out 12 14 ≡ 8 ∷ 6 ∷ []
  pub operation : slice out 14 22 ≡ 0 ∷ 1 ∷ 8 ∷ 0 ∷ 6 ∷ 4 ∷ 0 ∷ 2 ∷ []
  pub sender : slice out 22 32 ≡ management_mac ++ management_ip
  pub target : slice out 32 42 ≡ slice frame 22 32

request_tests : (a b c d : Bool) → (a && b && c && d) ≡ true → (b ≡ true) × (c ≡ true) × (d ≡ true)
request_tests a b c d h = ground arith

pub is_arp_request-IsRequest :
    (frame : List ℕ)
    → same (slice frame 12 14) (8 ∷ 6 ∷ []) ≡ true
    → is_arp_request frame ≡ true
    → IsRequest frame
unfolding is_arp_request
is_arp_request-IsRequest frame arp h =
    let tests = request_tests _ _ _ _ h in
    record {
      whole = arp_size frame h;
      type_arp = same_sound (slice frame 12 14) _ arp;
      operation = same_sound (slice frame 14 22) _ tests.0;
      sender = same_sound (slice frame 22 28) (slice frame 6 12) tests.2;
      target = same_sound (slice frame 38 42) management_ip tests.1;
    }

-- A shorter piece is the start of a longer one.
take-take : (n m : ℕ) (xs : List ℕ) → n ≤ m → take n (take m xs) ≡ take n xs
take-take zero m xs h = refl
take-take (suc n) zero xs h = absurd (omega arith)
take-take (suc n) (suc m) [] h = refl
take-take (suc n) (suc m) (x ∷ xs) h = ap (◌∷◌ x) (take-take n m xs (omega arith))

pub arp_reply-IsAnswer : (frame : List ℕ) → IsRequest frame → IsAnswer frame (arp_reply frame)
unfolding arp_reply ethernet_header
arp_reply-IsAnswer frame r =
    let long = r.whole in
    let to = length-slice frame 6 12 (omega arith) in
    let kinds : slice frame 14 21 ≡ 0 ∷ 1 ∷ 8 ∷ 0 ∷ 6 ∷ 4 ∷ 0 ∷ [] =
      sym (take-take 7 8 (drop 14 frame) (omega arith)) ∙ ap (take 7) r.operation in
    let last = slice frame 22 32 in
    let last_size = length-slice frame 22 32 (omega arith) in
    let body =
      λ (xs : List ℕ). xs ++ (2 ∷ management_mac ++ (management_ip ++ (last ++ replicate 18 0))) in
    let known : arp_reply frame
        ≡ slice frame 6 12 ++ (management_mac ++ (8 ∷ 6 ∷ body (0 ∷ 1 ∷ 8 ∷ 0 ∷ 6 ∷ 4 ∷ 0 ∷ []))) =
      ap₂ (λ t k. (slice frame 6 12 ++ (management_mac ++ t)) ++ body k) r.type_arp kinds
      ∙ append_assoc (slice frame 6 12) (management_mac ++ 8 ∷ 6 ∷ []) _ in
    let part = λ (a b : ℕ).
      ap (λ out. slice out (6 + a) (6 + b)) known ∙ slice_after (slice frame 6 12) _ a b to in
    record {
      size = length-arp_reply frame long;
      type_arp = part 6 8;
      operation = part 8 16;
      sender = part 16 26;
      target =
          part 26 36
          ∙ ap (λ n. take n (last ++ replicate 18 0)) (sym last_size)
          ∙ take_length-append last (replicate 18 0);
    }
