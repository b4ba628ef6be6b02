-- ===== src/Network/Management/Replies.antt =====
-- What the replies of the management endpoint are like.
use switchvisor.Base.{
  ℕ, ◌+◌, ◌-◌, ◌≤◌, ◌≡◌, refl, sym, ap, ◌∙◌, ◌⊎◌, inl, inr, max, Bool, true, false, ◌&&◌,
  if◌then◌else◌, List, [], ◌∷◌, ◌++◌, length, take, drop, replicate, same, Option, none, some,
  arith, AllBytes, Bool-cases, Option-cases, IfSome, length-append, length-replicate,
  take_length-append, drop_length-append,
}
use mathlib.Core.List.{append_assoc}
use mathlib.Core.Path.{subst}
use switchvisor.Network.Checksum.{checksum}
use switchvisor.Network.Management.{
  slice, management, management_mac, ethernet_header, arp_reply, ip_reply, ip_header, ip_payload,
  is_arp_request, is_ip, is_whole, echo_reply, udp_reply, is_echo, is_udp, is_udp_sum, response,
  be16,
}
use switchvisor.Network.Management.Lengths.{
  length-slice, length-ethernet_header, length-arp_reply, response-size, length-echo_reply,
  length-udp_reply,
}
use switchvisor.Network.Management.Header.{checksum-ip_header}
use switchvisor.Network.Management.Arp.{
  IsRequest, IsAnswer, is_arp_request-IsRequest, arp_reply-IsAnswer,
}

-- A piece between two others.
slice_between :
    (xs ys zs : List ℕ) (first end : ℕ)
    → length xs ≡ first
    → first + length ys ≡ end
    → slice (xs ++ (ys ++ zs)) first end ≡ ys
slice_between xs ys zs first end a b =
    let size : end - first ≡ length ys = omega arith in
    ap (λ n. take (end - first) (drop n (xs ++ (ys ++ zs)))) (sym a)
    ∙ ap (take (end - first)) (drop_length-append xs (ys ++ zs))
    ∙ ap (λ n. take n (ys ++ zs)) size
    ∙ take_length-append ys zs

length-ip_header : (frame : List ℕ) (size sum : ℕ) → length (ip_header frame size sum) ≡ 20
unfolding ip_header
length-ip_header frame size sum = refl

-- Who a reply goes to and who it is from.
unfoldable pub IsAddressed : List ℕ → List ℕ → Type 0
IsAddressed frame out = (slice out 0 6 ≡ slice frame 6 12) × (slice out 6 12 ≡ management_mac)

ethernet_header-IsAddressed :
    (frame rest : List ℕ) → 14 ≤ length frame → IsAddressed frame (ethernet_header frame ++ rest)
unfolding IsAddressed ethernet_header
ethernet_header-IsAddressed frame rest h =
    let to = length-slice frame 6 12 (omega arith) in
    let tail = management_mac ++ slice frame 12 14 in
    let whole = append_assoc (slice frame 6 12) tail rest in
    (
      ap (λ xs. slice xs 0 6) whole
          ∙ slice_between [] (slice frame 6 12) (tail ++ rest) 0 6 refl (omega arith),
      ap (λ xs. slice xs 6 12) whole
          ∙ slice_between (slice frame 6 12) management_mac (slice frame 12 14 ++ rest) 6 12 to
              refl,
    )

-- The checksum, the destination and the size of a reply to an IP packet.
ip_reply-checksum :
    (frame content : List ℕ)
    → 42 ≤ length frame
    → AllBytes frame
    → checksum (slice (ip_reply frame content) 14 34) ≡ 0
unfolding ip_reply
ip_reply-checksum frame content long h =
    let size = 20 + length content in
    let sum = checksum (ip_header frame size 0) in
    let first = length-ethernet_header frame (omega arith) in
    let between =
      slice_between (ethernet_header frame) (ip_header frame size sum)
        (content ++ replicate (60 - (14 + size)) 0) 14 34 first
        (ap (λ n. 14 + n) (length-ip_header frame size sum)) in
    ap checksum between ∙ checksum-ip_header frame size h

length-ip_reply :
    (frame content : List ℕ)
    → 42 ≤ length frame
    → length (ip_reply frame content) ≡ max 60 (34 + length content)
unfolding ip_reply
length-ip_reply frame content long =
    let size = 20 + length content in
    let sum = checksum (ip_header frame size 0) in
    let a = length-ethernet_header frame (omega arith) in
    let b = length-ip_header frame size sum in
    let c = length-replicate {A = ℕ} (60 - (14 + size)) 0 in
    simp length-append (rw (a, b, c) (omega arith))

-- A whole packet is in the frame, and has room for the headers.
packet-size :
    (frame : List ℕ)
    → is_whole frame ≡ true
    → (28 ≤ be16 frame 16)
      × (be16 frame 16 + 14 ≤ length frame)
      × (length (slice frame 34 (14 + be16 frame 16)) ≡ be16 frame 16 - 20)
unfolding is_whole
packet-size frame whole =
    let large : 28 ≤ be16 frame 16 = ground arith in
    let inside : be16 frame 16 + 14 ≤ length frame = ground arith in
    let size = length-slice frame 34 (14 + be16 frame 16) (omega arith) in
    (large, inside, omega arith)

abbrev Fits : List ℕ → Type 0
Fits content = 34 + length content ≤ 1514

fits_if :
    (echo udp sum : Bool) (content : List ℕ) (o : Option (List ℕ)) (Q : List ℕ → Type 0)
    → Q content
    → IfSome o Q
    → IfSome (if echo then some content else (if udp then (if sum then o else none) else none)) Q
fits_if true udp sum content o Q q r = q
fits_if false true true content o Q q r = r
fits_if false true false content o Q q r = tt
fits_if false false sum content o Q q r = tt

ip_payload-size :
    (frame : List ℕ)
    → is_whole frame ≡ true
    → length frame ≤ 1514
    → IfSome (ip_payload frame) (λ content. 34 + length content ≤ 1514)
unfolding ip_payload
ip_payload-size frame whole small =
    let packet = slice frame 34 (14 + be16 frame 16) in
    let (large, inside, size) = packet-size frame whole in
    let echo = length-echo_reply packet (omega arith) in
    let texts = response-size (drop 8 packet) in
    let echo_fits : 34 + length (echo_reply packet) ≤ 1514 = omega arith in
    elim (Option-cases (response (drop 8 packet))) [
      | inl e ↦ rw e (
          fits_if (is_echo frame packet) (is_udp frame packet) (is_udp_sum frame packet)
            (echo_reply packet) none Fits echo_fits tt)
      | inr (text, e) ↦
          (let short : length text ≤ 53 = subst (λ o. IfSome o (λ t. length t ≤ 53)) e texts in
            let udp = length-udp_reply packet text (omega arith) in
            let udp_fits : 34 + length (udp_reply packet text) ≤ 1514 = omega arith in
            rw e (
              fits_if (is_echo frame packet) (is_udp frame packet) (is_udp_sum frame packet)
                (echo_reply packet) (some (udp_reply packet text)) Fits echo_fits udp_fits))
    ]

arp_reply-IsAddressed : (frame : List ℕ) → 42 ≤ length frame → IsAddressed frame (arp_reply frame)
unfolding arp_reply
arp_reply-IsAddressed frame h = ethernet_header-IsAddressed frame _ (omega arith)

ip_reply-IsAddressed :
    (frame content : List ℕ) → 42 ≤ length frame → IsAddressed frame (ip_reply frame content)
unfolding ip_reply
ip_reply-IsAddressed frame content h = ethernet_header-IsAddressed frame _ (omega arith)

ip_size : (frame : List ℕ) → is_ip frame ≡ true → 42 ≤ length frame
unfolding is_ip
ip_size frame h = ground arith

-- The three kinds of outcome.
data Shape (frame : List ℕ) : Type 0 where
  silent : management frame ≡ [] → Shape frame
  by_arp : IsRequest frame → management frame ≡ arp_reply frame → Shape frame
  by_ip :
      (content : List ℕ)
      → 42 ≤ length frame
      → (length frame ≤ 1514 → Fits content)
      → management frame ≡ ip_reply frame content
      → Shape frame

shape : (frame : List ℕ) → Shape frame
unfolding management
shape frame = elim (Bool-cases (same (slice frame 12 14) (8 ∷ 6 ∷ []))) [
  | inl arp ↦ elim (Bool-cases (is_arp_request frame)) [
    | inr e ↦ silent (rw (arp, e) refl)
    | inl e ↦ by_arp (is_arp_request-IsRequest frame arp e) (rw (arp, e) refl)
  ]
  | inr other ↦ elim (Bool-cases (is_ip frame && is_whole frame)) [
    | inr e ↦ silent (rw (other, e) refl)
    | inl e ↦ elim (Option-cases (ip_payload frame)) [
      | inl no_content ↦ silent (rw (other, e, no_content) refl)
      | inr (content, found) ↦
          by_ip content (ip_size frame (ground arith))
            (λ small. subst (λ o. IfSome o Fits) found (ip_payload-size frame (ground arith) small))
            (rw (other, e, found) refl)
    ]
  ]
]

-- A reply has a size that a slot takes.
pub management-size :
    (frame : List ℕ)
    → length frame ≤ 1514
    → (management frame ≡ [])
      ⊎ ((60 ≤ length (management frame)) × (length (management frame) ≤ 1514))
management-size frame small = elim (shape frame) [
  | silent e ↦ inl e
  | by_arp asked e ↦
      (let size = length-arp_reply frame asked.whole in rw e (inr (omega arith, omega arith)))
  | by_ip content long fits e ↦
      (let size = length-ip_reply frame content long in
        let room = fits small in rw e (inr (omega arith, omega arith)))
]

-- A reply goes to the sender of the frame and comes from the endpoint; it is the answer of an ARP
-- request for the endpoint's address, or has an IP header whose checksum is right.
pub management_reply :
    (frame : List ℕ)
    → AllBytes frame
    → (management frame ≡ [])
      ⊎ (IsAddressed frame (management frame)
          × ((IsRequest frame × IsAnswer frame (management frame))
              ⊎ (checksum (slice (management frame) 14 34) ≡ 0)))
management_reply frame h = elim (shape frame) [
  | silent e ↦ inl e
  | by_arp asked e ↦
      rw e
        (inr (arp_reply-IsAddressed frame asked.whole, inl (asked, arp_reply-IsAnswer frame asked)))
  | by_ip content long fits e ↦
      rw e (
        inr (ip_reply-IsAddressed frame content long, inr (ip_reply-checksum frame content long h)))
]
