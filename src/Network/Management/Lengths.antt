-- ===== src/Network/Management/Lengths.antt =====
-- The sizes of the parts of a reply.
use switchvisor.Base.{
  ℕ, ◌+◌, ◌-◌, ◌≤◌, ◌≡◌, refl, List, length, drop, arith, IfSome, length-append, length-take,
  length-drop,
}
use switchvisor.Network.Management.{
  slice, ethernet_header, arp_reply, echo_reply, udp_reply, response,
}

pub length-slice :
    (bytes : List ℕ) (first end : ℕ)
    → end ≤ length bytes
    → length (slice bytes first end) ≡ end - first
length-slice bytes first end h =
    let a = length-take (end - first) (drop first bytes) in
    let b = length-drop first bytes in omega arith

pub length-ethernet_header :
    (frame : List ℕ) → 14 ≤ length frame → length (ethernet_header frame) ≡ 14
unfolding ethernet_header
length-ethernet_header frame h =
    let a = length-slice frame 6 12 (omega arith) in
    let b = length-slice frame 12 14 (omega arith) in simp length-append (rw (a, b) refl)

pub length-arp_reply : (frame : List ℕ) → 42 ≤ length frame → length (arp_reply frame) ≡ 60
unfolding arp_reply
length-arp_reply frame h =
    let a = length-ethernet_header frame (omega arith) in
    let b = length-slice frame 14 21 (omega arith) in
    let c = length-slice frame 22 32 (omega arith) in simp length-append (rw (a, b, c) refl)

-- The size of what a reply carries.
pub response-size : (command : List ℕ) → IfSome (response command) (λ text. length text ≤ 53)
unfolding response
response-size command = ground arith

pub length-echo_reply :
    (packet : List ℕ) → 8 ≤ length packet → length (echo_reply packet) ≡ length packet
unfolding echo_reply
length-echo_reply packet h = let rest = length-drop 4 packet in simp length-append (omega arith)

pub length-udp_reply :
    (packet text : List ℕ) → 8 ≤ length packet → length (udp_reply packet text) ≡ 8 + length text
unfolding udp_reply
length-udp_reply packet text h =
    let ports = length-take 2 packet in simp length-append (omega arith)
