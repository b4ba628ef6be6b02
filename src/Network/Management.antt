-- ===== src/Network/Management.antt =====
-- `management`: the replies to ARP requests, ICMP echoes and the two UDP commands. A reply is the
-- part of `out` up to the size that the code returns, of which it writes every byte; [] is size 0.
use switchvisor.Base.{
  ℕ, ◌+◌, ◌-◌, ◌*◌, ◌/◌, ◌%◌, ◌^◌, max, Bool, true, false, ◌&&◌, ◌||◌, not, ◌==◌, ltb,
  if◌then◌else◌, List, [], ◌∷◌, ◌++◌, length, take, drop, get_or, replicate, same, Option, none,
  some,
}
use switchvisor.Network.Checksum.{fold, fold_fuel, checksum}
pub mod Lengths
pub mod Header
pub mod Arp
pub mod Replies

abbrev pub management_mac : List ℕ
management_mac = 0x02 ∷ 0x53 ∷ 0x56 ∷ 0 ∷ 0 ∷ 3 ∷ []

abbrev pub management_ip : List ℕ
management_ip = 192 ∷ 168 ∷ 77 ∷ 1 ∷ []

abbrev pub management_port : ℕ
management_port = 7777

-- "pong" and the line of the status, each with a line feed.
abbrev pub pong : List ℕ
pong = 112 ∷ 111 ∷ 110 ∷ 103 ∷ 10 ∷ []

abbrev pub status_text : List ℕ
status_text =
    115 ∷ 119 ∷ 105 ∷ 116 ∷ 99 ∷ 104 ∷ 118 ∷ 105 ∷ 115 ∷ 111 ∷ 114 ∷ 32 ∷ 117 ∷ 115 ∷ 98 ∷ 45 ∷ 110
    ∷ 101 ∷ 116 ∷ 32 ∷ 109 ∷ 97 ∷ 110 ∷ 97 ∷ 103 ∷ 101 ∷ 109 ∷ 101 ∷ 110 ∷ 116 ∷ 61 ∷ 49 ∷ 57 ∷ 50
    ∷ 46 ∷ 49 ∷ 54 ∷ 56 ∷ 46 ∷ 55 ∷ 55 ∷ 46 ∷ 49 ∷ 32 ∷ 109 ∷ 116 ∷ 117 ∷ 61 ∷ 49 ∷ 53 ∷ 48 ∷ 48
    ∷ 10 ∷ []

-- `bytes[first..end]`
abbrev pub slice : List ℕ → ℕ → ℕ → List ℕ
slice bytes first end = take (end - first) (drop first bytes)

unfoldable pub be16 : List ℕ → ℕ → ℕ
be16 bytes at = get_or bytes at 0 * 2 ^ 8 + get_or bytes (at + 1) 0

-- `to_be_bytes` of 16 bits
abbrev pub be_bytes : ℕ → List ℕ
be_bytes x = x / 2 ^ 8 % 2 ^ 8 ∷ x % 2 ^ 8 ∷ []

unfoldable pub is_arp_request : List ℕ → Bool
is_arp_request frame =
    not (ltb (length frame) 42)
    && same (slice frame 14 22) (0 ∷ 1 ∷ 8 ∷ 0 ∷ 6 ∷ 4 ∷ 0 ∷ 1 ∷ [])
    && same (slice frame 38 42) management_ip
    && same (slice frame 22 28) (slice frame 6 12)

-- To the sender, from the endpoint, of the same type.
unfoldable pub ethernet_header : List ℕ → List ℕ
ethernet_header frame = slice frame 6 12 ++ (management_mac ++ slice frame 12 14)

unfoldable pub arp_reply : List ℕ → List ℕ
arp_reply frame =
    ethernet_header frame
    ++ (slice frame 14 21
        ++ (2 ∷ management_mac ++ (management_ip ++ (slice frame 22 32 ++ replicate 18 0))))

unfoldable pub is_ip : List ℕ → Bool
is_ip frame =
    not (ltb (length frame) 42)
    && same (slice frame 0 6) management_mac
    && same (slice frame 12 14) (8 ∷ 0 ∷ [])
    && get_or frame 14 0 == 0x45
    && same (slice frame 30 34) management_ip

-- `be16(frame, 20) & 0xbfff` is 0 if only the bit 14 may be set.
unfoldable pub is_whole : List ℕ → Bool
is_whole frame =
    not (ltb (be16 frame 16) 28)
    && not (ltb (length frame) (be16 frame 16 + 14))
    && (be16 frame 20 == 0 || be16 frame 20 == 2 ^ 14)
    && not (get_or frame 22 0 == 0)
    && checksum (slice frame 14 34) == 0

-- The payload of the echo reply, before and with its checksum.
unfoldable pub echo_reply : List ℕ → List ℕ
echo_reply packet =
    let rest = 0 ∷ get_or packet 1 0 ∷ 0 ∷ 0 ∷ drop 4 packet in
    0 ∷ get_or packet 1 0 ∷ be_bytes (checksum rest) ++ drop 4 packet

-- A checksum of 0 is no checksum; the pseudo-header has the addresses, the protocol and the size.
unfoldable pub is_udp_sum : List ℕ → List ℕ → Bool
is_udp_sum frame packet =
    be16 packet 6 == 0
    || fold fold_fuel (
        2 ^ 16
        - 1
        - checksum (slice frame 26 34)
        + 17
        + length packet
        + (2 ^ 16 - 1 - checksum packet))
      == 0xffff

unfoldable pub response : List ℕ → Option (List ℕ)
response command =
    let ping = 112 ∷ 105 ∷ 110 ∷ 103 ∷ [] in
    let status = 115 ∷ 116 ∷ 97 ∷ 116 ∷ 117 ∷ 115 ∷ [] in
    if same command ping || same command (ping ++ 10 ∷ [])
    then some pong
    else if same command status || same command (status ++ 10 ∷ [])
    then some status_text
    else none

unfoldable pub udp_reply : List ℕ → List ℕ → List ℕ
udp_reply packet text =
    be_bytes management_port ++ (take 2 packet ++ (be_bytes (8 + length text) ++ (0 ∷ 0 ∷ text)))

-- The two protocols that are served.
unfoldable pub is_echo : List ℕ → List ℕ → Bool
is_echo frame packet =
    get_or frame 23 0 == 1 && same (slice packet 0 2) (8 ∷ 0 ∷ []) && checksum packet == 0

unfoldable pub is_udp : List ℕ → List ℕ → Bool
is_udp frame packet =
    get_or frame 23 0 == 17 && be16 packet 2 == management_port && be16 packet 4 == length packet

-- The part of the reply after the IP header.
unfoldable pub ip_payload : List ℕ → Option (List ℕ)
ip_payload frame =
    let packet = slice frame 34 (14 + be16 frame 16) in
    if is_echo frame packet
    then some (echo_reply packet)
    else if is_udp frame packet
    then if is_udp_sum frame packet
      then elim (response (drop 8 packet)) [
        | none ↦ none
        | some text ↦ some (udp_reply packet text)
      ]
      else none
    else none

-- The IP header of the reply, with the checksum `sum`.
unfoldable pub ip_header : List ℕ → ℕ → ℕ → List ℕ
ip_header frame size sum =
    get_or frame 14 0
    ∷ get_or frame 15 0
    ∷ (be_bytes size
        ++ (get_or frame 18 0
            ∷ get_or frame 19 0
            ∷ 0
            ∷ 0
            ∷ 64
            ∷ get_or frame 23 0
            ∷ (be_bytes sum
                ++ (management_ip
                    ++ (get_or frame 26 0
                        ∷ get_or frame 27 0
                        ∷ get_or frame 28 0
                        ∷ get_or frame 29 0
                        ∷ [])))))

unfoldable pub ip_reply : List ℕ → List ℕ → List ℕ
ip_reply frame content =
    let size = 20 + length content in
    let sum = checksum (ip_header frame size 0) in
    ethernet_header frame
    ++ (ip_header frame size sum ++ (content ++ replicate (60 - (14 + size)) 0))

unfoldable pub management : List ℕ → List ℕ
management frame =
    if same (slice frame 12 14) (8 ∷ 6 ∷ [])
    then if is_arp_request frame then arp_reply frame else []
    else if is_ip frame && is_whole frame
    then elim (ip_payload frame) [ none ↦ [] | some content ↦ ip_reply frame content ]
    else []
