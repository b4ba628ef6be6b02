-- ===== src/Network/Tests.antt =====
-- A frame between the two sides, requests to the endpoint, and the theorems on them.
use switchvisor.Base.{
  ℕ, ◌+◌, ◌≡◌, ◌⊎◌, refl, ap, sym, ◌∙◌, ltb, length-replicate, true, false, ◌&&◌, not,
  if◌then◌else◌, List, [], ◌∷◌, ◌++◌, length, replicate, none, some, Given, arith,
}
use mathlib.Core.Option.{some-injective}
use switchvisor.Vdev.Virtio.Memory.{GuestMemory, IsKept, IsExact}
use switchvisor.Vdev.Virtio.Lifetime.{new-IsNegotiated}
use switchvisor.Network.Checksum.{sum_words, fold, checksum}
use switchvisor.Network.Frames
use switchvisor.Network.Frames.{Frames, push, pop, front, iter, full, empty, is_size}
use switchvisor.Network.Frames.Push.{IsValid, new-IsValid}
use switchvisor.Network.Frames.Refine.{ring_lem}
use switchvisor.Network.Frames.Replies.{offered, answered}
use switchvisor.Network.Management.{
  management, slice, is_ip, is_whole, ip_payload, is_echo, is_udp, is_udp_sum, response, udp_reply,
  ip_reply, ip_header, ethernet_header, be16,
}
use switchvisor.Network.Management.Arp.{IsRequest, IsAnswer}
use switchvisor.Network.Management.Replies.{IsAddressed, management_reply}
use switchvisor.Network.Bridge
use switchvisor.Network.Bridge.{host, guest, receive}
use switchvisor.Network.Bridge.Forward.{IsSound, queued, asks, goes_on, receive-queues}
use switchvisor.Network.Service
use switchvisor.Network.Service.{Ethernet, World, send_front, service}
use switchvisor.Network.Service.Sound.{AreTaken, IsGood, send_front-IsValid, service-IsGood}

-- An ARP request from 2:0:0:0:0:9 for the endpoint, to all.
abbrev arp_request : List ℕ
arp_request =
    255 ∷ 255 ∷ 255 ∷ 255 ∷ 255 ∷ 255 ∷ 2 ∷ 0 ∷ 0 ∷ 0 ∷ 0 ∷ 9 ∷ 8 ∷ 6 ∷ 0 ∷ 1 ∷ 8 ∷ 0 ∷ 6 ∷ 4 ∷ 0
    ∷ 1 ∷ 2 ∷ 0 ∷ 0 ∷ 0 ∷ 0 ∷ 9 ∷ 192 ∷ 168 ∷ 77 ∷ 2 ∷ 0 ∷ 0 ∷ 0 ∷ 0 ∷ 0 ∷ 0 ∷ 192 ∷ 168 ∷ 77 ∷ 1
    ∷ []

-- The same sender asks "ping" over UDP, without a UDP checksum.
abbrev ping : List ℕ
ping =
    2 ∷ 0x53 ∷ 0x56 ∷ 0 ∷ 0 ∷ 3 ∷ 2 ∷ 0 ∷ 0 ∷ 0 ∷ 0 ∷ 9 ∷ 8 ∷ 0 ∷ 0x45 ∷ 0 ∷ 0 ∷ 32 ∷ 0 ∷ 0 ∷ 0 ∷ 0
    ∷ 64 ∷ 17 ∷ 0x5f ∷ 0x79 ∷ 192 ∷ 168 ∷ 77 ∷ 2 ∷ 192 ∷ 168 ∷ 77 ∷ 1 ∷ 0x10 ∷ 0 ∷ 0x1e ∷ 0x61 ∷ 0
    ∷ 12 ∷ 0 ∷ 0 ∷ 112 ∷ 105 ∷ 110 ∷ 103 ∷ []

abbrev pinged : List ℕ
pinged = management ping

abbrev arped : List ℕ
arped = management arp_request

-- "pong" and a line feed, to the sender, with its checksums.
ping_answer : slice pinged 42 47 ≡ 112 ∷ 111 ∷ 110 ∷ 103 ∷ 10 ∷ []
unfolding management is_ip is_whole ip_payload is_echo is_udp is_udp_sum response udp_reply ip_reply
    ip_header ethernet_header be16 checksum sum_words fold
ping_answer = refl

abbrev carrying : ℕ
carrying = 0x1_fffe

management_reply_example :
    (management ping ≡ [])
    ⊎ (IsAddressed ping (management ping)
        × ((IsRequest ping × IsAnswer ping (management ping))
            ⊎ (checksum (slice (management ping) 14 34) ≡ 0)))
management_reply_example = management_reply ping (ground arith)

ring_lem_example :
    (if not (full Frames.new) && is_size (length arp_request)
      then ((push Frames.new arp_request).0 ≡ true)
        × IsValid (push Frames.new arp_request).1
        × (iter (push Frames.new arp_request).1 ≡ iter Frames.new ++ arp_request ∷ [])
      else (push Frames.new arp_request ≡ (false, Frames.new)))
    × IsValid (pop Frames.new)
    × (if empty Frames.new
        then (front Frames.new ≡ none) × (iter Frames.new ≡ []) × (pop Frames.new ≡ Frames.new)
        else Given (front Frames.new) (λ first.
          (is_size (length first) ≡ true) × (iter Frames.new ≡ first ∷ iter (pop Frames.new))))
    × IsValid (Frames.clear Frames.new)
    × (iter (Frames.clear Frames.new) ≡ [])
ring_lem_example = ring_lem Frames.new arp_request new-IsValid

new-IsSound : IsSound Bridge.new
unfolding Bridge.new
new-IsSound = record { host_valid = new-IsValid; guest_valid = new-IsValid }

receive-queues_example :
    IsSound (receive host arp_request Bridge.new)
    × (queued guest (receive host arp_request Bridge.new) ≡ (
        if goes_on arp_request
        then offered (queued guest Bridge.new) arp_request
        else queued guest Bridge.new))
    × (queued host (receive host arp_request Bridge.new) ≡ (
        if asks arp_request
        then answered (queued host Bridge.new) (management arp_request)
        else queued host Bridge.new))
receive-queues_example = receive-queues host arp_request Bridge.new new-IsSound

-- A host that has sent one request and takes every frame.
abbrev wire : Ethernet (List (List ℕ))
wire = record {
  link_up = λ t. true;
  receive_frame = λ t. elim t [ [] ↦ (none, false, []) | frame ∷ rest ↦ (some frame, true, rest) ];
  send_frames = send_front (λ t frame. (true, t));
}

wire_taken : AreTaken wire
wire_taken t f v = send_front-IsValid (λ t frame. (true, t)) t f v

-- RAM that reads as zeros.
abbrev zeros : GuestMemory ℕ
zeros = record {
  valid = λ address size. ltb (address + size) 0x1_0000;
  read = λ s address size. (some (replicate size 0), s);
  write = λ s address bytes. (true, s + 1);
  barrier = λ s. s;
}

zeros-IsExact : IsExact zeros
zeros-IsExact s address size bytes h =
    ap length (sym (some-injective _ _ h)) ∙ length-replicate {A = ℕ} size 0

anything_kept : IsKept zeros (λ s. Unit)
anything_kept = record {
  by_read = λ _ _ _ _. tt;
  by_write = λ _ _ _ _ _. tt;
  by_barrier = λ _ _. tt;
}

abbrev world : World ℕ (List (List ℕ))
world = record { memory = 0; ethernet = arp_request ∷ []; network = Service.new }

world-IsGood : IsGood zeros wire (λ s. Unit) anything_kept zeros-IsExact wire_taken world
unfolding Service.new
world-IsGood = record {
  memory_kept = tt;
  negotiated = new-IsNegotiated;
  bridge_sound = new-IsSound;
}

service-IsGood_example :
    Given
      (service zeros wire world)
      (IsGood zeros wire (λ s. Unit) anything_kept zeros-IsExact wire_taken)
service-IsGood_example =
    service-IsGood zeros wire (λ s. Unit) anything_kept zeros-IsExact wire_taken world world-IsGood
