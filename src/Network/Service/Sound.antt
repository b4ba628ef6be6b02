-- ===== src/Network/Service/Sound.antt =====
-- The service of the network returns, and keeps what its parts keep.
use switchvisor.Base.{
  ℕ, zero, suc, Bool, true, false, not, if◌then◌else◌, List, Option, none, some, Bool-cases,
  Option-cases, inl, inr, Given, Given-and_then,
}
use switchvisor.Network.Frames
use switchvisor.Network.Frames.{Frames, empty, full, spare, fill, commit, push, tail, is_size}
use switchvisor.Network.Frames.Push.{IsValid}
use switchvisor.Network.Frames.Refine.{pop-iter, clear-iter}
use switchvisor.Network.Bridge.{Bridge, receive_host, receive_guest}
use switchvisor.Network.Bridge.Forward.{IsSound}
use switchvisor.Network.Service.{
  Ethernet, Network, World, send_front, clear_host, clear_guest, prepare, send, with_device,
  deliver_front, deliver, fetch, accept, take_frame, take_guest, round, rounds, service,
}
use switchvisor.Vdev.Virtio.Memory.{GuestMemory, IsKept, IsExact}
use switchvisor.Vdev.Virtio.Device
use switchvisor.Vdev.Virtio.Device.{Net}
use switchvisor.Vdev.Virtio.Negotiation.{IsNegotiated}
use switchvisor.Vdev.Virtio.Lifetime.{settled-IsNegotiated, set_link-IsNegotiated, Given-map}
use switchvisor.Vdev.Virtio.Transfer.{transmit-IsSettled, receive-IsSettled, IsFrame}
use switchvisor.Network.Service.Callbacks.{
  IsSound-if, IsSound-host, receive_host-IsSound, receive_guest-IsSound,
}

-- The Ethernet side leaves the queue well formed: it takes frames off it, and does no more.
abbrev pub AreTaken : {T : Type 0} → Ethernet T → Type 0
AreTaken {T} ethernet = (t : T) (f : Frames) → IsValid f → IsValid (ethernet.send_frames t f).1

clear-IsValid : (f : Frames) → IsValid f → IsValid (Frames.clear f)
clear-IsValid f v = let (valid, none_left) = clear-iter f v in valid

pop-IsValid : (f : Frames) → IsValid f → IsValid (Frames.pop f)
pop-IsValid f v = let (valid, rest) = pop-iter f v in valid

clear_host-IsSound : (b : Bridge) → IsSound b → IsSound (clear_host b)
unfolding clear_host
clear_host-IsSound b v = record {
  host_valid = clear-IsValid b.to_host v.host_valid;
  guest_valid = v.guest_valid;
}

clear_guest-IsSound : (b : Bridge) → IsSound b → IsSound (clear_guest b)
unfolding clear_guest
clear_guest-IsSound b v = record {
  host_valid = v.host_valid;
  guest_valid = clear-IsValid b.to_guest v.guest_valid;
}

prepare-IsSound : (up : Bool) (n : Network) → IsSound n.bridge → IsSound (prepare up n).bridge
unfolding prepare
prepare-IsSound up n v =
    let cleared = clear_host-IsSound (clear_guest n.bridge) (clear_guest-IsSound n.bridge v) in
    let relinked =
      IsSound-if (if up then n.link else not n.link) n.bridge (clear_host (clear_guest n.bridge)) v
        cleared in
    let running =
      IsSound-if (Device.running (Device.set_link up n.device)) _ _ relinked
        (clear_guest-IsSound _ relinked) in
    IsSound-if up _ _ running (clear_host-IsSound _ running)

module _ {S : Type 0} (memory : GuestMemory S) (P : S → Type 0) (kept : IsKept memory P)
    (exact : IsExact memory) where
  -- What is kept of the memory and the device.
  abbrev pub Keeps : S × Net → Type 0
  Keeps (s, d) = P s × IsNegotiated d

  deliver_kept :
      (bytes : List ℕ) (o : S × Net)
      → Keeps o
      → Given (deliver memory bytes o) (λ (accepted, o'). Keeps o')
  unfolding deliver
  deliver_kept bytes (s, d) (p, v) =
      Given-map _ (Device.receive memory bytes s d) (λ (accepted, s', d'). (accepted, (s', d')))
        (receive-IsSettled memory P kept bytes s d p)
        (λ (accepted, s', d') (p', settled). (p', settled-IsNegotiated d d' settled v))

  fetch_kept :
      (o : S × Net) → Keeps o → Given (fetch memory o) (λ (frame, o'). IsFrame frame × Keeps o')
  unfolding fetch
  fetch_kept (s, d) (p, v) =
      Given-map _ (Device.transmit memory s d) (λ (frame, s', d'). (frame, (s', d')))
        (transmit-IsSettled memory P kept s d exact p)
        (λ (frame, s', d') (fits, p', settled). (fits, (p', settled-IsNegotiated d d' settled v)))

-- The provided method is of this kind.
pub send_front-IsValid :
    {T : Type 0} (send_frame : T → List ℕ → Bool × T) (t : T) (f : Frames)
    → IsValid f
    → IsValid (send_front send_frame t f).1
unfolding send_front
send_front-IsValid send_frame t f v = elim (Option-cases (Frames.front f)) [
  | inl e ↦ rw (send_front, e) v
  | inr (frame, e) ↦ elim (Bool-cases (send_frame t frame).0) [
    | inl sent ↦ rw (send_front, e, sent) (pop-IsValid f v)
    | inr kept ↦ rw (send_front, e, kept) v
  ]
]

module _ {S T : Type 0} (memory : GuestMemory S) (ethernet : Ethernet T) (P : S → Type 0)
    (kept : IsKept memory P) (exact : IsExact memory) (taken : AreTaken ethernet) where
  pub record IsGood (w : World S T) : Type 0 where
    pub memory_kept : P w.memory
    pub negotiated : IsNegotiated w.network.device
    pub bridge_sound : IsSound w.network.bridge

  send-IsGood : (w : World S T) → IsGood w → IsGood (send memory ethernet w).1
  unfolding send
  send-IsGood w g = record {
    memory_kept = g.memory_kept;
    negotiated = g.negotiated;
    bridge_sound =
        let v = g.bridge_sound in
        IsSound-host w.network.bridge _ v (taken w.ethernet w.network.bridge.to_host v.host_valid);
  }

  with_device-IsGood :
      (w : World S T) (s : S) (d : Net) (b : Bridge)
      → P s
      → IsNegotiated d
      → IsSound b
      → IsGood (with_device memory ethernet w s d b)
  unfolding with_device
  with_device-IsGood w s d b p v sound = record {
    memory_kept = p;
    negotiated = v;
    bridge_sound = sound;
  }

  IsSound-pop : (b : Bridge) → IsSound b → IsSound (record b { to_guest = Frames.pop b.to_guest })
  IsSound-pop b v = record {
    host_valid = v.host_valid;
    guest_valid = pop-IsValid b.to_guest v.guest_valid;
  }

  deliver_front-IsGood :
      (w : World S T) → IsGood w → Given (deliver_front memory ethernet w) (λ (done, w'). IsGood w')
  unfolding deliver_front
  deliver_front-IsGood w g =
      let b = w.network.bridge in
      let d = w.network.device in
      elim (Option-cases (Frames.front b.to_guest)) [
        | inl e ↦ rw (deliver_front, e) g
        | inr (bytes, e) ↦
            rw (deliver_front, e)
              (Given-and_then _ (Device.receive memory bytes w.memory d) _
                (receive-IsSettled memory P kept bytes w.memory d g.memory_kept)
                (λ (accepted, s', d') (p', settled).
                  with_device-IsGood w s' d' _ p' (settled-IsNegotiated d d' settled g.negotiated) (
                    IsSound-if accepted (record b { to_guest = Frames.pop b.to_guest }) b
                      (IsSound-pop b g.bridge_sound) g.bridge_sound)))
      ]

  accept-IsGood :
      (w : World S T) (frame : Option (List ℕ))
      → IsGood w
      → Given (accept memory ethernet w frame) IsGood
  unfolding accept
  accept-IsGood w none g = g
  accept-IsGood w (some bytes) g =
      Given-and_then _
        (receive_host (deliver memory) bytes (w.memory, w.network.device) w.network.bridge) _
        (receive_host-IsSound (Keeps memory P kept exact) (deliver memory) bytes
          (w.memory, w.network.device) w.network.bridge (deliver_kept memory P kept exact)
          (g.memory_kept, g.negotiated) g.bridge_sound)
        (λ ((s', d'), b') ((p', v'), sound). with_device-IsGood w s' d' b' p' v' sound)

  take_frame-IsGood :
      (w : World S T) → IsGood w → Given (take_frame memory ethernet w) (λ (done, w'). IsGood w')
  unfolding take_frame
  take_frame-IsGood w g =
      let (frame, progressed, t) = ethernet.receive_frame w.ethernet in
      let w' : World S T = record w { ethernet = t } in
      let g' : IsGood w' = record {
        memory_kept = g.memory_kept;
        negotiated = g.negotiated;
        bridge_sound = g.bridge_sound;
      } in
      Given-map _ (accept memory ethernet w' frame) (λ w''. (progressed, w''))
        (accept-IsGood w' frame g') (λ w'' g''. g'')

  take_guest-IsGood :
      (w : World S T) → IsGood w → Given (take_guest memory ethernet w) (λ (done, w'). IsGood w')
  unfolding take_guest
  take_guest-IsGood w g =
      Given-and_then _ (receive_guest (fetch memory) (w.memory, w.network.device) w.network.bridge)
        _
        (receive_guest-IsSound (Keeps memory P kept exact) (fetch memory)
          (w.memory, w.network.device) w.network.bridge (fetch_kept memory P kept exact)
          (g.memory_kept, g.negotiated) g.bridge_sound)
        (λ (done, (s', d'), b') ((p', v'), sound). with_device-IsGood w s' d' b' p' v' sound)

  round-IsGood :
      (w : World S T) → IsGood w → Given (round memory ethernet w) (λ (progressed, w'). IsGood w')
  unfolding round
  round-IsGood w g =
      let w1 = (send memory ethernet w).1 in
      Given-and_then _ (deliver_front memory ethernet w1) _
        (deliver_front-IsGood w1 (send-IsGood w g))
        (λ (delivered, w2) g2.
          Given-and_then _ (take_frame memory ethernet w2) _ (take_frame-IsGood w2 g2)
            (λ (took, w3) g3.
              Given-and_then _ (take_guest memory ethernet w3) _ (take_guest-IsGood w3 g3)
                (λ (forwarded, w4) g4. g4)))

  rounds-IsGood : (n : ℕ) (w : World S T) → IsGood w → Given (rounds memory ethernet n w) IsGood
  unfolding rounds
  rounds-IsGood zero w g = g
  rounds-IsGood (suc n) w g =
      Given-and_then _ (round memory ethernet w) _ (round-IsGood w g) (λ (progressed, w') g'.
        elim progressed
          as (λ p. Given (elim p [ true ↦ rounds memory ethernet n w' | false ↦ some w' ]) IsGood) [
            | true ↦ rounds-IsGood n w' g'
            | false ↦ g'
          ])

  -- Whatever frames come from either side and whatever the guest put in its rings, the service
  -- returns, after at most sixteen rounds, and has kept the rings of the switch well formed, the
  -- negotiated features among those on offer, and what the shared memory keeps.
  pub service-IsGood : (w : World S T) → IsGood w → Given (service memory ethernet w) IsGood
  unfolding service prepare
  service-IsGood w g =
      let up = ethernet.link_up w.ethernet in
      rounds-IsGood 16 (record w { network = prepare up w.network })
        (record {
          memory_kept = g.memory_kept;
          negotiated = set_link-IsNegotiated up w.network.device g.negotiated;
          bridge_sound = prepare-IsSound up w.network g.bridge_sound;
        })
