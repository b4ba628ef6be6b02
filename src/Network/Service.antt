-- ===== src/Network/Service.antt =====
-- `Network`: the switch between the device and the Ethernet side, and `service`, which moves frames.
-- The Ethernet side is a parameter, on a state `T`; the memory of the guest has a state `S`. `none`
-- is a call that does not return.
use switchvisor.Base.{
  ℕ, zero, suc, Bool, true, false, ◌||◌, not, ◌==◌, if◌then◌else◌, List, Option, none, some,
  and_then,
}
use mathlib.Core.Option
use switchvisor.Network.Frames
use switchvisor.Network.Frames.{Frames}
use switchvisor.Network.Bridge
use switchvisor.Network.Bridge.{Bridge, receive_host, receive_guest}
use switchvisor.Vdev.Virtio.Memory.{GuestMemory}
use switchvisor.Vdev.Virtio.Device
use switchvisor.Vdev.Virtio.Device.{Net}
pub mod Callbacks
pub mod Sound

-- `receive_frame` gives the callback a frame, or nothing, and returns whether it did something;
-- `send_frames` returns a count and the frames that are left.
pub record Ethernet (T : Type 0) : Type 0 where
  pub link_up : T → Bool
  pub receive_frame : T → Option (List ℕ) × Bool × T
  pub send_frames : T → Frames → ℕ × Frames × T

-- The provided method `send_frames`, from `send_frame`.
unfoldable pub send_front : {T : Type 0} → (T → List ℕ → Bool × T) → T → Frames → ℕ × Frames × T
send_front send_frame t frames = elim (Frames.front frames) [
  | none ↦ (0, frames, t)
  | some frame ↦
      let (sent, t') = send_frame t frame in
      if sent then (1, Frames.pop frames, t') else (0, frames, t')
]

pub record Network : Type 0 where
  pub device : Net
  pub bridge : Bridge
  pub link : Bool

unfoldable pub new : Network
new = record { device = Device.new; bridge = Bridge.new; link = false }

-- Everything that a round works on.
pub record World (S T : Type 0) : Type 0 where
  pub memory : S
  pub ethernet : T
  pub network : Network

unfoldable pub clear_host : Bridge → Bridge
clear_host b = record b { to_host = Frames.clear b.to_host }

unfoldable pub clear_guest : Bridge → Bridge
clear_guest b = record b { to_guest = Frames.clear b.to_guest }

-- The beginning of `service`, with what `link_up` returned.
unfoldable pub prepare : Bool → Network → Network
prepare up n =
    let same_link = if up then n.link else not n.link in
    let relinked = if same_link then n.bridge else clear_host (clear_guest n.bridge) in
    let device = Device.set_link up n.device in
    let running = if Device.running device then relinked else clear_guest relinked in
    record { device = device; bridge = if up then running else clear_host running; link = up }

module _ {S : Type 0} (memory : GuestMemory S) where
  -- The callbacks, on a state of the memory and the device.
  unfoldable pub deliver : List ℕ → S × Net → Option (Bool × (S × Net))
  deliver bytes (s, d) =
      Option.map (λ (accepted, s', d'). (accepted, (s', d'))) (Device.receive memory bytes s d)

  unfoldable pub fetch : S × Net → Option (List ℕ × (S × Net))
  fetch (s, d) = Option.map (λ (frame, s', d'). (frame, (s', d'))) (Device.transmit memory s d)

module _ {S T : Type 0} (memory : GuestMemory S) (ethernet : Ethernet T) where
  -- The four parts of a round, each with whether it made progress.
  unfoldable pub send : World S T → Bool × World S T
  send w =
      let (count, frames, t) = ethernet.send_frames w.ethernet w.network.bridge.to_host in
      let bridge : Bridge = record w.network.bridge { to_host = frames } in
      let network : Network = record w.network { bridge = bridge } in
      (not (count == 0), record w { ethernet = t; network = network })

  unfoldable pub with_device : World S T → S → Net → Bridge → World S T
  with_device w s d b = record w {
    memory = s;
    network = record { device = d; bridge = b; link = w.network.link };
  }

  unfoldable pub deliver_front : World S T → Option (Bool × World S T)
  deliver_front w =
      let b = w.network.bridge in
      let popped : Bridge = record b { to_guest = Frames.pop b.to_guest } in
      elim (Frames.front b.to_guest) [
        | none ↦ some (false, w)
        | some bytes ↦
            and_then (Device.receive memory bytes w.memory w.network.device) (λ (accepted, s, d).
              some (accepted, with_device w s d (if accepted then popped else b)))
      ]

  -- What the callback does with a frame that came in.
  unfoldable pub accept : World S T → Option (List ℕ) → Option (World S T)
  accept w none = some w
  accept w (some bytes) =
      and_then (receive_host (deliver memory) bytes (w.memory, w.network.device) w.network.bridge)
        (λ ((s, d), b). some (with_device w s d b))

  unfoldable pub take_frame : World S T → Option (Bool × World S T)
  take_frame w =
      let (frame, progressed, t) = ethernet.receive_frame w.ethernet in
      Option.map (λ w'. (progressed, w')) (accept (record w { ethernet = t }) frame)

  unfoldable pub take_guest : World S T → Option (Bool × World S T)
  take_guest w =
      and_then (receive_guest (fetch memory) (w.memory, w.network.device) w.network.bridge)
        (λ (progressed, (s, d), b). some (progressed, with_device w s d b))

  unfoldable pub round : World S T → Option (Bool × World S T)
  round w =
      let (sent, w1) = send w in
      and_then (deliver_front w1) (λ (delivered, w2). and_then (take_frame w2) (λ (taken, w3).
        and_then (take_guest w3)
          (λ (forwarded, w4). some (sent || delivered || taken || forwarded, w4))))

  -- At most `n` rounds, until one makes no progress.
  unfoldable pub rounds : ℕ → World S T → Option (World S T)
  rounds zero w = some w
  rounds (suc n) w =
      and_then (round w)
        (λ (progressed, w'). elim progressed [ true ↦ rounds n w' | false ↦ some w' ])

  unfoldable pub service : World S T → Option (World S T)
  service w = rounds 16 (record w { network = prepare (ethernet.link_up w.ethernet) w.network })
