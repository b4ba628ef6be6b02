-- ===== src/Vdev/Virtio/Device.antt =====
-- `Net`: transmission and reception of one frame, and the failure of the device. A frame is its
-- bytes; the empty list is the length 0 of `transmit`. `none` is a call that does not return.
use switchvisor.Base.{
  ℕ, ◌+◌, ◌-◌, ◌%◌, ◌^◌, Bool, true, false, ◌&&◌, ◌||◌, not, ◌==◌, ltb, if◌then◌else◌, List, [],
  ◌∷◌, length, get_or, Option, none, some, saturating_add, bit, bit_or,
}
use mathlib.Core.Option
use switchvisor.Vdev.Virtio.Memory.{GuestMemory}
use switchvisor.Vdev.Virtio.Chain
use switchvisor.Vdev.Virtio.Chain.{Chain}
use switchvisor.Vdev.Virtio.Queue
use switchvisor.Vdev.Virtio.Queue.{Queue}

abbrev pub frame_size : ℕ
frame_size = 1514

abbrev pub header_size : ℕ
header_size = 12

-- `rx` and `tx` are the two queues, 0 and 1.
pub record Net : Type 0 where
  pub rx : Queue
  pub tx : Queue
  pub chain : Chain
  pub queue_sel : ℕ
  pub device_features_sel : ℕ
  pub driver_features_sel : ℕ
  pub driver_features : ℕ
  pub status : ℕ
  pub interrupt : ℕ
  pub generation : ℕ
  pub link : Bool
  pub tx_packets : ℕ
  pub rx_packets : ℕ
  pub errors : ℕ

unfoldable pub new : Net
new = record {
  rx = Queue.new;
  tx = Queue.new;
  chain = Chain.new;
  queue_sel = 0;
  device_features_sel = 0;
  driver_features_sel = 0;
  driver_features = 0;
  status = 0;
  interrupt = 0;
  generation = 0;
  link = false;
  tx_packets = 0;
  rx_packets = 0;
  errors = 0;
}

unfoldable pub interrupt_pending : Net → Bool
interrupt_pending d = not (d.interrupt == 0)

-- `DRIVER_OK` is bit 2, `FEATURES_OK` 3, `NEEDS_RESET` 6 and `FAILED` 7.
unfoldable pub status_runs : ℕ → Bool
status_runs status = bit status 2 && bit status 3 && not (bit status 6) && not (bit status 7)

unfoldable pub running : Net → Bool
running d = status_runs d.status

unfoldable pub set_link : Bool → Net → Net
set_link up d =
    let same_link = if up then d.link else not d.link in
    let changed : Net = record d { link = up; generation = (d.generation + 1) % 2 ^ 8 } in
    if same_link
    then d
    else if running changed && bit d.driver_features 16
    then record changed { interrupt = bit_or d.interrupt 2 }
    else changed

unfoldable pub broken : Net → Net
broken d = record d {
  status = bit_or d.status 64;
  interrupt = bit_or d.interrupt 2;
  errors = saturating_add d.errors 1;
}

-- `Ok` with a result, or `Err` as `none`, with what was changed on the way.
abbrev pub Outcome : Type 0 → Type 0 → Type 0
Outcome S A = Option A × S × Net

unfoldable pub raise : Bool → Net → Net
raise notify d = if notify then record d { interrupt = bit_or d.interrupt 1 } else d

-- What a caller gets of an outcome: `Err` is turned into a broken device.
unfoldable pub settle : {S A : Type 0} → A → Outcome S A → A × S × Net
settle nothing (none, s, d) = (nothing, s, broken d)
settle nothing (some a, s, d) = (a, s, d)

unfoldable pub bad_header : List ℕ → Bool
bad_header header =
    not (get_or header 0 0 == 0)
    || not (get_or header 1 0 == 0)
    || not (get_or header 10 0 == 0)
    || not (get_or header 11 0 == 0)

abbrev pub receive_header : List ℕ
receive_header = 0 ∷ 0 ∷ 0 ∷ 0 ∷ 0 ∷ 0 ∷ 0 ∷ 0 ∷ 0 ∷ 0 ∷ 1 ∷ 0 ∷ []

-- The ends of `transmit_inner` and `receive_inner`, after `finish`.
unfoldable pub transmitted :
    {S : Type 0} → List ℕ → Net → Option Bool × S × Queue → Outcome S (List ℕ)
transmitted frame d (none, s, q) = (none, s, record d { tx = q })
transmitted frame d (some notify, s, q) =
    (some frame, s, record (raise notify d) { tx = q; tx_packets = saturating_add d.tx_packets 1 })

unfoldable pub received : {S : Type 0} → Net → Option Bool × S × Queue → Outcome S Bool
received d (none, s, q) = (none, s, record d { rx = q })
received d (some notify, s, q) =
    (some true, s, record (raise notify d) { rx = q; rx_packets = saturating_add d.rx_packets 1 })

module _ {S : Type 0} (memory : GuestMemory S) where
  -- After the frame is read, after the header is read, and after `next` has found a chain.
  unfoldable pub transmit_frame : Net → Option (List ℕ) × S → Outcome S (List ℕ)
  transmit_frame d (none, s) = (none, s, d)
  transmit_frame d (some frame, s) = transmitted frame d (Queue.finish memory d.tx s d.chain.head 0)

  unfoldable pub transmit_header : Net → Option (List ℕ) × S → Outcome S (List ℕ)
  transmit_header d (none, s) = (none, s, d)
  transmit_header d (some header, s) =
      if bad_header header
      then (none, s, d)
      else transmit_frame d (Chain.read memory d.chain s header_size (d.chain.total - header_size))

  unfoldable pub transmit_chain : S → Net → Outcome S (List ℕ)
  transmit_chain s d =
      if ltb d.chain.total (header_size + 14) || ltb (header_size + frame_size) d.chain.total
      then (none, s, d)
      else transmit_header d (Chain.read memory d.chain s 0 header_size)

  unfoldable pub transmit_next : Net → Option (Queue.Next S) → Option (Outcome S (List ℕ))
  transmit_next d none = none
  transmit_next d (some (none, s, q, chain)) = some (none, s, record d { tx = q; chain = chain })
  transmit_next d (some (some false, s, q, chain)) =
      some (some [], s, record d { tx = q; chain = chain })
  transmit_next d (some (some true, s, q, chain)) =
      some (transmit_chain s (record d { tx = q; chain = chain }))

  unfoldable pub transmit_inner : S → Net → Option (Outcome S (List ℕ))
  transmit_inner s d = transmit_next d (Queue.next memory d.tx false s d.chain)

  unfoldable pub transmit : S → Net → Option (List ℕ × S × Net)
  transmit s d =
      if not (running d) then some ([], s, d) else Option.map (settle []) (transmit_inner s d)

  -- After the frame is written, after the header is written, and after `next` has found a chain.
  unfoldable pub receive_frame : ℕ → Net → Bool × S → Outcome S Bool
  receive_frame size d (false, s) = (none, s, d)
  receive_frame size d (true, s) = received d (Queue.finish memory d.rx s d.chain.head size)

  unfoldable pub receive_headed : List ℕ → Net → Bool × S → Outcome S Bool
  receive_headed frame d (false, s) = (none, s, d)
  receive_headed frame d (true, s) =
      receive_frame (header_size + length frame) d (Chain.write memory d.chain s header_size frame)

  unfoldable pub receive_chain : List ℕ → S → Net → Outcome S Bool
  receive_chain frame s d =
      if ltb d.chain.total (header_size + length frame)
      then (none, s, d)
      else receive_headed frame d (Chain.write memory d.chain s 0 receive_header)

  unfoldable pub receive_next : List ℕ → Net → Option (Queue.Next S) → Option (Outcome S Bool)
  receive_next frame d none = none
  receive_next frame d (some (none, s, q, chain)) =
      some (none, s, record d { rx = q; chain = chain })
  receive_next frame d (some (some false, s, q, chain)) =
      some (some false, s, record d { rx = q; chain = chain })
  receive_next frame d (some (some true, s, q, chain)) =
      some (receive_chain frame s (record d { rx = q; chain = chain }))

  unfoldable pub receive_inner : List ℕ → S → Net → Option (Outcome S Bool)
  receive_inner frame s d = receive_next frame d (Queue.next memory d.rx true s d.chain)

  unfoldable pub receive : List ℕ → S → Net → Option (Bool × S × Net)
  receive frame s d =
      if not (running d) || ltb (length frame) 14 || ltb frame_size (length frame)
      then some (false, s, d)
      else Option.map (settle false) (receive_inner frame s d)
