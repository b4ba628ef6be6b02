-- ===== src/Vdev/Virtio/Lifetime.antt =====
-- A life of the device: the guest's writes, frames of either direction, and changes of the link.
use switchvisor.Base.{
  ℕ, ◌%◌, ◌^◌, inl, inr, Bool, false, ◌&&◌, ◌==◌, List, [], ◌∷◌, Option, none, some, Given,
  and_then, Given-and_then, arith, ok, err, bit-bit_or,
}
use mathlib.Core.Option
use switchvisor.Vdev.Virtio.Memory.{GuestMemory, IsKept, IsExact}
use switchvisor.Vdev.Virtio.Device
use switchvisor.Vdev.Virtio.Device.{Net, running, status_runs, set_link, transmit, receive}
use switchvisor.Vdev.Virtio.Negotiation.{IsNegotiated, write_register-IsNegotiated}
use switchvisor.Vdev.Virtio.Transfer.{IsSettled, transmit-IsSettled, receive-IsSettled}
use switchvisor.Vdev.Virtio.Registers.{write}

-- What can happen to the device: a write of a register, a call of `transmit`, of `receive` or of
-- `set_link`.
pub data Event : Type 0 where
  register_write : ℕ → ℕ → ℕ → Event
  send : Event
  deliver : List ℕ → Event
  plug : Bool → Event

-- The write of 0 to the status register.
unfoldable pub is_reset : Event → Bool
is_reset (register_write offset size value) = offset == 0x70 && value % 2 ^ 32 == 0
is_reset send = false
is_reset (deliver frame) = false
is_reset (plug up) = false

module _ {S : Type 0} (memory : GuestMemory S) where
  unfoldable pub happen : Event → S → Net → Option (S × Net)
  happen (register_write offset size value) s d = elim (write d offset size value) [
    | ok d' ↦ some (s, d')
    | err e ↦ some (s, d)
  ]
  happen send s d = Option.map (λ (frame, s', d'). (s', d')) (transmit memory s d)
  happen (deliver frame) s d =
      Option.map (λ (accepted, s', d'). (s', d')) (receive memory frame s d)
  happen (plug up) s d = some (s, set_link up d)

  unfoldable pub run : List Event → S → Net → Option (S × Net)
  run [] s d = some (s, d)
  run (event ∷ rest) s d = and_then (happen event s d) (λ (s', d'). run rest s' d')

pub Given-map :
    {A B : Type 0} (Q : B → Type 0) (o : Option A) (f : A → B) {P : A → Type 0}
    → Given o P
    → ((a : A) → P a → Q (f a))
    → Given (Option.map f o) Q
Given-map Q none f p g = p
Given-map Q (some a) f p g = g a p

pub settled-IsNegotiated : (d d' : Net) → IsSettled d d' → IsNegotiated d → IsNegotiated d'
unfolding IsNegotiated
settled-IsNegotiated d d' settled v =
    let same = settled.same_features in
    let more = bit-bit_or 3 d.status 64 in
    elim settled.marked [ inl e ↦ ground arith | inr e ↦ ground arith ]

pub set_link-IsNegotiated : (up : Bool) (d : Net) → IsNegotiated d → IsNegotiated (set_link up d)
unfolding IsNegotiated set_link running
set_link-IsNegotiated up d v = ground arith

pub new-IsNegotiated : IsNegotiated Device.new
unfolding IsNegotiated Device.new
new-IsNegotiated h = ground arith

module _ {S : Type 0} (memory : GuestMemory S) (P : S → Type 0) (kept : IsKept memory P)
    (exact : IsExact memory) where
  happen-IsNegotiated :
      (event : Event) (s : S) (d : Net)
      → P s
      → IsNegotiated d
      → Given (happen memory event s d) (λ (s', d'). P s' × IsNegotiated d')
  unfolding happen write
  happen-IsNegotiated (register_write offset size value) s d p v =
      let after = write_register-IsNegotiated d offset (value % 2 ^ 32) v in ground arith
  happen-IsNegotiated send s d p v =
      Given-map _ (transmit memory s d) (λ (frame, s', d'). (s', d'))
        (transmit-IsSettled memory P kept s d exact p)
        (λ (frame, s', d') (fits, p', settled). (p', settled-IsNegotiated d d' settled v))
  happen-IsNegotiated (deliver frame) s d p v =
      Given-map _ (receive memory frame s d) (λ (accepted, s', d'). (s', d'))
        (receive-IsSettled memory P kept frame s d p)
        (λ (accepted, s', d') (p', settled). (p', settled-IsNegotiated d d' settled v))
  happen-IsNegotiated (plug up) s d p v = (p, set_link-IsNegotiated up d v)

  -- From a device that has agreed on nothing that it does not offer, whatever the guest writes to its
  -- registers and rings, and whatever frames and changes of the link come, each call returns, what is
  -- kept by the shared memory stays so, and with `FEATURES_OK` set the driver still has only features
  -- that are on offer and has VERSION_1.
  pub run-IsNegotiated :
      (events : List Event) (s : S) (d : Net)
      → P s
      → IsNegotiated d
      → Given (run memory events s d) (λ (s', d'). P s' × IsNegotiated d')
  unfolding run
  run-IsNegotiated [] s d p v = (p, v)
  run-IsNegotiated (event ∷ rest) s d p v =
      Given-and_then _ (happen memory event s d) (λ (s', d'). run memory rest s' d')
        (happen-IsNegotiated event s d p v) (λ (s', d') (p', v'). run-IsNegotiated rest s' d' p' v')
