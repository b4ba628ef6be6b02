-- ===== src/Vdev/Virtio/Negotiation.antt =====
-- The features that the driver and the device agreed on, and the failure that stays until a reset.
use switchvisor.Base.{
  ℕ, ◌≡◌, refl, ◌∙◌, sym, Bool, true, false, ◌&&◌, not, ◌==◌, if◌then◌else◌, arith, bit, bit_and,
  bit_or, not32, bit-bit_and, ℕ_discrete,
}
use switchvisor.Vdev.Virtio.Device
use switchvisor.Vdev.Virtio.Device.{
  Net, running, status_runs, broken, set_link, settle, transmit, receive,
}
use switchvisor.Vdev.Virtio.Queue.{Queue}
use switchvisor.Vdev.Virtio.Registers.{
  write_features, change_queue, poll, write_queue, is_acceptable, next_status, write_status,
  write_register,
}

-- With `FEATURES_OK` set, the driver took no feature that is not on offer, and took VERSION_1.
unfoldable pub IsNegotiated : Net → Type 0
IsNegotiated d = bit d.status 3 ≡ true → is_acceptable d.driver_features ≡ true

-- What the steps of `next_status` do to the bits they leave alone, and to `FEATURES_OK`.
pub bit_kept : (x mask k : ℕ) → bit mask k ≡ true → bit (bit_and x mask) k ≡ bit x k
bit_kept x mask k h = let both = bit-bit_and k x mask in ground arith

pub bit_kept_if :
    (c : Bool) (x mask k : ℕ)
    → bit mask k ≡ true
    → bit (if c then x else bit_and x mask) k ≡ bit x k
bit_kept_if true x mask k h = refl
bit_kept_if false x mask k h = bit_kept x mask k h

cleared_if : (c : Bool) (x : ℕ) → bit (if c then bit_and x (not32 8) else x) 3 ≡ (not c && bit x 3)
cleared_if true x = let both = bit-bit_and 3 x (not32 8) in ground arith
cleared_if false x = refl

agreed_of : (x a : Bool) → (not (x && not a) && x) ≡ true → a ≡ true
agreed_of x a h = ground arith

next_status-agreed :
    (d : Net) (value : ℕ)
    → bit (next_status d value) 3 ≡ true
    → is_acceptable d.driver_features ≡ true
unfolding next_status
next_status-agreed d value h =
    let next = bit_or value (bit_and d.status 64) in
    let a = is_acceptable d.driver_features in
    let negotiated = if bit next 3 && not a then bit_and next (not32 8) else next in
    let started =
      if bit_and negotiated 11 == 11 then negotiated else bit_and negotiated (not32 4) in
    let first = cleared_if (bit next 3 && not a) next in
    let second = bit_kept_if (bit_and negotiated 11 == 11) negotiated (not32 4) 3 refl in
    let third = bit_kept started 0xcf 3 refl in
    let all = sym h ∙ third ∙ second ∙ first in agreed_of (bit next 3) a (sym all)

-- Writes of registers.
change_queue-IsNegotiated :
    (f : Queue → Queue) (d : Net) (sel : ℕ) → IsNegotiated d → IsNegotiated (change_queue f d sel)
unfolding change_queue IsNegotiated
change_queue-IsNegotiated f d sel v = ground arith

write_status-IsNegotiated : (d : Net) (value : ℕ) → IsNegotiated (write_status d value)
unfolding write_status IsNegotiated Device.new
write_status-IsNegotiated d value =
    let after = next_status-agreed d value in
    elim (ℕ_discrete value 0) as (λ t. IsNegotiated (write_status d value)) [
      | Dec.yes e ↦ ground arith
      | Dec.no e ↦ ground arith
    ]

pub write_register-IsNegotiated :
    (d : Net) (offset value : ℕ) → IsNegotiated d → IsNegotiated (write_register d offset value)
unfolding write_register write_features IsNegotiated
write_register-IsNegotiated d offset value v =
    let polled = change_queue-IsNegotiated poll d value v in
    let changed = change_queue-IsNegotiated (write_queue offset value) d d.queue_sel v in
    let stated = write_status-IsNegotiated d value in ground arith
