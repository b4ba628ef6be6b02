-- ===== src/Vm/Network/Tests.antt =====
-- A memory of bytes, a guest that sets up its queues, and the theorems on it.
use switchvisor.Base.{
  ℕ, zero, suc, ◌+◌, ◌-◌, ◌^◌, ◌≡◌, refl, ap, true, false, leb, ltb, ◌&&◌, if◌then◌else◌, List, [],
  ◌∷◌, ◌++◌, length, get_or, Given, arith, some, none, bit, replicate, Option,
}
use switchvisor.Memory.{Contains}
use switchvisor.Vdev.Virtio.Device
use switchvisor.Vdev.Virtio.Device.{Net}
use switchvisor.Vdev.Virtio.Lifetime.{happen, Event, register_write, send, deliver, plug, run}
use switchvisor.Vdev.Virtio.Memory.{GuestMemory, IsKept, read16}
use switchvisor.Vdev.Virtio.Registers
use switchvisor.Loader.Ranges.{guest_range}
use switchvisor.Memory
use switchvisor.Vdev.Virtio.Lifetime.{is_reset, run-IsNegotiated, new-IsNegotiated}
use switchvisor.Vdev.Virtio.Negotiation.{IsNegotiated}
use switchvisor.Vdev.Virtio.Device.{transmit, receive}
use switchvisor.Vdev.Virtio.Failure.{run_marked}
use switchvisor.Vdev.Virtio.Confine.{IsSoundNext, next_returns}
use switchvisor.Vdev.Virtio.Chain
use switchvisor.Vdev.Virtio.Queue
use switchvisor.Vdev.Virtio.Queue.{Queue}
use switchvisor.Vm.Network.{Copies, memory, read, write, is_valid}
use switchvisor.Vm.Network.Isolation.{IsHidden, IsCopying, memory-IsExact, run_isolated}

abbrev read_bytes : (ℕ → ℕ) → ℕ → ℕ → List ℕ
read_bytes s address zero = []
read_bytes s address (suc size) = s address ∷ read_bytes s (address + 1) size

length-read_bytes : (s : ℕ → ℕ) (address size : ℕ) → length (read_bytes s address size) ≡ size
length-read_bytes s address zero = refl
length-read_bytes s address (suc size) = ap suc (length-read_bytes s (address + 1) size)

abbrev store_bytes : (ℕ → ℕ) → ℕ → List ℕ → ℕ → ℕ
store_bytes s address bytes a =
    if leb address a && ltb a (address + length bytes) then get_or bytes (a - address) 0 else s a

abbrev copies : Copies (ℕ → ℕ)
copies = record {
  read = λ s address size. (read_bytes s address size, s);
  write = store_bytes;
  barrier = λ s. s;
}

copying : IsCopying copies (λ s a. s a)
copying = record {
  whole = length-read_bytes;
  by_read = λ s address size a. refl;
  by_write = λ s address bytes a outside. ground arith;
  by_barrier = λ s a. refl;
}

-- The guest's driver: features, two queues of 8 in low RAM, then the status.
abbrev set_queue : ℕ → ℕ → List Event
set_queue sel base =
    register_write 0x30 4 sel
    ∷ register_write 0x38 4 8
    ∷ register_write 0x80 4 base
    ∷ register_write 0x90 4 (base + 0x100)
    ∷ register_write 0xa0 4 (base + 0x200)
    ∷ register_write 0x44 4 1
    ∷ []

abbrev set_up : List Event
set_up =
    plug true
    ∷ register_write 0x24 4 1
    ∷ register_write 0x20 4 1
    ∷ register_write 0x70 4 11
    ∷ (set_queue 0 0x9000_0000 ++ set_queue 1 0x9000_1000 ++ register_write 0x70 4 15 ∷ [])

-- One descriptor of 26 bytes at 0x9000_2000 on the queue for transmission.
abbrev ram : ℕ → ℕ
ram =
    store_bytes
      (store_bytes
        (store_bytes (λ a. 0) 0x9000_1000 (0 ∷ 0x20 ∷ 0 ∷ 0x90 ∷ 0 ∷ 0 ∷ 0 ∷ 0 ∷ 26 ∷ []))
        0x9000_1102 (1 ∷ []))
      0x9000_200c (1 ∷ 2 ∷ 3 ∷ 4 ∷ 5 ∷ 6 ∷ 7 ∷ 8 ∷ 9 ∷ 10 ∷ 11 ∷ 12 ∷ 13 ∷ 14 ∷ [])

abbrev sent : Option (List ℕ)
sent = elim (run (memory copies (2 ^ 32)) set_up ram Device.new) [
  | none ↦ none
  | some (s, d) ↦ elim (Device.transmit (memory copies (2 ^ 32)) s d) [
    | none ↦ none
    | some (frame, s', d') ↦ some frame
  ]
]

run_isolated_example :
    Given
      (run (memory copies (2 ^ 32)) (set_up ++ send ∷ []) ram Device.new)
      (λ (s', d'). (a : ℕ) → IsHidden (2 ^ 32) a → s' a ≡ ram a)
run_isolated_example = run_isolated copies (λ s a. s a) copying (2 ^ 32) (set_up ++ send ∷ []) ram

sent_frame : sent ≡ some (1 ∷ 2 ∷ 3 ∷ 4 ∷ 5 ∷ 6 ∷ 7 ∷ 8 ∷ 9 ∷ 10 ∷ 11 ∷ 12 ∷ 13 ∷ 14 ∷ [])
unfolding run happen Device.new Device.running Device.status_runs Device.set_link Device.transmit
    Device.transmit_inner Device.transmit_next Device.transmit_chain Device.transmit_header
    Device.transmit_frame Device.transmitted Device.bad_header Device.raise Device.settle
    Registers.write Registers.write_register Registers.write_status Registers.write_features
    Registers.next_status Registers.is_acceptable Registers.is_queue_register Registers.change_queue
    Registers.write_queue Registers.set_low Registers.set_high Registers.poll Queue.new Queue.next
    Queue.take_available Queue.take_chain Queue.walk Queue.visit Queue.examine Queue.extend
    Queue.parse Queue.is_good Queue.is_valid Queue.finish Queue.publish Chain.new Chain.read
    Chain.gather read16 memory read write is_valid guest_range Memory.new
sent_frame = refl

abbrev shared : GuestMemory (ℕ → ℕ)
shared = memory copies (2 ^ 32)

anything_kept : IsKept shared (λ s. Unit)
anything_kept = record {
  by_read = λ _ _ _ _. tt;
  by_write = λ _ _ _ _ _. tt;
  by_barrier = λ _ _. tt;
}

run-IsNegotiated_example :
    Given (run shared (set_up ++ send ∷ []) ram Device.new) (λ (s', d'). Unit × IsNegotiated d')
run-IsNegotiated_example =
    run-IsNegotiated shared (λ s. Unit) anything_kept
      (memory-IsExact copies (λ s a. s a) copying (2 ^ 32)) (set_up ++ send ∷ []) ram Device.new tt
      new-IsNegotiated

abbrev marked : Net
marked = record Device.new { status = 79 }

run_marked_example :
    Given
      (run shared (register_write 0x70 4 15 ∷ send ∷ deliver (replicate 60 0) ∷ []) ram marked)
      (λ (s', d').
        (s' ≡ ram)
        × (bit d'.status 6 ≡ true)
        × (transmit shared s' d' ≡ some ([], s', d'))
        × (receive shared (replicate 60 0) s' d' ≡ some (false, s', d')))
unfolding is_reset
run_marked_example =
    run_marked shared (register_write 0x70 4 15 ∷ send ∷ deliver (replicate 60 0) ∷ [])
      (replicate 60 0) ram marked refl refl

abbrev queue : Queue
queue = record {
  num = 8;
  ready = true;
  poll_pending = true;
  desc = 0x9000_1000;
  avail = 0x9000_1100;
  used = 0x9000_1200;
  next_avail = 0;
  next_used = 0;
}

next_returns_example :
    Given (Queue.next shared queue false ram Chain.new) (IsSoundNext shared queue)
next_returns_example = next_returns shared queue false ram Chain.new
