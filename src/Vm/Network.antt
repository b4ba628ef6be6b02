-- ===== src/Vm/Network.antt =====
-- crates/switchvisor/src/vm/network.rs: the guest memory that the network device shares, and the
-- emulation of an access to its registers. What copies bytes is a parameter.
use switchvisor.Base.{
  ℕ, ◌+◌, ◌^◌, ◌≤◌, Bool, true, false, ◌&&◌, ◌||◌, not, ◌==◌, leb, if◌then◌else◌, List, length,
  Option, none, some, checked_add,
}
use switchvisor.Loader.Ranges.{guest_range}
use switchvisor.Mmio.Decode.{Access, decode_region}
use switchvisor.Mmio.Emulate.{emulate_access}
use switchvisor.Vdev.Virtio.Memory.{GuestMemory}
use switchvisor.Vdev.Virtio.Device.{Net, interrupt_pending}
use switchvisor.Vdev.Virtio.Registers.{net}
pub mod Isolation
mod Tests

-- The copies and barriers of the processor, on a memory `S`.
pub record Copies (S : Type 0) : Type 0 where
  pub read : S → ℕ → ℕ → List ℕ × S
  pub write : S → ℕ → List ℕ → S
  pub barrier : S → S

-- `high_end` is what `HIGH_END` holds, set once before the guest runs.
unfoldable pub is_valid : ℕ → ℕ → ℕ → Bool
is_valid high_end address size =
    guest_range address size
    || leb (2 ^ 32) address
      && not (size == 0)
      && elim (checked_add address size) [ none ↦ false | some end ↦ leb end high_end ]

module _ {S : Type 0} (copies : Copies S) (high_end : ℕ) where
  unfoldable pub read : S → ℕ → ℕ → Option (List ℕ) × S
  read s address size =
      let (bytes, s') = copies.read s address size in
      if not (is_valid high_end address size) then (none, s) else (some bytes, s')

  unfoldable pub write : S → ℕ → List ℕ → Bool × S
  write s address bytes =
      if not (is_valid high_end address (length bytes))
      then (false, s)
      else (true, copies.write s address bytes)

  unfoldable pub memory : GuestMemory S
  memory = record {
    valid = is_valid high_end;
    read = read;
    write = write;
    barrier = copies.barrier;
  }

-- After an access that was done, whether packets are to be moved.
unfoldable pub asks_service : Access → Bool
asks_service a = a.write && (a.offset == 0x44 || a.offset == 0x50 || a.offset == 0x70)

-- What `emulate` leaves: whether the access was done, the device, the registers, the flag `PENDING`,
-- and whether the network is to be serviced.
pub record Emulation : Type 0 where
  pub handled : Bool
  pub device : Net
  pub registers : List ℕ
  pub pending : Bool
  pub service : Bool

-- `none` is an access that is not the network's.
unfoldable pub emulate : Bool → ℕ → ℕ → ℕ → Net → List ℕ → Option Emulation
emulate enabled esr far hpfar d registers =
    if not enabled then none else elim (decode_region esr far hpfar 0x700f_e000 0x1000) [
      | none ↦ none
      | some a ↦
          (let (handled, d', registers') = emulate_access net a d registers in
            some (record {
              handled = handled;
              device = d';
              registers = registers';
              pending = interrupt_pending d';
              service = handled && asks_service a;
            }))
    ]
