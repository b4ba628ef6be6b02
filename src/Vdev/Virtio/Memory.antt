-- ===== src/Vdev/Virtio/Memory.antt =====
-- `GuestMemory`: RAM that the device shares with the guest, in a state `S`. `valid` is a fixed map of
-- the board, as it is in vm/network.rs; a read or a write may fail, and may be seen by other CPUs.
use switchvisor.Base.{ℕ, ◌+◌, ◌≤◌, ◌≡◌, Bool, true, List, length, Option, none, some, from_le}

pub record GuestMemory (S : Type 0) : Type 0 where
  pub valid : ℕ → ℕ → Bool
  pub read : S → ℕ → ℕ → Option (List ℕ) × S
  pub write : S → ℕ → List ℕ → Bool × S
  pub barrier : S → S

-- A write within a range that `valid` accepts.
pub record IsAllowed {S : Type 0} (memory : GuestMemory S) (address size : ℕ) : Type 0 where
  pub range_start : ℕ
  pub range_size : ℕ
  pub accepted : memory.valid range_start range_size ≡ true
  pub above : range_start ≤ address
  pub below : address + size ≤ range_start + range_size

-- What is kept by reads and barriers, and by writes to ranges that `valid` accepts.
pub record IsKept {S : Type 0} (memory : GuestMemory S) (P : S → Type 0) : Type 0 where
  pub by_read : (s : S) (address size : ℕ) → P s → P (memory.read s address size).1
  pub by_write :
      (s : S) (address : ℕ) (bytes : List ℕ)
      → IsAllowed memory address (length bytes)
      → P s
      → P (memory.write s address bytes).1
  pub by_barrier : (s : S) → P s → P (memory.barrier s)

-- A read that succeeds gives the bytes that were asked for.
abbrev pub IsExact : {S : Type 0} → GuestMemory S → Type 0
IsExact {S} memory =
    (s : S) (address size : ℕ) (bytes : List ℕ)
    → (memory.read s address size).0 ≡ some bytes
    → length bytes ≡ size

module _ {S : Type 0} (memory : GuestMemory S) where
  unfoldable pub read16 : S → ℕ → Option ℕ × S
  read16 s address =
      let (bytes, s') = memory.read s address 2 in
      elim bytes [ none ↦ (none, s') | some b ↦ (some (from_le b), s') ]
