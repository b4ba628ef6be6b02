-- ===== src/Vm/Network/Isolation.antt =====
-- Whatever the guest puts in its rings, the device leaves memory that is not the guest's alone.
use switchvisor.Base.{
  ℕ, ◌+◌, ◌^◌, ◌≤◌, ◌<◌, ◌≡◌, ◌⊎◌, inl, inr, refl, ◌∙◌, true, List, length, Bool-cases, Given,
  Given_map, arith, dec_lt,
}
use switchvisor.Memory.{Contains}
use switchvisor.Loader.Ranges.{
  guest_range, guest_range-InGuest, guest_ram_base, guest_ram_end, boot_stack, framebuffer,
}
use switchvisor.Vdev.Virtio.Memory.{IsKept, IsExact}
use switchvisor.Vdev.Virtio.Device
use switchvisor.Vdev.Virtio.Lifetime.{Event, run, run-IsNegotiated, new-IsNegotiated}
use switchvisor.Vm.Network.{Copies, is_valid, read, write, memory}

-- An address that is not the guest's to share.
unfoldable pub IsHidden : ℕ → ℕ → Type 0
IsHidden high_end a =
    (a < guest_ram_base)
    ⊎ ((guest_ram_end ≤ a) × (a < 2 ^ 32))
    ⊎ Contains boot_stack a
    ⊎ Contains framebuffer a
    ⊎ ((2 ^ 32 ≤ a) × (high_end ≤ a))

-- What the copies do to the bytes of memory, `byte s a` at the address `a`.
pub record IsCopying {S : Type 0} (copies : Copies S) (byte : S → ℕ → ℕ) : Type 0 where
  pub whole : (s : S) (address size : ℕ) → length (copies.read s address size).0 ≡ size
  pub by_read : (s : S) (address size a : ℕ) → byte (copies.read s address size).1 a ≡ byte s a
  pub by_write :
      (s : S) (address : ℕ) (bytes : List ℕ) (a : ℕ)
      → (a < address) ⊎ (address + length bytes ≤ a)
      → byte (copies.write s address bytes) a ≡ byte s a
  pub by_barrier : (s : S) (a : ℕ) → byte (copies.barrier s) a ≡ byte s a

-- A range that passes the test has no hidden address.
hidden_outside :
    (high_end address size a : ℕ)
    → is_valid high_end address size ≡ true
    → IsHidden high_end a
    → (a < address) ⊎ (address + size ≤ a)
unfolding is_valid IsHidden
hidden_outside high_end address size a valid hidden = elim (dec_lt a address) [
  | yes below ↦ inl below
  | no above ↦ elim (dec_lt a (address + size)) [
    | no past ↦ inr (omega arith)
    | yes inside ↦ absurd (elim (Bool-cases (guest_range address size)) [
      | inl guest ↦
          (let g = guest_range-InGuest address size guest in
            let off_stack = g.off_stack a (omega arith) inside in
            let off_framebuffer = g.off_framebuffer a (omega arith) inside in
            let low = g.low in let high = g.high in ground arith)
      | inr high ↦ ground arith
    ])
  ]
]

module _ {S : Type 0} (copies : Copies S) (byte : S → ℕ → ℕ) (copying : IsCopying copies byte) where
  pub memory-IsExact : (high_end : ℕ) → IsExact (memory copies high_end)
  unfolding memory read
  memory-IsExact high_end s address size bytes h =
      let whole = copying.whole s address size in ground arith

  -- The bytes at hidden addresses are those of `before`.
  AllHidden : ℕ → S → S → Type 0
  AllHidden high_end before s = (a : ℕ) → IsHidden high_end a → byte s a ≡ byte before a

  memory-IsKept :
      (high_end : ℕ) (before : S) → IsKept (memory copies high_end) (AllHidden high_end before)
  unfolding memory read write AllHidden
  memory-IsKept high_end before = record {
    by_read = λ s address size p a hidden.
        (let same = p a hidden in let now = copying.by_read s address size a in ground arith);
    by_write = λ s address bytes allowed p a hidden.
        (let same = p a hidden in
          let off =
            hidden_outside high_end allowed.range_start allowed.range_size a allowed.accepted
              hidden in
          let above = allowed.above in
          let below = allowed.below in
          let outside : (a < address) ⊎ (address + length bytes ≤ a) = ground arith in
          let now = copying.by_write s address bytes a outside in ground arith);
    by_barrier = λ s p a hidden. copying.by_barrier s a ∙ p a hidden;
  }

  -- From a new device, whatever the guest writes to its registers and rings, and whatever frames and
  -- changes of the link come: each call returns, and no byte changes that is below guest RAM, in the
  -- resident region of EL2, in its boot stack, in the framebuffer, or above the end of high RAM.
  pub run_isolated :
      (high_end : ℕ) (events : List Event) (s : S)
      → Given
          (run (memory copies high_end) events s Device.new)
          (λ (s', d'). (a : ℕ) → IsHidden high_end a → byte s' a ≡ byte s a)
  unfolding AllHidden
  run_isolated high_end events s =
      Given_map (run (memory copies high_end) events s Device.new)
        (run-IsNegotiated (memory copies high_end) (AllHidden high_end s) (memory-IsKept high_end s)
          (memory-IsExact high_end) events s Device.new (λ a hidden. refl) new-IsNegotiated)
        (λ o (p, v). p)
