-- ===== src/Vdev/Lic/Protect.antt =====
-- What is left of a guest's write, bit by bit, and what the guest reads.
use switchvisor.Base.{
  ℕ, ◌+◌, ◌-◌, ◌%◌, ◌<◌, ◌≡◌, refl, ap, ap₂, ◌∙◌, Bool, false, ◌&&◌, not, leb, ◌==◌, if◌then◌else◌,
  Option, none, some, arith, bit, bit_and, bit_or, not32, bit-bit_and, bit-bit_or, bit-clear32,
  bit_two_pow, Bool-cases, Option-cases, inl, inr,
}
use switchvisor.Drivers.{Mmio, IsPlain}
use switchvisor.Vdev.Lic.{
  Lic, Owned, base, bank_of, owned_bit, is_register, cpu_ier, cpu_iep_class, read_register,
  read_round, seen, write_register, write_round, filter,
}

-- The registers of a bank that show or change where its interrupts go: every word from the one of
-- the pending fast interrupts at 0x08 to the classes at 0x2c, but for 0x0c, which is passed on.
unfoldable pub is_routing : ℕ → Bool
is_routing register =
    register % 4 == 0 && leb 8 register && leb register cpu_iep_class && not (register == 0x0c)

is_register-routing : (register : ℕ) → is_register register ≡ is_routing register
unfolding is_routing
is_register-routing register = ground arith

-- The word at `offset` has at `k`, in a register of the routing, the bit of a source that EL2 owns.
unfoldable pub owns : Option ℕ → ℕ → ℕ → Bool
owns none offset k = false
owns (some n) offset k = leb (bank_of n) offset && is_routing (offset - bank_of n) && k == n % 32

unfoldable pub is_at : ℕ → Option ℕ → ℕ → Bool
is_at register none offset = false
is_at register (some n) offset = leb (bank_of n) offset && offset - bank_of n == register

-- A bit of an owned source is cleared, or as it was in the register of the class.
unfoldable pub left_bit : Option ℕ → ℕ → ℕ → Bool → Bool → Bool
left_bit source offset k current asked =
    if owns source offset k then is_at cpu_iep_class source offset && current else asked

bit-owned : (n k : ℕ) → bit (owned_bit n) k ≡ (k == n % 32)
bit-owned n k = bit_two_pow (n % 32) k

bit-others :
    (n value k : ℕ)
    → k < 32
    → bit (bit_and value (not32 (owned_bit n))) k ≡ (bit value k && not (k == n % 32))
bit-others n value k h =
    bit-clear32 k value (owned_bit n) h ∙ ap (λ t. bit value k && not t) (bit-owned n k)

bit-class :
    (n value current k : ℕ)
    → k < 32
    → bit (bit_or (bit_and value (not32 (owned_bit n))) (bit_and current (owned_bit n))) k
      ≡ (if k == n % 32 then bit current k else bit value k)
bit-class n value current k h =
    let both = bit-bit_or k (bit_and value (not32 (owned_bit n))) (bit_and current (owned_bit n)) in
    let low = bit-others n value k h in
    let high = bit-bit_and k current (owned_bit n) ∙ ap (◌&&◌ (bit current k)) (bit-owned n k) in
    ground arith

bit-read_register :
    (n value k : ℕ) (enabled : Bool) (register : ℕ)
    → k < 32
    → bit (read_register n enabled (some register) value) k
      ≡ (if is_routing register && k == n % 32 then register == cpu_ier && enabled else bit value k)
unfolding read_register
bit-read_register n value k enabled register h =
    let same = is_register-routing register in
    let low = bit-others n value k h in
    let mine = bit-owned n k in
    let full = bit-bit_or k (bit_and value (not32 (owned_bit n))) (owned_bit n) in ground arith

bit-read_round :
    (offset value k : ℕ) (source : Option ℕ) (enabled : Bool)
    → k < 32
    → bit (read_round offset source enabled value) k
      ≡ (if owns source offset k then is_at cpu_ier source offset && enabled else bit value k)
unfolding read_round owns is_at read_register
bit-read_round offset value k none enabled h = refl
bit-read_round offset value k (some n) enabled h =
    let law = bit-read_register n value k enabled (offset - bank_of n) h in
    elim (Bool-cases (leb (bank_of n) offset)) [ inl e ↦ ground arith | inr e ↦ ground arith ]

-- The guest reads 0 in the bit of a source that EL2 owns, but its own enable of the source in the
-- register of the enables; every other bit is the register's.
pub bit-seen :
    (l : Lic) (offset value k : ℕ)
    → k < 32
    → bit (seen l offset value) k ≡ (
        if owns l.network.owned_source offset k
        then is_at cpu_ier l.network.owned_source offset && l.network.guest_enabled
        else if owns l.usb.owned_source offset k
        then is_at cpu_ier l.usb.owned_source offset && l.usb.guest_enabled
        else bit value k)
unfolding seen
bit-seen l offset value k h =
    let first = bit-read_round offset value k l.usb.owned_source l.usb.guest_enabled h in
    bit-read_round offset _ k l.network.owned_source l.network.guest_enabled h
    ∙ ap
        (λ t.
          if owns l.network.owned_source offset k
          then is_at cpu_ier l.network.owned_source offset && l.network.guest_enabled
          else t)
        first

module _ {S : Type 0} (mmio : Mmio S) (offset : ℕ) (plain : IsPlain mmio (base + offset)) where
  bit-write_register :
      (n : ℕ) (enabled : Bool) (register value k : ℕ) (s : S)
      → k < 32
      → ((write_register mmio n enabled offset (some register) value s).1 ≡ s)
        × (bit (write_register mmio n enabled offset (some register) value s).0.1 k ≡ (
            if is_routing register && k == n % 32
            then register == cpu_iep_class && bit (mmio.read32 s (base + offset)).0 k
            else bit value k))
  unfolding write_register
  bit-write_register n enabled register value k s h =
      let low = bit-others n value k h in
      let routing = is_register-routing register in
      let class = bit-class n value (mmio.read32 s (base + offset)).0 k h in
      let same = plain s in ground arith

  pub bit-write_round :
      (o : Owned) (value k : ℕ) (s : S)
      → k < 32
      → ((write_round mmio o offset value s).1 ≡ s)
        × (bit (write_round mmio o offset value s).0.1 k
            ≡ left_bit o.owned_source offset k
                (bit (mmio.read32 s (base + offset)).0 k)
                (bit value k))
  unfolding write_round left_bit owns is_at write_register
  bit-write_round o value k s h = elim (Option-cases o.owned_source) [
    | inl e ↦ rw e (refl, refl)
    | inr (n, e) ↦ rw e (
        let law = bit-write_register n o.guest_enabled (offset - bank_of n) value k s h in
        elim (Bool-cases (leb (bank_of n) offset)) [ inl f ↦ ground arith | inr f ↦ ground arith ])
  ]

  -- In the registers of the routing a guest's write leaves each bit of a source that EL2 owns 0, or in
  -- that of the class as it is there; every other bit, and every other word, is the guest's. A read
  -- of the register must have no effect.
  pub bit-filter :
      (l : Lic) (value k : ℕ) (s : S)
      → k < 32
      → ((filter mmio l offset value s).1 ≡ s)
        × (bit (filter mmio l offset value s).0.1 k
            ≡ left_bit l.network.owned_source offset k (bit (mmio.read32 s (base + offset)).0 k) (
                left_bit l.usb.owned_source offset k
                  (bit (mmio.read32 s (base + offset)).0 k)
                  (bit value k)))
  unfolding filter
  bit-filter l value k s h =
      let first = bit-write_round l.usb value k s h in
      let next =
        bit-write_round l.network (write_round mmio l.usb offset value s).0.1 k
          (write_round mmio l.usb offset value s).1 h in
      (
        next.0 ∙ first.0,
        next.1
            ∙ ap₂
                (λ t b.
                  left_bit l.network.owned_source offset k (bit (mmio.read32 t (base + offset)).0 k)
                    b)
                (first.0) (first.1),
      )
