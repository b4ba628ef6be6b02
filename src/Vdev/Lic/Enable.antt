-- ===== src/Vdev/Lic/Enable.antt =====
-- The guest's enable of an owned source: what it writes is what it reads, and the physical
-- enable is not changed by it.
use native.Mathlib.Nat.{one-le-pow}
use switchvisor.Base.{
  bit_and_two_pow, ℕ_discrete, dec_lt, ◌⊎◌, ◌/◌, Bool-cases, Option-cases, inl, inr, ◌≤◌, ◌≢◌, ℕ,
  ◌+◌, ◌%◌, ◌^◌, ◌<◌, ◌≡◌, refl, ap, ◌∙◌, sym, Bool, true, false, ◌&&◌, ◌||◌, not, leb, ◌==◌,
  if◌then◌else◌, Option, none, some, arith, bit, bit_and,
}
use switchvisor.Drivers.{Mmio, IsPlain}
use switchvisor.Vdev.Lic.{
  Lic, Owned, base, bank_of, cpu_ier, cpu_ier_set, cpu_ier_clr, write_register, write_round, filter,
  seen, bank_stride,
}
use switchvisor.Vdev.Lic.Protect.{is_routing, owns, is_at, left_bit, bit-write_round, bit-seen}

module _ {S : Type 0} (mmio : Mmio S) where
  write_round-source :
      (o : Owned) (offset value : ℕ) (s : S)
      → (write_round mmio o offset value s).0.0.owned_source ≡ o.owned_source
  unfolding write_round
  write_round-source o offset value s = ground arith

-- The guest's enable of a source after a write whose bits are `asked`.
unfoldable pub enabled_after : Option ℕ → ℕ → Bool → (ℕ → Bool) → Bool
enabled_after none offset enabled asked = enabled
enabled_after (some n) offset enabled asked =
    if is_at cpu_ier_set (some n) offset
    then enabled || asked (n % 32)
    else if is_at cpu_ier_clr (some n) offset
    then enabled && not (asked (n % 32))
    else enabled

asks : (value k : ℕ) → (bit_and value (2 ^ k) == 0) ≡ not (bit value k)
asks value k =
    let mine = bit_and_two_pow k value in
    let positive : 1 ≤ 2 ^ k = one-le-pow k 2 (omega arith) in ground arith

module _ {S : Type 0} (mmio : Mmio S) where
  write_round-enabled :
      (o : Owned) (offset value : ℕ) (s : S)
      → (write_round mmio o offset value s).0.0.guest_enabled
        ≡ enabled_after o.owned_source offset o.guest_enabled (bit value)
  unfolding write_round write_register enabled_after is_at
  write_round-enabled o offset value s = elim (Option-cases o.owned_source) [
    | inl e ↦ rw e refl
    | inr (n, e) ↦ rw e (
        let mine = asks value (n % 32) in
        elim (Bool-cases (leb (bank_of n) offset)) [ inl f ↦ ground arith | inr f ↦ ground arith ])
  ]

-- A word of the bank of one source has at its bit no other source.
owns-other :
    (source : Option ℕ) (n r : ℕ)
    → source ≢ some n
    → r < bank_stride
    → owns source (bank_of n + r) (n % 32) ≡ false
unfolding owns is_routing
owns-other none n r ne h = refl
owns-other (some m) n r ne h =
    let apart : m ≢ n = λ e. ne (ap some e) in
    elim (dec_lt (m / 32) (n / 32)) [
      | yes lt ↦ ground arith
      | no ge ↦ elim (dec_lt (n / 32) (m / 32)) [ yes lt ↦ ground arith | no ge' ↦ ground arith ]
    ]

owns_self : (n : ℕ) → owns (some n) (bank_of n + cpu_ier) (n % 32) ≡ true
unfolding owns is_routing
owns_self n = ground arith

-- The bit of the guest's enable register, of a controller that is the guest's alone.
abbrev pub plain_enable : ℕ → ℕ → ℕ → Bool → Bool
plain_enable n offset value enabled =
    if offset == bank_of n + cpu_ier_set
    then enabled || bit value (n % 32)
    else if offset == bank_of n + cpu_ier_clr
    then enabled && not (bit value (n % 32))
    else enabled

abbrev pub enable_seen : Lic → ℕ → ℕ → Bool
enable_seen l n raw = bit (seen l (bank_of n + cpu_ier) raw) (n % 32)

enabled_after-plain :
    (n offset value : ℕ) (enabled : Bool) (asked : ℕ → Bool)
    → ((offset ≡ bank_of n + cpu_ier_set) ⊎ (offset ≡ bank_of n + cpu_ier_clr)
        → asked (n % 32) ≡ bit value (n % 32))
    → enabled_after (some n) offset enabled asked ≡ plain_enable n offset value enabled
unfolding enabled_after is_at
enabled_after-plain n offset value enabled asked same =
    elim (ℕ_discrete offset (bank_of n + cpu_ier_set)) [
      | yes e ↦ (let eq = same (inl e) in ground arith)
      | no ne ↦ elim (ℕ_discrete offset (bank_of n + cpu_ier_clr)) [
        | yes e ↦ (let eq = same (inr e) in ground arith)
        | no ne' ↦ ground arith
      ]
    ]

enable_seen-network :
    (l : Lic) (n raw : ℕ)
    → l.network.owned_source ≡ some n
    → enable_seen l n raw ≡ l.network.guest_enabled
unfolding is_at
enable_seen-network l n raw e =
    let law = bit-seen l (bank_of n + cpu_ier) raw (n % 32) (omega arith) in
    law ∙ rw e (let mine = owns_self n in ground arith)

enable_seen-usb :
    (l : Lic) (n raw : ℕ)
    → l.usb.owned_source ≡ some n
    → l.network.owned_source ≢ some n
    → enable_seen l n raw ≡ l.usb.guest_enabled
unfolding is_at
enable_seen-usb l n raw e ne =
    let law = bit-seen l (bank_of n + cpu_ier) raw (n % 32) (omega arith) in
    let other = owns-other l.network.owned_source n cpu_ier ne (omega arith) in
    law ∙ rw (other, e) (let mine = owns_self n in ground arith)

module _ {S : Type 0} (mmio : Mmio S) where
  -- The guest reads in the enable register what it set and cleared there, for a source that EL2
  -- owns for its USB device and not for the network, whatever the physical registers hold.
  pub enable_seen-filter :
      (l : Lic) (n offset value raw raw' : ℕ) (s : S)
      → l.usb.owned_source ≡ some n
      → l.network.owned_source ≢ some n
      → enable_seen (filter mmio l offset value s).0.0 n raw
        ≡ plain_enable n offset value (enable_seen l n raw')
  unfolding filter
  enable_seen-filter l n offset value raw raw' s e ne =
      let first = write_round mmio l.usb offset value s in
      let after = (filter mmio l offset value s).0.0 in
      let kept = write_round-source mmio l.usb offset value s in
      let kept' = write_round-source mmio l.network offset first.0.1 first.1 in
      enable_seen-usb after n raw (kept ∙ e) (λ f. ne (sym kept' ∙ f))
      ∙ write_round-enabled mmio l.usb offset value s
      ∙ ap (λ t. enabled_after t offset l.usb.guest_enabled (bit value)) e
      ∙ enabled_after-plain n offset value l.usb.guest_enabled (bit value) (λ c. refl)
      ∙ ap (plain_enable n offset value) (sym (enable_seen-usb l n raw' e ne))

  -- The same for the source of the network, which the USB device's round comes before.
  module _ (offset : ℕ) (plain : IsPlain mmio (base + offset)) where
    pub enable_seen-filter_network :
        (l : Lic) (n value raw raw' : ℕ) (s : S)
        → l.network.owned_source ≡ some n
        → l.usb.owned_source ≢ some n
        → enable_seen (filter mmio l offset value s).0.0 n raw
          ≡ plain_enable n offset value (enable_seen l n raw')
    unfolding filter left_bit
    enable_seen-filter_network l n value raw raw' s e ne =
        let first = write_round mmio l.usb offset value s in
        let after = (filter mmio l offset value s).0.0 in
        let kept = write_round-source mmio l.network offset first.0.1 first.1 in
        let left = (bit-write_round mmio offset plain l.usb value (n % 32) s (omega arith)).1 in
        let asked : (r : ℕ)
            → r < bank_stride
            → offset ≡ bank_of n + r
            → bit first.0.1 (n % 32) ≡ bit value (n % 32) =
          λ r h at_r. (let other = owns-other l.usb.owned_source n r ne h in ground arith) in
        enable_seen-network after n raw (kept ∙ e)
        ∙ write_round-enabled mmio l.network offset first.0.1 first.1
        ∙ ap (λ t. enabled_after t offset l.network.guest_enabled (bit first.0.1)) e
        ∙ enabled_after-plain n offset value l.network.guest_enabled (bit first.0.1) (λ c. elim c [
          | inl f ↦ asked cpu_ier_set (omega arith) f
          | inr f ↦ asked cpu_ier_clr (omega arith) f
        ])
        ∙ ap (plain_enable n offset value) (sym (enable_seen-network l n raw' e))
