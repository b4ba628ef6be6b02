-- ===== src/Vdev/Gic/View.antt =====
-- The guest's view of an interrupt that EL2 owns: its enable and its priority are the guest's own.
use native.Mathlib.Nat.{one-le-pow}
use switchvisor.Base.{
  ◌⊎◌, ℕ, ◌+◌, ◌*◌, ◌/◌, ◌%◌, ◌^◌, ◌<◌, ◌≤◌, ◌≡◌, ◌≢◌, refl, ap, ◌∙◌, sym, Bool, true, false, ◌&&◌,
  ◌||◌, not, ◌==◌, if◌then◌else◌, any, arith, bit, bit_or, bit_and, not32, bit-bit_or, bit-clear32,
  bit-zero, bit_and_two_pow, bit_and-zero, Bool-cases, inl, inr,
}
use switchvisor.Vdev.Gic.{
  Distributor, Owned, seen, enable_bits, with_enables, with_priority, without_maintenance,
  word_mask, owned_action_mask, action_bases, gicd_isenabler0, gicd_icenabler0, gicd_ipriorityr0,
  change_enable, change, change_all,
}
use switchvisor.Vdev.Gic.Masks.{has_bit, bit-word_mask, owns_bit, bit-owned_action_mask}

bit-enable_bits :
    (o : Owned) (offset k : ℕ)
    → bit (enable_bits o offset) k ≡ (
        o.enabled
        && (has_bit o.interrupt offset gicd_isenabler0 k
            || has_bit o.interrupt offset gicd_icenabler0 k))
unfolding enable_bits
bit-enable_bits o offset k =
    let set = bit-word_mask o.interrupt offset gicd_isenabler0 k in
    let clear = bit-word_mask o.interrupt offset gicd_icenabler0 k in
    let both =
      bit-bit_or k (word_mask o.interrupt offset gicd_isenabler0)
        (word_mask o.interrupt offset gicd_icenabler0) in
    let nothing = bit-zero k in ground arith

bit-with_enables :
    (d : Distributor) (offset value k : ℕ)
    → k < 32
    → any (owns_bit d offset k) action_bases ≡ true
    → bit (with_enables d offset value) k
      ≡ (bit (enable_bits d.usb offset) k || bit (enable_bits d.network offset) k)
unfolding with_enables
bit-with_enables d offset value k h owned =
    let action = owned_action_mask d offset in
    let mine = bit-owned_action_mask d offset k in
    let nothing = bit-zero k in
    let cleared = bit-clear32 k value action h in
    let first = bit-bit_or k (bit_and value (not32 action)) (enable_bits d.usb offset) in
    let second =
      bit-bit_or k (bit_or (bit_and value (not32 action)) (enable_bits d.usb offset))
        (enable_bits d.network offset) in
    elim (Bool-cases (action == 0)) [ inl e ↦ ground arith | inr e ↦ ground arith ]

-- The two registers of the enables are below those of the priorities.
with_priority-below :
    (o : Owned) (offset value : ℕ)
    → offset < gicd_ipriorityr0
    → with_priority o offset value ≡ value
unfolding with_priority
with_priority-below o offset value h = ground arith

-- An enable register at `base`, either the one that sets or the one that clears.
abbrev pub enable_seen : Distributor → ℕ → ℕ → ℕ → Bool
enable_seen d id base raw = bit (seen d (base + id / 32 * 4) raw) (id % 32)

abbrev pub is_enable : ℕ → Bool
is_enable base = base == gicd_isenabler0 || base == gicd_icenabler0

enable_seen-bits :
    (d : Distributor) (id base raw : ℕ)
    → id < 1020
    → is_enable base ≡ true
    → owns_bit d (base + id / 32 * 4) (id % 32) base ≡ true
    → enable_seen d id base raw ≡ (
        bit (enable_bits d.usb (base + id / 32 * 4)) (id % 32)
        || bit (enable_bits d.network (base + id / 32 * 4)) (id % 32))
unfolding seen
enable_seen-bits d id base raw h b owned =
    let offset = base + id / 32 * 4 in
    let value = without_maintenance offset raw in
    let below : offset < gicd_ipriorityr0 = ground arith in
    ap (λ t. bit t (id % 32))
      (with_priority-below d.network offset _ below ∙ with_priority-below d.usb offset _ below)
    ∙ bit-with_enables d offset value (id % 32) (omega arith) (ground arith)

has_bit_self : (id base : ℕ) → id < 1020 → has_bit id (base + id / 32 * 4) base (id % 32) ≡ true
unfolding has_bit
has_bit_self id base h = ground arith

-- At the bit of one interrupt in an enable register there is no other interrupt.
has_bit-other :
    (id other base base' : ℕ)
    → other ≢ id
    → is_enable base ≡ true
    → is_enable base' ≡ true
    → has_bit other (base + id / 32 * 4) base' (id % 32) ≡ true
    → id < 1020
    → ⊥
unfolding has_bit
has_bit-other id other base base' ne b b' h lt = ne (ground arith)

has_bit-other_false :
    (id other base base' : ℕ)
    → id < 1020
    → other ≢ id
    → is_enable base ≡ true
    → is_enable base' ≡ true
    → has_bit other (base + id / 32 * 4) base' (id % 32) ≡ false
has_bit-other_false id other base base' lt ne b b' =
    elim (Bool-cases (has_bit other (base + id / 32 * 4) base' (id % 32))) [
      | inl e ↦ absurd (has_bit-other id other base base' ne b b' e lt)
      | inr e ↦ e
    ]

enable_bits_self :
    (o : Owned) (base : ℕ)
    → o.interrupt < 1020
    → is_enable base ≡ true
    → bit (enable_bits o (base + o.interrupt / 32 * 4)) (o.interrupt % 32) ≡ o.enabled
enable_bits_self o base h b =
    let id = o.interrupt in
    let bits = bit-enable_bits o (base + id / 32 * 4) (id % 32) in
    let at = λ (base' : ℕ). has_bit id (base + id / 32 * 4) base' (id % 32) in
    let mine = has_bit_self id base h in
    elim (Bool-cases (base == gicd_isenabler0)) [
      | inl e ↦
          (let mine' : at gicd_isenabler0 ≡ true = ap at (ground arith) ∙ mine in ground arith)
      | inr e ↦
          (let mine' : at gicd_icenabler0 ≡ true = ap at (ground arith) ∙ mine in ground arith)
    ]

enable_bits-other :
    (o : Owned) (id base : ℕ)
    → id < 1020
    → o.interrupt ≢ id
    → is_enable base ≡ true
    → bit (enable_bits o (base + id / 32 * 4)) (id % 32) ≡ false
enable_bits-other o id base h ne b =
    let bits = bit-enable_bits o (base + id / 32 * 4) (id % 32) in
    let set = has_bit-other_false id o.interrupt base gicd_isenabler0 h ne b refl in
    let clear = has_bit-other_false id o.interrupt base gicd_icenabler0 h ne b refl in ground arith

enable_seen-usb :
    (d : Distributor) (base raw : ℕ)
    → d.usb.interrupt < 1020
    → d.network.interrupt ≢ d.usb.interrupt
    → is_enable base ≡ true
    → enable_seen d d.usb.interrupt base raw ≡ d.usb.enabled
unfolding owns_bit
enable_seen-usb d base raw h ne b =
    let mine = has_bit_self d.usb.interrupt base h in
    let usb = enable_bits_self d.usb base h b in
    let network = enable_bits-other d.network d.usb.interrupt base h ne b in
    enable_seen-bits d d.usb.interrupt base raw h b (ground arith) ∙ ground arith

enable_seen-network :
    (d : Distributor) (base raw : ℕ)
    → d.network.interrupt < 1020
    → d.usb.interrupt ≢ d.network.interrupt
    → is_enable base ≡ true
    → enable_seen d d.network.interrupt base raw ≡ d.network.enabled
unfolding owns_bit
enable_seen-network d base raw h ne b =
    let mine = has_bit_self d.network.interrupt base h in
    let network = enable_bits_self d.network base h b in
    let usb = enable_bits-other d.usb d.network.interrupt base h ne b in
    enable_seen-bits d d.network.interrupt base raw h b (ground arith) ∙ ground arith

-- The enable of an interrupt in a distributor that is the guest's alone.
unfoldable pub plain_enable : ℕ → ℕ → ℕ → Bool → Bool
plain_enable id word value enabled =
    if word == gicd_icenabler0 + id / 32 * 4 && bit value (id % 32)
    then false
    else if word == gicd_isenabler0 + id / 32 * 4 && bit value (id % 32)
    then true
    else enabled

asks :
    (id word base value : ℕ)
    → id < 1020
    → (bit_and value (word_mask id word base) == 0)
      ≡ not (word == base + id / 32 * 4 && bit value (id % 32))
unfolding word_mask
asks id word base value h =
    let mine = bit_and_two_pow (id % 32) value in
    let nothing = bit_and-zero value in
    let positive : 1 ≤ 2 ^ (id % 32) = one-le-pow (id % 32) 2 (omega arith) in ground arith

change_enable-plain :
    (o : Owned) (word value : ℕ)
    → o.interrupt < 1020
    → change_enable o word value ≡ plain_enable o.interrupt word value o.enabled
unfolding change_enable plain_enable
change_enable-plain o word value h =
    let set = asks o.interrupt word gicd_isenabler0 value h in
    let clear = asks o.interrupt word gicd_icenabler0 value h in ground arith

-- For an interrupt that EL2 owns, the one of its USB device or that of the network, where these are
-- not the same, the guest reads in both enable registers what its own writes to them left, whatever
-- the physical ones hold. The other of the two may be none.
pub enable_seen-change_all :
    (d : Distributor) (id base word mask value raw raw' : ℕ)
    → id < 1020
    → (id ≡ d.usb.interrupt) ⊎ (id ≡ d.network.interrupt)
    → d.usb.interrupt ≢ d.network.interrupt
    → is_enable base ≡ true
    → enable_seen (change_all d word mask value) id base raw
      ≡ plain_enable id word value (enable_seen d id base raw')
unfolding change_all change
enable_seen-change_all d id base word mask value raw raw' h (inl mine) ne b =
    let after = change_all d word mask value in
    let ne' : d.network.interrupt ≢ d.usb.interrupt = λ e. ne (sym e) in
    let lt : d.usb.interrupt < 1020 = omega arith in
    rw mine (
      enable_seen-usb after base raw lt ne' b
      ∙ change_enable-plain d.usb word value lt
      ∙ ap (plain_enable d.usb.interrupt word value) (sym (enable_seen-usb d base raw' lt ne' b)))
enable_seen-change_all d id base word mask value raw raw' h (inr mine) ne b =
    let after = change_all d word mask value in
    let lt : d.network.interrupt < 1020 = omega arith in
    rw mine (
      enable_seen-network after base raw lt ne b
      ∙ change_enable-plain d.network word value lt
      ∙ ap (plain_enable d.network.interrupt word value)
          (sym (enable_seen-network d base raw' lt ne b)))
