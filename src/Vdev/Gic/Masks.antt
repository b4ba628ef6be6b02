-- ===== src/Vdev/Gic/Masks.antt =====
-- Which bits of the distributor's registers the masks hold.
use switchvisor.Base.{
  ℕ, ◌+◌, ◌*◌, ◌/◌, ◌%◌, ◌≡◌, refl, ap, ap₂, ◌∙◌, sym, Bool, true, false, ◌&&◌, ◌||◌, ltb, ◌==◌,
  List, [], ◌∷◌, any, all, arith, bit, bit_or, bit-bit_or, bit-zero, bit_two_pow, bit_field,
  bit_or-zero, Bool-cases, inl, inr, ℕ_discrete,
}
use switchvisor.Vdev.Ownership.{is_one_of}
use switchvisor.Vdev.Gic.{
  Distributor, action_bases, word_mask, byte_mask, config_mask, owned_word_mask, owned_byte_mask,
  owned_config_mask, first_mask, owned_action_mask, maintenance_mask, protected_mask,
  gicd_ipriorityr0, gicd_itargetsr0, gicd_icfgr0,
}

-- The bit of an interrupt in a register of one bit each, and its bits in the registers of a byte
-- and of two bits each.
unfoldable pub has_bit : ℕ → ℕ → ℕ → ℕ → Bool
has_bit id offset base k = ltb id 1020 && offset == base + id / 32 * 4 && k == id % 32

unfoldable pub has_byte : ℕ → ℕ → ℕ → ℕ → Bool
has_byte id offset base k = ltb id 1020 && offset == base + id / 4 * 4 && k / 8 == id % 4

unfoldable pub has_pair : ℕ → ℕ → ℕ → Bool
has_pair id offset k = ltb id 1020 && offset == gicd_icfgr0 + id / 16 * 4 && k / 2 == id % 16

pub bit-word_mask :
    (id offset base k : ℕ) → bit (word_mask id offset base) k ≡ has_bit id offset base k
unfolding word_mask has_bit
bit-word_mask id offset base k =
    let one = bit_two_pow (id % 32) k in let nothing = bit-zero k in ground arith

pub bit-byte_mask :
    (id offset base k : ℕ) → bit (byte_mask id offset base) k ≡ has_byte id offset base k
unfolding byte_mask has_byte
bit-byte_mask id offset base k =
    let field = bit_field 8 (id % 4 * 8) k in let nothing = bit-zero k in ground arith

pub bit-config_mask : (id offset k : ℕ) → bit (config_mask id offset) k ≡ has_pair id offset k
unfolding config_mask has_pair
bit-config_mask id offset k =
    let field = bit_field 2 (id % 16 * 2) k in let nothing = bit-zero k in ground arith

-- A register of one bit for each interrupt lies in the 128 bytes from its base.
abbrev bank_base : ℕ → ℕ
bank_base offset = offset / 0x80 * 0x80

abbrev pub is_base : ℕ → Bool
is_base base = base % 0x80 == 0

has_bit-bank :
    (id offset base k : ℕ)
    → is_base base ≡ true
    → has_bit id offset base k ≡ true
    → base ≡ bank_base offset
unfolding has_bit
has_bit-bank id offset base k b h = ground arith

unfoldable pub owns_bit : Distributor → ℕ → ℕ → ℕ → Bool
owns_bit d offset k base =
    has_bit d.usb.interrupt offset base k || has_bit d.network.interrupt offset base k

pub bit-owned_word_mask :
    (d : Distributor) (offset base k : ℕ)
    → bit (owned_word_mask d offset base) k ≡ owns_bit d offset k base
unfolding owned_word_mask owns_bit
bit-owned_word_mask d offset base k =
    bit-bit_or k (word_mask d.usb.interrupt offset base) (word_mask d.network.interrupt offset base)
    ∙ ap₂ ◌||◌ (bit-word_mask d.usb.interrupt offset base k)
        (bit-word_mask d.network.interrupt offset base k)

owns_bit-bank :
    (d : Distributor) (offset base k : ℕ)
    → is_base base ≡ true
    → owns_bit d offset k base ≡ true
    → base ≡ bank_base offset
unfolding owns_bit
owns_bit-bank d offset base k b h = elim (Bool-cases (has_bit d.usb.interrupt offset base k)) [
  | inl e ↦ has_bit-bank d.usb.interrupt offset base k b e
  | inr e ↦ has_bit-bank d.network.interrupt offset base k b (ground arith)
]

-- A mask that is not 0 is that of the bank.
mask-bank :
    (d : Distributor) (offset base : ℕ)
    → is_base base ≡ true
    → (owned_word_mask d offset base == 0) ≡ false
    → base ≡ bank_base offset
unfolding owned_word_mask word_mask
mask-bank d offset base b h = elim (ℕ_discrete base (bank_base offset)) [
  | yes e ↦ e
  | no ne ↦
      (let usb : word_mask d.usb.interrupt offset base ≡ 0 = ground arith in
        let network : word_mask d.network.interrupt offset base ≡ 0 = ground arith in
        (let both : bit_or (word_mask d.usb.interrupt offset base)
                (word_mask d.network.interrupt offset base)
              ≡ 0 =
            ap₂ bit_or usb network ∙ bit_or-zero 0 in
          ground arith))
]

any_owns-bank :
    (d : Distributor) (offset k : ℕ) (bases : List ℕ)
    → all is_base bases ≡ true
    → any (owns_bit d offset k) bases ≡ true
    → owns_bit d offset k (bank_base offset) ≡ true
any_owns-bank d offset k [] b h = ground arith
any_owns-bank d offset k (base ∷ bases) b h = elim (Bool-cases (owns_bit d offset k base)) [
  | inl e ↦ ap (owns_bit d offset k) (sym (owns_bit-bank d offset base k (ground arith) e)) ∙ e
  | inr e ↦ any_owns-bank d offset k bases (ground arith) (ground arith)
]

bit-first_mask :
    (d : Distributor) (offset k : ℕ) (bases : List ℕ)
    → all is_base bases ≡ true
    → bit (first_mask d offset bases) k ≡ any (owns_bit d offset k) bases
unfolding first_mask
bit-first_mask d offset k [] b = bit-zero k
bit-first_mask d offset k (base ∷ bases) b =
    let ih = bit-first_mask d offset k bases (ground arith) in
    let here = bit-owned_word_mask d offset base k in
    let nothing = bit-zero k in
    elim (Bool-cases (owned_word_mask d offset base == 0)) [
      | inl e ↦ ground arith
      | inr e ↦
          (let bank = mask-bank d offset base (ground arith) e in
            let others = any_owns-bank d offset k bases (ground arith) in
            elim (Bool-cases (any (owns_bit d offset k) bases)) [
              | inl f ↦ (let mine = others f in ground arith)
              | inr f ↦ ground arith
            ])
    ]

pub bit-owned_action_mask :
    (d : Distributor) (offset k : ℕ)
    → bit (owned_action_mask d offset) k ≡ any (owns_bit d offset k) action_bases
unfolding owned_action_mask
bit-owned_action_mask d offset k = bit-first_mask d offset k action_bases refl

unfoldable pub has_maintenance : ℕ → ℕ → Bool
has_maintenance offset k =
    is_one_of offset action_bases && k == 25
    || offset == 0x418 && k / 8 == 1
    || offset == 0xc04 && k / 2 == 9

bit-maintenance_mask : (offset k : ℕ) → bit (maintenance_mask offset) k ≡ has_maintenance offset k
unfolding maintenance_mask has_maintenance
bit-maintenance_mask offset k =
    let one = bit_two_pow 25 k in
    let byte = bit_field 8 8 k in
    let pair = bit_field 2 18 k in
    let nothing = bit-zero k in
    elim (Bool-cases (is_one_of offset action_bases)) [
      | inl e ↦ ground arith
      | inr e ↦ ground arith
    ]

unfoldable pub owns_byte : Distributor → ℕ → ℕ → ℕ → Bool
owns_byte d offset k base =
    has_byte d.usb.interrupt offset base k || has_byte d.network.interrupt offset base k

bit-owned_byte_mask :
    (d : Distributor) (offset base k : ℕ)
    → bit (owned_byte_mask d offset base) k ≡ owns_byte d offset k base
unfolding owned_byte_mask owns_byte
bit-owned_byte_mask d offset base k =
    bit-bit_or k (byte_mask d.usb.interrupt offset base) (byte_mask d.network.interrupt offset base)
    ∙ ap₂ ◌||◌ (bit-byte_mask d.usb.interrupt offset base k)
        (bit-byte_mask d.network.interrupt offset base k)

unfoldable pub owns_pair : Distributor → ℕ → ℕ → Bool
owns_pair d offset k = has_pair d.usb.interrupt offset k || has_pair d.network.interrupt offset k

bit-owned_config_mask :
    (d : Distributor) (offset k : ℕ) → bit (owned_config_mask d offset) k ≡ owns_pair d offset k
unfolding owned_config_mask owns_pair
bit-owned_config_mask d offset k =
    bit-bit_or k (config_mask d.usb.interrupt offset) (config_mask d.network.interrupt offset)
    ∙ ap₂ ◌||◌ (bit-config_mask d.usb.interrupt offset k)
        (bit-config_mask d.network.interrupt offset k)

-- The bits that EL2 keeps: those of the maintenance interrupt, and each owned interrupt's in the
-- registers of a bit, in those of the priority and of the target, and in that of the trigger.
unfoldable pub is_kept : Distributor → ℕ → ℕ → Bool
is_kept d offset k =
    has_maintenance offset k
    || any (owns_bit d offset k) action_bases
    || owns_byte d offset k gicd_ipriorityr0
    || owns_byte d offset k gicd_itargetsr0
    || owns_pair d offset k

-- The mask of a register holds just the bits of the maintenance interrupt and of the interrupts
-- that EL2 owns.
pub bit-protected_mask :
    (d : Distributor) (offset k : ℕ) → bit (protected_mask d offset) k ≡ is_kept d offset k
unfolding protected_mask is_kept
bit-protected_mask d offset k =
    let maintenance = maintenance_mask offset in
    let action = owned_action_mask d offset in
    let priority = owned_byte_mask d offset gicd_ipriorityr0 in
    let target = owned_byte_mask d offset gicd_itargetsr0 in
    let config = owned_config_mask d offset in
    bit-bit_or k (bit_or (bit_or (bit_or maintenance action) priority) target) config
    ∙ ap₂ ◌||◌
        (bit-bit_or k (bit_or (bit_or maintenance action) priority) target
          ∙ ap₂ ◌||◌
              (bit-bit_or k (bit_or maintenance action) priority
                ∙ ap₂ ◌||◌
                    (bit-bit_or k maintenance action
                      ∙ ap₂ ◌||◌ (bit-maintenance_mask offset k) (bit-owned_action_mask d offset k))
                    (bit-owned_byte_mask d offset gicd_ipriorityr0 k))
              (bit-owned_byte_mask d offset gicd_itargetsr0 k))
        (bit-owned_config_mask d offset k)
    ∙ ground arith
