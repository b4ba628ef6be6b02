-- ===== src/Stage2/Identity.antt =====
-- The map that `build` makes: the identity, but for the resident region and the trapped pages.
use switchvisor.Base.{
  ℕ, ◌+◌, ◌*◌, ◌/◌, ◌%◌, ◌^◌, ◌<◌, ◌≤◌, ◌≡◌, ◌≢◌, refl, sym, ap, ◌∙◌, Bool, true, ◌&&◌, ◌||◌, ok,
  ◌==◌, if◌then◌else◌, [], ◌∷◌, bit_and, bit_or, none, some, arith, every_below, every_below_at,
  bit_or_three, bit_and_mask,
}
use mathlib.Core.Path.{subst}
use native.Mathlib.Decide.{ℕ_discrete}
use switchvisor.Memory.{ipa_limit, page_size, block_size, resident_base, resident_size}
use switchvisor.Stage2.Tables.{
  Table, Map, Addresses, gib, entries, root_block, root_table, split_table, mmio_table, pages_table,
  build, placed, resident_table, is_resident, mc_base, uart_base, virtio_base, split_index,
  mc_index, page_base, device, address_mask,
}
use switchvisor.Stage2.Walk.{Tables, output, walk_pages, walk_blocks, walk}

-- Memory as `build` is told that it is: each table at its address.
abbrev pub memory_of : Addresses → Map → Tables
memory_of a m address =
    if address == a.split_at
    then some m.split
    else if address == a.mmio_at
    then some m.mmio
    else if address == a.pages_at
    then some m.pages
    else none

-- A descriptor that maps the `size` bytes at `base` to themselves, with the low bits `kind`.
abbrev pub maps : ℕ → ℕ → ℕ → ℕ → Bool
maps kind descriptor size base =
    descriptor % 4 == kind && descriptor % ipa_limit / size == base / size

pub root_blocks : every_below 64 (λ k. maps 1 (root_block k) gib (k * gib)) ≡ true
unfolding every_below
root_blocks = refl

split_blocks :
    every_below 512 (λ k.
      let base = split_index * gib + k * block_size in
      if is_resident base then split_table k == 0 else maps 1 (split_table k) block_size base)
    ≡ true
unfolding every_below split_table
split_blocks = refl

pub mmio_blocks :
    every_below 512 (λ k.
      let base = mc_index * gib + k * block_size in maps 1 (bit_or base device) block_size base)
    ≡ true
unfolding every_below
mmio_blocks = refl

abbrev pub is_trapped : ℕ → Bool
is_trapped page = page == mc_base || page == uart_base || page == virtio_base

pub page_descriptors :
    every_below 512 (λ k.
      let base = page_base + k * page_size in
      if is_trapped base then pages_table k == 0 else maps 3 (pages_table k) page_size base)
    ≡ true
unfolding every_below pages_table
page_descriptors = refl

-- Level by level: what the walk makes of the entries that were checked above.
module _ (memory : Tables) (ipa : ℕ) where
  pub walk_split :
      ipa / gib ≡ split_index
      → walk_blocks memory split_table ipa ≡ (if is_resident ipa then none else some ipa)
  unfolding walk_blocks
  walk_split h =
      let fact = every_below_at 512 _ split_blocks (ipa / block_size % entries) (omega arith) in
      ground arith

  walk_last :
      ipa / block_size * block_size ≡ page_base
      → walk_pages pages_table ipa
        ≡ (if is_trapped (ipa / page_size * page_size) then none else some ipa)
  unfolding walk_pages
  walk_last h =
      let fact = every_below_at 512 _ page_descriptors (ipa / page_size % entries) (omega arith) in
      ground arith

  walk_mmio :
      (a : Addresses)
      → a.pages_at % page_size ≡ 0
      → a.pages_at < ipa_limit
      → memory a.pages_at ≡ some pages_table
      → ipa / gib ≡ mc_index
      → walk_blocks memory (mmio_table a) ipa
        ≡ (if is_trapped (ipa / page_size * page_size) then none else some ipa)
  unfolding walk_blocks mmio_table
  walk_mmio a aligned small here h =
      let fact = every_below_at 512 _ mmio_blocks (ipa / block_size % entries) (omega arith) in
      let three = bit_or_three a.pages_at (omega arith) in
      let same : output (a.pages_at + 3) page_size ≡ a.pages_at = omega arith in
      let found = ap memory same ∙ here in ground (arith, walk_last)

-- Where the four tables stand.
pub record Placed (a : Addresses) : Type 0 where
  pub root_ok : resident_table a.root_at ≡ true
  pub split_ok : resident_table a.split_at ≡ true
  pub mmio_ok : resident_table a.mmio_at ≡ true
  pub pages_ok : resident_table a.pages_at ≡ true
  pub mmio_apart : a.mmio_at ≢ a.split_at
  pub pages_apart : (a.pages_at ≢ a.split_at) × (a.pages_at ≢ a.mmio_at)

pub placed-Placed :
    (a : Addresses)
    → placed [] (a.root_at ∷ a.split_at ∷ a.mmio_at ∷ a.pages_at ∷ []) ≡ true
    → Placed a
unfolding placed
placed-Placed a h = ground arith

pub resident_table_bounds :
    (address : ℕ)
    → resident_table address ≡ true
    → (address % page_size ≡ 0)
      × (resident_base ≤ address)
      × (address + page_size ≤ resident_base + resident_size)
unfolding resident_table
resident_table_bounds address h = ground arith

-- The addresses that the guest cannot reach.
abbrev pub is_hidden : ℕ → Bool
is_hidden ipa = is_resident ipa || is_trapped (ipa / page_size * page_size)

abbrev pub built : Addresses → Map
built a = record {
  root = root_table a;
  split = split_table;
  mmio = mmio_table a;
  pages = pages_table;
}

-- A pointer to a table at an aligned address leads the walk into that table.
pub walk_pointer :
    (memory : Tables) (t next : Table) (at ipa : ℕ)
    → t (ipa / gib) ≡ at + 3
    → at % page_size ≡ 0
    → at < ipa_limit
    → memory at ≡ some next
    → walk memory t ipa ≡ walk_blocks memory next ipa
unfolding walk
walk_pointer memory t next at ipa e aligned small here =
    let same : output (at + 3) page_size ≡ at = omega arith in
    let found = ap memory same ∙ here in rw (e, walk) (ground arith)

-- The two pointers in the root.
pub root_split : (a : Addresses) → Placed a → root_table a split_index ≡ a.split_at + 3
unfolding root_table
root_split a p =
    let bounds = resident_table_bounds a.split_at p.split_ok in
    let whole : a.split_at / 2 ^ 12 * 2 ^ 12 ≡ a.split_at = omega arith in
    let masked = bit_and_mask 12 24 (a.split_at / 2 ^ 12) (omega arith) in
    ap (λ t. bit_or (bit_and t address_mask) 3) (sym whole)
    ∙ ap (λ t. bit_or t 3) (masked ∙ whole)
    ∙ bit_or_three a.split_at (omega arith)

pub root_mmio : (a : Addresses) → Placed a → root_table a mc_index ≡ a.mmio_at + 3
unfolding root_table
root_mmio a p =
    let bounds = resident_table_bounds a.mmio_at p.mmio_ok in bit_or_three a.mmio_at (omega arith)

pub root_other :
    (a : Addresses) (k : ℕ)
    → k < 64
    → k ≢ split_index
    → k ≢ mc_index
    → root_table a k ≡ root_block k
unfolding root_table
root_other a k lt p q = ground arith

module _ (a : Addresses) (ipa : ℕ) (p : Placed a) (small : ipa < ipa_limit) where
  walk_root_split :
      ipa / gib ≡ split_index
      → walk (memory_of a (built a)) (root_table a) ipa ≡ (if is_hidden ipa then none else some ipa)
  walk_root_split h =
      let bounds = resident_table_bounds a.split_at p.split_ok in
      walk_pointer (memory_of a (built a)) (root_table a) split_table a.split_at ipa
        (ap (root_table a) h ∙ root_split a p) bounds.0 (omega arith) (ground arith)
      ∙ walk_split (memory_of a (built a)) ipa h
      ∙ ground arith

  walk_root_mmio :
      ipa / gib ≡ mc_index
      → walk (memory_of a (built a)) (root_table a) ipa ≡ (if is_hidden ipa then none else some ipa)
  walk_root_mmio h =
      let bounds = resident_table_bounds a.mmio_at p.mmio_ok in
      let pages = resident_table_bounds a.pages_at p.pages_ok in
      walk_pointer (memory_of a (built a)) (root_table a) (mmio_table a) a.mmio_at ipa
        (ap (root_table a) h ∙ root_mmio a p) bounds.0 (omega arith) (ground (arith, p.mmio_apart))
      ∙ walk_mmio (memory_of a (built a)) ipa a pages.0 (omega arith)
          (ground (arith, p.pages_apart)) h
      ∙ ground arith

  walk_root_block :
      ipa / gib ≢ split_index
      → ipa / gib ≢ mc_index
      → walk (memory_of a (built a)) (root_table a) ipa ≡ (if is_hidden ipa then none else some ipa)
  unfolding walk
  walk_root_block h k =
      let fact = every_below_at 64 _ root_blocks (ipa / gib) (omega arith) in
      let entry = root_other a (ipa / gib) (omega arith) h k in ground arith

  walk-built :
      walk (memory_of a (built a)) (root_table a) ipa ≡ (if is_hidden ipa then none else some ipa)
  walk-built = elim (ℕ_discrete (ipa / gib) split_index) [
    | yes h ↦ walk_root_split h
    | no h ↦ elim (ℕ_discrete (ipa / gib) mc_index) [
      | yes k ↦ walk_root_mmio k
      | no k ↦ walk_root_block h k
    ]
  ]

pub build-built :
    (a : Addresses) {m : Map} {vttbr : ℕ}
    → build a ≡ ok (m, vttbr)
    → (placed [] (a.root_at ∷ a.split_at ∷ a.mmio_at ∷ a.pages_at ∷ []) ≡ true) × (built a ≡ m)
unfolding build
build-built a h = ground arith

-- Whenever `build` succeeds, the guest's view below 2^36 is the identity, except that it reaches
-- neither the resident region nor the three trapped pages.
pub walk-build :
    (a : Addresses) (ipa : ℕ) {m : Map} {vttbr : ℕ}
    → build a ≡ ok (m, vttbr)
    → ipa < ipa_limit
    → walk (memory_of a m) m.root ipa ≡ (if is_hidden ipa then none else some ipa)
walk-build a ipa {m} h small =
    let found = build-built a h in
    subst
      (λ (m : Map). walk (memory_of a m) m.root ipa ≡ (if is_hidden ipa then none else some ipa))
      found.1 (walk-built a ipa (placed-Placed a found.0) small)
