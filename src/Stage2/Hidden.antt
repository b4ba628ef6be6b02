-- ===== src/Stage2/Hidden.antt =====
-- The map after `build` and `protect_usb`: what the guest can still reach.
use switchvisor.Base.{
  ℕ, ◌+◌, ◌*◌, ◌/◌, ◌%◌, ◌<◌, ◌≡◌, ◌≢◌, refl, sym, ap, ◌∙◌, Bool, true, false, ◌||◌, ok, ◌==◌,
  if◌then◌else◌, List, ◌∷◌, none, some, arith, every_below, every_below_at, bit_or_three,
  ℕ_discrete,
}
use mathlib.Core.Path.{subst, subst₂}
use switchvisor.Memory.{ipa_limit, page_size, block_size}
use switchvisor.Vdev.Ownership.{controller, pmc_page, car, lic}
use switchvisor.Stage2.Tables.{
  Table, Map, Addresses, gib, entries, root_table, split_table, mmio_table, pages_table, build,
  resident_table, is_resident, split_index, mc_index, mc_base, page_base,
}
use switchvisor.Stage2.Walk.{Tables, output, walk_pages, walk_blocks, walk}
use switchvisor.Stage2.Usb.{
  usb_pages, usb_mmio, car_table, car_base, car_index, legacy_index, protect_usb,
}
use switchvisor.Stage2.Identity.{
  maps, is_trapped, memory_of, built, mmio_blocks, Placed, placed-Placed, resident_table_bounds,
  walk_pointer, root_split, root_mmio, root_other, root_blocks, walk_split, build-built,
}

-- A page that EL2 keeps for its USB device.
abbrev pub is_usb : ℕ → Bool
is_usb page = controller page || page == pmc_page || page == car || page == lic

usb_page_descriptors :
    every_below 512 (λ k.
      let base = page_base + k * page_size in
      if is_usb base || is_trapped base
      then usb_pages pages_table k == 0
      else maps 3 (usb_pages pages_table k) page_size base)
    ≡ true
unfolding every_below usb_pages pages_table controller
usb_page_descriptors = refl

car_descriptors :
    every_below 512 (λ k.
      let base = car_base + k * page_size in
      if is_usb base || is_trapped base
      then car_table k == 0
      else maps 3 (car_table k) page_size base)
    ≡ true
unfolding every_below car_table controller
car_descriptors = refl

-- Neither for USB nor trapped.
abbrev pub is_kept : ℕ → Bool
is_kept ipa = is_usb (ipa / page_size * page_size) || is_trapped (ipa / page_size * page_size)

kept_legacy : (ipa : ℕ) → ipa / block_size ≡ 0x7d00_0000 / block_size → is_kept ipa ≡ true
unfolding controller
kept_legacy ipa h = ground arith

-- A block without a page table of its own holds no such page.
pub kept_elsewhere :
    (ipa : ℕ)
    → ipa / gib ≡ mc_index
    → ipa / block_size % entries ≢ car_index
    → ipa / block_size % entries ≢ mc_base % gib / block_size
    → ipa / block_size % entries ≢ legacy_index
    → is_kept ipa ≡ false
unfolding controller
kept_elsewhere ipa h p q r = ground arith

-- A pointer in a table of blocks leads the walk into a table of pages.
pub block_pointer :
    (memory : Tables) (t next : Table) (at ipa : ℕ)
    → t (ipa / block_size % entries) ≡ at + 3
    → at % page_size ≡ 0
    → at < ipa_limit
    → memory at ≡ some next
    → walk_blocks memory t ipa ≡ walk_pages next ipa
unfolding walk_blocks
block_pointer memory t next at ipa e aligned small here =
    let same : output (at + 3) page_size ≡ at = omega arith in
    let found = ap memory same ∙ here in rw (e, walk_blocks) (ground arith)

usb_mmio_car :
    (a : Addresses) (address : ℕ)
    → address % page_size ≡ 0
    → usb_mmio (mmio_table a) address car_index ≡ address + 3
unfolding usb_mmio
usb_mmio_car a address h = bit_or_three address (omega arith)

usb_mmio_pages :
    (a : Addresses) (address : ℕ)
    → a.pages_at % page_size ≡ 0
    → usb_mmio (mmio_table a) address (mc_base % gib / block_size) ≡ a.pages_at + 3
unfolding usb_mmio mmio_table
usb_mmio_pages a address h = bit_or_three a.pages_at (omega arith)

module _ (memory : Tables) (ipa : ℕ) where
  walk_usb_page :
      ipa / block_size * block_size ≡ page_base
      → walk_pages (usb_pages pages_table) ipa ≡ (if is_kept ipa then none else some ipa)
  unfolding walk_pages
  walk_usb_page h =
      let fact =
        every_below_at 512 _ usb_page_descriptors (ipa / page_size % entries) (omega arith) in
      ground arith

  walk_car_page :
      ipa / block_size * block_size ≡ car_base
      → walk_pages car_table ipa ≡ (if is_kept ipa then none else some ipa)
  unfolding walk_pages
  walk_car_page h =
      let fact = every_below_at 512 _ car_descriptors (ipa / page_size % entries) (omega arith) in
      ground arith

  walk_usb_block :
      (a : Addresses) (address : ℕ)
      → ipa / gib ≡ mc_index
      → ipa / block_size % entries ≢ car_index
      → ipa / block_size % entries ≢ mc_base % gib / block_size
      → walk_blocks memory (usb_mmio (mmio_table a) address) ipa
        ≡ (if is_kept ipa then none else some ipa)
  unfolding walk_blocks usb_mmio mmio_table
  walk_usb_block a address h p q = elim (ℕ_discrete (ipa / block_size % entries) legacy_index) [
    | yes e ↦ rw (kept_legacy ipa (omega arith)) (ground arith)
    | no ne ↦
        let fact = every_below_at 512 _ mmio_blocks (ipa / block_size % entries) (omega arith) in
        rw (kept_elsewhere ipa h p q ne) (ground arith)
  ]

  pub walk_usb_mmio :
      (a : Addresses) (address : ℕ)
      → a.pages_at % page_size ≡ 0
      → a.pages_at < ipa_limit
      → address % page_size ≡ 0
      → address < ipa_limit
      → memory a.pages_at ≡ some (usb_pages pages_table)
      → memory address ≡ some car_table
      → ipa / gib ≡ mc_index
      → walk_blocks memory (usb_mmio (mmio_table a) address) ipa
        ≡ (if is_kept ipa then none else some ipa)
  walk_usb_mmio a address pa ps aligned small pages_here car_here h =
      elim (ℕ_discrete (ipa / block_size % entries) car_index) [
        | yes e ↦
            block_pointer memory (usb_mmio (mmio_table a) address) car_table address ipa
              (ap (usb_mmio (mmio_table a) address) e ∙ usb_mmio_car a address aligned) aligned
              small car_here
            ∙ walk_car_page (omega arith)
        | no ne ↦ elim (ℕ_discrete (ipa / block_size % entries) (mc_base % gib / block_size)) [
          | yes e ↦
              block_pointer memory (usb_mmio (mmio_table a) address) (usb_pages pages_table)
                a.pages_at ipa
                (ap (usb_mmio (mmio_table a) address) e ∙ usb_mmio_pages a address pa) pa ps
                pages_here
              ∙ walk_usb_page (omega arith)
          | no ne' ↦ walk_usb_block a address h ne ne'
        ]
      ]

-- Memory after both: the map's tables, the rewritten ones in their places, and the new one.
abbrev pub usb_memory_of : Addresses → Map → Table × Table × Table → ℕ → Tables
usb_memory_of a m (mmio, pages, car_pages) address at =
    if at == address
    then some car_pages
    else memory_of a (record m { mmio = mmio; pages = pages }) at

-- The addresses that are in use: those of the four tables, and `more`.
abbrev pub in_use : Addresses → List ℕ → List ℕ
in_use a more = a.root_at ∷ a.split_at ∷ a.mmio_at ∷ a.pages_at ∷ more

abbrev pub usb_tables : Addresses → ℕ → Table × Table × Table
usb_tables a address = (usb_mmio (mmio_table a) address, usb_pages pages_table, car_table)

pub record Apart (a : Addresses) (address : ℕ) : Type 0 where
  pub table_ok : resident_table address ≡ true
  pub from_split : address ≢ a.split_at
  pub from_mmio : address ≢ a.mmio_at
  pub from_pages : address ≢ a.pages_at

pub protect_usb-Apart :
    (a : Addresses) (address : ℕ) (more : List ℕ) {out : Table × Table × Table}
    → protect_usb (mmio_table a) pages_table address (in_use a more) ≡ ok out
    → Apart a address × (usb_tables a address ≡ out)
unfolding protect_usb
protect_usb-Apart a address more h = ground arith

module _ (a : Addresses) (address ipa : ℕ) (p : Placed a) (q : Apart a address)
    (small : ipa < ipa_limit) where
  abbrev Reached : Type 0
  Reached =
      walk (usb_memory_of a (built a) (usb_tables a address) address) (root_table a) ipa
      ≡ (if is_resident ipa || is_kept ipa then none else some ipa)

  reach_split : ipa / gib ≡ split_index → Reached
  unfolding controller
  reach_split h =
      let bounds = resident_table_bounds a.split_at p.split_ok in
      walk_pointer _ (root_table a) split_table a.split_at ipa
        (ap (root_table a) h ∙ root_split a p) bounds.0 (omega arith) (ground (arith, q.from_split))
      ∙ walk_split _ ipa h
      ∙ ground arith

  reach_mmio : ipa / gib ≡ mc_index → Reached
  reach_mmio h =
      let bounds = resident_table_bounds a.mmio_at p.mmio_ok in
      let pages = resident_table_bounds a.pages_at p.pages_ok in
      let car_bounds = resident_table_bounds address q.table_ok in
      walk_pointer _ (root_table a) (usb_mmio (mmio_table a) address) a.mmio_at ipa
        (ap (root_table a) h ∙ root_mmio a p) bounds.0 (omega arith)
        (ground (arith, p.mmio_apart, q.from_mmio))
      ∙ walk_usb_mmio _ ipa a address pages.0 (omega arith) car_bounds.0 (omega arith)
          (ground (arith, p.pages_apart, q.from_pages)) (ground arith) h
      ∙ ground arith

  reach_block : ipa / gib ≢ split_index → ipa / gib ≢ mc_index → Reached
  unfolding walk controller
  reach_block h k =
      let fact = every_below_at 64 _ root_blocks (ipa / gib) (omega arith) in
      let entry = root_other a (ipa / gib) (omega arith) h k in ground arith

  reach_built : Reached
  reach_built = elim (ℕ_discrete (ipa / gib) split_index) [
    | yes h ↦ reach_split h
    | no h ↦ elim (ℕ_discrete (ipa / gib) mc_index) [
      | yes k ↦ reach_mmio k
      | no k ↦ reach_block h k
    ]
  ]

-- After `build` and `protect_usb` the guest's view below 2^36 is the identity, except that it
-- reaches neither the resident region, nor the trapped pages, nor any page of the USB
-- controllers, of the clock controller, of the interrupt controller or of the power controller.
pub walk-protect_usb :
    (a : Addresses) (address ipa : ℕ) (more : List ℕ) {m : Map} {vttbr : ℕ}
    {out : Table × Table × Table}
    → build a ≡ ok (m, vttbr)
    → protect_usb m.mmio m.pages address (in_use a more) ≡ ok out
    → ipa < ipa_limit
    → walk (usb_memory_of a m out address) m.root ipa
      ≡ (if is_resident ipa || is_kept ipa then none else some ipa)
walk-protect_usb a address ipa more {m} {vttbr} {out} b u small =
    let found = build-built a b in
    let u' : protect_usb (mmio_table a) pages_table address (in_use a more) ≡ ok out =
      subst (λ (m : Map). protect_usb m.mmio m.pages address (in_use a more) ≡ ok out) (sym found.1)
        u in
    let apart = protect_usb-Apart a address more u' in
    subst₂
      (λ (m : Map) (out : Table × Table × Table).
        walk (usb_memory_of a m out address) m.root ipa
        ≡ (if is_resident ipa || is_kept ipa then none else some ipa))
      found.1 apart.1 (reach_built a address ipa (placed-Placed a found.0) apart.0 small)
