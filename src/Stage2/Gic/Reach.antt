-- ===== src/Stage2/Gic/Reach.antt =====
-- The guest's view of the board's interrupt controller, after `build`, `protect_usb` and
-- `protect_gic`.
use switchvisor.Base.{
  ℕ, ◌+◌, ◌-◌, ◌*◌, ◌/◌, ◌%◌, ◌<◌, ◌≡◌, ◌≢◌, refl, sym, ap, ◌∙◌, Bool, true, false, ◌||◌, ok, ◌==◌,
  if◌then◌else◌, List, [], ◌∷◌, none, some, arith, every_below, every_below_at, bit_or,
  bit_or_three, ℕ_discrete,
}
use mathlib.Core.Path.{subst, subst₂}
use switchvisor.Memory.{ipa_limit, page_size, block_size}
use switchvisor.Vdev.Ownership.{controller}
use switchvisor.Drivers.Gic.{tegra210}
use switchvisor.Stage2.Tables.{
  Table, Map, Addresses, gib, entries, root_table, split_table, mmio_table, pages_table, build,
  resident_table, is_resident, split_index, mc_index, placed, put,
}
use switchvisor.Stage2.Walk.{walk_pages, walk_blocks, walk}
use switchvisor.Stage2.Walk
use switchvisor.Stage2.Usb.{usb_pages, usb_mmio, car_table, protect_usb}
use switchvisor.Stage2.Identity.{
  maps, built, Placed, placed-Placed, resident_table_bounds, walk_pointer, root_split, root_mmio,
  root_other, root_blocks, walk_split, build-built,
}
use switchvisor.Stage2.Hidden.{
  is_kept, kept_elsewhere, block_pointer, walk_usb_mmio, usb_memory_of, in_use, usb_tables, Apart,
  protect_usb-Apart,
}
use switchvisor.Stage2.Gic
use switchvisor.Stage2.Gic.{
  gic_pages, protected, protect_gic, windows, page_range, is_layout, any_overlap, is_in,
}

-- A page of the distributor, or of the hypervisor's part or the virtual one.
abbrev pub is_gic : ℕ → Bool
is_gic ipa =
    is_in tegra210.distributor tegra210.distributor_size ipa
    || is_in tegra210.hypervisor tegra210.hypervisor_size ipa
    || is_in tegra210.virtual_cpu tegra210.virtual_cpu_size ipa

-- Where an address leads: that of the CPU interface to the virtual one.
abbrev pub redirected : ℕ → ℕ
redirected ipa =
    if is_in tegra210.cpu tegra210.cpu_size ipa
    then tegra210.virtual_cpu + (ipa - tegra210.cpu)
    else ipa

abbrev gic_index : ℕ
gic_index = 128

abbrev gic_base : ℕ
gic_base = 0x5000_0000

gic_descriptors :
    every_below 512 (λ k.
      let base = gic_base + k * page_size in
      if is_gic base
      then gic_pages tegra210 k == 0
      else maps 3 (gic_pages tegra210 k) page_size (redirected base))
    ≡ true
unfolding every_below gic_pages
gic_descriptors = refl

module _ (memory : Walk.Tables) (ipa : ℕ) where
  walk_gic_page :
      ipa / block_size * block_size ≡ gic_base
      → walk_pages (gic_pages tegra210) ipa ≡ (if is_gic ipa then none else some (redirected ipa))
  unfolding walk_pages
  walk_gic_page h =
      let fact = every_below_at 512 _ gic_descriptors (ipa / page_size % entries) (omega arith) in
      ground arith

  -- A block other than the changed one is reached as before.
  walk_put :
      (t : Table) (v : ℕ)
      → ipa / block_size % entries ≢ gic_index
      → walk_blocks memory (put t gic_index v) ipa ≡ walk_blocks memory t ipa
  unfolding walk_blocks
  walk_put t v ne =
      let same : put t gic_index v (ipa / block_size % entries) ≡ t (ipa / block_size % entries) =
        ground arith in
      rw same refl

-- The USB pages are not in the block of the interrupt controller.
kept_gic : (ipa : ℕ) → ipa / block_size ≡ gic_base / block_size → is_kept ipa ≡ false
kept_gic ipa h =
    kept_elsewhere ipa (omega arith) (λ e. omega arith) (λ e. omega arith) (λ e. omega arith)

gic_elsewhere : (ipa : ℕ) → ipa / block_size ≢ gic_base / block_size → is_gic ipa ≡ false
gic_elsewhere ipa ne = ground arith

redirected_elsewhere : (ipa : ℕ) → ipa / block_size ≢ gic_base / block_size → redirected ipa ≡ ipa
redirected_elsewhere ipa ne = ground arith

record GicApart (a : Addresses) (address l2 pages : ℕ) : Type 0 where
  pages_ok : resident_table pages ≡ true
  l2_ok : resident_table l2 ≡ true
  from_split : (pages ≢ a.split_at) × (l2 ≢ a.split_at)
  from_mmio : (pages ≢ a.mmio_at) × (l2 ≢ a.mmio_at)
  from_pages : (pages ≢ a.pages_at) × (l2 ≢ a.pages_at)
  from_usb : (pages ≢ address) × (l2 ≢ address)
  from_each : pages ≢ l2

placed-GicApart :
    (a : Addresses) (address l2 pages : ℕ) (more : List ℕ)
    → placed (in_use a (address ∷ more)) (l2 ∷ pages ∷ []) ≡ true
    → GicApart a address l2 pages
unfolding placed
placed-GicApart a address l2 pages more h = record {
  pages_ok = ground arith;
  l2_ok = ground arith;
  from_split = (λ e. ground arith, λ e. ground arith);
  from_mmio = (λ e. ground arith, λ e. ground arith);
  from_pages = (λ e. ground arith, λ e. ground arith);
  from_usb = (λ e. ground arith, λ e. ground arith);
  from_each = λ e. ground arith;
}

abbrev pub gic_tables : Addresses → ℕ → ℕ → ℕ → Gic.Tables
gic_tables a address l2 pages =
    protected (root_table a) (usb_mmio (mmio_table a) address) l2 pages tegra210

protect_gic-GicApart :
    (a : Addresses) (address l2 pages : ℕ) (more : List ℕ) {out : Gic.Tables}
    → protect_gic
        (root_table a)
        (usb_mmio (mmio_table a) address)
        l2
        pages
        (in_use a (address ∷ more))
        tegra210
      ≡ ok out
    → GicApart a address l2 pages × (gic_tables a address l2 pages ≡ out)
unfolding protect_gic windows page_range is_layout any_overlap
protect_gic-GicApart a address l2 pages more h =
    (placed-GicApart a address l2 pages more (ground arith), ground arith)

-- Memory after all three: the new tables of the interrupt controller, and the tables before.
abbrev pub gic_memory_of :
    Addresses → Map → Table × Table × Table → ℕ → Gic.Tables → ℕ → ℕ → Walk.Tables
gic_memory_of a m (mmio, usb, car_pages) address g l2 pages at =
    if at == pages
    then some g.pages
    else if at == l2
    then some g.l2
    else usb_memory_of a m (g.mmio, usb, car_pages) address at

module _ (a : Addresses) (address l2 pages ipa : ℕ) (p : Placed a) (q : Apart a address)
    (r : GicApart a address l2 pages) (small : ipa < ipa_limit) where
  abbrev mmio_after : Table
  mmio_after = put (usb_mmio (mmio_table a) address) gic_index (bit_or pages 3)

  abbrev memory_after : Walk.Tables
  memory_after =
      gic_memory_of a (built a) (usb_tables a address) address (gic_tables a address l2 pages) l2
        pages

  abbrev Reached : Type 0
  Reached =
      walk memory_after (root_table a) ipa
      ≡ (if is_resident ipa || is_kept ipa || is_gic ipa then none else some (redirected ipa))

  -- What the memory holds at the addresses of the tables.
  at_gic : memory_after pages ≡ some (gic_pages tegra210)
  unfolding protected
  at_gic = ground arith

  at_mmio : memory_after a.mmio_at ≡ some mmio_after
  unfolding protected
  at_mmio = ground (arith, r.from_mmio, q.from_mmio, p.mmio_apart)

  at_pages : memory_after a.pages_at ≡ some (usb_pages pages_table)
  unfolding protected
  at_pages = ground (arith, r.from_pages, q.from_pages, p.pages_apart)

  at_car : memory_after address ≡ some car_table
  unfolding protected
  at_car = ground (arith, r.from_usb)

  at_split : memory_after a.split_at ≡ some split_table
  unfolding protected
  at_split = ground (arith, r.from_split, q.from_split)

  reach_mmio : ipa / gib ≡ mc_index → Reached
  reach_mmio h =
      let bounds = resident_table_bounds a.mmio_at p.mmio_ok in
      let usb = resident_table_bounds a.pages_at p.pages_ok in
      let car_bounds = resident_table_bounds address q.table_ok in
      let gic_bounds = resident_table_bounds pages r.pages_ok in
      walk_pointer memory_after (root_table a) mmio_after a.mmio_at ipa
        (ap (root_table a) h ∙ root_mmio a p) bounds.0 (omega arith) at_mmio
      ∙ elim (ℕ_discrete (ipa / block_size % entries) gic_index) [
        | yes e ↦
            (let kept = kept_gic ipa (omega arith) in
              block_pointer memory_after mmio_after (gic_pages tegra210) pages ipa
                (ap mmio_after e ∙ bit_or_three pages (omega arith)) gic_bounds.0 (omega arith)
                at_gic
              ∙ walk_gic_page memory_after ipa (omega arith)
              ∙ ground arith)
        | no ne ↦
            (let other = gic_elsewhere ipa (λ f. omega arith) in
              let direct = redirected_elsewhere ipa (λ f. omega arith) in
              walk_put memory_after ipa (usb_mmio (mmio_table a) address) (bit_or pages 3) ne
              ∙ walk_usb_mmio memory_after ipa a address usb.0 (omega arith) car_bounds.0
                  (omega arith) at_pages at_car h
              ∙ ground arith)
      ]

  reach_split : ipa / gib ≡ split_index → Reached
  unfolding controller
  reach_split h =
      let bounds = resident_table_bounds a.split_at p.split_ok in
      let other = gic_elsewhere ipa (λ f. omega arith) in
      let direct = redirected_elsewhere ipa (λ f. omega arith) in
      walk_pointer memory_after (root_table a) split_table a.split_at ipa
        (ap (root_table a) h ∙ root_split a p) bounds.0 (omega arith) at_split
      ∙ walk_split memory_after ipa h
      ∙ ground arith

  reach_block : ipa / gib ≢ split_index → ipa / gib ≢ mc_index → Reached
  unfolding walk controller
  reach_block h k =
      let fact = every_below_at 64 _ root_blocks (ipa / gib) (omega arith) in
      let entry = root_other a (ipa / gib) (omega arith) h k in
      let other = gic_elsewhere ipa (λ f. k (omega arith)) in
      let direct = redirected_elsewhere ipa (λ f. k (omega arith)) in ground arith

  reach_all : Reached
  reach_all = elim (ℕ_discrete (ipa / gib) split_index) [
    | yes h ↦ reach_split h
    | no h ↦ elim (ℕ_discrete (ipa / gib) mc_index) [
      | yes k ↦ reach_mmio k
      | no k ↦ reach_block h k
    ]
  ]

-- After all of `build`, `protect_usb` and, on the board's layout, `protect_gic`, the guest's view
-- below 2^36 is the identity with one exception: the pages of its CPU interface lead to the virtual
-- one. It reaches no resident page, no page that EL2 keeps for USB or traps, and neither the
-- distributor nor the hypervisor's and the virtual CPU's windows.
pub walk-protect_gic :
    (a : Addresses) (address l2 pages ipa : ℕ) (more more' : List ℕ) {m : Map} {vttbr : ℕ}
    {out : Table × Table × Table} {g : Gic.Tables}
    → build a ≡ ok (m, vttbr)
    → protect_usb m.mmio m.pages address (in_use a more) ≡ ok out
    → protect_gic m.root out.0 l2 pages (in_use a (address ∷ more')) tegra210 ≡ ok g
    → ipa < ipa_limit
    → walk (gic_memory_of a m out address g l2 pages) g.root ipa
      ≡ (if is_resident ipa || is_kept ipa || is_gic ipa then none else some (redirected ipa))
unfolding protected
walk-protect_gic a address l2 pages ipa more more' {m} {vttbr} {out} {g} b u w small =
    let found = build-built a b in
    let u' : protect_usb (mmio_table a) pages_table address (in_use a more) ≡ ok out =
      subst (λ (m : Map). protect_usb m.mmio m.pages address (in_use a more) ≡ ok out) (sym found.1)
        u in
    let usb = protect_usb-Apart a address more u' in
    let w' : protect_gic (root_table a) (usb_mmio (mmio_table a) address) l2 pages
          (in_use a (address ∷ more')) tegra210
        ≡ ok g =
      subst₂
        (λ (m : Map) (out : Table × Table × Table).
          protect_gic m.root out.0 l2 pages (in_use a (address ∷ more')) tegra210 ≡ ok g)
        (sym found.1) (sym usb.1) w in
    let gic = protect_gic-GicApart a address l2 pages more' w' in
    subst
      (λ (g : Gic.Tables).
        walk (gic_memory_of a m out address g l2 pages) g.root ipa
        ≡ (if is_resident ipa || is_kept ipa || is_gic ipa then none else some (redirected ipa)))
      gic.1
      (subst₂
        (λ (m : Map) (out : Table × Table × Table).
          walk (gic_memory_of a m out address (gic_tables a address l2 pages) l2 pages)
            (root_table a) ipa
          ≡ (if is_resident ipa || is_kept ipa || is_gic ipa then none else some (redirected ipa)))
        found.1 usb.1
        (reach_all a address l2 pages ipa (placed-Placed a found.0) usb.0 gic.0 small))
