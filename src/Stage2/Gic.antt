-- ===== src/Stage2/Gic.antt =====
-- `protect_gic` of stage2.rs: the distributor is trapped, the guest's CPU interface is the virtual
-- one, and the registers of the hypervisor's part are taken out of the map.
pub mod Reach
mod Tests
use switchvisor.Base.{
  ℕ, ◌+◌, ◌-◌, ◌*◌, ◌/◌, ◌%◌, ◌^◌, Bool, true, false, ◌&&◌, ◌||◌, not, ltb, leb, Result, ok, err,
  ◌==◌, if◌then◌else◌, List, [], ◌∷◌, any, bit_or, checked_add, Option, none, some,
}
use switchvisor.Memory.{ipa_limit, page_size, block_size}
use switchvisor.Drivers.Gic.{Layout}
use switchvisor.Stage2.Tables.{
  Table, MapError, table_placement, gic_layout, put, placed, gib, mc_index, split_index, device,
}

-- `base..end`, within one block.
unfoldable pub page_range : ℕ → ℕ → Option (ℕ × ℕ)
page_range base size = elim (checked_add base size) [
  | none ↦ none
  | some end ↦
      if base % page_size == 0
        && not (size == 0)
        && size % page_size == 0
        && leb end ipa_limit
        && base / block_size == (end - 1) / block_size
      then some (base, end)
      else none
]

abbrev pub ranges_overlap : ℕ × ℕ → ℕ × ℕ → Bool
ranges_overlap a b = ltb a.0 b.1 && ltb b.0 a.1

-- The two loops over the ranges.
unfoldable pub any_overlap : List (ℕ × ℕ) → Bool
any_overlap [] = false
any_overlap (r ∷ rest) = any (ranges_overlap r) rest || any_overlap rest

abbrev pub block_of : ℕ → ℕ
block_of address = address / block_size * block_size

-- The ranges of the four windows, if the layout is accepted.
unfoldable pub windows : Layout → Result MapError (List (ℕ × ℕ))
windows l = elim (page_range l.distributor l.distributor_size) [
  | none ↦ err gic_layout
  | some d ↦ elim (page_range l.cpu l.cpu_size) [
    | none ↦ err gic_layout
    | some c ↦ elim (page_range l.hypervisor l.hypervisor_size) [
      | none ↦ err gic_layout
      | some h ↦ elim (page_range l.virtual_cpu l.virtual_cpu_size) [
        | none ↦ err gic_layout
        | some v ↦ ok (d ∷ c ∷ h ∷ v ∷ [])
      ]
    ]
  ]
]

-- The tests of the layout after the ranges.
unfoldable pub is_layout : Layout → List (ℕ × ℕ) → Bool
is_layout l ranges =
    leb l.cpu_size l.virtual_cpu_size
    && not (
        any (λ base. not (block_of base == block_of l.distributor))
          (l.cpu ∷ l.hypervisor ∷ l.virtual_cpu ∷ []))
    && not (any_overlap ranges)

abbrev pub gib_index : Layout → ℕ
gib_index l = block_of l.distributor / gib

abbrev pub block_index : Layout → ℕ
block_index l = block_of l.distributor % gib / block_size

abbrev pub is_in : ℕ → ℕ → ℕ → Bool
is_in base size address = leb base address && ltb address (base + size)

-- The pages of the block: the last of the loops that writes an entry decides.
unfoldable pub gic_pages : Layout → Table
gic_pages l i =
    let ipa = block_of l.distributor + i * page_size in
    if is_in l.hypervisor l.hypervisor_size ipa || is_in l.virtual_cpu l.virtual_cpu_size ipa
    then 0
    else if is_in l.cpu l.cpu_size ipa
    then bit_or (bit_or (l.virtual_cpu + (ipa - l.cpu)) device) 2
    else if is_in l.distributor l.distributor_size ipa
    then 0
    else bit_or (bit_or ipa device) 2

-- The blocks of the distributor's GiB, where it is not that of the memory controller.
unfoldable pub gic_blocks : Layout → ℕ → Table
gic_blocks l pages_at =
    put (λ i. bit_or (gib_index l * gib + i * block_size) device) (block_index l)
      (bit_or pages_at 3)

-- The tables that change: the root, that of MMIO, and the two new ones.
pub record Tables : Type 0 where
  pub root : Table
  pub mmio : Table
  pub l2 : Table
  pub pages : Table

unfoldable pub protected : Table → Table → ℕ → ℕ → Layout → Tables
protected root mmio l2_at pages_at l =
    if gib_index l == mc_index
    then (record {
      root = root;
      mmio = put mmio (block_index l) (bit_or pages_at 3);
      l2 = λ i. 0;
      pages = gic_pages l;
    })
    else (record {
      root = put root (gib_index l) (bit_or l2_at 3);
      mmio = mmio;
      l2 = gic_blocks l pages_at;
      pages = gic_pages l;
    })

unfoldable pub protect_gic : Table → Table → ℕ → ℕ → List ℕ → Layout → Result MapError Tables
protect_gic root mmio l2_at pages_at existing l =
    if not (placed existing (l2_at ∷ pages_at ∷ []))
    then err table_placement
    else elim (windows l) [
      | err e ↦ err e
      | ok ranges ↦
          if not (is_layout l ranges)
            || not (gib_index l == mc_index)
              && (gib_index l == split_index || not (root (gib_index l) % 4 == 1))
          then err gic_layout
          else ok (protected root mmio l2_at pages_at l)
    ]
