-- ===== src/El2Mmu.antt =====
-- crates/switchvisor/src/el2_mmu.rs: the tables by which EL2 maps its own addresses to themselves,
-- and the attributes of memory that they give.
pub mod Identity
mod Tests
use switchvisor.Base.{
  ℕ, ◌+◌, ◌-◌, ◌*◌, ◌/◌, ◌%◌, ◌^◌, Bool, true, false, ◌&&◌, ◌||◌, not, Result, ok, err, ltb, leb,
  ◌==◌, if◌then◌else◌, List, [], ◌∷◌, any, bit_or, checked_add, none, some,
}
use switchvisor.Memory.{ipa_limit, page_size, block_size, resident_base, resident_size}
use switchvisor.Stage2.Tables.{Table, MapError, table_placement, put, gib, ram_base, is_resident}

abbrev pub dma_base : ℕ
dma_base = resident_base + block_size

abbrev pub dma_end : ℕ
dma_end = dma_base + block_size

abbrev pub normal : ℕ
normal = 2 ^ 2 + 3 * 2 ^ 8 + 2 ^ 10 + 1

abbrev pub cached : ℕ
cached = 2 * 2 ^ 2 + 3 * 2 ^ 8 + 2 ^ 10 + 1

abbrev pub device : ℕ
device = 2 ^ 54 + 2 ^ 10 + 1

-- An aligned page of the resident region that is not in the block for DMA.
unfoldable pub is_place : ℕ → Bool
is_place address =
    leb resident_base address && address % page_size == 0 && elim (checked_add address page_size) [
      | none ↦ false
      | some end ↦
          leb end (resident_base + resident_size) && not (ltb address dma_end && ltb dma_base end)
    ]

-- `RESIDENT_BASE & !(GIB - 1)`, and its index.
abbrev pub split_base : ℕ
split_base = resident_base / gib * gib

abbrev pub split_index : ℕ
split_index = resident_base / gib

unfoldable pub block_attributes : ℕ → ℕ
block_attributes address =
    if address == dma_base then normal + 2 ^ 54 else if is_resident address then cached else normal

unfoldable pub el2_split : Table
el2_split i = let address = split_base + i * block_size in bit_or address (block_attributes address)

abbrev pub el2_block : ℕ → ℕ
el2_block i = let base = i * gib in bit_or base (if ltb base ram_base then device else normal)

unfoldable pub el2_root : ℕ → Table
el2_root split_at =
    put (λ i. if ltb i (ipa_limit / gib) then el2_block i else 0) split_index (bit_or split_at 3)

-- The two tables, the root first, for their two addresses.
unfoldable pub build : ℕ → ℕ → Result MapError (Table × Table)
build root_at split_at =
    if is_place root_at && is_place split_at && not (split_at == root_at)
    then ok (el2_root split_at, el2_split)
    else err table_placement
