-- ===== src/El2Mmu/Identity.antt =====
-- What the tables of EL2 map, and with which attributes.
use switchvisor.Base.{
  ℕ, ◌+◌, ◌*◌, ◌/◌, ◌%◌, ◌^◌, ◌<◌, ◌≡◌, ◌≢◌, refl, sym, ap, ◌∙◌, Bool, true, ◌&&◌, ◌||◌, not, ok,
  ltb, leb, ◌==◌, if◌then◌else◌, bit_or_three, Option, none, some, arith, every_below,
  every_below_at, ℕ_discrete,
}
use mathlib.Core.Path.{subst₂}
use switchvisor.Memory.{ipa_limit, page_size, block_size}
use switchvisor.Stage2.Tables.{Table, gib, entries, ram_base, is_resident}
use switchvisor.Stage2.Walk.{output}
use switchvisor.El2Mmu.{
  dma_base, dma_end, is_place, split_base, split_index, el2_split, el2_block, el2_root,
  block_attributes, build,
}

-- What a walk finds for an address.
pub record Translation : Type 0 where
  pub address : ℕ
  pub attributes : ℕ
  pub execute_never : Bool

-- A descriptor of `size` bytes; its bits 2 to 4 select the attributes, and bit 54 forbids execution.
abbrev pub found : ℕ → ℕ → ℕ → Translation
found descriptor size address = record {
  address = output descriptor size + address % size;
  attributes = descriptor / 2 ^ 2 % 2 ^ 3;
  execute_never = descriptor / 2 ^ 54 % 2 == 1;
}

-- The walk of 4 KiB granules and 36 bits, where `split` stands at `split_at`.
unfoldable pub translate : Table → Table → ℕ → ℕ → Option Translation
translate root split split_at address =
    let descriptor = root (address / gib) in
    if descriptor % 4 == 1
    then some (found descriptor gib address)
    else if descriptor % 4 == 3 && output descriptor page_size == split_at
    then (let block = split (address / block_size % entries) in
        if block % 4 == 1 then some (found block block_size address) else none)
    else none

-- Devices below RAM; in RAM, what is cached is the resident region but for its block for DMA.
abbrev pub device_kind : ℕ
device_kind = 0

abbrev pub uncached_kind : ℕ
uncached_kind = 1

abbrev pub cached_kind : ℕ
cached_kind = 2

abbrev pub in_dma : ℕ → Bool
in_dma address = leb dma_base address && ltb address dma_end

abbrev pub kind_of : ℕ → ℕ
kind_of address =
    if ltb address ram_base
    then device_kind
    else if is_resident address && not (in_dma address)
    then cached_kind
    else uncached_kind

abbrev pub expected : ℕ → Translation
expected address = record {
  address = address;
  attributes = kind_of address;
  execute_never = ltb address ram_base || in_dma address;
}

-- The descriptor maps the `size` bytes at `base` to themselves, as is expected there.
abbrev as_expected : ℕ → ℕ → ℕ → Bool
as_expected descriptor size base =
    descriptor % 4 == 1
    && output descriptor size == base
    && descriptor / 2 ^ 2 % 2 ^ 3 == kind_of base
    && (if ltb base ram_base || in_dma base
        then descriptor / 2 ^ 54 % 2 == 1
        else descriptor / 2 ^ 54 % 2 == 0)

blocks_of_split :
    every_below 512 (λ k. as_expected (el2_split k) block_size (split_base + k * block_size)) ≡ true
unfolding every_below el2_split block_attributes
blocks_of_split = refl

blocks_of_root :
    every_below 64 (λ k. k == split_index || as_expected (el2_block k) gib (k * gib)) ≡ true
unfolding every_below
blocks_of_root = refl

is_place_bounds :
    (address : ℕ) → is_place address ≡ true → (address % page_size ≡ 0) × (address < ipa_limit)
unfolding is_place
is_place_bounds address h = ground arith

found_block :
    (d address : ℕ)
    → as_expected d block_size (address / block_size * block_size) ≡ true
    → (d % 4 ≡ 1) × (found d block_size address ≡ expected address)
found_block d address h = ground arith

found-gib :
    (d address : ℕ)
    → as_expected d gib (address / gib * gib) ≡ true
    → address / gib ≢ split_index
    → (d % 4 ≡ 1) × (found d gib address ≡ expected address)
found-gib d address h k = ground arith

build-ok :
    (root_at split_at : ℕ) {root split : Table}
    → build root_at split_at ≡ ok (root, split)
    → (is_place split_at ≡ true) × (el2_root split_at ≡ root) × (el2_split ≡ split)
unfolding build
build-ok root_at split_at h = ground arith

root_split : (split_at : ℕ) → split_at % 4 ≡ 0 → el2_root split_at split_index ≡ split_at + 3
unfolding el2_root
root_split split_at h = bit_or_three split_at h

root_block_at : (split_at k : ℕ) → k < 64 → k ≢ split_index → el2_root split_at k ≡ el2_block k
unfolding el2_root
root_block_at split_at k lt ne = ground arith

translate_leaf :
    (root split : Table) (split_at address d : ℕ)
    → root (address / gib) ≡ d
    → d % 4 ≡ 1
    → translate root split split_at address ≡ some (found d gib address)
unfolding translate
translate_leaf root split split_at address d e h = rw (e, h) refl

translate_pointer :
    (root split : Table) (split_at address d : ℕ)
    → root (address / gib) ≡ split_at + 3
    → split_at % page_size ≡ 0
    → split_at < ipa_limit
    → split (address / block_size % entries) ≡ d
    → d % 4 ≡ 1
    → translate root split split_at address ≡ some (found d block_size address)
unfolding translate
translate_pointer root split split_at address d e aligned small f h =
    let four : (split_at + 3) % 4 ≡ 3 = omega arith in
    let here : output (split_at + 3) page_size ≡ split_at = omega arith in
    rw (e, four, here, f, h) (ground arith)

-- EL2's map below 2^36 is the identity; what is below RAM is device memory, the resident region is
-- cached but for its block for DMA, other RAM is not, and neither devices nor the block for DMA
-- can be executed.
pub translate-build :
    (root_at split_at address : ℕ) {root split : Table}
    → build root_at split_at ≡ ok (root, split)
    → address < ipa_limit
    → translate root split split_at address ≡ some (expected address)
translate-build root_at split_at address {root} {split} h small =
    let (place, same_root, same_split) = build-ok root_at split_at h in
    subst₂ (λ r s. translate r s split_at address ≡ some (expected address)) same_root same_split
      (elim (ℕ_discrete (address / gib) split_index) [
        | yes e ↦
            let bounds = is_place_bounds split_at place in
            let fact =
              every_below_at 512 _ blocks_of_split (address / block_size % entries) (omega arith) in
            let base : split_base + address / block_size % entries * block_size
                ≡ address / block_size * block_size =
              omega arith in
            let there = found_block (el2_split (address / block_size % entries)) address (
              ap (as_expected (el2_split (address / block_size % entries)) block_size) (sym base)
              ∙ fact) in
            translate_pointer (el2_root split_at) el2_split split_at address _
              (ap (el2_root split_at) e ∙ root_split split_at (omega arith)) bounds.0 bounds.1 refl
              there.0
            ∙ ap some there.1
        | no ne ↦
            let fact = every_below_at 64 _ blocks_of_root (address / gib) (omega arith) in
            let there = found-gib (el2_block (address / gib)) address (ground arith) ne in
            translate_leaf (el2_root split_at) el2_split split_at address _
              (root_block_at split_at (address / gib) (omega arith) ne) there.0
            ∙ ap some there.1
      ])
