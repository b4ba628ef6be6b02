-- ===== src/Stage2/Walk.antt =====
-- What the tables mean: the translation that an Armv8 stage 2 walk of 4 KiB granules and 36 bits
-- makes of them, from a root of 1 GiB entries.
use switchvisor.Base.{ℕ, ◌+◌, ◌*◌, ◌/◌, ◌%◌, ◌==◌, if◌then◌else◌, Option, none, some}
use switchvisor.Memory.{ipa_limit, page_size, block_size}
use switchvisor.Stage2.Tables.{Table, gib, entries}

-- The address in a descriptor, aligned to what it maps.
abbrev pub output : ℕ → ℕ → ℕ
output descriptor size = descriptor % ipa_limit / size * size

-- The memory that holds the tables.
abbrev pub Tables : Type 0
Tables = ℕ → Option Table

-- A descriptor with low bits 1 maps a block, with 3 it points to a table; others fault.
abbrev pub leaf : ℕ → ℕ → ℕ → Option ℕ
leaf descriptor size ipa = some (output descriptor size + ipa % size)

unfoldable pub walk_pages : Table → ℕ → Option ℕ
walk_pages t ipa =
    let descriptor = t (ipa / page_size % entries) in
    if descriptor % 4 == 3 then leaf descriptor page_size ipa else none

unfoldable pub walk_blocks : Tables → Table → ℕ → Option ℕ
walk_blocks memory t ipa =
    let descriptor = t (ipa / block_size % entries) in
    if descriptor % 4 == 1
    then leaf descriptor block_size ipa
    else if descriptor % 4 == 3
    then elim (memory (output descriptor page_size)) [
      | none ↦ none
      | some next ↦ walk_pages next ipa
    ]
    else none

unfoldable pub walk : Tables → Table → ℕ → Option ℕ
walk memory t ipa =
    let descriptor = t (ipa / gib) in
    if descriptor % 4 == 1
    then leaf descriptor gib ipa
    else if descriptor % 4 == 3
    then elim (memory (output descriptor page_size)) [
      | none ↦ none
      | some next ↦ walk_blocks memory next ipa
    ]
    else none
