-- ===== src/Mc.antt =====
-- crates/switchvisor/src/mc.rs: what the memory controller's registers tell of the guest's memory.
-- The registers are read through a function, as in the code; a register holds 32 bits.
pub mod Bounds
mod Tests
use switchvisor.Base.{
  ℕ, ◌+◌, ◌-◌, ◌*◌, ◌/◌, ◌%◌, ◌^◌, min, Bool, true, false, ◌&&◌, ◌||◌, not, ltb, leb, ◌==◌,
  if◌then◌else◌, List, [], ◌∷◌, bit, Option, none, some, Result, ok, err,
}
use switchvisor.Memory.{ipa_limit, resident_base, resident_size}

abbrev pub emem_cfg : ℕ
emem_cfg = 0x50

abbrev pub gsc5_bom : ℕ
gsc5_bom = 0xd4c

abbrev pub gsc5_hi : ℕ
gsc5_hi = 0xd50

abbrev pub gsc5_size : ℕ
gsc5_size = 0xd54

-- The registers of a carveout: its base, the high word of the base, its size.
pub record Carveout : Type 0 where
  pub bom : ℕ
  pub high : ℕ
  pub size_of : ℕ

abbrev at : ℕ → ℕ → ℕ → Carveout
at bom high size_of = record { bom = bom; high = high; size_of = size_of }

abbrev pub carveouts : List Carveout
carveouts =
    at 0x670 0x9d4 0x674
    ∷ at 0x9a0 0x9a8 0x9a4
    ∷ at 0x648 0x978 0x64c
    ∷ at 0xc0c 0xc10 0xc14
    ∷ at 0xc5c 0xc60 0xc64
    ∷ at 0xcac 0xcb0 0xcb4
    ∷ at 0xcfc 0xd00 0xd04
    ∷ at gsc5_bom gsc5_hi gsc5_size
    ∷ []

pub data PlacementError : Type 0 where
  ram_size firmware_carveout gsc5_in_use : PlacementError

abbrev pub Registers : Type 0
Registers = ℕ → ℕ

-- `read(bom) | (read(high) << 32)`, of two words.
abbrev pub base_of : Registers → Carveout → ℕ
base_of read c = read c.bom % 2 ^ 32 + read c.high % 2 ^ 32 * 2 ^ 32

abbrev pub ram : ℕ
ram = 0x8000_0000

abbrev pub four_gib : ℕ
four_gib = 0x1_0000_0000

unfoldable pub lowest : Registers → List Carveout → ℕ → ℕ
lowest read [] top = top
lowest read (c ∷ rest) top =
    let address = base_of read c in
    lowest read rest (
      if not (read c.size_of == 0) && (leb ram address && leb address four_gib)
      then min top address
      else top)

-- The configured size in megabytes: `none` where the subtraction fails.
unfoldable pub megabytes : ℕ → Option ℕ
megabytes config =
    if bit config 31
    then (if leb 0x800 (config % 2 ^ 14) then some (config % 2 ^ 14 - 0x800) else none)
    else some config

unfoldable pub validate : Registers → Result PlacementError Unit
validate read = elim (megabytes (read emem_cfg)) [
  | none ↦ err ram_size
  | some mb ↦
      let bytes = mb * 2 ^ 20 in
      if bytes == 0 || ltb (ipa_limit - ram) bytes
      then err ram_size
      else if ltb (lowest read carveouts (ram + min bytes ram)) (resident_base + resident_size)
      then err firmware_carveout
      else if not (read gsc5_size == 0)
      then err gsc5_in_use
      else ok tt
]

unfoldable pub read_override : ℕ → Option ℕ
read_override offset =
    if offset == gsc5_bom
    then some (resident_base % 2 ^ 32)
    else if offset == gsc5_hi
    then some (resident_base / 2 ^ 32)
    else if offset == gsc5_size
    then some (resident_size / 2 ^ 17)
    else none

unfoldable pub highest : Registers → List Carveout → ℕ → ℕ
highest read [] top = top
highest read (c ∷ rest) top =
    let address = base_of read c in
    highest read rest
      (if not (read c.size_of == 0) && leb four_gib address then min top address else top)

unfoldable pub saturated_megabytes : ℕ → ℕ
saturated_megabytes config = if bit config 31 then config % 2 ^ 14 - 0x800 else config

unfoldable pub guest_high_end : Registers → ℕ
guest_high_end read =
    let end = ram + saturated_megabytes (read emem_cfg) * 2 ^ 20 in
    if not (leb four_gib end && leb end ipa_limit) then four_gib else highest read carveouts end
