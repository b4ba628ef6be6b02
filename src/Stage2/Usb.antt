-- ===== src/Stage2/Usb.antt =====
-- `protect_usb` of stage2.rs: the registers of the USB controllers, of their clocks and of their
-- interrupts are taken out of the map that `build` made.
use switchvisor.Base.{
  ℕ, ◌+◌, ◌*◌, ◌/◌, ◌%◌, ◌||◌, not, Result, ok, err, ◌==◌, if◌then◌else◌, List, any, bit_or,
}
use switchvisor.Memory.{page_size, block_size}
use switchvisor.Vdev.Ownership.{controller, pmc_page, car, lic}
use switchvisor.Stage2.Tables.{
  Table, MapError, table_placement, put, resident_table, gib, page_base, device,
}

unfoldable pub usb_pages : Table → Table
usb_pages pages i =
    let ipa = page_base + i * page_size in if controller ipa || ipa == pmc_page then 0 else pages i

-- The block of the legacy controllers, and that of the clock controller.
abbrev pub legacy_index : ℕ
legacy_index = 0x7d00_0000 % gib / block_size

abbrev pub car_index : ℕ
car_index = car % gib / block_size

abbrev pub car_base : ℕ
car_base = car / block_size * block_size

unfoldable pub car_table : Table
car_table i =
    let ipa = car_base + i * page_size in
    if ipa == car || ipa == lic then 0 else bit_or (bit_or ipa device) 2

unfoldable pub usb_mmio : Table → ℕ → Table
usb_mmio mmio address = put (put mmio legacy_index 0) car_index (bit_or address 3)

-- The new tables for MMIO, for its pages and for those of the clock controller's block.
unfoldable pub protect_usb : Table → Table → ℕ → List ℕ → Result MapError (Table × Table × Table)
protect_usb mmio pages address existing =
    if not (resident_table address) || any (λ a. a == address) existing
    then err table_placement
    else ok (usb_mmio mmio address, usb_pages pages, car_table)
