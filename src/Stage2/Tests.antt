-- ===== src/Stage2/Tests.antt =====
-- The theorems on the guest's map, on tables at the start of the resident region.
use switchvisor.Base.{◌≡◌, refl, ◌+◌, ◌*◌, [], ok, ℕ, ◌^◌}
use switchvisor.Memory.{page_size, resident_base}
use switchvisor.Stage2.Tables.{Addresses, build, placed, resident_table}
use switchvisor.Stage2.Usb.{protect_usb}
use switchvisor.Stage2.Identity.{built}
use switchvisor.Stage2.Hidden.{usb_tables, in_use}

abbrev tables_at : Addresses
tables_at = record {
  root_at = resident_base;
  split_at = resident_base + page_size;
  mmio_at = resident_base + 2 * page_size;
  pages_at = resident_base + 3 * page_size;
}

abbrev car_at : ℕ
car_at = resident_base + 4 * page_size

abbrev vttbr : ℕ
vttbr = 2 ^ 48 + resident_base

build_ok : build tables_at ≡ ok (built tables_at, vttbr)
unfolding build placed resident_table
build_ok = refl

protect_usb_ok :
    protect_usb (built tables_at).mmio (built tables_at).pages car_at (in_use tables_at [])
    ≡ ok (usb_tables tables_at car_at)
unfolding protect_usb resident_table
protect_usb_ok = refl
