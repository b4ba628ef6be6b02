-- ===== src/Stage2/Gic/Tests.antt =====
-- The guest's view of the interrupt controller, on tables at the start of the resident region.
use switchvisor.Base.{◌≡◌, refl, ◌+◌, ◌*◌, ◌^◌, [], ◌∷◌, ok, err, some, arith, ℕ}
use switchvisor.Memory.{page_size, resident_base}
use switchvisor.Drivers.Gic.{tegra210}
use switchvisor.Vdev.Ownership.{controller}
use switchvisor.Stage2.Tables.{
  Addresses, build, placed, resident_table, gic_layout, root_table, mmio_table,
}
use switchvisor.Stage2.Usb.{protect_usb, usb_mmio}
use switchvisor.Stage2.Walk.{walk}
use switchvisor.Stage2.Identity.{built}
use switchvisor.Stage2.Hidden.{usb_tables, in_use}
use switchvisor.Stage2.Gic.{protect_gic, windows, page_range, is_layout, any_overlap}
use switchvisor.Stage2.Gic.Reach.{gic_tables, gic_memory_of, walk-protect_gic}

abbrev tables_at : Addresses
tables_at = record {
  root_at = resident_base;
  split_at = resident_base + page_size;
  mmio_at = resident_base + 2 * page_size;
  pages_at = resident_base + 3 * page_size;
}

abbrev car_at : ℕ
car_at = resident_base + 4 * page_size

abbrev l2_at : ℕ
l2_at = resident_base + 5 * page_size

abbrev gic_at : ℕ
gic_at = resident_base + 6 * page_size

build_ok : build tables_at ≡ ok (built tables_at, 2 ^ 48 + resident_base)
unfolding build placed resident_table
build_ok = refl

protect_usb_ok :
    protect_usb (built tables_at).mmio (built tables_at).pages car_at (in_use tables_at [])
    ≡ ok (usb_tables tables_at car_at)
unfolding protect_usb resident_table
protect_usb_ok = refl

protect_gic_ok :
    protect_gic
      (root_table tables_at)
      (usb_mmio (mmio_table tables_at) car_at)
      l2_at
      gic_at
      (in_use tables_at (car_at ∷ []))
      tegra210
    ≡ ok (gic_tables tables_at car_at l2_at gic_at)
unfolding protect_gic placed resident_table windows page_range is_layout any_overlap
protect_gic_ok = refl

-- A CPU interface that is larger than the virtual one is refused.
too_large :
    protect_gic
      (root_table tables_at)
      (mmio_table tables_at)
      l2_at
      gic_at
      (in_use tables_at [])
      (record tegra210 { cpu_size = 0x1000; virtual_cpu_size = 0 })
    ≡ err gic_layout
unfolding protect_gic placed resident_table windows page_range is_layout any_overlap
too_large = refl

walk-protect_gic_example :
    walk
      (gic_memory_of tables_at
        (built tables_at)
        (usb_tables tables_at car_at)
        car_at
        (gic_tables tables_at car_at l2_at gic_at)
        l2_at
        gic_at)
      (gic_tables tables_at car_at l2_at gic_at).root
      0x5004_2010
    ≡ some 0x5004_6010
unfolding controller
walk-protect_gic_example =
    walk-protect_gic tables_at car_at l2_at gic_at 0x5004_2010 [] [] build_ok protect_usb_ok
      protect_gic_ok (omega arith)
