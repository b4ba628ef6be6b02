-- ===== src/El2Mmu/Tests.antt =====
-- The theorem on EL2's map, on the block for DMA.
use switchvisor.Base.{◌≡◌, refl, ◌+◌, ok, some, arith}
use switchvisor.Memory.{page_size, resident_base}
use switchvisor.El2Mmu.{build, is_place, el2_root, el2_split, dma_base}
use switchvisor.El2Mmu.Identity.{translate, expected, translate-build}

built :
    build resident_base (resident_base + page_size)
    ≡ ok (el2_root (resident_base + page_size), el2_split)
unfolding build is_place
built = refl

translate-build_example :
    translate
      (el2_root (resident_base + page_size))
      el2_split
      (resident_base + page_size)
      (dma_base + 8)
    ≡ some (expected (dma_base + 8))
translate-build_example =
    translate-build resident_base (resident_base + page_size) (dma_base + 8) built (omega arith)
