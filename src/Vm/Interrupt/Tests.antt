-- ===== src/Vm/Interrupt/Tests.antt =====
-- The board's controllers with the interrupts 76 and 77, on hardware of one word.
use switchvisor.Base.{◌≡◌, refl, some, replicate}
use switchvisor.Drivers.{one_word}
use switchvisor.Drivers.Gic.{tegra210}
use switchvisor.Vm.Interrupt.{initialize, emulate, emulate_store_post_index, source_of, is_tegra210}
use switchvisor.Vm.Interrupt.Published.{IsPublished, initialize-IsPublished, emulate-IsPublished}

-- The source of the interrupt 76 at the legacy controller.
board_source : source_of tegra210 (some 76) ≡ some 44
unfolding source_of is_tegra210
board_source = refl

-- A store of the word in register 3 to the distributor's first enable register.
emulate-IsPublished_example :
    IsPublished
      (emulate one_word tegra210 0x9382_0046 0x5004_1100 0x50_0410
        (initialize one_word tegra210 (some 76) (some 77) 0).0
        0
        (replicate 31 0)).1.0
    × IsPublished
        (emulate_store_post_index one_word tegra210 0x9382_0046 0x5004_1100 0x50_0410 0
          (initialize one_word tegra210 (some 76) (some 77) 0).0
          0
          (replicate 31 0)).1.0
emulate-IsPublished_example =
    emulate-IsPublished one_word tegra210 0x9382_0046 0x5004_1100 0x50_0410 0
      (initialize one_word tegra210 (some 76) (some 77) 0).0 0 (replicate 31 0)
      (initialize-IsPublished one_word tegra210 (some 76) (some 77) 0)
