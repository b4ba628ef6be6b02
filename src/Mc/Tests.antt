-- ===== src/Mc/Tests.antt =====
-- The theorem on the guest's view, on a machine with 4 GiB of RAM and one carveout of the firmware.
use switchvisor.Base.{◌↔◌, ◌≡◌, refl, ◌+◌, ◌*◌, ◌^◌, min, ◌==◌, if◌then◌else◌, some, ok}
use switchvisor.Memory.{resident_base}
use switchvisor.Mc.{Registers, carveouts, ram, emem_cfg, megabytes, validate, lowest}
use switchvisor.Mc.Bounds.{FitsSize, validate_iff, announced, lowest-announced}

abbrev board : Registers
board offset =
    if offset == emem_cfg
    then 4096
    else if offset == 0x670
    then 0xffd0_0000
    else if offset == 0x674
    then 1
    else 0

board_size : megabytes (board emem_cfg) ≡ some 4096
unfolding megabytes
board_size = refl

board_ok : validate board ≡ ok tt
unfolding validate lowest megabytes
board_ok = refl

lowest-announced_example :
    lowest (announced board) carveouts (ram + min (4096 * 2 ^ 20) ram) ≡ resident_base
lowest-announced_example = lowest-announced board 4096 board_size board_ok

validate_iff_example : (validate board ≡ ok tt) ↔ FitsSize board (megabytes (board emem_cfg))
validate_iff_example = validate_iff board
