-- ===== src/Vdev/Ownership/Tests.antt =====
-- The theorem on protected bits, on a guest that clears the clock enables of the first set.
use switchvisor.Base.{◌≡◌, refl, ◌+◌, true, false, ◌||◌, not, some, bit, arith, if◌then◌else◌}
use switchvisor.Vdev.Ownership.{car, mask_l, write, merge, protection, is_one_of, reads_current}
use switchvisor.Vdev.Ownership.Protect.{closed, holds, acts, bit-write}

write_mask_l : write (car + 0x10) 0 mask_l ≡ some mask_l
unfolding write protection merge
write_mask_l = refl

bit-write_example :
    (is_one_of 0x10 closed ≡ false)
    × ((not (holds 0x10 22) || reads_current (car + 0x10)) ≡ true)
    × (bit mask_l 22
        ≡ (if holds 0x10 22 then bit mask_l 22 else if acts 0x10 22 then false else bit 0 22))
bit-write_example = bit-write 0x10 0 mask_l 22 (omega arith) (omega arith) write_mask_l
