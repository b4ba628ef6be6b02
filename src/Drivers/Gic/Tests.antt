-- ===== src/Drivers/Gic/Tests.antt =====
-- A driver of four list registers on hardware where every register reads 15: all of them are free,
-- and the CPU takes the software interrupt 15.
use switchvisor.Base.{ℕ, ◌≡◌, refl, ◌+◌, ◌*◌, ◌^◌, ◌<◌, true, List, set, replicate, arith}
use switchvisor.Drivers.{Mmio}
use switchvisor.Drivers.Gic.{
  Gic, guest, tegra210, empty_pending, slot, is_valid, encode_lr, enqueue, enqueue_at, spurious_irq,
  is_injectable, sgi_in_lr, place, trailing_zeros,
}
use switchvisor.Drivers.Gic.Controller.{
  read_cpu, take_interrupt, take_other, take_pending, deliver, settle, try_inject, inject_empty,
  inject, empty_lrs, read_pair, read_hyp, refill_empty, refill_rounds,
}
use switchvisor.Drivers.Gic.Setup.{reset}
use switchvisor.Drivers.Gic.Valid.{IsValid, enqueue-IsValid}
use switchvisor.Drivers.Gic.Refill.{replay, IsPlan}
use switchvisor.Drivers.Gic.Sgi.{IsSound}
use switchvisor.Drivers.Gic.Deliver.{are_within, refill_empty-IsPlan}
use switchvisor.Drivers.Gic.Take.{take_interrupt-IsSound, reset-IsSound}

abbrev fifteen : Mmio Unit
fifteen = record { read32 = λ s address. (15, s); write32 = λ s address value. s; barrier = λ s. s }

words : (s : Unit) (address : ℕ) → (fifteen.read32 s address).0 < 2 ^ 32
words s address = omega arith

abbrev four : Gic
four = record {
  list_registers = 4;
  distributor_enabled = true;
  pending = replicate 1148 empty_pending;
  pending_count = 0;
  owned_interrupt = spurious_irq;
  network_interrupt = spurious_irq;
  lr_iar = replicate 64 spurious_irq;
}

four-IsSound : IsSound four
unfolding reset
four-IsSound = reset-IsSound four 4 (omega arith)

taken :
    take_interrupt fifteen tegra210 four tt
    ≡ ((guest, record four { lr_iar = set four.lr_iar 0 15 }), tt)
unfolding take_interrupt take_other take_pending deliver settle try_inject inject_empty inject
    empty_lrs read_pair read_hyp read_cpu is_injectable sgi_in_lr place trailing_zeros
taken = refl

-- The physical interrupt 30 of priority 20, in a hardware entry.
hardware_entry :
    encode_lr (record { iar = 30; priority = 20 })
    ≡ 2 ^ 31 + 2 ^ 28 + 20 * 2 ^ 23 + 30 * 2 ^ 10 + 30
unfolding encode_lr
hardware_entry = refl

abbrev queued : Gic
queued = record four {
  pending = set four.pending 158 (record { iar = 30; priority = 20 });
  pending_count = 1;
}

queued-IsValid : IsValid queued
unfolding enqueue enqueue_at slot is_valid
queued-IsValid = enqueue-IsValid four (record { iar = 30; priority = 20 }) four-IsSound.valid

refill_empty-IsPlan_example :
    let (empty, s') = empty_lrs fifteen tegra210 queued tt in
    (moves : List (ℕ × ℕ)) × ((refill_rounds fifteen tegra210 65 empty queued s').0 ≡ true)
    × (refill_empty fifteen tegra210 queued tt ≡ replay fifteen tegra210 queued s' moves)
    × IsPlan queued empty moves
    × (are_within 4 moves ≡ true)
refill_empty-IsPlan_example = refill_empty-IsPlan fifteen tegra210 words queued tt queued-IsValid

take_interrupt-IsSound_example : IsSound (take_interrupt fifteen tegra210 four tt).0.1
take_interrupt-IsSound_example = take_interrupt-IsSound fifteen tegra210 words four tt four-IsSound
