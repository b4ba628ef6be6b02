-- ===== src/Drivers/Gic/Controller.antt =====
-- The driver's operations on the hardware: the list registers are filled, emptied and refilled, and
-- an interrupt is taken.
use switchvisor.Base.{
  ℕ, zero, suc, ◌+◌, ◌*◌, ◌/◌, ◌%◌, ◌^◌, Bool, true, false, ◌||◌, not, leb, ltb, ◌==◌,
  if◌then◌else◌, set, get_or, bit, bit_and, bit_or, not64, none, some,
}
use switchvisor.Drivers.{Mmio}
use switchvisor.Drivers.Gic.{
  Gic, Layout, Pending, Event, nothing, guest, maintenance, owned, id_of, spurious_irq,
  maintenance_irq, lr0, implemented, encode_lr, place, is_injectable, has_injectable_pending,
  next_pop, trailing_zeros, enqueue, word_of,
}

module _ {S : Type 0} (mmio : Mmio S) (layout : Layout) where
  unfoldable pub read_dist : ℕ → S → ℕ × S
  read_dist offset s = mmio.read32 s ((layout.distributor + offset) % 2 ^ 64)

  unfoldable pub write_dist : ℕ → ℕ → S → S
  write_dist offset value s = mmio.write32 s ((layout.distributor + offset) % 2 ^ 64) value

  unfoldable pub read_cpu : ℕ → S → ℕ × S
  read_cpu offset s = mmio.read32 s ((layout.cpu + offset) % 2 ^ 64)

  unfoldable pub write_cpu : ℕ → ℕ → S → S
  write_cpu offset value s = mmio.write32 s ((layout.cpu + offset) % 2 ^ 64) value

  unfoldable pub read_hyp : ℕ → S → ℕ × S
  read_hyp offset s = mmio.read32 s ((layout.hypervisor + offset) % 2 ^ 64)

  unfoldable pub write_hyp : ℕ → ℕ → S → S
  write_hyp offset value s = mmio.write32 s ((layout.hypervisor + offset) % 2 ^ 64) value

  -- Two words, the second one read only where there are more than 32 list registers.
  unfoldable pub read_pair : ℕ → ℕ → ℕ → S → ℕ × S
  read_pair n low high s =
      let (first, s') = read_hyp low s in
      let (second, s'') = read_hyp high s' in
      if ltb 32 n then (bit_or first (second * 2 ^ 32), s'') else (first, s')

  unfoldable pub empty_lrs : Gic → S → ℕ × S
  empty_lrs g s =
      let (bits, s') = read_pair g.list_registers 0x30 0x34 s in
      (bit_and bits (implemented g.list_registers), s')

  unfoldable pub eoi_lrs : Gic → S → ℕ × S
  eoi_lrs g s = read_pair g.list_registers 0x20 0x24 s

  -- One round of `drain_sgi_eois`, and all of them from `index` on.
  unfoldable pub drain_one : ℕ → ℕ → Gic × S → Gic × S
  drain_one eois index (g, s) =
      let iar = get_or g.lr_iar index spurious_irq in
      let cleared = write_hyp (lr0 + index * 4) 0 s in
      if bit eois index
      then (
        record g { lr_iar = set g.lr_iar index spurious_irq },
        if ltb (id_of iar) 16 then write_cpu 0x1000 iar cleared else cleared,
      )
      else (g, s)

  unfoldable pub drain_from : ℕ → ℕ → ℕ → Gic × S → Gic × S
  drain_from zero index eois gs = gs
  drain_from (suc n) index eois gs = drain_from n (suc index) eois (drain_one eois index gs)

  unfoldable pub drain_sgi_eois : Gic → S → Gic × S
  drain_sgi_eois g s = let (eois, s') = eoi_lrs g s in drain_from g.list_registers 0 eois (g, s')

  unfoldable pub inject : Gic → ℕ → Pending → S → Gic × S
  inject g index p s = (place g index p, write_hyp (lr0 + index * 4) (encode_lr p) s)

  -- `none` where the interrupt has to wait.
  unfoldable pub inject_empty : Gic → ℕ → Pending → S → Bool × (Gic × S)
  inject_empty g empty p s =
      if empty == 0 then (false, (g, s)) else (true, inject g (trailing_zeros 64 empty) p s)

  unfoldable pub try_inject : Gic → Pending → S → Bool × (Gic × S)
  try_inject g p s =
      let (empty, s') = empty_lrs g s in
      if not g.distributor_enabled || not (is_injectable g p)
      then (false, (g, s))
      else inject_empty g empty p s'

  unfoldable pub update_hcr : Gic → S → S
  update_hcr g s =
      write_hyp 0 (if g.distributor_enabled then (if has_injectable_pending g then 3 else 1) else 0)
        s

  -- The loop of `refill`; the first part of the result is whether it ended within the rounds.
  unfoldable pub refill_rounds : ℕ → ℕ → Gic → S → Bool × (Gic × S)
  refill_rounds zero empty g s = (false, (g, s))
  refill_rounds (suc n) empty g s = elim (next_pop g empty) [
    | none ↦ (true, (g, s))
    | some (p, g') ↦
        (let (g'', s') = inject g' (trailing_zeros 64 empty) p s in
          refill_rounds n (bit_and empty (not64 (2 ^ trailing_zeros 64 empty))) g'' s')
  ]

  unfoldable pub refill_empty : Gic → S → Gic × S
  refill_empty g s = let (empty, s') = empty_lrs g s in (refill_rounds 65 empty g s').1

  unfoldable pub refill_if : Bool → Gic → S → Gic × S
  refill_if true g s = refill_empty g s
  refill_if false g s = (g, s)

  unfoldable pub refill : Gic → S → Gic × S
  refill g s = let (g', s') = refill_if g.distributor_enabled g s in (g', update_hcr g' s')

  unfoldable pub set_distributor_enabled : Gic → Bool → S → Gic × S
  set_distributor_enabled g enabled s =
      let (g', s') = refill (record g { distributor_enabled = enabled }) s in
      if (if enabled then g.distributor_enabled else not g.distributor_enabled)
      then (g, s)
      else (g', mmio.barrier s')

  -- An interrupt goes to a list register, or waits while others may go.
  unfoldable pub settle : Pending → Bool × (Gic × S) → Gic × S
  settle p (true, gs) = gs
  settle p (false, (g, s)) = refill (enqueue g p) s

  unfoldable pub deliver : Gic → Pending → S → Gic × S
  deliver g p s = settle p (if g.pending_count == 0 then try_inject g p s else (false, (g, s)))

  unfoldable pub pend : ℕ → S → S
  pend id s = write_dist (0x200 + word_of id) (2 ^ (id % 32)) s

  unfoldable pub pend_interrupt : ℕ → S → S
  pend_interrupt id s = if leb 1020 id then s else mmio.barrier (pend id s)

  unfoldable pub pend_owned_interrupt : Gic → S → S
  pend_owned_interrupt g s = pend_interrupt g.owned_interrupt s

  unfoldable pub pend_network_interrupt : Gic → S → S
  pend_network_interrupt g s = pend_interrupt g.network_interrupt s

  unfoldable pub finish_owned_interrupt : Gic → Pending → Bool → S → Gic × S
  finish_owned_interrupt g p true s =
      let (g', s') = deliver g p (pend (id_of p.iar) s) in (g', mmio.barrier s')
  finish_owned_interrupt g p false s = (g, mmio.barrier (write_cpu 0x1000 p.iar s))

  unfoldable pub complete_owned_interrupt : ℕ → S → S
  complete_owned_interrupt iar s = write_cpu 0x1000 iar (write_cpu 0x010 iar s)

  unfoldable pub service : Gic → S → Gic × S
  service g s = let (g', s') = drain_sgi_eois g s in refill g' s'

  unfoldable pub poll : Gic → S → Gic × S
  poll g s = let (g', s') = service g s in (g', mmio.barrier s')

  -- `take_interrupt` after the read of `iar`: the maintenance interrupt, and all others.
  unfoldable pub take_maintenance : Gic → ℕ → S → (Event × Gic) × S
  take_maintenance g iar s =
      let (g', s') = service g s in
      ((maintenance, g'), mmio.barrier (complete_owned_interrupt iar s'))

  unfoldable pub take_pending : Gic → Pending → S → (Event × Gic) × S
  take_pending g p s =
      let (g', s') = deliver g p s in
      if id_of p.iar == g.owned_interrupt || id_of p.iar == g.network_interrupt
      then ((owned p, g), mmio.barrier s)
      else ((guest, g'), mmio.barrier s')

  unfoldable pub take_other : Gic → ℕ → S → (Event × Gic) × S
  take_other g iar s =
      let (running, s') = read_cpu 0x014 s in
      take_pending g (record { iar = iar; priority = running / 2 ^ 3 % 32 })
        (write_cpu 0x010 iar s')

  unfoldable pub take_interrupt : Gic → S → (Event × Gic) × S
  take_interrupt g s =
      let (iar, s') = read_cpu 0x00c s in
      if leb 1020 (id_of iar)
      then ((nothing, g), s')
      else if id_of iar == maintenance_irq
      then take_maintenance g iar s'
      else take_other g iar s'
