-- ===== src/Drivers/Gic/Setup.antt =====
-- What the driver writes to the hardware before the guest runs.
use switchvisor.Base.{
  ℕ, zero, suc, ◌+◌, ◌*◌, ◌/◌, ◌%◌, ◌^◌, not, leb, ltb, ◌==◌, if◌then◌else◌, replicate, bit,
  bit_and, bit_or, not32, Result, ok, err,
}
use switchvisor.Drivers.{Mmio}
use switchvisor.Drivers.Gic.{
  Gic, Layout, Error, not_gic_v2, invalid_list_register_count, maintenance_irq, spurious_irq, lr0,
  word_of, pending_slots, empty_pending,
}
use switchvisor.Drivers.Gic.Controller.{
  read_dist, write_dist, read_cpu, write_cpu, read_hyp, write_hyp,
}

unfoldable pub reset : Gic → ℕ → Gic
reset g count = record g {
  list_registers = count;
  pending = replicate pending_slots empty_pending;
  pending_count = 0;
  lr_iar = replicate 64 spurious_irq;
}

-- The virtual control register, from those of the physical CPU interface.
unfoldable pub vmcr : ℕ → ℕ → ℕ → ℕ → ℕ
vmcr ctlr pmr bpr abpr =
    bit_or
      (bit_or
        (bit_or (bit_or (bit_and ctlr 1) (bit_and ctlr (bit_or (2 ^ 4) (2 ^ 9))))
          (bit_and abpr 7 * 2 ^ 18))
        (bit_and bpr 7 * 2 ^ 21))
      (bit_and (pmr / 2 ^ 3) 0x1f * 2 ^ 27)

module _ {S : Type 0} (mmio : Mmio S) (layout : Layout) where
  -- `owned_group`: the bit is set where the distributor has the security extension.
  unfoldable pub owned_group : ℕ → ℕ → S → ℕ × S
  owned_group register mask s =
      let (group, s') = read_dist mmio layout register s in
      let (kind, s'') = read_dist mmio layout 0x004 s' in
      (if bit kind 10 then bit_or group mask else bit_and group (not32 mask), s'')

  -- A word of the distributor that is read, changed and written.
  unfoldable pub modify : ℕ → (ℕ → ℕ) → S → S
  modify offset f s =
      let (value, s') = read_dist mmio layout offset s in write_dist mmio layout offset (f value) s'

  unfoldable pub set_group : ℕ → ℕ → S → S
  set_group register mask s =
      let (group, s') = owned_group register mask s in write_dist mmio layout register group s'

  abbrev clear : ℕ → ℕ → ℕ
  clear mask value = bit_and value (not32 mask)

  -- No longer pending nor active, and enabled, in a distributor that is on.
  unfoldable pub enable_interrupt : ℕ → ℕ → S → S
  enable_interrupt register mask s =
      let pending = write_dist mmio layout (0x280 + register) mask s in
      let active = write_dist mmio layout (0x380 + register) mask pending in
      let enabled = write_dist mmio layout (0x100 + register) mask active in
      modify 0x000 (λ control. bit_or control 1) enabled

  unfoldable pub configure_maintenance_interrupt : S → S
  configure_maintenance_interrupt s =
      let mask = 2 ^ maintenance_irq in
      let grouped = set_group 0x080 mask s in
      let urgent = modify 0x418 (clear (0xff * 2 ^ 8)) grouped in
      enable_interrupt 0 mask (modify 0xc04 (clear (3 * 2 ^ 18)) urgent)

  -- The target of a shared interrupt.
  unfoldable pub set_target : ℕ → ℕ → S → S
  set_target id target s =
      if leb 32 id
      then modify (0x800 + id / 4 * 4)
          (λ targets. bit_or (clear (0xff * 2 ^ (id % 4 * 8)) targets) (target * 2 ^ (id % 4 * 8)))
          s
      else s

  unfoldable pub configure_interrupt : ℕ → ℕ → S → S
  configure_interrupt id target s =
      let mask = 2 ^ (id % 32) in
      let disabled = write_dist mmio layout (0x180 + word_of id) mask s in
      let grouped = set_group (0x080 + word_of id) mask disabled in
      let urgent = modify (0x400 + id / 4 * 4) (clear (0xff * 2 ^ (id % 4 * 8))) grouped in
      let targeted = set_target id target urgent in
      let level = modify (0xc00 + id / 16 * 4) (clear (3 * 2 ^ (id % 16 * 2))) targeted in
      if leb 1020 id then s else mmio.barrier (enable_interrupt (word_of id) mask level)

  unfoldable pub configure_owned_interrupt : Gic → ℕ → S → S
  configure_owned_interrupt g target s =
      configure_interrupt g.network_interrupt target
        (configure_interrupt g.owned_interrupt target s)

  -- `for index in 0..count`
  unfoldable pub clear_lrs : ℕ → ℕ → S → S
  clear_lrs zero index s = s
  clear_lrs (suc n) index s = clear_lrs n (suc index) (write_hyp mmio layout (lr0 + index * 4) 0 s)

  unfoldable pub start : ℕ → S → S
  start count s =
      let empty = write_hyp mmio layout 0x0f0 0 (clear_lrs count 0 s) in
      let (ctlr, s₁) = read_cpu mmio layout 0x000 empty in
      let (pmr, s₂) = read_cpu mmio layout 0x004 s₁ in
      let (bpr, s₃) = read_cpu mmio layout 0x008 s₂ in
      let (abpr, s₄) = read_cpu mmio layout 0x01c s₃ in
      let virtual = write_hyp mmio layout 0x008 (vmcr ctlr pmr bpr abpr) s₄ in
      let unmasked = write_cpu mmio layout 0x004 0xff (configure_maintenance_interrupt virtual) in
      let enabled = write_cpu mmio layout 0x000 (bit_or (bit_or ctlr 1) (2 ^ 9)) unmasked in
      mmio.barrier (write_hyp mmio layout 0x000 1 enabled)

  unfoldable pub initialize : Gic → S → Result Error (Gic × S)
  initialize g s =
      let (identity, s') = read_cpu mmio layout 0x0fc s in
      let (kind, s'') = read_hyp mmio layout 0x004 s' in
      let count = bit_and kind 0x3f + 1 in
      if not (bit_and identity 0x00ff_0fff == 0x0002_043b)
      then err not_gic_v2
      else if ltb 64 count
      then err invalid_list_register_count
      else ok (reset g count, start count s'')
