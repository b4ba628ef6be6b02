-- ===== src/Drivers/Gic.antt =====
-- crates/switchvisor/src/drivers/interrupt/gicv2.rs: the interrupts that the CPU takes, on their way
-- to the list registers of the guest. `id & IRQ_ID_MASK` is written `% 2 ^ 10`. A list register is
-- in the hardware's state `S`; `lr_iar` and `pending` are lists, of 64 and of 1148 elements.
pub mod Controller
pub mod Setup
pub mod Encode
pub mod Pop
pub mod Valid
pub mod Refill
pub mod Deliver
pub mod Sgi
pub mod Take
mod Tests
use switchvisor.Base.{
  ℕ, zero, suc, ◌+◌, ◌-◌, ◌*◌, ◌/◌, ◌%◌, ◌^◌, Bool, true, false, ◌&&◌, ◌||◌, not, leb, ltb, ◌==◌,
  if◌then◌else◌, List, [], ◌∷◌, any, take, set, get_or, replicate, bit, bit_and, bit_or, not32,
  not64, Option, none, some, Result, ok, err,
}

abbrev pub maintenance_irq : ℕ
maintenance_irq = 25

abbrev pub spurious_irq : ℕ
spurious_irq = 1023

abbrev pub sgi_slots : ℕ
sgi_slots = 128

abbrev pub pending_slots : ℕ
pending_slots = sgi_slots + 1020

abbrev pub lr0 : ℕ
lr0 = 0x100

pub record Layout : Type 0 where
  pub distributor : ℕ
  pub distributor_size : ℕ
  pub cpu : ℕ
  pub cpu_size : ℕ
  pub hypervisor : ℕ
  pub hypervisor_size : ℕ
  pub virtual_cpu : ℕ
  pub virtual_cpu_size : ℕ

abbrev pub tegra210 : Layout
tegra210 = record {
  distributor = 0x5004_1000;
  distributor_size = 0x1000;
  cpu = 0x5004_2000;
  cpu_size = 0x2000;
  hypervisor = 0x5004_4000;
  hypervisor_size = 0x2000;
  virtual_cpu = 0x5004_6000;
  virtual_cpu_size = 0x2000;
}

abbrev pub qemu_virt : Layout
qemu_virt = record {
  distributor = 0x0800_0000;
  distributor_size = 0x1_0000;
  cpu = 0x0801_0000;
  cpu_size = 0x1_0000;
  hypervisor = 0x0803_0000;
  hypervisor_size = 0x1_0000;
  virtual_cpu = 0x0804_0000;
  virtual_cpu_size = 0x1_0000;
}

pub data Error : Type 0 where
  not_gic_v2 invalid_list_register_count : Error

pub record Pending : Type 0 where
  pub iar : ℕ
  pub priority : ℕ

pub data Event : Type 0 where
  nothing guest maintenance : Event
  owned : Pending → Event

abbrev pub id_of : ℕ → ℕ
id_of iar = iar % 2 ^ 10

-- The word of an interrupt in a bank of one bit for each.
abbrev pub word_of : ℕ → ℕ
word_of id = id / 32 * 4

-- `OwnedInterrupt::with_guest_priority`
unfoldable pub with_guest_priority : Pending → ℕ → Pending
with_guest_priority p priority = record p { priority = priority / 2 ^ 3 }

abbrev pub empty_pending : Pending
empty_pending = record { iar = spurious_irq; priority = 0xff }

unfoldable pub is_valid : Pending → Bool
is_valid p = ltb (id_of p.iar) 1020

pub record Gic : Type 0 where
  pub list_registers : ℕ
  pub distributor_enabled : Bool
  pub pending : List Pending
  pub pending_count : ℕ
  pub owned_interrupt : ℕ
  pub network_interrupt : ℕ
  pub lr_iar : List ℕ

unfoldable pub new : Gic
new = record {
  list_registers = 0;
  distributor_enabled = true;
  pending = replicate pending_slots empty_pending;
  pending_count = 0;
  owned_interrupt = spurious_irq;
  network_interrupt = spurious_irq;
  lr_iar = replicate 64 spurious_irq;
}

-- `(iar & SOURCE_CPU_MASK) >> 10`
abbrev pub source_cpu : ℕ → ℕ
source_cpu iar = iar / 2 ^ 10 % 8

unfoldable pub slot : ℕ → Option ℕ
slot iar =
    if ltb (id_of iar) 16
    then some (id_of iar * 8 + source_cpu iar)
    else if ltb (id_of iar) 1020
    then some (sgi_slots + id_of iar)
    else none

abbrev pub pending_at : Gic → ℕ → Pending
pending_at g k = get_or g.pending k empty_pending

-- An interrupt whose slot is taken is dropped.
unfoldable pub enqueue_at : Gic → Option ℕ → Pending → Gic
enqueue_at g none p = g
enqueue_at g (some k) p =
    if is_valid (pending_at g k)
    then g
    else record g { pending = set g.pending k p; pending_count = suc g.pending_count }

unfoldable pub enqueue : Gic → Pending → Gic
enqueue g p = enqueue_at g (slot p.iar) p

-- `encode_lr`: a software entry keeps the source CPU and asks for an EOI interrupt; a hardware entry
-- names the physical interrupt.
unfoldable pub encode_lr : Pending → ℕ
encode_lr p =
    let id = id_of p.iar in
    let lr = bit_or (bit_or id (2 ^ 28)) (p.priority * 2 ^ 23 % 2 ^ 32) in
    if ltb id 16
    then bit_or (bit_or lr (bit_and p.iar (7 * 2 ^ 10))) (2 ^ 19)
    else bit_or lr (bit_or (2 ^ 31) (id * 2 ^ 10))

unfoldable pub sgi_in_lr : Gic → ℕ → Bool
sgi_in_lr g id = ltb id 16 && any (λ iar. id_of iar == id) (take g.list_registers g.lr_iar)

unfoldable pub is_injectable : Gic → Pending → Bool
is_injectable g p = leb 16 (id_of p.iar) || not (sgi_in_lr g (id_of p.iar))

-- `(a.priority, a.iar & IRQ_ID_MASK) < (b.priority, b.iar & IRQ_ID_MASK)`
unfoldable pub precedes : Pending → Pending → Bool
precedes a b =
    ltb a.priority b.priority || a.priority == b.priority && ltb (id_of a.iar) (id_of b.iar)

-- `best.is_none_or(…)`
unfoldable pub beats : Gic → Pending → Option ℕ → Bool
beats g value none = true
beats g value (some current) = precedes value (pending_at g current)

-- The loop of `pop_highest` over the elements from `index` on.
unfoldable pub find_best : Gic → ℕ → List Pending → Option ℕ → Option ℕ
find_best g index [] best = best
find_best g index (value ∷ values) best =
    find_best g (suc index) values
      (if is_valid value && is_injectable g value && beats g value best then some index else best)

unfoldable pub pop_at : Gic → Option ℕ → Option (Pending × Gic)
pop_at g none = none
pop_at g (some k) = some (
  pending_at g k,
  record g { pending = set g.pending k empty_pending; pending_count = g.pending_count - 1 },
)

unfoldable pub pop_highest : Gic → Option (Pending × Gic)
pop_highest g = pop_at g (find_best g 0 g.pending none)

unfoldable pub has_injectable_pending : Gic → Bool
has_injectable_pending g =
    not (g.pending_count == 0) && any (λ value. is_valid value && is_injectable g value) g.pending

-- What the loop of `refill` takes: nothing where no list register is free or nothing waits.
unfoldable pub next_pop : Gic → ℕ → Option (Pending × Gic)
next_pop g empty = if empty == 0 || g.pending_count == 0 then none else pop_highest g

-- `inject`: a software entry is remembered, to be deactivated when the guest is done with it.
unfoldable pub place : Gic → ℕ → Pending → Gic
place g index p = record g {
  lr_iar = set g.lr_iar index (if ltb (id_of p.iar) 16 then p.iar else spurious_irq);
}

-- `trailing_zeros` of a word with the given number of bits.
unfoldable pub trailing_zeros : ℕ → ℕ → ℕ
trailing_zeros zero x = 0
trailing_zeros (suc width) x =
    let above = trailing_zeros width (x / 2) in if x % 2 == 1 then 0 else suc above

-- The bits of the list registers that the hardware has.
abbrev pub implemented : ℕ → ℕ
implemented n = 2 ^ n - 1

unfoldable pub select : ℕ → Option ℕ → ℕ
select first none = spurious_irq
select first (some id) = if leb first id && ltb id 1020 then id else spurious_irq

unfoldable pub set_owned_interrupt : Gic → Option ℕ → Gic
set_owned_interrupt g interrupt = record g { owned_interrupt = select 16 interrupt }

unfoldable pub set_network_interrupt : Gic → Option ℕ → Gic
set_network_interrupt g interrupt = record g { network_interrupt = select 32 interrupt }
