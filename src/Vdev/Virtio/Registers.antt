-- ===== src/Vdev/Virtio/Registers.antt =====
-- The registers of `Net`: `read` and `write` of its `VirtualDevice`. An offset, a size and a value
-- are what the access gave; a register has 32 bits.
use switchvisor.Base.{
  ℕ, ◌+◌, ◌-◌, ◌*◌, ◌/◌, ◌%◌, ◌^◌, Bool, true, false, ◌&&◌, ◌||◌, not, ◌==◌, ltb, leb,
  if◌then◌else◌, List, [], ◌∷◌, ◌++◌, take, drop, Option, none, some, Result, ok, err, from_le, bit,
  bit_and, bit_or, not32, not64,
}
use switchvisor.Mmio.Emulate.{VirtualDevice}
use switchvisor.Vdev.Virtio.Queue.{Queue}
use switchvisor.Vdev.Virtio.Device.{Net, new, running}
use switchvisor.Vdev.Virtio.Chain.{queue_size}

-- The one error that this device has.
pub data DeviceError : Type 0 where
  access_size : DeviceError

abbrev pub features : ℕ
features = 2 ^ 5 + 2 ^ 16 + 2 ^ 32

abbrev pub guest_mac : List ℕ
guest_mac = 0x02 ∷ 0x53 ∷ 0x56 ∷ 0 ∷ 0 ∷ 2 ∷ []

-- The queue `sel` of the array of two.
unfoldable pub queue_at : Net → ℕ → Option Queue
queue_at d sel = if sel == 0 then some d.rx else if sel == 1 then some d.tx else none

-- `get_mut`: the queue `sel` is changed, if there is one.
unfoldable pub change_queue : (Queue → Queue) → Net → ℕ → Net
change_queue f d sel =
    if sel == 0 then record d { rx = f d.rx } else if sel == 1 then record d { tx = f d.tx } else d

unfoldable pub read_config : Net → ℕ → ℕ → ℕ
read_config d at size =
    from_le (take size (drop at (guest_mac ++ (if d.link then 1 else 0) ∷ 0 ∷ [])))

unfoldable pub read_register : Net → ℕ → ℕ
read_register d offset =
    let queue = queue_at d d.queue_sel in
    if offset == 0x00
    then 0x7472_6976
    else if offset == 0x04
    then 2
    else if offset == 0x08
    then 1
    else if offset == 0x0c
    then 0x5357_5652
    else if offset == 0x10
    then if ltb d.device_features_sel 2
      then features / 2 ^ (d.device_features_sel * 32) % 2 ^ 32
      else 0
    else if offset == 0x34
    then elim queue [ none ↦ 0 | some q ↦ queue_size ]
    else if offset == 0x44
    then elim queue [ none ↦ 0 | some q ↦ if q.ready then 1 else 0 ]
    else if offset == 0x60
    then d.interrupt
    else if offset == 0x70
    then d.status
    else if offset == 0xfc
    then d.generation
    else 0

unfoldable pub read_value : Net → ℕ → ℕ → Result DeviceError ℕ
read_value d offset size =
    if leb 0x100 offset && ltb offset 0x108
    then if not (size == 1 || size == 2 || size == 4)
        || ltb 0x108 (offset + size)
        || not (offset % size == 0)
      then err access_size
      else ok (read_config d (offset - 0x100) size)
    else if not (size == 4) || not (offset % 4 == 0) || leb 0x1000 offset
    then err access_size
    else ok (read_register d offset)

-- A word of 64 bits with its lower or upper half replaced.
unfoldable pub set_low : ℕ → ℕ → ℕ
set_low word value = word / 2 ^ 32 * 2 ^ 32 + value

unfoldable pub set_high : ℕ → ℕ → ℕ
set_high word value = word % 2 ^ 32 + value * 2 ^ 32

-- Only offered features, and VERSION_1 among them.
unfoldable pub is_acceptable : ℕ → Bool
is_acceptable driver = bit_and driver (not64 features) == 0 && bit driver 32

-- The status that a write of `value` leads to.
unfoldable pub next_status : Net → ℕ → ℕ
next_status d value =
    let next = bit_or value (bit_and d.status 64) in
    let negotiated =
      if bit next 3 && not (is_acceptable d.driver_features)
      then bit_and next (not32 8)
      else next in
    let started =
      if bit_and negotiated 11 == 11 then negotiated else bit_and negotiated (not32 4) in
    bit_and started 0xcf

unfoldable pub poll : Queue → Queue
poll q = record q { poll_pending = q.ready }

unfoldable pub write_status : Net → ℕ → Net
write_status d value =
    let d' : Net = record d { status = next_status d value } in
    if value == 0
    then record new { link = d.link }
    else if not (running d) && running d'
    then record d' { rx = poll d.rx; tx = poll d.tx }
    else d'

-- The registers of the selected queue.
unfoldable pub write_queue : ℕ → ℕ → Queue → Queue
write_queue offset value q =
    if offset == 0x44
    then if value == 0
      then record q { ready = false; poll_pending = false }
      else if value == 1
      then record q { ready = true; poll_pending = true }
      else q
    else if q.ready
    then q
    else if offset == 0x38
    then record q { num = value }
    else if offset == 0x80
    then record q { desc = set_low q.desc value }
    else if offset == 0x84
    then record q { desc = set_high q.desc value }
    else if offset == 0x90
    then record q { avail = set_low q.avail value }
    else if offset == 0x94
    then record q { avail = set_high q.avail value }
    else if offset == 0xa0
    then record q { used = set_low q.used value }
    else if offset == 0xa4
    then record q { used = set_high q.used value }
    else q

unfoldable pub is_queue_register : ℕ → Bool
is_queue_register offset =
    offset == 0x38
    || offset == 0x44
    || offset == 0x80
    || offset == 0x84
    || offset == 0x90
    || offset == 0x94
    || offset == 0xa0
    || offset == 0xa4

unfoldable pub write_features : Net → ℕ → Net
write_features d value = record d {
  driver_features =
      if d.driver_features_sel == 0
      then set_low d.driver_features value
      else set_high d.driver_features value;
}

unfoldable pub write_register : Net → ℕ → ℕ → Net
write_register d offset value =
    if offset == 0x14
    then record d { device_features_sel = value }
    else if offset == 0x24
    then record d { driver_features_sel = value }
    else if offset == 0x20 && not (bit d.status 3) && ltb d.driver_features_sel 2
    then write_features d value
    else if offset == 0x30
    then record d { queue_sel = value }
    else if offset == 0x50
    then change_queue poll d value
    else if offset == 0x64
    then record d { interrupt = bit_and d.interrupt (not32 (bit_and value 3)) }
    else if offset == 0x70
    then write_status d value
    else if is_queue_register offset
    then change_queue (write_queue offset value) d d.queue_sel
    else d

unfoldable pub write : Net → ℕ → ℕ → ℕ → Result DeviceError Net
write d offset size value =
    if not (size == 4) || not (offset % 4 == 0) || leb 0x1000 offset
    then err access_size
    else ok (write_register d offset (value % 2 ^ 32))

-- Reads change nothing.
unfoldable pub read : Net → ℕ → ℕ → Result DeviceError ℕ × Net
read d offset size = (read_value d offset size, d)

unfoldable pub net : VirtualDevice Net DeviceError
net = record { base = 0x700f_e000; size = 0x1000; read = read; write = write }
