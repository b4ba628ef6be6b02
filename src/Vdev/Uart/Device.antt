-- ===== src/Vdev/Uart/Device.antt =====
-- `Uart` of uart.rs: its registers, and the device that the guest and the USB console use.
-- Registers hold a byte; `bit x k` is the test of a bit.
use switchvisor.Base.{
  ℕ, ◌%◌, ◌^◌, min, Bool, true, false, ◌&&◌, ◌||◌, not, ◌==◌, if◌then◌else◌, List, [], ◌∷◌, length,
  take, bit, bit_and, bit_or, Option, none, some, Result, ok, err,
}
use switchvisor.Vdev.Uart.Queue.{Ring, new, push, pop, clear, free, TxQueue, tx_new, tx_push}

abbrev pub tx_capacity : ℕ
tx_capacity = 65536

abbrev pub rx_capacity : ℕ
rx_capacity = 4096

pub data DeviceError : Type 0 where
  access_size register : DeviceError

pub record Uart : Type 0 where
  pub divisor : ℕ × ℕ
  pub ier : ℕ
  pub lcr : ℕ
  pub mcr : ℕ
  pub fifo : Bool
  pub scratch : ℕ
  pub overrun : Bool
  pub rx : Ring
  pub tx : TxQueue

unfoldable pub start : Uart
start = record {
  divisor = (0, 0);
  ier = 0;
  lcr = 0;
  mcr = 0;
  fifo = false;
  scratch = 0;
  overrun = false;
  rx = new rx_capacity;
  tx = tx_new tx_capacity;
}

-- `for &byte in &bytes[..count] { assert!(self.rx.push(byte)) }`: `none` is a failed assertion.
unfoldable pub push_all : Ring → List ℕ → Option Ring
push_all q [] = some q
push_all q (byte ∷ rest) =
    let (accepted, q') = push rx_capacity q byte in
    let done = push_all q' rest in if accepted then done else none

unfoldable pub receive : Uart → List ℕ → Option (ℕ × Uart)
receive u bytes =
    let count = min (length bytes) (free rx_capacity u.rx) in
    elim (push_all u.rx (take count bytes)) [
      | none ↦ none
      | some rx ↦
          some (
            count,
            record u { rx = rx; overrun = if count == length bytes then u.overrun else true },
          )
    ]

unfoldable pub is_empty : Ring → Bool
is_empty q = q.len == 0

unfoldable pub interrupt_pending : Uart → Bool
interrupt_pending u = (bit u.ier 0 && not (is_empty u.rx)) || (bit u.ier 2 && u.overrun)

-- The bit `from` of a value, moved to the bit `to`.
abbrev pub move : ℕ → ℕ → ℕ → ℕ
move value from to = if bit value from then 2 ^ to else 0

unfoldable pub identification : Uart → ℕ
identification u =
    let fifo = if u.fifo then 0xc0 else 0 in
    if bit u.ier 2 && u.overrun
    then bit_or fifo 0x06
    else if bit u.ier 0 && not (is_empty u.rx)
    then bit_or fifo 0x04
    else bit_or fifo 1

unfoldable pub line_status : Uart → ℕ
line_status u = bit_or (bit_or 0x60 (if is_empty u.rx then 0 else 1)) (if u.overrun then 2 else 0)

unfoldable pub modem_status : Uart → ℕ
modem_status u =
    if bit u.mcr 4
    then bit_or (bit_or (bit_or (move u.mcr 1 4) (move u.mcr 0 5)) (move u.mcr 2 6))
        (move u.mcr 3 7)
    else 0xb0

unfoldable pub read_receiver : Uart → ℕ × Uart
read_receiver u =
    let (byte, rx) = pop rx_capacity u.rx in
    (elim byte [ none ↦ 0 | some b ↦ b ], record u { rx = rx })

-- `none` stands for an offset that is no register.
unfoldable pub read_register : Uart → ℕ → Option ℕ × Uart
read_register u offset =
    if offset == 0 && bit u.lcr 7
    then (some u.divisor.0, u)
    else if offset == 1 && bit u.lcr 7
    then (some u.divisor.1, u)
    else if offset == 0
    then (let (byte, u') = read_receiver u in (some byte, u'))
    else if offset == 1
    then (some u.ier, u)
    else if offset == 2
    then (some (identification u), u)
    else if offset == 3
    then (some u.lcr, u)
    else if offset == 4
    then (some u.mcr, u)
    else if offset == 5
    then (some (line_status u), record u { overrun = false })
    else if offset == 6
    then (some (modem_status u), u)
    else if offset == 7
    then (some u.scratch, u)
    else (none, u)

unfoldable pub write_control : Uart → ℕ → Uart
write_control u value =
    let u' = record u { fifo = bit value 0 } in
    if bit value 1 then record u' { rx = clear u.rx; overrun = false } else u'

unfoldable pub write_register : Uart → ℕ → ℕ → Result DeviceError Uart
write_register u offset value =
    if (offset == 0 || offset == 1) && bit u.lcr 7
    then ok
        (record u { divisor = if offset == 0 then (value, u.divisor.1) else (u.divisor.0, value) })
    else if offset == 0
    then ok (record u { tx = tx_push tx_capacity u.tx value })
    else if offset == 1
    then ok (record u { ier = bit_and value 0x05 })
    else if offset == 2
    then ok (write_control u value)
    else if offset == 3
    then ok (record u { lcr = value })
    else if offset == 4
    then ok (record u { mcr = bit_and value 0x1f })
    else if offset == 5 || offset == 6
    then ok u
    else if offset == 7
    then ok (record u { scratch = value })
    else err register

unfoldable pub read : Uart → ℕ → ℕ → Result DeviceError ℕ × Uart
read u offset size =
    if not (size == 1)
    then (err access_size, u)
    else let (value, u') = read_register u offset in
      (elim value [ none ↦ err register | some v ↦ ok v ], u')

-- `value as u8`
unfoldable pub write : Uart → ℕ → ℕ → ℕ → Result DeviceError Uart
write u offset size value =
    if not (size == 1) then err access_size else write_register u offset (value % 2 ^ 8)
