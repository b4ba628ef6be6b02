-- ===== src/Vdev/Uart/Guest.antt =====
-- The serial port behind the decoding of the guest's aborts.
use switchvisor.Base.{ℕ, ◌≡◌, Bool, true, false, List, arith, Option-cases, Result-cases, inl, inr}
use switchvisor.Mmio.Decode.{Access, decode_region}
use switchvisor.Mmio.Emulate.{VirtualDevice, emulate, emulate_access, store_data}
use switchvisor.Vdev.Uart.Device.{Uart, DeviceError, read, write}
use switchvisor.Vdev.Uart.Port.{IsSound, read_error, access-IsSound}

abbrev pub uart : VirtualDevice Uart DeviceError
uart = record { base = 0x700f_f000; size = 4096; read = read; write = write }

-- Whether the access was done, and what has to hold if it was not.
abbrev pub IsRefusal : Bool × Uart × List ℕ → Uart → List ℕ → Type 0
IsRefusal (true, u', registers') u registers = Unit
IsRefusal (false, u', registers') u registers = (u' ≡ u) × (registers' ≡ registers)

emulate_access-IsRefusal :
    (a : Access) (u : Uart) (registers : List ℕ)
    → IsSound u
    → IsRefusal (emulate_access uart a u registers) u registers
      × IsSound (emulate_access uart a u registers).1
unfolding emulate_access
emulate_access-IsRefusal a u registers v =
    let sound = access-IsSound u a.offset a.size (store_data a registers) v in
    elim (Result-cases (write u a.offset a.size (store_data a registers))) [
      | inl (u', w) ↦ elim (Result-cases (read u a.offset a.size).0) [
        | inl (value, r) ↦ ground arith
        | inr (e, r) ↦ ground (arith, read_error u a.offset a.size r)
      ]
      | inr (e', w) ↦ elim (Result-cases (read u a.offset a.size).0) [
        | inl (value, r) ↦ ground arith
        | inr (e, r) ↦ ground (arith, read_error u a.offset a.size r)
      ]
    ]

-- An abort of the guest that is not an access of the serial port, or is one that the port refuses,
-- changes neither the port nor the guest's registers; every abort leaves the port well formed.
pub emulate_uart_lem :
    (esr far hpfar : ℕ) (u : Uart) (registers : List ℕ)
    → IsSound u
    → IsRefusal (emulate uart esr far hpfar u registers) u registers
      × IsSound (emulate uart esr far hpfar u registers).1
unfolding emulate
emulate_uart_lem esr far hpfar u registers v =
    elim (Option-cases (decode_region esr far hpfar uart.base uart.size)) [
      | inl h ↦ ground arith
      | inr (a, h) ↦ ground (arith, emulate_access-IsRefusal a u registers v)
    ]
