-- ===== src/Vdev/Uart/Tests.antt =====
-- The theorems on the serial port: a port that was just made, and one that was sent two bytes.
use switchvisor.Base.{◌≡◌, arith, [], ◌∷◌, ◌-◌, length, take, ltb, ◌||◌, Given, min, ◌++◌}
use switchvisor.Vdev.Uart.Queue.{new, tx_new}
use switchvisor.Vdev.Uart.Device.{Uart, start, receive, rx_capacity, tx_capacity}
use switchvisor.Vdev.Uart.Fifo.{contents, IsValid, new-IsValid}
use switchvisor.Vdev.Uart.Port.{IsSound, receive-contents}

start-IsSound : IsSound start
unfolding start tx_new new
start-IsSound = record {
  rx_ok = new-IsValid rx_capacity (omega arith);
  tx_ok = new-IsValid tx_capacity (omega arith);
}

-- A port with the receive interrupt enabled, one byte behind the guest's.
abbrev receiving : Uart
receiving = record start { ier = 1 }

receiving-IsSound : IsSound receiving
receiving-IsSound = record { rx_ok = start-IsSound.rx_ok; tx_ok = start-IsSound.tx_ok }

receive-contents_example : Given (receive receiving (65 ∷ 66 ∷ [])) (λ (count, u').
    (count ≡ min 2 (rx_capacity - length (contents rx_capacity receiving.rx)))
    × (contents rx_capacity u'.rx ≡ contents rx_capacity receiving.rx ++ take count (65 ∷ 66 ∷ []))
    × (u'.overrun ≡ (receiving.overrun || ltb count 2))
    × IsSound u')
receive-contents_example = receive-contents receiving (65 ∷ 66 ∷ []) receiving-IsSound

queue-IsValid : IsValid 2 (tx_new 2).ring
unfolding tx_new
queue-IsValid = new-IsValid 2 (omega arith)
