-- ===== src/Vdev/Uart/Port.antt =====
-- What the device promises: bytes that the console sends reach the guest in order, bytes that the
-- guest sends reach the console, and the registers tell of them.
use switchvisor.Base.{
  Given, Given_map, Holds, ◌↔◌, ℕ, ◌+◌, ◌-◌, ◌%◌, ◌^◌, ◌≤◌, ◌≡◌, ap, ◌∙◌, sym, min, true, false,
  ◌||◌, ◌==◌, ltb, if◌then◌else◌, List, [], ◌∷◌, ◌++◌, length, get_or, take, drop, arith, ok, err,
  bit, length-take, length-append, Option-cases, inl, inr,
}
use mathlib.Core.List.{append_assoc, append-nil}
use switchvisor.Vdev.Uart.Queue.{Ring, push, free}
use switchvisor.Vdev.Uart.Fifo.{
  contents, IsValid, length-contents, contents-push, contents-pop, contents-tx_push,
  tx_push-IsValid, clear-IsValid,
}
use switchvisor.Vdev.Uart.Device.{
  Uart, DeviceError, access_size, register, rx_capacity, tx_capacity, push_all, receive,
  interrupt_pending, identification, read_register, read_receiver, write_register, write,
  write_control, read,
}

-- All the bytes go to the end, if there is room for them.
push_all-contents :
    (q : Ring) (bytes : List ℕ)
    → IsValid rx_capacity q
    → q.len + length bytes ≤ rx_capacity
    → Given
        (push_all q bytes)
        (λ q'. IsValid rx_capacity q' × (contents rx_capacity q' ≡ contents rx_capacity q ++ bytes))
unfolding push_all
push_all-contents q [] v h = (v, sym (append-nil (contents rx_capacity q)))
push_all-contents q (byte ∷ rest) v h =
    let (valid, took, now) = contents-push rx_capacity q byte v in
    let size = length-contents rx_capacity q in
    let here : ltb (length (contents rx_capacity q)) rx_capacity ≡ true = ground arith in
    let grown : contents rx_capacity (push rx_capacity q byte).1
        ≡ contents rx_capacity q ++ byte ∷ [] =
      ground arith in
    let after = length-contents rx_capacity (push rx_capacity q byte).1 in
    let longer = ap length grown ∙ length-append (contents rx_capacity q) (byte ∷ []) in
    let more = push_all-contents (push rx_capacity q byte).1 rest valid (omega arith) in
    rw (took, here)
      (Given_map (push_all (push rx_capacity q byte).1 rest) more (λ q' (ok_now, e). (
        ok_now,
        e ∙ ap (λ xs. xs ++ rest) grown ∙ append_assoc (contents rx_capacity q) (byte ∷ []) rest,
      )))

-- Both rings are well formed.
pub record IsSound (u : Uart) : Type 0 where
  pub rx_ok : IsValid rx_capacity u.rx
  pub tx_ok : IsValid tx_capacity u.tx.ring

-- The assertion on a push never fails: the console's bytes go to the end of what the guest has yet
-- to read, as many as there is room for, and the overrun is noted when some did not fit.
pub receive-contents :
    (u : Uart) (bytes : List ℕ)
    → IsSound u
    → Given (receive u bytes) (λ (count, u').
      (count ≡ min (length bytes) (rx_capacity - length (contents rx_capacity u.rx)))
      × (contents rx_capacity u'.rx ≡ contents rx_capacity u.rx ++ take count bytes)
      × (u'.overrun ≡ (u.overrun || ltb count (length bytes)))
      × IsSound u')
unfolding receive free
receive-contents u bytes v =
    let count = min (length bytes) (free rx_capacity u.rx) in
    let size = length-contents rx_capacity u.rx in
    let done =
      push_all-contents u.rx (take count bytes) v.rx_ok
        (omega (arith, length-take count bytes, v.rx_ok.fits)) in
    elim (Option-cases (push_all u.rx (take count bytes))) [
      | inl h ↦ ground arith
      | inr (q, h) ↦ ground arith
    ]

-- The interrupt line is up exactly when the identification register says so in its lowest bit.
pub interrupt_pending_iff :
    (u : Uart) → (interrupt_pending u ≡ true) ↔ (bit (identification u) 0 ≡ false)
unfolding interrupt_pending identification
interrupt_pending_iff u = ground arith

-- An access that fails changes nothing.
pub read_error :
    (u : Uart) (offset size : ℕ) {e : DeviceError}
    → (read u offset size).0 ≡ err e
    → ((read u offset size).1 ≡ u)
      × (if size == 1 then (8 ≤ offset) × (e ≡ register) else (e ≡ access_size))
unfolding read read_register
read_error u offset size h = ground arith

read_receiver-IsSound : (u : Uart) → IsSound u → IsSound (read_receiver u).1
unfolding read_receiver
read_receiver-IsSound u v =
    let popped = contents-pop rx_capacity u.rx v.rx_ok in
    record { rx_ok = popped.0; tx_ok = v.tx_ok }

-- Every access of the guest, whether it succeeds or not, leaves both queues well formed.
pub access-IsSound :
    (u : Uart) (offset size value : ℕ)
    → IsSound u
    → IsSound (read u offset size).1 × Holds (write u offset size value) IsSound
unfolding read read_register write write_register write_control
access-IsSound u offset size value v =
    let received = read_receiver-IsSound u v in
    let cleared = clear-IsValid rx_capacity u.rx v.rx_ok in
    let sent = tx_push-IsValid tx_capacity u.tx (value % 2 ^ 8) v.tx_ok in ground arith

-- With the divisor latch closed, the guest's byte read of the data register takes the oldest byte
-- that the console sent, or reads 0 when there is none, and leaves what it sends alone; its byte
-- write goes to the end of what the console has yet to fetch, unless that queue is full.
pub data_register_lem :
    (u : Uart) (value : ℕ)
    → IsSound u
    → bit u.lcr 7 ≡ false
    → ((read u 0 1).0 ≡ ok (get_or (contents rx_capacity u.rx) 0 0))
      × (contents rx_capacity (read u 0 1).1.rx ≡ drop 1 (contents rx_capacity u.rx))
      × ((read u 0 1).1.tx ≡ u.tx)
      × Holds (write u 0 1 value) (λ u'.
        (u'.rx ≡ u.rx)
        × (contents tx_capacity u'.tx.ring ≡ (
            if u.tx.ring.len == tx_capacity
            then contents tx_capacity u.tx.ring
            else contents tx_capacity u.tx.ring ++ value % 2 ^ 8 ∷ [])))
unfolding read read_register read_receiver write write_register
data_register_lem u value v latch =
    let popped = contents-pop rx_capacity u.rx v.rx_ok in
    let sent = contents-tx_push tx_capacity u.tx (value % 2 ^ 8) v.tx_ok in ground arith
