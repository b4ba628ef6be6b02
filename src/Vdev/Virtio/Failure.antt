-- ===== src/Vdev/Virtio/Failure.antt =====
-- A device that is marked as in need of a reset.
use switchvisor.Base.{
  some, ℕ, ◌%◌, ◌^◌, ◌≡◌, refl, inl, inr, ◌∙◌, true, false, ◌&&◌, not, ◌==◌, if◌then◌else◌, List,
  [], ◌∷◌, Bool-cases, Given, Given_map, Given-and_then, Given_map, arith, bit, bit_and, bit_or,
  not32, bit-bit_or, all,
}
use switchvisor.Vdev.Virtio.Memory.{GuestMemory}
use switchvisor.Vdev.Virtio.Device.{Net, running, status_runs, set_link, transmit, receive}
use switchvisor.Vdev.Virtio.Queue.{Queue}
use switchvisor.Vdev.Virtio.Negotiation.{bit_kept, bit_kept_if}
use switchvisor.Vdev.Virtio.Lifetime.{
  Event, register_write, send, deliver, plug, is_reset, happen, run,
}
use switchvisor.Vdev.Virtio.Registers.{
  write_features, change_queue, poll, write_queue, is_acceptable, next_status, write_status,
  write_register, write,
}

next_status-marked :
    (d : Net) (value : ℕ) → bit d.status 6 ≡ true → bit (next_status d value) 6 ≡ true
unfolding next_status
next_status-marked d value h =
    let next = bit_or value (bit_and d.status 64) in
    let unfit = bit next 3 && not (is_acceptable d.driver_features) in
    let negotiated = if unfit then bit_and next (not32 8) else next in
    let started =
      if bit_and negotiated 11 == 11 then negotiated else bit_and negotiated (not32 4) in
    let own = bit_kept d.status 64 6 refl in
    let joined = bit-bit_or 6 value (bit_and d.status 64) in
    let cleared = bit_kept next (not32 8) 6 refl in
    let second = bit_kept_if (bit_and negotiated 11 == 11) negotiated (not32 4) 6 refl in
    let third = bit_kept started 0xcf 6 refl in
    let first : bit negotiated 6 ≡ bit next 6 = elim (Bool-cases unfit) [
      | inl e ↦ rw e cleared
      | inr e ↦ rw e refl
    ] in
    third ∙ second ∙ first ∙ ground arith

change_queue-status :
    (f : Queue → Queue) (d : Net) (sel : ℕ) → (change_queue f d sel).status ≡ d.status
unfolding change_queue
change_queue-status f d sel = ground arith

write_register-marked :
    (d : Net) (offset value : ℕ)
    → (offset == 0x70 && value == 0) ≡ false
    → bit d.status 6 ≡ true
    → bit (write_register d offset value).status 6 ≡ true
unfolding write_register write_features write_status
write_register-marked d offset value no_reset h =
    let polled = change_queue-status poll d value in
    let changed = change_queue-status (write_queue offset value) d d.queue_sel in
    let marked = next_status-marked d value h in ground arith

marked_idle : (status : ℕ) → bit status 6 ≡ true → status_runs status ≡ false
unfolding status_runs
marked_idle status h = ground arith

module _ {S : Type 0} (memory : GuestMemory S) where
  happen_marked :
      (event : Event) (s : S) (d : Net)
      → is_reset event ≡ false
      → bit d.status 6 ≡ true
      → Given (happen memory event s d) (λ (s', d'). (s' ≡ s) × (bit d'.status 6 ≡ true))
  unfolding happen is_reset write running set_link transmit receive
  happen_marked (register_write offset size value) s d keeps h =
      let marked = write_register-marked d offset (value % 2 ^ 32) keeps h in ground arith
  happen_marked send s d keeps h = rw (marked_idle d.status h) (refl, h)
  happen_marked (deliver frame) s d keeps h = rw (marked_idle d.status h) (refl, h)
  happen_marked (plug up) s d keeps h = ground arith

  transmit_marked :
      (s : S) (d : Net) → bit d.status 6 ≡ true → transmit memory s d ≡ some ([], s, d)
  unfolding transmit running
  transmit_marked s d h = rw (transmit, marked_idle d.status h) refl

  receive_marked :
      (frame : List ℕ) (s : S) (d : Net)
      → bit d.status 6 ≡ true
      → receive memory frame s d ≡ some (false, s, d)
  unfolding receive running
  receive_marked frame s d h = rw (receive, marked_idle d.status h) refl

  -- A device in need of a reset stays so over any events but the write of 0 to its status, and guest
  -- memory is not touched. After any such events a call of `transmit` gives no frame, one of `receive`
  -- refuses the frame, and neither changes the device.
  pub run_marked :
      (events : List Event) (frame : List ℕ) (s : S) (d : Net)
      → all (λ event. not (is_reset event)) events ≡ true
      → bit d.status 6 ≡ true
      → Given (run memory events s d) (λ (s', d').
        (s' ≡ s)
        × (bit d'.status 6 ≡ true)
        × (transmit memory s' d' ≡ some ([], s', d'))
        × (receive memory frame s' d' ≡ some (false, s', d')))
  unfolding run
  run_marked [] frame s d keeps h = (refl, h, transmit_marked s d h, receive_marked frame s d h)
  run_marked (event ∷ rest) frame s d keeps h =
      Given-and_then _ (happen memory event s d) (λ (s', d'). run memory rest s' d')
        (happen_marked event s d (ground arith) h)
        (λ (s', d') (same, h').
          Given_map (run memory rest s' d') (run_marked rest frame s' d' (ground arith) h')
            (λ o (again, still, no_frame, refused). (again ∙ same, still, no_frame, refused)))
