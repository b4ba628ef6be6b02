-- ===== src/Network/Service/Callbacks.antt =====
-- The switch keeps its rings well formed, whatever the callbacks of the service do.
use switchvisor.Base.{
  ℕ, ◌≡◌, sym, ◌∙◌, Bool, true, false, ◌==◌, if◌then◌else◌, List, length, drop, length-append,
  length-drop, Option, arith, Bool-cases, inl, inr, Given, Given-and_then,
}
use switchvisor.Network.Frames.{Frames, empty, full, spare, fill, commit, tail, is_size}
use switchvisor.Network.Frames.Push.{IsValid}
use switchvisor.Network.Bridge.{
  Bridge, host, guest, is_legal, route, forward, toward, receive_host, receive_guest, take_slot,
}
use switchvisor.Network.Bridge.Forward.{
  IsSound, route-IsStepped, forward-IsStepped, legal_size, goes_on,
}
use switchvisor.Network.Frames.Replies.{commit-answered}
use mathlib.Core.Path.{subst}
use switchvisor.Network.Service.{deliver}
use switchvisor.Vdev.Virtio.Transfer.{IsFrame}

pub fill-IsValid :
    (f : Frames) (slot : ℕ) (piece : List ℕ)
    → is_size (length piece) ≡ true
    → IsValid f
    → IsValid (fill f slot piece)
unfolding fill
fill-IsValid f slot piece size v = record {
  head_in = v.head_in;
  count_in = v.count_in;
  slots = λ k. elim (Bool-cases (k == slot)) [
    | inr e ↦ rw e (v.slots k)
    | inl e ↦
        (let whole = v.slots k in
          let sum = length-append piece (drop (length piece) (f.bytes k)) in
          let rest = length-drop (length piece) (f.bytes k) in rw e (ground arith))
  ];
  sizes = v.sizes;
}

pub IsSound-if : (c : Bool) (b b' : Bridge) → IsSound b → IsSound b' → IsSound (if c then b else b')
IsSound-if true b b' v v' = v
IsSound-if false b b' v v' = v'

pub onward_legal : (frame : List ℕ) → goes_on frame ≡ true → is_legal frame ≡ true
onward_legal frame h = ground arith

pub sized :
    (frame : List ℕ) → IsFrame frame → (length frame == 0) ≡ false → is_size (length frame) ≡ true
sized frame (inl e) h = absurd (ground arith)
sized frame (inr (lo, hi)) h = ground arith

pub IsSound-host :
    (b : Bridge) (f : Frames) → IsSound b → IsValid f → IsSound (record b { to_host = f })
IsSound-host b f v ok_f = record { host_valid = ok_f; guest_valid = v.guest_valid }

-- On any state of the callback.
module _ {S : Type 0} (K : S → Type 0) where
  pub receive_host-IsSound :
      (deliver : List ℕ → S → Option (Bool × S)) (frame : List ℕ) (s : S) (b : Bridge)
      → ((bytes : List ℕ) (s : S) → K s → Given (deliver bytes s) (λ (done, s'). K s'))
      → K s
      → IsSound b
      → Given (receive_host deliver frame s b) (λ (s', b'). K s' × IsSound b')
  unfolding receive_host
  receive_host-IsSound deliver frame s b delivers k v =
      let (onward, step) = route-IsStepped host frame b v in
      let b' = (route host frame b).1 in
      elim (Bool-cases (route host frame b).0) [
        | inr e ↦ rw e (k, step.sound)
        | inl e ↦
            (let pushed =
                forward-IsStepped guest frame b' step.sound
                  (legal_size frame (onward_legal frame (sym onward ∙ e))) in
              elim (Bool-cases (empty b'.to_guest)) [
                | inr f ↦ rw (e, f) (k, pushed.sound)
                | inl f ↦
                    rw (e, f)
                      (Given-and_then _ (deliver frame s) _ (delivers frame s k) (λ (done, s') k'.
                        (k', IsSound-if done b' (forward guest frame b') step.sound pushed.sound)))
              ])
      ]

  pub take_slot-IsSound :
      (frame : List ℕ) (s : S) (b : Bridge)
      → full b.to_host ≡ false
      → IsFrame frame
      → K s
      → IsSound b
      → Given (take_slot (tail b.to_host) frame s b) (λ (done, s', b'). K s' × IsSound b')
  unfolding take_slot toward
  take_slot-IsSound frame s b room fits k v = elim (Bool-cases (length frame == 0)) [
    | inl e ↦ rw e (k, v)
    | inr e ↦
        (let size = sized frame fits e in
          let slot = tail b.to_host in
          let filled_valid = fill-IsValid b.to_host slot frame size v.host_valid in
          let filled : Bridge = record b { to_host = fill b.to_host slot frame } in
          let (onward, step) =
            route-IsStepped guest frame filled
              (IsSound-host b (fill b.to_host slot frame) v filled_valid) in
          let b' = (route guest frame filled).1 in
          let same : b'.to_host ≡ fill b.to_host slot frame = step.others in
          let (valid, now) = commit-answered b.to_host frame v.host_valid room (inr size) in
          let ok_f = subst (λ f. IsValid (commit f (length frame)).1) (sym same) valid in
          elim (Bool-cases (route guest frame filled).0) [
            | inr no_more ↦ rw (e, no_more) (k, step.sound)
            | inl more ↦
                rw (e, more)
                  (k, IsSound-host b' (commit b'.to_host (length frame)).1 step.sound ok_f)
          ])
  ]

  pub receive_guest-IsSound :
      (fill_slot : S → Option (List ℕ × S)) (s : S) (b : Bridge)
      → ((s : S) → K s → Given (fill_slot s) (λ (frame, s'). IsFrame frame × K s'))
      → K s
      → IsSound b
      → Given (receive_guest fill_slot s b) (λ (done, s', b'). K s' × IsSound b')
  unfolding receive_guest spare
  receive_guest-IsSound fill_slot s b fills k v = elim (Bool-cases (full b.to_host)) [
    | inl e ↦ rw (receive_guest, e) (k, v)
    | inr e ↦
        rw (receive_guest, e)
          (Given-and_then _ (fill_slot s) _ (fills s k)
            (λ (frame, s') (fits, k'). take_slot-IsSound frame s' b e fits k' v))
  ]
