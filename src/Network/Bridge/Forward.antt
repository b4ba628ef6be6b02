-- ===== src/Network/Bridge/Forward.antt =====
-- Where a frame goes: the queues of the switch as lists, after `receive`.
use switchvisor.Base.{
  ℕ, ◌≤◌, ◌≡◌, ◌⊎◌, refl, sym, ap, ◌∙◌, Bool, true, false, ◌&&◌, ◌||◌, not, ltb, if◌then◌else◌,
  List, [], ◌∷◌, length, get_or, arith, Bool-cases, inl, inr, bit, saturating_add, saturating_add,
}
use switchvisor.Network.Frames.{
  Frames, full, spare, fill, commit, push, iter, tail, is_size, ring_size,
}
use switchvisor.Network.Frames.Push.{IsValid}
use switchvisor.Network.Frames.Replies.{offered, answered, push-offered, commit-answered, full_iff}
use switchvisor.Network.Management.{management}
use switchvisor.Network.Management.Replies.{management-size}
use switchvisor.Network.Bridge.{
  Bridge, Port, host, guest, toward, with_queue, other, reject_one, is_local, is_legal, answer,
  route, forward, receive,
}

pub record IsSound (b : Bridge) : Type 0 where
  pub host_valid : IsValid b.to_host
  pub guest_valid : IsValid b.to_guest

-- The queue toward a port, as a list.
abbrev pub queued : Port → Bridge → List (List ℕ)
queued port b = iter (toward port b)

toward-IsValid : (port : Port) (b : Bridge) → IsSound b → IsValid (toward port b)
unfolding toward
toward-IsValid host b v = v.host_valid
toward-IsValid guest b v = v.guest_valid

with_queue-IsSound :
    (port : Port) (f : Frames) (b : Bridge) → IsSound b → IsValid f → IsSound (with_queue port f b)
unfolding with_queue
with_queue-IsSound host f b v ok_f = record { host_valid = ok_f; guest_valid = v.guest_valid }
with_queue-IsSound guest f b v ok_f = record { host_valid = v.host_valid; guest_valid = ok_f }

toward-with_queue : (port : Port) (f : Frames) (b : Bridge) → toward port (with_queue port f b) ≡ f
unfolding toward with_queue
toward-with_queue host f b = refl
toward-with_queue guest f b = refl

toward-other :
    (port : Port) (f : Frames) (b : Bridge)
    → toward (other port) (with_queue port f b) ≡ toward (other port) b
unfolding toward with_queue
toward-other host f b = refl
toward-other guest f b = refl

-- A bridge after a step that changed only the queue toward `port`, which is now `frames`.
pub record IsStepped (port : Port) (frames : List (List ℕ)) (b b' : Bridge) : Type 0 where
  pub sound : IsSound b'
  pub now : queued port b' ≡ frames
  pub others : toward (other port) b' ≡ toward (other port) b

stepped :
    (port : Port) (f : Frames) (b : Bridge) {frames : List (List ℕ)}
    → IsSound b
    → IsValid f
    → iter f ≡ frames
    → IsStepped port frames b (with_queue port f b)
stepped port f b v ok_f e = record {
  sound = with_queue-IsSound port f b v ok_f;
  now = ap iter (toward-with_queue port f b) ∙ e;
  others = toward-other port f b;
}

-- Counters do not matter.
abbrev counted : ℕ → ℕ → ℕ → Bridge → Bridge
counted received rejected replies b = record b {
  received = received;
  rejected = rejected;
  management_replies = replies;
}

toward-counted :
    (port : Port) (r n m : ℕ) (b : Bridge) → toward port (counted r n m b) ≡ toward port b
unfolding toward
toward-counted host r n m b = refl
toward-counted guest r n m b = refl

recount :
    (port : Port) (frames : List (List ℕ)) (b b' : Bridge) (r n m : ℕ)
    → IsStepped port frames b b'
    → IsStepped port frames b (counted r n m b')
recount port frames b b' r n m step = record {
  sound = let v = step.sound in record { host_valid = v.host_valid; guest_valid = v.guest_valid };
  now = ap iter (toward-counted port r n m b') ∙ step.now;
  others = toward-counted (other port) r n m b' ∙ step.others;
}

still :
    (port : Port) (b : Bridge) {frames : List (List ℕ)}
    → IsSound b
    → queued port b ≡ frames
    → IsStepped port frames b b
still port b v e = record { sound = v; now = e; others = refl }

answered_full :
    (f : Frames) (reply : List ℕ) → IsValid f → full f ≡ true → iter f ≡ answered (iter f) reply
answered_full f [] v h = refl
answered_full f (x ∷ reply) v h =
    let by_list = full_iff f v in
    let long : ltb (length (iter f)) ring_size ≡ false = ground arith in rw long refl

answer-IsStepped :
    (back : Port) (frame : List ℕ) (b : Bridge)
    → IsSound b
    → (management frame ≡ []) ⊎ (is_size (length (management frame)) ≡ true)
    → IsStepped back (answered (queued back b) (management frame)) b (answer back frame b)
unfolding answer spare reject_one
answer-IsStepped back frame b v size =
    let ok_f = toward-IsValid back b v in
    let f = toward back b in
    let reply = management frame in
    elim (Bool-cases (full f)) [
      | inl e ↦
          rw (answer, e)
            (recount back (answered (queued back b) reply) b b _ _ _
              (still back b v (answered_full f reply ok_f e)))
      | inr e ↦
          (let (valid, now) = commit-answered f reply ok_f e size in
            let done = (commit (fill f (tail f) reply) (length reply)).0 in
            let f' = (commit (fill f (tail f) reply) (length reply)).1 in
            let step = stepped back f' b v valid now in
            elim (Bool-cases done) [
              | inl took ↦
                  rw (answer, e, took)
                    (recount back (answered (queued back b) reply) b (with_queue back f' b) _ _ _
                      step)
              | inr left ↦ rw (answer, e, left) step
            ])
    ]

offered_full :
    (f : Frames) (frame : List ℕ)
    → ltb (length (iter f)) ring_size ≡ false
    → iter f ≡ offered (iter f) frame
offered_full f frame h = rw h refl

pub forward-IsStepped :
    (port : Port) (frame : List ℕ) (b : Bridge)
    → IsSound b
    → is_size (length frame) ≡ true
    → IsStepped port (offered (queued port b) frame) b (forward port frame b)
unfolding forward reject_one
forward-IsStepped port frame b v size =
    let ok_f = toward-IsValid port b v in
    let (valid, now, taken) = push-offered (toward port b) frame ok_f size in
    let f' = (push (toward port b) frame).1 in
    elim (Bool-cases (push (toward port b) frame).0) [
      | inl took ↦ rw took (stepped port f' b v valid now)
      | inr left ↦ rw left (
          recount port (offered (queued port b) frame) b b _ _ _
            (still port b v (offered_full (toward port b) frame (sym taken ∙ left))))
    ]

uncount :
    (port : Port) (b b' : Bridge) (reply : List ℕ) (r n m : ℕ)
    → IsStepped port (answered (queued port (counted r n m b)) reply) (counted r n m b) b'
    → IsStepped port (answered (queued port b) reply) b b'
uncount port b b' reply r n m step = record {
  sound = step.sound;
  now = step.now ∙ ap (λ f. answered (iter f) reply) (toward-counted port r n m b);
  others = step.others ∙ toward-counted (other port) r n m b;
}

toward_twice : (port : Port) (b : Bridge) → toward (other (other port)) b ≡ toward port b
toward_twice host b = refl
toward_twice guest b = refl

reply_size :
    (frame : List ℕ)
    → is_legal frame ≡ true
    → (management frame ≡ []) ⊎ (is_size (length (management frame)) ≡ true)
unfolding is_legal
reply_size frame legal =
    let small : length frame ≤ 1514 = ground arith in
    elim (management-size frame small) [ inl e ↦ inl e | inr (lo, hi) ↦ inr (ground arith) ]

pub legal_size : (frame : List ℕ) → is_legal frame ≡ true → is_size (length frame) ≡ true
unfolding is_legal
legal_size frame h = ground arith

-- Frames that ask for an answer, and frames that go on.
abbrev pub asks : List ℕ → Bool
asks frame = is_legal frame && (is_local frame || bit (get_or frame 0 0) 0)

abbrev pub goes_on : List ℕ → Bool
goes_on frame = is_legal frame && not (is_local frame)

pub route-IsStepped :
    (back : Port) (frame : List ℕ) (b : Bridge)
    → IsSound b
    → ((route back frame b).0 ≡ goes_on frame)
      × IsStepped back
          (if asks frame then answered (queued back b) (management frame) else queued back b)
          b
          (route back frame b).1
unfolding route reject_one
route-IsStepped back frame b v = elim (Bool-cases (is_legal frame)) [
  | inr e ↦ rw e (refl, recount back (queued back b) b b _ _ _ (still back b v refl))
  | inl e ↦
      (let r = saturating_add b.received 1 in
        let taken = counted r b.rejected b.management_replies b in
        let v' : IsSound taken = record {
          host_valid = v.host_valid;
          guest_valid = v.guest_valid;
        } in
        let size = reply_size frame e in
        let b' = answer back frame taken in
        let answering = answer-IsStepped back frame taken v' size in
        elim (Bool-cases (is_local frame || bit (get_or frame 0 0) 0)) [
          | inr quiet ↦
              rw (e, quiet) (refl, recount back (queued back b) b b _ _ _ (still back b v refl))
          | inl asked ↦
              rw (e, asked)
                (
                  refl,
                  uncount back b b' (management frame) r b.rejected b.management_replies answering,
                )
        ])
]

-- What a frame does to the two queues. It goes to the end of the other side's if it is of a legal
-- size, not from a group address and not for the endpoint alone; the reply, if there is one, goes to
-- the end of its own side's if it is for the endpoint or a group. A queue of eight stays as it is.
pub receive-queues :
    (port : Port) (frame : List ℕ) (b : Bridge)
    → IsSound b
    → IsSound (receive port frame b)
      × (queued (other port) (receive port frame b) ≡ (
          if goes_on frame then offered (queued (other port) b) frame else queued (other port) b))
      × (queued port (receive port frame b)
          ≡ (if asks frame then answered (queued port b) (management frame) else queued port b))
unfolding receive
receive-queues port frame b v =
    let (onward, step) = route-IsStepped port frame b v in
    let b' = (route port frame b).1 in
    elim (Bool-cases (goes_on frame)) [
      | inr e ↦ rw (onward, e) (step.sound, ap iter step.others, step.now)
      | inl e ↦
          (let size = legal_size frame (ground arith) in
            let last = forward-IsStepped (other port) frame b' step.sound size in
            let back : toward port (forward (other port) frame b') ≡ toward port b' =
              sym (toward_twice port (forward (other port) frame b'))
              ∙ last.others
              ∙ toward_twice port b' in
            rw (onward, e)
              (
                last.sound,
                last.now ∙ ap (λ f. offered (iter f) frame) step.others,
                ap iter back ∙ step.now,
              ))
    ]
