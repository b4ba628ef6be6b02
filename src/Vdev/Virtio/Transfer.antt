-- ===== src/Vdev/Virtio/Transfer.antt =====
-- Frames of either direction, whatever the guest wrote to its rings: the call returns, keeps to the
-- memory that `valid` accepts, and leaves the negotiation alone.
use switchvisor.Base.{
  ℕ, ◌+◌, ◌-◌, ◌≤◌, ◌≡◌, refl, ◌⊎◌, inl, inr, ap, ◌∙◌, Bool, true, false, ◌||◌, not, ltb,
  if◌then◌else◌, List, [], length, Option, none, some, Bool-cases, Given, IfSome, Given_map, arith,
  bit_or,
}
use mathlib.Core.Option
use switchvisor.Vdev.Virtio.Memory.{GuestMemory, IsKept, IsExact}
use switchvisor.Vdev.Virtio.Chain
use switchvisor.Vdev.Virtio.Chain.{Chain}
use switchvisor.Vdev.Virtio.Device.{
  Net, running, broken, raise, settle, Outcome, transmit, transmit_inner, transmit_chain,
  transmit_header, transmit_frame, transmitted, transmit_next, receive, receive_inner, receive_next,
  receive_chain, received, receive_frame, receive_headed, receive_header, bad_header,
}
use switchvisor.Vdev.Virtio.Queue.{Queue, Next, next, finish, is_valid}
use switchvisor.Vdev.Virtio.Visits.{IsTaken}
use switchvisor.Vdev.Virtio.Confine.{
  IsFound, next-IsFound, finish-kept, gather-kept, scatter-kept, gather-size,
}

-- The device after a frame: the features are as before, and so is the status, or the device is
-- marked as in need of a reset.
pub record IsSettled (d d' : Net) : Type 0 where
  pub same_features : d'.driver_features ≡ d.driver_features
  pub marked : (d'.status ≡ d.status) ⊎ (d'.status ≡ bit_or d.status 64)

abbrev IsAlike : Net → Net → Type 0
IsAlike d d' = (d'.driver_features ≡ d.driver_features) × (d'.status ≡ d.status)

-- Nothing, or a frame of a size that Ethernet allows.
abbrev pub IsFrame : List ℕ → Type 0
IsFrame frame = (frame ≡ []) ⊎ ((14 ≤ length frame) × (length frame ≤ 1514))

IfSome_map :
    {A : Type 0} (o : Option A) {Q R : A → Type 0} → IfSome o Q → ((a : A) → Q a → R a) → IfSome o R
IfSome_map none q f = tt
IfSome_map (some a) q f = f a q

module _ {S : Type 0} (memory : GuestMemory S) (P : S → Type 0) (kept : IsKept memory P) where
  -- An outcome of a call that found the device as `d`: what it returns, if it does, is as `Q` says.
  unfoldable Fine : {A : Type 0} → (A → Type 0) → Net → Outcome S A → Type 0
  Fine Q d (o, s, d') = IfSome o Q × P s × IsAlike d d'

  Fine-if :
      {A : Type 0} (Q : A → Type 0) (d : Net) (b : Bool) (x y : Outcome S A)
      → (b ≡ true → Fine Q d x)
      → (b ≡ false → Fine Q d y)
      → Fine Q d (if b then x else y)
  Fine-if Q d true x y f g = f refl
  Fine-if Q d false x y f g = g refl

  Fine-error : {A : Type 0} (Q : A → Type 0) (d : Net) (s : S) → P s → Fine Q d (none, s, d)
  unfolding Fine
  Fine-error Q d s p = (tt, p, (refl, refl))

  transmitted-Fine :
      (frame : List ℕ) (d : Net) (o : Option Bool × S × Queue)
      → IsFrame frame
      → P o.1
      → Fine IsFrame d (transmitted frame d o)
  unfolding transmitted raise Fine
  transmitted-Fine frame d (none, s, q) ok p = (tt, p, ground arith)
  transmitted-Fine frame d (some notify, s, q) ok p = (ok, p, ground arith)

  transmit_frame-Fine :
      (d : Net) (o : Option (List ℕ) × S)
      → IfSome o.0 IsFrame
      → P o.1
      → is_valid memory d.tx ≡ true
      → Fine IsFrame d (transmit_frame memory d o)
  unfolding transmit_frame
  transmit_frame-Fine d (none, s) ok p valid = Fine-error IsFrame d s p
  transmit_frame-Fine d (some frame, s) ok p valid =
      let p' = finish-kept memory P kept d.tx s d.chain.head 0 p valid in
      transmitted-Fine frame d (finish memory d.tx s d.chain.head 0) ok p'

  received-Fine :
      (d : Net) (o : Option Bool × S × Queue) → P o.1 → Fine (λ _. Unit) d (received d o)
  unfolding received raise Fine
  received-Fine d (none, s, q) p = (tt, p, ground arith)
  received-Fine d (some notify, s, q) p = (tt, p, ground arith)

  receive_frame-Fine :
      (size : ℕ) (d : Net) (o : Bool × S)
      → P o.1
      → is_valid memory d.rx ≡ true
      → Fine (λ _. Unit) d (receive_frame memory size d o)
  unfolding receive_frame
  receive_frame-Fine size d (false, s) p valid = Fine-error _ d s p
  receive_frame-Fine size d (true, s) p valid =
      received-Fine d (finish memory d.rx s d.chain.head size)
        (finish-kept memory P kept d.rx s d.chain.head size p valid)

  receive_headed-Fine :
      (frame : List ℕ) (d : Net) (o : Bool × S)
      → P o.1
      → is_valid memory d.rx ≡ true
      → IsTaken memory d.chain
      → Fine (λ _. Unit) d (receive_headed memory frame d o)
  unfolding receive_headed Chain.write
  receive_headed-Fine frame d (false, s) p valid taken = Fine-error _ d s p
  receive_headed-Fine frame d (true, s) p valid taken =
      receive_frame-Fine (12 + length frame) d (Chain.write memory d.chain s 12 frame)
        (scatter-kept memory P kept d.chain.segments s 12 frame p taken.all_valid) valid

  receive_chain-Fine :
      (frame : List ℕ) (s : S) (d : Net)
      → P s
      → is_valid memory d.rx ≡ true
      → IsTaken memory d.chain
      → Fine (λ _. Unit) d (receive_chain memory frame s d)
  unfolding receive_chain Chain.write
  receive_chain-Fine frame s d p valid taken =
      Fine-if _ d (ltb d.chain.total (12 + length frame)) (none, s, d)
        (receive_headed memory frame d (Chain.write memory d.chain s 0 receive_header))
        (λ _. Fine-error _ d s p)
        (λ _.
          receive_headed-Fine frame d (Chain.write memory d.chain s 0 receive_header)
            (scatter-kept memory P kept d.chain.segments s 0 receive_header p taken.all_valid) valid
            taken)

  module _ (exact : IsExact memory) where
    read-IsFrame :
        (chain : Chain) (s : S)
        → 26 ≤ chain.total
        → chain.total ≤ 1526
        → IfSome (Chain.read memory chain s 12 (chain.total - 12)).0 IsFrame
    unfolding Chain.read
    read-IsFrame chain s lo hi =
        IfSome_map (Chain.gather memory chain.segments s 12 (chain.total - 12) []).0
          {Q = λ bytes. length bytes ≡ 0 + (chain.total - 12)} {R = IsFrame}
          (gather-size memory chain.segments s 12 (chain.total - 12) [] exact)
          (λ bytes size. inr (omega arith, omega arith))

    transmit_header-Fine :
        (d : Net) (o : Option (List ℕ) × S)
        → P o.1
        → is_valid memory d.tx ≡ true
        → 26 ≤ d.chain.total
        → d.chain.total ≤ 1526
        → Fine IsFrame d (transmit_header memory d o)
    unfolding transmit_header Chain.read
    transmit_header-Fine d (none, s) p valid lo hi = Fine-error IsFrame d s p
    transmit_header-Fine d (some header, s) p valid lo hi =
        let o = Chain.read memory d.chain s 12 (d.chain.total - 12) in
        let p' : P o.1 =
          gather-kept memory P kept d.chain.segments s 12 (d.chain.total - 12) [] p in
        let last = transmit_frame-Fine d o (read-IsFrame d.chain s lo hi) p' valid in
        Fine-if IsFrame d (bad_header header) (none, s, d) (transmit_frame memory d o)
          (λ _. Fine-error IsFrame d s p) (λ _. last)

    transmit_chain-Fine :
        (s : S) (d : Net)
        → P s
        → is_valid memory d.tx ≡ true
        → Fine IsFrame d (transmit_chain memory s d)
    unfolding transmit_chain Chain.read
    transmit_chain-Fine s d p valid =
        let o = Chain.read memory d.chain s 0 12 in
        let p' : P o.1 = gather-kept memory P kept d.chain.segments s 0 12 [] p in
        Fine-if IsFrame d (ltb d.chain.total 26 || ltb 1526 d.chain.total) (none, s, d)
          (transmit_header memory d o) (λ _. Fine-error IsFrame d s p)
          (λ inside. transmit_header-Fine d o p' valid (ground arith) (ground arith))

  settle-IsSettled :
      {A : Type 0} (Q : A → Type 0) (nothing : A) (d : Net) (o : Outcome S A)
      → Q nothing
      → Fine Q d o
      → Q (settle nothing o).0 × P (settle nothing o).1 × IsSettled d (settle nothing o).2
  unfolding settle Fine broken
  settle-IsSettled Q nothing d (none, s, d') ok (none_fine, p, (same, status)) =
      (ok, p, record { same_features = same; marked = inr (ap (λ t. bit_or t 64) status) })
  settle-IsSettled Q nothing d (some a, s, d') ok (fine, p, (same, status)) =
      (fine, p, record { same_features = same; marked = inl status })

  IsSettled-self : (d : Net) → IsSettled d d
  IsSettled-self d = record { same_features = refl; marked = inl refl }

  transmit_next-Fine :
      (d : Net) (o : Option (Next S))
      → IsExact memory
      → Given o (IsFound memory P kept d.tx)
      → Given (transmit_next memory d o) (Fine IsFrame d)
  unfolding transmit_next IsFound Fine
  transmit_next-Fine d none exact found = found
  transmit_next-Fine d (some (none, s, q, chain)) exact p = (tt, p, (refl, refl))
  transmit_next-Fine d (some (some false, s, q, chain)) exact p = (inl refl, p, (refl, refl))
  transmit_next-Fine d (some (some true, s, q, chain)) exact (p, taken, valid, same) =
      transmit_chain-Fine exact s (record d { tx = q; chain = chain }) p
        (ap (is_valid memory) same ∙ valid)

  receive_next-Fine :
      (frame : List ℕ) (d : Net) (o : Option (Next S))
      → Given o (IsFound memory P kept d.rx)
      → Given (receive_next memory frame d o) (Fine (λ _. Unit) d)
  unfolding receive_next IsFound Fine
  receive_next-Fine frame d none found = found
  receive_next-Fine frame d (some (none, s, q, chain)) p = (tt, p, (refl, refl))
  receive_next-Fine frame d (some (some false, s, q, chain)) p = (tt, p, (refl, refl))
  receive_next-Fine frame d (some (some true, s, q, chain)) (p, taken, valid, same) =
      receive_chain-Fine frame s (record d { rx = q; chain = chain }) p
        (ap (is_valid memory) same ∙ valid) taken

  Given_settle :
      {A : Type 0} (Q : A → Type 0) (nothing : A) (d : Net) (o : Option (Outcome S A))
      → Q nothing
      → Given o (Fine Q d)
      → Given (Option.map (settle nothing) o) (λ (a, s, d'). Q a × P s × IsSettled d d')
  Given_settle Q nothing d none ok fine = fine
  Given_settle Q nothing d (some o) ok fine = settle-IsSettled Q nothing d o ok fine

  pub transmit-IsSettled :
      (s : S) (d : Net)
      → IsExact memory
      → P s
      → Given (transmit memory s d) (λ (frame, s', d'). IsFrame frame × P s' × IsSettled d d')
  unfolding transmit transmit_inner
  transmit-IsSettled s d exact p =
      let found = next-IsFound memory P kept d.tx false s d.chain p in
      let fine = transmit_next-Fine d (next memory d.tx false s d.chain) exact found in
      let settled =
        Given_settle IsFrame [] d (transmit_next memory d (next memory d.tx false s d.chain))
          (inl refl) fine in
      elim (Bool-cases (running d)) [
        | inl on ↦ rw on settled
        | inr off ↦ rw off (inl refl, p, IsSettled-self d)
      ]

  pub receive-IsSettled :
      (frame : List ℕ) (s : S) (d : Net)
      → P s
      → Given (receive memory frame s d) (λ (accepted, s', d'). P s' × IsSettled d d')
  unfolding receive receive_inner
  receive-IsSettled frame s d p =
      let found = next-IsFound memory P kept d.rx true s d.chain p in
      let fine = receive_next-Fine frame d (next memory d.rx true s d.chain) found in
      let settled =
        Given_settle (λ _. Unit) false d
          (receive_next memory frame d (next memory d.rx true s d.chain)) tt fine in
      elim (Bool-cases (not (running d) || ltb (length frame) 14 || ltb 1514 (length frame))) [
        | inl off ↦ rw off (p, IsSettled-self d)
        | inr on ↦ rw on (
            Given_map
              (Option.map (settle {S = S} false)
                (receive_next memory frame d (next memory d.rx true s d.chain)))
              {P = λ o. Unit × P o.1 × IsSettled d o.2} settled (λ o (any, p', same). (p', same)))
      ]
