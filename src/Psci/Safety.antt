-- ===== src/Psci/Safety.antt =====
-- No interleaving gives a CPU a launch that is not whole, not the guest's or not booted.
use switchvisor.Base.{
  ℕ, ◌≡◌, ◌≢◌, refl, sym, ap, ◌∙◌, Bool, true, false, ◌==◌, some, ok, err, arith, ℕ_discrete,
  Bool-cases, inl, inr,
}
use mathlib.Core.Path.{subst, fun_ext}
use switchvisor.Psci.{
  Machine, Cpu, Launch, Power, on, off, pending, claimed, is_pending, update, claim, store_launch,
  boot, publish, take_launch, power_off, guest_entry, new,
}
use switchvisor.Psci.Steps.{
  Place, outside, holding, stored, booted, World, at, accept, Step, claims, stores, boots, fails,
  publishes, takes, powers_off, Reachable, initial, next,
}

-- The CPU that a place is about, the launch, and how far it is.
abbrev pub is_about : Place → ℕ → Bool
is_about outside t = false
is_about (holding t' l) t = t' == t
is_about (stored t' l) t = t' == t
is_about (booted t' l) t = t' == t

abbrev pub is_claimed : Power → Bool
is_claimed on = false
is_claimed off = false
is_claimed pending = false
is_claimed claimed = true

-- What a place says of the CPU it is about.
abbrev pub Backed : Place → Machine → Type 0
Backed outside m = Unit
Backed (holding t l) m = ((m t).state ≡ claimed) × (guest_entry l.entry ≡ true)
Backed (stored t l) m = ((m t).state ≡ claimed) × (guest_entry l.entry ≡ true) × ((m t).launch ≡ l)
Backed (booted t l) m =
    ((m t).state ≡ claimed)
    × (guest_entry l.entry ≡ true)
    × ((m t).launch ≡ l)
    × ((m t).physical_started ≡ true)

-- What a pending CPU has.
abbrev pub Ready : Cpu → Launch → Type 0
Ready cpu l = (cpu.launch ≡ l) × (guest_entry l.entry ≡ true) × (cpu.physical_started ≡ true)

pub record IsSafe (w : World) : Type 0 where
  pub backed : (c : ℕ) → Backed (w.place c) w.cpus
  pub alone : (c c' t : ℕ) → is_about (w.place c) t ≡ true → is_about (w.place c') t ≡ true → c ≡ c'
  pub ready : (t : ℕ) → (w.cpus t).state ≡ pending → Ready (w.cpus t) (w.accepted t)

about_claimed :
    (q : Place) (m : Machine) (t : ℕ) → Backed q m → is_about q t ≡ true → (m t).state ≡ claimed
about_claimed outside m t b h = ground arith
about_claimed (holding t' l) m t b h = ground arith
about_claimed (stored t' l) m t b h = ground arith
about_claimed (booted t' l) m t b h = ground arith

Backed-elsewhere :
    (q : Place) (m : Machine) (t : ℕ) (x : Cpu)
    → is_about q t ≡ false
    → Backed q m
    → Backed q (update m t x)
Backed-elsewhere outside m t x h b = b
Backed-elsewhere (holding t' l) m t x h b = ground arith
Backed-elsewhere (stored t' l) m t x h b = ground arith
Backed-elsewhere (booted t' l) m t x h b = ground arith

-- A caller moves to a place about `t`, or outside, and changes that CPU only.
module _ (w : World) (caller t : ℕ) (p : Place) (x : Cpu) (f : ℕ → Launch) (v : IsSafe w) where
  moves-IsSafe :
      ((c : ℕ) → c ≢ caller → is_about (w.place c) t ≡ false)
      → Backed p (update w.cpus t x)
      → ((s : ℕ) → is_about p s ≡ true → s ≡ t)
      → ((s : ℕ) → s ≢ t → f s ≡ w.accepted s)
      → (x.state ≡ pending → Ready x (f t))
      → IsSafe (record { cpus = update w.cpus t x; place = at w.place caller p; accepted = f })
  moves-IsSafe apart new_backed here same new_ready = record {
    backed = λ c. elim (ℕ_discrete c caller) [
      | yes e ↦ ground arith
      | no ne ↦
          let kept = Backed-elsewhere (w.place c) w.cpus t x (apart c ne) (v.backed c) in
          ground arith
    ];
    alone = λ c c' s h h'. elim (ℕ_discrete c caller) [
      | yes e ↦ elim (ℕ_discrete c' caller) [
        | yes e' ↦ e ∙ sym e'
        | no ne ↦ let found = here s (ground arith) in let no_one = apart c' ne in ground arith
      ]
      | no ne ↦ elim (ℕ_discrete c' caller) [
        | yes e' ↦ let found = here s (ground arith) in let no_one = apart c ne in ground arith
        | no ne' ↦ v.alone c c' s (ground arith) (ground arith)
      ]
    ];
    ready = λ s h. elim (ℕ_discrete s t) [
      | yes e ↦ subst (λ s. Ready (update w.cpus t x s) (f s)) (sym e) (ground arith)
      | no ne ↦ let before = v.ready s in let kept = same s ne in ground arith
    ];
  }

-- No place is about a CPU that is not claimed.
unclaimed :
    (w : World) (t : ℕ)
    → IsSafe w
    → (w.cpus t).state ≢ claimed
    → (c : ℕ) → is_about (w.place c) t ≡ false
unclaimed w t v h c = let found = about_claimed (w.place c) w.cpus t (v.backed c) in ground arith

-- Only one place is about a CPU.
only :
    (w : World) (t caller : ℕ)
    → IsSafe w
    → is_about (w.place caller) t ≡ true
    → (c : ℕ) → c ≢ caller
    → is_about (w.place c) t ≡ false
only w t caller v h c ne = let found = v.alone c caller t in ground arith

-- A CPU that is not claimed changes to a state that is not pending.
settles-IsSafe :
    (w : World) (t : ℕ) (x : Cpu)
    → IsSafe w
    → (w.cpus t).state ≢ claimed
    → x.state ≢ pending
    → IsSafe (record w { cpus = update w.cpus t x })
settles-IsSafe w t x v h k = record {
  backed = λ c. Backed-elsewhere (w.place c) w.cpus t x (unclaimed w t v h c) (v.backed c);
  alone = v.alone;
  ready = λ s p. elim (ℕ_discrete s t) [
    | yes e ↦ ground arith
    | no ne ↦ let before = v.ready s in ground arith
  ];
}

claim-ok :
    (m : Machine) (t : ℕ) (l : Launch) {m' : Machine}
    → claim m t l ≡ ok m'
    → ((m t).state ≡ off)
      × (guest_entry l.entry ≡ true)
      × (update m t (record (m t) { state = claimed }) ≡ m')
unfolding claim
claim-ok m t l h = ground arith

update_same : (m : Machine) (t : ℕ) → update m t (m t) ≡ m
update_same m t = fun_ext λ s. ground arith

boot-ok :
    (m : Machine) (t status : ℕ) {m' : Machine}
    → boot m t status ≡ (ok tt, m')
    → update m t (record (m t) { physical_started = true }) ≡ m'
unfolding boot
boot-ok m t status h = elim (Bool-cases (m t).physical_started) [
  | inl started ↦
      ap (λ b. update m t (record (m t) { physical_started = b })) (sym started)
      ∙ update_same m t
      ∙ ground arith
  | inr fresh ↦ ground arith
]

boot-err :
    (m : Machine) (t status : ℕ) {e : ℕ} {m' : Machine}
    → boot m t status ≡ (err e, m')
    → update m t (record (m t) { state = off }) ≡ m'
unfolding boot
boot-err m t status h = ground arith

Step-IsSafe : {w w' : World} → IsSafe w → Step w w' → IsSafe w'
unfolding claim store_launch boot publish take_launch power_off
Step-IsSafe {w} v (claims caller target launch {m} p e) =
    let (free, good, same) = claim-ok w.cpus target launch e in
    subst (λ m. IsSafe (record w { cpus = m; place = at w.place caller (holding target launch) }))
      same
      (moves-IsSafe w caller target (holding target launch)
        (record (w.cpus target) { state = claimed }) w.accepted v
        (λ c ne. unclaimed w target v (ground arith) c) (ground arith) (λ s h. ground arith)
        (λ s h. refl) (ground arith))
Step-IsSafe {w} v (stores caller target launch p) =
    moves-IsSafe w caller target (stored target launch) (record (w.cpus target) { launch = launch })
      w.accepted v (only w target caller v (ground (arith, p)))
      (let b = v.backed caller in ground (arith, p)) (λ s h. ground arith) (λ s h. refl)
      (let b = v.backed caller in ground (arith, p))
Step-IsSafe {w} v (boots caller target status launch {m} p e) =
    let b = v.backed caller in
    subst (λ m. IsSafe (record w { cpus = m; place = at w.place caller (booted target launch) }))
      (boot-ok w.cpus target status e)
      (moves-IsSafe w caller target (booted target launch)
        (record (w.cpus target) { physical_started = true }) w.accepted v
        (only w target caller v (ground (arith, p))) (ground (arith, p)) (λ s h. ground arith)
        (λ s h. refl) (ground (arith, p)))
Step-IsSafe {w} v (fails caller target status launch {m} p e) =
    subst (λ m. IsSafe (record w { cpus = m; place = at w.place caller outside }))
      (boot-err w.cpus target status e)
      (moves-IsSafe w caller target outside (record (w.cpus target) { state = off }) w.accepted v
        (only w target caller v (ground (arith, p))) tt (λ s h. ground arith) (λ s h. refl)
        (ground arith))
Step-IsSafe {w} v (publishes caller target launch p) =
    moves-IsSafe w caller target outside (record (w.cpus target) { state = pending })
      (accept w.accepted target launch) v (only w target caller v (ground (arith, p))) tt
      (λ s h. ground arith) (λ s h. ground arith) (let b = v.backed caller in ground (arith, p))
Step-IsSafe {w} v (takes caller) = elim (Bool-cases (is_pending (w.cpus caller).state)) [
  | inl h ↦ rw h (
      settles-IsSafe w caller (record (w.cpus caller) { state = on }) v (ground arith)
        (ground arith))
  | inr h ↦ rw h v
]
Step-IsSafe {w} v (powers_off caller p h) =
    settles-IsSafe w caller (record (w.cpus caller) { state = off }) v (ground arith) (ground arith)

initial-IsSafe :
    (accepted : ℕ → Launch)
    → IsSafe (record { cpus = new; place = λ i. outside; accepted = accepted })
unfolding new
initial-IsSafe accepted = record {
  backed = λ c. tt;
  alone = λ c c' t h h'. ground arith;
  ready = λ t h. ground arith;
}

pub Reachable-IsSafe : {w : World} → Reachable w → IsSafe w
Reachable-IsSafe (initial accepted) = initial-IsSafe accepted
Reachable-IsSafe (next r s) = Step-IsSafe (Reachable-IsSafe r) s

-- However the requests of the CPUs interleave, no two CPUs are ever at work on the same CPU, and
-- the one that is worked on is neither on, off nor pending.
pub request_exclusive :
    {w : World} (t c c' : ℕ)
    → Reachable w
    → c ≢ c'
    → is_about (w.place c) t ≡ true
    → (is_about (w.place c') t ≡ false) × ((w.cpus t).state ≡ claimed)
request_exclusive {w} t c c' r ne h =
    let v = Reachable-IsSafe r in
    let claim_held = about_claimed (w.place c) w.cpus t (v.backed c) h in
    let same = v.alone c c' t h in ground arith

-- However the requests of the CPUs interleave, a launch that a CPU takes is the whole launch of the
-- request for it that ended last; the guest may have its entry, and the CPU has been started.
pub take_launch_lem :
    {w : World} (t : ℕ) {l : Launch}
    → Reachable w
    → (take_launch w.cpus t).0 ≡ some l
    → (l ≡ w.accepted t) × (guest_entry l.entry ≡ true) × ((w.cpus t).physical_started ≡ true)
unfolding take_launch
take_launch_lem {w} t {l} r h = let v = Reachable-IsSafe r in let made = v.ready t in ground arith
