-- ===== src/Psci/Steps.antt =====
-- The CPUs' requests interleaved. A claim is one step, since it runs under the lock; between the
-- other parts of a request anything of the other CPUs may happen. The two stores of a launch are
-- one step, and so is all of `take_launch`: nothing else touches a launch in between. A CPU is powered
-- off by itself, while it is on and outside of a request; the memory is sequentially consistent.
use switchvisor.Base.{ℕ, ◌≡◌, ◌==◌, if◌then◌else◌, ok, err}
use switchvisor.Psci.{
  Machine, Launch, on, new, claim, store_launch, boot, publish, take_launch, power_off,
}

-- Where a CPU is in `request`: outside; after the claim; after the launch is stored; after the boot.
pub data Place : Type 0 where
  outside : Place
  holding stored booted : ℕ → Launch → Place

-- The machine, the place of each CPU, and for each CPU the launch whose request came to its end last.
pub record World : Type 0 where
  pub cpus : Machine
  pub place : ℕ → Place
  pub accepted : ℕ → Launch

abbrev pub at : (ℕ → Place) → ℕ → Place → ℕ → Place
at f c p i = if i == c then p else f i

abbrev pub accept : (ℕ → Launch) → ℕ → Launch → ℕ → Launch
accept f t l i = if i == t then l else f i

pub data Step (w : World) : World → Type 0 where
  claims :
      (caller target : ℕ) (launch : Launch) {m : Machine}
      → w.place caller ≡ outside
      → claim w.cpus target launch ≡ ok m
      → Step w (record w { cpus = m; place = at w.place caller (holding target launch) })
  stores :
      (caller target : ℕ) (launch : Launch)
      → w.place caller ≡ holding target launch
      → Step w (record w {
        cpus = store_launch w.cpus target launch;
        place = at w.place caller (stored target launch);
      })
  boots :
      (caller target status : ℕ) (launch : Launch) {m : Machine}
      → w.place caller ≡ stored target launch
      → boot w.cpus target status ≡ (ok tt, m)
      → Step w (record w { cpus = m; place = at w.place caller (booted target launch) })
  fails :
      (caller target status : ℕ) (launch : Launch) {m : Machine}
      → w.place caller ≡ stored target launch
      → boot w.cpus target status ≡ (err status, m)
      → Step w (record w { cpus = m; place = at w.place caller outside })
  publishes :
      (caller target : ℕ) (launch : Launch)
      → w.place caller ≡ booted target launch
      → Step w (record w {
        cpus = publish w.cpus target;
        place = at w.place caller outside;
        accepted = accept w.accepted target launch;
      })
  takes : (caller : ℕ) → Step w (record w { cpus = (take_launch w.cpus caller).1 })
  powers_off :
      (caller : ℕ)
      → w.place caller ≡ outside
      → (w.cpus caller).state ≡ on
      → Step w (record w { cpus = power_off w.cpus caller })

pub data Reachable : World → Type 0 where
  initial :
      (accepted : ℕ → Launch)
      → Reachable (record { cpus = new; place = λ i. outside; accepted = accepted })
  next : {w w' : World} → Reachable w → Step w w' → Reachable w'
