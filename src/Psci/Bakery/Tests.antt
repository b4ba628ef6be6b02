-- ===== src/Psci/Bakery/Tests.antt =====
-- The theorems on the lock, on two CPUs that enter at the same time.
use switchvisor.Base.{ℕ, ◌≡◌, ◌≢◌, arith, false, ◌&&◌, List, [], ◌∷◌}
use switchvisor.Psci.Bakery.{start, run, step, act, await, may_pass, outside, is_inside}
use switchvisor.Psci.Bakery.Exclusion.{run_exclusive}
use switchvisor.Psci.Bakery.Progress.{CanGo, run_progress}

abbrev contended : List ℕ
contended =
    0 ∷ 1 ∷ 0 ∷ 1 ∷ 0 ∷ 1 ∷ 0 ∷ 1 ∷ 0 ∷ 1 ∷ 0 ∷ 1 ∷ 0 ∷ 0 ∷ 0 ∷ 0 ∷ 0 ∷ 0 ∷ 0 ∷ 1 ∷ 1 ∷ 1 ∷ []

run_exclusive_example :
    (is_inside ((run start contended).stage 0) && is_inside ((run start contended).stage 1)) ≡ false
run_exclusive_example = run_exclusive contended 0 1 (omega arith) (omega arith) (omega arith)

in_enter : (run start contended).stage 1 ≢ outside
unfolding run step start act await may_pass
in_enter = λ e. ground arith

run_progress_example : CanGo (run start contended)
run_progress_example = run_progress contended 1 (omega arith) in_enter
