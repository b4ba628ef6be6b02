-- ===== src/Control/Tests.antt =====
-- The theorem on lines, on a `ping` with a carriage return.
use switchvisor.Base.{ℕ, ◌≡◌, refl, List, [], ◌∷◌, ◌++◌, length-replicate}
use switchvisor.Control.{start, newline, max_line_size}
use switchvisor.Control.Line.{feed, results, listed, outcome, IsIdle}
use switchvisor.Control.Stream.{results-line}

abbrev ping_line : List ℕ
ping_line = 112 ∷ 105 ∷ 110 ∷ 103 ∷ 13 ∷ []

start-IsIdle : IsIdle start
unfolding start
start-IsIdle = record {
  capacity = length-replicate {A = ℕ} max_line_size 0;
  at_start = refl;
  no_error = refl;
}

results-line_example :
    (results start (ping_line ++ newline ∷ [])
      ≡ listed (outcome ping_line) ++ results (feed start (ping_line ++ newline ∷ [])) [])
    × IsIdle (feed start (ping_line ++ newline ∷ []))
results-line_example = results-line start ping_line [] start-IsIdle refl
