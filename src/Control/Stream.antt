-- ===== src/Control/Stream.antt =====
-- The parser over a stream of bytes.
use switchvisor.Base.{
  ℕ, zero, suc, ◌≤◌, ◌≡◌, refl, ap, ap₂, sym, ◌∙◌, true, ◌==◌, if◌then◌else◌, List, [], ◌∷◌, ◌++◌,
  length, get_or, take, Option, none, some, err, arith, Option-cases, Bool-cases, inl, inr,
}
use mathlib.Core.Path.{subst}
use switchvisor.Control.{
  ParseError, Parser, max_line_size, newline, carriage_return, command, trimmed, finish, push,
}
use switchvisor.Control.Line.{
  without_return, meaning, outcome, feed, results, listed, Holding, IsIdle, Reading, error_of,
  error_of_lem, is_one_line, get_or-take, without_return_last, feed-Reading,
}

results-append :
    (p : Parser) (xs ys : List ℕ)
    → (results p (xs ++ ys) ≡ results p xs ++ results (feed p xs) ys)
      × (feed p (xs ++ ys) ≡ feed (feed p xs) ys)
results-append p [] ys = (refl, refl)
results-append p (x ∷ xs) ys = let rest = results-append (push p x).1 xs ys in ground arith

take-take : (n m : ℕ) (xs : List ℕ) → n ≤ m → take n (take m xs) ≡ take n xs
take-take zero m xs h = refl
take-take (suc n) zero xs h = absurd (omega arith)
take-take (suc n) (suc m) [] h = refl
take-take (suc n) (suc m) (x ∷ xs) h = ap (◌∷◌ x) (take-take n m xs (omega arith))

meaning-take :
    (n x : ℕ) (xs : List ℕ)
    → (if n == 0 then none else some (command (take n (x ∷ xs)))) ≡ meaning (take n (x ∷ xs))
meaning-take zero x xs = refl
meaning-take (suc n) x xs = ground arith

-- What the parser returns at the end of a line of which it holds the whole text.
finish-Holding :
    (p : Parser) (line : List ℕ) → Holding p line → finish p ≡ meaning (without_return line)
unfolding finish trimmed
finish-Holding p [] v = rw v.clean (ground (arith, v.count))
finish-Holding p (x ∷ xs) v =
    let last = without_return_last (x ∷ xs) (length xs) refl in
    let place = get_or-take p.bytes p.used (length xs) (omega (arith, v.count)) in
    let whole = v.kept in
    let before = take-take (length xs) p.used p.bytes (omega (arith, v.count)) in
    let meant = meaning-take (length xs) x xs in
    elim (Bool-cases (get_or (x ∷ xs) (length xs) 0 == carriage_return)) [
      | inl h ↦ ground (arith, v.clean, v.count)
      | inr h ↦ ground (arith, v.clean, v.count)
    ]

end_of_line :
    (q : Parser) (rest : List ℕ)
    → results q (newline ∷ rest) ≡ listed (finish q) ++ results (feed q (newline ∷ [])) rest
unfolding push
end_of_line q rest = elim (Option-cases (finish q)) [
  | inl h ↦ ground arith
  | inr (r, h) ↦ ground arith
]

finish_error : (q : Parser) {e : ParseError} → q.error ≡ some e → finish q ≡ some (err e)
unfolding finish
finish_error q h = ground arith

end-IsIdle : (q : Parser) → length q.bytes ≡ max_line_size → IsIdle (feed q (newline ∷ []))
unfolding push
end-IsIdle q h = record { capacity = h; at_start = refl; no_error = refl }

finish-Reading :
    (q : Parser) (line : List ℕ) (e : Option ParseError)
    → e ≡ error_of 0 line
    → Reading q e line
    → (finish q ≡ outcome line) × (length q.bytes ≡ max_line_size)
finish-Reading q line none h v =
    let found = error_of_lem 0 line (omega arith) in
    let done = finish-Holding q line v in ground (arith, v.room)
finish-Reading q line (some e) h v =
    let found = error_of_lem 0 line (omega arith) in let done = finish_error q v.1 in ground (arith)

idle-Holding : (p : Parser) → IsIdle p → Holding p []
idle-Holding p v = record {
  room = v.capacity;
  count = v.at_start;
  kept = ap (λ n. take n p.bytes) v.at_start;
  clean = v.no_error;
  fits = omega arith;
}

-- A parser between two lines that is given a line, of any length, and its newline returns what the
-- line means, or nothing for an empty one; it is then between two lines again, and only what follows
-- adds to its results.
pub results-line :
    (p : Parser) (line rest : List ℕ)
    → IsIdle p
    → is_one_line line ≡ true
    → (results p (line ++ newline ∷ rest)
        ≡ listed (outcome line) ++ results (feed p (line ++ newline ∷ [])) rest)
      × IsIdle (feed p (line ++ newline ∷ []))
results-line p line rest v h =
    let read = feed-Reading p [] line (idle-Holding p v) h in
    let both = results-append p line (newline ∷ rest) in
    let one = results-append p line (newline ∷ []) in
    let (ended, room) = finish-Reading (feed p line) line (error_of 0 line) refl read.0 in
    (
      both.0
          ∙ ap (λ rs. rs ++ results (feed p line) (newline ∷ rest)) read.1
          ∙ end_of_line (feed p line) rest
          ∙ ap₂ (λ o q. listed o ++ results q rest) ended (sym one.1),
      subst IsIdle (sym one.1) (end-IsIdle (feed p line) room),
    )
