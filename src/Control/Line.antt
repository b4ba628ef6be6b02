-- ===== src/Control/Line.antt =====
-- What a whole line means, and that the parser finds it byte by byte.
use switchvisor.Base.{
  ℕ, zero, suc, ◌+◌, ◌<◌, ◌≤◌, ◌≡◌, ◌≢◌, refl, ap, sym, ◌∙◌, Bool, true, false, not, ◌==◌, ltb,
  if◌then◌else◌, List, [], ◌∷◌, ◌++◌, length, get_or, set, take, all, Option, none, some, Result,
  err, arith, length-set, length-append, Bool-cases, ℕ_discrete, inl, inr,
}
use mathlib.Core.Path.{subst, subst₂}
use mathlib.Core.List.{append_assoc, append-nil}
use switchvisor.Control.{
  Command, ParseError, invalid_encoding, line_too_long, Parser, max_line_size, newline,
  carriage_return, is_text, command, append, push,
}

-- The bytes before the first that is no text.
abbrev pub text_of : List ℕ → List ℕ
text_of [] = []
text_of (x ∷ xs) = if is_text x then x ∷ text_of xs else []

abbrev pub without_return : List ℕ → List ℕ
without_return [] = []
without_return (x ∷ []) = if x == carriage_return then [] else x ∷ []
without_return (x ∷ y ∷ rest) = x ∷ without_return (y ∷ rest)

abbrev pub meaning : List ℕ → Option (Result ParseError Command)
meaning [] = none
meaning (x ∷ xs) = some (command (x ∷ xs))

-- What a line of any length means.
abbrev pub outcome : List ℕ → Option (Result ParseError Command)
outcome line =
    if ltb max_line_size (length (text_of line))
    then some (err line_too_long)
    else if ltb (length (text_of line)) (length line)
    then some (err invalid_encoding)
    else meaning (without_return line)

abbrev pub feed : Parser → List ℕ → Parser
feed p [] = p
feed p (byte ∷ rest) = feed (push p byte).1 rest

-- The results that a sequence of bytes makes the parser return.
abbrev pub results : Parser → List ℕ → List (Result ParseError Command)
results p [] = []
results p (byte ∷ rest) = elim (push p byte).0 [
  | none ↦ results (push p byte).1 rest
  | some r ↦ r ∷ results (push p byte).1 rest
]

abbrev pub listed : Option (Result ParseError Command) → List (Result ParseError Command)
listed none = []
listed (some r) = r ∷ []

-- The parser has read `text`, without an error.
pub record Holding (p : Parser) (text : List ℕ) : Type 0 where
  pub room : length p.bytes ≡ max_line_size
  pub count : p.used ≡ length text
  pub kept : take p.used p.bytes ≡ text
  pub clean : p.error ≡ none
  pub fits : length text ≤ max_line_size

pub record IsIdle (p : Parser) : Type 0 where
  pub capacity : length p.bytes ≡ max_line_size
  pub at_start : p.used ≡ 0
  pub no_error : p.error ≡ none

take_suc-set :
    (xs : List ℕ) (n v : ℕ) → n < length xs → take (n + 1) (set xs n v) ≡ take n xs ++ v ∷ []
take_suc-set [] n v h = absurd (omega arith)
take_suc-set (x ∷ xs) zero v h = ground arith
take_suc-set (x ∷ xs) (suc n) v h =
    ap (λ k. take k (x ∷ set xs n v)) (rearrange n) ∙ ap (◌∷◌ x) (take_suc-set xs n v (omega arith))
  where
    rearrange : (n : ℕ) → suc n + 1 ≡ suc (n + 1)
    rearrange n = omega arith

pub get_or-take : (xs : List ℕ) (n i : ℕ) → i < n → get_or (take n xs) i 0 ≡ get_or xs i 0
get_or-take xs zero i h = absurd (omega arith)
get_or-take [] (suc n) i h = refl
get_or-take (x ∷ xs) (suc n) zero h = refl
get_or-take (x ∷ xs) (suc n) (suc i) h = get_or-take xs n i (omega arith)

-- A carriage return is dropped by looking at the last place.
pub without_return_last :
    (text : List ℕ) (n : ℕ)
    → length text ≡ suc n
    → without_return text ≡ (if get_or text n 0 == carriage_return then take n text else text)
without_return_last [] n h = absurd (omega arith)
without_return_last (x ∷ []) zero h = refl
without_return_last (x ∷ []) (suc n) h = absurd (omega arith)
without_return_last (x ∷ y ∷ rest) zero h = absurd (omega arith)
without_return_last (x ∷ y ∷ rest) (suc n) h =
    ap (◌∷◌ x) (without_return_last (y ∷ rest) n (omega arith)) ∙ ground arith

-- The error that the parser notes in `line` when it holds `n` bytes already.
abbrev pub error_of : ℕ → List ℕ → Option ParseError
error_of n [] = none
error_of n (x ∷ xs) =
    if not (is_text x)
    then some invalid_encoding
    else if n == max_line_size
    then some line_too_long
    else error_of (n + 1) xs

pub error_of_lem :
    (n : ℕ) (line : List ℕ)
    → n ≤ max_line_size
    → error_of n line ≡ (
        if ltb max_line_size (n + length (text_of line))
        then some line_too_long
        else if ltb (length (text_of line)) (length line)
        then some invalid_encoding
        else none)
error_of_lem n [] h = ground arith
error_of_lem n (x ∷ xs) h = elim (ℕ_discrete n max_line_size) [
  | yes e ↦ ground arith
  | no e ↦ let rest = error_of_lem (n + 1) xs (omega arith) in ground arith
]

-- What the parser is in after a part of a line.
abbrev pub Reading : Parser → Option ParseError → List ℕ → Type 0
Reading p none text = Holding p text
Reading p (some e) text = (length p.bytes ≡ max_line_size) × (p.error ≡ some e)

append-Holding :
    (p : Parser) (text : List ℕ) (byte : ℕ)
    → Holding p text
    → is_text byte ≡ true
    → length text ≢ max_line_size
    → Holding (append p byte) (text ++ byte ∷ [])
unfolding append
append-Holding p text byte v h k =
    let kept = take_suc-set p.bytes p.used byte (omega (arith, v.count, v.fits, v.room)) in
    let size = length-append text (byte ∷ []) in
    let same_size = length-set p.bytes p.used byte in
    rw (v.clean, h) (ground (arith, v.count, v.fits, v.room, v.kept))

append-error : (p : Parser) (byte : ℕ) {e : ParseError} → p.error ≡ some e → append p byte ≡ p
unfolding append
append-error p byte h = ground arith

append_bad :
    (p : Parser) (text : List ℕ) (byte : ℕ)
    → Holding p text
    → is_text byte ≡ false
    → Reading (append p byte) (some invalid_encoding) []
unfolding append
append_bad p text byte v h = rw (v.clean, h) (v.room, refl)

append_long :
    (p : Parser) (text : List ℕ) (byte : ℕ)
    → Holding p text
    → is_text byte ≡ true
    → length text ≡ max_line_size
    → Reading (append p byte) (some line_too_long) []
unfolding append
append_long p text byte v h k = rw (v.clean, h) (ground (arith, v.count, v.fits, v.room))

-- No byte of a line ends it.
abbrev pub is_one_line : List ℕ → Bool
is_one_line = all (λ x. not (x == newline))

push_text :
    (p : Parser) (x : ℕ) (xs : List ℕ)
    → is_one_line (x ∷ xs) ≡ true
    → (feed p (x ∷ xs) ≡ feed (append p x) xs)
      × (results p (x ∷ xs) ≡ results (append p x) xs)
      × (is_one_line xs ≡ true)
unfolding push
push_text p x xs h = ground arith

feed-error :
    (p : Parser) (line : List ℕ) {e : ParseError}
    → p.error ≡ some e
    → is_one_line line ≡ true
    → (feed p line ≡ p) × (results p line ≡ [])
feed-error p [] h k = (refl, refl)
feed-error p (x ∷ xs) h k =
    let stays = append-error p x h in
    let (fed, found, one_line) = push_text p x xs k in
    let rest = feed-error p xs h one_line in
    (fed ∙ ap (λ q. feed q xs) stays ∙ rest.0, found ∙ ap (λ q. results q xs) stays ∙ rest.1)

-- What has been read stays as it is once there is an error.
keep_error :
    (p : Parser) (line text text' : List ℕ) {e : ParseError}
    → Reading p (some e) text
    → is_one_line line ≡ true
    → Reading (feed p line) (some e) text' × (results p line ≡ [])
keep_error p line text text' {e} v k =
    let (fed, found) = feed-error p line v.1 k in
    (subst (λ q. Reading q (some e) text') (sym fed) v, found)

pub feed-Reading :
    (p : Parser) (text line : List ℕ)
    → Holding p text
    → is_one_line line ≡ true
    → Reading (feed p line) (error_of (length text) line) (text ++ line) × (results p line ≡ [])
feed-Reading p text [] v k = (subst (Holding p) (sym (append-nil text)) v, refl)
feed-Reading p text (x ∷ xs) v k =
    let (fed, found, one_line) = push_text p x xs k in
    rw (fed, found)
      (elim (Bool-cases (is_text x)) [
        | inl h ↦ elim (ℕ_discrete (length text) max_line_size) [
          | yes e ↦
              rw (h, e)
                (keep_error (append p x) xs [] (text ++ x ∷ xs) (append_long p text x v h e)
                  one_line)
          | no ne ↦
              let next = append-Holding p text x v h ne in
              let rest = feed-Reading (append p x) (text ++ x ∷ []) xs next one_line in
              let size = length-append text (x ∷ []) in
              let same_error : error_of (length (text ++ x ∷ [])) xs
                  ≡ error_of (length text) (x ∷ xs) =
                ap (λ n. error_of n xs) size ∙ ground arith in
              subst₂ (λ e t. Reading (feed (append p x) xs) e t × (results (append p x) xs ≡ []))
                same_error (append_assoc text (x ∷ []) xs) rest
        ]
        | inr h ↦
            rw h (keep_error (append p x) xs [] (text ++ x ∷ xs) (append_bad p text x v h) one_line)
      ])
