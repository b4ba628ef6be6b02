-- ===== src/Control.antt =====
-- crates/switchvisor/src/control.rs: the parser of the commands on the control port.
pub mod Line
pub mod Stream
mod Tests
use switchvisor.Base.{
  ℕ, ◌+◌, ◌-◌, Bool, true, false, ◌&&◌, ◌||◌, not, ◌==◌, ltb, leb, if◌then◌else◌, List, [], ◌∷◌,
  length, get_or, set, take, replicate, same, Option, none, some, Result, ok, err,
}

abbrev pub max_line_size : ℕ
max_line_size = 64

pub data Command : Type 0 where
  ping status reboot reboot_rcm : Command

pub data ParseError : Type 0 where
  invalid_encoding line_too_long unknown_command : ParseError

-- The field `length` is `used` here.
pub record Parser : Type 0 where
  pub bytes : List ℕ
  pub used : ℕ
  pub error : Option ParseError

unfoldable pub start : Parser
start = record { bytes = replicate max_line_size 0; used = 0; error = none }

-- The names of the commands, in ASCII.
unfoldable pub command : List ℕ → Result ParseError Command
command text =
    if same text (112 ∷ 105 ∷ 110 ∷ 103 ∷ [])
    then ok ping
    else if same text (115 ∷ 116 ∷ 97 ∷ 116 ∷ 117 ∷ 115 ∷ [])
    then ok status
    else if same text (114 ∷ 101 ∷ 98 ∷ 111 ∷ 111 ∷ 116 ∷ [])
    then ok reboot
    else if same text (114 ∷ 101 ∷ 98 ∷ 111 ∷ 111 ∷ 116 ∷ 45 ∷ 114 ∷ 99 ∷ 109 ∷ [])
    then ok reboot_rcm
    else err unknown_command

abbrev pub newline : ℕ
newline = 10

abbrev pub carriage_return : ℕ
carriage_return = 13

-- Neither beyond ASCII nor a control character, but for the carriage return.
unfoldable pub is_text : ℕ → Bool
is_text byte = ltb byte 128 && (not (ltb byte 32 || byte == 127) || byte == carriage_return)

-- The length of the line without a carriage return at its end.
unfoldable pub trimmed : Parser → ℕ
trimmed p =
    if not (p.used == 0) && get_or p.bytes (p.used - 1) 0 == carriage_return
    then p.used - 1
    else p.used

-- What the end of a line returns.
unfoldable pub finish : Parser → Option (Result ParseError Command)
finish p = elim p.error [
  | some e ↦ some (err e)
  | none ↦ if trimmed p == 0 then none else some (command (take (trimmed p) p.bytes))
]

-- A byte within a line.
unfoldable pub append : Parser → ℕ → Parser
append p byte = elim p.error [
  | some e ↦ p
  | none ↦
      if not (is_text byte)
      then record p { error = some invalid_encoding }
      else if p.used == length p.bytes
      then record p { error = some line_too_long }
      else record p { bytes = set p.bytes p.used byte; used = p.used + 1 }
]

unfoldable pub push : Parser → ℕ → Option (Result ParseError Command) × Parser
push p byte =
    if byte == newline
    then (finish p, record p { error = none; used = 0 })
    else (none, append p byte)
