-- ===== src/Fdt.antt =====
-- crates/switchvisor/src/fdt.rs: the reader of a flattened device tree. A path is its bytes, as far as
-- they are in use, and the stack of the saved lengths has its top first. `is_utf8` is the test of
-- `core::str::from_utf8`, a parameter.
pub mod Bounds
pub mod Parse
mod Tests
use switchvisor.Base.{
  ℕ, zero, suc, ◌+◌, ◌-◌, ◌*◌, ◌/◌, ◌%◌, ◌^◌, Bool, true, false, ◌&&◌, ◌||◌, not, leb, ltb, ◌==◌,
  if◌then◌else◌, List, [], ◌∷◌, length, take, drop, any, all, same, get_range, Option, none, some,
  ◌++◌, Result, ok, err, ◌>>=◌, ok_or, and_then, checked_add,
}

pub data FdtError : Type 0 where
  truncated header block_overlap reservation_table structure string path_capacity
        duplicate_property :
      FdtError

abbrev pub from_be : ℕ → List ℕ → ℕ
from_be high [] = high
from_be high (b ∷ bs) = from_be (256 * high + b) bs

unfoldable pub word : List ℕ → ℕ → Result FdtError ℕ
word bytes offset = elim (and_then (checked_add offset 4) (λ end. get_range bytes offset 4)) [
  | none ↦ err truncated
  | some b ↦ ok (from_be 0 b)
]

unfoldable pub block : List ℕ → ℕ → ℕ → Result FdtError (List ℕ)
block bytes start size =
    ok_or (and_then (checked_add start size) (λ end. get_range bytes start size)) truncated

unfoldable pub align4 : ℕ → Result FdtError ℕ
align4 value = elim (checked_add value 3) [ none ↦ err truncated | some end ↦ ok (end / 4 * 4) ]

pub record Property : Type 0 where
  pub data_offset : ℕ
  pub content : List ℕ

pub record Fdt : Type 0 where
  pub bytes : List ℕ
  pub structure_offset : ℕ
  pub tokens : List ℕ
  pub strings : List ℕ

-- What `visit` is called with.
pub record Visit : Type 0 where
  pub path : List ℕ
  pub name : List ℕ
  pub property : Property

pub record Cursor : Type 0 where
  pub path : List ℕ
  pub saved : List ℕ
  pub root_seen : Bool
  pub pos : ℕ

abbrev pub start : Cursor
start = record { path = []; saved = []; root_seen = false; pos = 0 }

-- What a token comes to.
pub data Step : Type 0 where
  next : Cursor → Step
  visit : Visit → Cursor → Step
  stop : Step

-- The bytes before the first zero.
abbrev pub before_zero : List ℕ → Option (List ℕ)
before_zero [] = none
before_zero (b ∷ bs) =
    let rest = before_zero bs in if b == 0 then some [] else and_then rest (λ name. some (b ∷ name))

-- `bytes.get(offset..)`
abbrev pub tail_at : List ℕ → ℕ → Option (List ℕ)
tail_at bytes offset = if leb offset (length bytes) then some (drop offset bytes) else none

abbrev pub path_limit : ℕ
path_limit = 512

abbrev pub depth_limit : ℕ
depth_limit = 32

abbrev pub is_blank : List ℕ → Bool
is_blank [] = true
is_blank (b ∷ bs) = false

-- The path with one more name, and the errors of a node's start.
unfoldable pub extended : List ℕ → List ℕ → List ℕ
extended path name = if is_blank name then path else path ++ (47 ∷ name)

unfoldable pub is_bad_name : Cursor → List ℕ → Bool
is_bad_name c name =
    if length c.saved == 0
    then c.root_seen || not (is_blank name)
    else is_blank name || any (λ b. b == 47) name

unfoldable pub enter : Cursor → List ℕ → Result FdtError Step
enter c name =
    if is_bad_name c name
    then err structure
    else if length c.saved == depth_limit
    then err path_capacity
    else if not (is_blank name) && ltb path_limit (length c.path + length name + 1)
    then err path_capacity
    else align4 (c.pos + length name + 1) >>= λ pos. ok (
        next (record {
          path = extended c.path name;
          saved = length c.path ∷ c.saved;
          root_seen = c.root_seen || length c.saved == 0;
          pos = pos;
        }))

unfoldable pub leave : Cursor → List ℕ → Result FdtError Step
leave c [] = err structure
leave c (length_before ∷ saved) =
    ok (next (record c { path = take length_before c.path; saved = saved }))

-- The path that a visit sees.
unfoldable pub shown : List ℕ → List ℕ
shown path = if is_blank path then 47 ∷ [] else path

module _ (is_utf8 : List ℕ → Bool) where
  unfoldable pub name_at : List ℕ → ℕ → FdtError → Result FdtError (List ℕ)
  name_at bytes offset out = elim (tail_at bytes offset) [
    | none ↦ err out
    | some rest ↦ elim (before_zero rest) [
      | none ↦ err string
      | some name ↦ if is_utf8 name then ok name else err string
    ]
  ]

  unfoldable pub begin_node : Fdt → Cursor → Result FdtError Step
  begin_node f c = name_at f.tokens c.pos truncated >>= λ name. enter c name

  unfoldable pub found : Fdt → Cursor → List ℕ → List ℕ → Result FdtError Step
  found f c name content =
      if is_blank name || not (is_blank c.path || is_utf8 c.path)
      then err string
      else align4 (c.pos + length content) >>= λ pos. ok (
          visit
            (record {
              path = shown c.path;
              name = name;
              property = record { data_offset = f.structure_offset + c.pos; content = content };
            })
            (record c { pos = pos }))

  unfoldable pub property : Fdt → Cursor → Result FdtError Step
  property f c =
      if is_blank c.saved
      then err structure
      else word f.tokens c.pos >>= λ size. word f.tokens (c.pos + 4) >>= λ name_offset.
          block f.tokens (c.pos + 8) size >>= λ content.
          name_at f.strings name_offset string >>= λ name.
          found f (record c { pos = c.pos + 8 }) name content

  unfoldable pub finish : Fdt → Cursor → Result FdtError Step
  finish f c =
      if not c.root_seen || not (is_blank c.saved)
      then err structure
      else if any (λ b. not (b == 0)) (drop c.pos f.tokens)
      then err structure
      else ok stop

  -- `c` stands after the token.
  unfoldable pub act : Fdt → Cursor → ℕ → Result FdtError Step
  act f c token =
      if token == 1
      then begin_node f c
      else if token == 2
      then leave c c.saved
      else if token == 3
      then property f c
      else if token == 4
      then ok (next c)
      else if token == 9
      then finish f c
      else err structure

  unfoldable pub step : Fdt → Cursor → Result FdtError Step
  step f c =
      if ltb c.pos (length f.tokens)
      then (word f.tokens c.pos >>= λ token. act f (record c { pos = c.pos + 4 }) token)
      else err structure

  -- The visits in their order; `none` is a walk that has not ended after its rounds.
  unfoldable pub walk_from : ℕ → Fdt → Cursor → Option (Result FdtError (List Visit))
  walk_from zero f c = none
  walk_from (suc n) f c = elim (step f c) [
    | err e ↦ some (err e)
    | ok stop ↦ some (ok [])
    | ok (next c') ↦ walk_from n f c'
    | ok (visit v c') ↦ and_then (walk_from n f c') (λ r. some (r >>= λ vs. ok (v ∷ vs)))
  ]

  unfoldable pub walk : Fdt → Option (Result FdtError (List Visit))
  walk f = walk_from (length f.tokens + 1) f start

  -- The first property of the name at the path, and whether it is the only one.
  unfoldable pub matches : List ℕ → List ℕ → List Visit → List Property
  matches path name [] = []
  matches path name (v ∷ vs) =
      let rest = matches path name vs in
      if same v.path path && same v.name name then v.property ∷ rest else rest

  unfoldable pub single : List Property → Result FdtError (Option Property)
  single [] = ok none
  single (p ∷ []) = ok (some p)
  single (p ∷ q ∷ ps) = err duplicate_property

  unfoldable pub find_property : Fdt → List ℕ → List ℕ → Option (Result FdtError (Option Property))
  find_property f path name =
      and_then (walk f) (λ r. some (r >>= λ vs. single (matches path name vs)))

-- The loop over the reservations, from `end` on.
unfoldable pub reservations : ℕ → List ℕ → ℕ → Option (Result FdtError ℕ)
reservations zero bytes end = none
reservations (suc n) bytes end =
    let rest = reservations n bytes (end + 16) in
    elim (block bytes end 16) [
      | err e ↦ some (err reservation_table)
      | ok entry ↦ if all (λ b. b == 0) entry then some (ok (end + 16)) else rest
    ]

-- Two ranges that are not empty and meet.
abbrev pub meet : ℕ × ℕ → ℕ × ℕ → Bool
meet a b = not (a.0 == a.1) && not (b.0 == b.1) && ltb a.0 b.1 && ltb b.0 a.1

unfoldable pub any_meet : List (ℕ × ℕ) → List (ℕ × ℕ) → Bool
any_meet before [] = false
any_meet before (r ∷ rest) = any (meet r) before || any_meet (r ∷ before) rest

unfoldable pub is_bad_header : ℕ → ℕ → ℕ → ℕ → Bool
is_bad_header version compatible structure_offset reservations_offset =
    not (version == 17)
    || ltb 17 compatible
    || not (structure_offset % 4 == 0)
    || not (reservations_offset % 8 == 0)

-- The blocks of the header; the end of the reservations is a parameter here.
pub record Blocks : Type 0 where
  pub fdt : Fdt
  pub reservations_offset : ℕ
  pub strings_offset : ℕ

unfoldable pub read_blocks : List ℕ → Result FdtError Blocks
read_blocks bytes = word bytes 8 >>= λ structure_offset. word bytes 12 >>= λ strings_offset.
    word bytes 16 >>= λ reservations_offset. word bytes 20 >>= λ version.
    word bytes 24 >>= λ compatible.
    if is_bad_header version compatible structure_offset reservations_offset
    then err header
    else word bytes 32 >>= λ strings_size. word bytes 36 >>= λ structure_size.
        block bytes structure_offset structure_size >>= λ tokens.
        block bytes strings_offset strings_size >>= λ strings. ok (record {
          fdt = record {
            bytes = bytes;
            structure_offset = structure_offset;
            tokens = tokens;
            strings = strings;
          };
          reservations_offset = reservations_offset;
          strings_offset = strings_offset;
        })

unfoldable pub read_total : List ℕ → Result FdtError (List ℕ)
read_total input =
    if ltb (length input) 40
    then err header
    else word input 0 >>= λ magic.
        if not (magic == 0xd00d_feed)
        then err header
        else word input 4 >>= λ total.
            if ltb total 40 then err header else ok_or (get_range input 0 total) truncated

unfoldable pub ranges_of : Blocks → ℕ → List (ℕ × ℕ)
ranges_of b reservation_end =
    (0, 40)
    ∷ (b.fdt.structure_offset, b.fdt.structure_offset + length b.fdt.tokens)
    ∷ (b.strings_offset, b.strings_offset + length b.fdt.strings)
    ∷ (b.reservations_offset, reservation_end)
    ∷ []

unfoldable pub parse : (List ℕ → Bool) → List ℕ → Option (Result FdtError Fdt)
parse is_utf8 input = elim (read_total input >>= read_blocks) [
  | err e ↦ some (err e)
  | ok b ↦ and_then (reservations (length b.fdt.bytes + 1) b.fdt.bytes b.reservations_offset) (λ r.
      elim r [
        | err e ↦ some (err e)
        | ok reservation_end ↦
            if any_meet [] (ranges_of b reservation_end)
            then some (err block_overlap)
            else and_then (walk is_utf8 b.fdt) (λ w. some (w >>= λ vs. ok b.fdt))
      ])
]
