-- ===== src/Fdt/Bounds.antt =====
-- The walk ends, stays within its capacities, and what it visits lies in the structure block.
use switchvisor.Base.{
  ℕ, zero, suc, ◌+◌, ◌<◌, ◌≤◌, ◌≡◌, refl, ap, Bool, true, false, ◌&&◌, ◌||◌, not, ltb, ◌==◌,
  if◌then◌else◌, List, [], ◌∷◌, length, drop, any, length-append, length-take, length-drop, Result,
  ok, err, ◌>>=◌, Holds, Given, Given-and_then, arith, Bool-cases, Result-cases, inl, inr,
}
use switchvisor.Fdt.{
  Fdt, truncated, structure, string, path_capacity, Visit, Cursor, Step, next, visit, stop, start,
  word, block, align4, is_blank, extended, is_bad_name, enter, leave, name_at, begin_node, found,
  property, finish, act, step, walk_from, walk, path_limit, depth_limit,
}

pub Holds_bind :
    {E A B : Type 0} (P : B → Type 0) (m : Result E A) (f : A → Result E B)
    → ((a : A) → m ≡ ok a → Holds (f a) P)
    → Holds (m >>= f) P
Holds_bind P (ok a) f h = h a refl
Holds_bind P (err e) f h = tt

-- `if bad { return Err(e) }`
pub Holds_reject :
    {E B : Type 0} (P : B → Type 0) (bad : Bool) (e : E) (r : Result E B)
    → (bad ≡ false → Holds r P)
    → Holds (if bad then err e else r) P
Holds_reject P true e r h = tt
Holds_reject P false e r h = h refl

pub Holds_map :
    {E A : Type 0} (P Q : A → Type 0) (m : Result E A)
    → Holds m P
    → ((a : A) → P a → Q a)
    → Holds m Q
Holds_map P Q (ok a) h f = f a h
Holds_map P Q (err e) h f = tt

-- The path and the depth are within their capacities.
unfoldable pub IsFit : Cursor → Type 0
IsFit c = (length c.path ≤ path_limit) × (length c.saved ≤ depth_limit)

-- A visit has a name, and its property lies within the structure block.
unfoldable pub IsInside : Fdt → Visit → Type 0
IsInside f v =
    (is_blank v.name ≡ false)
    × (f.structure_offset ≤ v.property.data_offset)
    × (v.property.data_offset + length v.property.content ≤ f.structure_offset + length f.tokens)

-- After a token at `pos` the cursor is further on.
unfoldable pub IsAfter : Fdt → ℕ → Step → Type 0
IsAfter f pos stop = Unit
IsAfter f pos (next c) = (pos < c.pos) × IsFit c
IsAfter f pos (visit v c) = (pos < c.pos) × IsFit c × IsInside f v

align4-ge : (value : ℕ) {end : ℕ} → align4 value ≡ ok end → value ≤ end
unfolding align4
align4-ge value h = ground arith

pub block-fits :
    (bytes : List ℕ) (from size : ℕ) {content : List ℕ}
    → block bytes from size ≡ ok content
    → (from + size ≤ length bytes) × (length content ≡ size)
unfolding block
block-fits bytes from size h =
    let cut = length-take size (drop from bytes) in
    let rest = length-drop from bytes in (ground arith, ground arith)

length-extended :
    (path name : List ℕ)
    → (not (is_blank name) && ltb path_limit (length path + length name + 1)) ≡ false
    → length path ≤ path_limit
    → length (extended path name) ≤ path_limit
unfolding extended
length-extended path [] h le = le
length-extended path (b ∷ name) h le =
    let total = length-append path (47 ∷ b ∷ name) in ground arith

enter-IsAfter :
    (f : Fdt) (c : Cursor) (name : List ℕ) (pos : ℕ)
    → pos < c.pos
    → IsFit c
    → Holds (enter c name) (IsAfter f pos)
unfolding enter IsAfter IsFit
enter-IsAfter f c name pos lt fit = Holds_reject _ (is_bad_name c name) structure _ (λ good.
    Holds_reject _ (length c.saved == depth_limit) path_capacity _ (λ shallow.
      Holds_reject _ (not (is_blank name) && ltb path_limit (length c.path + length name + 1))
        path_capacity _
        (λ short. Holds_bind _ (align4 (c.pos + length name + 1)) _ (λ end e.
          let further = align4-ge (c.pos + length name + 1) e in
          (omega arith, (length-extended c.path name short fit.0, ground arith))))))

leave-IsAfter :
    (f : Fdt) (c : Cursor) (saved : List ℕ) (pos : ℕ)
    → saved ≡ c.saved
    → pos < c.pos
    → IsFit c
    → Holds (leave c saved) (IsAfter f pos)
unfolding leave IsAfter IsFit
leave-IsAfter f c [] pos e lt fit = tt
leave-IsAfter f c (n ∷ saved) pos e lt fit =
    let cut = length-take n c.path in
    let depth = ap length e in (lt, (omega (arith, fit.0), omega (arith, fit.1)))

unfoldable pub AllInside : Fdt → List Visit → Type 0
AllInside f [] = Unit
AllInside f (v ∷ vs) = IsInside f v × AllInside f vs

module _ (is_utf8 : List ℕ → Bool) where
  found-IsAfter :
      (f : Fdt) (c : Cursor) (name content : List ℕ) (pos : ℕ)
      → pos < c.pos
      → c.pos + length content ≤ length f.tokens
      → IsFit c
      → Holds (found is_utf8 f c name content) (IsAfter f pos)
  unfolding found IsAfter IsFit IsInside
  found-IsAfter f c name content pos lt within fit =
      Holds_reject _ (is_blank name || not (is_blank c.path || is_utf8 c.path)) string _ (λ good.
        Holds_bind _ (align4 (c.pos + length content)) _ (λ end e.
          let further = align4-ge (c.pos + length content) e in
          (omega arith, fit, (ground arith, omega arith, omega arith))))

  property-IsAfter :
      (f : Fdt) (c : Cursor) (pos : ℕ)
      → pos < c.pos
      → IsFit c
      → Holds (property is_utf8 f c) (IsAfter f pos)
  unfolding property IsFit
  property-IsAfter f c pos lt fit = Holds_reject _ (is_blank c.saved) structure _ (λ inside.
      Holds_bind _ (word f.tokens c.pos) _ (λ size e.
        Holds_bind _ (word f.tokens (c.pos + 4)) _ (λ name_offset e'.
          Holds_bind _ (block f.tokens (c.pos + 8) size) _ (λ content b.
            Holds_bind _ (name_at is_utf8 f.strings name_offset string) _ (λ name n.
              let fits = block-fits f.tokens (c.pos + 8) size b in
              found-IsAfter f (record c { pos = c.pos + 8 }) name content pos (omega arith)
                (omega arith) fit)))))

  act-IsAfter :
      (f : Fdt) (c : Cursor) (token pos : ℕ)
      → pos < c.pos
      → IsFit c
      → Holds (act is_utf8 f c token) (IsAfter f pos)
  unfolding act begin_node finish IsAfter
  act-IsAfter f c token pos lt fit =
      let entered =
        Holds_bind (IsAfter f pos) (name_at is_utf8 f.tokens c.pos truncated) (enter c)
          (λ name e. enter-IsAfter f c name pos lt fit) in
      let left = leave-IsAfter f c c.saved pos refl lt fit in
      let visited = property-IsAfter f c pos lt fit in
      elim (Bool-cases (token == 1)) [
        | inl e ↦ rw (act, e) entered
        | inr e ↦ elim (Bool-cases (token == 2)) [
          | inl e' ↦ rw (act, e, e') left
          | inr e' ↦ elim (Bool-cases (token == 3)) [
            | inl f' ↦ rw (act, e, e', f') visited
            | inr f' ↦ elim (Bool-cases (token == 4)) [
              | inl g ↦ rw (act, e, e', f', g) (lt, fit)
              | inr g ↦ elim (Bool-cases (token == 9)) [
                | inl h ↦
                    rw (act, e, e', f', g, h)
                      (Holds_reject _ (not c.root_seen || not (is_blank c.saved)) structure _
                        (λ closed.
                          Holds_reject _ (any (λ b. not (b == 0)) (drop c.pos f.tokens)) structure _
                            (λ clean. tt)))
                | inr h ↦ rw (act, e, e', f', g, h) tt
              ]
            ]
          ]
        ]
      ]

  step-IsAfter :
      (f : Fdt) (c : Cursor)
      → IsFit c
      → Holds (step is_utf8 f c) (λ s. (c.pos < length f.tokens) × IsAfter f c.pos s)
  unfolding step IsFit
  step-IsAfter f c fit = elim (Bool-cases (ltb c.pos (length f.tokens))) [
    | inl e ↦
        rw (step, e)
          (Holds_bind _ (word f.tokens c.pos) _ (λ token w.
            Holds_map (IsAfter f c.pos) (λ s. (c.pos < length f.tokens) × IsAfter f c.pos s) _
              (act-IsAfter f (record c { pos = c.pos + 4 }) token c.pos (omega arith) fit)
              (λ s after. (ground arith, after))))
    | inr e ↦ rw (step, e) tt
  ]

  pub walk_from-AllInside :
      (n : ℕ) (f : Fdt) (c : Cursor)
      → 1 ≤ n
      → length f.tokens + 1 ≤ n + c.pos
      → IsFit c
      → Given (walk_from is_utf8 n f c) (λ r. Holds r (AllInside f))
  unfolding walk_from AllInside IsAfter
  walk_from-AllInside zero f c some_left enough fit = absurd (omega arith)
  walk_from-AllInside (suc n) f c some_left enough fit =
      let law = step-IsAfter f c fit in
      elim (Result-cases (step is_utf8 f c)) [
        | inr (e, h) ↦ rw (walk_from, h) tt
        | inl (stop, h) ↦ rw (walk_from, h) tt
        | inl (next c', h) ↦
            (let (more, (further, fit')) = rw h at law in
              rw (walk_from, h) (walk_from-AllInside n f c' (omega arith) (omega arith) fit'))
        | inl (visit v c', h) ↦
            (let (more, (further, fit', inside)) = rw h at law in
              rw (walk_from, h)
                (Given-and_then (λ r. Holds r (AllInside f)) (walk_from is_utf8 n f c') _
                  (walk_from-AllInside n f c' (omega arith) (omega arith) fit')
                  (λ r all. Holds_bind (AllInside f) r _ (λ vs e. (inside, (rw e at all))))))
      ]

  -- The walk of any bytes ends. If it accepts them, every property that it visits has a name and lies
  -- within the structure block.
  pub walk-AllInside : (f : Fdt) → Given (walk is_utf8 f) (λ r. Holds r (AllInside f))
  unfolding walk IsFit
  walk-AllInside f =
      walk_from-AllInside (length f.tokens + 1) f start (omega arith) (omega arith)
        (omega arith, omega arith)
