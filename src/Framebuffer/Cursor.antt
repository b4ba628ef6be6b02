-- ===== src/Framebuffer/Cursor.antt =====
-- The console's cursor stays in its grid of cells, and what it draws stays in the reservation.
use native.Mathlib.Nat.{mod-lt}
use mathlib.Core.Path.{subst}
use switchvisor.Base.{
  ℕ, zero, suc, ◌+◌, ◌-◌, ◌*◌, ◌%◌, ◌<◌, ◌≤◌, ◌≡◌, refl, ◌∙◌, sym, ◌==◌, List, [], ◌∷◌, arith,
  Bool-cases, Option-cases, inl, inr,
}
use switchvisor.Memory
use switchvisor.Framebuffer.{
  FramebufferLayout, Rotation, upright, three, Console, PixelSink, new, turned, logical_width,
  logical_height, pixel_offset, columns, rows, margin, cell_width, cell_height, for_range, pixel,
  fill, clear, newline, draw, character, spaces, put_byte, write_str,
}
use switchvisor.Framebuffer.Layout.{IsLayout, IsOffset, pixel_offset-IsOffset}

-- The column may be one past the last, where the next character begins a line.
pub record IsCursor (c : Console) : Type 0 where
  pub layout_ok : IsLayout c.layout
  pub column_ok : c.column ≤ columns c
  pub row_ok : c.row < rows c

logical-ge : (l : FramebufferLayout) → IsLayout l → (64 ≤ logical_width l) × (64 ≤ logical_height l)
unfolding turned
logical-ge l v = go l.rotation
  where
    go : (r : Rotation) → (64 ≤ turned r l.width l.height) × (64 ≤ turned r l.height l.width)
    go upright = (v.wide, v.high)
    go three = (v.high, v.wide)

-- The cell at the cursor, where a line is not full, lies within the margins of the screen.
pub cell-within :
    (c : Console)
    → IsCursor c
    → c.column < columns c
    → (margin + c.column * cell_width + cell_width + margin ≤ logical_width c.layout)
      × (margin + c.row * cell_height + cell_height + margin ≤ logical_height c.layout)
cell-within c v h =
    let size = logical-ge c.layout v.layout_ok in let row = v.row_ok in (omega arith, omega arith)

-- A property of the memory that every write of a whole word of the reservation keeps.
abbrev pub IsKeptBy : {S : Type 0} → PixelSink S → FramebufferLayout → (S → Type 0) → Type 0
IsKeptBy {S} sink l P =
    (s : S) (offset color : ℕ)
    → offset % 4 ≡ 0
    → offset + 4 ≤ Memory.size l.reservation
    → P s
    → P (sink.write_pixel s offset color)

for_range-keeps :
    {A : Type 0} (P : A → Type 0) (n start : ℕ) (body : ℕ → A → A) (a : A)
    → ((i : ℕ) (a : A) → P a → P (body i a))
    → P a
    → P (for_range n start body a)
unfolding for_range
for_range-keeps P zero start body a each h = h
for_range-keeps P (suc n) start body a each h =
    for_range-keeps P n (suc start) body (body start a) each (each start a h)

module _ {S : Type 0} (sink : PixelSink S) (P : S → Type 0) where
  pixel-keeps :
      (l : FramebufferLayout) (x y color : ℕ) (s : S)
      → IsLayout l
      → IsKeptBy sink l P
      → P s
      → P (pixel sink l x y color s)
  unfolding pixel IsOffset
  pixel-keeps l x y color s v keep h =
      let law = pixel_offset-IsOffset l x y v in
      elim (Option-cases (pixel_offset l x y)) [
        | inl e ↦ rw (pixel, e) h
        | inr (offset, e) ↦
            rw (pixel, e)
              (let (in_x, in_y, word, within) = rw e at law in keep s offset color word within h)
      ]

  fill-keeps :
      (l : FramebufferLayout) (x y wide high : ℕ) (color : ℕ → ℕ → ℕ) (s : S)
      → IsLayout l
      → IsKeptBy sink l P
      → P s
      → P (fill sink l x y wide high color s)
  unfolding fill
  fill-keeps l x y wide high color s v keep h =
      for_range-keeps P high y _ s
        (λ j t k.
          for_range-keeps P wide x _ t (λ i t' k'. pixel-keeps l i j (color i j) t' v keep k') k)
        h

  -- What a step of the console keeps.
  unfoldable pub IsStep : Console → Console × S → Type 0
  IsStep c (c', s') = (c'.layout ≡ c.layout) × IsCursor c' × P s'

  draw-IsStep :
      (c : Console) (byte : ℕ) (s : S)
      → IsCursor c
      → c.column < columns c
      → IsKeptBy sink c.layout P
      → P s
      → IsStep c (draw sink c byte s)
  unfolding draw IsStep
  draw-IsStep c byte s v room keep h = (
    refl,
    record { layout_ok = v.layout_ok; column_ok = omega arith; row_ok = v.row_ok },
    fill-keeps c.layout _ _ cell_width cell_height _ s v.layout_ok keep h,
  )

  newline-IsStep :
      (c : Console) (s : S)
      → IsCursor c
      → IsKeptBy sink c.layout P
      → P s
      → IsStep c (newline sink c s)
  unfolding newline IsStep
  newline-IsStep c s v keep h =
      let some_row = v.row_ok in
      (
        refl,
        record {
          layout_ok = v.layout_ok;
          column_ok = omega arith;
          row_ok = mod-lt (c.row + 1) (omega arith);
        },
        fill-keeps c.layout _ _ _ cell_height _ s v.layout_ok keep h,
      )

  pub character-IsStep :
      (c : Console) (byte : ℕ) (s : S)
      → IsCursor c
      → IsKeptBy sink c.layout P
      → P s
      → IsStep c (character sink c byte s)
  unfolding character IsStep newline
  character-IsStep c byte s v keep h = elim (Bool-cases (c.column == columns c)) [
    | inl e ↦
        (let (same, next, kept) = newline-IsStep c s v keep h in
          let size = logical-ge c.layout v.layout_ok in
          rw (character, e)
            (draw-IsStep (newline sink c s).0 byte (newline sink c s).1 next (omega arith) keep
              kept))
    | inr e ↦
        (let room : c.column < columns c = (let le = v.column_ok in ground arith) in
          rw (character, e) (draw-IsStep c byte s v room keep h))
  ]

  spaces-IsStep :
      (n : ℕ) (c : Console) (s : S)
      → IsCursor c
      → IsKeptBy sink c.layout P
      → P s
      → IsStep c (spaces sink n c s)
  unfolding spaces IsStep
  spaces-IsStep zero c s v keep h = (refl, v, h)
  spaces-IsStep (suc n) c s v keep h =
      let (same, next, kept) = character-IsStep c 32 s v keep h in
      let keep' = subst (λ l. IsKeptBy sink l P) (sym same) keep in
      let (same', next', kept') =
        spaces-IsStep n (character sink c 32 s).0 (character sink c 32 s).1 next keep' kept in
      (same' ∙ same, next', kept')

  put_byte-IsStep :
      (c : Console) (byte : ℕ) (s : S)
      → IsCursor c
      → IsKeptBy sink c.layout P
      → P s
      → IsStep c (put_byte sink c byte s)
  unfolding put_byte IsStep
  put_byte-IsStep c byte s v keep h =
      let broken = newline-IsStep c s v keep h in
      let tabbed = spaces-IsStep (4 - c.column % 4) c s v keep h in
      let drawn = character-IsStep c byte s v keep h in
      let returned : IsCursor (record c { column = 0 }) = record {
        layout_ok = v.layout_ok;
        column_ok = omega arith;
        row_ok = v.row_ok;
      } in
      elim (Bool-cases (byte == 10)) [
        | inl e ↦ rw (put_byte, e) broken
        | inr e ↦ elim (Bool-cases (byte == 13)) [
          | inl f ↦ rw (put_byte, e, f) (refl, returned, h)
          | inr f ↦ elim (Bool-cases (byte == 9)) [
            | inl g ↦ rw (put_byte, e, f, g) tabbed
            | inr g ↦ rw (put_byte, e, f, g) drawn
          ]
        ]
      ]

  -- Text of any bytes leaves the cursor in the grid and the layout as it is, and writes only whole
  -- words of the reservation: what every such write keeps is kept.
  pub write_str-IsStep :
      (c : Console) (bytes : List ℕ) (s : S)
      → IsCursor c
      → IsKeptBy sink c.layout P
      → P s
      → IsStep c (write_str sink c bytes s)
  unfolding write_str IsStep
  write_str-IsStep c [] s v keep h = (refl, v, h)
  write_str-IsStep c (byte ∷ bytes) s v keep h =
      let (same, next, kept) = put_byte-IsStep c byte s v keep h in
      let keep' = subst (λ l. IsKeptBy sink l P) (sym same) keep in
      let (same', next', kept') =
        write_str-IsStep (put_byte sink c byte s).0 bytes (put_byte sink c byte s).1 next keep'
          kept in
      (same' ∙ same, next', kept')

  pub clear-IsStep :
      (c : Console) (s : S)
      → IsCursor c
      → IsKeptBy sink c.layout P
      → P s
      → IsStep c (clear sink c s)
  unfolding clear IsStep
  clear-IsStep c s v keep h =
      let some_row = v.row_ok in
      (
        refl,
        record { layout_ok = v.layout_ok; column_ok = omega arith; row_ok = omega arith },
        fill-keeps c.layout 0 0 _ _ _ s v.layout_ok keep h,
      )

pub new-IsCursor : (l : FramebufferLayout) → IsLayout l → IsCursor (new l)
unfolding new
new-IsCursor l v =
    let size = logical-ge l v in
    record { layout_ok = v; column_ok = omega arith; row_ok = omega arith }
