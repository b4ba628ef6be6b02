-- ===== src/Framebuffer.antt =====
-- crates/switchvisor/src/framebuffer.rs: the console on a framebuffer that the boot program left. The
-- sink of the pixels is a state `S`.
pub mod Font
pub mod Layout
pub mod Cursor
mod Tests
use switchvisor.Base.{
  ℕ, zero, suc, ◌+◌, ◌-◌, ◌*◌, ◌/◌, ◌%◌, ◌^◌, Bool, true, false, ◌&&◌, ◌||◌, not, leb, ltb, ◌==◌,
  if◌then◌else◌, List, [], ◌∷◌, get_or, bit, Option, none, some, Result, ok, err,
}
use switchvisor.Memory
use switchvisor.Memory.{AddressRange, ipa_limit}
use switchvisor.Framebuffer.Font.{glyph}

pub data Rotation : Type 0 where
  upright three : Rotation

pub data FramebufferError : Type 0 where
  geometry address : FramebufferError

pub record FramebufferLayout : Type 0 where
  pub reservation : AddressRange
  pub width : ℕ
  pub height : ℕ
  pub stride : ℕ
  pub rotation : Rotation

abbrev is_bad_geometry : ℕ → ℕ → ℕ → ℕ → Bool
is_bad_geometry size width height stride =
    not (leb 64 width && leb width 4096)
    || not (leb 64 height && leb height 4096)
    || not (stride % 4 == 0)
    || ltb stride (width * 4)
    || ltb size (stride * height)
    || ltb (16 * 1024 * 1024) size

unfoldable pub new_layout : ℕ → ℕ → ℕ → ℕ → ℕ → Rotation → Result FramebufferError FramebufferLayout
new_layout base size width height stride rotation =
    if is_bad_geometry size width height stride then err geometry else elim (Memory.new base size) [
      | err e ↦ err address
      | ok r ↦
          if base == 0 || not (base % 4 == 0) || ltb ipa_limit r.end
          then err address
          else ok (record {
            reservation = r;
            width = width;
            height = height;
            stride = stride;
            rotation = rotation;
          })
    ]

unfoldable pub hekate_erista : Result FramebufferError FramebufferLayout
hekate_erista = new_layout 0xf5a0_0000 0x40_0000 720 1280 2880 three

unfoldable pub turned : Rotation → ℕ → ℕ → ℕ
turned upright width height = width
turned three width height = height

abbrev pub logical_width : FramebufferLayout → ℕ
logical_width l = turned l.rotation l.width l.height

abbrev pub logical_height : FramebufferLayout → ℕ
logical_height l = turned l.rotation l.height l.width

-- The place of a pixel in memory that is not turned.
unfoldable pub physical : Rotation → ℕ → ℕ → ℕ → ℕ × ℕ
physical upright height x y = (x, y)
physical three height x y = (y, height - 1 - x)

unfoldable pub pixel_offset : FramebufferLayout → ℕ → ℕ → Option ℕ
pixel_offset l x y =
    let (px, py) = physical l.rotation l.height x y in
    if leb (logical_width l) x || leb (logical_height l) y
    then none
    else some (py * l.stride + px * 4)

pub record PixelSink (S : Type 0) : Type 0 where
  pub write_pixel : S → ℕ → ℕ → S

-- The console without its sink.
pub record Console : Type 0 where
  pub layout : FramebufferLayout
  pub column : ℕ
  pub row : ℕ
  pub foreground : ℕ
  pub background : ℕ

unfoldable pub new : FramebufferLayout → Console
new l = record {
  layout = l;
  column = 0;
  row = 0;
  foreground = 0xffee_f2f6;
  background = 0xff12_1827;
}

abbrev pub margin : ℕ
margin = 16

abbrev pub cell_width : ℕ
cell_width = 12

abbrev pub cell_height : ℕ
cell_height = 16

abbrev pub columns : Console → ℕ
columns c = (logical_width c.layout - margin * 2) / cell_width

abbrev pub rows : Console → ℕ
rows c = (logical_height c.layout - margin * 2) / cell_height

-- `for i in start..start + count`
unfoldable pub for_range : {A : Type 0} → ℕ → ℕ → (ℕ → A → A) → A → A
for_range zero start body a = a
for_range (suc n) start body a = for_range n (suc start) body (body start a)

unfoldable pub to_ascii_uppercase : ℕ → ℕ
to_ascii_uppercase byte = if leb 97 byte && leb byte 122 then byte - 32 else byte

-- Whether the cell of a glyph is lit at a place.
unfoldable pub is_lit : List ℕ → ℕ → ℕ → Bool
is_lit rows dx dy = ltb dy 14 && ltb dx 10 && bit (get_or rows (dy / 2) 0) (4 - dx / 2)

module _ {S : Type 0} (sink : PixelSink S) where
  unfoldable pub pixel : FramebufferLayout → ℕ → ℕ → ℕ → S → S
  pixel l x y color s = elim (pixel_offset l x y) [
    | none ↦ s
    | some offset ↦ sink.write_pixel s offset color
  ]

  -- The pixels of a rectangle, line by line.
  unfoldable pub fill : FramebufferLayout → ℕ → ℕ → ℕ → ℕ → (ℕ → ℕ → ℕ) → S → S
  fill l x y wide high color s =
      for_range high y (λ v t. for_range wide x (λ u t'. pixel l u v (color u v) t') t) s

  unfoldable pub clear : Console → S → Console × S
  clear c s = (
    record c { column = 0; row = 0 },
    fill c.layout 0 0 (logical_width c.layout) (logical_height c.layout) (λ x y. c.background) s,
  )

  unfoldable pub newline : Console → S → Console × S
  newline c s =
      let row = (c.row + 1) % rows c in
      (
        record c { column = 0; row = row },
        fill c.layout margin (margin + row * cell_height) (logical_width c.layout - margin - margin)
            cell_height (λ x y. c.background) s,
      )

  unfoldable pub draw : Console → ℕ → S → Console × S
  draw c byte s =
      let x = margin + c.column * cell_width in
      let y = margin + c.row * cell_height in
      let shape = glyph (to_ascii_uppercase byte) in
      (
        record c { column = c.column + 1 },
        fill c.layout x y cell_width cell_height
            (λ u v. if is_lit shape (u - x) (v - y) then c.foreground else c.background) s,
      )

  -- `byte` of a byte that is not a control character.
  unfoldable pub character : Console → ℕ → S → Console × S
  character c byte s =
      let (c', s') = if c.column == columns c then newline c s else (c, s) in draw c' byte s'

  unfoldable pub spaces : ℕ → Console → S → Console × S
  spaces zero c s = (c, s)
  spaces (suc n) c s = let (c', s') = character c 32 s in spaces n c' s'

  unfoldable pub put_byte : Console → ℕ → S → Console × S
  put_byte c byte s =
      if byte == 10
      then newline c s
      else if byte == 13
      then (record c { column = 0 }, s)
      else if byte == 9
      then spaces (4 - c.column % 4) c s
      else character c byte s

  unfoldable pub write_str : Console → List ℕ → S → Console × S
  write_str c [] s = (c, s)
  write_str c (byte ∷ bytes) s = let (c', s') = put_byte c byte s in write_str c' bytes s'
