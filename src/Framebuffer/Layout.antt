-- ===== src/Framebuffer/Layout.antt =====
-- The pixels of an accepted layout: each has a place of its own within the reservation.
use native.Mathlib.Nat.{mul-le-mul_right, mul_comm, add-mul}
use switchvisor.Base.{
  ℕ, zero, suc, ◌⊎◌, ◌+◌, ◌*◌, ◌%◌, ◌^◌, ◌<◌, ◌≤◌, ◌≡◌, ap, ◌∙◌, leb, ◌||◌, Option, none, some, ok,
  arith, dec_lt, Bool-cases, Result-cases, inl, inr,
}
use switchvisor.Memory
use switchvisor.Memory.{AddressRange, ipa_limit, new_bounds}
use switchvisor.Framebuffer.{
  FramebufferLayout, Rotation, upright, three, new_layout, turned, physical, logical_width,
  logical_height, pixel_offset,
}

pub record IsLayout (l : FramebufferLayout) : Type 0 where
  pub wide : 64 ≤ l.width
  pub narrow : l.width ≤ 4096
  pub high : 64 ≤ l.height
  pub low : l.height ≤ 4096
  pub words : l.stride % 4 ≡ 0
  pub lines : l.width * 4 ≤ l.stride
  pub within : l.stride * l.height ≤ Memory.size l.reservation
  pub small : Memory.size l.reservation ≤ 2 ^ 24
  pub aligned : l.reservation.start % 4 ≡ 0
  pub below : l.reservation.end ≤ ipa_limit

-- A layout that is accepted has its geometry within its reservation, and this below 2^36.
pub new_layout-IsLayout :
    (base size width height stride : ℕ) (rotation : Rotation) {l : FramebufferLayout}
    → new_layout base size width height stride rotation ≡ ok l
    → IsLayout l
unfolding new_layout
new_layout-IsLayout base size width height stride rotation {l} h =
    elim (Result-cases (Memory.new base size)) [
      | inl (r, e) ↦
          (let bounds = new_bounds base size e in
            record {
              wide = ground arith;
              narrow = ground arith;
              high = ground arith;
              low = ground arith;
              words = ground arith;
              lines = ground arith;
              within = ground arith;
              small = ground arith;
              aligned = ground arith;
              below = ground arith;
            })
      | inr (e, f) ↦ absurd (ground arith)
    ]

-- The place of a logical pixel is one of the physical ones.
physical-lt :
    (l : FramebufferLayout) (x y : ℕ)
    → x < logical_width l
    → y < logical_height l
    → ((physical l.rotation l.height x y).0 < l.width)
      × ((physical l.rotation l.height x y).1 < l.height)
unfolding physical turned
physical-lt l x y h k = go l.rotation h k
  where
    go :
        (r : Rotation)
        → x < turned r l.width l.height
        → y < turned r l.height l.width
        → ((physical r l.height x y).0 < l.width) × ((physical r l.height x y).1 < l.height)
    go upright h k = (h, k)
    go three h k = (k, omega arith)

physical-injective :
    (l : FramebufferLayout) (x y u v : ℕ)
    → x < logical_width l
    → u < logical_width l
    → (physical l.rotation l.height x y).0 ≡ (physical l.rotation l.height u v).0
    → (physical l.rotation l.height x y).1 ≡ (physical l.rotation l.height u v).1
    → (x ≡ u) × (y ≡ v)
unfolding physical turned
physical-injective l x y u v h k e f = go l.rotation h k e f
  where
    go :
        (r : Rotation)
        → x < turned r l.width l.height
        → u < turned r l.width l.height
        → (physical r l.height x y).0 ≡ (physical r l.height u v).0
        → (physical r l.height x y).1 ≡ (physical r l.height u v).1
        → (x ≡ u) × (y ≡ v)
    go upright h k e f = (e, f)
    go three h k e f = (omega arith, e)

-- A line after another begins after the whole of it.
line_after : (a b stride : ℕ) → a < b → a * stride + stride ≤ b * stride
line_after a b stride h =
    let whole : (a + 1) * stride ≤ b * stride = mul-le-mul_right stride (omega arith) in
    let more : (a + 1) * stride ≡ a * stride + stride = add-mul a 1 stride ∙ omega arith in
    omega arith

multiple_of_four : (n stride : ℕ) → stride % 4 ≡ 0 → n * stride % 4 ≡ 0
multiple_of_four zero stride h = omega arith
multiple_of_four (suc n) stride h =
    let more : suc n * stride ≡ n * stride + stride =
      ap (λ t. t * stride) {y = n + 1} (omega arith) ∙ add-mul n 1 stride ∙ omega arith in
    let rest = multiple_of_four n stride h in omega arith

unfoldable pub IsOffset : FramebufferLayout → ℕ → ℕ → Option ℕ → Type 0
IsOffset l x y none = (logical_width l ≤ x) ⊎ (logical_height l ≤ y)
IsOffset l x y (some offset) =
    (x < logical_width l)
    × (y < logical_height l)
    × (offset % 4 ≡ 0)
    × (offset + 4 ≤ Memory.size l.reservation)

-- A pixel has an offset just if it is on the screen, and then that of a word that lies whole within
-- the reservation.
pub pixel_offset-IsOffset :
    (l : FramebufferLayout) (x y : ℕ) → IsLayout l → IsOffset l x y (pixel_offset l x y)
unfolding pixel_offset IsOffset
pixel_offset-IsOffset l x y v =
    elim (Bool-cases (leb (logical_width l) x || leb (logical_height l) y)) [
      | inl e ↦ rw e (elim (Bool-cases (leb (logical_width l) x)) [
        | inl f ↦ inl (ground arith)
        | inr f ↦ inr (ground arith)
      ])
      | inr e ↦ rw e (
          let inside = physical-lt l x y (ground arith) (ground arith) in
          let after = line_after (physical l.rotation l.height x y).1 l.height l.stride inside.1 in
          let swap = mul_comm l.stride l.height in
          let words = multiple_of_four (physical l.rotation l.height x y).1 l.stride v.words in
          (ground arith, ground arith, omega (arith, words), omega (arith, v.lines, v.within)))
    ]

-- Two pixels on the screen have different offsets.
pub pixel_offset-injective :
    (l : FramebufferLayout) (x y u v offset : ℕ)
    → IsLayout l
    → pixel_offset l x y ≡ some offset
    → pixel_offset l u v ≡ some offset
    → (x ≡ u) × (y ≡ v)
unfolding pixel_offset
pixel_offset-injective l x y u v offset w e f =
    let a = physical l.rotation l.height x y in
    let b = physical l.rotation l.height u v in
    let in_a = physical-lt l x y (ground arith) (ground arith) in
    let in_b = physical-lt l u v (ground arith) (ground arith) in
    let same : a.1 * l.stride + a.0 * 4 ≡ b.1 * l.stride + b.0 * 4 = ground arith in
    let line : a.1 ≡ b.1 = elim (dec_lt a.1 b.1) [
      | yes lt ↦ absurd (let after = line_after a.1 b.1 l.stride lt in omega (arith, w.lines))
      | no ge ↦ elim (dec_lt b.1 a.1) [
        | yes lt ↦ absurd (let after = line_after b.1 a.1 l.stride lt in omega (arith, w.lines))
        | no ge' ↦ omega arith
      ]
    ] in
    let start = ap (λ t. t * l.stride) line in
    physical-injective l x y u v (ground arith) (ground arith) (omega arith) line
