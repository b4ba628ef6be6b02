-- ===== src/Framebuffer/Tests.antt =====
-- The screen of the board, 720 by 1280 and turned, with a sink that remembers the highest offset.
use switchvisor.Base.{◌≡◌, refl, ℕ, ◌*◌, ◌<◌, max, [], ◌∷◌, some, ok, err, arith}
use switchvisor.Memory
use switchvisor.Memory.{AddressRange}
use switchvisor.Framebuffer.{
  FramebufferLayout, geometry, three, upright, new_layout, hekate_erista, turned, physical,
  pixel_offset, PixelSink, new, write_str,
}
use switchvisor.Framebuffer.Layout.{IsLayout, new_layout-IsLayout}
use switchvisor.Framebuffer.Cursor.{new-IsCursor, IsStep, write_str-IsStep, IsKeptBy}

abbrev screen : FramebufferLayout
screen = record {
  reservation = record { start = 0xf5a0_0000; end = 0xf5e0_0000 };
  width = 720;
  height = 1280;
  stride = 2880;
  rotation = three;
}

accepted : hekate_erista ≡ ok screen
unfolding hekate_erista new_layout Memory.new
accepted = refl

screen-IsLayout : IsLayout screen
unfolding hekate_erista
screen-IsLayout = new_layout-IsLayout 0xf5a0_0000 0x40_0000 720 1280 2880 three accepted

too_short : new_layout 0x8000_0000 0x1000 64 64 256 upright ≡ err geometry
unfolding new_layout
too_short = refl

-- The first logical pixel is at the start of the last line.
corner : pixel_offset screen 0 0 ≡ some (1279 * 2880)
unfolding pixel_offset turned physical
corner = refl

abbrev top_offset : PixelSink ℕ
top_offset = record { write_pixel = λ s offset color. max s offset }

top_offset-IsKeptBy : IsKeptBy top_offset screen (λ s. s < 0x40_0000)
top_offset-IsKeptBy s offset color word within h = omega arith

write_str-IsStep_example :
    IsStep top_offset
      (λ s. s < 0x40_0000)
      (new screen)
      (write_str top_offset (new screen) (65 ∷ 10 ∷ 9 ∷ []) 0)
unfolding new
write_str-IsStep_example =
    write_str-IsStep top_offset (λ s. s < 0x40_0000) (new screen) (65 ∷ 10 ∷ 9 ∷ []) 0
      (new-IsCursor screen screen-IsLayout) top_offset-IsKeptBy (omega arith)
