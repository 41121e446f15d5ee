-- ===== src/Cursor/Tests.antt =====
-- Cursors at the edges of a screen, and the theorems of Cursor/Bounds.antt at one of them.
use remy_desk.Base.{◌≡◌, refl, true, some, arith}
use remy_desk.Base.Int.{pos, negsuc, ◌+ℤ◌, ◌-ℤ◌}
use remy_desk.Cursor.{
  CursorState, blend_rects, int_of_u32, is_odd, clip_low, clip_screen, clip_image, align_src,
  even_size, on_screen, aligned, both_at_least,
}
use remy_desk.Cursor.Axes.{Fits, axis_of}
use remy_desk.Cursor.Bounds.{blend_rects-Fits}

-- An image of 64 by 64 at (-7, 1070) on a screen of 1920 by 1080.
abbrev corner : CursorState
corner = record {
  active = true;
  width = 64;
  height = 64;
  x = negsuc 6;
  y = pos 1070;
  w = pos 64;
  h = pos 64;
}

corner_rects : blend_rects true true corner 1920 1080 ≡ some (axis_of 6 0 58, axis_of 0 1070 10)
unfolding blend_rects int_of_u32 is_odd clip_low clip_screen clip_image align_src even_size
    on_screen aligned both_at_least ◌+ℤ◌ ◌-ℤ◌
corner_rects = refl

-- On a screen of odd width that is narrower than the image, the rectangle of an odd offset is one
-- pixel too wide.
odd_screen_overrun :
    blend_rects true true (record corner { y = pos 0 }) 31 1080
    ≡ some (axis_of 6 0 32, axis_of 0 0 64)
unfolding blend_rects int_of_u32 is_odd clip_low clip_screen clip_image align_src even_size
    on_screen aligned both_at_least ◌+ℤ◌ ◌-ℤ◌
odd_screen_overrun = refl

blend_rects-Fits_example : Fits 64 1920 (axis_of 6 0 58) × Fits 64 1080 (axis_of 0 1070 10)
blend_rects-Fits_example =
    blend_rects-Fits true true corner 1920 1080 (axis_of 6 0 58) (axis_of 0 1070 10) (omega arith)
      (omega arith) (omega arith) (omega arith) (omega arith) (omega arith) corner_rects
