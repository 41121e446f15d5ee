-- ===== src/Stage/Tests.antt =====
-- Two pixels in two rows, from a framebuffer with no alpha.
use remy_desk.Base.{◌+◌, ◌*◌, ◌≡◌, refl, true, some, arith}
use remy_desk.Base.Bytes.{Memory, write_bytes, read_bytes}
use remy_desk.Stage.{
  Buffer, Formats, make_opaque, copy_row, copy_rows, needs_alpha, copy_fb_to_rgb_stage,
}
use remy_desk.Stage.Pixels.{copy_fb_to_rgb_stage_pixels}

abbrev formats : Formats
formats = record { bgrx = 22; bgra = 12 }

-- Byte `a` holds `a`.
abbrev scanout : Buffer
scanout = record { map = some (λ a. a); pitch = 10; rga_format = 22 }

abbrev stage : Buffer
stage = record { map = some (λ a. 0); pitch = 12; rga_format = 12 }

abbrev filled : Memory
filled = copy_rows true 2 8 10 12 (λ a. a) 2 0 0 (λ a. 0)

filled_result : copy_fb_to_rgb_stage formats scanout stage 2 2 4 ≡ some filled
unfolding copy_fb_to_rgb_stage needs_alpha
filled_result = refl

-- The second pixel of the second row, its alpha, and the padding behind it.
second_row : (filled 16 ≡ 14) × (filled 19 ≡ 255) × (filled 20 ≡ 0)
unfolding copy_rows copy_row make_opaque write_bytes read_bytes
second_row = (refl, refl, refl)

copy_fb_to_rgb_stage_pixels_example : filled (1 * 12 + 7) ≡ 255
unfolding needs_alpha
copy_fb_to_rgb_stage_pixels_example =
    copy_fb_to_rgb_stage_pixels formats scanout stage 2 2 4 (λ a. a) (λ a. 0) filled 1 7 refl refl
      filled_result (omega arith) (omega arith)
