-- ===== src/Stage/Pixels.antt =====
-- What `copy_fb_to_rgb_stage` promises of the stage, byte by byte, and when it fails.
use remy_desk.Base.{
  ℕ, ◌+◌, ◌*◌, ◌≤◌, ◌<◌, ◌≡◌, ◌↔◌, ◌⊎◌, ap, true, none, some, arith, ltb, if◌then◌else◌,
}
use remy_desk.Base.Bytes.{Memory}
use remy_desk.Stage.{Buffer, Formats, copy_rows, needs_alpha, copy_fb_to_rgb_stage}
use remy_desk.Stage.Rows.{staged, copy_rows_lem}

-- Alpha is set only where a pixel has four bytes.
needs_alpha_four :
    (f : Formats) (src stage : Buffer) (width bytes_per_pixel : ℕ)
    → needs_alpha f src stage bytes_per_pixel ≡ true
    → width * bytes_per_pixel ≡ width * 4
unfolding needs_alpha
needs_alpha_four f src stage width bytes_per_pixel h =
    let four : bytes_per_pixel ≡ 4 = ground arith in ap (λ k. width * k) four

copied_rows :
    (f : Formats) (src stage : Buffer) (width height bytes_per_pixel : ℕ) (from to m : Memory)
    → src.map ≡ some from
    → stage.map ≡ some to
    → copy_fb_to_rgb_stage f src stage width height bytes_per_pixel ≡ some m
    → (width * bytes_per_pixel ≤ stage.pitch)
      × (copy_rows
            (needs_alpha f src stage bytes_per_pixel)
            width
            (width * bytes_per_pixel)
            src.pitch
            stage.pitch
            from
            height
            0
            0
            to
          ≡ m)
unfolding copy_fb_to_rgb_stage
copied_rows f src stage width height bytes_per_pixel from to m a b e = ground arith

-- Behind a return of 0, in each of the rows: a byte of a pixel is the source's byte of the same row
-- and column, or 0xff where it is the alpha of an opaque format; a byte of the stage's padding is
-- what it was.
pub copy_fb_to_rgb_stage_pixels :
    (f : Formats) (src stage : Buffer) (width height bytes_per_pixel : ℕ) (from to m : Memory)
    (y c : ℕ)
    → src.map ≡ some from
    → stage.map ≡ some to
    → copy_fb_to_rgb_stage f src stage width height bytes_per_pixel ≡ some m
    → y < height
    → c < stage.pitch
    → m (y * stage.pitch + c) ≡ (
        if ltb c (width * bytes_per_pixel)
        then staged (needs_alpha f src stage bytes_per_pixel) c (from (y * src.pitch + c))
        else to (y * stage.pitch + c))
copy_fb_to_rgb_stage_pixels f src stage width height bpp from to m y c a b e row column =
    let (le, same) = copied_rows f src stage width height bpp from to m a b e in
    let zero_to : 0 + (y * stage.pitch + c) ≡ y * stage.pitch + c = omega arith in
    let zero_from : 0 + (y * src.pitch + c) ≡ y * src.pitch + c = omega arith in
    rw (← same) (
      rw (zero_to, zero_from) at
        (copy_rows_lem (needs_alpha f src stage bpp) width (width * bpp) src.pitch stage.pitch from
          height 0 0 to y c (needs_alpha_four f src stage width bpp) le row column))

-- It fails exactly if a buffer is not mapped or a row of pixels does not fit a pitch.
pub copy_fb_to_rgb_stage_fails :
    (f : Formats) (src stage : Buffer) (width height bytes_per_pixel : ℕ)
    → (copy_fb_to_rgb_stage f src stage width height bytes_per_pixel ≡ none) ↔ (
        (src.map ≡ none)
        ⊎ (stage.map ≡ none)
        ⊎ (src.pitch < width * bytes_per_pixel)
        ⊎ (stage.pitch < width * bytes_per_pixel))
unfolding copy_fb_to_rgb_stage
copy_fb_to_rgb_stage_fails f src stage width height bpp = (λ e. ground arith, λ h. ground arith)
