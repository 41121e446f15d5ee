-- ===== src/Cursor/Bounds.antt =====
-- The rectangles of a blend lie inside the cursor's image and the screen, and suit the hardware.
use remy_desk.Base.{ℕ, ◌%◌, ◌^◌, ◌<◌, ◌≡◌, Bool, true, false, some, arith}
use remy_desk.Base.Int.{ℤ, pos, ltb_ℤ}
use remy_desk.Cursor.{
  CursorState, Axis, int_of_u32, clip_image, on_screen, aligned, both_at_least, blend_rects,
}
use remy_desk.Cursor.Axes.{Fits, on_screen-Clipped, aligned-Fits}

int_of_u32_small : (n : ℕ) → n < 2 ^ 31 → int_of_u32 n ≡ pos n
unfolding int_of_u32
int_of_u32_small n h = ground arith

both_at_least_parts :
    (n : ℕ) (a b : Axis)
    → both_at_least n a b ≡ true
    → (ltb_ℤ a.size (pos n) ≡ false) × (ltb_ℤ b.size (pos n) ≡ false)
unfolding both_at_least
both_at_least_parts n a b h = ground arith

-- What has been tested where a blend takes place.
record Blended (state : CursorState) (screen_w screen_h : ℤ) (x y : Axis) : Type 0 where
  some_w : ltb_ℤ state.w (pos 1) ≡ false
  some_h : ltb_ℤ state.h (pos 1) ≡ false
  first :
      both_at_least 1 (on_screen screen_w state.x state.w) (on_screen screen_h state.y state.h)
      ≡ true
  second :
      both_at_least 1
        (clip_image (int_of_u32 state.width) (on_screen screen_w state.x state.w))
        (clip_image (int_of_u32 state.height) (on_screen screen_h state.y state.h))
      ≡ true
  third : both_at_least 2 x y ≡ true
  is_x :
      aligned
        (int_of_u32 state.width)
        screen_w
        (clip_image (int_of_u32 state.width) (on_screen screen_w state.x state.w))
      ≡ x
  is_y :
      aligned
        (int_of_u32 state.height)
        screen_h
        (clip_image (int_of_u32 state.height) (on_screen screen_h state.y state.h))
      ≡ y

blend_rects-Blended :
    (handle_api imported : Bool) (state : CursorState) (screen_width screen_height : ℕ) (x y : Axis)
    → blend_rects handle_api imported state screen_width screen_height ≡ some (x, y)
    → Blended state (int_of_u32 screen_width) (int_of_u32 screen_height) x y
unfolding blend_rects
blend_rects-Blended handle_api imported state sw sh x y e = ground arith

-- One axis of a blend, from what has been tested on it.
axis-Fits :
    (image screen : ℕ) (place size : ℤ) (a : Axis)
    → screen % 2 ≡ 0
    → ltb_ℤ size (pos 1) ≡ false
    → ltb_ℤ (on_screen (pos screen) place size).size (pos 1) ≡ false
    → ltb_ℤ (clip_image (pos image) (on_screen (pos screen) place size)).size (pos 1) ≡ false
    → ltb_ℤ a.size (pos 2) ≡ false
    → aligned (pos image) (pos screen) (clip_image (pos image) (on_screen (pos screen) place size))
      ≡ a
    → Fits image screen a
axis-Fits image screen place size a even p h h' two e = rw (← e) (
    aligned-Fits image screen (on_screen (pos screen) place size)
      (on_screen-Clipped screen place size p h) even h' (rw (← e) at two))

-- Where dimensions are below 2^31 and those of the screen are even, the two rectangles that go to
-- the hardware start at even offsets inside the cursor's image, have an even size of at least 2, and
-- lie within the image and within the screen, wherever the cursor stands.
pub blend_rects-Fits :
    (handle_api imported : Bool) (state : CursorState) (screen_width screen_height : ℕ) (x y : Axis)
    → state.width < 2 ^ 31
    → state.height < 2 ^ 31
    → screen_width < 2 ^ 31
    → screen_height < 2 ^ 31
    → screen_width % 2 ≡ 0
    → screen_height % 2 ≡ 0
    → blend_rects handle_api imported state screen_width screen_height ≡ some (x, y)
    → Fits state.width screen_width x × Fits state.height screen_height y
blend_rects-Fits handle_api imported state sw sh x y w h u v eu ev e =
    let b : Blended state (pos sw) (pos sh) x y =
      rw (int_of_u32_small sw u, int_of_u32_small sh v) at
        (blend_rects-Blended handle_api imported state sw sh x y e) in
    let ew = int_of_u32_small state.width w in
    let eh = int_of_u32_small state.height h in
    let one = both_at_least_parts 1 _ _ b.first in
    let two = both_at_least_parts 1 _ _ (rw (ew, eh) at b.second) in
    let three = both_at_least_parts 2 _ _ b.third in
    (
      axis-Fits state.width sw state.x state.w x eu b.some_w one.0 two.0 three.0 (rw ew at b.is_x),
      axis-Fits state.height sh state.y state.h y ev b.some_h one.1 two.1 three.1 (rw eh at b.is_y),
    )
