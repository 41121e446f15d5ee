-- ===== src/Cursor.antt =====
-- The hardware cursor: `blend_cursor_with_rga` of native/desktop-streamer/drm_rga_mpp_stream.c up to
-- its call of `improcess`, whose rectangles are the result here. C's `int` is ℤ: a sum that
-- leaves the range of `int` is undefined there and is not modelled. The function treats the two axes alike; a step of it on one
-- axis is a function of its own.
pub mod Axes
pub mod Bounds
mod Tests
use remy_desk.Base.{
  ℕ, ◌-◌, ◌%◌, ◌^◌, Bool, true, false, ◌&&◌, ◌||◌, not, Option, none, some, ltb, ◌==◌,
  if◌then◌else◌,
}
use remy_desk.Base.Int.{ℤ, pos, negsuc, ◌+ℤ◌, ◌-ℤ◌, ltb_ℤ}

-- What `struct cursor_state` holds of the geometry: uint32_t dimensions of the image, int32_t place
-- and size on the screen.
pub record CursorState : Type 0 where
  pub active : Bool
  pub width : ℕ
  pub height : ℕ
  pub x : ℤ
  pub y : ℤ
  pub w : ℤ
  pub h : ℤ

-- The rectangles of the source and of the destination along one axis: two offsets and a size.
pub record Axis : Type 0 where
  pub src : ℤ
  pub dst : ℤ
  pub size : ℤ

-- (int)n for a uint32_t
unfoldable pub int_of_u32 : ℕ → ℤ
int_of_u32 n = if ltb n (2 ^ 31) then pos n else negsuc (2 ^ 32 - n - 1)

-- n & 1, in two's complement
unfoldable pub is_odd : ℤ → Bool
is_odd (pos n) = n % 2 == 1
is_odd (negsuc n) = n % 2 == 0

-- if (dst < 0) { src -= dst; size += dst; dst = 0; }
unfoldable pub clip_low : Axis → Axis
clip_low a =
    if ltb_ℤ a.dst (pos 0)
    then record { src = a.src -ℤ a.dst; dst = pos 0; size = a.size +ℤ a.dst }
    else a

-- if (dst + size > screen) size = screen - dst
unfoldable pub clip_screen : ℤ → Axis → Axis
clip_screen screen a =
    if ltb_ℤ screen (a.dst +ℤ a.size) then record a { size = screen -ℤ a.dst } else a

-- if (src + size > image) size = image - src
unfoldable pub clip_image : ℤ → Axis → Axis
clip_image image a = if ltb_ℤ image (a.src +ℤ a.size) then record a { size = image -ℤ a.src } else a

-- if (src & 1) { src--; size++; }
unfoldable pub align_src : Axis → Axis
align_src a = if is_odd a.src then record a { src = a.src -ℤ pos 1; size = a.size +ℤ pos 1 } else a

-- if (size & 1), one more where image and screen have room, else one less
unfoldable pub even_size : ℤ → ℤ → Axis → Axis
even_size image screen a =
    if is_odd a.size
    then if ltb_ℤ (a.src +ℤ a.size) image && ltb_ℤ (a.dst +ℤ a.size) screen
      then record a { size = a.size +ℤ pos 1 }
      else record a { size = a.size -ℤ pos 1 }
    else a

-- The steps between the tests on the sizes.
unfoldable pub on_screen : ℤ → ℤ → ℤ → Axis
on_screen screen place size =
    clip_screen screen (clip_low (record { src = pos 0; dst = place; size = size }))

unfoldable pub aligned : ℤ → ℤ → Axis → Axis
aligned image screen a = even_size image screen (clip_image image (align_src a))

unfoldable pub both_at_least : ℕ → Axis → Axis → Bool
both_at_least n a b = not (ltb_ℤ a.size (pos n) || ltb_ℤ b.size (pos n))

-- The rectangles that are blended, if any. `handle_api` is REMYDESK_RGA_HANDLE_API, and `imported`
-- says that the cursor's buffer has a descriptor.
unfoldable pub blend_rects : Bool → Bool → CursorState → ℕ → ℕ → Option (Axis × Axis)
blend_rects handle_api imported state screen_width screen_height =
    let image_w = int_of_u32 state.width in
    let image_h = int_of_u32 state.height in
    let screen_w = int_of_u32 screen_width in
    let screen_h = int_of_u32 screen_height in
    if not handle_api
      || not state.active
      || not imported
      || ltb_ℤ state.w (pos 1)
      || ltb_ℤ state.h (pos 1)
    then none
    else let x1 = on_screen screen_w state.x state.w in
      let y1 = on_screen screen_h state.y state.h in
      if not (both_at_least 1 x1 y1)
      then none
      else let x2 = clip_image image_w x1 in
        let y2 = clip_image image_h y1 in
        if not (both_at_least 1 x2 y2)
        then none
        else let x3 = aligned image_w screen_w x2 in
          let y3 = aligned image_h screen_h y2 in
          if both_at_least 2 x3 y3 then some (x3, y3) else none
