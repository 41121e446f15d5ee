-- ===== src/Cursor/Axes.antt =====
-- One axis of `blend_cursor_with_rga`, step by step: the clipping leaves natural numbers, and the
-- alignment keeps them in the image and on the screen.
use Prim.Native.Nat.{min}
use remy_desk.Base.{
  if◌then◌else◌, ◌&&◌, ◌==◌, ℕ, suc, ◌+◌, ◌-◌, ◌%◌, ◌≤◌, ◌<◌, ◌≡◌, ◌⊎◌, inl, inr, refl, ap, ◌∙◌,
  false, arith, ltb,
}
use remy_desk.Base.Int.{ℤ, pos, negsuc, ◌+ℤ◌, ◌-ℤ◌, ◌≤ℤ◌, ltb_ℤ}
use remy_desk.Cursor.{
  Axis, is_odd, clip_low, clip_screen, clip_image, align_src, even_size, on_screen, aligned,
}

-- What every blend promises along an axis, for an image and a screen of some size.
pub record Fits (image screen : ℕ) (a : Axis) : Type 0 where
  pub src_at : pos 0 ≤ℤ a.src
  pub src_even : is_odd a.src ≡ false
  pub size_even : is_odd a.size ≡ false
  pub size_min : pos 2 ≤ℤ a.size
  pub in_image : a.src +ℤ a.size ≤ℤ pos image
  pub dst_at : pos 0 ≤ℤ a.dst
  pub on_screen : a.dst +ℤ a.size ≤ℤ pos screen

-- An axis with offsets and size that are natural numbers.
abbrev pub axis_of : ℕ → ℕ → ℕ → Axis
axis_of src dst size = record { src = pos src; dst = pos dst; size = pos size }

align_src-axis_of :
    (src dst size : ℕ)
    → align_src (axis_of src dst size) ≡ axis_of (src - src % 2) dst (size + src % 2)
unfolding align_src is_odd ◌+ℤ◌ ◌-ℤ◌
align_src-axis_of src dst size = ground arith

clip_image-axis_of :
    (image src dst size : ℕ)
    → src ≤ image
    → clip_image (pos image) (axis_of src dst size) ≡ axis_of src dst (min size (image - src))
unfolding clip_image ◌+ℤ◌ ◌-ℤ◌
clip_image-axis_of image src dst size h = ground arith

-- The size that `even_size` gives.
abbrev evened : ℕ → ℕ → ℕ → ℕ → ℕ → ℕ
evened image screen src dst size =
    if size % 2 == 1
    then if ltb (src + size) image && ltb (dst + size) screen then size + 1 else size - 1
    else size

even_size-axis_of :
    (image screen src dst size : ℕ)
    → even_size (pos image) (pos screen) (axis_of src dst size)
      ≡ axis_of src dst (evened image screen src dst size)
unfolding even_size is_odd ◌+ℤ◌ ◌-ℤ◌
even_size-axis_of image screen src dst size = ground arith

-- Before the alignment: offsets and size are natural numbers, the rectangle lies on the screen, and
-- only a cursor that sticks out at the low end starts inside its image.
pub record Clipped (screen : ℕ) (a : Axis) : Type 0 where
  pub src : ℕ
  pub dst : ℕ
  pub size : ℕ
  pub same : a ≡ axis_of src dst size
  pub some_size : 0 < size
  pub room : dst + size ≤ screen
  pub low : (src ≡ 0) ⊎ (dst ≡ 0)

clip_low-pos :
    (dst : ℕ) (size : ℤ)
    → clip_low (record { src = pos 0; dst = pos dst; size = size })
      ≡ record { src = pos 0; dst = pos dst; size = size }
unfolding clip_low
clip_low-pos dst size = ground arith

clip_low-negsuc :
    (d : ℕ) (size : ℤ)
    → clip_low (record { src = pos 0; dst = negsuc d; size = size })
      ≡ record { src = pos (suc d); dst = pos 0; size = size +ℤ negsuc d }
unfolding clip_low ◌-ℤ◌
clip_low-negsuc d size = ground arith

clip_screen-axis_of :
    (screen src dst size : ℕ)
    → dst ≤ screen
    → clip_screen (pos screen) (axis_of src dst size) ≡ axis_of src dst (min size (screen - dst))
unfolding clip_screen ◌+ℤ◌ ◌-ℤ◌
clip_screen-axis_of screen src dst size h = ground arith

-- A rectangle that keeps some size starts on the screen, or in the image.
clip_screen_size :
    (screen src dst size : ℕ)
    → ltb_ℤ (clip_screen (pos screen) (axis_of src dst size)).size (pos 1) ≡ false
    → dst < screen
unfolding clip_screen ◌+ℤ◌ ◌-ℤ◌
clip_screen_size screen src dst size h = ground arith

not_negative : (n k : ℕ) → ltb_ℤ (negsuc n) (pos (suc k)) ≡ false → ⊥
not_negative n k h = ground arith

clip_screen_nonneg :
    (screen src n : ℕ)
    → ltb_ℤ
        (clip_screen (pos screen) (record { src = pos src; dst = pos 0; size = negsuc n })).size
        (pos 1)
      ≡ false
    → ⊥
unfolding clip_screen ◌+ℤ◌ ◌-ℤ◌
clip_screen_nonneg screen src n h = ground arith

clip_image_size :
    (image src dst size : ℕ)
    → ltb_ℤ (clip_image (pos image) (axis_of src dst size)).size (pos 1) ≡ false
    → src < image
unfolding clip_image ◌+ℤ◌ ◌-ℤ◌
clip_image_size image src dst size h = ground arith

axis_of_size : (src dst size : ℕ) → ltb_ℤ (axis_of src dst size).size (pos 1) ≡ false → 0 < size
axis_of_size src dst size h = ground arith

ℤ-cases : (z : ℤ) → ((n : ℕ) × (z ≡ pos n)) ⊎ ((n : ℕ) × (z ≡ negsuc n))
ℤ-cases (pos n) = inl (n, refl)
ℤ-cases (negsuc n) = inr (n, refl)

clip_screen-Clipped :
    (screen src dst size : ℕ)
    → (src ≡ 0) ⊎ (dst ≡ 0)
    → ltb_ℤ (clip_screen (pos screen) (axis_of src dst size)).size (pos 1) ≡ false
    → Clipped screen (clip_screen (pos screen) (axis_of src dst size))
clip_screen-Clipped screen src dst size low h =
    let lt = clip_screen_size screen src dst size h in
    let e = clip_screen-axis_of screen src dst size (omega arith) in
    record {
      src = src;
      dst = dst;
      size = min size (screen - dst);
      same = e;
      some_size = axis_of_size src dst _ (rw e at h);
      room = omega arith;
      low = low;
    }

-- A rectangle that keeps some size on the screen.
pub on_screen-Clipped :
    (screen : ℕ) (place size : ℤ)
    → ltb_ℤ size (pos 1) ≡ false
    → ltb_ℤ (on_screen (pos screen) place size).size (pos 1) ≡ false
    → Clipped screen (on_screen (pos screen) place size)
unfolding on_screen
on_screen-Clipped screen place (negsuc n) p h = absurd (not_negative n 0 p)
on_screen-Clipped screen (pos d) (pos n) p h =
    rw clip_low-pos (clip_screen-Clipped screen 0 d n (inl refl) (rw clip_low-pos at h))
on_screen-Clipped screen (negsuc d) (pos n) p h = elim (ℤ-cases (pos n +ℤ negsuc d)) [
  | inl (m, e) ↦
      rw (clip_low-negsuc, e)
        (clip_screen-Clipped screen (suc d) 0 m (inr refl) (rw (clip_low-negsuc, e) at h))
  | inr (m, e) ↦ absurd (clip_screen_nonneg screen (suc d) m (rw (clip_low-negsuc, e) at h))
]

-- The size behind the alignment, and where the rectangle then ends.
evened_bounds :
    (image screen src dst size : ℕ)
    → 0 < size
    → src + size ≤ image
    → dst + size ≤ screen
    → (src ≡ 0) ⊎ (dst ≡ 0)
    → screen % 2 ≡ 0
    → let even = src - src % 2 in
      let n = evened image screen even dst (min (size + src % 2) (image - even)) in
      (n % 2 ≡ 0) × (even + n ≤ image) × (dst + n ≤ screen)
evened_bounds image screen src dst size p i s low e = ground arith

aligned-axis_of :
    (image screen src dst size : ℕ)
    → src ≤ image
    → let even = src - src % 2 in
      aligned (pos image) (pos screen) (axis_of src dst size)
      ≡ axis_of even dst (evened image screen even dst (min (size + src % 2) (image - even)))
unfolding aligned
aligned-axis_of image screen src dst size h =
    let le : src - src % 2 ≤ image = omega arith in
    rw (align_src-axis_of, clip_image-axis_of image (src - src % 2) dst (size + src % 2) le)
      (even_size-axis_of image screen _ dst _)

Fits-axis_of :
    (image screen src dst size : ℕ)
    → src % 2 ≡ 0
    → size % 2 ≡ 0
    → 2 ≤ size
    → src + size ≤ image
    → dst + size ≤ screen
    → Fits image screen (axis_of src dst size)
unfolding is_odd ◌+ℤ◌
Fits-axis_of image screen src dst size p q two i s = record {
  src_at = omega arith;
  src_even = ground arith;
  size_even = ground arith;
  size_min = omega arith;
  in_image = ground arith;
  dst_at = omega arith;
  on_screen = ground arith;
}

axis_of_two : (src dst size : ℕ) → ltb_ℤ (axis_of src dst size).size (pos 2) ≡ false → 2 ≤ size
axis_of_two src dst size h = ground arith

-- The second half, from a rectangle that is clipped to the screen.
aligned-axis_of-Fits :
    (image screen src dst size : ℕ)
    → 0 < size
    → src + size ≤ image
    → dst + size ≤ screen
    → (src ≡ 0) ⊎ (dst ≡ 0)
    → screen % 2 ≡ 0
    → ltb_ℤ (aligned (pos image) (pos screen) (axis_of src dst size)).size (pos 2) ≡ false
    → Fits image screen (aligned (pos image) (pos screen) (axis_of src dst size))
aligned-axis_of-Fits image screen src dst size p i s low even two =
    let e = aligned-axis_of image screen src dst size (omega arith) in
    let (even_size, in_image, on_screen) = evened_bounds image screen src dst size p i s low even in
    rw e (
      Fits-axis_of image screen (src - src % 2) dst _ (omega arith) even_size
        (axis_of_two (src - src % 2) dst _ (rw e at two)) in_image on_screen)

pub aligned-Fits :
    (image screen : ℕ) (a : Axis)
    → Clipped screen a
    → screen % 2 ≡ 0
    → ltb_ℤ (clip_image (pos image) a).size (pos 1) ≡ false
    → ltb_ℤ (aligned (pos image) (pos screen) (clip_image (pos image) a)).size (pos 2) ≡ false
    → Fits image screen (aligned (pos image) (pos screen) (clip_image (pos image) a))
aligned-Fits image screen a c even h two =
    let h' : ltb_ℤ (clip_image (pos image) (axis_of c.src c.dst c.size)).size (pos 1) ≡ false =
      rw c.same at h in
    let lt = clip_image_size image c.src c.dst c.size h' in
    let e : clip_image (pos image) a ≡ axis_of c.src c.dst (min c.size (image - c.src)) =
      ap (clip_image (pos image)) c.same
      ∙ clip_image-axis_of image c.src c.dst c.size (omega arith) in
    rw e (
      aligned-axis_of-Fits image screen c.src c.dst (min c.size (image - c.src)) (omega arith)
        (omega arith) (omega arith) c.low even (rw e at two))
