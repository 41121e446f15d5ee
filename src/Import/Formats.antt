-- ===== src/Import/Formats.antt =====
-- The pixel formats: `rga_format_for_drm`, `bytes_per_pixel_for_drm`, `legacy_fourcc_for_fb`.
use remy_desk.Base.{ℕ, Bool, ◌&&◌, ◌||◌, ◌==◌, if◌then◌else◌}

-- The codes of drm_fourcc.h and of librga's rga.h.
pub record FormatCodes : Type 0 where
  pub xrgb8888 : ℕ
  pub argb8888 : ℕ
  pub abgr8888 : ℕ
  pub xbgr8888 : ℕ
  pub rgb888 : ℕ
  pub bgr888 : ℕ
  pub rk_bgra_8888 : ℕ
  pub rk_bgrx_8888 : ℕ
  pub rk_rgba_8888 : ℕ
  pub rk_rgbx_8888 : ℕ
  pub rk_rgb_888 : ℕ
  pub rk_bgr_888 : ℕ

unfoldable pub rga_format_for_drm : FormatCodes → ℕ → Bool → ℕ
rga_format_for_drm c fourcc xrgb_as_alpha =
    if fourcc == c.xrgb8888
    then (if xrgb_as_alpha then c.rk_bgra_8888 else c.rk_bgrx_8888)
    else if fourcc == c.argb8888
    then c.rk_bgra_8888
    else if fourcc == c.abgr8888
    then c.rk_rgba_8888
    else if fourcc == c.xbgr8888
    then (if xrgb_as_alpha then c.rk_rgba_8888 else c.rk_rgbx_8888)
    else if fourcc == c.rgb888
    then c.rk_rgb_888
    else if fourcc == c.bgr888
    then c.rk_bgr_888
    else 0

unfoldable pub bytes_per_pixel_for_drm : FormatCodes → ℕ → ℕ
bytes_per_pixel_for_drm c fourcc =
    if fourcc == c.xrgb8888 || fourcc == c.argb8888 || fourcc == c.abgr8888 || fourcc == c.xbgr8888
    then 4
    else if fourcc == c.rgb888 || fourcc == c.bgr888
    then 3
    else 0

-- From the bpp and the depth of a framebuffer.
unfoldable pub legacy_fourcc_for_fb : FormatCodes → ℕ → ℕ → ℕ
legacy_fourcc_for_fb c bpp depth =
    if bpp == 32 && depth == 32
    then c.argb8888
    else if bpp == 32
    then c.xrgb8888
    else if bpp == 24
    then c.rgb888
    else 0
