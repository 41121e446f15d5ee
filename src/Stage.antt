-- ===== src/Stage.antt =====
-- `copy_fb_to_rgb_stage` of native/desktop-streamer/drm_rga_mpp_stream.c: the copy of the scanned-out
-- framebuffer into the staging buffer, row by row, over byte-addressed memory. The RGA formats are
-- librga's numbers; the two that the function compares with are arguments.
pub mod Rows
pub mod Pixels
mod Tests
use remy_desk.Base.{
  ℕ, zero, suc, ◌+◌, ◌*◌, Bool, true, false, ◌&&◌, ◌||◌, not, Option, none, some, ltb, ◌==◌,
  if◌then◌else◌, List, [], ◌∷◌,
}
use remy_desk.Base.Bytes.{Memory, write_bytes, read_bytes}

-- A mapped buffer: its pitch, its format, and its bytes if it is mapped.
pub record Buffer : Type 0 where
  pub map : Option Memory
  pub pitch : ℕ
  pub rga_format : ℕ

-- RK_FORMAT_BGRX_8888 and RK_FORMAT_BGRA_8888
pub record Formats : Type 0 where
  pub bgrx : ℕ
  pub bgra : ℕ

-- for (x ...; x < x + rounds; x++) dst_row[x * 4 + 3] = 0xff;
unfoldable pub make_opaque : ℕ → ℕ → ℕ → Memory → Memory
make_opaque zero x row m = m
make_opaque (suc rounds) x row m =
    make_opaque rounds (x + 1) row (write_bytes m (row + (x * 4 + 3)) (0xff ∷ []))

-- One row: from `src_row` to `dst_row`.
unfoldable pub copy_row : Bool → ℕ → ℕ → Memory → ℕ → ℕ → Memory → Memory
copy_row opaque width row_bytes src src_row dst_row m =
    let copied = write_bytes m dst_row (read_bytes src src_row row_bytes) in
    if opaque then make_opaque width 0 dst_row copied else copied

-- The rows that are left, from the addresses `src_row` and `dst_row` on.
unfoldable pub copy_rows : Bool → ℕ → ℕ → ℕ → ℕ → Memory → ℕ → ℕ → ℕ → Memory → Memory
copy_rows opaque width row_bytes src_pitch dst_pitch src zero src_row dst_row m = m
copy_rows opaque width row_bytes src_pitch dst_pitch src (suc rows) src_row dst_row m =
    copy_rows opaque width row_bytes src_pitch dst_pitch src rows (src_row + src_pitch)
      (dst_row + dst_pitch) (copy_row opaque width row_bytes src src_row dst_row m)

unfoldable pub needs_alpha : Formats → Buffer → Buffer → ℕ → Bool
needs_alpha f src stage bytes_per_pixel =
    src.rga_format == f.bgrx && stage.rga_format == f.bgra && bytes_per_pixel == 4

-- `none` is -1; `some` the bytes of the stage behind a return of 0.
unfoldable pub copy_fb_to_rgb_stage : Formats → Buffer → Buffer → ℕ → ℕ → ℕ → Option Memory
copy_fb_to_rgb_stage f src stage width height bytes_per_pixel = elim src.map [
  | none ↦ none
  | some from ↦ elim stage.map [
    | none ↦ none
    | some to ↦
        let row_bytes = width * bytes_per_pixel in
        if ltb src.pitch row_bytes || ltb stage.pitch row_bytes
        then none
        else some (
            copy_rows (needs_alpha f src stage bytes_per_pixel) width row_bytes src.pitch
              stage.pitch from height 0 0 to)
  ]
]
