-- ===== src/Import/Source.antt =====
-- `ensure_src_import`, `release_src_import` and their counterparts for the cursor.
use remy_desk.Base.{
  ℕ, ◌*◌, ◌/◌, Bool, true, false, ◌&&◌, ◌||◌, ◌==◌, Option, none, some, List, [], ◌∷◌, ◌++◌,
  if◌then◌else◌,
}
use remy_desk.Base.Int.{ℤ}
use remy_desk.Cursor.{int_of_u32}
use remy_desk.Import.{
  CaptureFb, fd, mapping, Action, took, gave, wrap_rga_dma_fd, release_rga_handle, give_fd,
  give_map,
}
use remy_desk.Import.Formats.{FormatCodes, rga_format_for_drm, bytes_per_pixel_for_drm}

-- `struct src_import`: `fb` holds its fields fb_id to modifier, and handle_id.
pub record SrcImport : Type 0 where
  pub fb : CaptureFb
  pub dma_fd : Option ℕ
  pub map : Option ℕ
  pub map_size : ℕ
  pub rga_format : ℕ
  pub wstride : ℤ
  pub rga_handle : ℕ

abbrev pub no_fb : CaptureFb
no_fb = record { fb_id = 0; width = 0; height = 0; fourcc = 0; pitch = 0; modifier = 0; handle = 0 }

abbrev pub no_import : SrcImport
no_import = record {
  fb = no_fb;
  dma_fd = none;
  map = none;
  map_size = 0;
  rga_format = 0;
  wstride = int_of_u32 0;
  rga_handle = 0;
}

-- The build, the codes, and the answers of drmPrimeHandleToFD, importbuffer_fd and mmap.
pub record ImportCalls : Type 0 where
  pub handle_api : Bool
  pub codes : FormatCodes
  pub exported : Option ℕ
  pub imported : ℕ
  pub mapped_at : Option ℕ

unfoldable pub release_src_import : Bool → SrcImport → SrcImport × List Action
release_src_import handle_api src = (
  no_import,
  release_rga_handle handle_api src.rga_handle ++ give_map src.map ++ give_fd src.dma_fd,
)

abbrev pub is_some : {A : Type 0} → Option A → Bool
is_some none = false
is_some (some a) = true

-- src->dma_fd >= 0 && src->fb_id == cap->fb_id && ...
unfoldable pub is_current : SrcImport → CaptureFb → Bool
is_current src fb =
    is_some src.dma_fd
    && src.fb.fb_id == fb.fb_id
    && src.fb.handle == fb.handle
    && src.fb.width == fb.width
    && src.fb.height == fb.height
    && src.fb.fourcc == fb.fourcc
    && src.fb.pitch == fb.pitch
    && src.fb.modifier == fb.modifier

-- The mapping for the copy by the CPU, of an import that is complete but for it.
unfoldable pub map_source : ImportCalls → CaptureFb → SrcImport → Bool × SrcImport × List Action
unfolding release_src_import
map_source c fb src = elim c.mapped_at [
  | none ↦ let (empty, given) = release_src_import c.handle_api src in (false, empty, given)
  | some a ↦
      (true, record src { map = some a; map_size = fb.pitch * fb.height }, took (mapping a) ∷ [])
]

-- The import of a framebuffer whose descriptor is exported.
unfoldable pub import_exported :
    ImportCalls → Bool → Bool → CaptureFb → ℕ → Bool × SrcImport × List Action
unfolding map_source
import_exported c cpu_stage xrgb_as_alpha fb dma_fd =
    elim (wrap_rga_dma_fd c.handle_api c.imported dma_fd) [
      | none ↦ (false, no_import, took (fd dma_fd) ∷ gave (fd dma_fd) ∷ [])
      | some (handle, taken) ↦
          let src : SrcImport = record {
            fb = fb;
            dma_fd = some dma_fd;
            map = none;
            map_size = 0;
            rga_format = rga_format_for_drm c.codes fb.fourcc xrgb_as_alpha;
            wstride = int_of_u32 (fb.pitch / bytes_per_pixel_for_drm c.codes fb.fourcc);
            rga_handle = handle;
          } in
          let (ok, src', more) = map_source c fb src in
          if cpu_stage
          then (ok, src', took (fd dma_fd) ∷ taken ++ more)
          else (true, src, took (fd dma_fd) ∷ taken)
    ]

-- Whether it returns 0, the import, and what was taken and given back.
unfoldable pub ensure_src_import :
    ImportCalls → Bool → Bool → SrcImport → CaptureFb → Bool × SrcImport × List Action
unfolding release_src_import import_exported
ensure_src_import c cpu_stage xrgb_as_alpha src fb =
    let (empty, given) = release_src_import c.handle_api src in
    if is_current src fb
    then (true, src, [])
    else if rga_format_for_drm c.codes fb.fourcc xrgb_as_alpha == 0
        || bytes_per_pixel_for_drm c.codes fb.fourcc == 0
    then (false, empty, given)
    else elim c.exported [
      | none ↦ (false, empty, given)
      | some dma_fd ↦
          let (ok, src', l) = import_exported c cpu_stage xrgb_as_alpha fb dma_fd in
          (ok, src', given ++ l)
    ]

-- The cursor: an import with no modifier, which is 0 here, and no mapping; it is dropped where there
-- is no cursor. Otherwise the body is that of `ensure_src_import`.
unfoldable pub ensure_cursor_import :
    ImportCalls → Bool → SrcImport → CaptureFb → Bool × SrcImport × List Action
unfolding release_src_import ensure_src_import
ensure_cursor_import c active cursor state =
    let (empty, given) = release_src_import c.handle_api cursor in
    let kept = ensure_src_import c false false cursor (record state { modifier = 0 }) in
    if active then kept else (true, empty, given)
