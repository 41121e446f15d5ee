-- ===== src/Import/Staging.antt =====
-- The staging buffer: `create_dumb_rgb_buffer` and `release_dumb_rgb_buffer`.
use remy_desk.Base.{
  ℕ, ◌/◌, Bool, true, false, ◌==◌, Option, none, some, List, [], ◌∷◌, ◌++◌, if◌then◌else◌,
}
use remy_desk.Base.Int.{ℤ}
use remy_desk.Cursor.{int_of_u32}
use remy_desk.Import.{
  fd, mapping, dumb_buffer, Action, took, gave, wrap_rga_dma_fd, release_rga_handle, give_fd,
  give_map,
}

-- `struct dumb_rgb_buffer`
pub record DumbRgbBuffer : Type 0 where
  pub handle_id : ℕ
  pub width : ℕ
  pub height : ℕ
  pub pitch : ℕ
  pub size : ℕ
  pub dma_fd : Option ℕ
  pub map : Option ℕ
  pub rga_format : ℕ
  pub wstride : ℤ
  pub rga_handle : ℕ

abbrev pub no_buffer : DumbRgbBuffer
no_buffer = record {
  handle_id = 0;
  width = 0;
  height = 0;
  pitch = 0;
  size = 0;
  dma_fd = none;
  map = none;
  rga_format = 0;
  wstride = int_of_u32 0;
  rga_handle = 0;
}

-- What DRM_IOCTL_MODE_CREATE_DUMB answers.
pub record Created : Type 0 where
  pub handle : ℕ
  pub pitch : ℕ
  pub size : ℕ

-- The build, and the answers of CREATE_DUMB, drmPrimeHandleToFD, importbuffer_fd, MAP_DUMB and mmap.
pub record DumbCalls : Type 0 where
  pub handle_api : Bool
  pub created : Option Created
  pub exported : Option ℕ
  pub imported : ℕ
  pub map_dumb_fails : Bool
  pub mapped_at : Option ℕ

-- if (buf->handle_id) { ... DRM_IOCTL_MODE_DESTROY_DUMB ... }
unfoldable pub give_dumb : ℕ → List Action
give_dumb handle = if handle == 0 then [] else gave (dumb_buffer handle) ∷ []

unfoldable pub release_dumb_rgb_buffer : Bool → DumbRgbBuffer → DumbRgbBuffer × List Action
release_dumb_rgb_buffer handle_api buf = (
  no_buffer,
  release_rga_handle handle_api buf.rga_handle
      ++ give_map buf.map
      ++ give_fd buf.dma_fd
      ++ give_dumb buf.handle_id,
)

-- The steps behind the export: import, MAP_DUMB and mmap.
unfoldable pub import_dumb :
    DumbCalls → ℕ → ℕ → ℕ → ℕ → Created → ℕ → Bool × DumbRgbBuffer × List Action
import_dumb c width height rga_format bytes_per_pixel made dma_fd =
    let drop = gave (fd dma_fd) ∷ gave (dumb_buffer made.handle) ∷ [] in
    elim (wrap_rga_dma_fd c.handle_api c.imported dma_fd) [
      | none ↦ (false, no_buffer, drop)
      | some (handle, taken) ↦
          let undo = taken ++ release_rga_handle c.handle_api handle ++ drop in
          if c.map_dumb_fails then (false, no_buffer, undo) else elim c.mapped_at [
            | none ↦ (false, no_buffer, undo)
            | some a ↦ (
              true,
              record {
                handle_id = made.handle;
                width = width;
                height = height;
                pitch = made.pitch;
                size = made.size;
                dma_fd = some dma_fd;
                map = some a;
                rga_format = rga_format;
                wstride = int_of_u32 (made.pitch / bytes_per_pixel);
                rga_handle = handle;
              },
              taken ++ took (mapping a) ∷ [],
            )
          ]
    ]

-- Whether it returns 0, the buffer, and what was taken and given back.
unfoldable pub create_dumb_rgb_buffer :
    DumbCalls → ℕ → ℕ → ℕ → ℕ → Bool × DumbRgbBuffer × List Action
unfolding import_dumb
create_dumb_rgb_buffer c width height rga_format bytes_per_pixel = elim c.created [
  | none ↦ (false, no_buffer, [])
  | some made ↦ elim c.exported [
    | none ↦
        (false, no_buffer, took (dumb_buffer made.handle) ∷ gave (dumb_buffer made.handle) ∷ [])
    | some dma_fd ↦
        let (ok, buf, l) = import_dumb c width height rga_format bytes_per_pixel made dma_fd in
        (ok, buf, took (dumb_buffer made.handle) ∷ took (fd dma_fd) ∷ l)
  ]
]
