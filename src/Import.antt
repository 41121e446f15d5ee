-- ===== src/Import.antt =====
-- The imports of framebuffers into librga, of native/desktop-streamer/drm_rga_mpp_stream.c: the
-- scanned-out buffer, the cursor image and the staging buffer, with the descriptors, handles,
-- mappings and kernel buffers that each holds. What the kernel and librga answer is an argument, as
-- are the format codes of their headers. A descriptor from a successful export is a number; `none`
-- stands for -1, and for a null or failed mapping. `rga_buffer_t`, which librga fills, is left out.
pub mod Source
pub mod Staging
pub mod Formats
pub mod Balance
pub mod Current
pub mod Capture
pub mod EncodeBuffers
mod Tests
use remy_desk.Base.{
  ℕ, ◌+◌, Bool, true, false, ◌==◌, Option, none, some, List, [], ◌∷◌, ◌++◌, if◌then◌else◌,
}

-- `struct capture_fb` without its CRTC.
pub record CaptureFb : Type 0 where
  pub fb_id : ℕ
  pub width : ℕ
  pub height : ℕ
  pub fourcc : ℕ
  pub pitch : ℕ
  pub modifier : ℕ
  pub handle : ℕ

pub data Resource : Type 0 where
  fd rga_handle mapping dumb_buffer mpp_buffer mpp_context buffer_group allocation : ℕ → Resource

pub data Action : Type 0 where
  took gave : Resource → Action

-- `handle_api` is REMYDESK_RGA_HANDLE_API. Without it a handle is the descriptor plus one and
-- belongs to nobody. `imported` is the answer of importbuffer_fd.
unfoldable pub wrap_rga_dma_fd : Bool → ℕ → ℕ → Option (ℕ × List Action)
wrap_rga_dma_fd handle_api imported dma_fd =
    if handle_api
    then if imported == 0 then none else some (imported, took (rga_handle imported) ∷ [])
    else some (dma_fd + 1, [])

unfoldable pub release_rga_handle : Bool → ℕ → List Action
release_rga_handle handle_api handle =
    if handle_api then if handle == 0 then [] else gave (rga_handle handle) ∷ [] else []

unfoldable pub give_fd : Option ℕ → List Action
give_fd none = []
give_fd (some n) = gave (fd n) ∷ []

unfoldable pub give_map : Option ℕ → List Action
give_map none = []
give_map (some a) = gave (mapping a) ∷ []
