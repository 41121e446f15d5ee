-- ===== src/Session.antt =====
-- `main` of native/desktop-streamer/drm_rga_mpp_stream.c behind the options and
-- `stream_writer_init`: the set-up (Session/Setup), a round of the capture loop (Session/Round), the
-- loop and the teardown (Session/Run). What libdrm, librga, MPP and the clock answer is an argument,
-- round by round. Messages are left out, and so is what has no effect on the state here: the wait
-- for the vblank, whose failure is only reported, the blend of the cursor, which always returns 0
-- (its rectangles are in Cursor.antt), the opt-in DMA_BUF_IOCTL_SYNC and the time stamps of frames.
pub mod Setup
pub mod Round
pub mod Run
pub mod Held
pub mod Accounts
pub mod Balance
pub mod Whole
pub mod Same
pub mod Limits
pub mod Ready
pub mod Frames
pub mod Mode
pub mod Progress
pub mod Descriptors
mod Tests
use remy_desk.Base.{ℕ, Bool, List}
use remy_desk.Base.Int.{ℤ, pos}
use remy_desk.Base.Bytes.{Memory}
use remy_desk.Import.{CaptureFb}
use remy_desk.Import.Formats.{FormatCodes}
use remy_desk.Import.Source.{SrcImport, ImportCalls}
use remy_desk.Import.Staging.{DumbRgbBuffer}
use remy_desk.Import.EncodeBuffers.{EncodeBuffer}
use remy_desk.Pacing.{Rates, Pace, Timespec}

-- What is fixed for a run: the build, librga's codes, and the rates from the environment.
pub record Env : Type 0 where
  pub handle_api : Bool
  pub codes : FormatCodes
  pub rates : Rates

-- The local variables of `main`, with the bytes of the staging buffer and the variable `try_fb2` of
-- `get_capture_fb`. Pointers of MPP, and of the array of input buffers, are numbers.
pub record Session : Type 0 where
  pub card : ℕ
  pub cap : CaptureFb
  pub crtc_id : ℕ
  pub crtc_index : ℤ
  pub wait_vblank : Bool
  pub out_width : ℕ
  pub out_height : ℕ
  pub context : ℕ
  pub group : ℕ
  pub array : ℕ
  pub buffers : List EncodeBuffer
  pub packet_group : ℕ
  pub packet_buffer : ℕ
  pub rgb_stage : DumbRgbBuffer
  pub stage_bytes : Memory
  pub src : SrcImport
  pub cursor : SrcImport
  pub try_fb2 : Bool
  pub frame_index : ℕ
  pub applied_bitrate : ℕ
  pub pace : Pace
  pub next_frame : Timespec

-- The calls of an import, in the build of the run.
abbrev pub in_build : Env → ImportCalls → ImportCalls
in_build e c = record c { handle_api = e.handle_api; codes = e.codes }
