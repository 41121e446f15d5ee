-- ===== src/Session/Round.antt =====
-- A round of the capture loop of `main`, from the request for a bitrate to the next deadline.
use remy_desk.Base.{
  ℕ, suc, ◌%◌, ◌∷◌, Bool, true, false, not, ◌&&◌, ◌||◌, ◌==◌, Option, none, some, List, [], ◌++◌,
  if◌then◌else◌, get_elem?,
}
use remy_desk.Base.Int.{pos, pos_part, ltb_ℤ}
use remy_desk.Base.Bytes.{Memory}
use remy_desk.Ring.{Ring}
use remy_desk.Ring.Bitrate.{adapt_bitrate}
use remy_desk.Import.{CaptureFb, Action}
use remy_desk.Import.Formats.{bytes_per_pixel_for_drm}
use remy_desk.Import.Source.{ImportCalls, ensure_src_import, ensure_cursor_import}
use remy_desk.Import.EncodeBuffers.{EncodeBuffer}
use remy_desk.Display.{DrmCalls, get_crtc_capture_fb}
use remy_desk.Display.Planes.{Plane, PlaneCalls, find_cursor_plane}
use remy_desk.Stage.{copy_fb_to_rgb_stage}
use remy_desk.Convert.{Attempt, rga_convert_frame}
use remy_desk.Encode.{MppCalls, encode_one_frame}
use remy_desk.Writer.{Traffic, Link, stream_writer_write}
use remy_desk.Options.Command.{StreamOptions}
use remy_desk.Pacing.{Timespec, frame, activity, after_event, interval, next_deadline}
use remy_desk.Session.{Env, Session, in_build}
use remy_desk.Session.Setup.{needs_stage}

-- What a round meets: the bitrate that the consumer has asked for since, the signals, the answers of
-- the libraries, and the bytes on the screen. `solid` is REMYDESK_TEST_SOLID_NV12, `solid_mapped`
-- whether its buffer is mapped; `stopped` is `stop_requested` behind the encoder, whether a signal has
-- set it or `write_all` on EPIPE.
pub record Meets : Type 0 where
  pub asked : Option ℕ
  pub update_fails : Bool
  pub has_activity : Bool
  pub drm : DrmCalls
  pub source : ImportCalls
  pub solid : Bool
  pub solid_mapped : Bool
  pub screen : Memory
  pub copy_succeeds : Bool
  pub plane_calls : PlaneCalls
  pub planes : Option (List (Option Plane))
  pub pointer : ImportCalls
  pub cores : List ℕ
  pub converts : Attempt → Bool
  pub mpp : MppCalls
  pub stopped : Bool
  pub now : Timespec

-- A part of a round: whether it goes on, the session, and what was taken and given back.
abbrev pub Step : Type 0
Step = Bool × Session × List Action

-- The next part, unless the round has failed.
unfoldable pub and_then : Step → (Session → Step) → Step
and_then (ok, s, l) next =
    let (ok', s', more) = next s in if ok then (ok', s', l ++ more) else (false, s, l)

unfoldable pub same_mode : CaptureFb → CaptureFb → Bool
same_mode cur cap = not (
    not (cur.width == cap.width)
    || not (cur.height == cap.height)
    || not (cur.fourcc == cap.fourcc))

unfoldable pub capture : Env → StreamOptions → Meets → Session → Step
unfolding same_mode
capture e o m s =
    let (found, try_fb2) = get_crtc_capture_fb m.drm s.try_fb2 s.crtc_id in
    let s' = record s { try_fb2 = try_fb2 } in
    elim found [
      | none ↦ (false, s', [])
      | some cur ↦
          let (ok, src, l) =
            ensure_src_import (in_build e m.source) o.cpu_stage_on o.alpha_on s.src cur.fb in
          if same_mode cur.fb s.cap then (ok, record s' { src = src }, l) else (false, s', [])
    ]

-- The bytes of the stage behind the copy by the CPU. The fields of the mapped source are those that
-- `copy_fb_to_rgb_stage` reads.
unfoldable pub copy_stage : Env → Meets → Session → Option Memory
copy_stage e m s =
    copy_fb_to_rgb_stage (record { bgrx = e.codes.rk_bgrx_8888; bgra = e.codes.rk_bgra_8888 })
      (record {
        map = elim s.src.map [ none ↦ none | some a ↦ some m.screen ];
        pitch = s.src.fb.pitch;
        rga_format = s.src.rga_format;
      })
      (record {
        map = elim s.rgb_stage.map [ none ↦ none | some a ↦ some s.stage_bytes ];
        pitch = s.rgb_stage.pitch;
        rga_format = s.rgb_stage.rga_format;
      })
      s.cap.width s.cap.height (bytes_per_pixel_for_drm e.codes s.cap.fourcc)

-- The screen goes to the RGB stage, by the CPU or by imcopy. What imcopy writes is librga's.
unfoldable pub fill_stage : Env → StreamOptions → Meets → Session → Step
fill_stage e o m s =
    if o.cpu_stage_on
    then elim (copy_stage e m s) [
      | none ↦ (false, s, [])
      | some bytes ↦ (true, record s { stage_bytes = bytes }, [])
    ]
    else (m.copy_succeeds, s, [])

unfoldable pub draw_cursor : Env → StreamOptions → Meets → Session → Step
draw_cursor e o m s =
    if not o.cursor_enabled
    then (true, s, [])
    else elim (find_cursor_plane m.plane_calls s.crtc_id s.try_fb2 m.planes) [
      | none ↦ (false, s, [])
      | some (p, try_fb2) ↦
          let (ok, cursor, l) =
            ensure_cursor_import (in_build e m.pointer) p.state.active s.cursor p.fb in
          (ok, record s { try_fb2 = try_fb2; cursor = cursor }, l)
    ]

-- From the stage where there is one, else from the screen.
unfoldable pub convert : Env → StreamOptions → Meets → Session → Step
convert e o m s = (
  (rga_convert_frame e.handle_api m.cores m.converts (record {
    src_width = s.cap.width;
    src_height = s.cap.height;
    dst_width = s.out_width;
    dst_height = s.out_height;
    src_format = if needs_stage o then s.rgb_stage.rga_format else s.src.rga_format;
    dst_format = o.dst_rga_format;
  })).0,
  s,
  [],
)

-- What fills the input buffer.
unfoldable pub draw : Env → StreamOptions → Meets → Session → Step
unfolding and_then fill_stage draw_cursor convert
draw e o m s =
    if m.solid
    then (m.solid_mapped, s, [])
    else if needs_stage o
    then and_then (and_then (fill_stage e o m s) (draw_cursor e o m)) (convert e o m)
    else convert e o m s

-- `enc_buffers[frame_index % buffer_count]`
unfoldable pub input_buffer : StreamOptions → Session → Option EncodeBuffer
input_buffer o s = get_elem? s.buffers (s.frame_index % pos_part o.buffers)

-- max_frames > 0 && frame_index >= max_frames
unfoldable pub is_last : StreamOptions → ℕ → Bool
is_last o frames = ltb_ℤ (pos 0) o.frame_limit && not (ltb_ℤ (pos frames) o.frame_limit)

-- What a round leaves: whether another follows, the exit code otherwise, the session and the writer,
-- what was taken and given back, and the buffer that went to the encoder, if it was called.
pub record Turn : Type 0 where
  pub goes_on : Bool
  pub exit_code : ℕ
  pub session : Session
  pub link : Link
  pub actions : List Action
  pub submitted : List (Option EncodeBuffer)

abbrev turn : Bool → ℕ → Session → Link → List Action → List (Option EncodeBuffer) → Turn
turn goes_on exit_code s link l b = record {
  goes_on = goes_on;
  exit_code = exit_code;
  session = s;
  link = link;
  actions = l;
  submitted = b;
}

abbrev pub ask : Option ℕ → Option Ring → Option Ring
ask none ring = ring
ask (some bitrate) none = none
ask (some bitrate) (some r) = some (record r { requested_bitrate = bitrate })

-- The bitrate and the signal of input, at the head of a round.
unfoldable pub begin_round : Env → Meets → Session → Link → Session × Link
begin_round e m s link =
    let (ring, applied, _) =
      adapt_bitrate m.update_fails (ask m.asked link.writer.ring) s.applied_bitrate in
    (
      record s {
        applied_bitrate = applied;
        pace = if m.has_activity then after_event e.rates activity s.pace else s.pace;
      },
      record link { writer = record link.writer { ring = ring } },
    )

-- The part behind a frame that is encoded, of so many bytes.
unfoldable pub end_round : Env → Meets → ℕ → Session → Session
end_round e m size s =
    let pace = after_event e.rates (frame size m.now) s.pace in
    record s { pace = pace; next_frame = next_deadline s.next_frame (interval e.rates pace) m.now }

unfoldable pub run_round : (ℕ → Traffic) → Env → StreamOptions → Meets → Session → Link → Turn
unfolding begin_round capture draw input_buffer is_last end_round and_then
run_round traffic e o m s link =
    let (s1, link1) = begin_round e m s link in
    let (ok, s2, l) = and_then (capture e o m s1) (draw e o m) in
    let out = encode_one_frame (stream_writer_write traffic) m.mpp link1 in
    let used = input_buffer o s2 ∷ [] in
    let s3 = record s2 { frame_index = suc s2.frame_index } in
    if not ok
    then turn false 1 s2 link1 l []
    else if not out.returns_zero
    then turn false (if m.stopped then 0 else 1) s2 out.state l used
    else if is_last o s3.frame_index
    then turn false 0 s3 out.state l used
    else turn true 0 (end_round e m out.encoded_size s3) out.state l used
