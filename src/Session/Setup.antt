-- ===== src/Session/Setup.antt =====
-- The set-up of `main`, from the open of the card to the loop, with what every early return gives
-- back.
use remy_desk.Base.{
  ℕ, zero, suc, Bool, true, not, ◌&&◌, ◌||◌, ◌==◌, Option, none, some, List, [], ◌∷◌, ◌++◌,
  if◌then◌else◌,
}
use remy_desk.Base.Int.{pos, pos_part, ltb_ℤ}
use remy_desk.Import.{fd, mpp_buffer, mpp_context, buffer_group, allocation, Action, took, gave}
use remy_desk.Import.Formats.{rga_format_for_drm, bytes_per_pixel_for_drm}
use remy_desk.Import.Source.{no_import}
use remy_desk.Import.Staging.{no_buffer, DumbCalls, create_dumb_rgb_buffer}
use remy_desk.Import.EncodeBuffers.{BufferCalls, init_encode_buffers, release_encode_buffers}
use remy_desk.Display.{DrmCalls, Display, find_connected_display_fb, crtc_index_for_id}
use remy_desk.Encoder.{EncoderCodes, ConfigCalls, configure_encoder}
use remy_desk.Options.Command.{StreamOptions}
use remy_desk.Options.Accepted.{encoder_options}
use remy_desk.Pacing.{Timespec, start_pace}
use remy_desk.Session.{Env, Session}

-- What is answered to the calls of the set-up. `none` is an error, or a null pointer; `now` is the
-- time at its end.
pub record SetupCalls : Type 0 where
  pub card_fd : Option ℕ
  pub drm : DrmCalls
  pub crtcs : Option (List ℕ)
  pub create_context : Option ℕ
  pub timeout_fails : Bool
  pub init_fails : Bool
  pub encoder_codes : EncoderCodes
  pub config : ConfigCalls
  pub get_group : Option ℕ
  pub get_array : Option ℕ
  pub buffer : ℕ → BufferCalls
  pub get_packet_group : Option ℕ
  pub get_packet_buffer : Option ℕ
  pub dumb : DumbCalls
  pub now : Timespec

abbrev pub dumb_calls : Env → SetupCalls → DumbCalls
dumb_calls e c = record c.dumb { handle_api = e.handle_api }

-- The answers for so many buffers, the first being number `i`.
unfoldable pub answers_from : ℕ → ℕ → (ℕ → BufferCalls) → List BufferCalls
answers_from zero i answer = []
answers_from (suc n) i answer = answer i ∷ answers_from n (suc i) answer

-- if (cursor_enabled || cpu_stage)
abbrev pub needs_stage : StreamOptions → Bool
needs_stage o = o.cursor_enabled || o.cpu_stage_on

unfoldable pub stage_format : Env → StreamOptions → ℕ → ℕ
stage_format e o fourcc =
    let format = rga_format_for_drm e.codes fourcc o.alpha_on in
    if o.cpu_stage_on && format == e.codes.rk_bgrx_8888 then e.codes.rk_bgra_8888 else format

-- What a return gives back behind mpp_create, and behind the set-up of the input buffers.
abbrev pub destroy_context : Session → List Action
destroy_context s = gave (mpp_context s.context) ∷ gave (fd s.card) ∷ []

abbrev pub drop_buffers : Env → Session → List Action
drop_buffers e s =
    release_encode_buffers e.handle_api s.buffers
    ++ gave (allocation s.array) ∷ gave (buffer_group s.group) ∷ destroy_context s

-- The RGB stage.
unfoldable pub set_up_stage :
    Env → SetupCalls → StreamOptions → Session → Option Session × List Action
unfolding stage_format
set_up_stage e c o s =
    let format = rga_format_for_drm e.codes s.cap.fourcc o.alpha_on in
    let bytes_per_pixel = bytes_per_pixel_for_drm e.codes s.cap.fourcc in
    let (ok, buf, l) =
      create_dumb_rgb_buffer (dumb_calls e c) s.cap.width s.cap.height
        (stage_format e o s.cap.fourcc) bytes_per_pixel in
    if not (needs_stage o)
    then (some s, [])
    else if format == 0 || bytes_per_pixel == 0
    then (none, drop_buffers e s)
    else if ok
    then (some (record s { rgb_stage = buf }), l)
    else (none, l ++ drop_buffers e s)

-- The packet buffer and its group.
unfoldable pub set_up_packets :
    Env → SetupCalls → StreamOptions → Session → Option Session × List Action
unfolding set_up_stage
set_up_packets e c o s = elim c.get_packet_group [
  | none ↦ (none, drop_buffers e s)
  | some g ↦ elim c.get_packet_buffer [
    | none ↦ (none, took (buffer_group g) ∷ gave (buffer_group g) ∷ drop_buffers e s)
    | some p ↦
        let (r, l) = set_up_stage e c o (record s { packet_group = g; packet_buffer = p }) in
        (r, took (buffer_group g) ∷ took (mpp_buffer p) ∷ l)
  ]
]

-- The input buffers, their array and their group.
unfoldable pub set_up_buffers :
    Env → SetupCalls → StreamOptions → Session → Option Session × List Action
unfolding set_up_packets answers_from
set_up_buffers e c o s = elim c.get_group [
  | none ↦ (none, destroy_context s)
  | some g ↦ elim c.get_array [
    | none ↦ (none, took (buffer_group g) ∷ gave (buffer_group g) ∷ destroy_context s)
    | some a ↦
        let (ok, bs, l) =
          init_encode_buffers e.handle_api (answers_from (pos_part o.buffers) 0 c.buffer) in
        let s' = record s { group = g; array = a; buffers = bs } in
        let (r, more) = set_up_packets e c o s' in
        (
          if ok then r else none,
          took (buffer_group g) ∷ took (allocation a) ∷ l
              ++ (if ok then more else drop_buffers e s'),
        )
  ]
]

-- The context of MPP, and the encoder's settings.
unfoldable pub set_up_encoder :
    Env → SetupCalls → StreamOptions → Session → Option Session × List Action
unfolding set_up_buffers
set_up_encoder e c o s = elim c.create_context [
  | none ↦ (none, gave (fd s.card) ∷ [])
  | some m ↦
      let s' = record s { context = m } in
      let set =
        configure_encoder c.encoder_codes c.config (encoder_options o s.cap.width s.cap.height) in
      let (r, l) = set_up_buffers e c o s' in
      let failed = c.timeout_fails || c.init_fails || not set.returns_zero in
      (
        if failed then none else r,
        took (mpp_context m) ∷ (if failed then destroy_context s' else l),
      )
]

-- The session with its display and nothing else.
unfoldable pub with_display : SetupCalls → StreamOptions → ℕ → Display → Bool → Session
with_display c o card d try_fb2 =
    let index = crtc_index_for_id c.crtcs d.crtc_id in
    record {
      card = card;
      cap = d.fb;
      crtc_id = d.crtc_id;
      crtc_index = index;
      wait_vblank = o.vblank_on && not (ltb_ℤ index (pos 0));
      out_width = if o.width == 0 then d.fb.width else o.width;
      out_height = if o.height == 0 then d.fb.height else o.height;
      context = 0;
      group = 0;
      array = 0;
      buffers = [];
      packet_group = 0;
      packet_buffer = 0;
      rgb_stage = no_buffer;
      stage_bytes = λ a. 0;
      src = no_import;
      cursor = no_import;
      try_fb2 = try_fb2;
      frame_index = 0;
      applied_bitrate = pos_part o.bit_rate;
      pace = start_pace c.now;
      next_frame = c.now;
    }

-- `none` is a return of 1.
unfoldable pub set_up : Env → SetupCalls → StreamOptions → Option Session × List Action
unfolding set_up_encoder with_display
set_up e c o = elim c.card_fd [
  | none ↦ (none, [])
  | some card ↦
      let (found, try_fb2) = find_connected_display_fb c.drm true in
      elim found [
        | none ↦ (none, took (fd card) ∷ gave (fd card) ∷ [])
        | some d ↦
            let (r, l) = set_up_encoder e c o (with_display c o card d try_fb2) in
            (r, took (fd card) ∷ l)
      ]
]
