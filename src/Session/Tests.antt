-- ===== src/Session/Tests.antt =====
-- Runs on one display, with a limit of three frames.
use remy_desk.Session.Limits.{loop_limit}
use remy_desk.Base.{
  ◌≤◌, ℕ, ◌≡◌, refl, arith, true, false, none, some, List, [], ◌∷◌, ◌++◌, length, get_elem?, ◌+◌,
  ◌%◌,
}
use remy_desk.Base.Int.{pos, negsuc}
use remy_desk.Output.{wrote, write_all}
use remy_desk.Ring.{Ring, notify}
use remy_desk.Ring.Init
use remy_desk.Ring.Init.{InitCalls, new_ring}
use remy_desk.Import.{CaptureFb, wrap_rga_dma_fd}
use remy_desk.Import.Formats.{FormatCodes, rga_format_for_drm, bytes_per_pixel_for_drm}
use remy_desk.Import.Source.{ImportCalls, ensure_src_import, ensure_cursor_import, is_current}
use remy_desk.Import.Staging.{DumbCalls, create_dumb_rgb_buffer}
use remy_desk.Import.EncodeBuffers.{EncodeBuffer, init_encode_buffers, init_encode_buffer}
use remy_desk.Display.{
  DrmCalls, Display, crtc_index_for_id, find_connected_display_fb, scan_connectors, crtc_of,
  is_hdmi, find_encoder_for_connector,
}
use remy_desk.Display.Planes.{find_cursor_plane}
use remy_desk.Import.Capture.{get_capture_fb}
use remy_desk.Encoder.{configure_encoder}
use remy_desk.Convert.{rga_convert_frame}
use remy_desk.Ring.Bitrate.{adapt_bitrate}
use remy_desk.Encode.{Packet, got, encode_one_frame, drain, pass_on}
use remy_desk.Writer.{Traffic, Link, stream_writer_write}
use remy_desk.Options.Command.{ModeCodes, StreamOptions, default_options}
use remy_desk.Cursor.{int_of_u32}
use remy_desk.Session.{Env, Session}
use remy_desk.Session.Setup.{SetupCalls, set_up, with_display}
use remy_desk.Session.Round.{Meets, run_round, begin_round, capture, draw, and_then}
use remy_desk.Session.Progress.{Succeeds, at_end, one_frame}
use remy_desk.Session.Mode.{Screen, Shows, submitted-Shows}
use remy_desk.Session.Run.{run_loop, run_session}
use remy_desk.Session.Ready.{submitted_buffers}
use remy_desk.Session.Frames.{Frames, all_joined, run_session_output}

abbrev codes : FormatCodes
codes = record {
  xrgb8888 = 1;
  argb8888 = 2;
  abgr8888 = 3;
  xbgr8888 = 4;
  rgb888 = 5;
  bgr888 = 6;
  rk_bgra_8888 = 11;
  rk_bgrx_8888 = 12;
  rk_rgba_8888 = 13;
  rk_rgbx_8888 = 14;
  rk_rgb_888 = 15;
  rk_bgr_888 = 16;
}

abbrev env : Env
env = record {
  handle_api = true;
  codes = codes;
  rates = record {
    dynamic_fps = false;
    fps = 30;
    idle_fps = 8;
    idle_after_ms = 3000;
    idle_frame_bytes = 12000;
  };
}

abbrev screen : CaptureFb
screen = record {
  fb_id = 40;
  width = 64;
  height = 32;
  fourcc = 1;
  pitch = 256;
  modifier = 0;
  handle = 41;
}

abbrev drm : DrmCalls
drm = record {
  codes = record { hdmia = 1; hdmib = 2 };
  resources =
      some (
        some (record { connector_type = 1; connected = true; encoder_id = 5; encoders = [] }) ∷ []);
  get_encoder = λ e. some 7;
  get_crtc = λ c. some 40;
  get_fb = λ b. record { codes = codes; mod_invalid = 99; get_fb2 = some screen; get_fb = none };
}

abbrev imports : ImportCalls
imports = record {
  handle_api = true;
  codes = codes;
  exported = some 20;
  imported = 21;
  mapped_at = some 22;
}

abbrev dumb : DumbCalls
dumb = record {
  handle_api = true;
  created = some (record { handle = 30; pitch = 256; size = 8192 });
  exported = some 31;
  imported = 32;
  map_dumb_fails = false;
  mapped_at = some 33;
}

abbrev calls : SetupCalls
calls = record {
  card_fd = some 3;
  drm = drm;
  crtcs = some (7 ∷ []);
  create_context = some 50;
  timeout_fails = false;
  init_fails = false;
  encoder_codes = record { rc_mode_vbr = 0; drop_frm_disabled = 0; coding_avc = 7 };
  config = record {
    legacy_fps_keys = false;
    all_intra = false;
    init_fails = false;
    get_fails = false;
    set_fails = false;
  };
  get_group = some 51;
  get_array = some 52;
  buffer = λ i. record { get = some (60 + i); get_fd = pos (70 + i); imported = 80 + i };
  get_packet_group = some 53;
  get_packet_buffer = some 54;
  dumb = dumb;
  now = record { sec = 5; nsec = 0 };
}

abbrev modes : ModeCodes
modes = record {
  color_default = 0;
  color_bt709 = 1;
  color_bt601 = 2;
  rga_nv12 = 100;
  rga_nv21 = 101;
  mpp_nv12 = 0;
  mpp_nv21 = 1;
}

-- Two buffers, at most three frames.
abbrev options : StreamOptions
options = record (default_options modes) { buffers = pos 2; frame_limit = pos 3 }

-- A packet of one byte, which is the frame.
abbrev packet : ℕ → Packet
packet byte = record { data_bytes = byte ∷ []; is_partition = false; is_eoi = false }

abbrev meets : ℕ → Meets
meets byte = record {
  asked = none;
  update_fails = false;
  has_activity = false;
  drm = drm;
  source = imports;
  solid = false;
  solid_mapped = true;
  screen = λ a. 0;
  copy_succeeds = true;
  plane_calls = record {
    type_cursor = 2;
    get_fb = λ b. record { codes = codes; mod_invalid = 99; get_fb2 = none; get_fb = none };
  };
  planes = some [];
  pointer = imports;
  cores = 1 ∷ 2 ∷ [];
  converts = λ a. true;
  mpp = record {
    frame_init_fails = false;
    packet_init_fails = false;
    force_idr_requested = false;
    put_frame_fails = false;
    get_packet = λ i. got (packet byte);
  };
  stopped = false;
  now = record { sec = 6; nsec = 0 };
}

abbrev rounds : List Meets
rounds = meets 7 ∷ meets 8 ∷ []

-- The third frame is the last; a fourth round does not come to pass.
abbrev many : List Meets
many = meets 7 ∷ meets 8 ∷ meets 9 ∷ meets 10 ∷ []

-- write(2) takes one byte.
abbrev traffic : ℕ → Traffic
traffic i = record { polls = []; answers = wrote 1 ∷ [] }

abbrev link : Link
link = record {
  writer = record { fd = pos 1; ring_fd = negsuc 0; ring_map_size = 0; ring = none };
  calls = 0;
  output = [];
}

abbrev ringed : Link
ringed = record link {
  writer = record link.writer {
    ring_fd = pos 4;
    ring_map_size = 16777344;
    ring = some (new_ring 12000000);
  };
}

two_rounds :
    ((run_session traffic env calls options rounds link).exit_code ≡ 0)
    × ((run_session traffic env calls options rounds link).link.output ≡ 7 ∷ 8 ∷ [])
unfolding run_session find_connected_display_fb scan_connectors crtc_of is_hdmi
    find_encoder_for_connector get_capture_fb configure_encoder init_encode_buffers
    init_encode_buffer wrap_rga_dma_fd default_options rga_format_for_drm bytes_per_pixel_for_drm
    create_dumb_rgb_buffer ensure_src_import is_current find_cursor_plane rga_convert_frame
    encode_one_frame drain pass_on stream_writer_write write_all adapt_bitrate ensure_cursor_import
two_rounds = (refl, refl)

three_of_four :
    ((run_session traffic env calls options many link).exit_code ≡ 0)
    × ((run_session traffic env calls options many link).link.output ≡ 7 ∷ 8 ∷ 9 ∷ [])
unfolding run_session find_connected_display_fb scan_connectors crtc_of is_hdmi
    find_encoder_for_connector get_capture_fb configure_encoder init_encode_buffers
    init_encode_buffer wrap_rga_dma_fd default_options rga_format_for_drm bytes_per_pixel_for_drm
    create_dumb_rgb_buffer ensure_src_import is_current find_cursor_plane rga_convert_frame
    encode_one_frame drain pass_on stream_writer_write write_all adapt_bitrate ensure_cursor_import
three_of_four = (refl, refl)

-- The session that the set-up leaves.
abbrev display : Display
display = record { fb = screen; crtc_id = 7 }

abbrev buffer_of : ℕ → EncodeBuffer
buffer_of i = record { mpp_buf = some (60 + i); dma_fd = pos (70 + i); rga_handle = 80 + i }

abbrev started : Session
started = record (with_display calls options 3 display true) {
  context = 50;
  group = 51;
  array = 52;
  buffers = buffer_of 0 ∷ buffer_of 1 ∷ [];
  packet_group = 53;
  packet_buffer = 54;
  rgb_stage = record {
    handle_id = 30;
    width = 64;
    height = 32;
    pitch = 256;
    size = 8192;
    dma_fd = some 31;
    map = some 33;
    rga_format = 12;
    wstride = int_of_u32 64;
    rga_handle = 32;
  };
}

first_session : (set_up env calls options).0 ≡ some started
unfolding find_connected_display_fb scan_connectors crtc_of is_hdmi find_encoder_for_connector
    get_capture_fb configure_encoder init_encode_buffers init_encode_buffer wrap_rga_dma_fd
    default_options rga_format_for_drm bytes_per_pixel_for_drm create_dumb_rgb_buffer set_up
    with_display crtc_index_for_id int_of_u32
first_session = refl

-- The encoder gets the two buffers in turn.
third_buffer :
    get_elem? (run_loop traffic env options many started link).submitted 2
    ≡ some (some (buffer_of 0))
unfolding run_loop with_display find_connected_display_fb get_capture_fb wrap_rga_dma_fd
    default_options rga_format_for_drm bytes_per_pixel_for_drm ensure_src_import is_current
    find_cursor_plane rga_convert_frame encode_one_frame drain pass_on stream_writer_write write_all
    adapt_bitrate ensure_cursor_import
third_buffer = refl

submitted_buffers_example :
    (x : EncodeBuffer) × (some (buffer_of 0) ≡ some x)
    × (get_elem? started.buffers (2 % 2) ≡ some x)
submitted_buffers_example =
    submitted_buffers env calls options traffic many link started 2 (some (buffer_of 0))
      first_session (unfold default_options in omega arith) third_buffer

abbrev init_calls : InitCalls
init_calls = record {
  path = some (1 ∷ []);
  unlink_fails = false;
  open_result = pos 4;
  truncate_fails = false;
  map_fails = false;
}

run_session_output_example :
    (frames : List (List Packet)) × Frames rounds frames
    × ((run_session traffic env calls options rounds link).link.output ≡ [] ++ all_joined frames)
run_session_output_example =
    run_session_output traffic env calls options rounds link refl refl two_rounds.0

-- A run that is stopped at once closes the ring.
abbrev left_ring : Ring
left_ring = notify (record (new_ring 12000000) { closed = 1 })

first_buffer :
    (run_round traffic env options (meets 7) started link).submitted ≡ some (buffer_of 0) ∷ []
unfolding run_round with_display find_connected_display_fb get_capture_fb wrap_rga_dma_fd
    default_options rga_format_for_drm bytes_per_pixel_for_drm ensure_src_import is_current
    find_cursor_plane rga_convert_frame encode_one_frame drain pass_on stream_writer_write write_all
    adapt_bitrate ensure_cursor_import
first_buffer = refl

submitted-Shows_example :
    Screen (meets 7) started
    × Shows started.cap (run_round traffic env options (meets 7) started link).session
submitted-Shows_example =
    submitted-Shows traffic env options (meets 7) started link (some (buffer_of 0)) first_buffer

nothing_fails : Succeeds traffic env options rounds started link
unfolding run_loop with_display find_connected_display_fb get_capture_fb wrap_rga_dma_fd
    default_options rga_format_for_drm bytes_per_pixel_for_drm ensure_src_import is_current
    find_cursor_plane rga_convert_frame encode_one_frame drain pass_on stream_writer_write write_all
    adapt_bitrate ensure_cursor_import run_round begin_round capture draw and_then
nothing_fails = one_frame refl refl (one_frame refl refl at_end)

loop_limit_example :
    ((run_loop traffic env options many started link).session.frame_index ≤ 3)
    × (0 + length (run_loop traffic env options many started link).submitted ≤ 3)
unfolding default_options with_display
loop_limit_example = loop_limit traffic env options many started link 3 refl (omega arith)
