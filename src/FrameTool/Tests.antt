-- ===== src/FrameTool/Tests.antt =====
-- The tool on one HDMI output.
use remy_desk.Base.{◌≡◌, refl, true, false, none, some, [], ◌∷◌}
use remy_desk.Import.{CaptureFb}
use remy_desk.Import.Formats.{FormatCodes, rga_format_for_drm}
use remy_desk.Import.Balance.{taken, given}
use remy_desk.Display.{scan_connectors, crtc_of, is_hdmi, find_encoder_for_connector}
use remy_desk.Encode.{got}
use remy_desk.FrameTool.{ToolCalls, append_all, failed, capture_frame}
use remy_desk.FrameTool.Balance.{capture_frame_balanced}

abbrev codes : FormatCodes
codes = record {
  xrgb8888 = 1;
  argb8888 = 2;
  abgr8888 = 3;
  xbgr8888 = 4;
  rgb888 = 5;
  bgr888 = 6;
  rk_bgra_8888 = 11;
  rk_bgrx_8888 = 12;
  rk_rgba_8888 = 13;
  rk_rgbx_8888 = 14;
  rk_rgb_888 = 15;
  rk_bgr_888 = 16;
}

abbrev screen : CaptureFb
screen = record {
  fb_id = 40;
  width = 64;
  height = 32;
  fourcc = 1;
  pitch = 256;
  modifier = 0;
  handle = 41;
}

-- Two bytes, of which write(2) takes one at a time.
abbrev calls : ToolCalls
calls = record {
  codes = codes;
  card_fd = some 3;
  hdmi = record {
    codes = record { hdmia = 1; hdmib = 2 };
    resources = some (
        some (record { connector_type = 1; connected = true; encoder_id = 5; encoders = [] }) ∷ []);
    get_encoder = λ e. some 7;
    get_crtc = λ c. some 40;
    get_fb2 = λ b. some screen;
  };
  exported = some 4;
  create_context = some 50;
  init_fails = false;
  configure_fails = false;
  get_group = some 51;
  get_buffer = some 52;
  get_fd_fails = false;
  src_handle = 60;
  dst_handle = 61;
  check_fails = false;
  copy_fails = false;
  output_fd = some 5;
  put_frame_fails = false;
  get_packet = λ i. got (record { data_bytes = 1 ∷ 2 ∷ []; is_partition = false; is_eoi = true });
  answers = λ i. some 1 ∷ some 1 ∷ [];
}

two_bytes : ((capture_frame calls).exit_code ≡ 0) × ((capture_frame calls).written ≡ 1 ∷ 2 ∷ [])
unfolding capture_frame scan_connectors crtc_of is_hdmi find_encoder_for_connector
    rga_format_for_drm
two_bytes = (refl, refl)

interrupted : append_all (1 ∷ 2 ∷ []) (some 1 ∷ none ∷ []) ≡ (failed, 1 ∷ [])
unfolding append_all
interrupted = refl

-- The disk is full: nothing is written, and the exit code is 0.
full_disk :
    ((capture_frame (record calls { answers = λ i. none ∷ [] })).exit_code ≡ 0)
    × ((capture_frame (record calls { answers = λ i. none ∷ [] })).written ≡ [])
unfolding capture_frame scan_connectors crtc_of is_hdmi find_encoder_for_connector
    rga_format_for_drm
full_disk = (refl, refl)

capture_frame_balanced_example :
    taken (λ r. true) (capture_frame (record calls { check_fails = true })).actions
    ≡ given (λ r. true) (capture_frame (record calls { check_fails = true })).actions
capture_frame_balanced_example =
    capture_frame_balanced (λ r. true) (record calls { check_fails = true })
