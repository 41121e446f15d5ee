-- ===== src/Options/Command.antt =====
-- The options of `main`, of native/desktop-streamer/drm_rga_mpp_stream.c: the loop over getopt_long
-- and the tests behind it. getopt_long, atoi, strtol and strtoul belong to libc: an option comes with
-- what they make of its argument. The names of modes that are only printed are left out.
use Prim.Native.String.{String}
use remy_desk.Base.{
  ℕ, ◌%◌, Bool, true, false, ◌&&◌, ◌||◌, not, ltb, ◌==◌, none, some, List, [], ◌∷◌, if◌then◌else◌,
}
use remy_desk.Base.Int.{ℤ, pos, ltb_ℤ}
use remy_desk.Base.Text.{same}
use remy_desk.Options.{Strtol, Strtoul, parse_u32_arg, ProfileWord, parse_h264_profile_arg}

pub data Opt : Type 0 where
  card : String → Opt
  fps bitrate max_frames buffer_count h264_level h264_cabac : ℤ → Opt
  quiet no_cursor cpu_stage xrgb_as_alpha wait_vblank no_wait_vblank help unknown : Opt
  color yuv : String → Opt
  out_width out_height : Strtoul → Opt
  h264_profile : ProfileWord → Strtol → Opt

-- The modes of librga and MPP.
pub record ModeCodes : Type 0 where
  pub color_default : ℕ
  pub color_bt709 : ℕ
  pub color_bt601 : ℕ
  pub rga_nv12 : ℕ
  pub rga_nv21 : ℕ
  pub mpp_nv12 : ℕ
  pub mpp_nv21 : ℕ

pub record StreamOptions : Type 0 where
  pub card_path : String
  pub frame_rate : ℤ
  pub bit_rate : ℤ
  pub frame_limit : ℤ
  pub is_quiet : Bool
  pub cursor_enabled : Bool
  pub cpu_stage_on : Bool
  pub alpha_on : Bool
  pub vblank_on : Bool
  pub buffers : ℤ
  pub width : ℕ
  pub height : ℕ
  pub color_mode : ℕ
  pub dst_rga_format : ℕ
  pub mpp_format : ℕ
  pub profile : ℤ
  pub level : ℤ
  pub cabac : Bool

pub data Parsed : Type 0 where
  exit_with : ℕ → Parsed
  run : StreamOptions → Parsed

unfoldable pub default_options : ModeCodes → StreamOptions
default_options m = record {
  card_path = "/dev/dri/card0";
  frame_rate = pos 30;
  bit_rate = pos 12000000;
  frame_limit = pos 0;
  is_quiet = false;
  cursor_enabled = true;
  cpu_stage_on = false;
  alpha_on = false;
  vblank_on = true;
  buffers = pos 1;
  width = 0;
  height = 0;
  color_mode = m.color_default;
  dst_rga_format = m.rga_nv12;
  mpp_format = m.mpp_nv12;
  profile = pos 100;
  level = pos 40;
  cabac = true;
}

unfoldable pub take_color : ModeCodes → String → StreamOptions → Parsed
take_color m name o =
    if same name "bt709"
    then run (record o { color_mode = m.color_bt709 })
    else if same name "bt601"
    then run (record o { color_mode = m.color_bt601 })
    else if same name "default"
    then run (record o { color_mode = m.color_default })
    else exit_with 1

unfoldable pub take_yuv : ModeCodes → String → StreamOptions → Parsed
take_yuv m name o =
    if same name "nv12"
    then run (record o { dst_rga_format = m.rga_nv12; mpp_format = m.mpp_nv12 })
    else if same name "nv21"
    then run (record o { dst_rga_format = m.rga_nv21; mpp_format = m.mpp_nv21 })
    else exit_with 1

-- The cases of the switch.
unfoldable pub take_option : ModeCodes → Opt → StreamOptions → Parsed
unfolding take_color take_yuv
take_option m (card path) o = run (record o { card_path = path })
take_option m (fps n) o = run (record o { frame_rate = n })
take_option m (bitrate n) o = run (record o { bit_rate = n })
take_option m (max_frames n) o = run (record o { frame_limit = n })
take_option m quiet o = run (record o { is_quiet = true })
take_option m no_cursor o = run (record o { cursor_enabled = false })
take_option m cpu_stage o = run (record o { cpu_stage_on = true })
take_option m xrgb_as_alpha o = run (record o { alpha_on = true })
take_option m wait_vblank o = run (record o { vblank_on = true })
take_option m no_wait_vblank o = run (record o { vblank_on = false })
take_option m (buffer_count n) o = run (record o { buffers = n })
take_option m (color name) o = take_color m name o
take_option m (yuv name) o = take_yuv m name o
take_option m (out_width r) o = elim (parse_u32_arg r) [
  | none ↦ exit_with 1
  | some n ↦ run (record o { width = n })
]
take_option m (out_height r) o = elim (parse_u32_arg r) [
  | none ↦ exit_with 1
  | some n ↦ run (record o { height = n })
]
take_option m (h264_profile word r) o = elim (parse_h264_profile_arg word r) [
  | none ↦ exit_with 1
  | some (n, name) ↦ run (record o { profile = n })
]
take_option m (h264_level n) o = run (record o { level = n })
take_option m (h264_cabac n) o = run (record o { cabac = ltb_ℤ n (pos 0) || ltb_ℤ (pos 0) n })
take_option m help o = exit_with 0
take_option m unknown o = exit_with 1

unfoldable pub take_options : ModeCodes → List Opt → StreamOptions → Parsed
take_options m [] o = run o
take_options m (opt ∷ later) o = elim (take_option m opt o) [
  | exit_with n ↦ exit_with n
  | run o' ↦ take_options m later o'
]

-- n && (n < 16 || n > 8192 || (n & 1))
unfoldable pub bad_size : ℕ → Bool
bad_size n = not (n == 0) && (ltb n 16 || ltb 8192 n || n % 2 == 1)

-- A build without the handle API draws no cursor; the baseline profile has no CABAC.
unfoldable pub adjust : Bool → StreamOptions → StreamOptions
adjust handle_api o = record o {
  cursor_enabled = o.cursor_enabled && handle_api;
  cabac = o.cabac && (ltb_ℤ o.profile (pos 66) || ltb_ℤ (pos 66) o.profile);
}

-- The tests behind the loop.
unfoldable pub check_options : Bool → StreamOptions → Parsed
unfolding bad_size adjust
check_options handle_api o =
    if ltb_ℤ o.frame_rate (pos 1) || ltb_ℤ (pos 120) o.frame_rate
    then exit_with 1
    else if ltb_ℤ o.bit_rate (pos 100000) || ltb_ℤ (pos 200000000) o.bit_rate
    then exit_with 1
    else if bad_size o.width || bad_size o.height
    then exit_with 1
    else if ltb_ℤ o.level (pos 10) || ltb_ℤ (pos 62) o.level
    then exit_with 1
    else if ltb_ℤ o.buffers (pos 1) || ltb_ℤ (pos 8) o.buffers
    then exit_with 1
    else run (adjust handle_api o)

unfoldable pub parse_options : ModeCodes → Bool → List Opt → Parsed
unfolding take_options check_options
parse_options m handle_api opts = elim (take_options m opts (default_options m)) [
  | exit_with n ↦ exit_with n
  | run o ↦ check_options handle_api o
]
