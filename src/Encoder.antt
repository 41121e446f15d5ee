-- ===== src/Encoder.antt =====
-- The settings of the encoder: `configure_encoder` and `update_encoder_bitrate` of
-- native/desktop-streamer/drm_rga_mpp_stream.c. What MPP answers, and the codes of its headers, are
-- arguments. `int` is ℤ where a value can be negative.
pub mod Rates
mod Tests
use Prim.Native.String.{String}
use remy_desk.Base.{
  ℕ, ◌+◌, ◌-◌, ◌*◌, ◌/◌, ◌%◌, ◌^◌, Bool, true, false, not, leb, Option, none, some, List, [], ◌∷◌,
  ◌++◌, if◌then◌else◌,
}
use remy_desk.Base.Int.{ℤ, pos, negsuc}

abbrev pub Settings : Type 0
Settings = List (String × ℤ)

-- (height + 15U) & ~15U
unfoldable pub align_16 : ℕ → ℕ
align_16 height = (height + 15) % 2 ^ 32 - (height + 15) % 2 ^ 32 % 16

pub record EncoderCodes : Type 0 where
  pub rc_mode_vbr : ℕ
  pub drop_frm_disabled : ℕ
  pub coding_avc : ℕ

-- What `main` asks for, behind its tests of the options.
pub record EncoderOptions : Type 0 where
  pub width : ℕ
  pub height : ℕ
  pub fps : ℕ
  pub bitrate : ℕ
  pub mpp_format : ℕ
  pub h264_profile : ℕ
  pub h264_level : ℕ
  pub h264_cabac : ℕ

-- The environment, and which calls of MPP fail.
pub record ConfigCalls : Type 0 where
  pub legacy_fps_keys : Bool
  pub all_intra : Bool
  pub init_fails : Bool
  pub get_fails : Bool
  pub set_fails : Bool

unfoldable pub bitrate_settings : ℕ → Settings
bitrate_settings bitrate =
    ("rc:bps_target", pos bitrate)
    ∷ ("rc:bps_max", pos (bitrate * 17 / 16))
    ∷ ("rc:bps_min", pos (bitrate / 16))
    ∷ []

unfoldable pub frame_rate_settings : ConfigCalls → ℕ → Settings
frame_rate_settings c fps =
    ("rc:fps_in_flex", pos 0)
    ∷ ("rc:fps_in_num", pos fps)
    ∷ ((if c.legacy_fps_keys then "rc:fps_in_denorm" else "rc:fps_in_denom"), pos 1)
    ∷ ("rc:fps_out_flex", pos 0)
    ∷ ("rc:fps_out_num", pos fps)
    ∷ ((if c.legacy_fps_keys then "rc:fps_out_denorm" else "rc:fps_out_denom"), pos 1)
    ∷ ("rc:gop", pos (if c.all_intra then 1 else fps * 3600))
    ∷ []

unfoldable pub encoder_settings : EncoderCodes → ConfigCalls → EncoderOptions → Settings
unfolding bitrate_settings frame_rate_settings align_16
encoder_settings codes c o =
    ("prep:width", pos o.width)
    ∷ ("prep:height", pos o.height)
    ∷ ("prep:hor_stride", pos o.width)
    ∷ ("prep:ver_stride", pos (align_16 o.height))
    ∷ ("prep:format", pos o.mpp_format)
    ∷ ("rc:mode", pos codes.rc_mode_vbr)
    ∷ ("rc:drop_mode", pos codes.drop_frm_disabled)
    ∷ ("rc:drop_thd", pos 20)
    ∷ ("rc:drop_gap", pos 1)
    ∷ (bitrate_settings o.bitrate
        ++ (frame_rate_settings c o.fps
            ++ (("rc:qp_init", negsuc 0)
                ∷ ("rc:qp_max", pos 51)
                ∷ ("rc:qp_min", pos 10)
                ∷ ("rc:qp_max_i", pos 51)
                ∷ ("rc:qp_min_i", pos 10)
                ∷ ("rc:qp_ip", pos 2)
                ∷ ("codec:type", pos codes.coding_avc)
                ∷ ("h264:profile", pos o.h264_profile)
                ∷ ("h264:level", pos o.h264_level)
                ∷ ("h264:cabac_en", pos o.h264_cabac)
                ∷ ("h264:cabac_idc", pos 0)
                ∷ ("h264:trans8x8", pos (if leb 100 o.h264_profile then 1 else 0))
                ∷ [])))

-- Whether it returns 0, the settings that are handed to MPP_ENC_SET_CFG, and the configuration
-- objects that were made and freed.
pub record Configured : Type 0 where
  pub returns_zero : Bool
  pub handed_over : Option Settings
  pub made : ℕ
  pub freed : ℕ

abbrev pub configured : Bool → Option Settings → ℕ → ℕ → Configured
configured ok settings made freed = record {
  returns_zero = ok;
  handed_over = settings;
  made = made;
  freed = freed;
}

-- Behind the settings come two requests, of the header mode and without SEI, whose answers are not
-- looked at.
unfoldable pub configure_encoder : EncoderCodes → ConfigCalls → EncoderOptions → Configured
unfolding encoder_settings
configure_encoder codes c o =
    if c.init_fails
    then configured false none 0 0
    else if c.get_fails
    then configured false none 1 1
    else configured (not c.set_fails) (some (encoder_settings codes c o)) 1 1

unfoldable pub update_encoder_bitrate : ConfigCalls → ℕ → Configured
unfolding bitrate_settings
update_encoder_bitrate c bitrate =
    if c.init_fails
    then configured false none 0 0
    else if c.get_fails
    then configured false none 1 1
    else configured (not c.set_fails) (some (bitrate_settings bitrate)) 1 1
