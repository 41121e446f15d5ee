-- ===== src/Encoder/Tests.antt =====
-- An encoder at 12 Mbit/s.
use remy_desk.Base.{◌≡◌, refl, false, some}
use remy_desk.Base.Int.{pos}
use remy_desk.Encoder.{
  align_16, EncoderCodes, EncoderOptions, ConfigCalls, encoder_settings, bitrate_settings,
  frame_rate_settings,
}
use remy_desk.Encoder.Rates.{setting}

abbrev codes : EncoderCodes
codes = record { rc_mode_vbr = 0; drop_frm_disabled = 0; coding_avc = 7 }

abbrev calls : ConfigCalls
calls = record {
  legacy_fps_keys = false;
  all_intra = false;
  init_fails = false;
  get_fails = false;
  set_fails = false;
}

abbrev options : EncoderOptions
options = record {
  width = 1920;
  height = 1080;
  fps = 30;
  bitrate = 12000000;
  mpp_format = 0;
  h264_profile = 100;
  h264_level = 40;
  h264_cabac = 1;
}

one_hour : setting "rc:gop" (encoder_settings codes calls options) ≡ some (pos 108000)
unfolding encoder_settings bitrate_settings frame_rate_settings
one_hour = refl

padded : setting "prep:ver_stride" (encoder_settings codes calls options) ≡ some (pos 1088)
unfolding encoder_settings bitrate_settings frame_rate_settings align_16
padded = refl
