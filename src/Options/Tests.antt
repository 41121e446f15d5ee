-- ===== src/Options/Tests.antt =====
-- Witnesses and tests of the parsers.
use remy_desk.Base.{◌≡◌, refl, true, false, Option, some, List, [], ◌∷◌, arith}
use remy_desk.Base.Int.{pos}
use remy_desk.Ring.{Ring}
use remy_desk.Ring.Init.{new_ring}
use remy_desk.Ring.Bitrate.{requested_bitrate}
use remy_desk.Options.{Strtol, parse_u32_arg, other_word, custom, parse_h264_profile_arg}
use remy_desk.Options.Command.{
  Opt, fps, h264_profile, out_width, ModeCodes, StreamOptions, run, exit_with, default_options,
  take_option, take_options, bad_size, adjust, check_options, parse_options,
}
use remy_desk.Options.Accepted.{Valid, parse_options-Valid, encoder_options, accepted_rates}
use remy_desk.Encoder.{EncoderCodes, ConfigCalls, configure_encoder, update_encoder_bitrate}
use remy_desk.Encoder.Rates.{Settled}

abbrev eighty : Strtol
eighty = record { parsed = pos 80; errno = false; nothing_read = false; rest = false }

-- An empty argument is read as 0.
empty_is_zero : parse_u32_arg (record { parsed = 0; errno = false; rest = false }) ≡ some 0
unfolding parse_u32_arg
empty_is_zero = refl

eighty_accepted : parse_h264_profile_arg other_word eighty ≡ some (pos 80, custom)
unfolding parse_h264_profile_arg
eighty_accepted = refl

abbrev modes : ModeCodes
modes = record {
  color_default = 0;
  color_bt709 = 1;
  color_bt601 = 2;
  rga_nv12 = 3;
  rga_nv21 = 4;
  mpp_nv12 = 5;
  mpp_nv21 = 6;
}

-- remydesk --fps 60 --width 1280 --profile 66
abbrev command : List Opt
command =
    fps (pos 60)
    ∷ out_width (record { parsed = 1280; errno = false; rest = false })
    ∷ h264_profile other_word
        (record { parsed = pos 66; errno = false; nothing_read = false; rest = false })
    ∷ []

abbrev chosen : StreamOptions
chosen = record (default_options modes) {
  frame_rate = pos 60;
  width = 1280;
  profile = pos 66;
  cabac = false;
}

-- The baseline profile turns CABAC off, which is on by default.
command_taken : parse_options modes true command ≡ run chosen
unfolding parse_options take_options take_option check_options bad_size adjust default_options
    parse_u32_arg parse_h264_profile_arg
command_taken = refl

too_fast : parse_options modes true (fps (pos 121) ∷ []) ≡ exit_with 1
unfolding parse_options take_options take_option check_options default_options
too_fast = refl

parse_options-Valid_example : Valid true chosen
parse_options-Valid_example = parse_options-Valid modes true command chosen command_taken

abbrev codes : EncoderCodes
codes = record { rc_mode_vbr = 0; drop_frm_disabled = 0; coding_avc = 7 }

abbrev calls : ConfigCalls
calls = record {
  legacy_fps_keys = false;
  all_intra = false;
  init_fails = false;
  get_fails = false;
  set_fails = false;
}

-- The consumer asks for 3 Mbit/s.
abbrev asking : Option Ring
asking = some (record (new_ring 12000000) { requested_bitrate = 3000000 })

accepted_rates_example :
    Settled (configure_encoder codes calls (encoder_options chosen 1920 1080)) 12000000
    × Settled
        (update_encoder_bitrate calls (requested_bitrate asking 12000000))
        (requested_bitrate asking 12000000)
unfolding default_options
accepted_rates_example =
    accepted_rates modes true command chosen codes calls calls 1920 1080 12000000 asking
      command_taken (omega arith) (omega arith)
