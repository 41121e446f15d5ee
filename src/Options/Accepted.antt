-- ===== src/Options/Accepted.antt =====
-- What `main` runs with, and what it then asks of the encoder.
use Prim.Native.String.{String}
use remy_desk.Base.{
  ℕ, ◌%◌, ◌≤◌, ◌≡◌, ◌⊎◌, inl, inr, refl, Bool, true, false, ◌==◌, Option, none, some, List, [], ◌∷◌,
  arith, if◌then◌else◌, Option-cases,
}
use remy_desk.Base.Int.{ℤ, pos, negsuc, pos_part, ◌≤ℤ◌, ltb_ℤ}
use remy_desk.Ring.{Ring}
use remy_desk.Ring.Bitrate.{requested_bitrate}
use remy_desk.Options.{parse_u32_arg, parse_h264_profile_arg}
use remy_desk.Options.Ranges.{parse_h264_profile_arg_bounds}
use remy_desk.Options.Command.{
  Opt, card, fps, bitrate, max_frames, buffer_count, h264_level, h264_cabac, quiet, no_cursor,
  cpu_stage, xrgb_as_alpha, wait_vblank, no_wait_vblank, help, unknown, color, yuv, out_width,
  out_height, h264_profile, ModeCodes, StreamOptions, Parsed, exit_with, run, default_options,
  take_color, take_yuv, take_option, take_options, bad_size, adjust, check_options, parse_options,
}
use remy_desk.Encoder.{
  EncoderCodes, EncoderOptions, ConfigCalls, configure_encoder, update_encoder_bitrate,
}
use remy_desk.Encoder.Rates.{Settled, encoder_rates}

-- The profile is in range, or the options were refused.
ProfileIn : Parsed → Type 0
ProfileIn (exit_with n) = Unit
ProfileIn (run o) = (pos 66 ≤ℤ o.profile) × (o.profile ≤ℤ pos 244)

take_color-ProfileIn :
    (m : ModeCodes) (name : String) (o : StreamOptions)
    → ProfileIn (run o)
    → ProfileIn (take_color m name o)
unfolding take_color ProfileIn
take_color-ProfileIn m name o h = ground arith

take_yuv-ProfileIn :
    (m : ModeCodes) (name : String) (o : StreamOptions)
    → ProfileIn (run o)
    → ProfileIn (take_yuv m name o)
unfolding take_yuv ProfileIn
take_yuv-ProfileIn m name o h = ground arith

take_option-ProfileIn :
    (m : ModeCodes) (opt : Opt) (o : StreamOptions)
    → ProfileIn (run o)
    → ProfileIn (take_option m opt o)
unfolding take_option ProfileIn
take_option-ProfileIn m (card path) o h = h
take_option-ProfileIn m (fps n) o h = h
take_option-ProfileIn m (bitrate n) o h = h
take_option-ProfileIn m (max_frames n) o h = h
take_option-ProfileIn m quiet o h = h
take_option-ProfileIn m no_cursor o h = h
take_option-ProfileIn m cpu_stage o h = h
take_option-ProfileIn m xrgb_as_alpha o h = h
take_option-ProfileIn m wait_vblank o h = h
take_option-ProfileIn m no_wait_vblank o h = h
take_option-ProfileIn m (buffer_count n) o h = h
take_option-ProfileIn m (color name) o h = take_color-ProfileIn m name o h
take_option-ProfileIn m (yuv name) o h = take_yuv-ProfileIn m name o h
take_option-ProfileIn m (out_width r) o h = elim (Option-cases (parse_u32_arg r)) [
  | inl e ↦ rw (ProfileIn, take_option, e) tt
  | inr (n, e) ↦ rw (ProfileIn, take_option, e) h
]
take_option-ProfileIn m (out_height r) o h = elim (Option-cases (parse_u32_arg r)) [
  | inl e ↦ rw (ProfileIn, take_option, e) tt
  | inr (n, e) ↦ rw (ProfileIn, take_option, e) h
]
take_option-ProfileIn m (h264_profile word r) o h =
    elim (Option-cases (parse_h264_profile_arg word r)) [
      | inl e ↦ rw (ProfileIn, take_option, e) tt
      | inr ((n, name), e) ↦
          rw (ProfileIn, take_option, e) (parse_h264_profile_arg_bounds word r n name e)
    ]
take_option-ProfileIn m (h264_level n) o h = h
take_option-ProfileIn m (h264_cabac n) o h = h
take_option-ProfileIn m help o h = tt
take_option-ProfileIn m unknown o h = tt

-- What an option leaves.
Parsed-cases : (p : Parsed) → ((n : ℕ) × (p ≡ exit_with n)) ⊎ ((o : StreamOptions) × (p ≡ run o))
Parsed-cases (exit_with n) = inl (n, refl)
Parsed-cases (run o) = inr (o, refl)

take_options-ProfileIn :
    (m : ModeCodes) (opts : List Opt) (o : StreamOptions)
    → ProfileIn (run o)
    → ProfileIn (take_options m opts o)
unfolding take_options ProfileIn
take_options-ProfileIn m [] o h = h
take_options-ProfileIn m (opt ∷ later) o h =
    let next = take_option-ProfileIn m opt o h in
    elim (Parsed-cases (take_option m opt o)) [
      | inl (n, e) ↦ rw (ProfileIn, take_options, e) tt
      | inr (o', e) ↦ rw (take_options, e) (take_options-ProfileIn m later o' (rw e at next))
    ]

-- A size that is taken from the display, or an even one from 16 to 8192.
abbrev pub SizeOk : ℕ → Type 0
SizeOk n = (n ≡ 0) ⊎ ((16 ≤ n) × (n ≤ 8192) × (n % 2 ≡ 0))

-- What the stream runs with.
pub record Valid (handle_api : Bool) (o : StreamOptions) : Type 0 where
  pub fps_low : pos 1 ≤ℤ o.frame_rate
  pub fps_high : o.frame_rate ≤ℤ pos 120
  pub bitrate_low : pos 100000 ≤ℤ o.bit_rate
  pub bitrate_high : o.bit_rate ≤ℤ pos 200000000
  pub width_ok : SizeOk o.width
  pub height_ok : SizeOk o.height
  pub profile_low : pos 66 ≤ℤ o.profile
  pub profile_high : o.profile ≤ℤ pos 244
  pub level_low : pos 10 ≤ℤ o.level
  pub level_high : o.level ≤ℤ pos 62
  pub no_cabac : (o.cabac ≡ false) ⊎ (pos 67 ≤ℤ o.profile)
  pub buffers_low : pos 1 ≤ℤ o.buffers
  pub buffers_high : o.buffers ≤ℤ pos 8
  pub cursor_ok : (o.cursor_enabled ≡ false) ⊎ (handle_api ≡ true)

size_ok : (n : ℕ) → bad_size n ≡ false → SizeOk n
unfolding bad_size
size_ok n h = ground arith

record Passed (handle_api : Bool) (o accepted : StreamOptions) : Type 0 where
  is_adjusted : adjust handle_api o ≡ accepted
  fps_low : ltb_ℤ o.frame_rate (pos 1) ≡ false
  fps_high : ltb_ℤ (pos 120) o.frame_rate ≡ false
  bitrate_low : ltb_ℤ o.bit_rate (pos 100000) ≡ false
  bitrate_high : ltb_ℤ (pos 200000000) o.bit_rate ≡ false
  width_ok : bad_size o.width ≡ false
  height_ok : bad_size o.height ≡ false
  level_low : ltb_ℤ o.level (pos 10) ≡ false
  level_high : ltb_ℤ (pos 62) o.level ≡ false
  buffers_low : ltb_ℤ o.buffers (pos 1) ≡ false
  buffers_high : ltb_ℤ (pos 8) o.buffers ≡ false

check_options-Passed :
    (handle_api : Bool) (o accepted : StreamOptions)
    → check_options handle_api o ≡ run accepted
    → Passed handle_api o accepted
unfolding check_options
check_options-Passed handle_api o accepted e = ground arith

Passed-Valid :
    (handle_api : Bool) (o accepted : StreamOptions)
    → ProfileIn (run o)
    → Passed handle_api o accepted
    → Valid handle_api accepted
unfolding adjust ProfileIn
Passed-Valid handle_api o accepted (low, high) p = rw (← p.is_adjusted) (record {
  fps_low = let h = p.fps_low in ground arith;
  fps_high = let h = p.fps_high in ground arith;
  bitrate_low = let h = p.bitrate_low in ground arith;
  bitrate_high = let h = p.bitrate_high in ground arith;
  width_ok = size_ok o.width p.width_ok;
  height_ok = size_ok o.height p.height_ok;
  profile_low = low;
  profile_high = high;
  level_low = let h = p.level_low in ground arith;
  level_high = let h = p.level_high in ground arith;
  no_cabac = ground arith;
  buffers_low = let h = p.buffers_low in ground arith;
  buffers_high = let h = p.buffers_high in ground arith;
  cursor_ok = ground arith;
})

-- Whatever options are given, the program exits or runs with options in range: 1 to 120 frames a
-- second, 100 kbit/s to 200 Mbit/s, sizes of 0 or even ones from 16 to 8192, a profile from
-- 66 to 244 and a level from 10 to 62, no CABAC with the baseline profile 66, 1 to 8 buffers, and a
-- cursor only with the handle API.
pub parse_options-Valid :
    (m : ModeCodes) (handle_api : Bool) (opts : List Opt) (accepted : StreamOptions)
    → parse_options m handle_api opts ≡ run accepted
    → Valid handle_api accepted
unfolding parse_options
parse_options-Valid m handle_api opts accepted e =
    elim (Parsed-cases (take_options m opts (default_options m))) [
      | inl (n, gone) ↦ ground arith
      | inr (o, kept) ↦
          let range =
            take_options-ProfileIn m opts (default_options m)
              (unfold default_options in unfold ProfileIn in (omega arith, omega arith)) in
          let checked : check_options handle_api o ≡ run accepted = ground arith in
          Passed-Valid handle_api o accepted (rw kept at range)
            (check_options-Passed handle_api o accepted checked)
    ]

-- What `main` passes to `configure_encoder`; a size of 0 is that of the display.
unfoldable pub encoder_options : StreamOptions → ℕ → ℕ → EncoderOptions
encoder_options o display_width display_height = record {
  width = if o.width == 0 then display_width else o.width;
  height = if o.height == 0 then display_height else o.height;
  fps = pos_part o.frame_rate;
  bitrate = pos_part o.bit_rate;
  mpp_format = o.mpp_format;
  h264_profile = pos_part o.profile;
  h264_level = pos_part o.level;
  h264_cabac = if o.cabac then 1 else 0;
}

positive_range :
    (z : ℤ)
    → pos 100000 ≤ℤ z
    → z ≤ℤ pos 200000000
    → (100000 ≤ pos_part z) × (pos_part z ≤ 200000000)
positive_range (pos n) low high = ground arith
positive_range (negsuc n) low high = ground arith

requested_range :
    (ring : Option Ring) (applied : ℕ)
    → 100000 ≤ applied
    → applied ≤ 200000000
    → (100000 ≤ requested_bitrate ring applied) × (requested_bitrate ring applied ≤ 200000000)
unfolding requested_bitrate
requested_range none applied least most = (least, most)
requested_range (some r) applied least most = ground arith

-- Whatever options are accepted, the encoder is set up with a target inside its envelope of rates,
-- with no overflow, or the call fails; and where it runs at a bitrate from 100 kbit/s to 200 Mbit/s,
-- so is the target that it is then changed to, whatever request stands in the ring. Each call frees its
-- configuration.
pub accepted_rates :
    (m : ModeCodes) (handle_api : Bool) (opts : List Opt) (o : StreamOptions) (codes : EncoderCodes)
    (c later : ConfigCalls) (display_width display_height applied : ℕ) (ring : Option Ring)
    → parse_options m handle_api opts ≡ run o
    → 100000 ≤ applied
    → applied ≤ 200000000
    → Settled
        (configure_encoder codes c (encoder_options o display_width display_height))
        (pos_part o.bit_rate)
      × Settled
          (update_encoder_bitrate later (requested_bitrate ring applied))
          (requested_bitrate ring applied)
unfolding encoder_options
accepted_rates m handle_api opts o codes c later w h applied ring e least most =
    let v = parse_options-Valid m handle_api opts o e in
    let range = positive_range o.bit_rate v.bitrate_low v.bitrate_high in
    let low : 100000 ≤ pos_part o.bit_rate = range.0 in
    let high : pos_part o.bit_rate ≤ 200000000 = range.1 in
    let (at_least, at_most) = requested_range ring applied least most in
    let changed = record (encoder_options o w h) { bitrate = requested_bitrate ring applied } in
    (
      (encoder_rates codes c later (encoder_options o w h) low high).0,
      (encoder_rates codes c later changed at_least at_most).1,
    )
