-- ===== src/Encoder/Rates.antt =====
-- The rates and sizes that the encoder is given.
use Prim.Native.String.{String}
use remy_desk.Base.{
  ℕ, ◌+◌, ◌-◌, ◌*◌, ◌/◌, ◌%◌, ◌^◌, ◌≤◌, ◌<◌, ◌≡◌, ◌⊎◌, inl, inr, refl, Bool, true, false, Option,
  none, some, [], ◌∷◌, arith, Bool-cases, not, if◌then◌else◌,
}
use remy_desk.Base.Int.{ℤ, pos}
use remy_desk.Base.Text.{same}
use remy_desk.Encoder.{
  Settings, align_16, EncoderCodes, EncoderOptions, ConfigCalls, bitrate_settings,
  frame_rate_settings, encoder_settings, configure_encoder, update_encoder_bitrate, Configured,
  configured,
}

-- The value of a key, of which the last setting counts.
abbrev pub setting : String → Settings → Option ℤ
setting key [] = none
setting key ((k, v) ∷ l) = elim (setting key l) [
  | some w ↦ some w
  | none ↦ if same k key then some v else none
]

-- An envelope of three rates around the target, none of which leaves the range of `int`.
pub record Envelope (settings : Settings) (bitrate : ℕ) : Type 0 where
  pub low : ℕ
  pub high : ℕ
  pub is_target : setting "rc:bps_target" settings ≡ some (pos bitrate)
  pub is_low : setting "rc:bps_min" settings ≡ some (pos low)
  pub is_high : setting "rc:bps_max" settings ≡ some (pos high)
  pub below : low ≤ bitrate
  pub above : bitrate < high
  pub no_overflow : high < 2 ^ 31

bitrate_settings-Envelope :
    (bitrate : ℕ)
    → 100000 ≤ bitrate
    → bitrate ≤ 200000000
    → Envelope (bitrate_settings bitrate) bitrate
unfolding bitrate_settings
bitrate_settings-Envelope bitrate lo hi = record {
  low = bitrate / 16;
  high = bitrate * 17 / 16;
  is_target = refl;
  is_low = refl;
  is_high = refl;
  below = omega arith;
  above = omega arith;
  no_overflow = omega arith;
}

-- The three keys, in both spellings of the keys of the frame rate.
rate_keys :
    (codes : EncoderCodes) (c : ConfigCalls) (o : EncoderOptions)
    → (setting "rc:bps_target" (encoder_settings codes c o) ≡ some (pos o.bitrate))
      × (setting "rc:bps_min" (encoder_settings codes c o) ≡ some (pos (o.bitrate / 16)))
      × (setting "rc:bps_max" (encoder_settings codes c o) ≡ some (pos (o.bitrate * 17 / 16)))
unfolding encoder_settings bitrate_settings frame_rate_settings
rate_keys codes c o = elim (Bool-cases c.legacy_fps_keys) [
  | inl old ↦ rw (encoder_settings, frame_rate_settings, old) (refl, refl, refl)
  | inr new ↦ rw (encoder_settings, frame_rate_settings, new) (refl, refl, refl)
]

encoder_settings-Envelope :
    (codes : EncoderCodes) (c : ConfigCalls) (o : EncoderOptions)
    → 100000 ≤ o.bitrate
    → o.bitrate ≤ 200000000
    → Envelope (encoder_settings codes c o) o.bitrate
encoder_settings-Envelope codes c o lo hi =
    let (target, low, high) = rate_keys codes c o in
    record {
      low = o.bitrate / 16;
      high = o.bitrate * 17 / 16;
      is_target = target;
      is_low = low;
      is_high = high;
      below = omega arith;
      above = omega arith;
      no_overflow = omega arith;
    }

-- Where a call returned 0, the settings that it handed over have the envelope; and it has freed what
-- it made.
abbrev pub Settled : Configured → ℕ → Type 0
Settled r bitrate =
    ((r.returns_zero ≡ false) ⊎ ((s : Settings) × (r.handed_over ≡ some s) × Envelope s bitrate))
    × (r.freed ≡ r.made)

settle :
    (get_fails set_fails init_fails : Bool) (s : Settings) (bitrate : ℕ)
    → Envelope s bitrate
    → Settled
        (if init_fails
          then configured false none 0 0
          else if get_fails
          then configured false none 1 1
          else configured (not set_fails) (some s) 1 1)
        bitrate
settle get_fails set_fails true s bitrate e = (inl refl, refl)
settle true set_fails false s bitrate e = (inl refl, refl)
settle false set_fails false s bitrate e = (inr (s, refl, e), refl)

-- For every bitrate that the options allow: a set-up of the encoder that succeeds has handed over a
-- target inside its envelope of rates, with no overflow, and so has a change to that bitrate later,
-- with the same keys; both free the configuration on every path.
pub encoder_rates :
    (codes : EncoderCodes) (c later : ConfigCalls) (o : EncoderOptions)
    → 100000 ≤ o.bitrate
    → o.bitrate ≤ 200000000
    → Settled (configure_encoder codes c o) o.bitrate
      × Settled (update_encoder_bitrate later o.bitrate) o.bitrate
unfolding configure_encoder update_encoder_bitrate
encoder_rates codes c later o lo hi = (
  settle c.get_fails c.set_fails c.init_fails _ o.bitrate
      (encoder_settings-Envelope codes c o lo hi),
  settle later.get_fails later.set_fails later.init_fails _ o.bitrate
      (bitrate_settings-Envelope o.bitrate lo hi),
)

-- A plane of the frame is padded to the next multiple of 16 rows.
pub align_16_exact :
    (height : ℕ)
    → height < 2 ^ 32 - 15
    → (align_16 height % 16 ≡ 0) × (height ≤ align_16 height) × (align_16 height < height + 16)
unfolding align_16
align_16_exact height h = (omega arith, omega arith, omega arith)
