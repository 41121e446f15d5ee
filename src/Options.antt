-- ===== src/Options.antt =====
-- Options of native/desktop-streamer/drm_rga_mpp_stream.c: `env_long_range`, `parse_u32_arg`,
-- `parse_h264_profile_arg`. strtol and strtoul belong to libc: an argument says what they answer.
pub mod Ranges
pub mod Command
pub mod Accepted
mod Tests
use remy_desk.Base.{
  ℕ, ◌-◌, ◌^◌, Bool, true, false, ◌||◌, not, ltb, Option, none, some, List, if◌then◌else◌,
}
use remy_desk.Base.Int.{ℤ, pos, ltb_ℤ}

-- What strtol leaves: the number, whether errno is set, whether no character was read
-- (`end == value`), and whether characters are left (`*end`).
pub record Strtol : Type 0 where
  pub parsed : ℤ
  pub errno : Bool
  pub nothing_read : Bool
  pub rest : Bool

-- `none` is a variable that is not set or is empty.
unfoldable pub env_long_range : Option Strtol → ℤ → ℤ → ℤ → ℤ
env_long_range none fallback minimum maximum = fallback
env_long_range (some r) fallback minimum maximum =
    if r.errno || r.nothing_read || r.rest || ltb_ℤ r.parsed minimum || ltb_ℤ maximum r.parsed
    then fallback
    else r.parsed

-- What strtoul leaves; the function does not test whether a character was read.
pub record Strtoul : Type 0 where
  pub parsed : ℕ
  pub errno : Bool
  pub rest : Bool

-- `none` is -1; `some` the number that is stored.
unfoldable pub parse_u32_arg : Strtoul → Option ℕ
parse_u32_arg r = if r.errno || r.rest || ltb (2 ^ 32 - 1) r.parsed then none else some r.parsed

-- The names that the argument is compared with, and the name that is reported.
pub data ProfileWord : Type 0 where
  baseline_word constrained_baseline_word main_word high_word other_word : ProfileWord

pub data ProfileName : Type 0 where
  baseline main high custom : ProfileName

-- For a word that is none of the names, what strtol leaves of it; errno is not looked at.
unfoldable pub parse_h264_profile_arg : ProfileWord → Strtol → Option (ℤ × ProfileName)
parse_h264_profile_arg baseline_word r = some (pos 66, baseline)
parse_h264_profile_arg constrained_baseline_word r = some (pos 66, baseline)
parse_h264_profile_arg main_word r = some (pos 77, main)
parse_h264_profile_arg high_word r = some (pos 100, high)
parse_h264_profile_arg other_word r =
    if r.nothing_read || r.rest || ltb_ℤ r.parsed (pos 66) || ltb_ℤ (pos 244) r.parsed
    then none
    else some (r.parsed, custom)
