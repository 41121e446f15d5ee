-- ===== src/Options/Ranges.antt =====
-- What the options can hold behind the parsers.
use remy_desk.Base.{◌≡◌, Option, none, some, arith}
use remy_desk.Base.Int.{ℤ, pos, ◌≤ℤ◌}
use remy_desk.Options.{Strtol, env_long_range, ProfileWord, ProfileName, parse_h264_profile_arg}

-- With a fallback in range, whatever the variable holds, the number is in range.
pub env_long_range_bounds :
    (answer : Option Strtol) (fallback minimum maximum : ℤ)
    → minimum ≤ℤ fallback
    → fallback ≤ℤ maximum
    → (minimum ≤ℤ env_long_range answer fallback minimum maximum)
      × (env_long_range answer fallback minimum maximum ≤ℤ maximum)
unfolding env_long_range
env_long_range_bounds none fallback minimum maximum low high = (low, high)
env_long_range_bounds (some r) fallback minimum maximum low high = (ground arith, ground arith)

-- A profile that is accepted lies from 66 to 244, whether it is given by name or by number.
pub parse_h264_profile_arg_bounds :
    (word : ProfileWord) (r : Strtol) (profile : ℤ) (name : ProfileName)
    → parse_h264_profile_arg word r ≡ some (profile, name)
    → (pos 66 ≤ℤ profile) × (profile ≤ℤ pos 244)
unfolding parse_h264_profile_arg
parse_h264_profile_arg_bounds word r profile name e = (ground arith, ground arith)
