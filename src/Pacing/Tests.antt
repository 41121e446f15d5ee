-- ===== src/Pacing/Tests.antt =====
-- Witnesses and tests of the clock and the idle mode.
use remy_desk.Base.{◌≡◌, ◌↔◌, refl, true, false, List, [], ◌∷◌, arith}
use remy_desk.Base.Int.{◌+ℤ◌, ◌*ℤ◌}
use remy_desk.Pacing.{
  Timespec, time, Rates, Event, frame, activity, pace_after, after_event, is_due, timespec_diff_ns,
  timespec_cmp, add_ns, carry, next_deadline,
}
use remy_desk.Pacing.Clock.{nanoseconds, IsNormal}
use remy_desk.Pacing.Mode.{LongQuiet}
use remy_desk.Pacing.Idle.{Ordered, started, later, idle_mode_iff}

abbrev rates : Rates
rates = record {
  dynamic_fps = true;
  fps = 30;
  idle_fps = 8;
  idle_after_ms = 3000;
  idle_frame_bytes = 12000;
}

abbrev half_past : Timespec
half_past = time 1 500000000

-- Three seconds lie between two small frames.
abbrev calm_screen : List Event
calm_screen = frame 90 (time 5 0) ∷ frame 100 (time 2 0) ∷ []

calm_screen_is_idle : (pace_after rates half_past calm_screen).idle_mode ≡ true
unfolding pace_after after_event is_due timespec_diff_ns ◌*ℤ◌ ◌+ℤ◌
calm_screen_is_idle = refl

input_ends_idle : (pace_after rates half_past (activity ∷ calm_screen)).idle_mode ≡ false
unfolding pace_after after_event
input_ends_idle = refl

two_seconds_on : add_ns half_past 1700000000 ≡ time 3 200000000
unfolding add_ns carry
two_seconds_on = refl

late_frame : next_deadline half_past 33333333 (time 2 0) ≡ time 2 0
unfolding next_deadline add_ns carry timespec_cmp
late_frame = refl

before-IsNormal : IsNormal (time 1 499999999)
unfolding IsNormal
before-IsNormal = omega arith

half_past-IsNormal : IsNormal half_past
unfolding IsNormal
half_past-IsNormal = omega arith

calm_screen-Ordered : Ordered (nanoseconds half_past) calm_screen (nanoseconds (time 5 0))
calm_screen-Ordered = later (omega arith) (later (omega arith) started)

idle_mode_iff_example :
    ((pace_after rates half_past calm_screen).idle_mode ≡ true)
    ↔ ((since : Timespec) × LongQuiet 12000 3000000000 calm_screen since)
idle_mode_iff_example = idle_mode_iff rates half_past refl (omega arith) calm_screen-Ordered
