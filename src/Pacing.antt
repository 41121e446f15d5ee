-- ===== src/Pacing.antt =====
-- The clock and the frame rate of native/desktop-streamer/drm_rga_mpp_stream.c: `add_ns`,
-- `timespec_diff_ns`, `timespec_cmp`, and what `main` does with them around each frame: the mode of
-- `REMYDESK_DYNAMIC_FPS` and the deadline of the next frame. The clock is CLOCK_MONOTONIC, so times
-- are numbers; `long` and `int64_t` are taken not to overflow.
pub mod Clock
pub mod Mode
pub mod Idle
mod Tests
use remy_desk.Base.{
  ℕ, zero, suc, ◌+◌, ◌-◌, ◌*◌, ◌/◌, Bool, true, false, ◌&&◌, not, ltb, leb, ◌==◌, List, [], ◌∷◌,
  if◌then◌else◌,
}
use remy_desk.Base.Int.{ℤ, pos, negsuc, sub_ℕ, ◌+ℤ◌, ◌*ℤ◌, ltb_ℤ}

abbrev pub second : ℕ
second = 1000000000

pub record Timespec : Type 0 where
  pub sec : ℕ
  pub nsec : ℕ

abbrev pub time : ℕ → ℕ → Timespec
time s n = record { sec = s; nsec = n }

-- The loop of `add_ns`, for so many rounds at most.
unfoldable pub carry : ℕ → ℕ → ℕ → Timespec
carry zero s n = time s n
carry (suc rounds) s n =
    let rest = carry rounds (s + 1) (n - second) in if leb second n then rest else time s n

-- Every round takes a second off, so there are as many rounds as seconds.
unfoldable pub add_ns : Timespec → ℕ → Timespec
add_ns t ns = carry ((t.nsec + ns) / second) t.sec (t.nsec + ns)

unfoldable pub timespec_diff_ns : Timespec → Timespec → ℤ
timespec_diff_ns later earlier =
    sub_ℕ later.sec earlier.sec *ℤ pos second +ℤ sub_ℕ later.nsec earlier.nsec

unfoldable pub timespec_cmp : Timespec → Timespec → ℤ
timespec_cmp a b =
    if not (a.sec == b.sec)
    then (if ltb a.sec b.sec then negsuc 0 else pos 1)
    else if not (a.nsec == b.nsec)
    then (if ltb a.nsec b.nsec then negsuc 0 else pos 1)
    else pos 0

-- The deadline of the next frame: the last one plus the interval, or now if that is past.
unfoldable pub next_deadline : Timespec → ℕ → Timespec → Timespec
next_deadline deadline interval now =
    let next = add_ns deadline interval in
    if ltb_ℤ (pos 0) (timespec_cmp next now) then next else now

-- What the options fix: the rates and the two bounds of the idle mode.
pub record Rates : Type 0 where
  pub dynamic_fps : Bool
  pub fps : ℕ
  pub idle_fps : ℕ
  pub idle_after_ms : ℕ
  pub idle_frame_bytes : ℕ

pub record Pace : Type 0 where
  pub quiet_since : Timespec
  pub quiet_tracking : Bool
  pub idle_mode : Bool

-- What the mode depends on: a frame of so many bytes was encoded, the clock then showing this time;
-- and a signal reported input.
pub data Event : Type 0 where
  frame : ℕ → Timespec → Event
  activity : Event

abbrev pub start_pace : Timespec → Pace
start_pace now = record { quiet_since = now; quiet_tracking = false; idle_mode = false }

unfoldable pub is_due : Rates → Timespec → Timespec → Bool
is_due rates now since =
    not (ltb_ℤ (timespec_diff_ns now since) (pos (rates.idle_after_ms * 1000000)))

unfoldable pub after_event : Rates → Event → Pace → Pace
after_event rates (frame bytes now) p =
    if not rates.dynamic_fps
    then p
    else if leb bytes rates.idle_frame_bytes
    then if not p.quiet_tracking
      then record p { quiet_since = now; quiet_tracking = true }
      else if not p.idle_mode && is_due rates now p.quiet_since
      then record p { idle_mode = true }
      else p
    else record p { quiet_tracking = false; idle_mode = false }
after_event rates activity p = record p { quiet_tracking = false; idle_mode = false }

-- The mode after some events, the newest first.
unfoldable pub pace_after : Rates → Timespec → List Event → Pace
pace_after rates now [] = start_pace now
pace_after rates now (e ∷ past) = after_event rates e (pace_after rates now past)

-- The time between two frames.
unfoldable pub interval : Rates → Pace → ℕ
interval rates p = second / (if p.idle_mode then rates.idle_fps else rates.fps)
