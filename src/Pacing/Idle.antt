-- ===== src/Pacing/Idle.antt =====
-- The idle mode where the clock readings are in order.
use remy_desk.Base.{ℕ, ◌+◌, ◌*◌, ◌≤◌, ◌<◌, ◌≡◌, ◌↔◌, refl, true, List, [], ◌∷◌, arith}
use remy_desk.Pacing.{
  Timespec, Rates, Pace, Event, frame, activity, is_due, after_event, pace_after,
}
use remy_desk.Pacing.Clock.{nanoseconds, timespec_diff_ns_exact}
use remy_desk.Pacing.Mode.{Quiet, first, next, LongQuiet, due, still, idle_mode-LongQuiet}

-- The clock does not run backwards: it began at one time and was last seen at the other.
pub data Ordered (began : ℕ) : List Event → ℕ → Type 0 where
  started : Ordered began [] began
  input :
      {past : List Event} {last : ℕ}
      → Ordered began past last
      → Ordered began (activity ∷ past) last
  later :
      {size last : ℕ} {now : Timespec} {past : List Event}
      → last ≤ nanoseconds now
      → Ordered began past last
      → Ordered began (frame size now ∷ past) (nanoseconds now)

is_due-long :
    (rates : Rates) (now since : Timespec)
    → nanoseconds since + rates.idle_after_ms * 1000000 ≤ nanoseconds now
    → is_due rates now since ≡ true
unfolding is_due
is_due-long rates now since h = let d = timespec_diff_ns_exact now since in ground arith

frame_since :
    (rates : Rates) (size last : ℕ) (now : Timespec) (p : Pace)
    → last ≤ nanoseconds now
    → nanoseconds p.quiet_since ≤ last
    → nanoseconds (after_event rates (frame size now) p).quiet_since ≤ nanoseconds now
unfolding after_event
frame_since rates size last now p le before = ground arith

since_past :
    {began last : ℕ} {events : List Event} (rates : Rates) (start : Timespec)
    → began ≡ nanoseconds start
    → Ordered began events last
    → nanoseconds (pace_after rates start events).quiet_since ≤ last
unfolding pace_after after_event
since_past rates start e started = omega arith
since_past rates start e (input o) = since_past rates start e o
since_past rates start e (later {size} {last} {now} {past} le o) =
    frame_since rates size last now (pace_after rates start past) le (since_past rates start e o)

-- What a small frame does in dynamic mode.
frame_tracks :
    (rates : Rates) (size : ℕ) (now : Timespec) (p : Pace)
    → rates.dynamic_fps ≡ true
    → size ≤ rates.idle_frame_bytes
    → (after_event rates (frame size now) p).quiet_tracking ≡ true
unfolding after_event
frame_tracks rates size now p on small = ground arith

frame_stays :
    (rates : Rates) (size : ℕ) (now : Timespec) (p : Pace)
    → rates.dynamic_fps ≡ true
    → size ≤ rates.idle_frame_bytes
    → p.quiet_tracking ≡ true
    → (after_event rates (frame size now) p).quiet_since ≡ p.quiet_since
unfolding after_event
frame_stays rates size now p on small t = ground arith

frame_idles :
    (rates : Rates) (size : ℕ) (now : Timespec) (p : Pace)
    → rates.dynamic_fps ≡ true
    → size ≤ rates.idle_frame_bytes
    → p.quiet_tracking ≡ true
    → is_due rates now p.quiet_since ≡ true
    → (after_event rates (frame size now) p).idle_mode ≡ true
unfolding after_event
frame_idles rates size now p on small t late = ground arith

frame_idle_stays :
    (rates : Rates) (size : ℕ) (now : Timespec) (p : Pace)
    → rates.dynamic_fps ≡ true
    → size ≤ rates.idle_frame_bytes
    → p.idle_mode ≡ true
    → (after_event rates (frame size now) p).idle_mode ≡ true
unfolding after_event
frame_idle_stays rates size now p on small i = ground arith

Quiet-tracks :
    {events : List Event} {since : Timespec} (rates : Rates) (start : Timespec)
    → rates.dynamic_fps ≡ true
    → Quiet rates.idle_frame_bytes events since
    → (pace_after rates start events).quiet_tracking ≡ true
unfolding pace_after
Quiet-tracks rates start on (first {size} {now} {past} le) =
    frame_tracks rates size now (pace_after rates start past) on le
Quiet-tracks rates start on (next {size} {now} {since} {past} le q) =
    frame_tracks rates size now (pace_after rates start past) on le

Quiet-since :
    {began last : ℕ} {events : List Event} {since : Timespec} (rates : Rates) (start : Timespec)
    → rates.dynamic_fps ≡ true
    → began ≡ nanoseconds start
    → Ordered began events last
    → Quiet rates.idle_frame_bytes events since
    → nanoseconds (pace_after rates start events).quiet_since ≤ nanoseconds since
unfolding pace_after
Quiet-since rates start on e started q = elim q [ ]
Quiet-since rates start on e (input o) q = elim q [ ]
Quiet-since rates start on e (later {size} {last} {now} {past} low o) (first le) =
    frame_since rates size last now (pace_after rates start past) low (since_past rates start e o)
Quiet-since rates start on e (later {size} {last} {now} {past} low o) (next le q) =
    let tracking = Quiet-tracks rates start on q in
    let rest = Quiet-since rates start on e o q in
    rw (frame_stays rates size now (pace_after rates start past) on le tracking) rest

LongQuiet-idle_mode :
    {began last : ℕ} {events : List Event} {since : Timespec} (rates : Rates) (start : Timespec)
    → rates.dynamic_fps ≡ true
    → began ≡ nanoseconds start
    → Ordered began events last
    → LongQuiet rates.idle_frame_bytes (rates.idle_after_ms * 1000000) events since
    → (pace_after rates start events).idle_mode ≡ true
unfolding pace_after
LongQuiet-idle_mode rates start on e started q = elim q [ ]
LongQuiet-idle_mode rates start on e (input o) q = elim q [ ]
LongQuiet-idle_mode rates start on e (later {size} {last} {now} {past} low o) (due le long q) =
    let early = Quiet-since rates start on e o q in
    frame_idles rates size now (pace_after rates start past) on le (Quiet-tracks rates start on q)
      (is_due-long rates now (pace_after rates start past).quiet_since (omega arith))
LongQuiet-idle_mode rates start on e (later {size} {last} {now} {past} low o) (still le q) =
    frame_idle_stays rates size now (pace_after rates start past) on le
      (LongQuiet-idle_mode rates start on e o q)

-- With dynamic rates, a time to wait that is not 0 and clock readings in order, the stream is in
-- idle mode exactly if the last events are small frames without input between them, one of which
-- came at least that time after the first.
pub idle_mode_iff :
    {last : ℕ} {events : List Event} (rates : Rates) (start : Timespec)
    → rates.dynamic_fps ≡ true
    → 0 < rates.idle_after_ms
    → Ordered (nanoseconds start) events last
    → ((pace_after rates start events).idle_mode ≡ true) ↔ (
        (since : Timespec) × LongQuiet rates.idle_frame_bytes
          (rates.idle_after_ms * 1000000)
          events
          since)
idle_mode_iff {events} rates start on lt o = (
  idle_mode-LongQuiet rates start events lt,
  λ (since, q). LongQuiet-idle_mode rates start on refl o q,
)
