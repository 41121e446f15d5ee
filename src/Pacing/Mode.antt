-- ===== src/Pacing/Mode.antt =====
-- When the stream runs at the idle rate: the mode against the events that led to it.
use remy_desk.Base.{
  ℕ, ◌+◌, ◌*◌, ◌≤◌, ◌<◌, ◌≡◌, refl, true, false, List, [], ◌∷◌, arith, Bool-cases, inl, inr, dec_lt,
}
use remy_desk.Pacing.{
  Timespec, Rates, Pace, Event, frame, activity, is_due, after_event, pace_after,
}
use remy_desk.Pacing.Clock.{nanoseconds, timespec_diff_ns_exact}

-- The last events are small frames, back to one at `since`.
pub data Quiet (bytes : ℕ) : List Event → Timespec → Type 0 where
  first :
      {size : ℕ} {now : Timespec} {past : List Event}
      → size ≤ bytes
      → Quiet bytes (frame size now ∷ past) now
  next :
      {size : ℕ} {now since : Timespec} {past : List Event}
      → size ≤ bytes
      → Quiet bytes past since
      → Quiet bytes (frame size now ∷ past) since

-- And one of them came so many nanoseconds after that.
pub data LongQuiet (bytes ns : ℕ) : List Event → Timespec → Type 0 where
  due :
      {size : ℕ} {now since : Timespec} {past : List Event}
      → size ≤ bytes
      → nanoseconds since + ns ≤ nanoseconds now
      → Quiet bytes past since
      → LongQuiet bytes ns (frame size now ∷ past) since
  still :
      {size : ℕ} {now since : Timespec} {past : List Event}
      → size ≤ bytes
      → LongQuiet bytes ns past since
      → LongQuiet bytes ns (frame size now ∷ past) since

pub is_due-true :
    (rates : Rates) (now since : Timespec)
    → is_due rates now since ≡ true
    → 0 < rates.idle_after_ms
    → nanoseconds since + rates.idle_after_ms * 1000000 ≤ nanoseconds now
unfolding is_due
is_due-true rates now since h lt = let d = timespec_diff_ns_exact now since in ground arith

-- What the state of the mode says of the events.
data Explained (rates : Rates) (events : List Event) (p : Pace) : Type 0 where
  loud : p.quiet_tracking ≡ false → p.idle_mode ≡ false → Explained rates events p
  quiet :
      {since : Timespec}
      → rates.dynamic_fps ≡ true
      → p.quiet_tracking ≡ true
      → p.idle_mode ≡ false
      → p.quiet_since ≡ since
      → Quiet rates.idle_frame_bytes events since
      → Explained rates events p
  idle :
      {since : Timespec}
      → rates.dynamic_fps ≡ true
      → p.quiet_tracking ≡ true
      → p.idle_mode ≡ true
      → p.quiet_since ≡ since
      → LongQuiet rates.idle_frame_bytes (rates.idle_after_ms * 1000000) events since
      → Explained rates events p

-- A frame in dynamic mode, on the three states.
frame_from_loud :
    (rates : Rates) (size : ℕ) (now : Timespec) (past : List Event) (p : Pace)
    → p.quiet_tracking ≡ false
    → p.idle_mode ≡ false
    → Explained rates (frame size now ∷ past) (after_event rates (frame size now) p)
unfolding after_event
frame_from_loud rates size now past p t i = elim (Bool-cases rates.dynamic_fps) [
  | inr off ↦ loud (ground arith) (ground arith)
  | inl on ↦ elim (dec_lt rates.idle_frame_bytes size) [
    | yes big ↦ loud (ground arith) (ground arith)
    | no small ↦
        quiet on (ground arith) (ground arith) (ground arith) (first {now = now} (omega arith))
  ]
]

frame_from_tracked :
    (rates : Rates) (size : ℕ) (now since : Timespec) (past : List Event) (p : Pace)
    → 0 < rates.idle_after_ms
    → rates.dynamic_fps ≡ true
    → p.quiet_tracking ≡ true
    → p.idle_mode ≡ false
    → p.quiet_since ≡ since
    → Quiet rates.idle_frame_bytes past since
    → Explained rates (frame size now ∷ past) (after_event rates (frame size now) p)
unfolding after_event
frame_from_tracked rates size now since past p lt on t i same q =
    elim (dec_lt rates.idle_frame_bytes size) [
      | yes big ↦ loud (ground arith) (ground arith)
      | no small ↦ elim (Bool-cases (is_due rates now p.quiet_since)) [
        | inl late ↦
            let waited = is_due-true rates now since (rw same at late) lt in
            idle on (ground arith) (ground arith) (ground arith) (due (omega arith) waited q)
        | inr early ↦ quiet on (ground arith) (ground arith) (ground arith) (next (omega arith) q)
      ]
    ]

frame_from_idle :
    (rates : Rates) (size : ℕ) (now since : Timespec) (past : List Event) (p : Pace)
    → rates.dynamic_fps ≡ true
    → p.quiet_tracking ≡ true
    → p.idle_mode ≡ true
    → p.quiet_since ≡ since
    → LongQuiet rates.idle_frame_bytes (rates.idle_after_ms * 1000000) past since
    → Explained rates (frame size now ∷ past) (after_event rates (frame size now) p)
unfolding after_event
frame_from_idle rates size now since past p on t i same q =
    elim (dec_lt rates.idle_frame_bytes size) [
      | yes big ↦ loud (ground arith) (ground arith)
      | no small ↦ idle on (ground arith) (ground arith) (ground arith) (still (omega arith) q)
    ]

after_event-Explained :
    (rates : Rates) (e : Event) (past : List Event) (p : Pace)
    → 0 < rates.idle_after_ms
    → Explained rates past p
    → Explained rates (e ∷ past) (after_event rates e p)
unfolding after_event
after_event-Explained rates activity past p lt x = loud refl refl
after_event-Explained rates (frame size now) past p lt (loud t i) =
    frame_from_loud rates size now past p t i
after_event-Explained rates (frame size now) past p lt (quiet {since} on t i same q) =
    frame_from_tracked rates size now since past p lt on t i same q
after_event-Explained rates (frame size now) past p lt (idle {since} on t i same q) =
    frame_from_idle rates size now since past p on t i same q

pace_after-Explained :
    (rates : Rates) (began : Timespec) (events : List Event)
    → 0 < rates.idle_after_ms
    → Explained rates events (pace_after rates began events)
unfolding pace_after
pace_after-Explained rates began [] lt = loud refl refl
pace_after-Explained rates began (e ∷ past) lt =
    after_event-Explained rates e past (pace_after rates began past) lt
      (pace_after-Explained rates began past lt)

-- Where `REMYDESK_IDLE_AFTER_MS` is not 0, the stream is in idle mode only if the last events are
-- small frames without input between them, one of which came at least that time after the first.
pub idle_mode-LongQuiet :
    (rates : Rates) (began : Timespec) (events : List Event)
    → 0 < rates.idle_after_ms
    → (pace_after rates began events).idle_mode ≡ true
    → (since : Timespec) × LongQuiet rates.idle_frame_bytes
        (rates.idle_after_ms * 1000000)
        events
        since
idle_mode-LongQuiet rates began events lt h = elim (pace_after-Explained rates began events lt) [
  | loud t i ↦ ground arith
  | quiet t o i same q ↦ ground arith
  | idle {since} t o i same q ↦ (since, q)
]
