-- ===== src/Session/Mode.antt =====
-- What the stream shows: the frames that are encoded are of the mode that the set-up found.
use remy_desk.Base.{
  ℕ, suc, ◌≡◌, ◌∙◌, ap, refl, inl, inr, true, false, Option, some, [], ◌∷◌, arith, Bool-cases,
  Option-cases,
}
use remy_desk.Import.{CaptureFb}
use remy_desk.Import.Source.{is_current, ensure_src_import}
use remy_desk.Import.Current.{ensure_src_import-Settled}
use remy_desk.Import.EncodeBuffers.{EncodeBuffer}
use remy_desk.Display.{Display, get_crtc_capture_fb}
use remy_desk.Display.Planes.{find_cursor_plane}
use remy_desk.Encode.{encode_one_frame}
use remy_desk.Options.Command.{StreamOptions}
use remy_desk.Writer.{Traffic, Link, stream_writer_write}
use remy_desk.Session.{Env, Session, in_build}
use remy_desk.Session.Setup.{needs_stage}
use remy_desk.Session.Round.{
  Meets, Step, and_then, same_mode, capture, copy_stage, fill_stage, draw_cursor, convert, draw,
  is_last, begin_round, end_round, run_round,
}

-- The source of the session is a framebuffer of so many pixels and of a format.
pub record Shows (cap : CaptureFb) (s : Session) : Type 0 where
  pub width : s.src.fb.width ≡ cap.width
  pub height : s.src.fb.height ≡ cap.height
  pub fourcc : s.src.fb.fourcc ≡ cap.fourcc
  pub kept : s.cap ≡ cap

-- The screen has been found, with a framebuffer of so many pixels and of a format.
pub record Screen (m : Meets) (s : Session) : Type 0 where
  pub found : Display
  pub is_found : (get_crtc_capture_fb m.drm s.try_fb2 s.crtc_id).0 ≡ some found
  pub width : found.fb.width ≡ s.cap.width
  pub height : found.fb.height ≡ s.cap.height
  pub fourcc : found.fb.fourcc ≡ s.cap.fourcc

screen :
    (m : Meets) (s : Session) (cur : Display)
    → (get_crtc_capture_fb m.drm s.try_fb2 s.crtc_id).0 ≡ some cur
    → same_mode cur.fb s.cap ≡ true
    → Screen m s
unfolding same_mode
screen m s cur at same = record {
  found = cur;
  is_found = at;
  width = ground arith;
  height = ground arith;
  fourcc = ground arith;
}

shown :
    (cap cur : CaptureFb) (s : Session)
    → same_mode cur cap ≡ true
    → is_current s.src cur ≡ true
    → s.cap ≡ cap
    → Shows cap s
unfolding same_mode is_current
shown cap cur s same current kept = record {
  width = ground arith;
  height = ground arith;
  fourcc = ground arith;
  kept = kept;
}

-- What drawing leaves alone.
record Drawn (s s' : Session) : Type 0 where
  src : s'.src ≡ s.src
  cap : s'.cap ≡ s.cap

abbrev itself : (s : Session) → Drawn s s
itself s = record { src = refl; cap = refl }

and_then-Drawn :
    (s : Session) (a : Step) (next : Session → Step)
    → Drawn s a.1
    → ((s' : Session) → Drawn s' (next s').1)
    → Drawn s (and_then a next).1
unfolding and_then
and_then-Drawn s (true, s', l) next h k =
    let rest = k s' in record { src = rest.src ∙ h.src; cap = rest.cap ∙ h.cap }
and_then-Drawn s (false, s', l) next h k = h

by_equation : (s : Session) {a b : Step} → a ≡ b → Drawn s b.1 → Drawn s a.1
by_equation s same h = rw same h

still_shown : (cap : CaptureFb) (s s' : Session) → Shows cap s → Drawn s s' → Shows cap s'
still_shown cap s s' x d = record {
  width = ap (λ i. i.fb.width) d.src ∙ x.width;
  height = ap (λ i. i.fb.height) d.src ∙ x.height;
  fourcc = ap (λ i. i.fb.fourcc) d.src ∙ x.fourcc;
  kept = d.cap ∙ x.kept;
}

module _ (e : Env) (o : StreamOptions) (m : Meets) where
  capture-Shows : (s : Session) → (capture e o m s).0 ≡ true → Shows s.cap (capture e o m s).1
  unfolding capture
  capture-Shows s h =
      let found = get_crtc_capture_fb m.drm s.try_fb2 s.crtc_id in
      elim (Option-cases found.0) [
        | inl lost ↦ let no = rw (capture, lost) at h in ground arith
        | inr (cur, at) ↦
            let c = in_build e m.source in
            let done = ensure_src_import c o.cpu_stage_on o.alpha_on s.src cur.fb in
            elim (Bool-cases (same_mode cur.fb s.cap)) [
              | inr other ↦ let no = rw (capture, at, other) at h in ground arith
              | inl same ↦
                  elim (ensure_src_import-Settled c o.cpu_stage_on o.alpha_on s.src cur.fb) [
                    | inr (failed, _) ↦ let no = rw (capture, at, same, failed) at h in ground arith
                    | inl (ok, current) ↦
                        rw (capture, at, same)
                          (shown s.cap cur.fb (record s { src = done.1; try_fb2 = found.1 }) same
                            current refl)
                  ]
            ]
      ]

  capture-Screen : (s : Session) → (capture e o m s).0 ≡ true → Screen m s
  unfolding capture
  capture-Screen s h =
      let found = get_crtc_capture_fb m.drm s.try_fb2 s.crtc_id in
      elim (Option-cases found.0) [
        | inl lost ↦ let no = rw (capture, lost) at h in absurd (ground arith)
        | inr (cur, at) ↦ elim (Bool-cases (same_mode cur.fb s.cap)) [
          | inr other ↦ let no = rw (capture, at, other) at h in absurd (ground arith)
          | inl same ↦ screen m s cur at same
        ]
      ]

  fill_stage-Drawn : (s : Session) → Drawn s (fill_stage e o m s).1
  unfolding fill_stage
  fill_stage-Drawn s = elim (Bool-cases o.cpu_stage_on) [
    | inr rga ↦ rw (fill_stage, rga) (itself s)
    | inl cpu ↦ elim (Option-cases (copy_stage e m s)) [
      | inl bad ↦ rw (fill_stage, cpu, bad) (itself s)
      | inr (bytes, at) ↦ rw (fill_stage, cpu, at) (record { src = refl; cap = refl })
    ]
  ]

  draw_cursor-Drawn : (s : Session) → Drawn s (draw_cursor e o m s).1
  unfolding draw_cursor
  draw_cursor-Drawn s = elim (Bool-cases o.cursor_enabled) [
    | inr off ↦ rw (draw_cursor, off) (itself s)
    | inl on ↦ elim (Option-cases (find_cursor_plane m.plane_calls s.crtc_id s.try_fb2 m.planes)) [
      | inl lost ↦ rw (draw_cursor, on, lost) (itself s)
      | inr (x, at) ↦ rw (draw_cursor, on, at) (record { src = refl; cap = refl })
    ]
  ]

  draw-Drawn : (s : Session) → Drawn s (draw e o m s).1
  unfolding draw convert
  draw-Drawn s = elim (Bool-cases m.solid) [
    | inl solid ↦ rw (draw, solid) (itself s)
    | inr drawn ↦ elim (Bool-cases (needs_stage o)) [
      | inr plain ↦ rw (draw, drawn, plain) (itself s)
      | inl staged ↦
          let filled = and_then (fill_stage e o m s) (draw_cursor e o m) in
          let equal : draw e o m s ≡ and_then filled (convert e o m) =
            rw (draw, drawn, staged) refl in
          by_equation s equal (
            and_then-Drawn s filled (convert e o m)
              (and_then-Drawn s (fill_stage e o m s) (draw_cursor e o m) (fill_stage-Drawn s)
                draw_cursor-Drawn)
              itself)
    ]
  ]

  both_went_on :
      (a : Step) (next : Session → Step)
      → (and_then a next).0 ≡ true
      → (a.0 ≡ true) × ((and_then a next).1 ≡ (next a.1).1)
  unfolding and_then
  both_went_on (true, s, l) next h = (refl, refl)
  both_went_on (false, s, l) next h = ground arith

  drawn-Shows :
      (s : Session)
      → (and_then (capture e o m s) (draw e o m)).0 ≡ true
      → Shows s.cap (and_then (capture e o m s) (draw e o m)).1
  drawn-Shows s h =
      let (ok, same) = both_went_on (capture e o m s) (draw e o m) h in
      rw same (
        still_shown s.cap (capture e o m s).1 (draw e o m (capture e o m s).1).1
          (capture-Shows s ok) (draw-Drawn (capture e o m s).1))

step_screen :
    (e : Env) (o : StreamOptions) (m : Meets) (s : Session)
    → (and_then (capture e o m s) (draw e o m)).0 ≡ true
    → Screen m s
step_screen e o m s h =
    capture-Screen e o m s (both_went_on e o m (capture e o m s) (draw e o m) h).0

submitted_screen :
    (traffic : ℕ → Traffic) (e : Env) (o : StreamOptions) (m : Meets) (s : Session) (link : Link)
    (b : Option EncodeBuffer)
    → (run_round traffic e o m s link).submitted ≡ b ∷ []
    → Screen m s
unfolding run_round begin_round
submitted_screen traffic e o m s link b h =
    let s1 = (begin_round e m s link).0 in
    elim (Bool-cases (and_then (capture e o m s1) (draw e o m)).0) [
      | inr bad ↦ let no = rw (run_round, bad) at h in absurd (ground arith)
      | inl ok ↦
          let x = step_screen e o m s1 ok in
          record {
            found = x.found;
            is_found = x.is_found;
            width = x.width;
            height = x.height;
            fourcc = x.fourcc;
          }
    ]

round-Shows :
    (traffic : ℕ → Traffic) (e : Env) (o : StreamOptions) (m : Meets) (s : Session) (link : Link)
    (b : Option EncodeBuffer)
    → (run_round traffic e o m s link).submitted ≡ b ∷ []
    → Shows s.cap (run_round traffic e o m s link).session
unfolding run_round begin_round end_round
round-Shows traffic e o m s link b h =
    let (s1, link1) = begin_round e m s link in
    let step = and_then (capture e o m s1) (draw e o m) in
    let out = encode_one_frame (stream_writer_write traffic) m.mpp link1 in
    elim (Bool-cases step.0) [
      | inr bad ↦ let no = rw (run_round, bad) at h in ground arith
      | inl ok ↦
          let x = drawn-Shows e o m s1 ok in
          let same : Shows s.cap step.1 = x in
          elim (Bool-cases out.returns_zero) [
            | inr refused ↦ rw (run_round, ok, refused) same
            | inl encoded ↦ elim (Bool-cases (is_last o (suc step.1.frame_index))) [
              | inl ends ↦
                  rw (run_round, ok, encoded, ends)
                    (record {
                      width = same.width;
                      height = same.height;
                      fourcc = same.fourcc;
                      kept = same.kept;
                    })
              | inr goes ↦
                  rw (run_round, ok, encoded, goes)
                    (record {
                      width = same.width;
                      height = same.height;
                      fourcc = same.fourcc;
                      kept = same.kept;
                    })
            ]
          ]
    ]

-- A frame goes to the encoder only in a round that has found the screen with a framebuffer of the
-- width, the height and the format of the session; behind the round the import is of such a
-- framebuffer, and the session's mode is the one from before it.
pub submitted-Shows :
    (traffic : ℕ → Traffic) (e : Env) (o : StreamOptions) (m : Meets) (s : Session) (link : Link)
    (b : Option EncodeBuffer)
    → (run_round traffic e o m s link).submitted ≡ b ∷ []
    → Screen m s × Shows s.cap (run_round traffic e o m s link).session
submitted-Shows traffic e o m s link b h =
    (submitted_screen traffic e o m s link b h, round-Shows traffic e o m s link b h)
