-- ===== src/Session/Balance.antt =====
-- The accounts of the loop and of a whole run.
use remy_desk.Base.{
  ℕ, suc, ◌+◌, ◌≡◌, refl, inl, inr, ap, Bool, true, false, List, [], ◌∷◌, arith, Bool-cases,
  Option-cases,
}
use remy_desk.Import.{Resource, Action}
use remy_desk.Import.Source.{ensure_src_import, ensure_cursor_import}
use remy_desk.Import.Balance.{
  taken, given, taken-append, given-append, src_held, ensure_src_import_balanced,
  ensure_cursor_import_balanced,
}
use remy_desk.Display.{get_crtc_capture_fb}
use remy_desk.Display.Planes.{find_cursor_plane}
use remy_desk.Encode.{encode_one_frame}
use remy_desk.Options.Command.{StreamOptions}
use remy_desk.Writer.{Traffic, Link, stream_writer_write}
use remy_desk.Session.{Env, Session, in_build}
use remy_desk.Session.Setup.{needs_stage}
use remy_desk.Session.Round.{
  Meets, Step, and_then, same_mode, capture, copy_stage, fill_stage, draw_cursor, convert, draw,
  begin_round, end_round, is_last, run_round,
}
use remy_desk.Session.Run.{tear_down, run_loop, last_turn, after_turn}
use remy_desk.Session.Held.{fixed, held, held-fixed}

module _ (f : Resource → Bool) (e : Env) (o : StreamOptions) where
  -- What the session held and what a step takes is what it holds and gives back.
  abbrev Kept : Session → Step → Type 0
  Kept s (ok, s', l) = held f e o s + taken f l ≡ held f e o s' + given f l

  by_equation : (s : Session) (a b : Step) → a ≡ b → Kept s b → Kept s a
  by_equation s a b same h = rw same h

  -- A step that takes and gives back nothing, and changes neither import nor what else is held.
  unchanged : (s s' : Session) (ok : Bool) → held f e o s' ≡ held f e o s → Kept s (ok, s', [])
  unfolding taken given
  unchanged s s' ok h = omega arith

  -- A step that changes the imports only.
  imports-Kept :
      (s s' : Session) (ok : Bool) (l : List Action)
      → fixed e o s' ≡ fixed e o s
      → src_held f e.handle_api s.cursor + src_held f e.handle_api s.src + taken f l
        ≡ src_held f e.handle_api s'.cursor + src_held f e.handle_api s'.src + given f l
      → Kept s (ok, s', l)
  imports-Kept s s' ok l same h =
      let before = held-fixed f e o s in
      let after = held-fixed f e o s' in let rest = ap (given f) same in omega arith

  and_then-Kept :
      (s : Session) (a : Step) (next : Session → Step)
      → Kept s a
      → ((s' : Session) → Kept s' (next s'))
      → Kept s (and_then a next)
  unfolding and_then
  and_then-Kept s (true, s', l) next h k =
      let t = taken-append f l (next s').2 in
      let g = given-append f l (next s').2 in let rest = k s' in omega arith
  and_then-Kept s (false, s', l) next h k = h

  capture-Kept : (m : Meets) (s : Session) → Kept s (capture e o m s)
  unfolding capture tear_down
  capture-Kept m s =
      let found = get_crtc_capture_fb m.drm s.try_fb2 s.crtc_id in
      elim (Option-cases found.0) [
        | inl lost ↦ rw (capture, lost) (unchanged s (record s { try_fb2 = found.1 }) false refl)
        | inr (cur, at) ↦
            let c = in_build e m.source in
            let (ok, src, l) = ensure_src_import c o.cpu_stage_on o.alpha_on s.src cur.fb in
            let sum = ensure_src_import_balanced f c o.cpu_stage_on o.alpha_on s.src cur.fb in
            elim (Bool-cases (same_mode cur.fb s.cap)) [
              | inl same ↦
                  rw (capture, at, same)
                    (imports-Kept s (record s { try_fb2 = found.1; src = src }) ok l refl
                      (omega arith))
              | inr other ↦
                  rw (capture, at, other) (unchanged s (record s { try_fb2 = found.1 }) false refl)
            ]
      ]

  fill_stage-Kept : (m : Meets) (s : Session) → Kept s (fill_stage e o m s)
  unfolding fill_stage tear_down
  fill_stage-Kept m s = elim (Bool-cases o.cpu_stage_on) [
    | inr rga ↦
        by_equation s (fill_stage e o m s) (m.copy_succeeds, s, []) (rw (fill_stage, rga) refl)
          (unchanged s s m.copy_succeeds refl)
    | inl cpu ↦ elim (Option-cases (copy_stage e m s)) [
      | inl refused ↦
          by_equation s (fill_stage e o m s) (false, s, []) (rw (fill_stage, cpu, refused) refl)
            (unchanged s s false refl)
      | inr (bytes, at) ↦
          by_equation s (fill_stage e o m s) (true, record s { stage_bytes = bytes }, [])
            (rw (fill_stage, cpu, at) refl)
            (unchanged s (record s { stage_bytes = bytes }) true refl)
    ]
  ]

  draw_cursor-Kept : (m : Meets) (s : Session) → Kept s (draw_cursor e o m s)
  unfolding draw_cursor tear_down
  draw_cursor-Kept m s = elim (Bool-cases o.cursor_enabled) [
    | inr off ↦
        by_equation s (draw_cursor e o m s) (true, s, []) (rw (draw_cursor, off) refl)
          (unchanged s s true refl)
    | inl on ↦ elim (Option-cases (find_cursor_plane m.plane_calls s.crtc_id s.try_fb2 m.planes)) [
      | inl lost ↦
          by_equation s (draw_cursor e o m s) (false, s, []) (rw (draw_cursor, on, lost) refl)
            (unchanged s s false refl)
      | inr ((p, try_fb2), at) ↦
          let c = in_build e m.pointer in
          let (ok, cursor, l) = ensure_cursor_import c p.state.active s.cursor p.fb in
          let sum = ensure_cursor_import_balanced f c p.state.active s.cursor p.fb in
          by_equation s (draw_cursor e o m s)
            (ok, record s { try_fb2 = try_fb2; cursor = cursor }, l) (rw (draw_cursor, on, at) refl)
            (imports-Kept s (record s { try_fb2 = try_fb2; cursor = cursor }) ok l refl
              (omega arith))
    ]
  ]

  convert-Kept : (m : Meets) (s : Session) → Kept s (convert e o m s)
  unfolding convert
  convert-Kept m s = unchanged s s (convert e o m s).0 refl

  draw-Kept : (m : Meets) (s : Session) → Kept s (draw e o m s)
  unfolding draw
  draw-Kept m s = elim (Bool-cases m.solid) [
    | inl solid ↦
        by_equation s (draw e o m s) (m.solid_mapped, s, []) (rw (draw, solid) refl)
          (unchanged s s m.solid_mapped refl)
    | inr drawn ↦ elim (Bool-cases (needs_stage o)) [
      | inr plain ↦
          by_equation s (draw e o m s) (convert e o m s) (rw (draw, drawn, plain) refl)
            (convert-Kept m s)
      | inl staged ↦
          let filled = and_then (fill_stage e o m s) (draw_cursor e o m) in
          by_equation s (draw e o m s) (and_then filled (convert e o m))
            (rw (draw, drawn, staged) refl)
            (and_then-Kept s filled (convert e o m)
              (and_then-Kept s (fill_stage e o m s) (draw_cursor e o m) (fill_stage-Kept m s)
                (draw_cursor-Kept m))
              (convert-Kept m))
    ]
  ]

  -- A round, and the loop.
  round_kept :
      (traffic : ℕ → Traffic) (m : Meets) (s : Session) (link : Link)
      → let t = run_round traffic e o m s link in
        held f e o s + taken f t.actions ≡ held f e o t.session + given f t.actions
  unfolding run_round begin_round end_round tear_down
  round_kept traffic m s link =
      let (s1, link1) = begin_round e m s link in
      let step = and_then (capture e o m s1) (draw e o m) in
      let drawn =
        and_then-Kept s1 (capture e o m s1) (draw e o m) (capture-Kept m s1) (draw-Kept m) in
      let out = encode_one_frame (stream_writer_write traffic) m.mpp link1 in
      elim (Bool-cases step.0) [
        | inr failed ↦ rw (run_round, failed) drawn
        | inl ok ↦ elim (Bool-cases out.returns_zero) [
          | inr refused ↦ rw (run_round, ok, refused) drawn
          | inl encoded ↦ elim (Bool-cases (is_last o (suc step.1.frame_index))) [
            | inl last ↦ rw (run_round, ok, encoded, last) drawn
            | inr more ↦ rw (run_round, ok, encoded, more) drawn
          ]
        ]
      ]

  pub loop_kept :
      (traffic : ℕ → Traffic) (rounds : List Meets) (s : Session) (link : Link)
      → let x = run_loop traffic e o rounds s link in
        held f e o s + taken f x.actions ≡ held f e o x.session + given f x.actions
  unfolding run_loop last_turn after_turn
  loop_kept traffic [] s link = unchanged s s true refl
  loop_kept traffic (m ∷ later) s link =
      let t = run_round traffic e o m s link in
      let one = round_kept traffic m s link in
      let rest = loop_kept traffic later t.session t.link in
      let more = run_loop traffic e o later t.session t.link in
      let a = taken-append f t.actions more.actions in
      let b = given-append f t.actions more.actions in
      elim (Bool-cases t.goes_on) [
        | inr ends ↦ rw (run_loop, ends) one
        | inl goes ↦ rw (run_loop, goes) (omega arith)
      ]
