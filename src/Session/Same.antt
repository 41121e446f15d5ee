-- ===== src/Session/Same.antt =====
-- What the parts of a round leave alone.
use remy_desk.Base.{◌≡◌, ◌∙◌, refl, inl, inr, true, false, arith, Bool-cases}
use remy_desk.Options.Command.{StreamOptions}
use remy_desk.Session.{Env, Session}
use remy_desk.Session.Setup.{needs_stage}
use remy_desk.Session.Round.{Meets, Step, and_then, capture, draw, fill_stage, draw_cursor, convert}

-- What no part of a round changes.
pub record Same (s s' : Session) : Type 0 where
  pub buffers : s'.buffers ≡ s.buffers
  pub frame_index : s'.frame_index ≡ s.frame_index

both : {s s' s'' : Session} → Same s s' → Same s' s'' → Same s s''
both a b = record { buffers = b.buffers ∙ a.buffers; frame_index = b.frame_index ∙ a.frame_index }

abbrev itself : (s : Session) → Same s s
itself s = record { buffers = refl; frame_index = refl }

and_then-Same :
    (s : Session) (a : Step) (next : Session → Step)
    → Same s a.1
    → ((s' : Session) → Same s' (next s').1)
    → Same s (and_then a next).1
unfolding and_then
and_then-Same s (true, s', l) next h k = both h (k s')
and_then-Same s (false, s', l) next h k = h

by_equation : (s : Session) {a b : Step} → a ≡ b → Same s b.1 → Same s a.1
by_equation s same h = rw same h

module _ (e : Env) (o : StreamOptions) (m : Meets) where
  capture-Same : (s : Session) → Same s (capture e o m s).1
  unfolding capture
  capture-Same s = record { buffers = ground arith; frame_index = ground arith }

  fill_stage-Same : (s : Session) → Same s (fill_stage e o m s).1
  unfolding fill_stage
  fill_stage-Same s = record { buffers = ground arith; frame_index = ground arith }

  draw_cursor-Same : (s : Session) → Same s (draw_cursor e o m s).1
  unfolding draw_cursor
  draw_cursor-Same s = record { buffers = ground arith; frame_index = ground arith }

  convert-Same : (s : Session) → Same s (convert e o m s).1
  unfolding convert
  convert-Same s = itself s

  draw-Same : (s : Session) → Same s (draw e o m s).1
  unfolding draw
  draw-Same s = elim (Bool-cases m.solid) [
    | inl solid ↦ rw (draw, solid) (itself s)
    | inr drawn ↦ elim (Bool-cases (needs_stage o)) [
      | inr plain ↦ rw (draw, drawn, plain) (convert-Same s)
      | inl staged ↦
          let filled = and_then (fill_stage e o m s) (draw_cursor e o m) in
          let equal : draw e o m s ≡ and_then filled (convert e o m) =
            rw (draw, drawn, staged) refl in
          by_equation s equal (
            and_then-Same s filled (convert e o m)
              (and_then-Same s (fill_stage e o m s) (draw_cursor e o m) (fill_stage-Same s)
                draw_cursor-Same)
              convert-Same)
    ]
  ]

  pub drawn-Same : (s : Session) → Same s (and_then (capture e o m s) (draw e o m)).1
  drawn-Same s = and_then-Same s (capture e o m s) (draw e o m) (capture-Same s) draw-Same
