-- ===== src/Session/Limits.antt =====
-- Which buffers go to the encoder, and how many frames.
use remy_desk.Base.{
  ℕ, zero, ◌⊎◌, suc, ◌+◌, ◌%◌, ◌≤◌, ◌<◌, ◌≡◌, ap, refl, inl, inr, true, false, Option, some, List,
  [], ◌∷◌, length, get_elem?, arith, Bool-cases,
}
use remy_desk.Base.Int.{pos, pos_part}
use remy_desk.Import.EncodeBuffers.{EncodeBuffer}
use remy_desk.Encode.{encode_one_frame}
use remy_desk.Options.Command.{StreamOptions}
use remy_desk.Writer.{Traffic, Link, stream_writer_write}
use remy_desk.Session.{Env, Session}
use remy_desk.Session.Round.{
  Meets, Turn, and_then, capture, draw, input_buffer, is_last, begin_round, end_round, run_round,
}
use remy_desk.Session.Same.{drawn-Same}
use remy_desk.Session.Run.{run_loop, last_turn, after_turn}

-- What a round does with the buffers and the count of frames: it fails in front of the encoder; the
-- encoder fails; the frame is the last; or another follows.
data Outcome (o : StreamOptions) (s : Session) (t : Turn) : Type 0 where
  failed :
      t.goes_on ≡ false → t.submitted ≡ [] → t.session.frame_index ≡ s.frame_index → Outcome o s t
  refused :
      t.goes_on ≡ false
      → t.submitted ≡ input_buffer o s ∷ []
      → t.session.frame_index ≡ s.frame_index
      → Outcome o s t
  last :
      t.goes_on ≡ false
      → t.submitted ≡ input_buffer o s ∷ []
      → t.session.frame_index ≡ suc s.frame_index
      → Outcome o s t
  more :
      t.goes_on ≡ true
      → t.submitted ≡ input_buffer o s ∷ []
      → t.session.frame_index ≡ suc s.frame_index
      → t.session.buffers ≡ s.buffers
      → is_last o (suc s.frame_index) ≡ false
      → Outcome o s t

module _ (traffic : ℕ → Traffic) (e : Env) (o : StreamOptions) where
  round_outcome :
      (m : Meets) (s : Session) (link : Link) → Outcome o s (run_round traffic e o m s link)
  unfolding run_round begin_round end_round input_buffer
  round_outcome m s link =
      let (s1, link1) = begin_round e m s link in
      let step = and_then (capture e o m s1) (draw e o m) in
      let kept = drawn-Same e o m s1 in
      let out = encode_one_frame (stream_writer_write traffic) m.mpp link1 in
      let index : step.1.frame_index ≡ s.frame_index = kept.frame_index in
      let buffers : step.1.buffers ≡ s.buffers = kept.buffers in
      let used : input_buffer o step.1 ∷ [] ≡ input_buffer o s ∷ [] = rw (index, buffers) refl in
      elim (Bool-cases step.0) [
        | inr bad ↦ rw (run_round, bad) (failed refl refl index)
        | inl ok ↦ elim (Bool-cases out.returns_zero) [
          | inr no_packet ↦ rw (run_round, ok, no_packet) (refused refl used index)
          | inl encoded ↦ elim (Bool-cases (is_last o (suc step.1.frame_index))) [
            | inl ends ↦ rw (run_round, ok, encoded, ends) (last refl used (ap suc index))
            | inr goes ↦
                rw (run_round, ok, encoded, goes)
                  (more refl used (ap suc index) buffers (rw index at goes))
          ]
        ]
      ]

  pub stops :
      (m : Meets) (later : List Meets) (s : Session) (link : Link)
      → let t = run_round traffic e o m s link in
        t.goes_on ≡ false → run_loop traffic e o (m ∷ later) s link ≡ last_turn t
  unfolding run_loop
  stops m later s link ends = rw (run_loop, ends) refl

  pub goes :
      (m : Meets) (later : List Meets) (s : Session) (link : Link)
      → let t = run_round traffic e o m s link in
        t.goes_on ≡ true
        → run_loop traffic e o (m ∷ later) s link
          ≡ after_turn t (run_loop traffic e o later t.session t.link)
  unfolding run_loop
  goes m later s link on = rw (run_loop, on) refl

  only :
      (s : Session) (l : List (Option EncodeBuffer)) (k : ℕ) (b : Option EncodeBuffer)
      → l ≡ input_buffer o s ∷ []
      → get_elem? l k ≡ some b
      → b ≡ get_elem? s.buffers ((s.frame_index + k) % pos_part o.buffers)
  unfolding input_buffer
  only s l zero b same h = ground arith
  only s l (suc k) b same h = ground arith

  cons_at :
      (a : Option EncodeBuffer) (l : List (Option EncodeBuffer)) (k : ℕ) (b : Option EncodeBuffer)
      → get_elem? (a ∷ l) k ≡ some b
      → ((k ≡ 0) × (b ≡ a)) ⊎ ((j : ℕ) × (k ≡ suc j) × (get_elem? l j ≡ some b))
  cons_at a l zero b h = inl (refl, ground arith)
  cons_at a l (suc j) b h = inr (j, refl, h)

  -- The buffers that go to the encoder follow one another around the array.
  pub submitted_at :
      (rounds : List Meets) (s : Session) (link : Link) (k : ℕ) (b : Option EncodeBuffer)
      → get_elem? (run_loop traffic e o rounds s link).submitted k ≡ some b
      → b ≡ get_elem? s.buffers ((s.frame_index + k) % pos_part o.buffers)
  unfolding run_loop last_turn after_turn
  submitted_at [] s link k b h = ground arith
  submitted_at (m ∷ later) s link k b h =
      let t = run_round traffic e o m s link in
      elim (round_outcome m s link) [
        | failed ends none_used index ↦
            let l = rw (stops m later s link ends, none_used) at h in ground arith
        | refused ends used index ↦
            only s t.submitted k b used (rw (stops m later s link ends) at h)
        | last ends used index ↦ only s t.submitted k b used (rw (stops m later s link ends) at h)
        | more on used index buffers not_last ↦
            let l = rw (goes m later s link on, used) at h in
            elim (cons_at (input_buffer o s) _ k b l) [
              | inl (first, at) ↦ rw (first, at) (only s (input_buffer o s ∷ []) 0 _ refl refl)
              | inr (j, next, at) ↦
                  let rest = submitted_at later t.session t.link j b at in
                  let shift : suc s.frame_index + j ≡ s.frame_index + k = omega arith in
                  rw shift at rw (index, buffers) at rest
            ]
      ]

  below_limit :
      (n frames : ℕ) → o.frame_limit ≡ pos n → is_last o frames ≡ false → 0 < n → frames < n
  unfolding is_last
  below_limit n frames limit h lt = let l = rw limit at h in ground arith

  -- With a limit that is not reached yet, the loop never encodes more frames.
  pub loop_limit :
      (rounds : List Meets) (s : Session) (link : Link) (n : ℕ)
      → o.frame_limit ≡ pos n
      → s.frame_index < n
      → let x = run_loop traffic e o rounds s link in
        (x.session.frame_index ≤ n) × (s.frame_index + length x.submitted ≤ n)
  unfolding run_loop last_turn after_turn
  loop_limit [] s link n limit lt = (omega arith, omega arith)
  loop_limit (m ∷ later) s link n limit lt =
      let t = run_round traffic e o m s link in
      elim (round_outcome m s link) [
        | failed ends used index ↦ rw (stops m later s link ends, used) (omega arith, omega arith)
        | refused ends used index ↦ rw (stops m later s link ends, used) (omega arith, omega arith)
        | last ends used index ↦ rw (stops m later s link ends, used) (omega arith, omega arith)
        | more on used index buffers not_last ↦
            let below : suc s.frame_index < n =
              below_limit n (suc s.frame_index) limit not_last (omega arith) in
            let (a, b) = loop_limit later t.session t.link n limit (omega arith) in
            rw (goes m later s link on, used) (a, omega arith)
      ]
