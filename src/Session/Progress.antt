-- ===== src/Session/Progress.antt =====
-- A run in which nothing fails.
use remy_desk.Base.{
  ℕ, suc, ◌+◌, ◌≤◌, ◌<◌, ◌≡◌, ◌⊎◌, refl, inl, inr, true, false, List, [], ◌∷◌, length,
  length-append, arith, Bool-cases,
}
use remy_desk.Base.Int.{pos}
use remy_desk.Encode.{encode_one_frame}
use remy_desk.Options.Command.{StreamOptions}
use remy_desk.Writer.{Traffic, Link, stream_writer_write}
use remy_desk.Session.{Env, Session}
use remy_desk.Session.Round.{
  Meets, Turn, and_then, capture, draw, is_last, begin_round, end_round, run_round,
}
use remy_desk.Session.Run.{run_loop, last_turn, after_turn}
use remy_desk.Session.Same.{drawn-Same}
use remy_desk.Session.Limits.{stops, goes}

-- In each round the screen is captured and drawn, and the encoder gives a frame that is written.
pub data Succeeds (traffic : ℕ → Traffic) (e : Env) (o : StreamOptions)
    : List Meets → Session → Link → Type 0 where
  at_end : {s : Session} {link : Link} → Succeeds traffic e o [] s link
  one_frame :
      {m : Meets} {later : List Meets} {s : Session} {link : Link}
      → (let s1 = (begin_round e m s link).0 in (and_then (capture e o m s1) (draw e o m)).0 ≡ true)
      → (encode_one_frame
          (stream_writer_write traffic)
          m.mpp
          (begin_round e m s link).1).returns_zero
        ≡ true
      → Succeeds traffic e o later
          (run_round traffic e o m s link).session
          (run_round traffic e o m s link).link
      → Succeeds traffic e o (m ∷ later) s link

-- A round that succeeds.
record Advanced (o : StreamOptions) (s : Session) (t : Turn) : Type 0 where
  exit_code : t.exit_code ≡ 0
  index : t.session.frame_index ≡ suc s.frame_index
  count : length t.submitted ≡ 1
  ends : t.goes_on ≡ false → is_last o (suc s.frame_index) ≡ true

module _ (traffic : ℕ → Traffic) (e : Env) (o : StreamOptions) where
  round_Advanced :
      (m : Meets) (s : Session) (link : Link)
      → (let s1 = (begin_round e m s link).0 in (and_then (capture e o m s1) (draw e o m)).0 ≡ true)
      → (encode_one_frame
          (stream_writer_write traffic)
          m.mpp
          (begin_round e m s link).1).returns_zero
        ≡ true
      → Advanced o s (run_round traffic e o m s link)
  unfolding run_round begin_round end_round
  round_Advanced m s link ok encoded =
      let s1 = (begin_round e m s link).0 in
      let step = and_then (capture e o m s1) (draw e o m) in
      let kept = drawn-Same e o m s1 in
      let index : step.1.frame_index ≡ s.frame_index = kept.frame_index in
      elim (Bool-cases (is_last o (suc step.1.frame_index))) [
        | inl last ↦
            rw (run_round, ok, encoded, last)
              (record {
                exit_code = refl;
                index = omega arith;
                count = refl;
                ends = λ h. rw index at last;
              })
        | inr more ↦
            rw (run_round, ok, encoded, more)
              (record {
                exit_code = refl;
                index = omega arith;
                count = refl;
                ends = λ h. ground arith;
              })
      ]

  reached :
      (n frames : ℕ) → o.frame_limit ≡ pos n → is_last o frames ≡ true → (0 < n) × (n ≤ frames)
  unfolding is_last
  reached n frames limit h = let l = rw limit at h in (ground arith, ground arith)

  -- Where nothing fails in any round, and the limit of frames is not negative and is 0, which stands
  -- for none, or is not passed, the loop encodes one frame in each round and ends with 0.
  pub run_loop-Succeeds :
      (rounds : List Meets) (s : Session) (link : Link) (n : ℕ)
      → o.frame_limit ≡ pos n
      → (n ≡ 0) ⊎ (s.frame_index + length rounds ≤ n)
      → Succeeds traffic e o rounds s link
      → let x = run_loop traffic e o rounds s link in
        (x.exit_code ≡ 0)
        × (x.session.frame_index ≡ s.frame_index + length rounds)
        × (length x.submitted ≡ length rounds)
  unfolding run_loop last_turn after_turn
  run_loop-Succeeds rounds s link n limit room at_end = (refl, omega arith, refl)
  run_loop-Succeeds rounds s link n limit room (one_frame {m} {later} ok encoded rest) =
      let t = run_round traffic e o m s link in
      let a = round_Advanced m s link ok encoded in
      let index = a.index in
      let count = a.count in
      elim (Bool-cases t.goes_on) [
        | inr ends ↦
            let (some_limit, full) = reached n (suc s.frame_index) limit (a.ends ends) in
            let none_left : length later ≡ 0 = ground arith in
            rw (stops traffic e o m later s link ends) (a.exit_code, omega arith, omega arith)
        | inl on ↦
            let left : (n ≡ 0) ⊎ (t.session.frame_index + length later ≤ n) = ground arith in
            let (code, frames, buffers) =
              run_loop-Succeeds later t.session t.link n limit left rest in
            let whole =
              length-append t.submitted (run_loop traffic e o later t.session t.link).submitted in
            rw (goes traffic e o m later s link on) (code, omega arith, omega arith)
      ]
