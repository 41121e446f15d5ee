-- ===== src/Session/Descriptors.antt =====
-- The descriptors of the writer and its mapping through the capture loop.
use remy_desk.Base.{
  ℕ, suc, ◌≡◌, ◌≢◌, ◌∙◌, refl, sym, ap, inl, inr, Bool, true, false, Option, none, some, List, [],
  ◌∷◌, arith, Bool-cases, Option-cases,
}
use mathlib.Core.Path.{subst}
use remy_desk.Ring.{Ring, StreamWriter}
use remy_desk.Ring.Init.{returns, stream_writer_close}
use remy_desk.Ring.Bitrate.{adapt_bitrate}
use remy_desk.Encode.{encode_one_frame}
use remy_desk.Encode.Keeps.{encode_one_frame-keeps}
use remy_desk.Options.Command.{StreamOptions}
use remy_desk.Writer.{Traffic, Link, stream_writer_write}
use remy_desk.Session.{Env, Session}
use remy_desk.Session.Round.{Meets, and_then, capture, draw, is_last, ask, begin_round, run_round}
use remy_desk.Session.Run.{run_loop, last_turn, after_turn}

abbrev has_ring : Option Ring → Bool
has_ring none = false
has_ring (some r) = true

-- The same descriptors, and a ring where there was one.
pub record SameDescriptors (w v : StreamWriter) : Type 0 where
  fd : v.fd ≡ w.fd
  ring_fd : v.ring_fd ≡ w.ring_fd
  ring : has_ring v.ring ≡ has_ring w.ring

abbrev itself : (w : StreamWriter) → SameDescriptors w w
itself w = record { fd = refl; ring_fd = refl; ring = refl }

write-SameDescriptors :
    (w : StreamWriter) (traffic : ℕ → Traffic) (l : Link) (bytes : List ℕ)
    → SameDescriptors w l.writer
    → SameDescriptors w (stream_writer_write traffic l bytes).1.writer
unfolding stream_writer_write
write-SameDescriptors w traffic l bytes s = elim (Option-cases l.writer.ring) [
  | inl no_ring ↦ rw (stream_writer_write, no_ring) s
  | inr (r, e) ↦
      rw (stream_writer_write, e)
        (record { fd = s.fd; ring_fd = s.ring_fd; ring = sym (ap has_ring e) ∙ s.ring })
]

ring_kept :
    (asked : Option ℕ) (fails : Bool) (ring : Option Ring) (applied : ℕ)
    → has_ring (adapt_bitrate fails (ask asked ring) applied).0 ≡ has_ring ring
unfolding adapt_bitrate
ring_kept none fails none applied = ground arith
ring_kept none fails (some r) applied = ground arith
ring_kept (some b) fails none applied = ground arith
ring_kept (some b) fails (some r) applied = ground arith

module _ (w : StreamWriter) (traffic : ℕ → Traffic) (e : Env) (o : StreamOptions) where
  round-SameDescriptors :
      (m : Meets) (s : Session) (link : Link)
      → SameDescriptors w link.writer
      → SameDescriptors w (run_round traffic e o m s link).link.writer
  unfolding run_round begin_round
  round-SameDescriptors m s link h =
      let (s1, link1) = begin_round e m s link in
      let begun : SameDescriptors w link1.writer = record {
        fd = h.fd;
        ring_fd = h.ring_fd;
        ring = ring_kept m.asked m.update_fails link.writer.ring s.applied_bitrate ∙ h.ring;
      } in
      let step = and_then (capture e o m s1) (draw e o m) in
      let out = encode_one_frame (stream_writer_write traffic) m.mpp link1 in
      let encoded =
        encode_one_frame-keeps (stream_writer_write traffic) (λ l. SameDescriptors w l.writer)
          (write-SameDescriptors w traffic) m.mpp link1 begun in
      elim (Bool-cases step.0) [
        | inr bad ↦ rw (run_round, bad) begun
        | inl ok ↦ elim (Bool-cases out.returns_zero) [
          | inr refused ↦ rw (run_round, ok, refused) encoded
          | inl done ↦ elim (Bool-cases (is_last o (suc step.1.frame_index))) [
            | inl ends ↦ rw (run_round, ok, done, ends) encoded
            | inr goes ↦ rw (run_round, ok, done, goes) encoded
          ]
        ]
      ]

  loop-SameDescriptors :
      (rounds : List Meets) (s : Session) (link : Link)
      → SameDescriptors w link.writer
      → SameDescriptors w (run_loop traffic e o rounds s link).link.writer
  unfolding run_loop last_turn after_turn
  loop-SameDescriptors [] s link h = h
  loop-SameDescriptors (m ∷ later) s link h =
      let t = run_round traffic e o m s link in
      let next = round-SameDescriptors m s link h in
      elim (Bool-cases t.goes_on) [
        | inl goes ↦ rw (run_loop, goes) (loop-SameDescriptors later t.session t.link next)
        | inr ends ↦ rw (run_loop, ends) next
      ]

ring_apart : true ≢ false
ring_apart e = cc

-- The calls of stream_writer_close depend on no more.
same_returns :
    (w v : StreamWriter)
    → SameDescriptors w v
    → returns (stream_writer_close v).2 ≡ returns (stream_writer_close w).2
unfolding stream_writer_close returns
same_returns w v s = elim (Option-cases w.ring) [
  | inl none_w ↦ elim (Option-cases v.ring) [
    | inl none_v ↦ rw (none_w, none_v, s.fd, s.ring_fd) refl
    | inr (r, some_v) ↦ absurd (ring_apart (sym (ap has_ring some_v) ∙ s.ring ∙ ap has_ring none_w))
  ]
  | inr (q, some_w) ↦ elim (Option-cases v.ring) [
    | inl none_v ↦
        absurd (ring_apart (sym (sym (ap has_ring none_v) ∙ s.ring ∙ ap has_ring some_w)))
    | inr (r, some_v) ↦ rw (some_w, some_v, s.fd, s.ring_fd) refl
  ]
]

pub loop_returns :
    (w : StreamWriter) (traffic : ℕ → Traffic) (e : Env) (o : StreamOptions) (rounds : List Meets)
    (s : Session) (link : Link)
    → link.writer ≡ w
    → returns (stream_writer_close (run_loop traffic e o rounds s link).link.writer).2
      ≡ returns (stream_writer_close w).2
loop_returns w traffic e o rounds s link same = same_returns w _ (
    loop-SameDescriptors w traffic e o rounds s link
      (subst (λ v. SameDescriptors w v) (sym same) (itself w)))
