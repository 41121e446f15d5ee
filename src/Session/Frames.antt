-- ===== src/Session/Frames.antt =====
-- What a run with no ring writes: the packets of its frames.
use mathlib.Core.List.{append-nil, append_assoc}
use remy_desk.Base.{
  not, ◌&&◌, ℕ, suc, ◌+◌, ◌≡◌, ◌∙◌, sym, ap, refl, inl, inr, Bool, true, false, Option, none, some,
  List, [], ◌∷◌, ◌++◌, length, arith, Bool-cases,
}
use remy_desk.Ring.Bitrate.{adapt_bitrate}
use remy_desk.Encode.{Packet, encode_one_frame}
use remy_desk.Encode.Drain.{Drains}
use remy_desk.Options.Command.{StreamOptions}
use remy_desk.Writer.{Traffic, Link, stream_writer_write}
use remy_desk.Writer.Packets.{joined, encode_one_frame_output, encode_one_frame_link}
use remy_desk.Session.{Env, Session}
use remy_desk.Session.Round.{
  Meets, Turn, and_then, capture, draw, is_last, begin_round, end_round, run_round,
}
use remy_desk.Session.Setup.{SetupCalls, set_up}
use remy_desk.Import.{Action}
use remy_desk.Session.Run.{run_loop, last_turn, after_turn, finish, run_ready, run_session}
use remy_desk.Session.Same.{drawn-Same}
use remy_desk.Session.Limits.{stops, goes}

-- Frames that MPP gave in the first rounds, one in each, all their packets in order.
pub data Frames : List Meets → List (List Packet) → Type 0 where
  no_more : {rounds : List Meets} → Frames rounds []
  next :
      {m : Meets} {later : List Meets} {packets : List Packet} {frames : List (List Packet)}
      {last_round : ℕ}
      → Drains m.mpp.get_packet 0 packets last_round
      → Frames later frames
      → Frames (m ∷ later) (packets ∷ frames)

abbrev pub all_joined : List (List Packet) → List ℕ
all_joined [] = []
all_joined (packets ∷ frames) = joined packets ++ all_joined frames

-- A signal to stop that came while a frame was encoded.
abbrev pub never_stopped : List Meets → Bool
never_stopped [] = true
never_stopped (m ∷ later) = not m.stopped && never_stopped later

-- What a round with no ring leaves: the exit code is not 0, or the writer went no further than a
-- frame.
record Wrote (m : Meets) (s : Session) (link : Link) (t : Turn) : Type 0 where
  packets : List Packet
  last_round : ℕ
  drains : Drains m.mpp.get_packet 0 packets last_round
  output : t.link.output ≡ link.output ++ joined packets
  ring : t.link.writer.ring ≡ none
  index : t.session.frame_index ≡ suc s.frame_index

module _ (traffic : ℕ → Traffic) (e : Env) (o : StreamOptions) where
  begin_ring :
      (m : Meets) (s : Session) (link : Link)
      → link.writer.ring ≡ none
      → ((begin_round e m s link).1.writer.ring ≡ none)
        × ((begin_round e m s link).1.output ≡ link.output)
  unfolding begin_round adapt_bitrate
  begin_ring m s link h = (ground arith, refl)

  round_Wrote :
      (m : Meets) (s : Session) (link : Link)
      → link.writer.ring ≡ none
      → m.stopped ≡ false
      → (run_round traffic e o m s link).exit_code ≡ 0
      → Wrote m s link (run_round traffic e o m s link)
  unfolding run_round end_round begin_round
  round_Wrote m s link no_ring on zero_code =
      let (s1, link1) = begin_round e m s link in
      let (ring, output) = begin_ring m s link no_ring in
      let step = and_then (capture e o m s1) (draw e o m) in
      let kept = drawn-Same e o m s1 in
      let index : step.1.frame_index ≡ s.frame_index = kept.frame_index in
      let out = encode_one_frame (stream_writer_write traffic) m.mpp link1 in
      elim (Bool-cases step.0) [
        | inr bad ↦ let no = rw (run_round, bad) at zero_code in ground arith
        | inl ok ↦ elim (Bool-cases out.returns_zero) [
          | inr refused ↦ let no = rw (run_round, ok, refused, on) at zero_code in ground arith
          | inl encoded ↦
              let (packets, last_round, drains, written) =
                encode_one_frame_output traffic m.mpp link1 ring encoded in
              let still = encode_one_frame_link traffic m.mpp link1 ring encoded in
              elim (Bool-cases (is_last o (suc step.1.frame_index))) [
                | inl ends ↦
                    rw (run_round, ok, encoded, ends)
                      (record {
                        packets = packets;
                        last_round = last_round;
                        drains = drains;
                        output = written;
                        ring = still;
                        index = ap suc index;
                      })
                | inr more ↦
                    rw (run_round, ok, encoded, more)
                      (record {
                        packets = packets;
                        last_round = last_round;
                        drains = drains;
                        output = written;
                        ring = still;
                        index = ap suc index;
                      })
              ]
        ]
      ]

  going_zero :
      (m : Meets) (s : Session) (link : Link)
      → (run_round traffic e o m s link).goes_on ≡ true
      → (run_round traffic e o m s link).exit_code ≡ 0
  unfolding run_round
  going_zero m s link h =
      let (s1, link1) = begin_round e m s link in
      let step = and_then (capture e o m s1) (draw e o m) in
      let out = encode_one_frame (stream_writer_write traffic) m.mpp link1 in
      elim (Bool-cases step.0) [
        | inr bad ↦ let no = rw (run_round, bad) at h in ground arith
        | inl ok ↦ elim (Bool-cases out.returns_zero) [
          | inr refused ↦ let no = rw (run_round, ok, refused) at h in ground arith
          | inl encoded ↦ elim (Bool-cases (is_last o (suc step.1.frame_index))) [
            | inl ends ↦ let no = rw (run_round, ok, encoded, ends) at h in ground arith
            | inr more ↦ rw (run_round, ok, encoded, more) refl
          ]
        ]
      ]

  -- The loop: one frame for each round that it runs.
  pub run_loop_output :
      (rounds : List Meets) (s : Session) (link : Link)
      → link.writer.ring ≡ none
      → never_stopped rounds ≡ true
      → (run_loop traffic e o rounds s link).exit_code ≡ 0
      → let x = run_loop traffic e o rounds s link in
        (frames : List (List Packet)) × Frames rounds frames
        × (x.link.output ≡ link.output ++ all_joined frames)
        × (s.frame_index + length frames ≡ x.session.frame_index)
  unfolding run_loop last_turn after_turn
  run_loop_output [] s link no_ring on zero_code =
      ([], no_more, sym (append-nil link.output), omega arith)
  run_loop_output (m ∷ later) s link no_ring on zero_code =
      let t = run_round traffic e o m s link in
      let here : m.stopped ≡ false = ground arith in
      let after : never_stopped later ≡ true = ground arith in
      elim (Bool-cases t.goes_on) [
        | inr ends ↦
            let w =
              round_Wrote m s link no_ring here
                (rw (stops traffic e o m later s link ends) at zero_code) in
            rw (stops traffic e o m later s link ends) (
              w.packets ∷ [],
              next w.drains no_more,
              w.output ∙ ap (λ l. link.output ++ l) (sym (append-nil (joined w.packets))),
              let i = w.index in omega arith,
            )
        | inl goes_on ↦
            let w = round_Wrote m s link no_ring here (going_zero m s link goes_on) in
            let (frames, all, output, count) =
              run_loop_output later t.session t.link w.ring after
                (rw (goes traffic e o m later s link goes_on) at zero_code) in
            rw (goes traffic e o m later s link goes_on) (
              w.packets ∷ frames,
              next w.drains all,
              output
                  ∙ ap (λ l. l ++ all_joined frames) w.output
                  ∙ append_assoc link.output (joined w.packets) (all_joined frames),
              let i = w.index in omega arith,
            )
      ]

  ready_output :
      (rounds : List Meets) (link : Link) (ready : Option Session) (l : List Action)
      → link.writer.ring ≡ none
      → never_stopped rounds ≡ true
      → (run_ready traffic e o rounds link ready l).exit_code ≡ 0
      → (frames : List (List Packet)) × Frames rounds frames
        × ((run_ready traffic e o rounds link ready l).link.output
            ≡ link.output ++ all_joined frames)
  unfolding run_ready finish
  ready_output rounds link none l no_ring on zero_code = ground arith
  ready_output rounds link (some s) l no_ring on zero_code =
      let (frames, all, output, _) = run_loop_output rounds s link no_ring on zero_code in
      (frames, all, output)

-- With no ring, and no signal to stop while a frame is encoded, a run that exits with 0 has written
-- the bytes of its frames one after the other, and nothing else: each the packets that MPP gave in
-- one of the first rounds, up to the one that ends the frame.
pub run_session_output :
    (traffic : ℕ → Traffic) (e : Env) (c : SetupCalls) (o : StreamOptions) (rounds : List Meets)
    (link : Link)
    → link.writer.ring ≡ none
    → never_stopped rounds ≡ true
    → (run_session traffic e c o rounds link).exit_code ≡ 0
    → (frames : List (List Packet)) × Frames rounds frames
      × ((run_session traffic e c o rounds link).link.output ≡ link.output ++ all_joined frames)
unfolding run_session
run_session_output traffic e c o rounds link no_ring on zero_code =
    let (ready, l) = set_up e c o in
    ready_output traffic e o rounds link ready l no_ring on zero_code
