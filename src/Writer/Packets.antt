-- ===== src/Writer/Packets.antt =====
-- A frame through the writer with no ring: its packets go out as one stretch of bytes.
use mathlib.Core.List.{append-nil, append_assoc}
use remy_desk.Base.{
  ℕ, ◌≡◌, inl, inr, sym, ap, ◌∙◌, true, none, List, [], ◌∷◌, ◌++◌, arith, Bool-cases,
}
use remy_desk.Output.{Answer, Outcome, done, write_all}
use remy_desk.Output.Written.{write_all_split}
use remy_desk.Encode.{Packet, MppCalls, encode_one_frame}
use remy_desk.Encode.Drain.{Drains, Fed, fed_all, skip, wrote}
use remy_desk.Encode.Frame.{encode_one_frame_done}
use remy_desk.Writer.{Traffic, Link, is_done, stream_writer_write}

-- The bytes of some packets, one after the other.
abbrev pub joined : List Packet → List ℕ
joined [] = []
joined (p ∷ ps) = p.data_bytes ++ joined ps

is_done-true : (o : Outcome) → is_done o ≡ true → o ≡ done
is_done-true o h = ground arith

all_written :
    (bytes : List ℕ) (answers : List Answer)
    → is_done (write_all bytes answers).outcome ≡ true
    → (write_all bytes answers).written ≡ bytes
all_written bytes answers h =
    let (split, (left, _), _) = write_all_split bytes answers in
    let none_left = left (is_done-true _ h) in
    sym (append-nil _) ∙ ap (λ l. (write_all bytes answers).written ++ l) (sym none_left) ∙ split

-- One packet to the descriptor.
to_descriptor :
    (traffic : ℕ → Traffic) (l l' : Link) (bytes : List ℕ)
    → l.writer.ring ≡ none
    → stream_writer_write traffic l bytes ≡ (true, l')
    → (l'.writer.ring ≡ none) × (l'.output ≡ l.output ++ bytes)
unfolding stream_writer_write
to_descriptor traffic l l' bytes e h =
    elim (Bool-cases (is_done (write_all bytes (traffic l.calls).answers).outcome)) [
      | inl ok ↦ let w = all_written bytes (traffic l.calls).answers ok in ground arith
      | inr bad ↦ ground arith
    ]

Fed-joined :
    (traffic : ℕ → Traffic) {l l' : Link} {ps : List Packet}
    → l.writer.ring ≡ none
    → Fed (stream_writer_write traffic) l ps l'
    → l'.output ≡ l.output ++ joined ps
Fed-joined traffic e fed_all = sym (append-nil _)
Fed-joined traffic e (skip {ps = ps} nothing f) = rw nothing (Fed-joined traffic e f)
Fed-joined traffic {l} e (wrote {next = next} {p = p} {ps = ps} lt h f) =
    let (still, out) = to_descriptor traffic l next p.data_bytes e h in
    Fed-joined traffic still f
    ∙ ap (λ o. o ++ joined ps) out
    ∙ append_assoc l.output p.data_bytes (joined ps)

Fed-ring :
    (traffic : ℕ → Traffic) {l l' : Link} {ps : List Packet}
    → l.writer.ring ≡ none
    → Fed (stream_writer_write traffic) l ps l'
    → l'.writer.ring ≡ none
Fed-ring traffic e fed_all = e
Fed-ring traffic e (skip nothing f) = Fed-ring traffic e f
Fed-ring traffic {l} e (wrote {next = next} {p = p} lt h f) =
    Fed-ring traffic (to_descriptor traffic l next p.data_bytes e h).0 f

-- Nor does a ring come up on the way.
pub encode_one_frame_link :
    (traffic : ℕ → Traffic) (c : MppCalls) (l : Link)
    → l.writer.ring ≡ none
    → (encode_one_frame (stream_writer_write traffic) c l).returns_zero ≡ true
    → (encode_one_frame (stream_writer_write traffic) c l).state.writer.ring ≡ none
encode_one_frame_link traffic c l e h =
    let (_, _, _, _, fed, _) = encode_one_frame_done (stream_writer_write traffic) c l h in
    Fed-ring traffic e fed

-- With no ring, a call that returns 0 has written the bytes of the frame's packets, one after the
-- other, and nothing else.
pub encode_one_frame_output :
    (traffic : ℕ → Traffic) (c : MppCalls) (l : Link)
    → l.writer.ring ≡ none
    → (encode_one_frame (stream_writer_write traffic) c l).returns_zero ≡ true
    → (packets : List Packet) × (last_round : ℕ) × Drains c.get_packet 0 packets last_round
      × ((encode_one_frame (stream_writer_write traffic) c l).state.output
          ≡ l.output ++ joined packets)
encode_one_frame_output traffic c l e h =
    let (packets, last_round, drains, _, fed, _) =
      encode_one_frame_done (stream_writer_write traffic) c l h in
    (packets, last_round, drains, Fed-joined traffic e fed)
