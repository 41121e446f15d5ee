-- ===== src/Writer.antt =====
-- `stream_writer_write` of native/desktop-streamer/drm_rga_mpp_stream.c as `encode_one_frame` calls
-- it, packet after packet: to the ring where there is one, otherwise to the descriptor.
pub mod Packets
mod Tests
use remy_desk.Base.{ℕ, suc, Bool, true, false, Option, none, some, List, ◌++◌}
use remy_desk.Ring.{Ring, StreamWriter, Poll, WriteResult, sent, write_ring}
use remy_desk.Output.{Answer, Outcome, done, write_all}

-- What one call meets: the rounds of its wait for room, and the answers of write(2).
pub record Traffic : Type 0 where
  pub polls : List Poll
  pub answers : List Answer

-- The writer, the number of calls so far, and the bytes that went to its descriptor.
pub record Link : Type 0 where
  pub writer : StreamWriter
  pub calls : ℕ
  pub output : List ℕ

abbrev pub is_sent : WriteResult → Bool
is_sent sent = true
is_sent _ = false

abbrev pub is_done : Outcome → Bool
is_done done = true
is_done _ = false

-- `traffic i` is what the call of number `i` meets.
unfoldable pub stream_writer_write : (ℕ → Traffic) → Link → List ℕ → Bool × Link
stream_writer_write traffic l bytes = elim l.writer.ring [
  | none ↦
      let o = write_all bytes (traffic l.calls).answers in
      (is_done o.outcome, record l { calls = suc l.calls; output = l.output ++ o.written })
  | some r ↦
      let (result, r') = write_ring r bytes (traffic l.calls).polls in
      (
        is_sent result,
        record l { calls = suc l.calls; writer = record l.writer { ring = some r' } },
      )
]
