-- ===== src/Ring/System/Call.antt =====
-- One call of `stream_writer_write` with nothing in between is a run of the producer's steps.
use remy_desk.Base.{ℕ, ◌≤◌, ◌<◌, ◌≡◌, refl, false, List, [], ◌∷◌, ◌++◌, length, arith}
use remy_desk.Ring.{
  Ring, backlog, Poll, store_length, store_padding, store_payload, publish, notify, store_packet,
  sent, write_ring, wait_for_room,
}
use remy_desk.Ring.System.{
  ReaderPc, idle, begin, room, fill_length, fill_padding, fill_payload, count, write, send, rouse,
  woken, Reach, start, later,
}

-- A round of the wait that finds no signal, and the consumer's `read_seq`.
abbrev pub calm : ℕ → Poll
calm read_seq = record { stopped = false; read_seq = read_seq; stopped_after = false }

calm_call :
    (r : Ring) (packet : List ℕ)
    → length packet ≤ r.slot_size
    → backlog r.write_seq r.read_seq < r.slot_count
    → write_ring r packet (calm r.read_seq ∷ []) ≡ (
      sent,
      notify (
          publish
            (store_payload
              (store_padding (store_length r r.write_seq packet) r.write_seq)
              r.write_seq
              packet)
            r.write_seq),
    )
unfolding write_ring store_packet wait_for_room
calm_call r packet fits free = ground arith

-- Where the packet fits and there is room, the call returns 0 with a ring that the steps of the
-- producer reach too; they publish the packet and wake the consumer.
pub write_ring-Reach :
    (r : Ring) (p : ReaderPc) (published delivered : List (List ℕ)) (packet : List ℕ)
    → length packet ≤ r.slot_size
    → backlog r.write_seq r.read_seq < r.slot_count
    → let (result, r') = write_ring r packet (calm r.read_seq ∷ []) in
      (result ≡ sent)
      × Reach
          (record {
            ring = r;
            writer = idle;
            reader = p;
            published = published;
            delivered = delivered;
          })
          (record {
            ring = r';
            writer = idle;
            reader = woken p;
            published = published ++ (packet ∷ []);
            delivered = delivered;
          })
write_ring-Reach r p published delivered packet fits free =
    let e = calm_call r packet fits free in
    rw e (
      refl,
      (later
          (later
            (later
              (later
                (later
                  (later (later (later start (write (begin packet fits))) (write (room free)))
                    (write fill_length))
                  (write fill_padding))
                (write fill_payload))
              (send refl))
            (write count))
          (rouse refl)),
    )
