-- ===== src/Ring/Write.antt =====
-- What one call of `stream_writer_write` does to the ring, on every branch.
use remy_desk.Base.{
  ℕ, ◌+◌, ◌*◌, ◌%◌, ◌^◌, ◌≤◌, ◌<◌, ◌≡◌, ◌≢◌, ◌⊎◌, ◌↔◌, refl, ◌∙◌, List, [], ◌∷◌, length, arith,
  some, false, replicate, Bool, true, ltb, if◌then◌else◌,
}
use remy_desk.Base.Bytes.{write_bytes_outside, u32_bytes, length-u32_bytes}
use remy_desk.Ring.{
  Ring, stride, slot_offset, backlog, store_length, store_padding, store_payload, publish, notify,
  Poll, Wait, room, stopped, starved, wait_for_room, store_packet, sent, WriteResult, oversized,
  interrupted, blocked, write_ring, ring_header_size,
}
use remy_desk.Ring.Reader.{read_slot}
use remy_desk.Ring.Slots.{
  Holds, SameSlots, Holds-SameSlots, slot_inside, read_slot-Holds, store_length-Holds,
  store_padding-Holds, store_payload-Holds, store_length_lem, store_padding_lem, store_payload_lem,
}

-- The round that ends the wait with room: no signal, and fewer unread packets than slots.
pub RoomSeen : ℕ → ℕ → List Poll → Type 0
RoomSeen count write_seq [] = ⊥
RoomSeen count write_seq (p ∷ later) =
    ((p.stopped ≡ false) × (p.stopped_after ≡ false) × (backlog write_seq p.read_seq < count))
    ⊎ ((p.stopped ≡ false)
        × (count ≤ backlog write_seq p.read_seq)
        × RoomSeen count write_seq later)

wait_for_room_iff :
    (count write_seq : ℕ) (polls : List Poll)
    → (wait_for_room count write_seq polls ≡ room) ↔ RoomSeen count write_seq polls
unfolding wait_for_room RoomSeen
wait_for_room_iff count write_seq [] = (λ e. cc, λ h. absurd h)
wait_for_room_iff count write_seq (p ∷ later) =
    let (to, from) = wait_for_room_iff count write_seq later in
    (λ e. ground arith, λ h. ground arith)

-- A call that does not return 0 leaves the ring as it was.
pub write_ring_unsent :
    (r : Ring) (packet : List ℕ) (polls : List Poll)
    → (write_ring r packet polls).0 ≢ sent
    → (write_ring r packet polls).1 ≡ r
unfolding write_ring
write_ring_unsent r packet polls h = ground arith

-- It returns 0 exactly if the packet fits a slot and the wait ends with room.
pub write_ring-sent_iff :
    (r : Ring) (packet : List ℕ) (polls : List Poll)
    → ((write_ring r packet polls).0 ≡ sent)
      ↔ ((length packet ≤ r.slot_size) × RoomSeen r.slot_count r.write_seq polls)
unfolding write_ring
write_ring-sent_iff r packet polls =
    let (to, from) = wait_for_room_iff r.slot_count r.write_seq polls in
    (λ e. (ground arith, to (ground arith)), λ h. ground (arith, from h.1))

-- A packet that is sent fits a slot, and the stores are those of `store_packet`.
sent_parts :
    (r r' : Ring) (packet : List ℕ) (polls : List Poll)
    → write_ring r packet polls ≡ (sent, r')
    → (length packet ≤ r.slot_size) × (store_packet r r.write_seq packet ≡ r')
unfolding write_ring
sent_parts r r' packet polls e = ground arith

publish-notify-SameSlots : (r : Ring) (seq : ℕ) → SameSlots r (notify (publish r seq))
unfolding publish notify
publish-notify-SameSlots r seq = record { same_bytes = refl; same_count = refl; same_size = refl }

store_packet-Holds :
    (r : Ring) (seq : ℕ) (packet : List ℕ)
    → length packet < 2 ^ 32
    → Holds (store_packet r seq packet) seq packet
unfolding store_packet
store_packet-Holds r seq packet small =
    Holds-SameSlots _ _ seq packet (publish-notify-SameSlots _ seq) (
      store_payload_lem _ seq packet
        (store_padding_lem (store_length r seq packet) seq ∙ store_length_lem r seq packet small))

store_packet-Holds_other :
    (r : Ring) (i seq : ℕ) (packet old : List ℕ)
    → length packet ≤ r.slot_size
    → i % r.slot_count ≢ seq % r.slot_count
    → length old ≤ r.slot_size
    → Holds r i old
    → Holds (store_packet r seq packet) i old
unfolding store_packet store_length store_padding store_payload
store_packet-Holds_other r i seq packet old fits ne fit h =
    Holds-SameSlots _ _ i old (publish-notify-SameSlots _ seq) (
      store_payload-Holds _ i seq old ne fit packet fits
        (store_padding-Holds _ i seq old ne fit (store_length-Holds r i seq old ne fit packet h)))

store_packet_fields : (r : Ring) (seq : ℕ) (packet : List ℕ) → record {
  same_slot_size : (store_packet r seq packet).slot_size ≡ r.slot_size;
  written : (store_packet r seq packet).write_seq ≡ (seq + 1) % 2 ^ 64;
  notified : (store_packet r seq packet).notify_seq ≡ (r.notify_seq + 1) % 2 ^ 32;
}
unfolding store_packet store_length store_padding store_payload publish notify
store_packet_fields r seq packet = omega arith

-- The stores of a packet keep to its slot.
store_packet_outside :
    (r : Ring) (seq : ℕ) (packet : List ℕ) (a : ℕ)
    → length packet ≤ r.slot_size
    → (a < slot_offset r seq) ⊎ (slot_offset r seq + stride r ≤ a)
    → (store_packet r seq packet).bytes a ≡ r.bytes a
unfolding store_packet store_length store_padding store_payload publish notify slot_offset
store_packet_outside r seq packet a fits out =
    write_bytes_outside _ (slot_offset r seq + 8) packet a (ground arith)
    ∙ write_bytes_outside _ (slot_offset r seq + 4) (replicate 4 0) a (ground arith)
    ∙ write_bytes_outside r.bytes (slot_offset r seq) (u32_bytes (length packet % 2 ^ 32)) a
        (ground (arith, length-u32_bytes (length packet % 2 ^ 32)))

-- A call that returns 0, on a ring whose slots are smaller than 2^32 bytes: the consumer decodes the
-- packet from the slot of the old `write_seq`, and `write_seq` and `notify_seq` have grown by one
-- (they wrap at 2^64 and 2^32).
pub write_ring_sent :
    (r r' : Ring) (packet : List ℕ) (polls : List Poll)
    → r.slot_size < 2 ^ 32
    → write_ring r packet polls ≡ (sent, r')
    → (read_slot r' r.write_seq ≡ some packet)
      × (r'.write_seq ≡ (r.write_seq + 1) % 2 ^ 64)
      × (r'.notify_seq ≡ (r.notify_seq + 1) % 2 ^ 32)
write_ring_sent r r' packet polls small e =
    let (fits, same) = sent_parts r r' packet polls e in
    let f = store_packet_fields r r.write_seq packet in
    rw (← same) (
      read_slot-Holds _ _ packet (rw f.same_slot_size fits)
          (store_packet-Holds r r.write_seq packet (omega arith)),
      f.written,
      f.notified,
    )

-- A call that returns 0 leaves what the slot of another sequence number decodes to, where that
-- number's slot is not the one of `write_seq` and the packet in it fits a slot.
pub write_ring_keeps :
    (r r' : Ring) (packet : List ℕ) (polls : List Poll) (i : ℕ) (old : List ℕ)
    → write_ring r packet polls ≡ (sent, r')
    → i % r.slot_count ≢ r.write_seq % r.slot_count
    → length old ≤ r.slot_size
    → Holds r i old
    → read_slot r' i ≡ some old
write_ring_keeps r r' packet polls i old e ne fit h =
    let (fits, same) = sent_parts r r' packet polls e in
    let f = store_packet_fields r r.write_seq packet in
    rw (← same) (
      read_slot-Holds _ i old (rw f.same_slot_size fit)
        (store_packet-Holds_other r i r.write_seq packet old fits ne fit h))

-- The fields of the header that a packet leaves alone.
pub record SameHeader (r r' : Ring) : Type 0 where
  pub magic : r'.magic ≡ r.magic
  pub version : r'.version ≡ r.version
  pub slot_count : r'.slot_count ≡ r.slot_count
  pub slot_size : r'.slot_size ≡ r.slot_size
  pub read_seq : r'.read_seq ≡ r.read_seq
  pub closed : r'.closed ≡ r.closed
  pub requested_bitrate : r'.requested_bitrate ≡ r.requested_bitrate
  pub applied_bitrate : r'.applied_bitrate ≡ r.applied_bitrate

store_packet-SameHeader :
    (r : Ring) (seq : ℕ) (packet : List ℕ) → SameHeader r (store_packet r seq packet)
unfolding store_packet store_length store_padding store_payload publish notify
store_packet-SameHeader r seq packet = record {
  magic = refl;
  version = refl;
  slot_count = refl;
  slot_size = refl;
  read_seq = refl;
  closed = refl;
  requested_bitrate = refl;
  applied_bitrate = refl;
}

unsent-SameHeader : (r : Ring) → SameHeader r r
unsent-SameHeader r = record {
  magic = refl;
  version = refl;
  slot_count = refl;
  slot_size = refl;
  read_seq = refl;
  closed = refl;
  requested_bitrate = refl;
  applied_bitrate = refl;
}

by_write :
    (P : WriteResult × Ring → Type 0) (long : Bool) (w : Wait) (r r' : Ring)
    → ((result : WriteResult) → P (result, r))
    → P (sent, r')
    → P (
        if long
        then (oversized, r)
        else elim w [ room ↦ (sent, r') | stopped ↦ (interrupted, r) | starved ↦ (blocked, r) ])
by_write P true w r r' h k = h oversized
by_write P false room r r' h k = k
by_write P false stopped r r' h k = h interrupted
by_write P false starved r r' h k = h blocked

-- A call changes no field of the header but write_seq and notify_seq, and no byte before the first
-- slot, beside these fields, or past the end of the last one.
pub write_ring_inside :
    (r : Ring) (packet : List ℕ) (polls : List Poll) (a : ℕ)
    → 0 < r.slot_count
    → (a < ring_header_size) ⊎ (ring_header_size + r.slot_count * stride r ≤ a)
    → SameHeader r (write_ring r packet polls).1
      × ((write_ring r packet polls).1.bytes a ≡ r.bytes a)
unfolding write_ring
write_ring_inside r packet polls a some_slots out = (
  by_write (λ out. SameHeader r out.1) (ltb r.slot_size (length packet))
      (wait_for_room r.slot_count r.write_seq polls) r (store_packet r r.write_seq packet)
      (λ result. unsent-SameHeader r) (store_packet-SameHeader r r.write_seq packet),
  ground (arith, slot_inside r r.write_seq some_slots, store_packet_outside r r.write_seq packet a),
)
