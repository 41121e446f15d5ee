-- ===== src/Ring.antt =====
-- The shared-memory ring that carries H.264 packets from the streamer to the publisher:
-- `struct remydesk_ring_header`, `struct stream_writer` and the functions that write the ring, in
-- native/desktop-streamer/drm_rga_mpp_stream.c. The consumer's side is Ring/Reader.antt, from
-- native/webrtc-publisher/main.go.
pub mod Slots
pub mod Write
pub mod Reader
pub mod Init
pub mod System
pub mod Bitrate
mod Tests
use remy_desk.Base.{
  ℕ, ◌+◌, ◌-◌, ◌*◌, ◌%◌, ◌^◌, ◌<◌, Bool, true, false, Option, none, some, List, [], ◌∷◌, ltb,
  if◌then◌else◌, length, replicate, ◌||◌,
}
use remy_desk.Base.Int.{ℤ, pos, negsuc, neg_part, pos_part}
use remy_desk.Base.Bytes.{Memory, write_bytes, u32_bytes}

abbrev pub ring_magic : ℕ
ring_magic = 0x52444832

abbrev pub ring_version : ℕ
ring_version = 3

abbrev pub ring_slots : ℕ
ring_slots = 8

abbrev pub ring_slot_size : ℕ
ring_slot_size = 2 * 1024 * 1024

abbrev pub ring_header_size : ℕ
ring_header_size = 64

abbrev pub ring_slot_header_size : ℕ
ring_slot_header_size = 8

-- The fields of `struct remydesk_ring_header`, and the rest of the mapping as bytes, addressed from
-- the mapping's first byte. Sequence numbers are uint64_t, the other fields uint32_t.
pub record Ring : Type 0 where
  pub magic : ℕ
  pub version : ℕ
  pub slot_count : ℕ
  pub slot_size : ℕ
  pub write_seq : ℕ
  pub read_seq : ℕ
  pub closed : ℕ
  pub notify_seq : ℕ
  pub requested_bitrate : ℕ
  pub applied_bitrate : ℕ
  pub bytes : Memory

-- `struct stream_writer`; `ring` is `none` where the source has `ring_map == NULL`.
pub record StreamWriter : Type 0 where
  pub fd : ℤ
  pub ring_fd : ℤ
  pub ring_map_size : ℕ
  pub ring : Option Ring

-- stride = REMYDESK_RING_SLOT_HEADER_SIZE + slot_size
abbrev pub stride : Ring → ℕ
stride r = ring_slot_header_size + r.slot_size

-- The address of the slot of a sequence number.
unfoldable pub slot_offset : Ring → ℕ → ℕ
slot_offset r seq = ring_header_size + seq % r.slot_count * stride r

-- write_seq - read_seq, in uint64_t
abbrev pub backlog : ℕ → ℕ → ℕ
backlog write_seq read_seq = (write_seq + 2 ^ 64 - read_seq) % 2 ^ 64

-- memcpy(slot, &length, sizeof(length))
unfoldable pub store_length : Ring → ℕ → List ℕ → Ring
store_length r seq packet = record r {
  bytes = write_bytes r.bytes (slot_offset r seq) (u32_bytes (length packet % 2 ^ 32));
}

-- memset(slot + sizeof(length), 0, REMYDESK_RING_SLOT_HEADER_SIZE - sizeof(length))
unfoldable pub store_padding : Ring → ℕ → Ring
store_padding r seq = record r {
  bytes = write_bytes r.bytes (slot_offset r seq + 4) (replicate (ring_slot_header_size - 4) 0);
}

-- memcpy(slot + REMYDESK_RING_SLOT_HEADER_SIZE, data, size)
unfoldable pub store_payload : Ring → ℕ → List ℕ → Ring
store_payload r seq packet = record r {
  bytes = write_bytes r.bytes (slot_offset r seq + ring_slot_header_size) packet;
}

-- atomic_store_explicit(&ring->write_seq, write_seq + 1, memory_order_release)
unfoldable pub publish : Ring → ℕ → Ring
publish r seq = record r { write_seq = (seq + 1) % 2 ^ 64 }

-- The store of `stream_writer_notify`. The futex call wakes a reader and stores nothing.
unfoldable pub notify : Ring → Ring
notify r = record r { notify_seq = (r.notify_seq + 1) % 2 ^ 32 }

-- One round of the wait in `stream_writer_write`: whether a signal has stopped the program at the
-- loop's test, the `read_seq` that is loaded, and whether a signal came before the test behind the
-- loop.
pub record Poll : Type 0 where
  pub stopped : Bool
  pub read_seq : ℕ
  pub stopped_after : Bool

-- How the wait ends: `stopped` is `return -1`. `starved` is no end: the list of rounds is used up.
pub data Wait : Type 0 where
  room stopped starved : Wait

unfoldable pub wait_for_room : ℕ → ℕ → List Poll → Wait
wait_for_room count write_seq [] = starved
wait_for_room count write_seq (p ∷ later) =
    if p.stopped
    then stopped
    else if ltb (backlog write_seq p.read_seq) count
    then if p.stopped_after then stopped else room
    else wait_for_room count write_seq later

-- The stores of `stream_writer_write` behind the wait, in their order.
unfoldable pub store_packet : Ring → ℕ → List ℕ → Ring
store_packet r seq packet =
    notify (publish (store_payload (store_padding (store_length r seq packet) seq) seq packet) seq)

-- What `stream_writer_write` returns: `sent` is 0; the others are -1. A call with no ring is
-- `write_all` (Output.antt).
pub data WriteResult : Type 0 where
  sent oversized interrupted blocked : WriteResult

unfoldable pub write_ring : Ring → List ℕ → List Poll → WriteResult × Ring
write_ring r packet polls =
    if ltb r.slot_size (length packet)
    then (oversized, r)
    else elim (wait_for_room r.slot_count r.write_seq polls) [
      | room ↦ (sent, store_packet r r.write_seq packet)
      | stopped ↦ (interrupted, r)
      | starved ↦ (blocked, r)
    ]
