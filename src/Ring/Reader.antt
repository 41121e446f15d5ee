-- ===== src/Ring/Reader.antt =====
-- The consumer's side of the ring, in native/webrtc-publisher/main.go: the checks of
-- `openSharedRing` and `consumeSharedRing`, and the read of one slot. The consumer splits the bytes
-- of a slot into NAL units and passes them on; that is not part of the ring.
use remy_desk.Base.{
  ℕ, ◌+◌, ◌*◌, ◌%◌, Bool, ◌&&◌, ◌||◌, not, Option, none, some, List, ltb, ◌==◌, if◌then◌else◌,
}
use remy_desk.Base.Bytes.{read_bytes, u32_of_bytes}
use remy_desk.Ring.{Ring}

abbrev pub shared_ring_magic : ℕ
shared_ring_magic = 0x52444832

abbrev pub shared_ring_version : ℕ
shared_ring_version = 3

abbrev pub shared_ring_header_size : ℕ
shared_ring_header_size = 64

abbrev pub shared_slot_header_size : ℕ
shared_slot_header_size = 8

-- The test of `openSharedRing` on a mapped file.
unfoldable pub is_ready : Ring → Bool
is_ready r = r.magic == shared_ring_magic && r.version == shared_ring_version

-- The tests at the head of `consumeSharedRing`, on a mapping of `mapped` bytes.
unfoldable pub geometry_ok : Ring → ℕ → Bool
geometry_ok r mapped =
    if r.slot_count == 0
      || ltb 64 r.slot_count
      || r.slot_size == 0
      || ltb (16 * 1024 * 1024) r.slot_size
    then Bool.false
    else not (
        ltb mapped
          (shared_ring_header_size + r.slot_count * (shared_slot_header_size + r.slot_size)))

unfoldable pub reader_offset : Ring → ℕ → ℕ
reader_offset r read =
    shared_ring_header_size + read % r.slot_count * (shared_slot_header_size + r.slot_size)

-- binary.LittleEndian.Uint32(mapped[offset : offset+4])
unfoldable pub slot_length : Ring → ℕ → ℕ
unfolding reader_offset
slot_length r read = u32_of_bytes (read_bytes r.bytes (reader_offset r read) 4)

-- mapped[offset+sharedSlotHeaderSize : offset+sharedSlotHeaderSize+length]
unfoldable pub slot_payload : Ring → ℕ → ℕ → List ℕ
unfolding reader_offset
slot_payload r read length =
    read_bytes r.bytes (reader_offset r read + shared_slot_header_size) length

-- The slot of a sequence number; `none` is "invalid shared H264 slot length".
unfoldable pub read_slot : Ring → ℕ → Option (List ℕ)
read_slot r read =
    if ltb r.slot_size (slot_length r read)
    then none
    else some (slot_payload r read (slot_length r read))
