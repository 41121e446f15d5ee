-- ===== src/Ring/Slots.antt =====
-- Where the slots of a ring lie, and what the stores into one slot leave in another.
use remy_desk.Base.{
  ℕ, ◌+◌, ◌*◌, ◌/◌, ◌%◌, ◌^◌, ◌≤◌, ◌<◌, ◌≡◌, ◌≢◌, ◌⊎◌, inl, inr, refl, some, List, arith, length,
  replicate, dec_lt,
}
use remy_desk.Base.Bytes.{
  write_bytes, read-write_ne, read-write_self, u32_bytes, length-u32_bytes, u32_of_bytes-u32_bytes,
}
use native.Mathlib.Nat.{div-add-mod}
use remy_desk.Ring.{
  Ring, stride, slot_offset, store_length, store_padding, store_payload, ring_header_size,
}
use remy_desk.Ring.Reader.{slot_length, slot_payload, read_slot}

mul_step : (s a b : ℕ) → a < b → a * s + s ≤ b * s
mul_step s a b h = grind arith

-- Fewer than `c` sequence numbers apart, two sequence numbers have different slots.
pub mod_ne : (c i j : ℕ) → i < j → j < i + c → i % c ≢ j % c
mod_ne c i j lo hi e = elim (dec_lt (i / c) (j / c)) [
  | yes lt ↦ omega (arith, mul_step c _ _ lt, div-add-mod i c, div-add-mod j c)
  | no ge ↦
      let le : j / c * c ≤ i / c * c = grind arith in
      omega (arith, div-add-mod i c, div-add-mod j c)
]

pub slots_apart :
    (r : Ring) (i j : ℕ)
    → i % r.slot_count ≢ j % r.slot_count
    → (slot_offset r i + stride r ≤ slot_offset r j)
      ⊎ (slot_offset r j + stride r ≤ slot_offset r i)
unfolding slot_offset
slots_apart r i j ne = elim (dec_lt (i % r.slot_count) (j % r.slot_count)) [
  | yes lt ↦ inl (omega (arith, mul_step (stride r) _ _ lt))
  | no ge ↦
      let lt : j % r.slot_count < i % r.slot_count = omega arith in
      inr (omega (arith, mul_step (stride r) _ _ lt))
]

-- A slot lies between the header and the end of the mapping.
pub slot_inside :
    (r : Ring) (seq : ℕ)
    → 0 < r.slot_count
    → (ring_header_size ≤ slot_offset r seq)
      × (slot_offset r seq + stride r ≤ ring_header_size + r.slot_count * stride r)
unfolding slot_offset
slot_inside r seq h =
    let lt : seq % r.slot_count < r.slot_count = omega arith in
    (omega arith, omega (arith, mul_step (stride r) _ _ lt))

-- The slot of `seq` holds `packet`, as the reader decodes it.
pub record Holds (r : Ring) (seq : ℕ) (packet : List ℕ) : Type 0 where
  pub size : slot_length r seq ≡ length packet
  pub content : slot_payload r seq (length packet) ≡ packet

pub read_slot-Holds :
    (r : Ring) (seq : ℕ) (packet : List ℕ)
    → length packet ≤ r.slot_size
    → Holds r seq packet
    → read_slot r seq ≡ some packet
unfolding read_slot
read_slot-Holds r seq packet fits h = ground (arith, h.size, h.content)

-- A write outside the slot leaves what the slot holds.
keep_slot :
    (r : Ring) (seq : ℕ) (packet : List ℕ) (a : ℕ) (new : List ℕ)
    → length packet ≤ r.slot_size
    → (slot_offset r seq + stride r ≤ a) ⊎ (a + length new ≤ slot_offset r seq)
    → Holds r seq packet
    → Holds (record r { bytes = write_bytes r.bytes a new }) seq packet
unfolding slot_offset slot_length slot_payload
keep_slot r seq packet a new fits apart h = record {
  size = rw (read-write_ne r.bytes a new (slot_offset r seq) 4 (ground arith)) h.size;
  content =
      rw (read-write_ne r.bytes a new (slot_offset r seq + 8) (length packet) (ground arith))
        h.content;
}

-- The stores of one packet leave the slots of other sequence numbers.
module _ (r : Ring) (i j : ℕ) (old : List ℕ) (ne : i % r.slot_count ≢ j % r.slot_count)
    (fits : length old ≤ r.slot_size) where
  pub store_length-Holds : (packet : List ℕ) → Holds r i old → Holds (store_length r j packet) i old
  unfolding store_length
  store_length-Holds packet =
      keep_slot r i old (slot_offset r j) (u32_bytes (length packet % 2 ^ 32)) fits
        (ground (arith, slots_apart r i j ne, length-u32_bytes (length packet % 2 ^ 32)))

  pub store_padding-Holds : Holds r i old → Holds (store_padding r j) i old
  unfolding store_padding
  store_padding-Holds =
      keep_slot r i old (slot_offset r j + 4) _ fits (ground (arith, slots_apart r i j ne))

  pub store_payload-Holds :
      (packet : List ℕ)
      → length packet ≤ r.slot_size
      → Holds r i old
      → Holds (store_payload r j packet) i old
  unfolding store_payload
  store_payload-Holds packet small =
      keep_slot r i old (slot_offset r j + 8) packet fits (ground (arith, slots_apart r i j ne))

-- Decoding what the stores of a packet have put into its slot.
pub store_length_lem :
    (r : Ring) (seq : ℕ) (packet : List ℕ)
    → length packet < 2 ^ 32
    → slot_length (store_length r seq packet) seq ≡ length packet
unfolding slot_length store_length slot_offset
store_length_lem r seq packet small =
    rw
      (read-write_self r.bytes (slot_offset r seq) 4 (u32_bytes (length packet % 2 ^ 32))
        (length-u32_bytes _))
      (rw (u32_of_bytes-u32_bytes (length packet % 2 ^ 32) (omega arith)) (omega arith))

pub store_padding_lem :
    (r : Ring) (seq : ℕ) → slot_length (store_padding r seq) seq ≡ slot_length r seq
unfolding slot_length store_padding slot_offset
store_padding_lem r seq = rw (
    read-write_ne r.bytes (slot_offset r seq + 4) (replicate 4 0) (slot_offset r seq) 4
      (ground arith))

pub store_payload_lem :
    (r : Ring) (seq : ℕ) (packet : List ℕ)
    → slot_length r seq ≡ length packet
    → Holds (store_payload r seq packet) seq packet
unfolding slot_length slot_payload store_payload slot_offset
store_payload_lem r seq packet h = record {
  size =
      rw (read-write_ne r.bytes (slot_offset r seq + 8) packet (slot_offset r seq) 4 (ground arith))
        h;
  content = read-write_self r.bytes (slot_offset r seq + 8) (length packet) packet refl;
}

-- Two states of a ring with the same slots.
pub record SameSlots (r r' : Ring) : Type 0 where
  pub same_bytes : r'.bytes ≡ r.bytes
  pub same_count : r'.slot_count ≡ r.slot_count
  pub same_size : r'.slot_size ≡ r.slot_size

pub slot_length-SameSlots :
    (r r' : Ring) (seq : ℕ) → SameSlots r r' → slot_length r' seq ≡ slot_length r seq
unfolding slot_length
slot_length-SameSlots r r' seq s = rw (s.same_bytes, s.same_count, s.same_size)

pub Holds-SameSlots :
    (r r' : Ring) (seq : ℕ) (packet : List ℕ)
    → SameSlots r r'
    → Holds r seq packet
    → Holds r' seq packet
unfolding slot_payload
Holds-SameSlots r r' seq packet s h = record {
  size = rw (slot_length-SameSlots r r' seq s) h.size;
  content = rw (s.same_bytes, s.same_count, s.same_size) h.content;
}
