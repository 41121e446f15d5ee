-- ===== src/Ring/System/Producer.antt =====
-- Every step of the producer keeps the invariant.
use native.Mathlib.Decide.{dec_lt}
use remy_desk.Base.{
  ℕ, ◌%◌, ◌≤◌, ◌≡◌, ◌≢◌, refl, ◌∙◌, List, length, get_elem?, some, arith, get_elem?-none,
}
use remy_desk.Ring.{Ring, store_length, store_padding, store_payload, notify}
use remy_desk.Ring.Slots.{
  Holds, SameSlots, Holds-SameSlots, mod_ne, store_length-Holds, store_padding-Holds,
  store_payload-Holds, store_length_lem, store_padding_lem, store_payload_lem,
}
use remy_desk.Ring.System.{
  WriterPc, put_padding, put_payload, commit, WriterMove, begin, full, room, give_up, give_up_late,
  fill_length, fill_padding, fill_payload, count, close,
}
use remy_desk.Ring.System.Inv.{IsStoring, WriterFacts, Counts, Stored}

-- A packet that is sent and not released has another slot than the one being filled.
other_slot :
    {r : Ring} {sent : List (List ℕ)} {packet : List ℕ} {seq : ℕ}
    → Counts r sent
    → IsStoring r packet seq
    → (i : ℕ) (p : List ℕ) → r.read_seq ≤ i
    → get_elem? sent i ≡ some p
    → i % r.slot_count ≢ seq % r.slot_count
other_slot {r} {sent} {seq} c w i p old e = elim (dec_lt i (length sent)) [
  | yes lt ↦ mod_ne r.slot_count i seq (omega arith) (omega arith)
  | no ge ↦ ground (arith, get_elem?-none sent i)
]

-- What a move of the producer keeps.
pub record Written (r : Ring) (sent : List (List ℕ)) (p : WriterPc) : Type 0 where
  pub counts : Counts r sent
  pub stored : Stored r sent
  pub writing : WriterFacts r p

pub SameSlots-Stored :
    (r r' : Ring) (sent : List (List ℕ))
    → SameSlots r r'
    → r.read_seq ≤ r'.read_seq
    → Stored r sent
    → Stored r' sent
SameSlots-Stored r r' sent s le st i p old e =
    let (h, fits) = st i p (omega arith) e in (Holds-SameSlots r r' i p s h, rw s.same_size fits)

-- The numbers that the facts of both threads speak of are the same in two states of a ring.
record SameNumbers (r r' : Ring) : Type 0 where
  same_slot_count : r'.slot_count ≡ r.slot_count
  same_slot_size : r'.slot_size ≡ r.slot_size
  same_write : r'.write_seq ≡ r.write_seq
  same_read : r'.read_seq ≡ r.read_seq

Counts-SameNumbers :
    (r r' : Ring) (sent : List (List ℕ)) → SameNumbers r r' → Counts r sent → Counts r' sent
Counts-SameNumbers r r' sent s c = ground arith

IsStoring-SameNumbers :
    (r r' : Ring) (packet : List ℕ) (seq : ℕ)
    → SameNumbers r r'
    → IsStoring r packet seq
    → IsStoring r' packet seq
IsStoring-SameNumbers r r' packet seq s w = ground arith

store_length-SameNumbers :
    (r : Ring) (seq : ℕ) (packet : List ℕ) → SameNumbers r (store_length r seq packet)
unfolding store_length
store_length-SameNumbers r seq packet = omega arith

store_padding-SameNumbers : (r : Ring) (seq : ℕ) → SameNumbers r (store_padding r seq)
unfolding store_padding
store_padding-SameNumbers r seq = omega arith

store_payload-SameNumbers :
    (r : Ring) (seq : ℕ) (packet : List ℕ) → SameNumbers r (store_payload r seq packet)
unfolding store_payload
store_payload-SameNumbers r seq packet = omega arith

-- A store into the slot being filled, by what it does to the numbers and to the other slots.
store_Written :
    (r r' : Ring) (sent : List (List ℕ)) (packet : List ℕ) (seq : ℕ) (p' : WriterPc)
    → SameNumbers r r'
    → Counts r sent
    → Stored r sent
    → IsStoring r packet seq
    → ((i : ℕ) (p : List ℕ)
        → i % r.slot_count ≢ seq % r.slot_count
        → length p ≤ r.slot_size
        → Holds r i p
        → Holds r' i p)
    → WriterFacts r' p'
    → Written r' sent p'
store_Written r r' sent packet seq p' s c st w keep facts = record {
  counts = Counts-SameNumbers r r' sent s c;
  stored = λ i p old e.
      let older : r.read_seq ≤ i = omega arith in
      let (h, fits) = st i p older e in
      (keep i p (other_slot c w i p older e) fits h, rw s.same_slot_size fits);
  writing = facts;
}

pub WriterMove-Written :
    {r r' : Ring} {p p' : WriterPc} {sent : List (List ℕ)}
    → WriterMove r p r' p'
    → Written r sent p
    → Written r' sent p'
WriterMove-Written (begin packet fits) v = record {
  counts = v.counts;
  stored = v.stored;
  writing = (fits, refl);
}
WriterMove-Written (full h) v = v
WriterMove-Written (room h) v = record {
  counts = v.counts;
  stored = v.stored;
  writing = omega arith;
}
WriterMove-Written give_up v = record { counts = v.counts; stored = v.stored; writing = tt }
WriterMove-Written give_up_late v = record { counts = v.counts; stored = v.stored; writing = tt }
WriterMove-Written {r} {sent} (fill_length {packet} {seq}) v =
    let s = store_length-SameNumbers r seq packet in
    store_Written r (store_length r seq packet) sent packet seq (put_padding packet seq) s v.counts
      v.stored v.writing (λ i p ne fits h. store_length-Holds r i seq p ne fits packet h)
      (
        IsStoring-SameNumbers r _ packet seq s v.writing,
        store_length_lem r seq packet (omega arith),
      )
WriterMove-Written {r} {sent} (fill_padding {packet} {seq}) v =
    let s = store_padding-SameNumbers r seq in
    store_Written r (store_padding r seq) sent packet seq (put_payload packet seq) s v.counts
      v.stored v.writing.0 (λ i p ne fits h. store_padding-Holds r i seq p ne fits h)
      (IsStoring-SameNumbers r _ packet seq s v.writing.0, store_padding_lem r seq ∙ v.writing.1)
WriterMove-Written {r} {sent} (fill_payload {packet} {seq}) v =
    let s = store_payload-SameNumbers r seq packet in
    store_Written r (store_payload r seq packet) sent packet seq (commit packet seq) s v.counts
      v.stored v.writing.0
      (λ i p ne fits h. store_payload-Holds r i seq p ne fits packet v.writing.0.fits h)
      (
        IsStoring-SameNumbers r _ packet seq s v.writing.0,
        store_payload_lem r seq packet v.writing.1,
      )
WriterMove-Written {r} {sent} count v = record {
  counts = unfold notify in (omega arith);
  stored =
      SameSlots-Stored r (notify r) sent
        (unfold notify in record { same_bytes = refl; same_count = refl; same_size = refl })
        (unfold notify in (omega arith)) v.stored;
  writing = tt;
}
WriterMove-Written {r} {sent} close v = record {
  counts = omega arith;
  stored =
      SameSlots-Stored r (record r { closed = 1 }) sent
        (record { same_bytes = refl; same_count = refl; same_size = refl }) (omega arith) v.stored;
  writing = tt;
}
