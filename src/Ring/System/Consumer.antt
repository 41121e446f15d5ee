-- ===== src/Ring/System/Consumer.antt =====
-- Every step of the consumer keeps the invariant, and neither thread breaks the other's facts.
use remy_desk.Base.{
  some, get_elem?, ℕ, ◌+◌, ◌%◌, ◌^◌, ◌≤◌, ◌≡◌, refl, sym, ◌∙◌, List, ◌++◌, length, arith,
  length-append, get_elem?-some, get_elem?-append_some,
}
use remy_desk.Ring.{Ring}
use remy_desk.Ring.Slots.{SameSlots, Holds-SameSlots, slot_length-SameSlots}
use remy_desk.Ring.System.{
  asleep, woken, WriterPc, put_padding, put_payload, commit, ReaderPc, sized, finished, ReaderMove,
  leave, request, see_packet, load_length, advance,
}
use remy_desk.Ring.System.Inv.{WriterFacts, ReaderFacts, Counts, Stored}
use remy_desk.Ring.System.Producer.{SameSlots-Stored}

-- What is known of the number of packets that went out, wherever the consumer stands.
pub ReaderFacts-le :
    (r : Ring) (sent : List (List ℕ)) (n : ℕ) (p : ReaderPc)
    → Counts r sent
    → ReaderFacts r sent n p
    → n ≤ length sent
ReaderFacts-le r sent n finished c f = f
ReaderFacts-le r sent n _ c f = omega arith

-- The packets of `sent` stand at the same places in `sent'`.
pub record Extends (sent sent' : List (List ℕ)) : Type 0 where
  pub longer : length sent ≤ length sent'
  pub kept : (i : ℕ) (p : List ℕ) → get_elem? sent i ≡ some p → get_elem? sent' i ≡ some p

pub Extends-append : (sent more : List (List ℕ)) → Extends sent (sent ++ more)
Extends-append sent more = record {
  longer = omega (arith, length-append sent more);
  kept = λ i p e. get_elem?-append_some sent more i e;
}

-- The producer neither moves `read_seq` nor takes back a packet.
pub ReaderFacts-Extends :
    (r r' : Ring) (sent sent' : List (List ℕ)) (n : ℕ) (p : ReaderPc)
    → r'.read_seq ≡ r.read_seq
    → Extends sent sent'
    → ReaderFacts r sent n p
    → ReaderFacts r' sent' n p
ReaderFacts-Extends r r' sent sent' n (sized i size) e x f =
    (omega arith, omega arith, f.2, x.kept i f.2 f.3, f.4)
ReaderFacts-Extends r r' sent sent' n _ e x f = ground arith

pub WriterFacts-SameSlots :
    (r r' : Ring) (p : WriterPc)
    → SameSlots r r'
    → r'.write_seq ≡ r.write_seq
    → r.read_seq ≤ r'.read_seq
    → WriterFacts r p
    → WriterFacts r' p
WriterFacts-SameSlots r r' (commit packet seq) s e le f = (
  record { fits = rw s.same_size f.0.fits; current = f.0.current ∙ sym e; free = omega arith },
  Holds-SameSlots r r' seq packet s f.1,
)
WriterFacts-SameSlots r r' (put_padding packet seq) s e le f =
    ground (arith, slot_length-SameSlots r r' seq s)
WriterFacts-SameSlots r r' (put_payload packet seq) s e le f =
    ground (arith, slot_length-SameSlots r r' seq s)
WriterFacts-SameSlots r r' _ s e le f = ground arith

-- What a move of the consumer keeps, with the number of packets that went out.
pub record Read (r : Ring) (sent : List (List ℕ)) (n : ℕ) (p : ReaderPc) : Type 0 where
  pub counts : Counts r sent
  pub stored : Stored r sent
  pub reading : ReaderFacts r sent n p

pub ReaderMove-Read :
    {r r' : Ring} {p p' : ReaderPc} {sent : List (List ℕ)} {n : ℕ}
    → ReaderMove r p r' p'
    → Read r sent n p
    → Read r' sent n p'
ReaderMove-Read {r} {sent} {n} (leave {p}) v = record {
  counts = v.counts;
  stored = v.stored;
  reading = ReaderFacts-le r sent n p v.counts v.reading;
}
ReaderMove-Read {r} {sent} (request d) v = record {
  counts = omega arith;
  stored =
      SameSlots-Stored r (record r { requested_bitrate = d }) sent
        (record { same_bytes = refl; same_count = refl; same_size = refl }) (omega arith) v.stored;
  reading = v.reading;
}
ReaderMove-Read {r} {sent} (advance {read}) v = record {
  counts = omega arith;
  stored =
      SameSlots-Stored r (record r { read_seq = (read + 1) % 2 ^ 64 }) sent
        (record { same_bytes = refl; same_count = refl; same_size = refl }) (omega arith) v.stored;
  reading = omega arith;
}
ReaderMove-Read {r} {sent} (load_length {read} h) v =
    let (p, e) = get_elem?-some sent read v.reading.2 in
    let (held, fits) = v.stored read p (omega arith) e in
    record {
      counts = v.counts;
      stored = v.stored;
      reading = (v.reading.0, v.reading.1, p, e, held.size);
    }
ReaderMove-Read (see_packet lt) v = record {
  counts = v.counts;
  stored = v.stored;
  reading = omega arith;
}
ReaderMove-Read mv v = record { counts = v.counts; stored = v.stored; reading = omega arith }

-- A wake-up sends a sleeping consumer back to the head of its loop.
pub woken-ReaderFacts :
    (r : Ring) (sent : List (List ℕ)) (n : ℕ) (p : ReaderPc)
    → ReaderFacts r sent n p
    → ReaderFacts r sent n (woken p)
woken-ReaderFacts r sent n (asleep i e) f = f.1
woken-ReaderFacts r sent n _ f = f
