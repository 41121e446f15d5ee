-- ===== src/Ring/System/Safety.antt =====
-- The invariant holds in every reachable state of the producer and the consumer, and what follows
-- from it: packets arrive whole, once and in order.
use mathlib.Core.Path.{subst}
use remy_desk.Base.{
  drop, take-append-drop, ℕ, suc, ◌+◌, ◌%◌, ◌^◌, ◌≤◌, ◌<◌, ◌≡◌, refl, sym, ap, ◌∙◌, List, [], ◌∷◌,
  ◌++◌, length, get_elem?, take, some, arith, length-append, take-append, take-suc,
  get_elem?-append, get_elem?-append_end, get_elem?-some, true, false, Bool, dec_lt, get_elem?-lt,
}
use remy_desk.Ring.{Ring, publish, store_length, store_padding, store_payload, notify}
use remy_desk.Ring.Reader.{read_slot, slot_payload}
use remy_desk.Ring.Slots.{read_slot-Holds, Holds, SameSlots, Holds-SameSlots}
use remy_desk.Ring.System.{
  WriterPc, commit, bump, ReaderPc, found, sized, passed_on, System, WriterMove, close, ReaderMove,
  advance, Step, write, send, rouse, read, deliver, after_wake, start_system, Reach, start, later,
}
use remy_desk.Ring.System.Inv.{IsStoring, WriterFacts, ReaderFacts, Counts, Stored, Inv}
use remy_desk.Ring.System.Producer.{Written, WriterMove-Written}
use remy_desk.Ring.System.Consumer.{
  ReaderFacts-le, Extends-append, ReaderFacts-Extends, Read, WriterFacts-SameSlots, ReaderMove-Read,
  woken-ReaderFacts,
}

-- What a move of the consumer leaves alone.
record Frame (r r' : Ring) : Type 0 where
  slots : SameSlots r r'
  writes : r'.write_seq ≡ r.write_seq
  reads : r.read_seq ≤ r'.read_seq

ReaderMove-Frame :
    {r r' : Ring} {p p' : ReaderPc} (sent : List (List ℕ)) (n : ℕ)
    → Counts r sent
    → ReaderFacts r sent n p
    → ReaderMove r p r' p'
    → Frame r r'
ReaderMove-Frame sent n c f advance = record {
  slots = record { same_bytes = refl; same_count = refl; same_size = refl };
  writes = refl;
  reads = omega arith;
}
ReaderMove-Frame sent n c f mv = record {
  slots = record { same_bytes = refl; same_count = refl; same_size = refl };
  writes = refl;
  reads = omega arith;
}

WriterMove-read_seq :
    {r r' : Ring} {p p' : WriterPc} → WriterMove r p r' p' → r'.read_seq ≡ r.read_seq
unfolding store_length store_padding store_payload notify
WriterMove-read_seq close = refl
WriterMove-read_seq mv = refl

-- The packet that `send` commits joins the stored ones.
send_Stored :
    (r : Ring) (sent : List (List ℕ)) (packet : List ℕ) (seq : ℕ)
    → Counts r sent
    → Stored r sent
    → IsStoring r packet seq
    → Holds r seq packet
    → Stored (publish r seq) (sent ++ (packet ∷ []))
unfolding publish
send_Stored r sent packet seq c st w h i p old e = elim (dec_lt i (length sent)) [
  | yes lt ↦
      let (held, fits) = st i p old (sym (get_elem?-append sent (packet ∷ []) i lt) ∙ e) in
      (Holds-SameSlots r _ i p same held, fits)
  | no ge ↦
      let lt = get_elem?-lt (sent ++ (packet ∷ [])) i e in
      let at_end : i ≡ seq = omega (arith, length-append sent (packet ∷ [])) in
      let same_packet : p ≡ packet = cc (get_elem?-append_end sent packet i (omega arith)) in
      rw (at_end, same_packet) (Holds-SameSlots r _ seq packet same h, w.fits)
]
  where
    same : SameSlots r (record r { write_seq = (seq + 1) % 2 ^ 64 })
    same = record { same_bytes = refl; same_count = refl; same_size = refl }

send_Inv :
    {s : System} {packet : List ℕ} {seq : ℕ}
    → s.writer ≡ commit packet seq
    → length (s.published ++ (packet ∷ [])) < 2 ^ 64
    → Inv s
    → Inv (record s {
      ring = publish s.ring seq;
      writer = bump false;
      published = s.published ++ (packet ∷ []);
    })
send_Inv {s} {packet} {seq} e small v =
    let f : WriterFacts s.ring (commit packet seq) = subst (WriterFacts s.ring) e v.writing in
    record {
      counts = unfold publish in (omega (arith, length-append s.published (packet ∷ [])));
      stored = send_Stored s.ring s.published packet seq v.counts v.stored f.0 f.1;
      in_order =
          v.in_order
          ∙ sym (
              take-append _ s.published (packet ∷ [])
                (ReaderFacts-le s.ring s.published _ s.reader v.counts v.reading));
      writing = tt;
      reading =
          ReaderFacts-Extends s.ring (publish s.ring seq) s.published (s.published ++ (packet ∷ []))
            (length s.delivered) s.reader (unfold publish in refl)
            (Extends-append s.published (packet ∷ [])) v.reading;
    }

deliver_order :
    (out sent : List (List ℕ)) (p : List ℕ)
    → out ≡ take (length out) sent
    → get_elem? sent (length out) ≡ some p
    → out ++ (p ∷ []) ≡ take (length (out ++ (p ∷ []))) sent
deliver_order out sent p e here =
    let longer : length (out ++ (p ∷ [])) ≡ suc (length out) =
      omega (arith, length-append out (p ∷ [])) in
    rw longer (rw (take-suc (length out) sent here) (ap (λ l. l ++ (p ∷ [])) e))

deliver_Inv :
    {s : System} {i size : ℕ}
    → s.reader ≡ sized i size
    → Inv s
    → Inv (record s {
      reader = passed_on i;
      delivered = s.delivered ++ (slot_payload s.ring i size ∷ []);
    })
deliver_Inv {s} {i} {size} e v =
    let f : ReaderFacts s.ring s.published (length s.delivered) (sized i size) =
      subst (ReaderFacts s.ring s.published (length s.delivered)) e v.reading in
    let (held, fits) = v.stored i f.2 (omega arith) f.3 in
    let payload : slot_payload s.ring i size ≡ f.2 = rw f.4 held.content in
    let old : s.delivered ≡ take (length s.delivered) s.published = v.in_order in
    let here : get_elem? s.published (length s.delivered) ≡ some f.2 = rw (f.1, ← f.0) f.3 in
    record {
      counts = v.counts;
      stored = v.stored;
      in_order = rw payload (deliver_order s.delivered s.published f.2 old here);
      writing = v.writing;
      reading = (
        f.0,
        omega (arith, length-append s.delivered (slot_payload s.ring i size ∷ [])),
        get_elem?-lt s.published i f.3,
      );
    }

after_wake-WriterFacts : (r : Ring) (last : Bool) → WriterFacts r (after_wake last)
after_wake-WriterFacts r true = tt
after_wake-WriterFacts r false = tt

pub Step-Inv : {s t : System} → Step s t → length t.published < 2 ^ 64 → Inv s → Inv t
Step-Inv {s} (write {r} mv) small v =
    let w : Written s.ring s.published s.writer = record {
      counts = v.counts;
      stored = v.stored;
      writing = v.writing;
    } in
    let w' = WriterMove-Written mv w in
    record {
      counts = w'.counts;
      stored = w'.stored;
      in_order = v.in_order;
      writing = w'.writing;
      reading =
          ReaderFacts-Extends s.ring r s.published s.published (length s.delivered) s.reader
            (WriterMove-read_seq mv) (record { longer = omega arith; kept = λ i p e. e }) v.reading;
    }
Step-Inv {s} (read {r} mv) small v =
    let w : Read s.ring s.published (length s.delivered) s.reader = record {
      counts = v.counts;
      stored = v.stored;
      reading = v.reading;
    } in
    let w' = ReaderMove-Read mv w in
    let f = ReaderMove-Frame s.published (length s.delivered) v.counts v.reading mv in
    record {
      counts = w'.counts;
      stored = w'.stored;
      in_order = v.in_order;
      writing = WriterFacts-SameSlots s.ring r s.writer f.slots f.writes f.reads v.writing;
      reading = w'.reading;
    }
Step-Inv (send e) small v = send_Inv e small v
Step-Inv (deliver e) small v = deliver_Inv e v
Step-Inv {s} (rouse {last} e) small v = record {
  counts = v.counts;
  stored = v.stored;
  in_order = v.in_order;
  writing = after_wake-WriterFacts s.ring last;
  reading = woken-ReaderFacts s.ring s.published (length s.delivered) s.reader v.reading;
}

pub Step-published : {s t : System} → Step s t → length s.published ≤ length t.published
Step-published {s} (send {packet} e) = omega (arith, length-append s.published (packet ∷ []))
Step-published st = omega arith

-- A ring as `stream_writer_init` leaves it: nothing sent, nothing read, room for some packet.
pub record IsFresh (r : Ring) : Type 0 where
  pub unsent : r.write_seq ≡ 0
  pub unread : r.read_seq ≡ 0
  pub opened : r.closed ≡ 0
  pub silent : r.notify_seq ≡ 0
  pub some_slots : 0 < r.slot_count
  pub few_slots : r.slot_count ≤ 64
  pub small_slots : r.slot_size < 2 ^ 32

start_system-Inv : (r : Ring) → IsFresh r → Inv (start_system r)
start_system-Inv r f = record {
  counts = omega arith;
  stored = λ i p old e. cc;
  in_order = refl;
  writing = tt;
  reading = omega arith;
}

pub Reach-Inv :
    {r : Ring} {s : System}
    → IsFresh r
    → Reach (start_system r) s
    → length s.published < 2 ^ 64
    → Inv s
Reach-Inv {r} f start small = start_system-Inv r f
Reach-Inv f (later reach st) small =
    Step-Inv st small (Reach-Inv f reach (omega (arith, Step-published st)))

-- Whatever the interleaving of the producer and the consumer: on a fresh ring, as long as fewer than
-- 2^64 packets were sent, the packets that the consumer has passed on are the first ones that the
-- producer published, whole and in order.
pub delivered-published :
    {r : Ring} {s : System}
    → IsFresh r
    → Reach (start_system r) s
    → length s.published < 2 ^ 64
    → s.published ≡ s.delivered ++ drop (length s.delivered) s.published
delivered-published {s} f reach small =
    sym (take-append-drop (length s.delivered) s.published)
    ∙ ap (λ l. l ++ drop (length s.delivered) s.published) (sym (Reach-Inv f reach small).in_order)

-- Where the consumer has found a packet (`read < write`), its slot decodes to the packet that was
-- published under that number, so the check of the length never fails.
pub found-read_slot :
    {r : Ring} {s : System} {i : ℕ}
    → IsFresh r
    → Reach (start_system r) s
    → length s.published < 2 ^ 64
    → s.reader ≡ found i
    → (p : List ℕ) × (get_elem? s.published i ≡ some p) × (read_slot s.ring i ≡ some p)
found-read_slot {s} {i} f reach small e =
    let v = Reach-Inv f reach small in
    let facts : ReaderFacts s.ring s.published (length s.delivered) (found i) =
      subst (ReaderFacts s.ring s.published (length s.delivered)) e v.reading in
    let (p, here) = get_elem?-some s.published i facts.2 in
    let (held, fits) = v.stored i p (omega arith) here in
    (p, here, read_slot-Holds s.ring i p fits held)
