-- ===== src/Ring/System/Inv.antt =====
-- What holds of the ring, the producer and the consumer in every reachable state, as long as fewer
-- than 2^64 packets were sent.
use remy_desk.Base.{ℕ, ◌+◌, ◌^◌, ◌≤◌, ◌<◌, ◌≡◌, List, length, get_elem?, take, some}
use remy_desk.Ring.{Ring}
use remy_desk.Ring.Reader.{slot_length}
use remy_desk.Ring.Slots.{Holds}
use remy_desk.Ring.System.{
  WriterPc, waiting, put_length, put_padding, put_payload, commit, ReaderPc, top, loaded_read,
  found, sized, passed_on, empty, still_open, noted, rechecked, entering, asleep, finished, System,
}

-- The producer's packet fits a slot, its sequence number is current, and from `put_length` on its
-- slot is free.
pub record IsStoring (r : Ring) (packet : List ℕ) (seq : ℕ) : Type 0 where
  pub fits : length packet ≤ r.slot_size
  pub current : seq ≡ r.write_seq
  pub free : r.write_seq < r.read_seq + r.slot_count

abbrev pub WriterFacts : Ring → WriterPc → Type 0
WriterFacts r (waiting packet seq) = (length packet ≤ r.slot_size) × (seq ≡ r.write_seq)
WriterFacts r (put_length packet seq) = IsStoring r packet seq
WriterFacts r (put_padding packet seq) =
    IsStoring r packet seq × (slot_length r seq ≡ length packet)
WriterFacts r (put_payload packet seq) =
    IsStoring r packet seq × (slot_length r seq ≡ length packet)
WriterFacts r (commit packet seq) = IsStoring r packet seq × Holds r seq packet
WriterFacts r _ = Unit {0}

-- With `sent` the packets that were published and `count` the number that went out.
abbrev pub ReaderFacts : Ring → List (List ℕ) → ℕ → ReaderPc → Type 0
ReaderFacts r sent count finished = count ≤ length sent
ReaderFacts r sent count top = count ≡ r.read_seq
ReaderFacts r sent count (loaded_read read) = (read ≡ r.read_seq) × (count ≡ r.read_seq)
ReaderFacts r sent count (found read) =
    (read ≡ r.read_seq) × (count ≡ r.read_seq) × (read < length sent)
ReaderFacts r sent count (sized read size) =
    (read ≡ r.read_seq)
    × (count ≡ r.read_seq)
    × (p : List ℕ) × (get_elem? sent read ≡ some p)
    × (size ≡ length p)
ReaderFacts r sent count (passed_on read) =
    (read ≡ r.read_seq) × (count ≡ r.read_seq + 1) × (read < length sent)
ReaderFacts r sent count (empty read) = (read ≡ r.read_seq) × (count ≡ r.read_seq)
ReaderFacts r sent count (still_open read) = (read ≡ r.read_seq) × (count ≡ r.read_seq)
ReaderFacts r sent count (noted read n) = (read ≡ r.read_seq) × (count ≡ r.read_seq)
ReaderFacts r sent count (rechecked read n) = (read ≡ r.read_seq) × (count ≡ r.read_seq)
ReaderFacts r sent count (entering read n) = (read ≡ r.read_seq) × (count ≡ r.read_seq)
ReaderFacts r sent count (asleep read n) = (read ≡ r.read_seq) × (count ≡ r.read_seq)

-- The numbers of a ring that both sides agree on.
pub record Counts (r : Ring) (sent : List (List ℕ)) : Type 0 where
  pub some_slots : 0 < r.slot_count
  pub few_slots : r.slot_count ≤ 64
  pub size_small : r.slot_size < 2 ^ 32
  pub no_wrap : length sent < 2 ^ 64
  pub all_sent : r.write_seq ≡ length sent
  pub order : r.read_seq ≤ r.write_seq
  pub bounded : r.write_seq ≤ r.read_seq + r.slot_count

-- Every packet that was sent and not released by the consumer still stands in its slot.
abbrev pub Stored : Ring → List (List ℕ) → Type 0
Stored r sent =
    (i : ℕ) (p : List ℕ)
    → r.read_seq ≤ i
    → get_elem? sent i ≡ some p
    → Holds r i p × (length p ≤ r.slot_size)

pub record Inv (s : System) : Type 0 where
  pub counts : Counts s.ring s.published
  pub stored : Stored s.ring s.published
  pub in_order : s.delivered ≡ take (length s.delivered) s.published
  pub writing : WriterFacts s.ring s.writer
  pub reading : ReaderFacts s.ring s.published (length s.delivered) s.reader
