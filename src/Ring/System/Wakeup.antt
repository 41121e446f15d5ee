-- ===== src/Ring/System/Wakeup.antt =====
-- The futex protocol: the consumer goes to sleep on `notify_seq` only if it misses nothing.
use remy_desk.Base.{
  ℕ, ◌+◌, ◌%◌, ◌^◌, ◌≤◌, ◌<◌, ◌≡◌, ◌≢◌, ◌⊎◌, dec_lt, refl, sym, ◌∙◌, inl, inr, List, [], ◌∷◌,
  length, arith, length-append, true, false, Bool,
}
use mathlib.Core.Path.{subst}
use remy_desk.Ring.{Ring, publish, store_length, store_padding, store_payload, notify}
use remy_desk.Ring.System.{
  WriterPc, idle, commit, bump, wake, gone, ReaderPc, noted, rechecked, entering, asleep, System,
  WriterMove, count, close, ReaderMove, leave, load_notify, no_packet, no_close, doze, Step, write,
  send, rouse, read, deliver, woken, after_wake, start_system, Reach, start, later,
}
use remy_desk.Ring.System.Inv.{WriterFacts, ReaderFacts, Counts, Inv}
use remy_desk.Ring.System.Safety.{IsFresh, Reach-Inv, Step-published}

-- 1 where a store that a wake-up announces is made and not yet counted in `notify_seq`.
abbrev pub pending : WriterPc → ℕ
pending (bump last) = 1
pending _ = 0

-- A wake-up is under way.
abbrev pub IsWaking : WriterPc → Type 0
IsWaking (bump last) = Unit {0}
IsWaking (wake last) = Unit {0}
IsWaking _ = ⊥

-- What `closed` holds, by where the producer stands.
abbrev pub shut : WriterPc → ℕ
shut (bump true) = 1
shut (bump false) = 0
shut (wake true) = 1
shut (wake false) = 0
shut gone = 1
shut _ = 0

-- The value of `notify_seq` at a consumer that has read everything below `next`, up to one store
-- that is not counted yet.
abbrev pub Near : ℕ → ℕ → Type 0
Near n next = (n ≡ next % 2 ^ 32) ⊎ ((n + 1) % 2 ^ 32 ≡ next % 2 ^ 32)

-- What the value that the consumer compares with says, wherever it stands.
abbrev pub NoteFacts : Ring → WriterPc → ReaderPc → Type 0
NoteFacts r w (noted i n) = r.write_seq ≡ i → r.closed ≡ 0 → Near n i
NoteFacts r w (rechecked i n) = r.closed ≡ 0 → Near n i
NoteFacts r w (entering i n) = Near n i
NoteFacts r w (asleep i n) = ((r.write_seq ≡ i) × (r.closed ≡ 0)) ⊎ IsWaking w
NoteFacts r w _ = Unit {0}

pub record Counted (r : Ring) (w : WriterPc) : Type 0 where
  pub counted : (r.notify_seq + pending w) % 2 ^ 32 ≡ (r.write_seq + r.closed) % 2 ^ 32
  pub narrow : r.notify_seq < 2 ^ 32
  pub flag : r.closed ≡ shut w

pending-le : (w : WriterPc) → pending w ≤ 1
pending-le idle = omega arith
pending-le _ = omega arith

shut-le : (w : WriterPc) → shut w ≤ 1
shut-le (bump true) = omega arith
shut-le (bump false) = omega arith
shut-le (wake true) = omega arith
shut-le (wake false) = omega arith
shut-le _ = omega arith

pending-IsWaking : (w : WriterPc) → pending w ≢ 0 → IsWaking w
pending-IsWaking (bump last) h = tt
pending-IsWaking _ h = absurd (h refl)

shut-wake : (last : Bool) → shut (bump last) ≡ shut (wake last)
shut-wake true = refl
shut-wake false = refl

-- A move of the producer.
record Moved (r r' : Ring) (w w' : WriterPc) : Type 0 where
  counted : Counted r' w'
  same_write : r'.write_seq ≡ r.write_seq
  closes : (r'.closed ≡ r.closed) ⊎ IsWaking w'
  stays_open : r'.closed ≡ 0 → r.closed ≡ 0
  wakes : IsWaking w → IsWaking w'

WriterMove-Moved :
    {r r' : Ring} {w w' : WriterPc} → WriterMove r w r' w' → Counted r w → Moved r r' w w'
unfolding store_length store_padding store_payload notify
WriterMove-Moved (count {last}) c = record {
  counted = record { counted = omega arith; narrow = omega arith; flag = c.flag ∙ shut-wake last };
  same_write = refl;
  closes = inl refl;
  stays_open = λ h. h;
  wakes = λ h. tt;
}
WriterMove-Moved close c = record {
  counted = omega arith;
  same_write = refl;
  closes = inr tt;
  stays_open = λ h. omega arith;
  wakes = λ h. absurd h;
}
WriterMove-Moved mv c = record {
  counted = omega arith;
  same_write = refl;
  closes = inl refl;
  stays_open = λ h. h;
  wakes = λ h. h;
}

Moved-NoteFacts :
    (r r' : Ring) (w w' : WriterPc) (p : ReaderPc)
    → Moved r r' w w'
    → NoteFacts r w p
    → NoteFacts r' w' p
Moved-NoteFacts r r' w w' (noted i n) m f = λ e c. f (sym m.same_write ∙ e) (m.stays_open c)
Moved-NoteFacts r r' w w' (rechecked i n) m f = λ c. f (m.stays_open c)
Moved-NoteFacts r r' w w' (asleep i n) m f = elim f [
  | inl (e, c) ↦ elim m.closes [
    | inl same ↦ inl (m.same_write ∙ e, same ∙ c)
    | inr waking ↦ inr waking
  ]
  | inr waking ↦ inr (m.wakes waking)
]
Moved-NoteFacts r r' w w' (entering i n) m f = f
Moved-NoteFacts r r' w w' _ m f = tt

-- The consumer goes to sleep: either nothing has come, or the producer has yet to count what came.
doze_NoteFacts :
    (r : Ring) (w : WriterPc) (sent : List (List ℕ)) (n : ℕ)
    → Counts r sent
    → Counted r w
    → Near n r.read_seq
    → r.notify_seq ≡ n
    → NoteFacts r w (asleep r.read_seq n)
doze_NoteFacts r w sent n c k near e = elim (dec_lt 0 (pending w)) [
  | yes p ↦ inr (pending-IsWaking w (omega arith))
  | no p ↦ inl (let le = shut-le w in omega arith)
]

ReaderMove-NoteFacts :
    {r r' : Ring} {p p' : ReaderPc} (w : WriterPc) (sent : List (List ℕ)) (n : ℕ)
    → Counts r sent
    → Counted r w
    → ReaderFacts r sent n p
    → NoteFacts r w p
    → ReaderMove r p r' p'
    → NoteFacts r' w p'
ReaderMove-NoteFacts {r} w sent n c k f g (load_notify {read}) =
    λ e o. ground (arith, pending-le w, k.counted, k.narrow)
ReaderMove-NoteFacts w sent n c k f g (no_packet e) = λ o. g e o
ReaderMove-NoteFacts w sent n c k f g (no_close o) = g o
ReaderMove-NoteFacts {r} w sent n c k f g (doze {read} {n = m} e) =
    rw f.0 (doze_NoteFacts r w sent m c k (rw f.0 at g) e)
ReaderMove-NoteFacts w sent n c k f g mv = tt

ReaderMove-Counted :
    {r r' : Ring} {p p' : ReaderPc} (w : WriterPc)
    → ReaderMove r p r' p'
    → Counted r w
    → Counted r' w
ReaderMove-Counted w leave k = k
ReaderMove-Counted w mv k = omega arith

record Notes (s : System) : Type 0 where
  counting : Counted s.ring s.writer
  noting : NoteFacts s.ring s.writer s.reader

-- A packet is committed: a consumer that sleeps will be woken, and one that is about to sleep has
-- the value from before.
send_NoteFacts :
    (r : Ring) (seq : ℕ) (w : WriterPc) (sent : List (List ℕ)) (n : ℕ) (p : ReaderPc)
    → seq ≡ r.write_seq
    → length sent + 1 < 2 ^ 64
    → Counts r sent
    → ReaderFacts r sent n p
    → NoteFacts r w p
    → NoteFacts (publish r seq) (bump false) p
unfolding publish
send_NoteFacts r seq w sent n (noted i m) e small c f g = λ h o. absurd (omega arith)
send_NoteFacts r seq w sent n (rechecked i m) e small c f g = g
send_NoteFacts r seq w sent n (entering i m) e small c f g = g
send_NoteFacts r seq w sent n (asleep i m) e small c f g = inr tt
send_NoteFacts r seq w sent n _ e small c f g = tt

woken-NoteFacts :
    (r : Ring) (w w' : WriterPc) (p : ReaderPc) → NoteFacts r w p → NoteFacts r w' (woken p)
woken-NoteFacts r w w' (noted i m) g = g
woken-NoteFacts r w w' (rechecked i m) g = g
woken-NoteFacts r w w' (entering i m) g = g
woken-NoteFacts r w w' _ g = tt

after_wake-Counted : (r : Ring) (last : Bool) → Counted r (wake last) → Counted r (after_wake last)
after_wake-Counted r true k = omega arith
after_wake-Counted r false k = omega arith

send_Counted :
    (r : Ring) (sent : List (List ℕ)) (packet : List ℕ) (seq : ℕ)
    → seq ≡ r.write_seq
    → length sent + 1 < 2 ^ 64
    → Counts r sent
    → Counted r (commit packet seq)
    → Counted (publish r seq) (bump false)
unfolding publish
send_Counted r sent packet seq e small c k = omega arith

Step-Notes : {s t : System} → Step s t → length t.published < 2 ^ 64 → Inv s → Notes s → Notes t
Step-Notes {s} (write {r} {p} mv) small v k =
    let m = WriterMove-Moved mv k.counting in
    record {
      counting = m.counted;
      noting = Moved-NoteFacts s.ring r s.writer p s.reader m k.noting;
    }
Step-Notes {s} (read mv) small v k = record {
  counting = ReaderMove-Counted s.writer mv k.counting;
  noting =
      ReaderMove-NoteFacts s.writer s.published (length s.delivered) v.counts k.counting v.reading
        k.noting mv;
}
Step-Notes {s} (send {packet} {seq} e) small v k =
    let f : WriterFacts s.ring (commit packet seq) = subst (WriterFacts s.ring) e v.writing in
    let fits : length s.published + 1 < 2 ^ 64 =
      omega (arith, length-append s.published (packet ∷ [])) in
    record {
      counting =
          send_Counted s.ring s.published packet seq f.0.current fits v.counts
            (subst (Counted s.ring) e k.counting);
      noting =
          send_NoteFacts s.ring seq s.writer s.published (length s.delivered) s.reader f.0.current
            fits v.counts v.reading k.noting;
    }
Step-Notes {s} (rouse {last} e) small v k = record {
  counting = after_wake-Counted s.ring last (subst (Counted s.ring) e k.counting);
  noting = woken-NoteFacts s.ring s.writer (after_wake last) s.reader k.noting;
}
Step-Notes {s} (deliver e) small v k = record { counting = k.counting; noting = tt }

Reach-Notes :
    {r : Ring} {s : System}
    → IsFresh r
    → Reach (start_system r) s
    → length s.published < 2 ^ 64
    → Notes s
Reach-Notes f start small = record { counting = omega arith; noting = tt }
Reach-Notes f (later {t} reach st) small =
    let before : length t.published < 2 ^ 64 = omega (arith, Step-published st) in
    Step-Notes st small (Reach-Inv f reach before) (Reach-Notes f reach before)

-- No wake-up is lost: whenever the consumer sleeps in the futex call, on a ring that was fresh and
-- through which fewer than 2^64 packets were sent, either there is nothing for it (every published
-- packet is released and the ring is open), or the producer is between a store and the futex call
-- that wakes it.
pub asleep_misses_nothing :
    {r : Ring} {s : System} {i n : ℕ}
    → IsFresh r
    → Reach (start_system r) s
    → length s.published < 2 ^ 64
    → s.reader ≡ asleep i n
    → ((s.ring.write_seq ≡ s.ring.read_seq) × (s.ring.closed ≡ 0)) ⊎ IsWaking s.writer
asleep_misses_nothing {s} {i} {n} f reach small e =
    let v = Reach-Inv f reach small in
    let facts : ReaderFacts s.ring s.published (length s.delivered) (asleep i n) =
      subst (ReaderFacts s.ring s.published (length s.delivered)) e v.reading in
    let notes : NoteFacts s.ring s.writer (asleep i n) =
      subst (NoteFacts s.ring s.writer) e (Reach-Notes f reach small).noting in
    elim notes [ inl (same, opened) ↦ inl (same ∙ facts.0, opened) | inr waking ↦ inr waking ]
