-- ===== src/Ring/System.antt =====
-- The producer (`stream_writer_write`, `stream_writer_close`) and the consumer
-- (`consumeSharedRing` in native/webrtc-publisher/main.go) as two threads over one ring, one access
-- to shared memory at a time, interleaved in any order. Every atomic access is taken to be
-- sequentially consistent, as the release and acquire pairs of the two programs are meant to make it.
pub mod Inv
pub mod Producer
pub mod Consumer
pub mod Safety
pub mod Wakeup
pub mod Call
use remy_desk.Base.{
  ℕ, ◌+◌, ◌%◌, ◌^◌, ◌≤◌, ◌<◌, ◌≡◌, ◌≢◌, Bool, true, false, List, [], ◌∷◌, ◌++◌, length, some,
}
use remy_desk.Ring.{Ring, backlog, store_length, store_padding, store_payload, publish, notify}
use remy_desk.Ring.Reader.{slot_length, slot_payload}

-- Where the producer stands, with its live locals: the packet, and the `write_seq` that it loaded.
pub data WriterPc : Type 0 where
  idle : WriterPc  -- between calls
  waiting : (packet : List ℕ) (seq : ℕ) → WriterPc  -- the `while` of `stream_writer_write`
  put_length : (packet : List ℕ) (seq : ℕ) → WriterPc  -- behind the wait
  put_padding : (packet : List ℕ) (seq : ℕ) → WriterPc
  put_payload : (packet : List ℕ) (seq : ℕ) → WriterPc
  commit : (packet : List ℕ) (seq : ℕ) → WriterPc  -- before the store to `write_seq`
  bump : (last : Bool) → WriterPc  -- start of `stream_writer_notify`
  wake : (last : Bool) → WriterPc  -- before its futex call
  gone : WriterPc  -- `stream_writer_close` has returned

-- Where the consumer stands, with its live locals.
pub data ReaderPc : Type 0 where
  top : ReaderPc  -- head of the loop
  loaded_read : (read : ℕ) → ReaderPc
  found : (read : ℕ) → ReaderPc  -- read < write
  sized : (read size : ℕ) → ReaderPc
  passed_on : (read : ℕ) → ReaderPc  -- before the store to `read_seq`
  empty : (read : ℕ) → ReaderPc  -- not (read < write)
  still_open : (read : ℕ) → ReaderPc  -- `closed` was 0
  noted : (read expected : ℕ) → ReaderPc  -- `notify_seq` loaded
  rechecked : (read expected : ℕ) → ReaderPc  -- `write_seq` loaded again
  entering : (read expected : ℕ) → ReaderPc  -- before the futex call
  asleep : (read expected : ℕ) → ReaderPc  -- in the futex call
  finished : ReaderPc

-- `published` and `delivered` record the packets that were committed and passed on, oldest first.
pub record System : Type 0 where
  pub ring : Ring
  pub writer : WriterPc
  pub reader : ReaderPc
  pub published : List (List ℕ)
  pub delivered : List (List ℕ)

pub data WriterMove (r : Ring) : WriterPc → Ring → WriterPc → Type 0 where
  -- The test on the size, and the load of `write_seq`. A packet too large changes nothing.
  begin :
      (packet : List ℕ)
      → length packet ≤ r.slot_size
      → WriterMove r idle r (waiting packet r.write_seq)
  full :
      {packet : List ℕ} {seq : ℕ}
      → r.slot_count ≤ backlog seq r.read_seq
      → WriterMove r (waiting packet seq) r (waiting packet seq)
  room :
      {packet : List ℕ} {seq : ℕ}
      → backlog seq r.read_seq < r.slot_count
      → WriterMove r (waiting packet seq) r (put_length packet seq)
  -- `stop_requested`, in the loop or behind it
  give_up : {packet : List ℕ} {seq : ℕ} → WriterMove r (waiting packet seq) r idle
  give_up_late : {packet : List ℕ} {seq : ℕ} → WriterMove r (put_length packet seq) r idle
  fill_length :
      {packet : List ℕ} {seq : ℕ}
      → WriterMove r (put_length packet seq) (store_length r seq packet) (put_padding packet seq)
  fill_padding :
      {packet : List ℕ} {seq : ℕ}
      → WriterMove r (put_padding packet seq) (store_padding r seq) (put_payload packet seq)
  fill_payload :
      {packet : List ℕ} {seq : ℕ}
      → WriterMove r (put_payload packet seq) (store_payload r seq packet) (commit packet seq)
  -- `stream_writer_notify`, behind a packet or behind the close
  count : {last : Bool} → WriterMove r (bump last) (notify r) (wake last)
  -- `stream_writer_close`
  close : WriterMove r idle (record r { closed = 1 }) (bump true)

pub data ReaderMove (r : Ring) : ReaderPc → Ring → ReaderPc → Type 0 where
  -- `ctx.Done`, `cmdDone`, and a file that was replaced
  leave : {p : ReaderPc} → ReaderMove r p r finished
  request : (desired : ℕ) → ReaderMove r top (record r { requested_bitrate = desired }) top
  load_read : ReaderMove r top r (loaded_read r.read_seq)
  see_packet : {read : ℕ} → read < r.write_seq → ReaderMove r (loaded_read read) r (found read)
  see_none : {read : ℕ} → r.write_seq ≤ read → ReaderMove r (loaded_read read) r (empty read)
  load_length :
      {read : ℕ}
      → slot_length r read ≤ r.slot_size
      → ReaderMove r (found read) r (sized read (slot_length r read))
  bad_length : {read : ℕ} → r.slot_size < slot_length r read → ReaderMove r (found read) r finished
  advance :
      {read : ℕ} → ReaderMove r (passed_on read) (record r { read_seq = (read + 1) % 2 ^ 64 }) top
  see_closed : {read : ℕ} → r.closed ≢ 0 → ReaderMove r (empty read) r finished
  see_open : {read : ℕ} → r.closed ≡ 0 → ReaderMove r (empty read) r (still_open read)
  load_notify : {read : ℕ} → ReaderMove r (still_open read) r (noted read r.notify_seq)
  new_packet : {read n : ℕ} → r.write_seq ≢ read → ReaderMove r (noted read n) r top
  no_packet : {read n : ℕ} → r.write_seq ≡ read → ReaderMove r (noted read n) r (rechecked read n)
  new_close : {read n : ℕ} → r.closed ≢ 0 → ReaderMove r (rechecked read n) r top
  no_close : {read n : ℕ} → r.closed ≡ 0 → ReaderMove r (rechecked read n) r (entering read n)
  -- FUTEX_WAIT compares and goes to sleep in one step; else it returns EAGAIN.
  doze : {read n : ℕ} → r.notify_seq ≡ n → ReaderMove r (entering read n) r (asleep read n)
  again : {read n : ℕ} → r.notify_seq ≢ n → ReaderMove r (entering read n) r top
  time_out : {read n : ℕ} → ReaderMove r (asleep read n) r top

-- FUTEX_WAKE ends the sleep of a consumer, and does nothing to one that is awake.
abbrev pub woken : ReaderPc → ReaderPc
woken (asleep read n) = top
woken p = p

-- Where `stream_writer_notify` returns to.
abbrev pub after_wake : Bool → WriterPc
after_wake true = gone
after_wake false = idle

pub data Step (s : System) : System → Type 0 where
  write :
      {r : Ring} {p : WriterPc}
      → WriterMove s.ring s.writer r p
      → Step s (record s { ring = r; writer = p })
  send :
      {packet : List ℕ} {seq : ℕ}
      → s.writer ≡ commit packet seq
      → Step s (record s {
        ring = publish s.ring seq;
        writer = bump false;
        published = s.published ++ (packet ∷ []);
      })
  rouse :
      {last : Bool}
      → s.writer ≡ wake last
      → Step s (record s { writer = after_wake last; reader = woken s.reader })
  read :
      {r : Ring} {p : ReaderPc}
      → ReaderMove s.ring s.reader r p
      → Step s (record s { ring = r; reader = p })
  -- The bytes of the slot go out.
  deliver :
      {read size : ℕ}
      → s.reader ≡ sized read size
      → Step s (record s {
        reader = passed_on read;
        delivered = s.delivered ++ (slot_payload s.ring read size ∷ []);
      })

-- Both programs at the start, on a ring that `stream_writer_init` has set up.
abbrev pub start_system : Ring → System
start_system r = record { ring = r; writer = idle; reader = top; published = []; delivered = [] }

pub data Reach (s : System) : System → Type 0 where
  start : Reach s s
  later : {t u : System} → Reach s t → Step t u → Reach s u
