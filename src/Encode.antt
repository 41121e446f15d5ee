-- ===== src/Encode.antt =====
-- `encode_one_frame` of native/desktop-streamer/drm_rga_mpp_stream.c: one frame goes to the MPP
-- encoder, and its packets are drained into the writer. What MPP answers is an argument, and so is
-- the writer: a function on its state, which is `stream_writer_write` in the program.
pub mod Drain
pub mod Enough
pub mod Frame
pub mod Balance
pub mod Keeps
mod Tests
use remy_desk.Base.{
  ℕ, zero, suc, ◌+◌, Bool, true, false, ◌||◌, not, List, [], ◌∷◌, ◌++◌, length, if◌then◌else◌,
}

pub record Packet : Type 0 where
  pub data_bytes : List ℕ
  pub is_partition : Bool
  pub is_eoi : Bool

-- What one call of encode_get_packet answers. The first is a timeout or no packet; it tells whether
-- the program's pointer to its packet is still set.
pub data Get : Type 0 where
  nothing : Bool → Get
  refused : Get
  got : Packet → Get

-- What MPP answers to the other calls, and the flag that a signal sets.
pub record MppCalls : Type 0 where
  pub frame_init_fails : Bool
  pub packet_init_fails : Bool
  pub force_idr_requested : Bool
  pub put_frame_fails : Bool
  pub get_packet : ℕ → Get

-- The calls that take or give back an object of MPP, and the request of a key frame.
pub data MppCall : Type 0 where
  frame_init frame_deinit packet_init packet_deinit packet_got set_idr_frame put_frame : MppCall

-- `returns_zero` tells 0 from -1.
pub record Encoded (S : Type 0) : Type 0 where
  pub returns_zero : Bool
  pub encoded_size : ℕ
  pub state : S
  pub force_idr : Bool
  pub calls : List MppCall

abbrev pub encoded : {S : Type 0} → Bool → ℕ → S → Bool → List MppCall → Encoded S
encoded ok size s idr calls = record {
  returns_zero = ok;
  encoded_size = size;
  state = s;
  force_idr = idr;
  calls = calls;
}

abbrev pub before : {S : Type 0} → List MppCall → Encoded S → Encoded S
before l e = record e { calls = l ++ e.calls }

-- The rounds of the loop that drains a frame.
abbrev pub drain_rounds : ℕ
drain_rounds = 128

abbrev pub still_set : Get → Bool
still_set (nothing set) = set
still_set _ = false

module _ {S : Type 0} (write : S → List ℕ → Bool × S) where
  -- if (len) { write_rc = ...; *encoded_size += len; }
  unfoldable pub pass_on : S → List ℕ → ℕ → Bool × S × ℕ
  pass_on s [] size = (true, s, size)
  pass_on s (b ∷ bytes) size =
      let (ok, s') = write s (b ∷ bytes) in
      (ok, s', (if ok then size + length (b ∷ bytes) else size))

  -- The loop, with so many rounds left, from round `i` on. The last answer tells whether there is
  -- a packet to give back behind the loop.
  unfoldable pub drain : (ℕ → Get) → ℕ → ℕ → Get → S → ℕ → Encoded S
  drain get zero i last s size =
      encoded false size s false (if still_set last then packet_deinit ∷ [] else [])
  drain get (suc rounds) i last s size = elim (get i) [
    | nothing set ↦ drain get rounds (i + 1) (nothing set) s size
    | refused ↦ encoded false size s false []
    | got p ↦
        let (ok, s', size') = pass_on s p.data_bytes size in
        let rest = drain get rounds (i + 1) (got p) s' size' in
        before (packet_got ∷ packet_deinit ∷ []) (
          if not ok
          then encoded false size' s' false []
          else if p.is_eoi || not p.is_partition
          then encoded true size' s' false []
          else rest)
  ]

  unfoldable pub encode_one_frame : MppCalls → S → Encoded S
  encode_one_frame c s =
      if c.frame_init_fails
      then encoded false 0 s c.force_idr_requested []
      else if c.packet_init_fails
      then encoded false 0 s c.force_idr_requested (frame_init ∷ frame_deinit ∷ [])
      else before
          (frame_init ∷ packet_init ∷ (if c.force_idr_requested then set_idr_frame ∷ [] else [])
            ++ put_frame ∷ frame_deinit ∷ [])
          (if c.put_frame_fails
            then encoded false 0 s false (packet_deinit ∷ [])
            else drain c.get_packet drain_rounds 0 (nothing true) s 0)
