-- ===== src/Ring/Init.antt =====
-- `stream_writer_init` and `stream_writer_close`: the ring that a new consumer finds, and the
-- descriptors and the mapping on every path. What the operating system answers is an argument.
use remy_desk.Base.{
  Bool-cases, holds_below, holds_below_elim, ◌==◌, length, take, ◌≤◌, ◌↔◌, ◌⊎◌, inl, inr, ℕ, ◌+◌,
  ◌*◌, ◌%◌, ◌^◌, ◌<◌, ◌≡◌, refl, Bool, true, false, not, Option, none, some, List, [], ◌∷◌, ◌++◌,
  arith, if◌then◌else◌,
}
use remy_desk.Base.Int.{ℤ, pos, negsuc, ltb_ℤ}
use remy_desk.Ring.{
  Ring, StreamWriter, ring_magic, ring_version, ring_slots, ring_slot_size, ring_header_size,
  ring_slot_header_size, notify,
}
use remy_desk.Ring.Reader.{is_ready, geometry_ok}
use remy_desk.Ring.System.Safety.{IsFresh}

-- The answers of getenv, unlink (an error other than ENOENT), open, ftruncate and mmap.
pub record InitCalls : Type 0 where
  pub path : Option (List ℕ)
  pub unlink_fails : Bool
  pub open_result : ℤ
  pub truncate_fails : Bool
  pub map_fails : Bool

-- What is done to descriptors and mappings.
pub data Resource : Type 0 where
  opened closed : ℤ → Resource
  mapped unmapped : Resource

-- The mapping behind memset(ring_map, 0, ring_map_size).
abbrev pub zero_ring : Ring
zero_ring = record {
  magic = 0;
  version = 0;
  slot_count = 0;
  slot_size = 0;
  write_seq = 0;
  read_seq = 0;
  closed = 0;
  notify_seq = 0;
  requested_bitrate = 0;
  applied_bitrate = 0;
  bytes = λ a. 0;
}

-- The stores to the header, in their order; the fence stands before the last.
unfoldable pub header_stores : ℕ → List (Ring → Ring)
header_stores bitrate =
    (λ r. record r { version = ring_version })
    ∷ (λ r. record r { slot_count = ring_slots })
    ∷ (λ r. record r { slot_size = ring_slot_size })
    ∷ (λ r. record r { write_seq = 0 })
    ∷ (λ r. record r { read_seq = 0 })
    ∷ (λ r. record r { closed = 0 })
    ∷ (λ r. record r { notify_seq = 0 })
    ∷ (λ r. record r { requested_bitrate = bitrate % 2 ^ 32 })
    ∷ (λ r. record r { applied_bitrate = bitrate % 2 ^ 32 })
    ∷ (λ r. record r { magic = ring_magic })
    ∷ []

-- The ring after some stores.
unfoldable pub run_stores : List (Ring → Ring) → Ring → Ring
run_stores [] r = r
run_stores (f ∷ later) r = run_stores later (f r)

unfoldable pub new_ring : ℕ → Ring
unfolding header_stores run_stores
new_ring bitrate = run_stores (header_stores bitrate) zero_ring

abbrev pub no_fd : ℤ
no_fd = negsuc 0

abbrev pub ring_bytes : ℕ
ring_bytes = ring_header_size + ring_slots * (ring_slot_header_size + ring_slot_size)

-- Whether it returns 0, the writer, and what was done.
unfoldable pub stream_writer_init : InitCalls → ℤ → ℕ → Bool × StreamWriter × List Resource
stream_writer_init calls fallback_fd initial_bitrate = elim calls.path [
  | none ↦ (true, plain, [])
  | some [] ↦ (true, plain, [])
  | some (c ∷ path) ↦
      if calls.unlink_fails
      then (false, plain, [])
      else if ltb_ℤ calls.open_result (pos 0)
      then (false, record sized { ring_fd = calls.open_result }, [])
      else if calls.truncate_fails
      then (false, sized, opened calls.open_result ∷ closed calls.open_result ∷ [])
      else if calls.map_fails
      then (false, sized, opened calls.open_result ∷ closed calls.open_result ∷ [])
      else (
        true,
        record sized { ring_fd = calls.open_result; ring = some (new_ring initial_bitrate) },
        opened calls.open_result ∷ mapped ∷ [],
      )
]
  where
    plain : StreamWriter
    plain = record { fd = fallback_fd; ring_fd = no_fd; ring_map_size = 0; ring = none }

    sized : StreamWriter
    sized = record plain { ring_map_size = ring_bytes }

-- The ring that the consumer is left with, the writer, and what was done.
unfoldable pub stream_writer_close : StreamWriter → Option Ring × StreamWriter × List Resource
stream_writer_close w = (
  elim w.ring [ none ↦ none | some r ↦ some (notify (record r { closed = 1 })) ],
  record { fd = no_fd; ring_fd = no_fd; ring_map_size = 0; ring = none },
  elim w.ring [ none ↦ [] | some r ↦ unmapped ∷ [] ]
      ++ (if ltb_ℤ w.ring_fd (pos 0) then [] else closed w.ring_fd ∷ [])
      ++ (if ltb_ℤ w.fd (pos 0) then [] else closed w.fd ∷ []),
)

-- The number of descriptors and of mappings that were taken and given back.
unfoldable pub takes : List Resource → ℕ
takes [] = 0
takes (opened fd ∷ l) = takes l + 1
takes (mapped ∷ l) = takes l + 1
takes (_ ∷ l) = takes l

unfoldable pub returns : List Resource → ℕ
returns [] = 0
returns (closed fd ∷ l) = returns l + 1
returns (unmapped ∷ l) = returns l + 1
returns (_ ∷ l) = returns l

-- Where there is a ring, every call succeeded.
init_ring :
    (calls : InitCalls) (fallback_fd : ℤ) (bitrate : ℕ) (r : Ring)
    → (stream_writer_init calls fallback_fd bitrate).1.ring ≡ some r
    → (new_ring bitrate ≡ r)
      × ((stream_writer_init calls fallback_fd bitrate).1.ring_map_size ≡ ring_bytes)
unfolding stream_writer_init
init_ring calls fallback_fd bitrate r e = ground arith

new_ring_ready :
    (bitrate : ℕ)
    → bitrate < 2 ^ 32
    → (is_ready (new_ring bitrate) ≡ true)
      × (geometry_ok (new_ring bitrate) ring_bytes ≡ true)
      × IsFresh (new_ring bitrate)
      × ((new_ring bitrate).requested_bitrate ≡ bitrate)
      × ((new_ring bitrate).applied_bitrate ≡ bitrate)
unfolding new_ring is_ready geometry_ok
new_ring_ready bitrate small = (refl, refl, omega arith, omega arith, omega arith)

-- A ring that `stream_writer_init` has set up passes the consumer's tests, starts empty and open, and
-- holds the initial bitrate, below 2^32, as requested and as applied.
pub init_ready :
    (calls : InitCalls) (fallback_fd : ℤ) (bitrate : ℕ) (r : Ring)
    → bitrate < 2 ^ 32
    → (stream_writer_init calls fallback_fd bitrate).1.ring ≡ some r
    → (is_ready r ≡ true)
      × (geometry_ok r (stream_writer_init calls fallback_fd bitrate).1.ring_map_size ≡ true)
      × IsFresh r
      × (r.requested_bitrate ≡ bitrate)
      × (r.applied_bitrate ≡ bitrate)
init_ready calls fallback_fd bitrate r small e =
    let (same, size) = init_ring calls fallback_fd bitrate r e in
    rw (← same, size) (new_ring_ready bitrate small)

-- The ring after the first `n` stores to the header.
abbrev pub ring_after : ℕ → ℕ → Ring
ring_after bitrate n = run_stores (take n (header_stores bitrate)) zero_ring

stores_table :
    (bitrate : ℕ)
    → holds_below
        (λ n.
          if n == 10
          then is_ready (ring_after bitrate n)
          else not (is_ready (ring_after bitrate n)))
        11
      ≡ true
unfolding header_stores run_stores is_ready holds_below
stores_table bitrate = refl

-- A consumer that opens the file while the header is being written is let in exactly if the last of
-- the stores has been made.
pub is_ready_after :
    (bitrate n : ℕ)
    → n ≤ length (header_stores bitrate)
    → (is_ready (ring_after bitrate n) ≡ true) ↔ (n ≡ length (header_stores bitrate))
is_ready_after bitrate n le =
    let ten : length (header_stores bitrate) ≡ 10 = unfold header_stores in refl in
    let row = holds_below_elim _ 11 n (omega arith) (stores_table bitrate) in
    rw ten (λ e. ground arith, λ e. ground arith)

-- A call that fails has closed what it opened and mapped nothing. One that succeeds, followed by
-- `stream_writer_close`, gives back all that it took and the descriptor that it was given.
pub init_close_balanced :
    (calls : InitCalls) (fallback_fd : ℤ) (bitrate : ℕ)
    → ltb_ℤ fallback_fd (pos 0) ≡ false
    → let (done, w, taken) = stream_writer_init calls fallback_fd bitrate in
      ((done ≡ false) × (w.ring ≡ none) × (takes taken ≡ returns taken))
      ⊎ ((done ≡ true) × (returns (stream_writer_close w).2 + returns taken ≡ takes taken + 1))
unfolding stream_writer_init stream_writer_close takes returns
init_close_balanced calls fallback_fd bitrate h =
    elim (Bool-cases (stream_writer_init calls fallback_fd bitrate).0) [
      | inl done ↦ inr (done, ground arith)
      | inr failed ↦ inl (failed, ground arith, ground arith)
    ]
