-- ===== src/Encode/Frame.antt =====
-- What a call of `encode_one_frame` promises.
use remy_desk.Base.{ℕ, ◌≤◌, ◌≡◌, inl, inr, refl, Bool, true, false, List, arith, Bool-cases}
use remy_desk.Encode.{Packet, nothing, Encoded, MppCalls, drain_rounds, drain, encode_one_frame}
use remy_desk.Encode.Drain.{Drains, Fed, total, drain-Drained}
use remy_desk.Encode.Enough.{Drains-drain}

module _ {S : Type 0} (write : S → List ℕ → Bool × S) where
  -- What the drain loop of a call gives.
  abbrev drained : MppCalls → S → Encoded S
  drained c s = drain write c.get_packet drain_rounds 0 (nothing true) s 0

  submitted :
      (c : MppCalls) (s : S)
      → (encode_one_frame write c s).returns_zero ≡ true
      → ((drained c s).returns_zero ≡ true)
        × ((encode_one_frame write c s).state ≡ (drained c s).state)
        × ((encode_one_frame write c s).encoded_size ≡ (drained c s).encoded_size)
  unfolding encode_one_frame
  submitted c s h = elim (Bool-cases c.frame_init_fails) [
    | inl a ↦ ground arith
    | inr a ↦ elim (Bool-cases c.packet_init_fails) [
      | inl b ↦ ground arith
      | inr b ↦ elim (Bool-cases c.put_frame_fails) [
        | inl d ↦ ground arith
        | inr d ↦ rw (encode_one_frame, a, b, d) (rw (encode_one_frame, a, b, d) at h, refl, refl)
      ]
    ]
  ]

  -- A call that returns 0 has drained the frame in at most 128 answers of MPP: all its packets, up to
  -- the one that ends it, have gone to the writer in order and were taken, and the size that it
  -- reports is the sum of theirs.
  pub encode_one_frame_done :
      (c : MppCalls) (s : S)
      → (encode_one_frame write c s).returns_zero ≡ true
      → (packets : List Packet) × (last_round : ℕ) × Drains c.get_packet 0 packets last_round
        × (last_round ≤ drain_rounds)
        × Fed write s packets (encode_one_frame write c s).state
        × ((encode_one_frame write c s).encoded_size ≡ total packets)
  encode_one_frame_done c s h =
      let (ok, same, size) = submitted c s h in
      let d = drain-Drained write c.get_packet drain_rounds 0 0 (nothing true) s ok in
      (
        d.packets,
        d.last_round,
        d.drains,
        d.in_time,
        rw same d.fed,
        let sum = d.counted in omega arith,
      )

  -- Where no other call of MPP fails, the frame comes within 128 answers and the writer takes its
  -- packets, the call returns 0 and leaves the writer behind the last of them.
  pub encode_one_frame_enough :
      {packets : List Packet} {last_round : ℕ} (c : MppCalls) (s s' : S)
      → c.frame_init_fails ≡ false
      → c.packet_init_fails ≡ false
      → c.put_frame_fails ≡ false
      → Drains c.get_packet 0 packets last_round
      → last_round ≤ drain_rounds
      → Fed write s packets s'
      → ((encode_one_frame write c s).returns_zero ≡ true)
        × ((encode_one_frame write c s).state ≡ s')
  unfolding encode_one_frame drain
  encode_one_frame_enough c s s' a b d drains le f =
      rw (encode_one_frame, a, b, d)
        (Drains-drain write c.get_packet drain_rounds 0 0 (nothing true) s s' drains le f)
