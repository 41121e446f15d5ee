-- ===== src/Encode/Tests.antt =====
-- A frame of two packets, with a writer that keeps what it is given, and one that fails.
use remy_desk.Base.{
  ◌⊎◌, ℕ, zero, suc, ◌≤◌, ◌≡◌, refl, Bool, true, false, false, List, [], ◌∷◌, ◌++◌, arith,
}
use remy_desk.Encode.{
  Packet, Get, nothing, got, MppCalls, pass_on, drain, drain_rounds, encode_one_frame, encoded,
  frame_init, packet_init, set_idr_frame, put_frame, frame_deinit, packet_got, packet_deinit,
}
use remy_desk.Encode.Drain.{Drains, last, more, wait, Fed, fed_all, wrote, total}
use remy_desk.Encode.Balance.{
  frames_taken, frames_returned, packets_got, packets_returned, encode_one_frame_balanced,
}
use remy_desk.Encode.Frame.{encode_one_frame_done, encode_one_frame_enough}

abbrev keep : List (List ℕ) → List ℕ → Bool × List (List ℕ)
keep s bytes = (true, s ++ bytes ∷ [])

abbrev half : Packet
half = record { data_bytes = 1 ∷ 2 ∷ 3 ∷ []; is_partition = true; is_eoi = false }

abbrev rest : Packet
rest = record { data_bytes = 4 ∷ []; is_partition = true; is_eoi = true }

-- A timeout, then the two halves.
abbrev answers : ℕ → Get
answers zero = nothing true
answers (suc zero) = got half
answers _ = got rest

abbrev mpp : MppCalls
mpp = record {
  frame_init_fails = false;
  packet_init_fails = false;
  force_idr_requested = true;
  put_frame_fails = false;
  get_packet = answers;
}

abbrev kept : List (List ℕ)
kept = (1 ∷ 2 ∷ 3 ∷ []) ∷ (4 ∷ []) ∷ []

two_packets : (encode_one_frame keep mpp []).returns_zero ≡ true
unfolding encode_one_frame drain pass_on
two_packets = refl

abbrev refuse : ℕ → List ℕ → Bool × ℕ
refuse s bytes = (false, s)

-- Where the writer fails on the first half, the second is not drained.
undrained_half :
    encode_one_frame refuse mpp 0
    ≡ encoded false 0 0 false (
        frame_init ∷ packet_init ∷ set_idr_frame ∷ put_frame ∷ frame_deinit ∷ packet_got
        ∷ packet_deinit ∷ [])
unfolding encode_one_frame drain pass_on
undrained_half = refl

answers-Drains : Drains answers 0 (half ∷ rest ∷ []) 3
answers-Drains = wait {set = true} refl (more refl refl (last refl refl))

halves-Fed : Fed keep [] (half ∷ rest ∷ []) kept
halves-Fed = wrote (omega arith) refl (wrote (omega arith) refl fed_all)

encode_one_frame_done_example :
    (packets : List Packet) × (last_round : ℕ) × Drains answers 0 packets last_round
    × (last_round ≤ drain_rounds)
    × Fed keep [] packets (encode_one_frame keep mpp []).state
    × ((encode_one_frame keep mpp []).encoded_size ≡ total packets)
encode_one_frame_done_example = encode_one_frame_done keep mpp [] two_packets

encode_one_frame_enough_example :
    ((encode_one_frame keep mpp []).returns_zero ≡ true)
    × ((encode_one_frame keep mpp []).state ≡ kept)
encode_one_frame_enough_example =
    encode_one_frame_enough keep mpp [] kept refl refl refl answers-Drains (omega arith) halves-Fed

encode_one_frame_balanced_example :
    (frames_taken (encode_one_frame keep mpp []).calls
      ≡ frames_returned (encode_one_frame keep mpp []).calls)
    × (((encode_one_frame keep mpp []).returns_zero ≡ false)
        ⊎ (packets_got (encode_one_frame keep mpp []).calls
            ≡ packets_returned (encode_one_frame keep mpp []).calls))
encode_one_frame_balanced_example = encode_one_frame_balanced keep mpp []
