-- ===== src/Writer/Tests.antt =====
-- A frame of two packets through the writer, to a descriptor and to a ring.
use remy_desk.Base.{ℕ, zero, suc, ◌≡◌, refl, true, false, none, List, [], ◌∷◌, ◌++◌}
use remy_desk.Base.Int.{pos, negsuc}
use remy_desk.Output.{wrote, eintr, write_all}
use remy_desk.Encode.{Packet, Get, nothing, got, MppCalls, pass_on, drain, encode_one_frame}
use remy_desk.Encode.Drain.{Drains}
use remy_desk.Writer.{Traffic, Link, stream_writer_write}
use remy_desk.Writer.Packets.{joined, encode_one_frame_output}

abbrev link : Link
link = record {
  writer = record { fd = pos 1; ring_fd = negsuc 0; ring_map_size = 0; ring = none };
  calls = 0;
  output = 9 ∷ [];
}

-- write(2) takes two bytes at a time.
abbrev traffic : ℕ → Traffic
traffic i = record { polls = []; answers = wrote 2 ∷ eintr ∷ wrote 2 ∷ wrote 2 ∷ [] }

-- A timeout, a partition, an empty partition, and the end of the frame.
abbrev answers : ℕ → Get
answers zero = nothing true
answers (suc zero) =
    got (record { data_bytes = 1 ∷ 2 ∷ 3 ∷ []; is_partition = true; is_eoi = false })
answers (suc (suc zero)) = got (record { data_bytes = []; is_partition = true; is_eoi = false })
answers _ = got (record { data_bytes = 4 ∷ []; is_partition = true; is_eoi = true })

abbrev mpp : MppCalls
mpp = record {
  frame_init_fails = false;
  packet_init_fails = false;
  force_idr_requested = true;
  put_frame_fails = false;
  get_packet = answers;
}

encoded_frame : (encode_one_frame (stream_writer_write traffic) mpp link).returns_zero ≡ true
unfolding encode_one_frame drain pass_on stream_writer_write write_all
encoded_frame = refl

encode_one_frame_output_example :
    (packets : List Packet) × (last_round : ℕ) × Drains answers 0 packets last_round
    × ((encode_one_frame (stream_writer_write traffic) mpp link).state.output
        ≡ (9 ∷ []) ++ joined packets)
encode_one_frame_output_example = encode_one_frame_output traffic mpp link refl encoded_frame
