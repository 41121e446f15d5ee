-- ===== src/Ring/Tests.antt =====
-- The ring at concrete inputs: tests by evaluation, and the theorems of the modules below Ring at
-- inputs that meet their hypotheses.
use Prim.Native.Nat.{ℕ, ◌+◌, ◌%◌, ◌^◌}
use remy_desk.Base.{
  ◌≡◌, ◌⊎◌, refl, inr, true, false, some, List, [], ◌∷◌, ◌++◌, arith, drop, length,
}
use remy_desk.Base.Int.{pos}
use remy_desk.Base.Bytes.{write_bytes, read_bytes, u32_bytes, u32_of_bytes}
use remy_desk.Ring.{
  Ring, StreamWriter, slot_offset, store_length, store_padding, store_payload, publish, notify,
  Poll, wait_for_room, store_packet, WriteResult, sent, oversized, interrupted, blocked, write_ring,
}
use remy_desk.Ring.Reader.{is_ready, geometry_ok, slot_length, slot_payload, read_slot}
use remy_desk.Ring.Slots.{Holds}
use remy_desk.Ring.Write.{write_ring_sent, SameHeader, write_ring_inside}
use remy_desk.Ring.System.{
  System, idle, top, found, passed_on, asleep, read, deliver, load_read, see_packet, see_none,
  load_length, see_open, load_notify, no_packet, no_close, doze, start_system, Reach, start, later,
}
use remy_desk.Ring.System.Safety.{IsFresh, delivered-published}
use remy_desk.Ring.System.Wakeup.{IsWaking, asleep_misses_nothing}
use remy_desk.Ring.System.Call.{calm, write_ring-Reach}
use remy_desk.Ring.Init.{InitCalls, zero_ring, new_ring, stream_writer_init, init_ready}

-- Two slots of four bytes, nothing sent.
abbrev small : Ring
small = record zero_ring { slot_count = 2; slot_size = 4 }

small-IsFresh : IsFresh small
small-IsFresh = omega arith

abbrev hello : List ℕ
hello = 104 ∷ 105 ∷ []

-- The ring with one packet in it.
abbrev loaded : Ring
loaded = store_packet small 0 hello

sent_one : write_ring small hello (calm 0 ∷ []) ≡ (sent, loaded)
unfolding write_ring wait_for_room
sent_one = refl

decoded : read_slot loaded 0 ≡ some hello
unfolding read_slot slot_length slot_payload store_packet store_length store_padding store_payload
    publish notify slot_offset write_bytes read_bytes u32_bytes u32_of_bytes
decoded = refl

too_large : write_ring small (1 ∷ 2 ∷ 3 ∷ 4 ∷ 5 ∷ []) (calm 0 ∷ []) ≡ (oversized, small)
unfolding write_ring
too_large = refl

-- A full ring waits, and a signal ends the wait.
waits_for_room :
    wait_for_room 2 2 (calm 0 ∷ record { stopped = true; read_seq = 0; stopped_after = true } ∷ [])
    ≡ remy_desk.Ring.stopped
unfolding wait_for_room
waits_for_room = refl

loaded_counts :
    (loaded.write_seq ≡ 1)
    × (loaded.read_seq ≡ 0)
    × (loaded.notify_seq ≡ 1)
    × (slot_length loaded 0 ≡ 2)
    × (loaded.slot_size ≡ 4)
unfolding slot_length store_packet store_length store_padding store_payload publish notify
    slot_offset write_bytes read_bytes u32_bytes u32_of_bytes
loaded_counts = (refl, refl, refl, refl, refl)

-- The producer has sent the packet, and the consumer is at the head of its loop.
abbrev after_send : System
after_send = record {
  ring = loaded;
  writer = idle;
  reader = top;
  published = hello ∷ [];
  delivered = [];
}

sent-Reach : Reach (start_system small) after_send
unfolding write_ring wait_for_room
sent-Reach = (write_ring-Reach small top [] [] hello (omega arith) (omega arith)).1

abbrev at_packet : System
at_packet = record after_send { reader = found 0 }

found-Reach : Reach (start_system small) at_packet
unfolding store_packet store_length store_padding store_payload publish notify
found-Reach = later (later sent-Reach (read load_read)) (read (see_packet (omega arith)))

abbrev arrived : System
arrived = record after_send {
  reader = passed_on 0;
  delivered = slot_payload loaded 0 (slot_length loaded 0) ∷ [];
}

arrived-Reach : Reach (start_system small) arrived
arrived-Reach =
    later (later found-Reach (read (load_length (let e = loaded_counts in omega arith))))
      (deliver refl)

-- The consumer finds nothing, and sleeps.
abbrev dozing : System
dozing = record (start_system small) { reader = asleep 0 0 }

dozing-Reach : Reach (start_system small) dozing
dozing-Reach =
    later
      (later
        (later
          (later
            (later (later (later start (read load_read)) (read (see_none (omega arith))))
              (read (see_open refl)))
            (read load_notify))
          (read (no_packet refl)))
        (read (no_close refl)))
      (read (doze refl))

abbrev all_well : InitCalls
all_well = record {
  path = some (47 ∷ 114 ∷ []);
  unlink_fails = false;
  open_result = pos 5;
  truncate_fails = false;
  map_fails = false;
}

delivered-published_example :
    hello ∷ [] ≡ arrived.delivered ++ drop (length arrived.delivered) (hello ∷ [])
delivered-published_example = delivered-published small-IsFresh arrived-Reach (omega arith)

asleep_misses_nothing_example :
    ((dozing.ring.write_seq ≡ dozing.ring.read_seq) × (dozing.ring.closed ≡ 0))
    ⊎ IsWaking dozing.writer
asleep_misses_nothing_example = asleep_misses_nothing small-IsFresh dozing-Reach (omega arith) refl

write_ring_sent_example :
    (read_slot loaded 0 ≡ some hello)
    × (loaded.write_seq ≡ (0 + 1) % 2 ^ 64)
    × (loaded.notify_seq ≡ (0 + 1) % 2 ^ 32)
write_ring_sent_example = write_ring_sent small loaded hello (calm 0 ∷ []) (omega arith) sent_one

-- A second packet goes to the other slot.
abbrev loaded_twice : Ring
loaded_twice = store_packet loaded 1 (33 ∷ [])

sent_two : write_ring loaded (33 ∷ []) (calm 0 ∷ []) ≡ (sent, loaded_twice)
unfolding write_ring wait_for_room store_packet store_length store_padding store_payload publish
    notify
sent_two = refl

hello_held : Holds loaded 0 hello
unfolding slot_length slot_payload store_packet store_length store_padding store_payload publish
    notify slot_offset write_bytes read_bytes u32_bytes u32_of_bytes
hello_held = record { size = refl; content = refl }

write_ring_inside_example :
    SameHeader small (write_ring small hello (calm 0 ∷ [])).1
    × ((write_ring small hello (calm 0 ∷ [])).1.bytes 88 ≡ 0)
write_ring_inside_example =
    write_ring_inside small hello (calm 0 ∷ []) 88 (omega arith) (inr (omega arith))

ring_is_set_up : (stream_writer_init all_well (pos 3) 12000000).1.ring ≡ some (new_ring 12000000)
unfolding stream_writer_init
ring_is_set_up = refl

init_ready_example :
    (is_ready (new_ring 12000000) ≡ true)
    × (geometry_ok
          (new_ring 12000000)
          (stream_writer_init all_well (pos 3) 12000000).1.ring_map_size
        ≡ true)
    × IsFresh (new_ring 12000000)
    × ((new_ring 12000000).requested_bitrate ≡ 12000000)
    × ((new_ring 12000000).applied_bitrate ≡ 12000000)
init_ready_example =
    init_ready all_well (pos 3) 12000000 (new_ring 12000000) (omega arith) ring_is_set_up

-- A request that the encoder takes.
abbrev asking : Ring
asking = record (new_ring 12000000) { requested_bitrate = 4000000 }

abbrev answered : Ring
answered = record asking { applied_bitrate = 4000000 }
