-- ===== src/Encode/Balance.antt =====
-- The frames and packets of MPP that a call takes and gives back.
use remy_desk.Base.{
  ℕ, zero, suc, ◌+◌, ◌≡◌, ◌⊎◌, refl, Bool, true, false, List, [], ◌∷◌, arith, Bool-cases, inl, inr,
  if◌then◌else◌,
}
use remy_desk.Encode.{
  Get, nothing, got, MppCalls, MppCall, frame_init, frame_deinit, packet_deinit, packet_got,
  drain_rounds, drain, pass_on, encode_one_frame,
}
use remy_desk.Encode.Drain.{ends_frame, Get-cases}

-- What is taken and given back: frames, and the packets that MPP answers with.
abbrev pub frames_taken : List MppCall → ℕ
frames_taken [] = 0
frames_taken (frame_init ∷ l) = suc (frames_taken l)
frames_taken (_ ∷ l) = frames_taken l

abbrev pub frames_returned : List MppCall → ℕ
frames_returned [] = 0
frames_returned (frame_deinit ∷ l) = suc (frames_returned l)
frames_returned (_ ∷ l) = frames_returned l

abbrev pub packets_got : List MppCall → ℕ
packets_got [] = 0
packets_got (packet_got ∷ l) = suc (packets_got l)
packets_got (_ ∷ l) = packets_got l

abbrev pub packets_returned : List MppCall → ℕ
packets_returned [] = 0
packets_returned (packet_deinit ∷ l) = suc (packets_returned l)
packets_returned (_ ∷ l) = packets_returned l

-- The frames of a log and its packets, those of a call that returned 0.
record Balanced (ok : Bool) (l : List MppCall) : Type 0 where
  no_frame : (frames_taken l ≡ 0) × (frames_returned l ≡ 0)
  packets : (if ok then packets_got l else 0) ≡ (if ok then packets_returned l else 0)

suc_both :
    (ok : Bool) (a b : ℕ)
    → (if ok then a else 0) ≡ (if ok then b else 0)
    → (if ok then suc a else 0) ≡ (if ok then suc b else 0)
suc_both ok a b h = ground arith

module _ {S : Type 0} (write : S → List ℕ → Bool × S) where
  Balanced-drain :
      (get : ℕ → Get) (rounds i : ℕ) (last : Get) (s : S) (size : ℕ)
      → let out = drain write get rounds i last s size in Balanced out.returns_zero out.calls
  unfolding drain
  Balanced-drain get zero i last s size = ground arith
  Balanced-drain get (suc rounds) i last s size = elim (Get-cases (get i)) [
    | inl (set, e) ↦ rw (drain, e) (Balanced-drain get rounds (i + 1) (nothing set) s size)
    | inr (inl e) ↦ rw (drain, e) (record { no_frame = (refl, refl); packets = refl })
    | inr (inr (p, e)) ↦
        let (_, s', size') = pass_on write s p.data_bytes size in
        let b = Balanced-drain get rounds (i + 1) (got p) s' size' in
        elim (Bool-cases (pass_on write s p.data_bytes size).0) [
          | inr fails ↦ rw (drain, e, fails) (record { no_frame = (refl, refl); packets = refl })
          | inl ok ↦ elim (Bool-cases (ends_frame p)) [
            | inl l ↦ rw (drain, e, ok, l) (record { no_frame = (refl, refl); packets = refl })
            | inr l ↦
                rw (drain, e, ok, l)
                  (record { no_frame = b.no_frame; packets = suc_both _ _ _ b.packets })
          ]
        ]
  ]

  -- Every frame that a call takes it gives back, whatever fails; and a call that returns 0 has given
  -- back every packet that MPP answered with.
  pub encode_one_frame_balanced :
      (c : MppCalls) (s : S)
      → let out = encode_one_frame write c s in
        (frames_taken out.calls ≡ frames_returned out.calls)
        × ((out.returns_zero ≡ false) ⊎ (packets_got out.calls ≡ packets_returned out.calls))
  unfolding encode_one_frame
  encode_one_frame_balanced c s =
      let b = Balanced-drain c.get_packet drain_rounds 0 (nothing true) s 0 in
      let frames = b.no_frame in let packets = b.packets in ground arith
