-- ===== src/Encode/Keeps.antt =====
-- What the writer of the packets keeps, a whole call of encode_one_frame keeps.
use remy_desk.Base.{ℕ, zero, suc, ◌+◌, Bool, true, List, [], ◌∷◌, Bool-cases, inl, inr}
use remy_desk.Encode.{Get, nothing, got, MppCalls, drain_rounds, drain, pass_on, encode_one_frame}
use remy_desk.Encode.Drain.{ends_frame, Get-cases}

module _ {S : Type 0} (write : S → List ℕ → Bool × S) (P : S → Type 0)
    (keeps : (s : S) (bytes : List ℕ) → P s → P (write s bytes).1) where
  pass_on-keeps : (s : S) (bytes : List ℕ) (size : ℕ) → P s → P (pass_on write s bytes size).1
  unfolding pass_on
  pass_on-keeps s [] size p = p
  pass_on-keeps s (b ∷ bytes) size p = keeps s (b ∷ bytes) p

  drain-keeps :
      (get : ℕ → Get) (rounds i : ℕ) (last : Get) (s : S) (size : ℕ)
      → P s
      → P (drain write get rounds i last s size).state
  unfolding drain
  drain-keeps get zero i last s size p = p
  drain-keeps get (suc rounds) i last s size p = elim (Get-cases (get i)) [
    | inl (set, e) ↦ rw (drain, e) (drain-keeps get rounds (i + 1) (nothing set) s size p)
    | inr (inl e) ↦ rw (drain, e) p
    | inr (inr (q, e)) ↦
        let out = pass_on write s q.data_bytes size in
        let kept = pass_on-keeps s q.data_bytes size p in
        elim (Bool-cases out.0) [
          | inr fails ↦ rw (drain, e, fails) kept
          | inl ok ↦ elim (Bool-cases (ends_frame q)) [
            | inl l ↦ rw (drain, e, ok, l) kept
            | inr l ↦ rw (drain, e, ok, l) (drain-keeps get rounds (i + 1) (got q) out.1 out.2 kept)
          ]
        ]
  ]

  pub encode_one_frame-keeps : (c : MppCalls) (s : S) → P s → P (encode_one_frame write c s).state
  unfolding encode_one_frame
  encode_one_frame-keeps c s p = elim (Bool-cases c.frame_init_fails) [
    | inl a ↦ rw (encode_one_frame, a) p
    | inr a ↦ elim (Bool-cases c.packet_init_fails) [
      | inl b ↦ rw (encode_one_frame, a, b) p
      | inr b ↦ elim (Bool-cases c.put_frame_fails) [
        | inl d ↦ rw (encode_one_frame, a, b, d) p
        | inr d ↦
            rw (encode_one_frame, a, b, d)
              (drain-keeps c.get_packet drain_rounds 0 (nothing true) s 0 p)
      ]
    ]
  ]
