-- ===== src/Encode/Drain.antt =====
-- The drain loop against the packets of a frame: all of them up to the one that ends it, written in
-- order.
use remy_desk.Base.{
  ℕ, zero, suc, ◌+◌, ◌≤◌, ◌<◌, ◌≡◌, ◌⊎◌, inl, inr, refl, Bool, true, false, ◌||◌, not, List, [],
  ◌∷◌, length, arith, Bool-cases,
}
use remy_desk.Encode.{
  Packet, Get, nothing, refused, got, Encoded, encoded, before, pass_on, drain, packet_got,
  packet_deinit,
}

abbrev pub ends_frame : Packet → Bool
ends_frame p = p.is_eoi || not p.is_partition

-- The packets that MPP answers with from round `i` on, up to the one that ends the frame, and the
-- round behind it.
pub data Drains (get : ℕ → Get) : ℕ → List Packet → ℕ → Type 0 where
  last : {i : ℕ} {p : Packet} → get i ≡ got p → ends_frame p ≡ true → Drains get i (p ∷ []) (i + 1)
  more :
      {i j : ℕ} {p : Packet} {ps : List Packet}
      → get i ≡ got p
      → ends_frame p ≡ false
      → Drains get (i + 1) ps j
      → Drains get i (p ∷ ps) j
  wait :
      {i j : ℕ} {set : Bool} {ps : List Packet}
      → get i ≡ nothing set
      → Drains get (i + 1) ps j
      → Drains get i ps j

-- The writer took the packets one after the other; those with no bytes are not passed to it.
pub data Fed {S : Type 0} (write : S → List ℕ → Bool × S) : S → List Packet → S → Type 0 where
  fed_all : {s : S} → Fed write s [] s
  skip :
      {s s' : S} {p : Packet} {ps : List Packet}
      → p.data_bytes ≡ []
      → Fed write s ps s'
      → Fed write s (p ∷ ps) s'
  wrote :
      {s next s' : S} {p : Packet} {ps : List Packet}
      → 0 < length p.data_bytes
      → write s p.data_bytes ≡ (true, next)
      → Fed write next ps s'
      → Fed write s (p ∷ ps) s'

abbrev pub total : List Packet → ℕ
total [] = 0
total (p ∷ ps) = length p.data_bytes + total ps

pub Get-cases :
    (g : Get) → ((set : Bool) × (g ≡ nothing set)) ⊎ (g ≡ refused) ⊎ ((p : Packet) × (g ≡ got p))
Get-cases (nothing set) = inl (set, refl)
Get-cases refused = inr (inl refl)
Get-cases (got p) = inr (inr (p, refl))

module _ {S : Type 0} (write : S → List ℕ → Bool × S) where
  -- What is done with one packet that the writer takes.
  feed_at :
      (s s' : S) (p : Packet) (ps : List Packet) (size : ℕ) (bytes : List ℕ)
      → p.data_bytes ≡ bytes
      → (pass_on write s bytes size).0 ≡ true
      → Fed write (pass_on write s bytes size).1 ps s'
      → Fed write s (p ∷ ps) s'
  unfolding pass_on
  feed_at s s' p ps size [] e h f = skip e f
  feed_at s s' p ps size (b ∷ bytes) e h f =
      wrote (rw e (omega arith)) (rw e (pair_of s (b ∷ bytes) h)) f
    where
      pair_of :
          (s : S) (bytes : List ℕ)
          → (write s bytes).0 ≡ true
          → write s bytes ≡ (true, (write s bytes).1)
      pair_of s bytes h = ground arith

  pub pass_size :
      (s : S) (bytes : List ℕ) (size : ℕ)
      → (pass_on write s bytes size).0 ≡ true
      → (pass_on write s bytes size).2 ≡ size + length bytes
  unfolding pass_on
  pass_size s [] size h = omega arith
  pass_size s (b ∷ bytes) size h = rw h refl

  -- One round, by what MPP answers.
  pub round_nothing :
      (get : ℕ → Get) (rounds i size : ℕ) (before_it : Get) (s : S) (set : Bool)
      → get i ≡ nothing set
      → drain write get (suc rounds) i before_it s size
        ≡ drain write get rounds (i + 1) (nothing set) s size
  unfolding drain
  round_nothing get rounds i size before_it s set e = rw (drain, e) refl

  pub round_refused :
      (get : ℕ → Get) (rounds i size : ℕ) (before_it : Get) (s : S)
      → get i ≡ refused
      → (drain write get (suc rounds) i before_it s size).returns_zero ≡ false
  unfolding drain
  round_refused get rounds i size before_it s e = rw (drain, e) refl

  pub round_stuck :
      (get : ℕ → Get) (rounds i size : ℕ) (before_it : Get) (s : S) (p : Packet)
      → get i ≡ got p
      → (pass_on write s p.data_bytes size).0 ≡ false
      → (drain write get (suc rounds) i before_it s size).returns_zero ≡ false
  unfolding drain
  round_stuck get rounds i size before_it s p e h = rw (drain, e, h) refl

  pub round_ends :
      (get : ℕ → Get) (rounds i size : ℕ) (before_it : Get) (s : S) (p : Packet)
      → get i ≡ got p
      → (pass_on write s p.data_bytes size).0 ≡ true
      → ends_frame p ≡ true
      → let (_, s', size') = pass_on write s p.data_bytes size in
        drain write get (suc rounds) i before_it s size
        ≡ before (packet_got ∷ packet_deinit ∷ []) (encoded true size' s' false [])
  unfolding drain
  round_ends get rounds i size before_it s p e h l = rw (drain, e, h, l) refl

  pub round_more :
      (get : ℕ → Get) (rounds i size : ℕ) (before_it : Get) (s : S) (p : Packet)
      → get i ≡ got p
      → (pass_on write s p.data_bytes size).0 ≡ true
      → ends_frame p ≡ false
      → let (_, s', size') = pass_on write s p.data_bytes size in
        drain write get (suc rounds) i before_it s size
        ≡ before (packet_got ∷ packet_deinit ∷ []) (drain write get rounds (i + 1) (got p) s' size')
  unfolding drain
  round_more get rounds i size before_it s p e h l = rw (drain, e, h, l) refl

  -- What the rounds that end with 0 have done.
  pub record Drained (get : ℕ → Get) (i limit size : ℕ) (s : S) (out : Encoded S) : Type 0 where
    pub packets : List Packet
    pub last_round : ℕ
    pub drains : Drains get i packets last_round
    pub in_time : last_round ≤ limit
    pub fed : Fed write s packets out.state
    pub counted : out.encoded_size ≡ size + total packets

  Drained-wait :
      {get : ℕ → Get} {i size : ℕ} {s : S} {out : Encoded S} {set : Bool} (rounds : ℕ)
      → get i ≡ nothing set
      → Drained get (i + 1) (i + 1 + rounds) size s out
      → Drained get i (i + suc rounds) size s out
  Drained-wait rounds e d = record {
    packets = d.packets;
    last_round = d.last_round;
    drains = wait e d.drains;
    in_time = let t = d.in_time in omega arith;
    fed = d.fed;
    counted = d.counted;
  }

  Drained-last :
      (get : ℕ → Get) (rounds i size : ℕ) (s : S) (p : Packet)
      → get i ≡ got p
      → (pass_on write s p.data_bytes size).0 ≡ true
      → ends_frame p ≡ true
      → let (_, s', size') = pass_on write s p.data_bytes size in
        Drained get i
          (i + suc rounds)
          size
          s
          (before (packet_got ∷ packet_deinit ∷ []) (encoded true size' s' false []))
  Drained-last get rounds i size s p e h l =
      let counted_one = pass_size s p.data_bytes size h in
      record {
        packets = p ∷ [];
        last_round = i + 1;
        drains = last e l;
        in_time = omega arith;
        fed = feed_at s _ p [] size p.data_bytes refl h fed_all;
        counted = omega arith;
      }

  Drained-more :
      (get : ℕ → Get) (rounds i size : ℕ) (s : S) (p : Packet) (out : Encoded S)
      → get i ≡ got p
      → (pass_on write s p.data_bytes size).0 ≡ true
      → ends_frame p ≡ false
      → (let (_, s', size') = pass_on write s p.data_bytes size in
          Drained get (i + 1) (i + 1 + rounds) size' s' out)
      → Drained get i (i + suc rounds) size s (before (packet_got ∷ packet_deinit ∷ []) out)
  Drained-more get rounds i size s p out e h l d =
      let counted_one = pass_size s p.data_bytes size h in
      record {
        packets = p ∷ d.packets;
        last_round = d.last_round;
        drains = more e l d.drains;
        in_time = let t = d.in_time in omega arith;
        fed = feed_at s _ p d.packets size p.data_bytes refl h d.fed;
        counted = let c = d.counted in omega arith;
      }

  pub drain-Drained :
      (get : ℕ → Get) (rounds i size : ℕ) (before_it : Get) (s : S)
      → (drain write get rounds i before_it s size).returns_zero ≡ true
      → Drained get i (i + rounds) size s (drain write get rounds i before_it s size)
  drain-Drained get zero i size before_it s h = unfold drain in ground arith
  drain-Drained get (suc rounds) i size before_it s h = elim (Get-cases (get i)) [
    | inl (set, e) ↦
        let next = round_nothing get rounds i size before_it s set e in
        rw next (
          Drained-wait rounds e
            (drain-Drained get rounds (i + 1) size (nothing set) s (rw next at h)))
    | inr (inl e) ↦ let stop = round_refused get rounds i size before_it s e in ground arith
    | inr (inr (p, e)) ↦ elim (Bool-cases (pass_on write s p.data_bytes size).0) [
      | inr fails ↦ let stop = round_stuck get rounds i size before_it s p e fails in ground arith
      | inl ok ↦ elim (Bool-cases (ends_frame p)) [
        | inl l ↦
            rw (round_ends get rounds i size before_it s p e ok l)
              (Drained-last get rounds i size s p e ok l)
        | inr l ↦
            let next = round_more get rounds i size before_it s p e ok l in
            let (_, s', size') = pass_on write s p.data_bytes size in
            rw next (
              Drained-more get rounds i size s p _ e ok l
                (drain-Drained get rounds (i + 1) size' (got p) s' (rw next at h)))
      ]
    ]
  ]
