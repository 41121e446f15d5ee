-- ===== src/Encode/Enough.antt =====
-- The drain loop on the frames that MPP delivers within its rounds.
use remy_desk.Base.{
  ℕ, zero, suc, ◌+◌, ◌≤◌, ◌<◌, ◌≡◌, refl, Bool, true, List, [], ◌∷◌, length, arith,
}
use remy_desk.Encode.{Packet, Get, nothing, got, pass_on, drain}
use remy_desk.Encode.Drain.{
  Drains, last, more, wait, Fed, fed_all, skip, wrote, round_nothing, round_ends, round_more,
}

Drains-later : {get : ℕ → Get} {i j : ℕ} {ps : List Packet} → Drains get i ps j → i < j
Drains-later (last e l) = omega arith
Drains-later (more e l d) = let rest = Drains-later d in omega arith
Drains-later (wait e d) = let rest = Drains-later d in omega arith

module _ {S : Type 0} (write : S → List ℕ → Bool × S) where
  pass_on_empty :
      (s : S) (bytes : List ℕ) (size : ℕ)
      → bytes ≡ []
      → pass_on write s bytes size ≡ (true, s, size)
  unfolding pass_on
  pass_on_empty s bytes size e = rw e refl

  pass_on_wrote :
      (s next : S) (bytes : List ℕ) (size : ℕ)
      → 0 < length bytes
      → write s bytes ≡ (true, next)
      → pass_on write s bytes size ≡ (true, next, size + length bytes)
  unfolding pass_on
  pass_on_wrote s next [] size lt e = absurd (omega arith)
  pass_on_wrote s next (b ∷ bytes) size lt e = rw e refl

  -- The first packet of those that are fed.
  front_taken :
      (s s' : S) (p : Packet) (ps : List Packet) (size : ℕ)
      → Fed write s (p ∷ ps) s'
      → ((pass_on write s p.data_bytes size).0 ≡ true)
        × Fed write (pass_on write s p.data_bytes size).1 ps s'
  front_taken s s' p ps size (skip e f) = rw (pass_on_empty s p.data_bytes size e) (refl, f)
  front_taken s s' p ps size (wrote {next = next} lt e f) =
      rw (pass_on_wrote s next p.data_bytes size lt e) (refl, f)

  none_taken : (s s' : S) → Fed write s [] s' → s ≡ s'
  none_taken s s' fed_all = refl

  pub Drains-drain :
      (get : ℕ → Get) (rounds i size : ℕ) (before_it : Get) (s s' : S) {j : ℕ} {ps : List Packet}
      → Drains get i ps j
      → j ≤ i + rounds
      → Fed write s ps s'
      → ((drain write get rounds i before_it s size).returns_zero ≡ true)
        × ((drain write get rounds i before_it s size).state ≡ s')
  Drains-drain get zero i size b s s' d le f = let after = Drains-later d in absurd (omega arith)
  Drains-drain get (suc rounds) i size b s s' (wait {set = set} e d) le f =
      rw (round_nothing write get rounds i size b s set e)
        (Drains-drain get rounds (i + 1) size (nothing set) s s' d (omega arith) f)
  Drains-drain get (suc rounds) i size b s s' (last {p = p} e l) le f =
      let (ok, rest) = front_taken s s' p [] size f in
      rw (round_ends write get rounds i size b s p e ok l) (refl, none_taken _ s' rest)
  Drains-drain get (suc rounds) i size b s s' (more {p = p} {ps = ps} e l d) le f =
      let (ok, rest) = front_taken s s' p ps size f in
      let (_, next, size') = pass_on write s p.data_bytes size in
      rw (round_more write get rounds i size b s p e ok l)
        (Drains-drain get rounds (i + 1) size' (got p) next s' d (omega arith) rest)
