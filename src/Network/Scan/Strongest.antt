-- ===== src/Network/Scan/Strongest.antt =====
-- Each SSID of a scan once, with its strongest signal, in falling order.
use remy_desk.Base.{ℕ, ◌≡◌, sym, true, false, List, [], ◌∷◌, arith, Bool-cases, inl, inr}
use remy_desk.Base.Int.{ltb_ℤ, ◌≤ℤ◌}
use remy_desk.Base.Text.{same_bytes, same_bytes_false, same_bytes_differ}
use remy_desk.Network.Scan.{Network, place, sort_networks}

pub data All (P : Network → Type 0) : List Network → Type 0 where
  no_network : All P []
  one_more : {n : Network} {l : List Network} → P n → All P l → All P (n ∷ l)

pub data Any (P : Network → Type 0) : List Network → Type 0 where
  here : {n : Network} {l : List Network} → P n → Any P (n ∷ l)
  there : {n : Network} {l : List Network} → Any P l → Any P (n ∷ l)

-- Of the same SSID, and as strong at least.
abbrev pub Beats : Network → Network → Type 0
Beats e n = (same_bytes n.ssid e.ssid ≡ true) × (e.signal ≤ℤ n.signal)

abbrev pub Differs : Network → Network → Type 0
Differs a b = same_bytes a.ssid b.ssid ≡ false

abbrev pub Weaker : Network → Network → Type 0
Weaker a b = b.signal ≤ℤ a.signal

pub data EachOnce : List Network → Type 0 where
  empty : EachOnce []
  next : {n : Network} {l : List Network} → All (Differs n) l → EachOnce l → EachOnce (n ∷ l)

pub data Falling : List Network → Type 0 where
  empty : Falling []
  next : {n : Network} {l : List Network} → All (Weaker n) l → Falling l → Falling (n ∷ l)

pub same_bytes_swap : (xs ys : List ℕ) → same_bytes xs ys ≡ false → same_bytes ys xs ≡ false
same_bytes_swap xs ys h = same_bytes_false ys xs (λ e. same_bytes_differ xs ys h (sym e))

pub All-map :
    {P Q : Network → Type 0} {l : List Network} → ((n : Network) → P n → Q n) → All P l → All Q l
All-map f no_network = no_network
All-map f (one_more p a) = one_more (f _ p) (All-map f a)

place-All :
    {P : Network → Type 0} (e : Network) (l : List Network) → P e → All P l → All P (place e l)
unfolding place
place-All e [] p no_network = one_more p no_network
place-All e (n ∷ l) p (one_more q a) = elim (Bool-cases (ltb_ℤ e.signal n.signal)) [
  | inl lt ↦ rw lt (one_more q (place-All e l p a))
  | inr ge ↦ rw ge (one_more p (one_more q a))
]

place-here : {P : Network → Type 0} (e : Network) (l : List Network) → P e → Any P (place e l)
unfolding place
place-here e [] p = here p
place-here e (n ∷ l) p = elim (Bool-cases (ltb_ℤ e.signal n.signal)) [
  | inl lt ↦ rw lt (there (place-here e l p))
  | inr ge ↦ rw ge (here p)
]

place-there : {P : Network → Type 0} (e : Network) {l : List Network} → Any P l → Any P (place e l)
unfolding place
place-there e (here {n} {l} p) = elim (Bool-cases (ltb_ℤ e.signal n.signal)) [
  | inl lt ↦ rw lt (here p)
  | inr ge ↦ rw ge (there (here p))
]
place-there e (there {n} {l} a) = elim (Bool-cases (ltb_ℤ e.signal n.signal)) [
  | inl lt ↦ rw lt (there (place-there e a))
  | inr ge ↦ rw ge (there (there a))
]

not_below : (e n : Network) → ltb_ℤ e.signal n.signal ≡ true → Weaker n e
not_below e n lt = ground arith

not_above : (e n : Network) → ltb_ℤ e.signal n.signal ≡ false → Weaker e n
not_above e n ge = ground arith

Weaker-trans : (a b c : Network) → Weaker a b → Weaker b c → Weaker a c
Weaker-trans a b c h k = omega arith

place-Falling : (e : Network) {l : List Network} → Falling l → Falling (place e l)
unfolding place
place-Falling e empty = next no_network empty
place-Falling e (next {n} {l} below f) = elim (Bool-cases (ltb_ℤ e.signal n.signal)) [
  | inl lt ↦ rw lt (next (place-All e l (not_below e n lt) below) (place-Falling e f))
  | inr ge ↦ rw ge (
      next
        (one_more (not_above e n ge)
          (All-map (λ m h. Weaker-trans e n m (not_above e n ge) h) below))
        (next below f))
]

Differs-sym : (a b : Network) → Differs a b → Differs b a
Differs-sym a b h = same_bytes_swap a.ssid b.ssid h

place-EachOnce :
    (e : Network) {l : List Network} → All (Differs e) l → EachOnce l → EachOnce (place e l)
unfolding place
place-EachOnce e no_network empty = next no_network empty
place-EachOnce e (one_more d a) (next {n} {l} apart once) =
    elim (Bool-cases (ltb_ℤ e.signal n.signal)) [
      | inl lt ↦ rw lt (next (place-All e l (Differs-sym e n d) apart) (place-EachOnce e a once))
      | inr ge ↦ rw ge (next (one_more d a) (next apart once))
    ]

-- The sort keeps what holds of all, or of some.
pub sort-All : {P : Network → Type 0} {l : List Network} → All P l → All P (sort_networks l)
unfolding sort_networks
sort-All no_network = no_network
sort-All (one_more p a) = place-All _ _ p (sort-All a)

pub sort-Any : {P : Network → Type 0} {l : List Network} → Any P l → Any P (sort_networks l)
unfolding sort_networks
sort-Any (here p) = place-here _ _ p
sort-Any (there a) = place-there _ (sort-Any a)

pub sort-Falling : (l : List Network) → Falling (sort_networks l)
unfolding sort_networks
sort-Falling [] = empty
sort-Falling (e ∷ l) = place-Falling e (sort-Falling l)

pub sort-EachOnce : {l : List Network} → EachOnce l → EachOnce (sort_networks l)
unfolding sort_networks
sort-EachOnce empty = empty
sort-EachOnce (next apart once) = place-EachOnce _ (sort-All apart) (sort-EachOnce once)
