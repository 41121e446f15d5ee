-- ===== src/Files/Layout/Steady.antt =====
-- The layouts that the check in writeDesktopLayout lets through.
use remy_desk.Base.{
  ℕ, suc, ◌≤◌, ◌≡◌, ap, refl, ◌⊎◌, inl, inr, Bool, true, false, Option, none, some, List, [], ◌∷◌,
  length, arith, Bool-cases,
}
use mathlib.Core.Path.{subst}
use remy_desk.Base.Text.{before_bytes}
use remy_desk.Files.Layout.{
  Numbers, Value, finite, Position, Item, no_object, object_of, Layout, LayoutError, Checked,
  refused, accepted, when_accepted, is_empty, as_value, as_item, as_items, clamp, bounded_number,
  coordinate, position_of, is_bad_key, entry_of, normalize,
}

-- What the code relies on: no number is below itself, and the bounds are in order.
pub record IsOrder {R : Type 0} (n : Numbers R) : Type 0 where
  pub irreflexive : (r : R) → n.below r r ≡ false
  pub unit_above : n.below n.unit n.least ≡ false
  pub far_above : n.below n.far n.least ≡ false

pub when_accepted-accepted :
    {A B : Type 0} (c : Checked A) (f : A → Checked B) (b : B)
    → when_accepted c f ≡ accepted b
    → (a : A) × (c ≡ accepted a) × (f a ≡ accepted b)
when_accepted-accepted (refused e) f b h = cc
when_accepted-accepted (accepted a) f b h = (a, refl, h)

pub Checked-cases :
    {A : Type 0} (c : Checked A)
    → ((e : LayoutError) × (c ≡ refused e)) ⊎ ((a : A) × (c ≡ accepted a))
Checked-cases (refused e) = inl (e, refl)
Checked-cases (accepted a) = inr (a, refl)

pub accepted_same : {A : Type 0} {a b : A} → accepted a ≡ accepted b → a ≡ b
accepted_same e = cc

-- The keys of an object increase.
abbrev pub After : {A : Type 0} → List ℕ → List (List ℕ × A) → Type 0
After key [] = Unit
After key ((k, a) ∷ l) = (before_bytes key k ≡ true) × After key l

abbrev pub KeysIncrease : {A : Type 0} → List (List ℕ × A) → Type 0
KeysIncrease [] = Unit
KeysIncrease ((k, a) ∷ l) = After k l × KeysIncrease l

module _ {R : Type 0} (n : Numbers R) where
  abbrev pub InRange : Option R → R → R → Type 0
  InRange none low high = Unit
  InRange (some r) low high = (n.below r low ≡ false) × (n.below high r ≡ false)

  pub record Inside (p : Position R) : Type 0 where
    pub rx_range : InRange p.rx n.least n.unit
    pub ry_range : InRange p.ry n.least n.unit
    pub x_range : InRange p.x n.least n.far
    pub y_range : InRange p.y n.least n.far

  -- Entries with keys that are usable and a coordinate, all in range.
  abbrev pub Tidy : (List ℕ → Bool) → Layout R → Type 0
  Tidy inside [] = Unit
  Tidy inside ((key, p) ∷ layout) =
      (is_bad_key n inside key ≡ false)
      × (inside key ≡ true)
      × (is_empty p ≡ false)
      × Inside p
      × Tidy inside layout

module _ {R : Type 0} (n : Numbers R) (order : IsOrder n) where
  clamp-InRange :
      (r low high : R) → n.below high low ≡ false → InRange n (some (clamp n r low high)) low high
  unfolding clamp
  clamp-InRange r low high h = elim (Bool-cases (n.below r low)) [
    | inl under ↦ rw under (order.irreflexive low, h)
    | inr above ↦ elim (Bool-cases (n.below high r)) [
      | inl over ↦ rw (above, over) (h, order.irreflexive high)
      | inr within ↦ rw (above, within) (above, within)
    ]
  ]

  clamp-inside : (r low high : R) → InRange n (some r) low high → clamp n r low high ≡ r
  unfolding clamp
  clamp-inside r low high (above, within) = rw (above, within) refl

  coordinate-InRange :
      (v : Option (Value R)) (low high : R) (o : Option R)
      → n.below high low ≡ false
      → coordinate n v low high ≡ accepted o
      → InRange n o low high
  unfolding coordinate bounded_number
  coordinate-InRange none low high none h e = tt
  coordinate-InRange none low high (some r) h e = cc
  coordinate-InRange (some Value.not_numeric) low high o h e = cc
  coordinate-InRange (some Value.not_finite) low high o h e = cc
  coordinate-InRange (some (finite r)) low high o h e =
      let same : some (clamp n r low high) ≡ o = accepted_same e in
      subst (λ p. InRange n p low high) same (clamp-InRange r low high h)

  coordinate-again :
      (o : Option R) (low high : R)
      → InRange n o low high
      → coordinate n (as_value o) low high ≡ accepted o
  unfolding coordinate bounded_number
  coordinate-again none low high h = refl
  coordinate-again (some r) low high h = ap (λ s. accepted (some s)) (clamp-inside r low high h)

  position_of-Inside :
      (v : Position (Value R)) (p : Position R) → position_of n v ≡ accepted p → Inside n p
  unfolding position_of
  position_of-Inside v p h =
      let (rx, e1, h1) = when_accepted-accepted (coordinate n v.rx n.least n.unit) _ p h in
      let (ry, e2, h2) = when_accepted-accepted (coordinate n v.ry n.least n.unit) _ p h1 in
      let (x, e3, h3) = when_accepted-accepted (coordinate n v.x n.least n.far) _ p h2 in
      let (y, e4, h4) = when_accepted-accepted (coordinate n v.y n.least n.far) _ p h3 in
      subst (Inside n) (accepted_same h4) (record {
        rx_range = coordinate-InRange v.rx _ _ rx order.unit_above e1;
        ry_range = coordinate-InRange v.ry _ _ ry order.unit_above e2;
        x_range = coordinate-InRange v.x _ _ x order.far_above e3;
        y_range = coordinate-InRange v.y _ _ y order.far_above e4;
      })

  position_of-again :
      (p : Position R)
      → Inside n p
      → position_of n
          (record { rx = as_value p.rx; ry = as_value p.ry; x = as_value p.x; y = as_value p.y })
        ≡ accepted p
  unfolding position_of
  position_of-again p i =
      rw
        (
          coordinate-again p.rx n.least n.unit i.rx_range,
          coordinate-again p.ry n.least n.unit i.ry_range,
          coordinate-again p.x n.least n.far i.x_range,
          coordinate-again p.y n.least n.far i.y_range,
        )
        refl

  module _ (inside : List ℕ → Bool) where
    entry_of-Inside :
        (key : List ℕ) (item : Item R) (p : Position R)
        → entry_of n inside key item ≡ accepted p
        → (is_bad_key n inside key ≡ false) × (inside key ≡ true) × Inside n p
    unfolding entry_of
    entry_of-Inside key no_object p h = cc
    entry_of-Inside key (object_of v) p h = elim (Bool-cases (is_bad_key n inside key)) [
      | inl bad ↦ cc
      | inr usable ↦ elim (Bool-cases (inside key)) [
        | inl kept ↦ (usable, kept, position_of-Inside v p (rw (usable, kept) at h))
        | inr escapes ↦ cc
      ]
    ]

    entry_of-again :
        (key : List ℕ) (p : Position R)
        → is_bad_key n inside key ≡ false
        → inside key ≡ true
        → Inside n p
        → entry_of n inside key (as_item p) ≡ accepted p
    unfolding entry_of
    entry_of-again key p usable kept i = rw (usable, kept) (position_of-again p i)

    pub normalize-Tidy :
        (items : List (List ℕ × Item R)) (l : Layout R)
        → normalize n inside items ≡ accepted l
        → Tidy n inside l × (length l ≤ length items)
    unfolding normalize
    normalize-Tidy [] l h =
        subst (λ m. Tidy n inside m × (length m ≤ 0)) (accepted_same h) (tt, omega arith)
    normalize-Tidy ((key, item) ∷ items) l h =
        let (p, e, h1) = when_accepted-accepted (entry_of n inside key item) _ l h in
        let (rest, e2, h2) = when_accepted-accepted (normalize n inside items) _ l h1 in
        let (usable, kept, i) = entry_of-Inside key item p e in
        let (tidy, short) = normalize-Tidy items rest e2 in
        let Good : Layout R → Type 0 = λ m. Tidy n inside m × (length m ≤ suc (length items)) in
        subst Good (accepted_same h2) (elim (Bool-cases (is_empty p)) [
          | inl nothing ↦ rw nothing (tidy, omega arith)
          | inr something ↦ rw something ((usable, kept, something, i, tidy), omega arith)
        ])

    pub normalize-again :
        (l : Layout R) → Tidy n inside l → normalize n inside (as_items l) ≡ accepted l
    unfolding normalize
    normalize-again [] t = refl
    normalize-again ((key, p) ∷ l) (usable, kept, something, i, t) =
        rw (entry_of-again key p usable kept i, normalize-again l t, something) refl

    normalize-After :
        (key : List ℕ) (items : List (List ℕ × Item R)) (l : Layout R)
        → After key items
        → normalize n inside items ≡ accepted l
        → After key l
    unfolding normalize
    normalize-After key [] l a h = subst (After key) (accepted_same h) tt
    normalize-After key ((k, item) ∷ items) l (first, later) h =
        let (p, e, h1) = when_accepted-accepted (entry_of n inside k item) _ l h in
        let (rest, e2, h2) = when_accepted-accepted (normalize n inside items) _ l h1 in
        let behind = normalize-After key items rest later e2 in
        subst (After key) (accepted_same h2) (elim (Bool-cases (is_empty p)) [
          | inl nothing ↦ rw nothing behind
          | inr something ↦ rw something (first, behind)
        ])

    pub normalize-KeysIncrease :
        (items : List (List ℕ × Item R)) (l : Layout R)
        → KeysIncrease items
        → normalize n inside items ≡ accepted l
        → KeysIncrease l
    unfolding normalize
    normalize-KeysIncrease [] l a h = subst KeysIncrease (accepted_same h) tt
    normalize-KeysIncrease ((k, item) ∷ items) l (first, later) h =
        let (p, e, h1) = when_accepted-accepted (entry_of n inside k item) _ l h in
        let (rest, e2, h2) = when_accepted-accepted (normalize n inside items) _ l h1 in
        let behind = normalize-KeysIncrease items rest later e2 in
        let after = normalize-After k items rest first e2 in
        subst KeysIncrease (accepted_same h2) (elim (Bool-cases (is_empty p)) [
          | inl nothing ↦ rw nothing behind
          | inr something ↦ rw something (after, behind)
        ])
