-- ===== src/Network/Scan/Listed.antt =====
-- The list of a scan against the lines of nmcli.
use remy_desk.Base.{
  ℕ, ◌≡◌, ◌≢◌, ◌∙◌, ap, sym, refl, Bool, true, ◌&&◌, none, some, List, [], ◌∷◌, ◌++◌, arith,
  Option-cases, Bool-cases, inl, inr,
}
use mathlib.Core.Path.{subst}
use remy_desk.Base.Int.{ltb_ℤ, ◌≤ℤ◌}
use remy_desk.Base.Text.{
  same_bytes, same_bytes_sound, same_bytes_refl, same_bytes_false, same_bytes_differ, before_bytes,
  before_trans, before_differ, before_total,
}
use remy_desk.Network.Terse.{split_terse}
use remy_desk.Network.Profiles.Stored.{no_feed, lines_from-line}
use remy_desk.Network.Scan.{
  Network, Known, lines_from, signal_of, contains, item_of, sort_networks, items_of, add_network,
  gather, list_networks,
}
use remy_desk.Network.Scan.Strongest.{
  All, no_network, one_more, Any, here, there, Beats, same_bytes_swap, EachOnce, empty, next,
  Falling, All-map, sort-All, sort-Any, sort-Falling, sort-EachOnce,
}

add-All :
    {P : Network → Type 0} (e : Network) {l : List Network}
    → P e
    → All P l
    → All P (add_network e l)
unfolding add_network
add-All e p no_network = one_more p no_network
add-All e p (one_more {n} {l} q a) = elim (Bool-cases (same_bytes n.ssid e.ssid)) [
  | inr other ↦ elim (Bool-cases (before_bytes e.ssid n.ssid)) [
    | inl first ↦ rw (other, first) (one_more p (one_more q a))
    | inr behind ↦ rw (other, behind) (one_more q (add-All e p a))
  ]
  | inl same ↦ elim (Bool-cases (ltb_ℤ n.signal e.signal)) [
    | inl lt ↦ rw (same, lt) (one_more p a)
    | inr ge ↦ rw (same, ge) (one_more q a)
  ]
]

-- Of the new item and of each before it there is one as strong.
add-here : (e : Network) (l : List Network) → Any (Beats e) (add_network e l)
unfolding add_network
add-here e [] = here (same_bytes_refl e.ssid, omega arith)
add-here e (n ∷ l) = elim (Bool-cases (same_bytes n.ssid e.ssid)) [
  | inr other ↦ elim (Bool-cases (before_bytes e.ssid n.ssid)) [
    | inl first ↦ rw (other, first) (here (same_bytes_refl e.ssid, omega arith))
    | inr behind ↦ rw (other, behind) (there (add-here e l))
  ]
  | inl same ↦ elim (Bool-cases (ltb_ℤ n.signal e.signal)) [
    | inl lt ↦ rw (same, lt) (here (same_bytes_refl e.ssid, omega arith))
    | inr ge ↦ rw (same, ge) (here (same, ground arith))
  ]
]

Beats-again :
    (d n e : Network)
    → Beats d n
    → same_bytes n.ssid e.ssid ≡ true
    → ltb_ℤ n.signal e.signal ≡ true
    → Beats d e
Beats-again d n e (same, weak) equal lt =
    let one = same_bytes_sound n.ssid e.ssid equal in
    (subst (λ s. same_bytes s d.ssid ≡ true) one same, ground arith)

add-there : (e d : Network) {l : List Network} → Any (Beats d) l → Any (Beats d) (add_network e l)
unfolding add_network
add-there e d (here {n} {l} b) = elim (Bool-cases (same_bytes n.ssid e.ssid)) [
  | inr other ↦ elim (Bool-cases (before_bytes e.ssid n.ssid)) [
    | inl first ↦ rw (other, first) (there (here b))
    | inr behind ↦ rw (other, behind) (here b)
  ]
  | inl same ↦ elim (Bool-cases (ltb_ℤ n.signal e.signal)) [
    | inl lt ↦ rw (same, lt) (here (Beats-again d n e b same lt))
    | inr ge ↦ rw (same, ge) (here b)
  ]
]
add-there e d (there {n} {l} a) = elim (Bool-cases (same_bytes n.ssid e.ssid)) [
  | inr other ↦ elim (Bool-cases (before_bytes e.ssid n.ssid)) [
    | inl first ↦ rw (other, first) (there (there a))
    | inr behind ↦ rw (other, behind) (there (add-there e d a))
  ]
  | inl same ↦ rw same (there a)
]

-- In the order of the SSIDs.
abbrev Before : Network → Network → Type 0
Before a b = before_bytes a.ssid b.ssid ≡ true

data Increasing : List Network → Type 0 where
  none_yet : Increasing []
  then_more :
      {n : Network} {l : List Network} → All (Before n) l → Increasing l → Increasing (n ∷ l)

Before-moved : (n e m : Network) → same_bytes n.ssid e.ssid ≡ true → Before n m → Before e m
Before-moved n e m same d =
    subst (λ s. before_bytes s m.ssid ≡ true) (same_bytes_sound n.ssid e.ssid same) d

add-Increasing : (e : Network) {l : List Network} → Increasing l → Increasing (add_network e l)
unfolding add_network
add-Increasing e none_yet = then_more no_network none_yet
add-Increasing e (then_more {n} {l} below i) = elim (Bool-cases (same_bytes n.ssid e.ssid)) [
  | inr other ↦ elim (Bool-cases (before_bytes e.ssid n.ssid)) [
    | inl first ↦
        rw (other, first)
          (then_more
            (one_more first (All-map (λ m d. before_trans e.ssid n.ssid m.ssid first d) below))
            (then_more below i))
    | inr behind ↦
        let later = before_total e.ssid n.ssid (same_bytes_swap n.ssid e.ssid other) behind in
        rw (other, behind) (then_more (add-All e later below) (add-Increasing e i))
  ]
  | inl same ↦ elim (Bool-cases (ltb_ℤ n.signal e.signal)) [
    | inl lt ↦ rw (same, lt) (then_more (All-map (λ m d. Before-moved n e m same d) below) i)
    | inr ge ↦ rw (same, ge) (then_more below i)
  ]
]

Increasing-EachOnce : {l : List Network} → Increasing l → EachOnce l
Increasing-EachOnce none_yet = empty
Increasing-EachOnce (then_more {n} below i) =
    next (All-map (λ m d. before_differ n.ssid m.ssid d) below) (Increasing-EachOnce i)

gather-All :
    {P : Network → Type 0} (l : List Network) {items : List Network}
    → All P l
    → All P items
    → All P (gather l items)
unfolding gather
gather-All l a no_network = a
gather-All l a (one_more {n = e} p rest) = gather-All (add_network e l) (add-All e p a) rest

gather-Increasing : (l items : List Network) → Increasing l → Increasing (gather l items)
unfolding gather
gather-Increasing l [] i = i
gather-Increasing l (e ∷ items) i = gather-Increasing (add_network e l) items (add-Increasing e i)

gather-kept :
    (d : Network) (l items : List Network) → Any (Beats d) l → Any (Beats d) (gather l items)
unfolding gather
gather-kept d l [] a = a
gather-kept d l (e ∷ items) a = gather-kept d (add_network e l) items (add-there e d a)

gather-beaten : (l items : List Network) → All (λ e. Any (Beats e) (gather l items)) items
unfolding gather
gather-beaten l [] = no_network
gather-beaten l (e ∷ items) =
    one_more (gather-kept e (add_network e l) items (add-here e l))
      (gather-beaten (add_network e l) items)

-- The lines, each with its line feed.
abbrev pub joined : List (List ℕ) → List ℕ
joined [] = []
joined (line ∷ lines) = line ++ (10 ∷ joined lines)

abbrev pub Each : (List ℕ → Type 0) → List (List ℕ) → Type 0
Each P [] = Unit
Each P (line ∷ lines) = P line × Each P lines

abbrev pub all_no_feed : List (List ℕ) → Bool
all_no_feed [] = true
all_no_feed (line ∷ lines) = no_feed line && all_no_feed lines

lines_from-joined :
    (lines : List (List ℕ)) → all_no_feed lines ≡ true → lines_from [] (joined lines) ≡ lines
unfolding lines_from
lines_from-joined [] h = refl
lines_from-joined (line ∷ lines) h =
    lines_from-line [] line (joined lines) (ground arith)
    ∙ ap (◌∷◌ line) (lines_from-joined lines (ground arith))

-- A line of four fields or more, with an SSID that is not empty and not the hotspot's.
pub record Shows (k : Known) (line ssid signal : List ℕ) : Type 0 where
  pub security : List ℕ
  pub in_use : List ℕ
  pub more : List (List ℕ)
  pub fields : split_terse line ≡ ssid ∷ signal ∷ security ∷ in_use ∷ more
  pub named : ssid ≢ []
  pub foreign : ssid ≢ k.hotspot

-- An item with the SSID and the signal of one of the lines.
pub data Printed (k : Known) : List (List ℕ) → Network → Type 0 where
  on_line :
      {line : List ℕ} {lines : List (List ℕ)} {n : Network} (signal : List ℕ)
      → Shows k line n.ssid signal
      → n.signal ≡ signal_of signal
      → Printed k (line ∷ lines) n
  further :
      {line : List ℕ} {lines : List (List ℕ)} {n : Network}
      → Printed k lines n
      → Printed k (line ∷ lines) n

-- A network of the SSID of the line, with its signal at least.
abbrev pub Found : Known → List Network → List ℕ → Type 0
Found k networks line =
    (ssid signal : List ℕ)
    → Shows k line ssid signal
    → Any (λ n. (same_bytes n.ssid ssid ≡ true) × (signal_of signal ≤ℤ n.signal)) networks

not_some : {n : Network} → none ≢ some n
not_some e = cc

uncons : {P : Network → Type 0} {n : Network} {l : List Network} → All P (n ∷ l) → P n × All P l
uncons (one_more p a) = (p, a)

some_item : {n m : Network} → some n ≡ some m → n ≡ m
some_item e = cc

abbrev item : Known → (ssid signal security : List ℕ) → Network
item k ssid signal security = record {
  ssid = ssid;
  signal = signal_of signal;
  security = security;
  known = contains k.saved ssid;
  in_use = same_bytes ssid k.current;
}

item_of-Shows :
    (k : Known) (line ssid signal : List ℕ) (shows : Shows k line ssid signal)
    → item_of k (split_terse line) ≡ some (item k ssid signal shows.security)
unfolding item_of
item_of-Shows k line ssid signal shows =
    let a = same_bytes_false ssid [] shows.named in
    let b = same_bytes_false ssid k.hotspot shows.foreign in
    ap (item_of k) shows.fields ∙ rw (a, b) refl

-- The fields that an item comes from.
from_fields :
    (k : Known) (line : List ℕ) (lines : List (List ℕ)) (n : Network) (fields : List (List ℕ))
    → split_terse line ≡ fields
    → item_of k fields ≡ some n
    → Printed k (line ∷ lines) n
unfolding item_of
from_fields k line lines n [] at e = cc
from_fields k line lines n (a ∷ []) at e = cc
from_fields k line lines n (a ∷ b ∷ []) at e = cc
from_fields k line lines n (a ∷ b ∷ c ∷ []) at e = cc
from_fields k line lines n (ssid ∷ signal ∷ security ∷ in_use ∷ more) at e =
    elim (Bool-cases (same_bytes ssid [])) [
      | inl nothing ↦ absurd (not_some (rw (item_of, nothing) at e))
      | inr named ↦ elim (Bool-cases (same_bytes ssid k.hotspot)) [
        | inl own ↦ absurd (not_some (rw (item_of, named, own) at e))
        | inr foreign ↦
            let same : item k ssid signal security ≡ n =
              some_item (rw (item_of, named, foreign) at e) in
            subst (Printed k (line ∷ lines)) same (
              on_line signal
                (record {
                  security = security;
                  in_use = in_use;
                  more = more;
                  fields = at;
                  named = same_bytes_differ ssid [] named;
                  foreign = same_bytes_differ ssid k.hotspot foreign;
                })
                refl)
      ]
    ]

items_of-Printed : (k : Known) (lines : List (List ℕ)) → All (Printed k lines) (items_of k lines)
unfolding items_of
items_of-Printed k [] = no_network
items_of-Printed k (line ∷ lines) =
    let rest : All (Printed k (line ∷ lines)) (items_of k lines) =
      All-map (λ n p. further p) (items_of-Printed k lines) in
    elim (Option-cases (item_of k (split_terse line))) [
      | inl nothing ↦ rw nothing rest
      | inr (n, e) ↦ rw e (one_more (from_fields k line lines n (split_terse line) refl e) rest)
    ]

served_lines :
    (k : Known) (networks : List Network) (lines : List (List ℕ))
    → All (λ e. Any (Beats e) networks) (items_of k lines)
    → Each (Found k networks) lines
unfolding items_of
served_lines k networks [] a = tt
served_lines k networks (line ∷ lines) a = elim (Option-cases (item_of k (split_terse line))) [
  | inl nothing ↦ (
    λ ssid signal shows. absurd (not_some (sym nothing ∙ item_of-Shows k line ssid signal shows)),
    served_lines k networks lines (rw nothing at a),
  )
  | inr (n, e) ↦
      let (first, rest) = uncons (rw e at a) in
      (
        λ ssid signal shows.
            let same = some_item (sym e ∙ item_of-Shows k line ssid signal shows) in
            subst (λ m. Any (Beats m) networks) same first,
        served_lines k networks lines rest,
      )
]

-- Of printed lines, each with a line feed at its end and none inside: the list holds each SSID once, in
-- the order of falling signals. For each line of four fields or more, with an SSID that is not empty and
-- not the hotspot's, it holds an item of that SSID that is as strong at least; and each item has the SSID
-- and the signal of such a line.
pub list_networks-Falling :
    (k : Known) (lines : List (List ℕ))
    → all_no_feed lines ≡ true
    → Falling (list_networks k (joined lines))
      × EachOnce (list_networks k (joined lines))
      × Each (Found k (list_networks k (joined lines))) lines
      × All (Printed k lines) (list_networks k (joined lines))
unfolding list_networks
list_networks-Falling k lines h =
    let items = items_of k lines in
    let list = sort_networks (gather [] items) in
    let Listed : List (List ℕ) → Type 0 = λ l.
      (let found = sort_networks (gather [] (items_of k l)) in
        Falling found
        × EachOnce found
        × Each (Found k found) lines
        × All (Printed k lines) found) in
    subst Listed (sym (lines_from-joined lines h)) (
      sort-Falling (gather [] items),
      sort-EachOnce (Increasing-EachOnce (gather-Increasing [] items none_yet)),
      served_lines k list lines (All-map (λ e b. sort-Any b) (gather-beaten [] items)),
      sort-All (gather-All [] no_network (items_of-Printed k lines)),
    )
