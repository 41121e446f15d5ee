-- ===== src/Network/Scan.antt =====
-- The list of networks of NetworkManager::scan: the lines that nmcli prints, the strongest of each
-- SSID, and their order.
pub mod Strongest
pub mod Listed
use remy_desk.Base.{
  ℕ, ◌+◌, ◌*◌, ◌-◌, Bool, true, false, ◌&&◌, ◌||◌, not, leb, ltb, ◌==◌, Option, none, some, List,
  [], ◌∷◌, ◌++◌, if◌then◌else◌,
}
use remy_desk.Base.Int.{ℤ, pos, negsuc, ltb_ℤ}
use remy_desk.Base.Text.{same_bytes, before_bytes}
use remy_desk.Network.Terse.{split_terse}

-- An item of the list.
pub record Network : Type 0 where
  pub ssid : List ℕ
  pub signal : ℤ
  pub security : List ℕ
  pub known : Bool
  pub in_use : Bool

-- std::getline until the end: the part behind the last line feed is a line if it is not empty.
unfoldable pub lines_from : List ℕ → List ℕ → List (List ℕ)
lines_from line [] = if same_bytes line [] then [] else line ∷ []
lines_from line (c ∷ output) =
    let ended = lines_from [] output in
    let longer = lines_from (line ++ (c ∷ [])) output in if c == 10 then line ∷ ended else longer

-- std::stoi: spaces, a sign, digits; `none` is one of its exceptions.
abbrev is_digit : ℕ → Bool
is_digit c = leb 48 c && leb c 57

unfoldable pub digits : ℕ → List ℕ → ℕ
digits n [] = n
digits n (c ∷ text) = let rest = digits (n * 10 + (c - 48)) text in if is_digit c then rest else n

abbrev starts_with_digit : List ℕ → Bool
starts_with_digit [] = false
starts_with_digit (c ∷ text) = is_digit c

abbrev in_int : Bool → ℕ → Option ℤ
in_int false n = if leb n 2147483647 then some (pos n) else none
in_int true n =
    if n == 0 then some (pos 0) else if leb n 2147483648 then some (negsuc (n - 1)) else none

unfoldable pub number : Bool → List ℕ → Option ℤ
unfolding digits
number negative text = if starts_with_digit text then in_int negative (digits 0 text) else none

abbrev is_space : ℕ → Bool
is_space c = c == 32 || (leb 9 c && leb c 13)

unfoldable pub stoi : List ℕ → Option ℤ
unfolding number
stoi [] = none
stoi (c ∷ text) =
    let rest = stoi text in
    if is_space c
    then rest
    else if c == 45
    then number true text
    else if c == 43
    then number false text
    else number false (c ∷ text)

unfoldable pub signal_of : List ℕ → ℤ
unfolding stoi
signal_of text = elim (stoi text) [ none ↦ pos 0 | some n ↦ n ]

abbrev pub contains : List (List ℕ) → List ℕ → Bool
contains [] name = false
contains (n ∷ names) name = same_bytes n name || contains names name

-- What a scan knows beside the output: the SSIDs of the saved profiles, and two SSIDs.
pub record Known : Type 0 where
  pub saved : List (List ℕ)
  pub current : List ℕ
  pub hotspot : List ℕ

-- The item of a line, from its fields.
unfoldable pub item_of : Known → List (List ℕ) → Option Network
unfolding signal_of
item_of k (ssid ∷ signal ∷ security ∷ in_use ∷ more) =
    if same_bytes ssid [] || same_bytes ssid k.hotspot
    then none
    else some (record {
      ssid = ssid;
      signal = signal_of signal;
      security = security;
      known = contains k.saved ssid;
      in_use = same_bytes ssid k.current;
    })
item_of k _ = none

abbrev pub add_item : Option Network → List Network → List Network
add_item none items = items
add_item (some n) items = n ∷ items

unfoldable pub items_of : Known → List (List ℕ) → List Network
unfolding item_of
items_of k [] = []
items_of k (line ∷ lines) =
    let rest = items_of k lines in add_item (item_of k (split_terse line)) rest

-- `bySsid`, in the order of its keys: an item takes the place of one with the same SSID if its signal
-- is greater.
unfoldable pub add_network : Network → List Network → List Network
add_network e [] = e ∷ []
add_network e (n ∷ by_ssid) =
    let rest = add_network e by_ssid in
    if same_bytes n.ssid e.ssid
    then (if ltb_ℤ n.signal e.signal then e else n) ∷ by_ssid
    else if before_bytes e.ssid n.ssid
    then e ∷ n ∷ by_ssid
    else n ∷ rest

unfoldable pub gather : List Network → List Network → List Network
unfolding add_network
gather by_ssid [] = by_ssid
gather by_ssid (e ∷ items) = gather (add_network e by_ssid) items

-- std::sort by falling signal; it leaves the order of equal signals open, which is that of the map
-- here.
unfoldable pub place : Network → List Network → List Network
place e [] = e ∷ []
place e (n ∷ sorted) =
    let rest = place e sorted in if ltb_ℤ e.signal n.signal then n ∷ rest else e ∷ n ∷ sorted

unfoldable pub sort_networks : List Network → List Network
unfolding place
sort_networks [] = []
sort_networks (e ∷ networks) = place e (sort_networks networks)

unfoldable pub list_networks : Known → List ℕ → List Network
unfolding lines_from items_of gather sort_networks
list_networks k output = sort_networks (gather [] (items_of k (lines_from [] output)))
