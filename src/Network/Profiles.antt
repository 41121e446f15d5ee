-- ===== src/Network/Profiles.antt =====
-- The profiles that nmcli lists, and the IPv4 settings of one: connections, ipv4 and setIpv4 of
-- src/core/network_manager.cpp. A command is the list of its arguments.
pub mod Stored
use remy_desk.Base.{
  ℕ, Bool, true, false, ◌&&◌, ◌||◌, not, ltb, ◌==◌, Option, none, some, List, [], ◌∷◌, ◌++◌,
  if◌then◌else◌,
}
use remy_desk.Base.Text.{codes, same_bytes, before_bytes}
use remy_desk.Network.Terse.{split_terse}
use remy_desk.Network.Scan.{lines_from}

-- A profile is wireless or of Ethernet.
pub record Profile : Type 0 where
  pub name : List ℕ
  pub uuid : List ℕ
  pub wireless : Bool
  pub device : List ℕ

abbrev pub is_active : Profile → Bool
is_active p = not (same_bytes p.device [])

abbrev wifi_type : List ℕ
wifi_type = codes "802-11-wireless"

-- The profile of a line, from its fields.
unfoldable pub profile_of : List ℕ → List (List ℕ) → Option Profile
profile_of hotspot (name ∷ uuid ∷ kind ∷ device ∷ more) =
    if not (same_bytes kind wifi_type) && not (same_bytes kind (codes "802-3-ethernet"))
    then none
    else if same_bytes name hotspot
    then none
    else some (record {
      name = name;
      uuid = uuid;
      wireless = same_bytes kind wifi_type;
      device = (if same_bytes device (codes "--") then [] else device);
    })
profile_of hotspot _ = none

unfoldable pub profiles_of : List ℕ → List (List ℕ) → List Profile
unfolding profile_of
profiles_of hotspot [] = []
profiles_of hotspot (line ∷ lines) =
    let rest = profiles_of hotspot lines in
    elim (profile_of hotspot (split_terse line)) [ none ↦ rest | some p ↦ p ∷ rest ]

-- The order of std::sort: those that are up come first, and then the names decide. Profiles of one
-- name and state stay as they were listed here.
abbrev pub goes_before : Profile → Profile → Bool
goes_before p q =
    if is_active p
    then not (is_active q) || before_bytes p.name q.name
    else not (is_active q) && before_bytes p.name q.name

unfoldable pub insert_profile : Profile → List Profile → List Profile
insert_profile p [] = p ∷ []
insert_profile p (q ∷ sorted) =
    let rest = insert_profile p sorted in if goes_before q p then q ∷ rest else p ∷ q ∷ sorted

unfoldable pub sort_profiles : List Profile → List Profile
unfolding insert_profile
sort_profiles [] = []
sort_profiles (p ∷ profiles) = insert_profile p (sort_profiles profiles)

unfoldable pub connections : List ℕ → List ℕ → List Profile
unfolding lines_from profiles_of sort_profiles
connections hotspot output = sort_profiles (profiles_of hotspot (lines_from [] output))

-- The first profile with the key as its UUID or its name.
unfoldable pub find_profile : List ℕ → List Profile → Option Profile
find_profile key [] = none
find_profile key (p ∷ profiles) =
    let rest = find_profile key profiles in
    if same_bytes p.uuid key || same_bytes p.name key then some p else rest

-- The values of a request; `manual` is whether its mode is that word.
pub record Ipv4 : Type 0 where
  pub manual : Bool
  pub address : List ℕ
  pub gateway : List ℕ
  pub dns : List ℕ

abbrev has_slash : List ℕ → Bool
has_slash [] = false
has_slash (c ∷ text) = c == 47 || has_slash text

-- A property and its value, for each pair of arguments behind the UUID.
abbrev pub Setting : Type 0
Setting = List ℕ × List ℕ

abbrev pub settings_for : Bool → Ipv4 → List Setting
settings_for true r =
    (codes "ipv4.method", codes "manual")
    ∷ (codes "ipv4.addresses", r.address)
    ∷ (codes "ipv4.gateway", r.gateway)
    ∷ (codes "ipv4.dns", r.dns)
    ∷ (codes "ipv4.ignore-auto-dns", codes "yes")
    ∷ []
settings_for false r =
    (codes "ipv4.method", codes "auto")
    ∷ (codes "ipv4.addresses", [])
    ∷ (codes "ipv4.gateway", [])
    ∷ (codes "ipv4.dns", [])
    ∷ (codes "ipv4.ignore-auto-dns", codes "no")
    ∷ []

-- The calls of nmcli on a profile; the second one is of `ipv4Thread_`, a second later.
pub data ProfileCall : Type 0 where
  modify : (uuid : List ℕ) → List Setting → ProfileCall
  bring_up_later : (uuid : List ℕ) → ProfileCall

pub data Ipv4Reply : Type 0 where
  no_connection no_prefix nmcli_error ipv4_saved : Ipv4Reply

-- The flag is whether nmcli accepts the change.
unfoldable pub set_found : Ipv4 → Bool → Option Profile → Ipv4Reply × List ProfileCall
set_found r accepts none = (no_connection, [])
set_found r accepts (some p) =
    let change = modify p.uuid (settings_for r.manual r) in
    if r.manual && not (has_slash r.address)
    then (no_prefix, [])
    else if not accepts
    then (nmcli_error, change ∷ [])
    else (ipv4_saved, change ∷ (if is_active p then bring_up_later p.uuid ∷ [] else []))

unfoldable pub set_ipv4 : List Profile → List ℕ → Ipv4 → Bool → Ipv4Reply × List ProfileCall
unfolding find_profile set_found
set_ipv4 profiles key r accepts = set_found r accepts (find_profile key profiles)

-- The map of the properties that a listing holds, the last one of a name first.
abbrev pub add_value : List (List ℕ) → List Setting → List Setting
add_value (name ∷ value ∷ more) values = (name, value) ∷ values
add_value _ values = values

unfoldable pub values_of : List (List ℕ) → List Setting → List Setting
values_of [] values = values
values_of (line ∷ lines) values = values_of lines (add_value (split_terse line) values)

abbrev pub value_of : List ℕ → List Setting → List ℕ
value_of name [] = []
value_of name ((n, value) ∷ values) = if same_bytes n name then value else value_of name values

abbrev pub ipv4_from : List Setting → Ipv4
ipv4_from values = record {
  manual = same_bytes (value_of (codes "ipv4.method") values) (codes "manual");
  address = value_of (codes "ipv4.addresses") values;
  gateway = value_of (codes "ipv4.gateway") values;
  dns = value_of (codes "ipv4.dns") values;
}

unfoldable pub read_ipv4 : List ℕ → Ipv4
unfolding lines_from values_of
read_ipv4 output = ipv4_from (values_of (lines_from [] output) [])
