-- ===== src/Network/Tests.antt =====
-- Witnesses and tests of the network control.
use remy_desk.Base.{List, some, ◌++◌, ℕ, Bool, false, ◌≡◌, ◌≢◌, refl, true, false, none, [], ◌∷◌}
use remy_desk.Base.Text.{codes}
use remy_desk.Base.Int.{pos, negsuc}
use remy_desk.Network.Terse.{split_terse, action, split_from, terse_line, split_terse-terse_line}
use remy_desk.Network.Connect.{
  Wifi, start_wifi, busy, started, queued, connect_wifi, Answers, connect_thread, recover,
  recovered,
}
use remy_desk.Network.Scan.{Network, Known, lines_from, list_networks, stoi}
use remy_desk.Network.Scan.Strongest.{All, EachOnce, Falling}
use remy_desk.Network.Scan.Listed.{joined, Each, Found, Printed, list_networks-Falling}
use remy_desk.Network.Profiles.{
  Profile, Ipv4, settings_for, set_ipv4, set_found, find_profile, bring_up_later, connections,
  profiles_of, profile_of, sort_profiles, insert_profile, read_ipv4,
}
use remy_desk.Network.Profiles.Stored.{listing, shown, kept, read_ipv4-set_ipv4}
use remy_desk.Network.Hotspot.{HotspotConfig, HotspotCalls, hotspot_ssid, host_name, start_hotspot}
use remy_desk.Network.Hotspot.Secured.{Secured, start_hotspot-Secured}
use remy_desk.Network.Attempt.{Settled, connect_thread-Settled}

-- A name with a colon, and a device.
split_terse-terse_line_example :
    split_terse (terse_line (codes "my:net") (codes "wlan0" ∷ []))
    ≡ codes "my:net" ∷ codes "wlan0" ∷ []
split_terse-terse_line_example =
    split_terse-terse_line (codes "my:net") (codes "wlan0" ∷ []) refl refl

empty_line : split_terse [] ≡ [] ∷ []
unfolding split_terse split_from
empty_line = refl

abbrev asking : Wifi
asking = record {
  state = record { running = true; ssid = codes "home"; stage = queued; ok = false; error = [] };
  connected_this_boot = false;
}

asked : connect_wifi start_wifi (codes "home") ≡ started asking
unfolding connect_wifi
asked = refl

-- The password is wrong, and the card goes back to the network it was on.
abbrev answers : Answers
answers = record {
  hotspot_active = false;
  device_found = true;
  saved = none;
  joins = false;
  updated = none;
  auto_hotspot = true;
  current_ssid = [];
  window = [] ∷ codes "office" ∷ [];
  hotspot_starts = true;
}

-- It is reported as connected to `home`.
wrong_network : (connect_thread asking false (codes "secret") answers).wifi.state.ok ≡ true
unfolding connect_thread recover recovered
wrong_network = refl

connect_thread-Settled_example :
    (connect_wifi asking (codes "other") ≡ busy)
    × (asking.state.ssid ≡ codes "home")
    × Settled asking answers (connect_thread asking false (codes "secret") answers)
    × (connect_wifi (connect_thread asking false (codes "secret") answers).wifi (codes "other")
        ≢ busy)
connect_thread-Settled_example =
    connect_thread-Settled start_wifi asking 104 (codes "ome") false (codes "secret") answers 111
      (codes "ther") asked

-- Two lines of one SSID, another network, the hotspot, and a line with too few fields.
abbrev feed : List ℕ
feed = 10 ∷ []

abbrev lines : List (List ℕ)
lines =
    codes "home:40:WPA2:"
    ∷ codes "guest:70::*"
    ∷ codes "home:60:WPA2:"
    ∷ codes "desk:90:WPA2:"
    ∷ codes "broken"
    ∷ []

abbrev known : Known
known = record { saved = codes "home" ∷ []; current = codes "guest"; hotspot = codes "desk" }

abbrev home : Network
home = record {
  ssid = codes "home";
  signal = pos 60;
  security = codes "WPA2";
  known = true;
  in_use = false;
}

abbrev guest : Network
guest = record {
  ssid = codes "guest";
  signal = pos 70;
  security = [];
  known = false;
  in_use = true;
}

scanned : list_networks known (joined lines) ≡ guest ∷ home ∷ []
unfolding list_networks split_terse action
scanned = refl

-- Numbers with spaces, a sign, other text behind them, and out of range.
numbers :
    (stoi (codes " -7 dBm") ≡ some (negsuc 6))
    × (stoi (codes "+12") ≡ some (pos 12))
    × (stoi (codes "--") ≡ none)
    × (stoi (codes "2147483648") ≡ none)
unfolding stoi
numbers = (refl, refl, refl, refl)

list_networks-Falling_example :
    Falling (list_networks known (joined lines))
    × EachOnce (list_networks known (joined lines))
    × Each (Found known (list_networks known (joined lines))) lines
    × All (Printed known lines) (list_networks known (joined lines))
list_networks-Falling_example = list_networks-Falling known lines refl

-- The profile of the hotspot, a bridge, two that are down, and one that is up.
abbrev listed : List ℕ
listed =
    codes "desk:1:802-11-wireless:wlan0"
    ++ feed
    ++ codes "br0:2:bridge:br0"
    ++ feed
    ++ codes "wired:3:802-3-ethernet:--"
    ++ feed
    ++ codes "home:4:802-11-wireless:"
    ++ feed
    ++ codes "work:5:802-11-wireless:wlan0"

abbrev profile : (name uuid : List ℕ) → Bool → List ℕ → Profile
profile name uuid wireless device = record {
  name = name;
  uuid = uuid;
  wireless = wireless;
  device = device;
}

abbrev profiles : List Profile
profiles =
    profile (codes "work") (codes "5") true (codes "wlan0")
    ∷ profile (codes "home") (codes "4") true []
    ∷ profile (codes "wired") (codes "3") false []
    ∷ []

lists_profiles : connections (codes "desk") listed ≡ profiles
unfolding connections lines_from profiles_of profile_of split_terse split_from action sort_profiles
    insert_profile
lists_profiles = refl

abbrev fixed : Ipv4
fixed = record {
  manual = true;
  address = codes "10.0.0.2/24";
  gateway = codes "10.0.0.1";
  dns = codes "fd00::1";
}

read_ipv4-set_ipv4_example : read_ipv4 (listing (shown (settings_for true fixed))) ≡ kept fixed
unfolding set_ipv4 set_found find_profile
read_ipv4-set_ipv4_example =
    read_ipv4-set_ipv4 profiles (codes "work") fixed true (codes "5") (settings_for true fixed)
      (bring_up_later (codes "5") ∷ []) (listing (shown (settings_for true fixed))) refl refl refl
      refl

-- One dash stands for a run of bytes.
named_after_host :
    hotspot_ssid (codes "RemyDesk-Setup") (some (codes "my  board"))
    ≡ some (codes "RemyDesk-Setup-my-board")
unfolding hotspot_ssid host_name
named_after_host = refl

abbrev setup : HotspotConfig
setup = record {
  connection = codes "remydesk-setup";
  prefix = codes "RemyDesk-Setup";
  password = codes "12345678";
  address = codes "192.168.12.58/24";
}

abbrev first_start : HotspotCalls
first_start = record {
  active = false;
  interface = codes "wlan0";
  host = some (codes "board");
  exists = false;
  adds = true;
  modifies = true;
  brings_up = true;
}

start_hotspot-Secured_example :
    Secured setup first_start
      (start_hotspot setup first_start).0
      (start_hotspot setup first_start).1
start_hotspot-Secured_example = start_hotspot-Secured setup first_start

-- Without a name of the host there is no hotspot.
nameless : (start_hotspot setup (record first_start { host = none })).1 ≡ []
unfolding start_hotspot hotspot_ssid
nameless = refl
