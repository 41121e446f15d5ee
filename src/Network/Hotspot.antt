-- ===== src/Network/Hotspot.antt =====
-- The hotspot of src/core/network_manager.cpp: hotspotSsid, startHotspot, stopHotspot and
-- maybeStartHotspot. The name of the host and what nmcli answers are arguments.
pub mod Secured
use remy_desk.Base.{
  ℕ, Bool, true, false, ◌&&◌, ◌||◌, not, leb, ltb, ◌==◌, Option, none, some, List, [], ◌∷◌, ◌++◌,
  length, take, if◌then◌else◌,
}
use remy_desk.Base.Text.{codes, same_bytes}
use remy_desk.Network.Profiles.{Setting}

-- [A-Za-z0-9_.-]
abbrev pub is_host_byte : ℕ → Bool
is_host_byte c =
    (leb 65 c && leb c 90)
    || (leb 97 c && leb c 122)
    || (leb 48 c && leb c 57)
    || c == 95
    || c == 46
    || c == 45

-- A dash takes the place of each run of other bytes; the flag is whether such a run goes on.
unfoldable pub host_name : Bool → List ℕ → List ℕ
host_name running [] = []
host_name running (c ∷ host) =
    let plain = c ∷ host_name false host in
    let other = host_name true host in
    if is_host_byte c then plain else if running then other else 45 ∷ other

abbrev pub dashed : List ℕ → List ℕ
dashed [] = []
dashed (c ∷ host) = 45 ∷ take 12 (c ∷ host)

-- `none` is an error of gethostname: the name that takes its place holds no NUL byte, so that
-- `host.resize(npos)` throws.
unfoldable pub hotspot_ssid : List ℕ → Option (List ℕ) → Option (List ℕ)
unfolding host_name
hotspot_ssid prefix none = none
hotspot_ssid prefix (some host) = some (take 32 (prefix ++ dashed (host_name false host)))

-- The configuration.
pub record HotspotConfig : Type 0 where
  pub connection : List ℕ
  pub prefix : List ℕ
  pub password : List ℕ
  pub address : List ℕ

-- What a start meets: is the hotspot up, the device, is there a profile, and which calls succeed.
pub record HotspotCalls : Type 0 where
  pub active : Bool
  pub interface : List ℕ
  pub host : Option (List ℕ)
  pub exists : Bool
  pub adds : Bool
  pub modifies : Bool
  pub brings_up : Bool

pub data HotspotCommand : Type 0 where
  add_profile : (interface connection ssid : List ℕ) → HotspotCommand
  modify_profile : (connection : List ℕ) → List Setting → HotspotCommand
  profile_up profile_down : (connection : List ℕ) → HotspotCommand

pub data HotspotReply : Type 0 where
  short_password no_wifi no_host_name nmcli_failed : HotspotReply
  already_up up : HotspotReply

abbrev pub hotspot_settings : HotspotConfig → List ℕ → List Setting
hotspot_settings config ssid =
    (codes "ipv4.method", codes "shared")
    ∷ (codes "ipv4.addresses", config.address)
    ∷ (codes "ipv6.method", codes "ignore")
    ∷ (codes "connection.autoconnect", codes "no")
    ∷ (codes "802-11-wireless.mode", codes "ap")
    ∷ (codes "802-11-wireless.ssid", ssid)
    ∷ (codes "wifi-sec.key-mgmt", codes "wpa-psk")
    ∷ (codes "wifi-sec.psk", config.password)
    ∷ []

-- The two calls behind a profile that is there.
unfoldable pub configure_hotspot :
    HotspotConfig → HotspotCalls → List ℕ → List HotspotCommand → HotspotReply × List HotspotCommand
configure_hotspot config calls ssid before =
    let changed =
      before ++ (modify_profile config.connection (hotspot_settings config ssid) ∷ []) in
    if not calls.modifies
    then (nmcli_failed, changed)
    else let all = changed ++ (profile_up config.connection ∷ []) in
      if not calls.brings_up then (nmcli_failed, all) else (up, all)

-- Behind the tests; the SSID is asked for before the first command that changes something.
unfoldable pub start_named :
    HotspotConfig → HotspotCalls → Option (List ℕ) → HotspotReply × List HotspotCommand
unfolding configure_hotspot
start_named config calls none = (no_host_name, [])
start_named config calls (some ssid) =
    let added = add_profile calls.interface config.connection ssid ∷ [] in
    if calls.exists
    then configure_hotspot config calls ssid []
    else if not calls.adds
    then (nmcli_failed, added)
    else configure_hotspot config calls ssid added

unfoldable pub start_hotspot : HotspotConfig → HotspotCalls → HotspotReply × List HotspotCommand
unfolding start_named
start_hotspot config calls =
    if ltb (length config.password) 8
    then (short_password, [])
    else if calls.active
    then (already_up, [])
    else if same_bytes calls.interface []
    then (no_wifi, [])
    else start_named config calls (hotspot_ssid config.prefix calls.host)

unfoldable pub stop_hotspot : HotspotConfig → List HotspotCommand
stop_hotspot config = profile_down config.connection ∷ []

-- At boot, and later while no Wi-Fi was connected; an error is only logged.
unfoldable pub maybe_start_hotspot :
    HotspotConfig → HotspotCalls → Bool → Bool → List ℕ → List HotspotCommand
unfolding start_hotspot
maybe_start_hotspot config calls auto_hotspot connected_this_boot current_ssid =
    if not auto_hotspot || connected_this_boot || not (same_bytes current_ssid []) || calls.active
    then []
    else (start_hotspot config calls).1
