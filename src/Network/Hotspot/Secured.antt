-- ===== src/Network/Hotspot/Secured.antt =====
-- The commands of a start of the hotspot, on every path, and the bytes of its SSID.
use remy_desk.Base.{
  ℕ, zero, suc, ◌≤◌, ◌≡◌, ◌≢◌, sym, refl, inl, inr, Bool, true, false, ◌&&◌, not, ltb, leb, ◌==◌,
  ◌⊎◌, Option, none, some, List, [], ◌∷◌, ◌++◌, length, take, arith, if◌then◌else◌, Bool-cases,
}
use mathlib.Core.Path.{subst}
use remy_desk.Base.Text.{codes, same_bytes, same_bytes_differ}
use remy_desk.Network.Profiles.{Setting, value_of}
use remy_desk.Network.Hotspot.{
  no_host_name, is_host_byte, host_name, dashed, hotspot_ssid, HotspotConfig, HotspotCalls,
  HotspotCommand, add_profile, modify_profile, profile_up, HotspotReply, short_password, no_wifi,
  nmcli_failed, already_up, up, hotspot_settings, configure_hotspot, start_named, start_hotspot,
}

-- A letter, a digit, or one of _ . -
pub data HostByte (c : ℕ) : Type 0 where
  upper : 65 ≤ c → c ≤ 90 → HostByte c
  lower : 97 ≤ c → c ≤ 122 → HostByte c
  digit : 48 ≤ c → c ≤ 57 → HostByte c
  mark : (c ≡ 95) ⊎ ((c ≡ 46) ⊎ (c ≡ 45)) → HostByte c

pub data AllHost : List ℕ → Type 0 where
  no_byte : AllHost []
  one_more : {c : ℕ} {host : List ℕ} → HostByte c → AllHost host → AllHost (c ∷ host)

host_byte : (c : ℕ) → is_host_byte c ≡ true → HostByte c
host_byte c h = elim (Bool-cases (leb 65 c && leb c 90)) [
  | inl a ↦ upper (ground arith) (ground arith)
  | inr a ↦ elim (Bool-cases (leb 97 c && leb c 122)) [
    | inl b ↦ lower (ground arith) (ground arith)
    | inr b ↦ elim (Bool-cases (leb 48 c && leb c 57)) [
      | inl d ↦ digit (ground arith) (ground arith)
      | inr d ↦ elim (Bool-cases (c == 95)) [
        | inl e ↦ mark (inl (ground arith))
        | inr e ↦ elim (Bool-cases (c == 46)) [
          | inl f ↦ mark (inr (inl (ground arith)))
          | inr f ↦ mark (inr (inr (ground arith)))
        ]
      ]
    ]
  ]
]

abbrev pub all_host : List ℕ → Bool
all_host [] = true
all_host (c ∷ host) = is_host_byte c && all_host host

host_name-all_host : (running : Bool) (host : List ℕ) → all_host (host_name running host) ≡ true
unfolding host_name
host_name-all_host running [] = refl
host_name-all_host running (c ∷ host) =
    let plain = host_name-all_host false host in
    let other = host_name-all_host true host in
    elim (Bool-cases (is_host_byte c)) [
      | inl kept ↦ rw kept (rw kept plain)
      | inr changed ↦ elim (Bool-cases running) [
        | inl goes_on ↦ rw (changed, goes_on) other
        | inr starts ↦ rw (changed, starts) other
      ]
    ]

take-all_host : (n : ℕ) (host : List ℕ) → all_host host ≡ true → all_host (take n host) ≡ true
take-all_host zero host h = refl
take-all_host (suc n) [] h = refl
take-all_host (suc n) (c ∷ host) h = ground (arith, take-all_host n host)

dashed-all_host : (host : List ℕ) → all_host host ≡ true → all_host (dashed host) ≡ true
dashed-all_host [] h = refl
dashed-all_host (c ∷ host) h = take-all_host 12 (c ∷ host) h

host-AllHost : (host : List ℕ) → all_host host ≡ true → AllHost host
host-AllHost [] h = no_byte
host-AllHost (c ∷ host) h =
    let first : is_host_byte c ≡ true = ground arith in
    let rest : all_host host ≡ true = ground arith in
    one_more (host_byte c first) (host-AllHost host rest)

length-take : (n : ℕ) (l : List ℕ) → length (take n l) ≤ n
length-take zero l = omega arith
length-take (suc n) [] = omega arith
length-take (suc n) (c ∷ l) = omega (arith, length-take n l)

-- The prefix, or its first 32 bytes, and bytes of a host name.
abbrev pub Named : List ℕ → List ℕ → Type 0
Named prefix ssid =
    (length ssid ≤ 32) × ((host : List ℕ) × (ssid ≡ take 32 (prefix ++ host)) × AllHost host)

same_name : {x y : List ℕ} → some x ≡ some y → x ≡ y
same_name e = cc

hotspot_ssid-Named :
    (prefix : List ℕ) (host : Option (List ℕ)) (ssid : List ℕ)
    → hotspot_ssid prefix host ≡ some ssid
    → Named prefix ssid
unfolding hotspot_ssid
hotspot_ssid-Named prefix none ssid e = cc
hotspot_ssid-Named prefix (some host) ssid e =
    let name = host_name false host in
    subst (Named prefix) (same_name e) (
      length-take 32 (prefix ++ dashed name),
      (
        dashed name,
        refl,
        host-AllHost (dashed name) (dashed-all_host name (host_name-all_host false host)),
      ),
    )

-- A profile with these settings is an access point with WPA, of the SSID and the password.
pub record Protects (config : HotspotConfig) (ssid : List ℕ) (s : List Setting) : Type 0 where
  pub is_hotspot : value_of (codes "802-11-wireless.mode") s ≡ codes "ap"
  pub is_named : value_of (codes "802-11-wireless.ssid") s ≡ ssid
  pub is_wpa : value_of (codes "wifi-sec.key-mgmt") s ≡ codes "wpa-psk"
  pub has_password : value_of (codes "wifi-sec.psk") s ≡ config.password
  pub is_long : 8 ≤ length config.password

-- The profile is there, or is added.
abbrev pub made_ready : HotspotConfig → HotspotCalls → List ℕ → List HotspotCommand
made_ready config calls ssid =
    if calls.exists then [] else add_profile calls.interface config.connection ssid ∷ []

-- The ways in which a start ends: before any command; with a profile that is not added or not changed;
-- or with all commands, where the reply says whether the last of them succeeded.
pub data Secured (config : HotspotConfig) (calls : HotspotCalls)
    : HotspotReply → List HotspotCommand → Type 0 where
  nothing : (r : HotspotReply) → r ≢ up → Secured config calls r []
  not_added :
      (ssid : List ℕ)
      → Named config.prefix ssid
      → calls.exists ≡ false
      → Secured config calls nmcli_failed (add_profile calls.interface config.connection ssid ∷ [])
  not_modified :
      (ssid : List ℕ) (s : List Setting)
      → calls.modifies ≡ false
      → Secured config calls nmcli_failed
          (made_ready config calls ssid ++ (modify_profile config.connection s ∷ []))
  asked_up :
      (ssid : List ℕ) (s : List Setting)
      → Named config.prefix ssid
      → Protects config ssid s
      → calls.active ≡ false
      → calls.interface ≢ []
      → calls.modifies ≡ true
      → Secured config calls (if calls.brings_up then up else nmcli_failed) (
          (made_ready config calls ssid ++ (modify_profile config.connection s ∷ []))
          ++ (profile_up config.connection ∷ []))

no_name_up : no_host_name ≢ up
no_name_up e = cc

short_up : short_password ≢ up
short_up e = cc

already_came : already_up ≢ up
already_came e = cc

no_wifi_up : no_wifi ≢ up
no_wifi_up e = cc

abbrev Ends : HotspotConfig → HotspotCalls → HotspotReply × List HotspotCommand → Type 0
Ends config calls out = Secured config calls out.0 out.1

by_calls :
    (P : HotspotReply × List HotspotCommand → Type 0) (modifies brings_up : Bool)
    (changed all : List HotspotCommand)
    → (modifies ≡ false → P (nmcli_failed, changed))
    → (modifies ≡ true → P ((if brings_up then up else nmcli_failed), all))
    → P (
        if not modifies
        then (nmcli_failed, changed)
        else if not brings_up
        then (nmcli_failed, all)
        else (up, all))
by_calls P false brings_up changed all f g = f refl
by_calls P true false changed all f g = g refl
by_calls P true true changed all f g = g refl

configure-Ends :
    (config : HotspotConfig) (calls : HotspotCalls) (ssid : List ℕ)
    → Named config.prefix ssid
    → 8 ≤ length config.password
    → calls.active ≡ false
    → same_bytes calls.interface [] ≡ false
    → Ends config calls (configure_hotspot config calls ssid (made_ready config calls ssid))
unfolding configure_hotspot
configure-Ends config calls ssid named long down device =
    by_calls (Ends config calls) calls.modifies calls.brings_up _ _
      (not_modified ssid (hotspot_settings config ssid))
      (asked_up ssid (hotspot_settings config ssid) named
        (record {
          is_hotspot = refl;
          is_named = refl;
          is_wpa = refl;
          has_password = refl;
          is_long = long;
        })
        down (same_bytes_differ calls.interface [] device))

by_profile :
    (config : HotspotConfig) (calls : HotspotCalls) (ssid : List ℕ) (exists adds : Bool)
    (added : List HotspotCommand)
    → (exists ≡ false → Ends config calls (nmcli_failed, added))
    → Ends config calls (configure_hotspot config calls ssid (if exists then [] else added))
    → Ends config calls (
        if exists
        then configure_hotspot config calls ssid []
        else if not adds
        then (nmcli_failed, added)
        else configure_hotspot config calls ssid added)
by_profile config calls ssid true adds added f g = g
by_profile config calls ssid false false added f g = f refl
by_profile config calls ssid false true added f g = g

start_named-Ends :
    (config : HotspotConfig) (calls : HotspotCalls) (name : Option (List ℕ))
    → ((ssid : List ℕ) → name ≡ some ssid → Named config.prefix ssid)
    → 8 ≤ length config.password
    → calls.active ≡ false
    → same_bytes calls.interface [] ≡ false
    → Ends config calls (start_named config calls name)
unfolding start_named
start_named-Ends config calls none named long down device = nothing no_host_name no_name_up
start_named-Ends config calls (some ssid) named long down device =
    by_profile config calls ssid calls.exists calls.adds _ (not_added ssid (named ssid refl))
      (configure-Ends config calls ssid (named ssid refl) long down device)

passed :
    (config : HotspotConfig) (calls : HotspotCalls)
    → ltb (length config.password) 8 ≡ false
    → calls.active ≡ false
    → same_bytes calls.interface [] ≡ false
    → start_hotspot config calls ≡ start_named config calls (hotspot_ssid config.prefix calls.host)
unfolding start_hotspot
passed config calls long down device = rw (long, down, device) refl

-- A call of startHotspot ends in one of these ways, so it brings the hotspot up only where it was not
-- up, with a device, and with a profile that is set to WPA, to a password of at least 8 bytes and to
-- an SSID of at most 32 bytes: of the prefix, and behind it of letters, digits, `_`, `.` and `-`.
pub start_hotspot-Secured :
    (config : HotspotConfig) (calls : HotspotCalls)
    → Secured config calls (start_hotspot config calls).0 (start_hotspot config calls).1
unfolding start_hotspot
start_hotspot-Secured config calls = elim (Bool-cases (ltb (length config.password) 8)) [
  | inl short ↦ rw short (nothing short_password short_up)
  | inr long ↦ elim (Bool-cases calls.active) [
    | inl comes ↦ rw (long, comes) (nothing already_up already_came)
    | inr down ↦ elim (Bool-cases (same_bytes calls.interface [])) [
      | inl lost ↦ rw (long, down, lost) (nothing no_wifi no_wifi_up)
      | inr device ↦ subst (Ends config calls) (sym (passed config calls long down device)) (
          start_named-Ends config calls (hotspot_ssid config.prefix calls.host)
            (hotspot_ssid-Named config.prefix calls.host) (ground arith) down device)
    ]
  ]
]
