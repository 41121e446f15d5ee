-- ===== src/Network/Connect.antt =====
-- `connectWifi` of src/core/network_manager.cpp: the state that it keeps, and the thread that it
-- starts. What nmcli answers is a record.
use remy_desk.Base.{
  ℕ, Bool, true, false, ◌&&◌, ◌||◌, not, Option, none, some, List, [], ◌∷◌, ◌++◌, take,
  if◌then◌else◌,
}
use remy_desk.Base.Text.{same_bytes}

pub data Stage : Type 0 where
  idle queued leaving_hotspot associating connected manual_recovery restoring_hotspot failed : Stage

-- The parts of the message; a message without parts is empty.
pub data Problem : Type 0 where
  no_device nmcli_failed other_network hotspot_failed : Problem

pub record ConnectState : Type 0 where
  pub running : Bool
  pub ssid : List ℕ
  pub stage : Stage
  pub ok : Bool
  pub error : List Problem

-- The manager: `connectState_` and `wifiConnectedThisBoot_`.
pub record Wifi : Type 0 where
  pub state : ConnectState
  pub connected_this_boot : Bool

abbrev pub start_wifi : Wifi
start_wifi = record {
  state = record { running = false; ssid = []; stage = idle; ok = false; error = [] };
  connected_this_boot = false;
}

pub data Asked : Type 0 where
  empty_ssid busy : Asked
  started : Wifi → Asked

-- A request, with its trimmed SSID.
unfoldable pub connect_wifi : Wifi → List ℕ → Asked
connect_wifi w [] = empty_ssid
connect_wifi w (b ∷ ssid) =
    if w.state.running
    then busy
    else started (record w {
      state = record { running = true; ssid = b ∷ ssid; stage = queued; ok = false; error = [] };
    })

-- What the thread meets: is the hotspot up, is there a device, the profile that is saved for the SSID,
-- does nmcli join the network, the profile that is saved then, the SSID that is current then; where
-- something failed, the SSIDs that are current in the seconds behind that; and the hotspot's start.
pub record Answers : Type 0 where
  pub hotspot_active : Bool
  pub device_found : Bool
  pub saved : Option (List ℕ)
  pub joins : Bool
  pub updated : Option (List ℕ)
  pub auto_hotspot : Bool
  pub current_ssid : List ℕ
  pub window : List (List ℕ)
  pub hotspot_starts : Bool

-- The calls of nmcli that change something, and the start of the hotspot.
pub data Command : Type 0 where
  hotspot_down start_hotspot : Command
  bring_up : (uuid : List ℕ) → Command
  join : (password : List ℕ) → Command
  set_autoconnect : (uuid : List ℕ) → Bool → Command

pub record Outcome : Type 0 where
  pub wifi : Wifi
  pub stages : List Stage
  pub commands : List Command

-- Is some network current in the window?
unfoldable pub recovered : List (List ℕ) → Bool
recovered [] = false
recovered (current ∷ later) =
    let rest = recovered later in if same_bytes current [] then rest else true

abbrev pub final_state : List ℕ → Bool → List Problem → ConnectState
final_state ssid ok error = record {
  running = false;
  ssid = ssid;
  stage = (if ok then connected else failed);
  ok = ok;
  error = error;
}

-- The handler of an error: a window of 20 seconds, and the hotspot where nothing came of it.
unfoldable pub recover : Wifi → Answers → Problem → List Stage → List Command → Outcome
unfolding recovered
recover w a problem stages commands =
    let ok = recovered (take 20 a.window) in
    let this_boot = w.connected_this_boot || ok in
    let restores = not ok && not this_boot && a.auto_hotspot in
    let lost : List Problem =
      if restores && not a.hotspot_starts then hotspot_failed ∷ [] else [] in
    record {
      wifi = record {
        state = final_state w.state.ssid ok (if ok then [] else problem ∷ lost);
        connected_this_boot = this_boot;
      };
      stages = stages ++ (manual_recovery ∷ (if restores then restoring_hotspot ∷ [] else []));
      commands = commands ++ (if restores then start_hotspot ∷ [] else []);
    }

-- A saved profile is used where the caller knows the network or gives no password.
abbrev pub join_command : Bool → List ℕ → Option (List ℕ) → Command
join_command known password saved = elim saved [
  | none ↦ join password
  | some uuid ↦ if known || same_bytes password [] then bring_up uuid else join password
]

-- A saved profile comes up by itself at boot where the hotspot does not.
abbrev pub autoconnect_command : Answers → List Command
autoconnect_command a = elim a.updated [
  | none ↦ []
  | some uuid ↦ set_autoconnect uuid (not a.auto_hotspot) ∷ []
]

-- The body of the thread.
unfoldable pub connect_thread : Wifi → Bool → List ℕ → Answers → Outcome
connect_thread w known password a =
    let left : List Command = if a.hotspot_active then hotspot_down ∷ [] else [] in
    let tried = left ++ (join_command known password a.saved ∷ []) in
    if not a.device_found
    then recover w a no_device (leaving_hotspot ∷ []) left
    else if not a.joins
    then recover w a nmcli_failed (leaving_hotspot ∷ associating ∷ []) tried
    else let ok = same_bytes a.current_ssid w.state.ssid in
      record {
        wifi = record {
          state = final_state w.state.ssid ok (if ok then [] else other_network ∷ []);
          connected_this_boot = w.connected_this_boot || ok;
        };
        stages = leaving_hotspot ∷ associating ∷ (if ok then connected ∷ [] else []);
        commands = tried ++ autoconnect_command a;
      }
