-- ===== src/Network/Attempt.antt =====
-- How an attempt to connect, of src/core/network_manager.cpp, ends.
use remy_desk.Base.{
  ℕ, zero, suc, ◌≡◌, ◌≢◌, ◌↔◌, refl, sym, ap, ◌∙◌, inl, inr, Bool, true, false, ◌&&◌, ◌||◌, not,
  Option, none, some, List, [], ◌∷◌, ◌++◌, arith, take, if◌then◌else◌, Bool-cases, Option-cases,
}
use remy_desk.Base.Text.{same_bytes, same_bytes_false, same_bytes_differ}
use remy_desk.Network.Connect.{
  Stage, leaving_hotspot, associating, Problem, no_device, nmcli_failed, other_network, Wifi, busy,
  started, connect_wifi, Answers, Command, hotspot_down, start_hotspot, bring_up, join,
  set_autoconnect, Outcome, recovered, recover, join_command, autoconnect_command, connect_thread,
}

-- No step raised an error.
abbrev pub joined : Answers → Bool
joined a = a.device_found && a.joins

abbrev pub asks_hotspot : List Command → Bool
asks_hotspot [] = false
asks_hotspot (start_hotspot ∷ commands) = true
asks_hotspot (hotspot_down ∷ commands) = asks_hotspot commands
asks_hotspot (bring_up uuid ∷ commands) = asks_hotspot commands
asks_hotspot (join password ∷ commands) = asks_hotspot commands
asks_hotspot (set_autoconnect uuid on ∷ commands) = asks_hotspot commands

abbrev pub is_nothing : List Problem → Bool
is_nothing [] = true
is_nothing (p ∷ problems) = false

-- In one of so many seconds some network is current.
pub data Within : ℕ → List (List ℕ) → Type 0 where
  now_current :
      {n : ℕ} {ssid : List ℕ} {later : List (List ℕ)} → ssid ≢ [] → Within (suc n) (ssid ∷ later)
  one_later :
      {n : ℕ} {ssid : List ℕ} {later : List (List ℕ)}
      → Within n later
      → Within (suc n) (ssid ∷ later)

recovered-Within :
    (n : ℕ) (window : List (List ℕ)) → recovered (take n window) ≡ true → Within n window
unfolding recovered
recovered-Within zero window h = ground arith
recovered-Within (suc n) [] h = ground arith
recovered-Within (suc n) (ssid ∷ later) h = elim (Bool-cases (same_bytes ssid [])) [
  | inl nothing ↦ one_later (recovered-Within n later (rw (recovered, nothing) at h))
  | inr some_net ↦ now_current (same_bytes_differ ssid [] some_net)
]

Within-recovered :
    {n : ℕ} {window : List (List ℕ)} → Within n window → recovered (take n window) ≡ true
unfolding recovered
Within-recovered (now_current {ssid} h) = rw (same_bytes_false ssid [] h) refl
Within-recovered (one_later {ssid} w) = elim (Bool-cases (same_bytes ssid [])) [
  | inl nothing ↦ rw nothing (Within-recovered w)
  | inr some_net ↦ rw some_net refl
]

not_joined : {b : Bool} {A : Type 0} → b ≡ false → b ≡ true → A
not_joined e h = absurd (ground arith)

-- What an attempt leaves.
pub record Settled (before : Wifi) (a : Answers) (o : Outcome) : Type 0 where
  pub ends : o.wifi.state.running ≡ false
  pub same_ssid : o.wifi.state.ssid ≡ before.state.ssid
  pub ok_joined : joined a ≡ true → o.wifi.state.ok ≡ same_bytes a.current_ssid before.state.ssid
  pub ok_recovered : joined a ≡ false → (o.wifi.state.ok ≡ true) ↔ Within 20 a.window
  pub ok_or_message : is_nothing o.wifi.state.error ≡ o.wifi.state.ok
  pub noted : o.wifi.connected_this_boot ≡ (before.connected_this_boot || o.wifi.state.ok)
  pub hotspot_is :
      asks_hotspot o.commands ≡ (not (joined a) && not o.wifi.connected_this_boot && a.auto_hotspot)

asks_hotspot-append :
    (xs ys : List Command) → asks_hotspot (xs ++ ys) ≡ (asks_hotspot xs || asks_hotspot ys)
asks_hotspot-append [] ys = refl
asks_hotspot-append (start_hotspot ∷ xs) ys = refl
asks_hotspot-append (hotspot_down ∷ xs) ys = asks_hotspot-append xs ys
asks_hotspot-append (bring_up uuid ∷ xs) ys = asks_hotspot-append xs ys
asks_hotspot-append (join password ∷ xs) ys = asks_hotspot-append xs ys
asks_hotspot-append (set_autoconnect uuid on ∷ xs) ys = asks_hotspot-append xs ys

message_if :
    (ok : Bool) (p : Problem) (rest : List Problem) → is_nothing (if ok then [] else p ∷ rest) ≡ ok
message_if true p rest = refl
message_if false p rest = refl

starts_if :
    (before ok boot auto joins : Bool)
    → before ≡ false
    → joins ≡ false
    → (before
        || asks_hotspot (if not ok && not (boot || ok) && auto then start_hotspot ∷ [] else []))
      ≡ (not joins && not (boot || ok) && auto)
starts_if true ok boot auto joins q j = absurd (ground arith)
starts_if false ok boot auto true q j = absurd (ground arith)
starts_if false true true auto false q j = refl
starts_if false true false auto false q j = refl
starts_if false false true auto false q j = refl
starts_if false false false true false q j = refl
starts_if false false false false false q j = refl

left_quiet :
    (up : Bool) (later : List Command)
    → asks_hotspot ((if up then hotspot_down ∷ [] else []) ++ later) ≡ asks_hotspot later
left_quiet true later = refl
left_quiet false later = refl

left_only : (up : Bool) → asks_hotspot (if up then hotspot_down ∷ [] else []) ≡ false
left_only true = refl
left_only false = refl

autoconnect_quiet : (a : Answers) → asks_hotspot (autoconnect_command a) ≡ false
autoconnect_quiet a = elim (Option-cases a.updated) [
  | inl e ↦ rw e refl
  | inr (uuid, e) ↦ rw e refl
]

recover-Settled :
    (w : Wifi) (a : Answers) (problem : Problem) (stages : List Stage) (commands : List Command)
    → joined a ≡ false
    → asks_hotspot commands ≡ false
    → Settled w a (recover w a problem stages commands)
unfolding recover
recover-Settled w a problem stages commands failing quiet =
    let ok = recovered (take 20 a.window) in
    let restores = not ok && not (w.connected_this_boot || ok) && a.auto_hotspot in
    let extra = asks_hotspot-append commands (if restores then start_hotspot ∷ [] else []) in
    record {
      ends = refl;
      same_ssid = refl;
      ok_joined = λ joins. not_joined failing joins;
      ok_recovered = λ fails. (recovered-Within 20 a.window, λ w. Within-recovered w);
      ok_or_message = message_if (recovered (take 20 a.window)) problem _;
      noted = refl;
      hotspot_is =
          extra ∙ starts_if _ ok w.connected_this_boot a.auto_hotspot (joined a) quiet failing;
    }

join_command_quiet :
    (known : Bool) (password : List ℕ) (saved : Option (List ℕ)) (later : List Command)
    → asks_hotspot (join_command known password saved ∷ later) ≡ asks_hotspot later
join_command_quiet known password none later = refl
join_command_quiet known password (some uuid) later =
    elim (Bool-cases (known || same_bytes password [])) [ inl e ↦ rw e refl | inr e ↦ rw e refl ]

by_cases :
    (P : Outcome → Type 0) (found joins : Bool) (x y z : Outcome)
    → (found ≡ false → P x)
    → ((found && joins) ≡ false → P y)
    → ((found && joins) ≡ true → P z)
    → P (if not found then x else if not joins then y else z)
by_cases P false joins x y z f g h = f refl
by_cases P true false x y z f g h = g refl
by_cases P true true x y z f g h = h refl

thread-Settled :
    (w : Wifi) (known : Bool) (password : List ℕ) (a : Answers)
    → Settled w a (connect_thread w known password a)
unfolding connect_thread
thread-Settled w known password a =
    let left : List Command = if a.hotspot_active then hotspot_down ∷ [] else [] in
    let tried = left ++ (join_command known password a.saved ∷ []) in
    let quiet =
      left_quiet a.hotspot_active (join_command known password a.saved ∷ [])
      ∙ join_command_quiet known password a.saved [] in
    let same = same_bytes a.current_ssid w.state.ssid in
    by_cases (Settled w a) a.device_found a.joins _ _ _
      (λ none_found.
        recover-Settled w a no_device (leaving_hotspot ∷ []) left
          (ap (λ b. b && a.joins) none_found) (left_only a.hotspot_active))
      (λ refused.
        recover-Settled w a nmcli_failed (leaving_hotspot ∷ associating ∷ []) tried refused quiet)
      (λ accepts. record {
        ends = refl;
        same_ssid = refl;
        ok_joined = λ joins. refl;
        ok_recovered = λ fails. not_joined fails accepts;
        ok_or_message = message_if same other_network [];
        noted = refl;
        hotspot_is =
            asks_hotspot-append tried (autoconnect_command a)
            ∙ ap (λ b. b || asks_hotspot (autoconnect_command a)) quiet
            ∙ autoconnect_quiet a
            ∙ sym
                (ap (λ b. not b && not (w.connected_this_boot || same) && a.auto_hotspot) accepts);
      })

not_started : {w : Wifi} → busy ≢ started w
not_started e = cc

not_busy : {w : Wifi} → started w ≢ busy
not_busy e = cc

wifi_of : {v w : Wifi} → started v ≡ started w → v ≡ w
wifi_of e = cc

started_as :
    (w accepted : Wifi) (first : ℕ) (ssid : List ℕ)
    → connect_wifi w (first ∷ ssid) ≡ started accepted
    → (accepted.state.running ≡ true) × (accepted.state.ssid ≡ first ∷ ssid)
unfolding connect_wifi
started_as w accepted first ssid e = elim (Bool-cases w.state.running) [
  | inl runs ↦ absurd (not_started (rw runs at e))
  | inr free ↦
      let same = wifi_of (rw free at e) in
      (ap (λ v. v.state.running) (sym same), ap (λ v. v.state.ssid) (sym same))
]

-- A request that was accepted is the only one until its thread ends, and another is accepted then. The
-- thread reports success exactly if the network that was asked for is current behind a join without
-- error, or some network is within 20 seconds of an error; else it has a message. It starts the
-- hotspot exactly if there was an error, no Wi-Fi was connected since boot, and the setting is on.
pub connect_thread-Settled :
    (w accepted : Wifi) (first : ℕ) (ssid : List ℕ) (known : Bool) (password : List ℕ) (a : Answers)
    (next : ℕ) (other : List ℕ)
    → connect_wifi w (first ∷ ssid) ≡ started accepted
    → (connect_wifi accepted (next ∷ other) ≡ busy)
      × (accepted.state.ssid ≡ first ∷ ssid)
      × Settled accepted a (connect_thread accepted known password a)
      × ((connect_wifi (connect_thread accepted known password a).wifi (next ∷ other)) ≢ busy)
unfolding connect_wifi
connect_thread-Settled w accepted first ssid known password a next other e =
    let (runs, same) = started_as w accepted first ssid e in
    let settled = thread-Settled accepted known password a in
    let over = settled.ends in
    (rw (connect_wifi, runs) refl, same, settled, rw (connect_wifi, over) not_busy)
