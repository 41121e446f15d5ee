-- ===== src/Network/Profiles/Stored.antt =====
-- What nmcli is asked to store, and what is read of its listing.
use mathlib.Core.Path.{subst}
use mathlib.Core.List.{append-nil, append_assoc}
use remy_desk.Base.{
  ℕ, ◌≡◌, ◌≢◌, ap, sym, ◌∙◌, refl, inl, inr, Bool, true, false, ◌&&◌, ◌||◌, not, ◌==◌, Option, none,
  some, List, [], ◌∷◌, ◌++◌, arith, Bool-cases,
}
use remy_desk.Base.Text.{codes}
use remy_desk.Network.Terse.{escape_field, terse_line, one_line, split_terse-terse_line}
use remy_desk.Network.Scan.{lines_from}
use remy_desk.Network.Profiles.{
  Profile, find_profile, Ipv4, has_slash, Setting, settings_for, ProfileCall, modify, no_connection,
  no_prefix, nmcli_error, ipv4_saved, set_found, set_ipv4, add_value, values_of, value_of,
  ipv4_from, read_ipv4,
}

-- The documented listing: a line for each property.
abbrev pub setting_line : Setting → List ℕ
setting_line (name, value) = terse_line name (value ∷ [])

abbrev pub listing : List Setting → List ℕ
listing [] = []
listing (s ∷ settings) = setting_line s ++ (10 ∷ listing settings)

-- The four properties that the listing is asked for.
abbrev pub shown : List Setting → List Setting
shown s =
    (codes "ipv4.method", value_of (codes "ipv4.method") s)
    ∷ (codes "ipv4.addresses", value_of (codes "ipv4.addresses") s)
    ∷ (codes "ipv4.gateway", value_of (codes "ipv4.gateway") s)
    ∷ (codes "ipv4.dns", value_of (codes "ipv4.dns") s)
    ∷ []

-- No value has a line break.
abbrev pub all_one_line : List Setting → Bool
all_one_line [] = true
all_one_line ((name, value) ∷ settings) = one_line name && one_line value && all_one_line settings

abbrev pub no_feed : List ℕ → Bool
no_feed [] = true
no_feed (c ∷ text) = not (c == 10) && no_feed text

no_feed-escape_field :
    (field rest : List ℕ)
    → one_line field ≡ true
    → no_feed rest ≡ true
    → no_feed (escape_field field ++ rest) ≡ true
no_feed-escape_field [] rest h g = g
no_feed-escape_field (b ∷ field) rest h g =
    let later = no_feed-escape_field field rest (ground arith) g in
    elim (Bool-cases (b == 92 || b == 58)) [
      | inl special ↦ rw special (ground (arith, later))
      | inr usual ↦ rw usual (ground (arith, later))
    ]

pub lines_from-line :
    (before line rest : List ℕ)
    → no_feed line ≡ true
    → lines_from before (line ++ (10 ∷ rest)) ≡ (before ++ line) ∷ lines_from [] rest
unfolding lines_from
lines_from-line before [] rest h = ap (λ l. l ∷ lines_from [] rest) (sym (append-nil before))
lines_from-line before (c ∷ line) rest h =
    let other : (c == 10) ≡ false = ground arith in
    rw other (
      lines_from-line (before ++ (c ∷ [])) line rest (ground arith)
      ∙ ap (λ l. l ∷ lines_from [] rest) (append_assoc before (c ∷ []) line))

setting_line-no_feed :
    (name value : List ℕ)
    → one_line name ≡ true
    → one_line value ≡ true
    → no_feed (setting_line (name, value)) ≡ true
setting_line-no_feed name value h g =
    let ends = no_feed-escape_field value [] g refl in
    let whole = subst (λ l. no_feed l ≡ true) (append-nil (escape_field value)) ends in
    no_feed-escape_field name (58 ∷ escape_field value) h whole

-- The map of a listing, with its last property first.
abbrev pushed : List Setting → List Setting → List Setting
pushed [] values = values
pushed (s ∷ settings) values = pushed settings (s ∷ values)

values_of-listing :
    (s values : List Setting)
    → all_one_line s ≡ true
    → values_of (lines_from [] (listing s)) values ≡ pushed s values
unfolding values_of lines_from
values_of-listing [] values h = refl
values_of-listing ((name, value) ∷ s) values h =
    let n : one_line name ≡ true = ground arith in
    let v : one_line value ≡ true = ground arith in
    let line = setting_line (name, value) in
    ap (λ l. values_of l values)
      (lines_from-line [] line (listing s) (setting_line-no_feed name value n v))
    ∙ ap (λ fields. values_of (lines_from [] (listing s)) (add_value fields values))
        (split_terse-terse_line name (value ∷ []) n (ground arith))
    ∙ values_of-listing s ((name, value) ∷ values) (ground arith)

not_saved : no_connection ≢ ipv4_saved
not_saved e = cc

no_prefix_saved : no_prefix ≢ ipv4_saved
no_prefix_saved e = cc

refused_saved : nmcli_error ≢ ipv4_saved
refused_saved e = cc

same_settings :
    {u v : List ℕ} {s t : List Setting} {later more : List ProfileCall}
    → modify u s ∷ later ≡ modify v t ∷ more
    → s ≡ t
same_settings e = cc

saved_settings :
    (r : Ipv4) (accepts : Bool) (o : Option Profile) (uuid : List ℕ) (s : List Setting)
    (more : List ProfileCall)
    → (set_found r accepts o).0 ≡ ipv4_saved
    → (set_found r accepts o).1 ≡ modify uuid s ∷ more
    → settings_for r.manual r ≡ s
unfolding set_found
saved_settings r accepts none uuid s more h g = absurd (not_saved h)
saved_settings r accepts (some p) uuid s more h g =
    elim (Bool-cases (r.manual && not (has_slash r.address))) [
      | inl bare ↦ absurd (no_prefix_saved (rw bare at h))
      | inr usable ↦ elim (Bool-cases accepts) [
        | inr refuses ↦ absurd (refused_saved (rw (usable, refuses) at h))
        | inl takes ↦ same_settings (rw (usable, takes) at g)
      ]
    ]

-- What a request stands for; addresses are kept only with the mode `manual`.
abbrev kept_as : Bool → Ipv4 → Ipv4
kept_as true r = record r { manual = true }
kept_as false r = record { manual = false; address = []; gateway = []; dns = [] }

abbrev pub kept : Ipv4 → Ipv4
kept r = kept_as r.manual r

abbrev pub is_printable : Ipv4 → Bool
is_printable r = one_line r.address && one_line r.gateway && one_line r.dns

from_listing :
    (manual : Bool) (r : Ipv4)
    → is_printable r ≡ true
    → read_ipv4 (listing (shown (settings_for manual r))) ≡ kept_as manual r
unfolding read_ipv4
from_listing true r h =
    ap ipv4_from (values_of-listing (shown (settings_for true r)) [] (ground arith))
from_listing false r h = ap ipv4_from (values_of-listing (shown (settings_for false r)) [] refl)

-- Where no value has a line break, and nmcli accepted a change and lists the profile in its documented
-- form, with what it was asked to store, the settings that are read are those of the request: the
-- mode, and with the mode `manual` the address, the gateway and the DNS servers, which are empty
-- otherwise.
pub read_ipv4-set_ipv4 :
    (profiles : List Profile) (key : List ℕ) (r : Ipv4) (accepts : Bool) (uuid : List ℕ)
    (s : List Setting) (more : List ProfileCall) (output : List ℕ)
    → is_printable r ≡ true
    → (set_ipv4 profiles key r accepts).0 ≡ ipv4_saved
    → (set_ipv4 profiles key r accepts).1 ≡ modify uuid s ∷ more
    → output ≡ listing (shown s)
    → read_ipv4 output ≡ kept r
unfolding set_ipv4
read_ipv4-set_ipv4 profiles key r accepts uuid s more output h saved calls lists =
    let found = find_profile key profiles in
    let stored = saved_settings r accepts found uuid s more saved calls in
    ap read_ipv4 (lists ∙ ap (λ t. listing (shown t)) (sym stored)) ∙ from_listing r.manual r h
