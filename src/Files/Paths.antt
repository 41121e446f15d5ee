-- ===== src/Files/Paths.antt =====
-- Paths below a directory, as src/core/file_service.cpp tests and builds them.
use remy_desk.Base.{
  ℕ, ◌≤◌, ◌<◌, ◌≡◌, ◌≢◌, refl, sym, ap, ◌∙◌, ◌⊎◌, inl, inr, Bool, true, false, ◌&&◌, not, List, [],
  ◌∷◌, ◌++◌, arith, if◌then◌else◌, length, length-append, Bool-cases,
}
use mathlib.Core.Path.{subst}
use mathlib.Core.List.{append-nil, append_assoc}
use remy_desk.Base.Text.{codes, same_bytes, same_bytes_sound, same_bytes_refl}
use remy_desk.Files.{
  FilePath, Reply, escapes, missing, path_contains, same_path, without_slash, append_path, Resolved,
  rejected, resolved, has_byte, is_bad_name, filename, temporary_name,
}

-- A part of a path that is a name.
abbrev pub plain : List ℕ → Bool
plain part = not (same_bytes part []) && not (same_bytes part (codes "/"))

abbrev pub all_plain : FilePath → Bool
all_plain [] = true
all_plain (part ∷ parts) = plain part && all_plain parts

-- The form of a canonical path: `/`, and then names.
abbrev pub Normal : FilePath → Type 0
Normal path = (parts : FilePath) × (path ≡ codes "/" ∷ parts) × (all_plain parts ≡ true)

-- Strictly below a directory.
abbrev pub Below : FilePath → FilePath → Type 0
Below root path = (part : List ℕ) × (parts : FilePath) × (path ≡ root ++ (part ∷ parts))

pub path_contains_prefix :
    (parent child : FilePath)
    → path_contains parent child ≡ true
    → (rest : FilePath) × (child ≡ parent ++ rest)
unfolding path_contains
path_contains_prefix [] child e = (child, refl)
path_contains_prefix (p ∷ parent) [] e = absurd (ground arith)
path_contains_prefix (p ∷ parent) (c ∷ child) e =
    let (rest, later) = path_contains_prefix parent child (ground arith) in
    let same = same_bytes_sound p c (ground arith) in (rest, cc)

same_path_refl : (path : FilePath) → same_path path path ≡ true
unfolding same_path
same_path_refl [] = refl
same_path_refl (p ∷ path) = ground (arith, same_bytes_refl p, same_path_refl path)

same_path_differ : (path root : FilePath) → same_path path root ≡ false → path ≢ root
same_path_differ path root other e =
    let same = same_path_refl path in
    let differ : same_path path path ≡ false =
      subst (λ r. same_path path r ≡ false) (sym e) other in
    absurd (ground arith)

Below-rest :
    (root path rest : FilePath)
    → path ≡ root ++ rest
    → same_path path root ≡ false
    → Below root path
Below-rest root path [] e other = absurd (same_path_differ path root other (e ∙ append-nil root))
Below-rest root path (part ∷ parts) e other = (part, parts, e)

-- A path inside one of its prefixes, but not that prefix.
pub below :
    (root path : FilePath)
    → path_contains root path ≡ true
    → same_path path root ≡ false
    → Below root path
below root path inside other =
    let (rest, e) = path_contains_prefix root path inside in Below-rest root path rest e other

without_slash_plain :
    (p : List ℕ) (parts : FilePath)
    → same_bytes p [] ≡ false
    → all_plain parts ≡ true
    → without_slash (p ∷ parts) ≡ p ∷ parts
unfolding without_slash
without_slash_plain p [] e h = rw (without_slash, e) refl
without_slash_plain p (next ∷ parts) e h =
    ap (◌∷◌ p) (without_slash_plain next parts (ground arith) (ground arith))

-- A name behind a canonical path.
pub append_path-Normal :
    (path : FilePath) (name : List ℕ)
    → Normal path
    → plain name ≡ true
    → append_path path (name ∷ []) ≡ path ++ (name ∷ [])
unfolding append_path
append_path-Normal path name (parts, e, h) good =
    let relative : same_bytes name (codes "/") ≡ false = ground arith in
    rw (e, append_path, relative, without_slash_plain (codes "/") parts refl h) refl

extend : (root rest : FilePath) (name : List ℕ) → Below root ((root ++ rest) ++ (name ∷ []))
extend root [] name = (name, [], ap (λ l. l ++ (name ∷ [])) (append-nil root))
extend root (part ∷ parts) name =
    (part, parts ++ (name ∷ []), append_assoc root (part ∷ parts) (name ∷ []))

pub append-Below :
    (root path : FilePath) (name : List ℕ)
    → path_contains root path ≡ true
    → Below root (path ++ (name ∷ []))
append-Below root path name inside =
    let (rest, e) = path_contains_prefix root path inside in
    subst (λ l. Below root (l ++ (name ∷ []))) (sym e) (extend root rest name)

filename-plain :
    (p : List ℕ) (parts : FilePath)
    → plain p ≡ true
    → all_plain parts ≡ true
    → plain (filename (p ∷ parts)) ≡ true
filename-plain p [] e h = e
filename-plain p (next ∷ parts) e h = filename-plain next parts (ground arith) (ground arith)

contains_cases :
    (from path : FilePath) (name : List ℕ)
    → path_contains from (path ++ (name ∷ [])) ≡ true
    → (path_contains from path ≡ true) ⊎ (path ++ (name ∷ []) ≡ from)
unfolding path_contains
contains_cases [] path name e = inl refl
contains_cases (p ∷ []) [] name e =
    let same = same_bytes_sound p name (ground arith) in inr (ap (λ x. x ∷ []) (sym same))
contains_cases (p ∷ q ∷ from) [] name e = absurd (ground arith)
contains_cases (p ∷ from) (q ∷ path) name e =
    let same = same_bytes_sound p q (ground arith) in
    elim (contains_cases from path name (ground arith)) [
      | inl inside ↦ inl (ground arith)
      | inr whole ↦ inr cc
    ]

pub contains-append :
    (from path : FilePath) (name : List ℕ)
    → path_contains from path ≡ false
    → same_path (path ++ (name ∷ [])) from ≡ false
    → path_contains from (path ++ (name ∷ [])) ≡ false
contains-append from path name outside other =
    elim (Bool-cases (path_contains from (path ++ (name ∷ [])))) [
      | inr e ↦ e
      | inl e ↦ elim (contains_cases from path name e) [
        | inl inside ↦ absurd (ground arith)
        | inr whole ↦ absurd (same_path_differ (path ++ (name ∷ [])) from other whole)
      ]
    ]

pub unresolved : {reply : Reply} {path : FilePath} → rejected reply ≢ resolved path
unresolved e = cc

pub passed :
    (a b : Bool) (value path : FilePath)
    → (if not a then rejected escapes else if not b then rejected missing else resolved value)
      ≡ resolved path
    → (a ≡ true) × (value ≡ path)
passed false b value path e = absurd (unresolved e)
passed true false value path e = absurd (unresolved e)
passed true true value path e = (refl, cc)

pub Resolved-cases :
    (r : Resolved)
    → ((reply : Reply) × (r ≡ rejected reply)) ⊎ ((path : FilePath) × (r ≡ resolved path))
Resolved-cases (rejected reply) = inl (reply, refl)
Resolved-cases (resolved path) = inr (path, refl)

-- A name without a slash is not empty and not `/`.
slashless-plain :
    (name : List ℕ) → same_bytes name [] ≡ false → has_byte 47 name ≡ false → plain name ≡ true
slashless-plain [] e h = absurd (ground arith)
slashless-plain (b ∷ name) e h = ground arith

pub good-plain : (name : List ℕ) → is_bad_name name ≡ false → plain name ≡ true
unfolding is_bad_name
good-plain name good = slashless-plain name (ground arith) (ground arith)

pub filename-append : (path : FilePath) (name : List ℕ) → filename (path ++ (name ∷ [])) ≡ name
filename-append [] name = refl
filename-append (p ∷ []) name = refl
filename-append (p ∷ q ∷ path) name = filename-append (q ∷ path) name

-- Two files of one directory are not inside each other.
pub siblings :
    (path : FilePath) (name other : List ℕ)
    → length name < length other
    → path_contains (path ++ (other ∷ [])) (path ++ (name ∷ [])) ≡ false
siblings path name other shorter =
    elim (Bool-cases (path_contains (path ++ (other ∷ [])) (path ++ (name ∷ [])))) [
      | inr e ↦ e
      | inl e ↦ elim (contains_cases (path ++ (other ∷ [])) path name e) [
        | inl inside ↦
            let (rest, split) = path_contains_prefix (path ++ (other ∷ [])) path inside in
            let whole = ap length split in
            let front = length-append (path ++ (other ∷ [])) rest in
            let back = length-append path (other ∷ []) in absurd (omega arith)
        | inr same ↦
            let equal =
              sym (filename-append path name) ∙ ap filename same ∙ filename-append path other in
            let sizes = ap length equal in absurd (omega arith)
      ]
    ]

pub length-temporary_name : (name : List ℕ) → length name < length (temporary_name name)
unfolding temporary_name
length-temporary_name name = let whole = length-append name (codes ".uploading") in omega arith

pub temporary-plain : (name : List ℕ) → plain (temporary_name name) ≡ true
unfolding temporary_name
temporary-plain name = refl

pub last_plain :
    (path parts : FilePath)
    → path ≡ codes "/" ∷ parts
    → all_plain parts ≡ true
    → 2 ≤ length path
    → plain (filename path) ≡ true
last_plain path [] e good long = let size = ap length e in absurd (omega arith)
last_plain path (p ∷ parts) e good long =
    rw e (filename-plain p parts (ground arith) (ground arith))
