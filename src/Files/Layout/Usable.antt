-- ===== src/Files/Layout/Usable.antt =====
-- A layout as it is described apart from the tests of the code.
use remy_desk.Base.{
  ℕ, ◌≤◌, ◌≡◌, ◌≢◌, ◌⊎◌, inl, inr, Bool, true, false, ◌||◌, none, some, List, [], ◌∷◌, ◌++◌, length,
  arith, Bool-cases, Option-cases,
}
use remy_desk.Base.Text.{codes, same_bytes, same_bytes_sound, same_bytes_differ}
use mathlib.Core.Path.{subst}
use remy_desk.Files.{FilePath, FileSystem, clean_parts, append_path}
use remy_desk.Files.Paths.{path_contains_prefix}
use remy_desk.Files.Layout.{Numbers, Position, Layout, is_empty, stays_inside, is_bad_key}
use remy_desk.Files.Layout.Steady.{Inside, Tidy}

abbrev pub NoParent : FilePath → Type 0
NoParent [] = Unit
NoParent (part ∷ parts) = (part ≢ codes "..") × NoParent parts

-- A relative path without `..`, and at or below the storage directory.
pub record KeptInside (fs : FileSystem) (storage_root relative : FilePath) : Type 0 where
  pub no_parent : NoParent relative
  pub clean : FilePath
  pub cleaned : clean_parts [] relative ≡ some clean
  pub rest : FilePath
  pub is_inside : fs.canonical (append_path storage_root clean) ≡ fs.canonical storage_root ++ rest

-- There is a coordinate.
abbrev pub Placed : {A : Type 0} → Position A → Type 0
Placed p = (p.rx ≢ none) ⊎ ((p.ry ≢ none) ⊎ ((p.x ≢ none) ⊎ (p.y ≢ none)))

abbrev pub Usable :
    {R : Type 0} → Numbers R → FileSystem → FilePath → (List ℕ → FilePath) → Layout R → Type 0
Usable n fs storage_root parts [] = Unit
Usable n fs storage_root parts ((key, p) ∷ layout) =
    (1 ≤ length key)
    × (length key ≤ 4096)
    × KeptInside fs storage_root (parts key)
    × Placed p
    × Inside n p
    × Usable n fs storage_root parts layout

none-some : {A : Type 0} {a : A} → none ≢ some a
none-some e = cc

some-none : {A : Type 0} {a : A} → some a ≢ none
some-none e = cc

cleaned-NoParent :
    (before relative clean : FilePath)
    → clean_parts before relative ≡ some clean
    → NoParent relative
unfolding clean_parts
cleaned-NoParent before [] clean e = tt
cleaned-NoParent before (part ∷ parts) clean e = elim (Bool-cases (same_bytes part (codes ".."))) [
  | inl up ↦
      let same = same_bytes_sound part (codes "..") up in
      absurd (none-some (subst (λ q. clean_parts before (q ∷ parts) ≡ some clean) same e))
  | inr down ↦ (
    same_bytes_differ part (codes "..") down,
    elim (Bool-cases (same_bytes part (codes ".") || same_bytes part [])) [
      | inl skips ↦ cleaned-NoParent before parts clean (rw (clean_parts, skips) at e)
      | inr keeps ↦
          cleaned-NoParent (append_path before (part ∷ [])) parts clean
            (rw (clean_parts, keeps, down) at e)
    ],
  )
]

stays-KeptInside :
    (fs : FileSystem) (storage_root relative : FilePath)
    → stays_inside fs storage_root relative ≡ true
    → KeptInside fs storage_root relative
unfolding stays_inside
stays-KeptInside fs storage_root relative h = elim (Option-cases (clean_parts [] relative)) [
  | inl escapes ↦ let no = rw (stays_inside, escapes) at h in absurd (ground arith)
  | inr (clean, e) ↦
      let (rest, inside) =
        path_contains_prefix (fs.canonical storage_root)
          (fs.canonical (append_path storage_root clean)) (rw (stays_inside, e) at h) in
      record {
        no_parent = cleaned-NoParent [] relative clean e;
        clean = clean;
        cleaned = e;
        rest = rest;
        is_inside = inside;
      }
]

Placed-some : {A : Type 0} (p : Position A) → is_empty p ≡ false → Placed p
Placed-some p h = elim (Option-cases p.rx) [
  | inr (a, e) ↦ inl (rw e some-none)
  | inl e1 ↦ elim (Option-cases p.ry) [
    | inr (a, e) ↦ inr (inl (rw e some-none))
    | inl e2 ↦ elim (Option-cases p.x) [
      | inr (a, e) ↦ inr (inr (inl (rw e some-none)))
      | inl e3 ↦ elim (Option-cases p.y) [
        | inr (a, e) ↦ inr (inr (inr (rw e some-none)))
        | inl e4 ↦ let no = rw (e1, e2, e3, e4) at h in absurd (ground arith)
      ]
    ]
  ]
]

usable_key :
    {R : Type 0} (n : Numbers R) (inside : List ℕ → Bool) (key : List ℕ)
    → is_bad_key n inside key ≡ false
    → (1 ≤ length key) × (length key ≤ 4096)
usable_key n inside [] h = absurd (ground arith)
usable_key n inside (b ∷ key) h = (omega arith, ground arith)

pub Tidy-Usable :
    {R : Type 0} (n : Numbers R) (fs : FileSystem) (storage_root : FilePath)
    (parts : List ℕ → FilePath) (l : Layout R)
    → Tidy n (λ key. stays_inside fs storage_root (parts key)) l
    → Usable n fs storage_root parts l
Tidy-Usable n fs storage_root parts [] t = tt
Tidy-Usable n fs storage_root parts ((key, p) ∷ l) (good, inside, placed, ranges, t) =
    let (low, high) = usable_key n (λ k. stays_inside fs storage_root (parts k)) key good in
    (
      low,
      high,
      stays-KeptInside fs storage_root (parts key) inside,
      Placed-some p placed,
      ranges,
      Tidy-Usable n fs storage_root parts l t,
    )
