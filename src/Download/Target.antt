-- ===== src/Download/Target.antt =====
-- `uniqueTarget` of src/core/download_manager.cpp: the name under which a download is stored.
use remy_desk.Base.{
  ℕ, zero, suc, Bool, true, false, ◌||◌, ◌==◌, Option, none, some, List, [], ◌∷◌, ◌++◌,
  if◌then◌else◌,
}
use remy_desk.Base.Text.{codes, same_bytes}
use remy_desk.Download.Name.{to_string}

-- path::stem and path::extension of a name: what stands before the last dot, and the rest. A dot in
-- front starts no extension.
unfoldable pub split_last_dot : List ℕ → Option (List ℕ × List ℕ)
split_last_dot [] = none
split_last_dot (b ∷ name) = elim (split_last_dot name) [
  | some (stem, extension) ↦ some (b ∷ stem, extension)
  | none ↦ if b == 46 then some ([], b ∷ name) else none
]

unfoldable pub stem_extension : List ℕ → List ℕ × List ℕ
unfolding split_last_dot
stem_extension [] = ([], [])
stem_extension (b ∷ name) =
    if same_bytes (b ∷ name) (codes "..") then (b ∷ name, []) else elim (split_last_dot name) [
      | none ↦ (b ∷ name, [])
      | some (stem, extension) ↦ (b ∷ stem, extension)
    ]

-- The candidate of a round; in round 0 the name itself.
unfoldable pub candidate : List ℕ → ℕ → List ℕ
candidate name zero = name
candidate name (suc suffix) =
    let (stem, extension) = stem_extension name in
    stem ++ (codes " (" ++ (to_string (suc suffix) ++ (codes ")" ++ extension)))

-- fs::exists, where the directory holds the names of a list
abbrev pub exists : List (List ℕ) → List ℕ → Bool
exists [] name = false
exists (other ∷ names) name = same_bytes other name || exists names name

-- The loop, from a round on.
unfoldable pub search_target : (ℕ → Bool) → ℕ → ℕ → Option ℕ
search_target taken round zero = none
search_target taken round (suc fuel) = elim (taken round) [
  | true ↦ search_target taken (suc round) fuel
  | false ↦ some round
]

unfoldable pub unique_target : ℕ → List (List ℕ) → List ℕ → Option (List ℕ)
unique_target fuel names name =
    elim (search_target (λ round. exists names (candidate name round)) 0 fuel) [
      | none ↦ none
      | some round ↦ some (candidate name round)
    ]
