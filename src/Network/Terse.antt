-- ===== src/Network/Terse.antt =====
-- `splitTerse` of src/core/network_manager.cpp reads the lines that nmcli writes with `-t --escape
-- yes`: fields with a colon between them, where a backslash stands before a colon or a backslash.
use remy_desk.Base.{
  ℕ, ◌≡◌, refl, ap, sym, ◌∙◌, inl, inr, Bool, true, false, ◌&&◌, ◌||◌, not, List, [], ◌∷◌, ◌++◌,
  arith, ◌==◌, if◌then◌else◌, Bool-cases,
}
use mathlib.Core.List.{append-nil, append_assoc}

-- What the loop does with a byte.
pub data Action : Type 0 where
  push start_escape end_field skip : Action

unfoldable pub action : Bool → ℕ → Action
action true b = push
action false b =
    if b == 92
    then start_escape
    else if b == 58
    then end_field
    else if not (b == 13) && not (b == 10)
    then push
    else skip

unfoldable pub split_from : Bool → List ℕ → List ℕ → List (List ℕ)
split_from escaping current [] = current ∷ []
split_from escaping current (b ∷ line) = elim (action escaping b) [
  | push ↦ split_from false (current ++ (b ∷ [])) line
  | start_escape ↦ split_from true current line
  | end_field ↦ current ∷ split_from false [] line
  | skip ↦ split_from false current line
]

unfoldable pub split_terse : List ℕ → List (List ℕ)
unfolding split_from
split_terse line = split_from false [] line

-- The documented form of a field.
abbrev pub escape_field : List ℕ → List ℕ
escape_field [] = []
escape_field (b ∷ field) =
    let rest = escape_field field in if b == 92 || b == 58 then 92 ∷ b ∷ rest else b ∷ rest

-- A line of one field and more.
abbrev pub terse_line : List ℕ → List (List ℕ) → List ℕ
terse_line first [] = escape_field first
terse_line first (field ∷ fields) = escape_field first ++ (58 ∷ terse_line field fields)

-- No field holds a line break.
abbrev pub one_line : List ℕ → Bool
one_line [] = true
one_line (b ∷ field) = not (b == 13) && not (b == 10) && one_line field

abbrev pub all_one_line : List (List ℕ) → Bool
all_one_line [] = true
all_one_line (field ∷ fields) = one_line field && all_one_line fields

split_from-push :
    (b : ℕ) (current line : List ℕ)
    → action false b ≡ push
    → split_from false current (b ∷ line) ≡ split_from false (current ++ (b ∷ [])) line
unfolding split_from
split_from-push b current line e = rw (split_from, e) refl

split_from-escape :
    (b : ℕ) (current line : List ℕ)
    → split_from false current (92 ∷ b ∷ line) ≡ split_from false (current ++ (b ∷ [])) line
unfolding split_from action
split_from-escape b current line = refl

split_from-escape_field :
    (field current line : List ℕ)
    → one_line field ≡ true
    → split_from false current (escape_field field ++ line)
      ≡ split_from false (current ++ field) line
unfolding action
split_from-escape_field [] current line h =
    ap (λ l. split_from false l line) (sym (append-nil current))
split_from-escape_field (b ∷ field) current line h =
    let rest = split_from-escape_field field (current ++ (b ∷ [])) line (ground arith) in
    let whole = rest ∙ ap (λ l. split_from false l line) (append_assoc current (b ∷ []) field) in
    elim (Bool-cases (b == 92 || b == 58)) [
      | inl special ↦ rw special (split_from-escape b current (escape_field field ++ line) ∙ whole)
      | inr usual ↦
          let keeps : action false b ≡ push = ground arith in
          rw usual (split_from-push b current (escape_field field ++ line) keeps ∙ whole)
    ]

split_from-terse_line :
    (first : List ℕ) (fields : List (List ℕ))
    → one_line first ≡ true
    → all_one_line fields ≡ true
    → split_from false [] (terse_line first fields) ≡ first ∷ fields
unfolding split_from action
split_from-terse_line first [] h g =
    ap (split_from false []) (sym (append-nil (escape_field first)))
    ∙ split_from-escape_field first [] [] h
split_from-terse_line first (field ∷ fields) h g =
    split_from-escape_field first [] (58 ∷ terse_line field fields) h
    ∙ ap (◌∷◌ first) (split_from-terse_line field fields (ground arith) (ground arith))

-- A line of one field or more in the documented form, with no line break in a field, is taken apart
-- into its fields, whatever colons and backslashes they hold.
pub split_terse-terse_line :
    (first : List ℕ) (fields : List (List ℕ))
    → one_line first ≡ true
    → all_one_line fields ≡ true
    → split_terse (terse_line first fields) ≡ first ∷ fields
unfolding split_terse
split_terse-terse_line first fields h g = split_from-terse_line first fields h g
