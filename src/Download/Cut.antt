-- ===== src/Download/Cut.antt =====
-- `filenameFromUrl` of src/core/download_manager.cpp cuts a long name where a character begins.
use remy_desk.Base.{
  ℕ, zero, suc, ◌+◌, ◌-◌, ◌≤◌, ◌<◌, ◌≡◌, ◌≢◌, refl, inl, inr, true, false, List, [], ◌∷◌, ◌++◌,
  arith, length, get_or, take, dec_lt, Bool-cases, length-append, ap, ◌∙◌,
}
use remy_desk.Download.Name.{is_continuation, cut_at}
use remy_desk.Download.Encoding.{Scalar, encode, Utf8, nothing, character, length-encode}

get_or-append : (xs ys : List ℕ) (i : ℕ) → i < length xs → get_or (xs ++ ys) i 0 ≡ get_or xs i 0
get_or-append [] ys i h = absurd (omega arith)
get_or-append (x ∷ xs) ys zero h = refl
get_or-append (x ∷ xs) ys (suc i) h = get_or-append xs ys i (omega arith)

get_or-append_end :
    (xs ys : List ℕ) (i : ℕ) → length xs ≤ i → get_or (xs ++ ys) i 0 ≡ get_or ys (i - length xs) 0
get_or-append_end [] ys i h = ap (λ k. get_or ys k 0) (omega arith)
get_or-append_end (x ∷ xs) ys zero h = absurd (omega arith)
get_or-append_end (x ∷ xs) ys (suc i) h =
    get_or-append_end xs ys i (omega arith) ∙ ap (λ k. get_or ys k 0) (omega arith)

take-append_end :
    (xs ys : List ℕ) (i : ℕ) → length xs ≤ i → take i (xs ++ ys) ≡ xs ++ take (i - length xs) ys
take-append_end [] ys i h = ap (λ k. take k ys) (omega arith)
take-append_end (x ∷ xs) ys zero h = absurd (omega arith)
take-append_end (x ∷ xs) ys (suc i) h =
    ap (◌∷◌ x) (take-append_end xs ys i (omega arith) ∙ ap (λ k. xs ++ take k ys) (omega arith))

-- Of the bytes of a character only the first is no continuation.
starts :
    (c : ℕ) (bytes : List ℕ) → Scalar c → is_continuation (get_or (encode c ++ bytes) 0 0) ≡ false
unfolding encode
starts c bytes scalar = ground arith

continues :
    (c i : ℕ)
    → Scalar c
    → suc i < length (encode c)
    → is_continuation (get_or (encode c) (suc i) 0) ≡ true
unfolding encode
continues c zero scalar h = ground arith
continues c (suc zero) scalar h = ground arith
continues c (suc (suc zero)) scalar h = ground arith
continues c (suc (suc (suc i))) scalar h = ground arith

-- Where a character begins, at most 3 bytes before a place in the text.
pub near :
    {name : List ℕ}
    → Utf8 name
    → (end : ℕ) → end < length name
    → (j : ℕ) × (j ≤ end) × (end ≤ j + 3) × (is_continuation (get_or name j 0) ≡ false)
near nothing end h = absurd (omega arith)
near (character {c = c} {bytes = bytes} scalar later) end h =
    let (least, most) = length-encode c in
    let both = length-append (encode c) bytes in
    elim (dec_lt end (length (encode c))) [
      | yes inside ↦ (0, omega arith, omega arith, starts c bytes scalar)
      | no past ↦
          let (j, below, close, first) = near later (end - length (encode c)) (omega arith) in
          let at = length (encode c) + j in
          let back : at - length (encode c) ≡ j = omega arith in
          (
            at,
            omega arith,
            omega arith,
            rw (get_or-append_end (encode c) bytes at (omega arith), back) first,
          )
    ]

-- A text that is cut where a character begins is a text.
pub cut_text :
    {name : List ℕ}
    → Utf8 name
    → (end : ℕ) → is_continuation (get_or name end 0) ≡ false
    → Utf8 (take end name)
cut_text nothing zero e = nothing
cut_text nothing (suc end) e = nothing
cut_text (character scalar later) zero e = nothing
cut_text (character {c = c} {bytes = bytes} scalar later) (suc end) e =
    elim (dec_lt (suc end) (length (encode c))) [
      | yes inside ↦
          let here = continues c end scalar inside in
          let same = get_or-append (encode c) bytes (suc end) inside in absurd (ground arith)
      | no past ↦
          let j = suc end - length (encode c) in
          let whole : length (encode c) ≤ suc end = omega arith in
          let first : is_continuation (get_or bytes j 0) ≡ false =
            rw (← get_or-append_end (encode c) bytes (suc end) whole) e in
          rw (take-append_end (encode c) bytes (suc end) whole)
            (character scalar (cut_text later j first))
    ]

pub cut_at_first :
    (name : List ℕ) (end : ℕ)
    → is_continuation (get_or name 0 0) ≡ false
    → is_continuation (get_or name (cut_at name end) 0) ≡ false
unfolding cut_at
cut_at_first name zero e = e
cut_at_first name (suc end) e = elim (Bool-cases (is_continuation (get_or name (suc end) 0))) [
  | inl back ↦ rw (cut_at, back) (cut_at_first name end e)
  | inr stop ↦ rw (cut_at, stop) stop
]

pub cut_at_range :
    (name : List ℕ) (end j : ℕ)
    → j ≤ end
    → is_continuation (get_or name j 0) ≡ false
    → (j ≤ cut_at name end) × (cut_at name end ≤ end)
unfolding cut_at
cut_at_range name zero j h e = (omega arith, omega arith)
cut_at_range name (suc end) j h e = elim (Bool-cases (is_continuation (get_or name (suc end) 0))) [
  | inl back ↦
      let before : j ≢ suc end = λ same.
        let here : is_continuation (get_or name (suc end) 0) ≡ false = rw (← same) e in
        absurd (ground arith) in
      let (lo, hi) = cut_at_range name end j (omega arith) e in rw (cut_at, back) (lo, omega arith)
  | inr stop ↦ rw (cut_at, stop) (h, omega arith)
]

pub head_first : {name : List ℕ} → Utf8 name → is_continuation (get_or name 0 0) ≡ false
head_first nothing = refl
head_first (character {c = c} {bytes = bytes} scalar later) = starts c bytes scalar
