-- ===== src/Download/Encoding.antt =====
-- `validUtf8` against the definition of UTF-8: the numbers of Unicode and the bytes of each.
use remy_desk.Base.{
  ℕ, zero, suc, ◌+◌, ◌-◌, ◌*◌, ◌/◌, ◌%◌, ◌≤◌, ◌<◌, ◌≡◌, ◌↔◌, refl, ◌⊎◌, inl, inr, true, false, ◌&&◌,
  ltb, some, List, [], ◌∷◌, ◌++◌, arith, if◌then◌else◌, length, take, drop, dec_lt, Option-cases,
  take-append-drop, length-append, ap, ◌∙◌,
}
use mathlib.Core.Path.{subst}
use remy_desk.Download.Name.{
  continuation, is_continuation, bad_second, character_ok, valid_from, valid_utf8,
}

-- A number of Unicode that is no surrogate.
abbrev pub Scalar : ℕ → Type 0
Scalar c = (c < 55296) ⊎ ((57344 ≤ c) × (c < 1114112))

-- Its bytes.
unfoldable pub encode : ℕ → List ℕ
encode c =
    if ltb c 128
    then c ∷ []
    else if ltb c 2048
    then (192 + c / 64) ∷ (128 + c % 64) ∷ []
    else if ltb c 65536
    then (224 + c / 4096) ∷ (128 + c / 64 % 64) ∷ (128 + c % 64) ∷ []
    else (240 + c / 262144) ∷ (128 + c / 4096 % 64) ∷ (128 + c / 64 % 64) ∷ (128 + c % 64) ∷ []

pub data Utf8 : List ℕ → Type 0 where
  nothing : Utf8 []
  character : {c : ℕ} {bytes : List ℕ} → Scalar c → Utf8 bytes → Utf8 (encode c ++ bytes)

pub length-encode : (c : ℕ) → (1 ≤ length (encode c)) × (length (encode c) ≤ 4)
unfolding encode
length-encode c = ground arith

-- The bytes of a text.
abbrev pub encode_all : List ℕ → List ℕ
encode_all [] = []
encode_all (c ∷ text) = encode c ++ encode_all text

-- One to four bytes that pass the tests are those of a number.
abbrev Decoded : ℕ → List ℕ → Type 0
Decoded first rest = (c : ℕ) × Scalar c × (encode c ≡ first ∷ rest)

one : (a : ℕ) → a < 128 → Decoded a []
unfolding encode
one a h = (a, ground arith, ground arith)

two : (a b : ℕ) → 194 ≤ a → a ≤ 223 → is_continuation b ≡ true → Decoded a (b ∷ [])
unfolding encode
two a b lo hi cb = ((a - 192) * 64 + (b - 128), ground arith, ground arith)

three :
    (a b d : ℕ)
    → 224 ≤ a
    → a ≤ 239
    → is_continuation b ≡ true
    → is_continuation d ≡ true
    → bad_second a b ≡ false
    → Decoded a (b ∷ d ∷ [])
unfolding encode bad_second
three a b d lo hi cb cd range =
    ((a - 224) * 4096 + (b - 128) * 64 + (d - 128), ground arith, ground arith)

four :
    (a b d e : ℕ)
    → 240 ≤ a
    → a ≤ 244
    → is_continuation b ≡ true
    → is_continuation d ≡ true
    → is_continuation e ≡ true
    → bad_second a b ≡ false
    → Decoded a (b ∷ d ∷ e ∷ [])
unfolding encode bad_second
four a b d e lo hi cb cd ce range =
    ((a - 240) * 262144 + (b - 128) * 4096 + (d - 128) * 64 + (e - 128), ground arith, ground arith)

front :
    (a n : ℕ) (rest : List ℕ)
    → continuation a ≡ some n
    → character_ok a n rest ≡ true
    → Decoded a (take n rest)
unfolding continuation character_ok
front a zero rest e ok = one a (ground arith)
front a (suc zero) [] e ok = absurd (ground arith)
front a (suc zero) (b ∷ rest) e ok = two a b (ground arith) (ground arith) (ground arith)
front a (suc (suc zero)) (b ∷ d ∷ rest) e ok =
    three a b d (ground arith) (ground arith) (ground arith) (ground arith) (ground arith)
front a (suc (suc zero)) (b ∷ []) e ok = absurd (ground arith)
front a (suc (suc zero)) [] e ok = absurd (ground arith)
front a (suc (suc (suc zero))) (b ∷ d ∷ f ∷ rest) e ok =
    four a b d f (ground arith) (ground arith) (ground arith) (ground arith) (ground arith)
      (ground arith)
front a (suc (suc (suc zero))) (b ∷ d ∷ []) e ok = absurd (ground arith)
front a (suc (suc (suc zero))) (b ∷ []) e ok = absurd (ground arith)
front a (suc (suc (suc zero))) [] e ok = absurd (ground arith)
front a (suc (suc (suc (suc n)))) rest e ok = absurd (ground arith)

valid_from-Utf8 : (fuel : ℕ) (bytes : List ℕ) → valid_from fuel bytes ≡ true → Utf8 bytes
unfolding valid_from
valid_from-Utf8 fuel [] e = nothing
valid_from-Utf8 zero (a ∷ rest) e = absurd (ground arith)
valid_from-Utf8 (suc fuel) (a ∷ rest) e = elim (Option-cases (continuation a)) [
  | inl bad ↦ absurd (ground arith)
  | inr (n, class) ↦
      let passed : (character_ok a n rest && valid_from fuel (drop n rest)) ≡ true = ground arith in
      let (c, scalar, same) = front a n rest class (ground arith) in
      let later = valid_from-Utf8 fuel (drop n rest) (ground arith) in
      subst Utf8 (ap (λ l. l ++ drop n rest) same ∙ ap (◌∷◌ a) (take-append-drop n rest))
        (character scalar later)
]

skip :
    (a n fuel : ℕ) (rest : List ℕ)
    → continuation a ≡ some n
    → character_ok a n rest ≡ true
    → valid_from (suc fuel) (a ∷ rest) ≡ valid_from fuel (drop n rest)
unfolding valid_from
skip a n fuel rest class ok = rw (valid_from, class, ok) refl

-- The loop behind one to four bytes that are a character.
skip_one :
    (a fuel : ℕ) (bytes : List ℕ)
    → a < 128
    → valid_from (suc fuel) (a ∷ bytes) ≡ valid_from fuel bytes
unfolding continuation character_ok bad_second
skip_one a fuel bytes h = skip a 0 fuel bytes (ground arith) (ground arith)

skip_two :
    (a b fuel : ℕ) (bytes : List ℕ)
    → 194 ≤ a
    → a ≤ 223
    → is_continuation b ≡ true
    → valid_from (suc fuel) (a ∷ b ∷ bytes) ≡ valid_from fuel bytes
unfolding continuation character_ok bad_second
skip_two a b fuel bytes lo hi cb = skip a 1 fuel (b ∷ bytes) (ground arith) (ground arith)

skip_three :
    (a b d fuel : ℕ) (bytes : List ℕ)
    → 224 ≤ a
    → a ≤ 239
    → is_continuation b ≡ true
    → is_continuation d ≡ true
    → bad_second a b ≡ false
    → valid_from (suc fuel) (a ∷ b ∷ d ∷ bytes) ≡ valid_from fuel bytes
unfolding continuation character_ok
skip_three a b d fuel bytes lo hi cb cd range =
    skip a 2 fuel (b ∷ d ∷ bytes) (ground arith) (ground arith)

skip_four :
    (a b d e fuel : ℕ) (bytes : List ℕ)
    → 240 ≤ a
    → a ≤ 244
    → is_continuation b ≡ true
    → is_continuation d ≡ true
    → is_continuation e ≡ true
    → bad_second a b ≡ false
    → valid_from (suc fuel) (a ∷ b ∷ d ∷ e ∷ bytes) ≡ valid_from fuel bytes
unfolding continuation character_ok
skip_four a b d e fuel bytes lo hi cb cd ce range =
    skip a 3 fuel (b ∷ d ∷ e ∷ bytes) (ground arith) (ground arith)

valid_from-encode :
    (c fuel : ℕ) (bytes : List ℕ)
    → Scalar c
    → valid_from (suc fuel) (encode c ++ bytes) ≡ valid_from fuel bytes
unfolding encode bad_second
valid_from-encode c fuel bytes scalar = elim (dec_lt c 128) [
  | yes h ↦ let e : ltb c 128 ≡ true = ground arith in rw (encode, e) (skip_one c fuel bytes h)
  | no past ↦ elim (dec_lt c 2048) [
    | yes h ↦
        let e : encode c ≡ (192 + c / 64) ∷ (128 + c % 64) ∷ [] = ground arith in
        rw e (skip_two _ _ fuel bytes (ground arith) (ground arith) (ground arith))
    | no past2 ↦ elim (dec_lt c 65536) [
      | yes h ↦
          let e : encode c ≡ (224 + c / 4096) ∷ (128 + c / 64 % 64) ∷ (128 + c % 64) ∷ [] =
            ground arith in
          rw e (
            skip_three _ _ _ fuel bytes (ground arith) (ground arith) (ground arith) (ground arith)
              (ground arith))
      | no past3 ↦
          let e : encode c
              ≡ (240 + c / 262144)
                ∷ (128 + c / 4096 % 64)
                ∷ (128 + c / 64 % 64)
                ∷ (128 + c % 64)
                ∷ [] =
            ground arith in
          rw e (
            skip_four _ _ _ _ fuel bytes (ground arith) (ground arith) (ground arith) (ground arith)
              (ground arith) (ground arith))
    ]
  ]
]

valid_from_enough :
    (fuel : ℕ) {bytes : List ℕ} → Utf8 bytes → length bytes ≤ fuel → valid_from fuel bytes ≡ true
unfolding valid_from encode
valid_from_enough fuel nothing h = refl
valid_from_enough zero (character {c = c} {bytes = bytes} scalar later) h =
    absurd (omega (arith, length-append (encode c) bytes, length-encode c))
valid_from_enough (suc fuel) (character {c = c} {bytes = bytes} scalar later) h =
    valid_from-encode c fuel bytes scalar
    ∙ valid_from_enough fuel later (omega (arith, length-append (encode c) bytes, length-encode c))

abbrev pub Scalars : List ℕ → Type 0
Scalars [] = Unit
Scalars (c ∷ text) = Scalar c × Scalars text

text_of : {bytes : List ℕ} → Utf8 bytes → (text : List ℕ) × Scalars text × (encode_all text ≡ bytes)
text_of nothing = ([], tt, refl)
text_of (character {c = c} scalar later) =
    let (text, scalars, e) = text_of later in
    (c ∷ text, (scalar, scalars), ap (λ l. encode c ++ l) e)

Utf8-encode_all : (text : List ℕ) → Scalars text → Utf8 (encode_all text)
Utf8-encode_all [] scalars = nothing
Utf8-encode_all (c ∷ text) (scalar, scalars) = character scalar (Utf8-encode_all text scalars)

pub valid_utf8-Utf8 : (bytes : List ℕ) → valid_utf8 bytes ≡ true → Utf8 bytes
unfolding valid_utf8
valid_utf8-Utf8 bytes e = valid_from-Utf8 (length bytes) bytes e

pub Utf8-valid_utf8 : {bytes : List ℕ} → Utf8 bytes → valid_utf8 bytes ≡ true
unfolding valid_utf8
Utf8-valid_utf8 {bytes = bytes} u = valid_from_enough (length bytes) u (omega arith)

-- The bytes that pass `validUtf8` are those of the texts of Unicode.
pub valid_utf8_iff :
    (bytes : List ℕ)
    → (valid_utf8 bytes ≡ true) ↔ ((text : List ℕ) × Scalars text × (encode_all text ≡ bytes))
valid_utf8_iff bytes = (
  λ e. text_of (valid_utf8-Utf8 bytes e),
  λ (text, scalars, e). Utf8-valid_utf8 (subst Utf8 e (Utf8-encode_all text scalars)),
)
