-- ===== src/Download/Suffixes.antt =====
-- The candidates of `uniqueTarget`, of src/core/download_manager.cpp, are all different.
use remy_desk.Base.{
  ℕ, zero, suc, ◌+◌, ◌-◌, ◌*◌, ◌/◌, ◌%◌, ◌^◌, ◌<◌, ◌≡◌, refl, inl, inr, true, false, ◌&&◌, ltb, leb,
  some, List, [], ◌∷◌, ◌++◌, arith, if◌then◌else◌, length, drop, length-append, dec_lt, Bool-cases,
  Option-cases, ap, ◌∙◌, sym,
}
use remy_desk.Base.Text.{codes}
use remy_desk.Download.Name.{digits, to_string}
use remy_desk.Download.Target.{split_last_dot, stem_extension, candidate}

-- The number at the front of a text.
abbrev number : ℕ → List ℕ → ℕ
number v [] = v
number v (d ∷ bytes) =
    let rest = number (v * 10 + (d - 48)) bytes in if leb 48 d && leb d 57 then rest else v

number_digit :
    (v d : ℕ) (later : List ℕ) → d < 10 → number v ((48 + d) ∷ later) ≡ number (v * 10 + d) later
number_digit v d later h =
    let is_digit : (leb 48 (48 + d) && leb (48 + d) 57) ≡ true = ground arith in
    rw is_digit (ap (λ k. number k later) (omega arith))

number-digits :
    (left n : ℕ) (later : List ℕ) → n < 10 ^ left → number 0 (digits left n later) ≡ number n later
unfolding digits
number-digits zero n later h = ap (λ k. number k later) (omega arith)
number-digits (suc left) n later h = elim (dec_lt n 10) [
  | yes small ↦
      let e : ltb n 10 ≡ true = ground arith in
      rw (digits, e) (number_digit 0 n later small ∙ ap (λ k. number k later) (omega arith))
  | no large ↦
      let e : ltb n 10 ≡ false = ground arith in
      let again = number-digits left (n / 10) ((48 + n % 10) ∷ later) (omega arith) in
      rw (digits, e)
        (again
          ∙ number_digit (n / 10) (n % 10) later (omega arith)
          ∙ ap (λ k. number k later) (omega arith))
]

digits-append :
    (left n : ℕ) (later more : List ℕ) → digits left n later ++ more ≡ digits left n (later ++ more)
unfolding digits
digits-append zero n later more = refl
digits-append (suc left) n later more = elim (Bool-cases (ltb n 10)) [
  | inl e ↦ rw (digits, e) refl
  | inr e ↦ rw (digits, e) (digits-append left (n / 10) ((48 + n % 10) ∷ later) more)
]

to_string-append : (n : ℕ) (more : List ℕ) → to_string n ++ more ≡ digits 20 n more
unfolding to_string
to_string-append n more = digits-append 20 n [] more

drop-append : (xs ys : List ℕ) → drop (length xs) (xs ++ ys) ≡ ys
drop-append [] ys = refl
drop-append (x ∷ xs) ys = drop-append xs ys

-- The suffix is read back from a candidate.
suffix_of-candidate :
    (name : List ℕ) (suffix : ℕ)
    → suc suffix < 2 ^ 64
    → number 0 (drop 2 (drop (length (stem_extension name).0) (candidate name (suc suffix))))
      ≡ suc suffix
unfolding candidate
suffix_of-candidate name suffix h =
    let tail : List ℕ = codes ")" ++ (stem_extension name).1 in
    ap (λ l. number 0 (drop 2 l))
      (drop-append (stem_extension name).0 (codes " (" ++ (to_string (suc suffix) ++ tail)))
    ∙ ap (number 0) (to_string-append (suc suffix) tail)
    ∙ number-digits 20 (suc suffix) tail (omega arith)

split_last_dot-length :
    (name stem extension : List ℕ)
    → split_last_dot name ≡ some (stem, extension)
    → length stem + length extension ≡ length name
unfolding split_last_dot
split_last_dot-length [] stem extension e = cc
split_last_dot-length (b ∷ name) stem extension e = elim (Option-cases (split_last_dot name)) [
  | inl none_later ↦ ground arith
  | inr ((stem', extension'), later) ↦
      let shorter = split_last_dot-length name stem' extension' later in ground arith
]

length-stem_extension :
    (name : List ℕ) → length (stem_extension name).0 + length (stem_extension name).1 ≡ length name
unfolding stem_extension
length-stem_extension [] = refl
length-stem_extension (b ∷ name) = elim (Option-cases (split_last_dot name)) [
  | inl e ↦ ground arith
  | inr ((stem, extension), e) ↦
      let shorter = split_last_dot-length name stem extension e in ground arith
]

candidate-suc-length :
    (name : List ℕ) (suffix : ℕ) → length name < length (candidate name (suc suffix))
unfolding candidate
candidate-suc-length name suffix =
    let whole = length-stem_extension name in
    let last = codes ")" ++ (stem_extension name).1 in
    let front =
      length-append (stem_extension name).0 (codes " (" ++ (to_string (suc suffix) ++ last)) in
    let middle = length-append (to_string (suc suffix)) last in omega arith

pub candidate_injective :
    (name : List ℕ) (r s : ℕ)
    → r < 2 ^ 64
    → s < 2 ^ 64
    → candidate name r ≡ candidate name s
    → r ≡ s
unfolding candidate
candidate_injective name zero zero hr hs e = refl
candidate_injective name zero (suc s) hr hs e =
    let same = ap length e in let more = candidate-suc-length name s in absurd (omega arith)
candidate_injective name (suc r) zero hr hs e =
    let same = ap length e in let more = candidate-suc-length name r in absurd (omega arith)
candidate_injective name (suc r) (suc s) hr hs e =
    sym (suffix_of-candidate name r hr)
    ∙ ap (λ l. number 0 (drop 2 (drop (length (stem_extension name).0) l))) e
    ∙ suffix_of-candidate name s hs
