-- ===== src/Download/Safe.antt =====
-- What `filenameFromUrl` promises of every name.
use remy_desk.Base.{
  ℕ, zero, suc, ◌+◌, ◌/◌, ◌%◌, ◌≤◌, ◌<◌, ◌≡◌, ◌≢◌, refl, inl, inr, Bool, true, false, ◌&&◌, ◌||◌,
  not, ltb, leb, ◌==◌, List, [], ◌∷◌, ◌++◌, arith, length, take, dec_lt, Bool-cases, length-take,
  ap,
}
use mathlib.Core.Path.{subst}
use remy_desk.Base.Text.{codes, same_bytes, same_bytes_differ}
use remy_desk.Download.Name.{
  percent_decode, before_query, last_part, valid_utf8, is_unsafe, any, without_unsafe, cut_at,
  digits, to_string, decoded_name, is_unusable, shortened, filename_from_url,
}
use remy_desk.Download.Cut.{near, cut_text, cut_at_first, cut_at_range, head_first}
use remy_desk.Download.Encoding.{encode, Utf8, nothing, character, Utf8-valid_utf8, valid_utf8-Utf8}

-- Control characters and the two separators.
abbrev pub forbidden : ℕ → Bool
forbidden b = ltb b 32 || b == 127 || b == 47 || b == 92

-- A name of one file in the directory of downloads.
pub record SafeName (name : List ℕ) : Type 0 where
  pub is_text : valid_utf8 name ≡ true
  pub no_unsafe : any forbidden name ≡ false
  pub has_bytes : 0 < length name
  pub is_short : length name ≤ 180
  pub no_dot : name ≢ codes "."
  pub no_dots : name ≢ codes ".."

any-take :
    (n : ℕ) (bytes : List ℕ) → any forbidden bytes ≡ false → any forbidden (take n bytes) ≡ false
any-take zero bytes e = refl
any-take (suc n) [] e = refl
any-take (suc n) (b ∷ bytes) e = ground (arith, any-take n bytes)

any-append :
    (xs ys : List ℕ)
    → any forbidden xs ≡ false
    → any forbidden ys ≡ false
    → any forbidden (xs ++ ys) ≡ false
any-append [] ys e f = f
any-append (x ∷ xs) ys e f = ground (arith, any-append xs ys)

any-without_unsafe : (bytes : List ℕ) → any forbidden (without_unsafe bytes) ≡ false
unfolding without_unsafe
any-without_unsafe [] = refl
any-without_unsafe (b ∷ bytes) =
    let rest = any-without_unsafe bytes in
    elim (Bool-cases (is_unsafe b)) [
      | inl bad ↦ rw (without_unsafe, bad) rest
      | inr good ↦ rw (without_unsafe, good) (rw good rest)
    ]

-- Not `.` and not `..`, by the length.
long-SafeName :
    (name : List ℕ)
    → valid_utf8 name ≡ true
    → any forbidden name ≡ false
    → 2 < length name
    → length name ≤ 180
    → SafeName name
long-SafeName name text clean long short = record {
  is_text = text;
  no_unsafe = clean;
  has_bytes = omega arith;
  is_short = short;
  no_dot = λ e. let same = ap length e in absurd (omega arith);
  no_dots = λ e. let same = ap length e in absurd (omega arith);
}

has_byte : (name : List ℕ) → same_bytes name [] ≡ false → 0 < length name
has_byte [] e = absurd (ground arith)
has_byte (b ∷ name) e = omega arith

shortened-SafeName :
    (name : List ℕ)
    → valid_utf8 name ≡ true
    → any forbidden name ≡ false
    → same_bytes name [] ≡ false
    → same_bytes name (46 ∷ []) ≡ false
    → same_bytes name (46 ∷ 46 ∷ []) ≡ false
    → SafeName (shortened name)
unfolding shortened
shortened-SafeName name text clean some_byte one_dot two_dots = elim (dec_lt 180 (length name)) [
  | yes long ↦
      let u = valid_utf8-Utf8 name text in
      let (j, below, close, first) = near u 180 long in
      let (lo, hi) = cut_at_range name 180 j below first in
      let cut = cut_at_first name 180 (head_first u) in
      let size = length-take (cut_at name 180) name in
      let e : ltb 180 (length name) ≡ true = ground arith in
      rw (shortened, e)
        (long-SafeName (take (cut_at name 180) name)
          (Utf8-valid_utf8 (cut_text u (cut_at name 180) cut))
          (any-take (cut_at name 180) name clean) (omega arith) (omega arith))
  | no short ↦
      let e : ltb 180 (length name) ≡ false = ground arith in
      rw (shortened, e)
        (record {
          is_text = text;
          no_unsafe = clean;
          has_bytes = has_byte name some_byte;
          is_short = omega arith;
          no_dot = same_bytes_differ name (46 ∷ []) one_dot;
          no_dots = same_bytes_differ name (46 ∷ 46 ∷ []) two_dots;
        })
]

-- Lower-case letters, digits and `-`, of which the name of last resort is made.
abbrev all_word : List ℕ → Bool
all_word [] = true
all_word (b ∷ bytes) =
    (b == 45 || (leb 48 b && leb b 57) || (leb 97 b && leb b 122)) && all_word bytes

all_word-Utf8 : (bytes : List ℕ) → all_word bytes ≡ true → Utf8 bytes
unfolding encode
all_word-Utf8 [] e = nothing
all_word-Utf8 (b ∷ bytes) e =
    let small : b < 128 = ground arith in
    let single : encode b ≡ b ∷ [] = ground arith in
    subst Utf8 (ap (λ l. l ++ bytes) single)
      (character {c = b} (inl (omega arith)) (all_word-Utf8 bytes (ground arith)))

all_word-any : (bytes : List ℕ) → all_word bytes ≡ true → any forbidden bytes ≡ false
all_word-any [] e = refl
all_word-any (b ∷ bytes) e = let rest = all_word-any bytes (ground arith) in ground arith

all_word-digits :
    (left n : ℕ) (later : List ℕ) → all_word later ≡ true → all_word (digits left n later) ≡ true
unfolding digits
all_word-digits zero n later e = e
all_word-digits (suc left) n later e =
    let last = all_word-digits left (n / 10) ((48 + n % 10) ∷ later) (ground arith) in ground arith

all_word-append :
    (xs ys : List ℕ) → all_word xs ≡ true → all_word ys ≡ true → all_word (xs ++ ys) ≡ true
all_word-append [] ys e f = f
all_word-append (x ∷ xs) ys e f = let rest = all_word-append xs ys (ground arith) f in ground arith

all_false :
    (a b c d : Bool)
    → (not a || b || c || d) ≡ false
    → (a ≡ true) × (b ≡ false) × (c ≡ false) × (d ≡ false)
all_false a b c d e = ground arith

usable-SafeName :
    (name : List ℕ)
    → any forbidden name ≡ false
    → is_unusable name ≡ false
    → SafeName (shortened name)
unfolding is_unusable
usable-SafeName name clean good =
    let (text, some_byte, one_dot, two_dots) = all_false _ _ _ _ good in
    shortened-SafeName name text clean some_byte one_dot two_dots

any-decoded_name : (url : List ℕ) → any forbidden (decoded_name url) ≡ false
unfolding decoded_name
any-decoded_name url =
    let path = before_query url in any-without_unsafe (percent_decode (last_part path path))

-- Whatever the link, the file gets a name of 1 to 180 bytes that is UTF-8, holds no control
-- character, `/` or `\\`, and is neither `.` nor `..`: a name in the directory itself.
pub filename_from_url-SafeName : (url : List ℕ) (id : ℕ) → SafeName (filename_from_url url id)
unfolding filename_from_url to_string
filename_from_url-SafeName url id = elim (Bool-cases (is_unusable (decoded_name url))) [
  | inl bad ↦
      let word =
        all_word-append (codes "download-") (to_string id) refl (all_word-digits 20 id [] refl) in
      rw (filename_from_url, bad)
        (shortened-SafeName (codes "download-" ++ to_string id)
          (Utf8-valid_utf8 (all_word-Utf8 (codes "download-" ++ to_string id) word))
          (all_word-any (codes "download-" ++ to_string id) word) refl refl refl)
  | inr good ↦
      rw (filename_from_url, good) (usable-SafeName (decoded_name url) (any-decoded_name url) good)
]
