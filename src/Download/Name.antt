-- ===== src/Download/Name.antt =====
-- `percentDecode`, `validUtf8`, `validateUrl` and `filenameFromUrl` of src/core/download_manager.cpp.
-- A std::string is the list of its bytes.
use remy_desk.Base.{
  ℕ, zero, suc, ◌+◌, ◌-◌, ◌*◌, ◌/◌, ◌%◌, ◌⊎◌, inl, inr, Bool, true, false, ◌&&◌, ◌||◌, not, ltb,
  leb, ◌==◌, Option, none, some, List, [], ◌∷◌, ◌++◌, map, if◌then◌else◌, length, get_or, take,
  drop,
}
use remy_desk.Base.Text.{codes, same_bytes}

-- std::tolower in the C locale
unfoldable pub to_lower : ℕ → ℕ
to_lower c = if leb 65 c && leb c 90 then c + 32 else c

-- -1 is `none`.
unfoldable pub hex_value : ℕ → Option ℕ
unfolding to_lower
hex_value c =
    if leb 48 c && leb c 57
    then some (c - 48)
    else if leb 97 (to_lower c) && leb (to_lower c) 102
    then some (to_lower c - 97 + 10)
    else none

-- The byte that `%`, `high`, `low` stand for.
unfoldable pub escaped : ℕ → ℕ → ℕ → Option ℕ
escaped percent high low =
    if percent == 37
    then elim (hex_value high) [
      | none ↦ none
      | some h ↦ elim (hex_value low) [ none ↦ none | some l ↦ some (h * 16 + l) ]
    ]
    else none

unfoldable pub percent_decode : List ℕ → List ℕ
percent_decode [] = []
percent_decode (c ∷ []) = c ∷ []
percent_decode (c ∷ d ∷ []) = c ∷ d ∷ []
percent_decode (c ∷ high ∷ low ∷ rest) = elim (escaped c high low) [
  | none ↦ c ∷ percent_decode (high ∷ low ∷ rest)
  | some b ↦ b ∷ percent_decode rest
]

-- How many bytes follow the first one of a character.
unfoldable pub continuation : ℕ → Option ℕ
continuation first =
    if ltb first 128
    then some 0
    else if leb 194 first && leb first 223
    then some 1
    else if leb 224 first && leb first 239
    then some 2
    else if leb 240 first && leb first 244
    then some 3
    else none

-- (b & 0xc0) == 0x80, for a byte
abbrev pub is_continuation : ℕ → Bool
is_continuation b = b / 64 == 2

abbrev pub all_continue : List ℕ → Bool
all_continue [] = true
all_continue (b ∷ bytes) = is_continuation b && all_continue bytes

-- Overlong forms, surrogates and numbers past 0x10ffff.
unfoldable pub bad_second : ℕ → ℕ → Bool
bad_second first second =
    (first == 224 && ltb second 160)
    || (first == 237 && ltb 159 second)
    || (first == 240 && ltb second 144)
    || (first == 244 && ltb 143 second)

-- The tests on a character whose first byte asks for `n` more, which stand at the front of `rest`.
unfoldable pub character_ok : ℕ → ℕ → List ℕ → Bool
character_ok first n rest =
    leb n (length rest)
    && all_continue (take n rest)
    && not (leb 2 n && bad_second first (get_or rest 0 0))

-- The loop, on as much fuel as there are bytes.
unfoldable pub valid_from : ℕ → List ℕ → Bool
valid_from fuel [] = true
valid_from zero (first ∷ rest) = false
valid_from (suc fuel) (first ∷ rest) = elim (continuation first) [
  | none ↦ false
  | some n ↦ character_ok first n rest && valid_from fuel (drop n rest)
]

unfoldable pub valid_utf8 : List ℕ → Bool
unfolding valid_from
valid_utf8 bytes = valid_from (length bytes) bytes

abbrev pub starts_with : List ℕ → List ℕ → Bool
starts_with [] bytes = true
starts_with (p ∷ prefix) [] = false
starts_with (p ∷ prefix) (b ∷ bytes) = p == b && starts_with prefix bytes

abbrev pub is_control : ℕ → Bool
is_control b = ltb b 32 || b == 127

abbrev pub any : (ℕ → Bool) → List ℕ → Bool
any test [] = false
any test (b ∷ bytes) = test b || any test bytes

pub data UrlError : Type 0 where
  bad_length bad_scheme has_control : UrlError

unfoldable pub validate_url : List ℕ → UrlError ⊎ List ℕ
unfolding to_lower
validate_url url =
    if length url == 0 || ltb 4096 (length url)
    then inl bad_length
    else if not (starts_with (codes "http://") (map to_lower (take 8 url)))
        && not (starts_with (codes "https://") (map to_lower (take 8 url)))
    then inl bad_scheme
    else if any is_control url
    then inl has_control
    else inr url

-- url.substr(0, url.find_first_of("?#"))
unfoldable pub before_query : List ℕ → List ℕ
before_query [] = []
before_query (b ∷ bytes) = if b == 63 || b == 35 then [] else b ∷ before_query bytes

-- What follows the last `/`; `best` is what follows the last one so far, at first the whole path.
unfoldable pub last_part : List ℕ → List ℕ → List ℕ
last_part best [] = best
last_part best (b ∷ bytes) = last_part (if b == 47 then bytes else best) bytes

abbrev pub is_unsafe : ℕ → Bool
is_unsafe b = is_control b || b == 47 || b == 92

-- erase(remove_if(...))
unfoldable pub without_unsafe : List ℕ → List ℕ
without_unsafe [] = []
without_unsafe (b ∷ bytes) = if is_unsafe b then without_unsafe bytes else b ∷ without_unsafe bytes

-- `--end` while a continuation byte stands at `end`
unfoldable pub cut_at : List ℕ → ℕ → ℕ
cut_at name zero = 0
cut_at name (suc end) =
    if is_continuation (get_or name (suc end) 0) then cut_at name end else suc end

-- std::to_string of an unsigned number of 64 bits, which has at most 20 digits.
unfoldable pub digits : ℕ → ℕ → List ℕ → List ℕ
digits zero n later = later
digits (suc left) n later =
    if ltb n 10 then (48 + n) ∷ later else digits left (n / 10) ((48 + n % 10) ∷ later)

unfoldable pub to_string : ℕ → List ℕ
unfolding digits
to_string n = digits 20 n []

unfoldable pub decoded_name : List ℕ → List ℕ
unfolding percent_decode before_query last_part without_unsafe
decoded_name url =
    let path = before_query url in without_unsafe (percent_decode (last_part path path))

-- A name that is empty, `.`, `..` or no UTF-8
unfoldable pub is_unusable : List ℕ → Bool
is_unusable name =
    not (valid_utf8 name)
    || same_bytes name []
    || same_bytes name (46 ∷ [])
    || same_bytes name (46 ∷ 46 ∷ [])

unfoldable pub shortened : List ℕ → List ℕ
unfolding cut_at
shortened name = if ltb 180 (length name) then take (cut_at name 180) name else name

unfoldable pub filename_from_url : List ℕ → ℕ → List ℕ
unfolding decoded_name is_unusable shortened to_string
filename_from_url url id =
    let name = decoded_name url in
    shortened (if is_unusable name then codes "download-" ++ to_string id else name)
