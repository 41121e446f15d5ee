-- ===== src/Base/Text.antt =====
-- Text: whole names as `String`, which are only compared; what is walked is a list of bytes.
use Prim.Native.Char.{code}
use Prim.Native.String.{String}
use text.Mathlib.Text.{◌==◌}
use mathlib.Core.List.{List, [], ◌∷◌}
use mathlib.Core.Bool.{Bool, true, false, ◌&&◌, ◌||◌}
use mathlib.Core.Path.{◌≡◌, refl, sym, subst, ap₂}
use mathlib.Core.Logic.{◌≢◌, inl, inr}
use remy_desk.Base.Tests.{Bool-cases}
use Prim.Native.Nat.{ℕ}
use native.Mathlib.Omega.{arith}
use remy_desk.Base.Tests

abbrev pub same : String → String → Bool
same a b = a == b

-- The bytes of an ASCII text.
abbrev pub codes : String → List ℕ
codes String.[] = []
codes (String.◌∷◌ c s) = code c ∷ codes s

abbrev pub same_bytes : List ℕ → List ℕ → Bool
same_bytes [] [] = true
same_bytes [] (y ∷ ys) = false
same_bytes (x ∷ xs) [] = false
same_bytes (x ∷ xs) (y ∷ ys) = Tests.◌==◌ x y && same_bytes xs ys

pub same_bytes_sound : (xs ys : List ℕ) → same_bytes xs ys ≡ true → xs ≡ ys
same_bytes_sound [] [] e = refl
same_bytes_sound [] (y ∷ ys) e = cc
same_bytes_sound (x ∷ xs) [] e = cc
same_bytes_sound (x ∷ xs) (y ∷ ys) e =
    ap₂ ◌∷◌ (ground arith) (same_bytes_sound xs ys (ground arith))

pub same_bytes_refl : (xs : List ℕ) → same_bytes xs xs ≡ true
same_bytes_refl [] = refl
same_bytes_refl (x ∷ xs) = ground (arith, same_bytes_refl xs)

pub same_bytes_differ : (xs ys : List ℕ) → same_bytes xs ys ≡ false → xs ≢ ys
same_bytes_differ xs ys e same =
    let itself = same_bytes_refl xs in
    let other : same_bytes xs xs ≡ false = subst (λ l. same_bytes xs l ≡ false) (sym same) e in
    absurd (ground arith)

pub same_bytes_false : (xs ys : List ℕ) → xs ≢ ys → same_bytes xs ys ≡ false
same_bytes_false xs ys h = elim (Bool-cases (same_bytes xs ys)) [
  | inl e ↦ absurd (h (same_bytes_sound xs ys e))
  | inr e ↦ e
]

-- operator< of std::string
abbrev pub before_bytes : List ℕ → List ℕ → Bool
before_bytes xs [] = false
before_bytes [] (y ∷ ys) = true
before_bytes (x ∷ xs) (y ∷ ys) = Tests.ltb x y || (Tests.◌==◌ x y && before_bytes xs ys)

pub before_trans :
    (xs ys zs : List ℕ)
    → before_bytes xs ys ≡ true
    → before_bytes ys zs ≡ true
    → before_bytes xs zs ≡ true
before_trans xs [] zs h k = cc
before_trans xs (y ∷ ys) [] h k = cc
before_trans [] (y ∷ ys) (z ∷ zs) h k = refl
before_trans (x ∷ xs) (y ∷ ys) (z ∷ zs) h k = ground (arith, before_trans xs ys zs)

pub before_differ : (xs ys : List ℕ) → before_bytes xs ys ≡ true → same_bytes xs ys ≡ false
before_differ xs [] h = cc
before_differ [] (y ∷ ys) h = refl
before_differ (x ∷ xs) (y ∷ ys) h = ground (arith, before_differ xs ys)

-- One of two texts that differ comes first.
pub before_total :
    (xs ys : List ℕ)
    → same_bytes xs ys ≡ false
    → before_bytes xs ys ≡ false
    → before_bytes ys xs ≡ true
before_total [] [] d h = cc
before_total [] (y ∷ ys) d h = cc
before_total (x ∷ xs) [] d h = refl
before_total (x ∷ xs) (y ∷ ys) d h = ground (arith, before_total xs ys)
