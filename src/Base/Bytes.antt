-- ===== src/Base/Bytes.antt =====
-- Byte-addressed memory: a function from addresses to bytes, with `memcpy` into it, reads of a
-- range, and the little-endian form of a `uint32_t`.
use remy_desk.Base.{
  ◌∙◌, ℕ, zero, suc, ◌+◌, ◌-◌, ◌*◌, ◌/◌, ◌%◌, ◌^◌, ◌≤◌, ◌<◌, ◌≡◌, refl, ap, ◌⊎◌, ◌&&◌, List, [],
  ◌∷◌, arith, ltb, leb, if◌then◌else◌, length, get_or,
}
use mathlib.Core.Path.{ap₂}

abbrev pub Memory : Type 0
Memory = ℕ → ℕ

-- memcpy(base + at, bytes, length bytes)
unfoldable pub write_bytes : Memory → ℕ → List ℕ → Memory
write_bytes m at bytes a =
    if leb at a && ltb a (at + length bytes) then get_or bytes (a - at) 0 else m a

-- The `n` bytes from address `at`.
unfoldable pub read_bytes : Memory → ℕ → ℕ → List ℕ
read_bytes m at zero = []
read_bytes m at (suc n) = m at ∷ read_bytes m (at + 1) n

pub length-read_bytes : (m : Memory) (at n : ℕ) → length (read_bytes m at n) ≡ n
unfolding read_bytes
length-read_bytes m at zero = refl
length-read_bytes m at (suc n) = ap suc (length-read_bytes m (at + 1) n)

-- A read that a write does not meet sees the old bytes.
pub read-write_ne :
    (m : Memory) (at : ℕ) (bytes : List ℕ) (from n : ℕ)
    → (from + n ≤ at) ⊎ (at + length bytes ≤ from)
    → read_bytes (write_bytes m at bytes) from n ≡ read_bytes m from n
unfolding read_bytes
read-write_ne m at bytes from zero h = refl
read-write_ne m at bytes from (suc n) h =
    ap₂ ◌∷◌ (unfold write_bytes in ground arith)
      (read-write_ne m at bytes (from + 1) n (ground arith))

-- What a read inside a write finds, from its `k`th byte on.
read_suffix :
    (m : Memory) (at k from : ℕ) (bytes rest : List ℕ)
    → from ≡ at + k
    → k + length rest ≡ length bytes
    → ((i : ℕ) → i < length rest → get_or bytes (k + i) 0 ≡ get_or rest i 0)
    → read_bytes (write_bytes m at bytes) from (length rest) ≡ rest
unfolding read_bytes
read_suffix m at k from bytes [] p e same = refl
read_suffix m at k from bytes (x ∷ rest) p e same =
    ap₂ ◌∷◌ (unfold write_bytes in ground (arith, same 0)) (
      read_suffix m at (k + 1) (from + 1) bytes rest (omega arith) (omega arith)
        (λ i h. ground (arith, same (suc i))))

-- What was written is read back.
pub read-write_self :
    (m : Memory) (at n : ℕ) (bytes : List ℕ)
    → length bytes ≡ n
    → read_bytes (write_bytes m at bytes) at n ≡ bytes
read-write_self m at n bytes e =
    rw (← e) (read_suffix m at 0 at bytes bytes (omega arith) (omega arith) (λ i h. ground arith))

-- A write keeps what stands outside its range.
pub write_bytes_outside :
    (m : Memory) (at : ℕ) (bytes : List ℕ) (a : ℕ)
    → (a < at) ⊎ (at + length bytes ≤ a)
    → write_bytes m at bytes a ≡ m a
unfolding write_bytes
write_bytes_outside m at bytes a h = ground arith

-- The four bytes of a `uint32_t`, least significant first.
unfoldable pub u32_bytes : ℕ → List ℕ
u32_bytes n = n % 256 ∷ n / 256 % 256 ∷ n / 65536 % 256 ∷ n / 16777216 % 256 ∷ []

unfoldable pub u32_of_bytes : List ℕ → ℕ
u32_of_bytes bytes =
    get_or bytes 0 0
    + get_or bytes 1 0 * 256
    + get_or bytes 2 0 * 65536
    + get_or bytes 3 0 * 16777216

pub length-u32_bytes : (n : ℕ) → length (u32_bytes n) ≡ 4
unfolding u32_bytes
length-u32_bytes n = refl

pub u32_of_bytes-u32_bytes : (n : ℕ) → n < 2 ^ 32 → u32_of_bytes (u32_bytes n) ≡ n
unfolding u32_bytes u32_of_bytes
u32_of_bytes-u32_bytes n h = omega arith

pub get_or-read_bytes :
    (m : Memory) (at n i : ℕ) → i < n → get_or (read_bytes m at n) i 0 ≡ m (at + i)
unfolding read_bytes
get_or-read_bytes m at zero i h = absurd (omega arith)
get_or-read_bytes m at (suc n) zero h = ap m (omega arith)
get_or-read_bytes m at (suc n) (suc i) h =
    get_or-read_bytes m (at + 1) n i (omega arith) ∙ ap m (omega arith)

-- A byte in the range of a write.
pub write_bytes_inside :
    (m : Memory) (at : ℕ) (bytes : List ℕ) (i : ℕ)
    → i < length bytes
    → write_bytes m at bytes (at + i) ≡ get_or bytes i 0
unfolding write_bytes
write_bytes_inside m at bytes i h = ground arith
