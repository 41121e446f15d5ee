-- ===== src/Stage/Rows.antt =====
-- What a byte of the stage holds after some rows were copied.
use remy_desk.Base.{
  lt→ltb, ℕ, zero, suc, ◌+◌, ◌-◌, ◌*◌, ◌%◌, ◌≤◌, ◌<◌, ◌≡◌, ◌⊎◌, refl, ◌∙◌, inl, inr, Bool, true,
  false, ◌&&◌, arith, ltb, leb, ◌==◌, if◌then◌else◌, [], ◌∷◌, dec_lt,
}
use remy_desk.Base.Bytes.{
  Memory, write_bytes, read_bytes, write_bytes_outside, length-read_bytes, get_or-read_bytes,
  write_bytes_inside,
}
use remy_desk.Stage.{make_opaque, copy_row, copy_rows}

-- The loop over the pixels of a row writes every fourth byte of its range.
make_opaque_lem :
    (rounds x row : ℕ) (m : Memory) (a : ℕ)
    → make_opaque rounds x row m a ≡ (
        if leb (row + x * 4) a && ltb a (row + (x + rounds) * 4) && (a - row) % 4 == 3
        then 0xff
        else m a)
unfolding make_opaque
make_opaque_lem zero x row m a = ground arith
make_opaque_lem (suc rounds) x row m a =
    make_opaque_lem rounds (x + 1) row (write_bytes m (row + (x * 4 + 3)) (0xff ∷ [])) a
    ∙ (unfold write_bytes in ground arith)

-- The byte that the copy puts at column `c` of a row, from the source's byte there.
abbrev pub staged : Bool → ℕ → ℕ → ℕ
staged opaque c b = if opaque && c % 4 == 3 then 0xff else b

copied :
    (m src : Memory) (src_row dst_row row_bytes c : ℕ)
    → c < row_bytes
    → write_bytes m dst_row (read_bytes src src_row row_bytes) (dst_row + c) ≡ src (src_row + c)
copied m src src_row dst_row row_bytes c lt =
    write_bytes_inside m dst_row (read_bytes src src_row row_bytes) c
      (omega (arith, length-read_bytes src src_row row_bytes))
    ∙ get_or-read_bytes src src_row row_bytes c lt

not_copied :
    (m src : Memory) (src_row dst_row row_bytes a : ℕ)
    → (a < dst_row) ⊎ (dst_row + row_bytes ≤ a)
    → write_bytes m dst_row (read_bytes src src_row row_bytes) a ≡ m a
not_copied m src src_row dst_row row_bytes a out =
    write_bytes_outside m dst_row (read_bytes src src_row row_bytes) a
      (ground (arith, length-read_bytes src src_row row_bytes))

-- One row: the bytes of the row, and all others.
copy_row_inside :
    (opaque : Bool) (width row_bytes : ℕ) (src : Memory) (src_row dst_row : ℕ) (m : Memory) (c : ℕ)
    → ((opaque ≡ true) → row_bytes ≡ width * 4)
    → c < row_bytes
    → copy_row opaque width row_bytes src src_row dst_row m (dst_row + c)
      ≡ staged opaque c (src (src_row + c))
unfolding copy_row
copy_row_inside true width row_bytes src src_row dst_row m c four lt =
    let e = four refl in
    make_opaque_lem width 0 dst_row _ (dst_row + c)
    ∙ (ground (arith, copied m src src_row dst_row row_bytes c lt))
copy_row_inside false width row_bytes src src_row dst_row m c four lt =
    copied m src src_row dst_row row_bytes c lt

copy_row_outside :
    (opaque : Bool) (width row_bytes : ℕ) (src : Memory) (src_row dst_row : ℕ) (m : Memory) (a : ℕ)
    → ((opaque ≡ true) → row_bytes ≡ width * 4)
    → (a < dst_row) ⊎ (dst_row + row_bytes ≤ a)
    → copy_row opaque width row_bytes src src_row dst_row m a ≡ m a
unfolding copy_row
copy_row_outside true width row_bytes src src_row dst_row m a four out =
    let e = four refl in
    make_opaque_lem width 0 dst_row _ a
    ∙ (ground (arith, not_copied m src src_row dst_row row_bytes a out))
copy_row_outside false width row_bytes src src_row dst_row m a four out =
    not_copied m src src_row dst_row row_bytes a out

copy_row_lem :
    (opaque : Bool) (width row_bytes : ℕ) (src : Memory) (src_row dst_row : ℕ) (m : Memory) (c : ℕ)
    → ((opaque ≡ true) → row_bytes ≡ width * 4)
    → copy_row opaque width row_bytes src src_row dst_row m (dst_row + c)
      ≡ (if ltb c row_bytes then staged opaque c (src (src_row + c)) else m (dst_row + c))
copy_row_lem opaque width row_bytes src src_row dst_row m c four = elim (dec_lt c row_bytes) [
  | yes lt ↦
      rw (lt→ltb c row_bytes lt)
        (copy_row_inside opaque width row_bytes src src_row dst_row m c four lt)
  | no ge ↦
      copy_row_outside opaque width row_bytes src src_row dst_row m (dst_row + c) four
        (inr (omega arith))
      ∙ (ground arith)
]

-- The rows behind an address leave it alone.
copy_rows_behind :
    (opaque : Bool) (width row_bytes src_pitch dst_pitch : ℕ) (src : Memory)
    (rows src_row dst_row : ℕ) (m : Memory) (a : ℕ)
    → ((opaque ≡ true) → row_bytes ≡ width * 4)
    → a < dst_row
    → copy_rows opaque width row_bytes src_pitch dst_pitch src rows src_row dst_row m a ≡ m a
unfolding copy_rows
copy_rows_behind opaque width row_bytes sp dp src zero src_row dst_row m a four lt = refl
copy_rows_behind opaque width row_bytes sp dp src (suc rows) src_row dst_row m a four lt =
    copy_rows_behind opaque width row_bytes sp dp src rows (src_row + sp) (dst_row + dp) _ a four
      (omega arith)
    ∙ copy_row_outside opaque width row_bytes src src_row dst_row m a four (inl lt)

-- Every byte of a row that is copied, and every byte of the pitch behind it.
pub copy_rows_lem :
    (opaque : Bool) (width row_bytes src_pitch dst_pitch : ℕ) (src : Memory)
    (rows src_row dst_row : ℕ) (m : Memory) (y c : ℕ)
    → ((opaque ≡ true) → row_bytes ≡ width * 4)
    → row_bytes ≤ dst_pitch
    → y < rows
    → c < dst_pitch
    → copy_rows opaque width row_bytes src_pitch dst_pitch src rows src_row dst_row m
        (dst_row + (y * dst_pitch + c))
      ≡ (if ltb c row_bytes
          then staged opaque c (src (src_row + (y * src_pitch + c)))
          else m (dst_row + (y * dst_pitch + c)))
unfolding copy_rows
copy_rows_lem opaque width row_bytes sp dp src zero src_row dst_row m y c four le lt in_row =
    absurd (omega arith)
copy_rows_lem opaque width row_bytes sp dp src (suc rows) src_row dst_row m zero c four le lt
      in_row =
    let e : 0 * dp + c ≡ c = omega arith in
    let e' : 0 * sp + c ≡ c = omega arith in
    rw (e, e')
      (copy_rows_behind opaque width row_bytes sp dp src rows (src_row + sp) (dst_row + dp) _
          (dst_row + c) four (omega arith)
        ∙ copy_row_lem opaque width row_bytes src src_row dst_row m c four)
copy_rows_lem opaque width row_bytes sp dp src (suc rows) src_row dst_row m (suc y) c four le lt
      in_row =
    let here : dst_row + (suc y * dp + c) ≡ dst_row + dp + (y * dp + c) = omega arith in
    let there : src_row + (suc y * sp + c) ≡ src_row + sp + (y * sp + c) = omega arith in
    let old : copy_row opaque width row_bytes src src_row dst_row m (dst_row + dp + (y * dp + c))
        ≡ m (dst_row + dp + (y * dp + c)) =
      copy_row_outside opaque width row_bytes src src_row dst_row m _ four (inr (omega arith)) in
    let rest =
      copy_rows_lem opaque width row_bytes sp dp src rows (src_row + sp) (dst_row + dp)
        (copy_row opaque width row_bytes src src_row dst_row m) y c four le (omega arith) in_row in
    rw (here, there) (rest ∙ (rw old))
