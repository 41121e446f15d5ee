-- ===== src/AnnexB/Slices.antt =====
-- `annexb_has_vcl` against its meaning: three bytes of start code and a NAL type from 1 to 5.
use remy_desk.Base.{
  ltb, ℕ, zero, suc, ◌+◌, ◌-◌, ◌%◌, ◌≤◌, ◌<◌, ◌≡◌, ◌↔◌, true, false, List, length, arith,
  Bool-cases, inl, inr, dec_lt,
}
use remy_desk.AnnexB.{byte, slice_at, scan, annexb_has_vcl}

-- A start code of three bytes at `i`, with a slice behind it.
pub record SliceStart (packet : List ℕ) (i : ℕ) : Type 0 where
  pub inside : i + 3 < length packet
  pub first : byte packet i ≡ 0
  pub second : byte packet (i + 1) ≡ 0
  pub third : byte packet (i + 2) ≡ 1
  pub type_low : 1 ≤ byte packet (i + 3) % 32
  pub type_high : byte packet (i + 3) % 32 ≤ 5

SliceStart-slice_at : (packet : List ℕ) (i : ℕ) → SliceStart packet i → slice_at packet i ≡ true
unfolding slice_at
SliceStart-slice_at packet i s = ground arith

-- A start code of four bytes is one of three bytes a byte later.
one_later :
    (packet : List ℕ) (i : ℕ)
    → i + 4 < length packet
    → byte packet (i + 1) ≡ 0
    → byte packet (i + 2) ≡ 0
    → byte packet (i + 3) ≡ 1
    → 1 ≤ byte packet (i + 4) % 32
    → byte packet (i + 4) % 32 ≤ 5
    → SliceStart packet (i + 1)
one_later packet i lt b1 b2 b3 low high =
    let at2 : i + 1 + 1 ≡ i + 2 = omega arith in
    let at3 : i + 1 + 2 ≡ i + 3 = omega arith in
    let at4 : i + 1 + 3 ≡ i + 4 = omega arith in
    record {
      inside = omega arith;
      first = b1;
      second = rw (at2, b2);
      third = rw (at3, b3);
      type_low = rw at4 low;
      type_high = rw at4 high;
    }

slice_at-SliceStart :
    (packet : List ℕ) (i : ℕ)
    → slice_at packet i ≡ true
    → i + 3 < length packet
    → (j : ℕ) × SliceStart packet j
unfolding slice_at
slice_at-SliceStart packet i h lt = elim (dec_lt 0 (byte packet (i + 2))) [
  | yes short ↦ (i, ground arith)
  | no long ↦ (
    i + 1,
    one_later packet i (ground arith) (ground arith) (ground arith) (ground arith) (ground arith)
        (ground arith),
  )
]

scan-SliceStart :
    (packet : List ℕ) (rounds i : ℕ)
    → i + rounds + 3 ≤ length packet
    → scan packet rounds i ≡ true
    → (j : ℕ) × SliceStart packet j
unfolding scan
scan-SliceStart packet zero i le h = cc
scan-SliceStart packet (suc rounds) i le h = elim (Bool-cases (slice_at packet i)) [
  | inl here ↦ slice_at-SliceStart packet i here (omega arith)
  | inr on ↦ scan-SliceStart packet rounds (i + 1) (omega arith) (rw on at h)
]

SliceStart-scan :
    (packet : List ℕ) (rounds i j : ℕ)
    → i ≤ j
    → j < i + rounds
    → SliceStart packet j
    → scan packet rounds i ≡ true
unfolding scan
SliceStart-scan packet zero i j le lt s = absurd (omega arith)
SliceStart-scan packet (suc rounds) i j le lt s = elim (dec_lt i j) [
  | yes later ↦
      ground (arith, SliceStart-scan packet rounds (i + 1) j (omega arith) (omega arith) s)
  | no here ↦ let same : i ≡ j = omega arith in rw (same, SliceStart-slice_at packet j s)
]

-- The function answers true exactly if somewhere in the packet a start code of three bytes is
-- followed by a NAL unit of type 1 to 5: its extra test for codes of four bytes adds nothing.
pub annexb_has_vcl_iff :
    (packet : List ℕ) → (annexb_has_vcl packet ≡ true) ↔ ((i : ℕ) × SliceStart packet i)
unfolding annexb_has_vcl
annexb_has_vcl_iff packet = elim (dec_lt (length packet) 4) [
  | yes short ↦ (λ h. ground arith, λ (j, s). ground arith)
  | no long ↦
      let enough : ltb (length packet) 4 ≡ false = ground arith in
      (
        λ h. scan-SliceStart packet (length packet - 3) 0 (omega arith) (rw enough at h),
        λ (j, s).
            rw (
              enough,
              SliceStart-scan packet (length packet - 3) 0 j (omega arith) (ground arith) s,
            ),
      )
]
