-- ===== src/Convert.antt =====
-- `rga_convert_frame` of native/desktop-streamer/drm_rga_mpp_stream.c: the colour conversion of a
-- frame, with the operations of librga that it tries in turn. Their statuses are arguments.
mod Tests
use remy_desk.Base.{
  ℕ, zero, suc, ◌+◌, ◌≤◌, ◌<◌, ◌≡◌, ◌↔◌, ◌⊎◌, inl, inr, refl, Bool, true, false, ◌&&◌, not, ◌==◌,
  List, [], ◌∷◌, length, arith, if◌then◌else◌, Bool-cases,
}

-- What is tried: imcvtcolor, improcess_ctx on a core, or the legacy blit.
pub data Attempt : Type 0 where
  cvtcolor : Attempt
  process : ℕ → Attempt
  blit : Attempt

-- The sizes and formats of the two buffers.
pub record Frames : Type 0 where
  pub src_width : ℕ
  pub src_height : ℕ
  pub dst_width : ℕ
  pub dst_height : ℕ
  pub src_format : ℕ
  pub dst_format : ℕ

-- The loop over the cores, the first at `i`: whether one succeeded, and the attempts.
unfoldable pub try_cores : (Attempt → Bool) → List ℕ → Bool × List Attempt
try_cores succeeds [] = (false, [])
try_cores succeeds (core ∷ later) =
    let (ok, tried) = try_cores succeeds later in
    if succeeds (process core) then (true, process core ∷ []) else (ok, process core ∷ tried)

unfoldable pub rga_convert_frame : Bool → List ℕ → (Attempt → Bool) → Frames → Bool × List Attempt
unfolding try_cores
rga_convert_frame handle_api cores succeeds f =
    let (ok, tried) = try_cores succeeds cores in
    if not handle_api
    then (succeeds blit, blit ∷ [])
    else if f.src_width == f.dst_width
        && f.src_height == f.dst_height
        && not (f.src_format == f.dst_format)
    then (if succeeds cvtcolor then (true, cvtcolor ∷ []) else (ok, cvtcolor ∷ tried))
    else (ok, tried)

-- All attempts but the last failed, and the last succeeded exactly if the call did.
pub data Ends (succeeds : Attempt → Bool) : Bool → List Attempt → Type 0 where
  nothing : Ends succeeds false []
  success : {a : Attempt} → succeeds a ≡ true → Ends succeeds true (a ∷ [])
  failure :
      {a : Attempt} {ok : Bool} {l : List Attempt}
      → succeeds a ≡ false
      → Ends succeeds ok l
      → Ends succeeds ok (a ∷ l)

try_cores-Ends :
    (succeeds : Attempt → Bool) (cores : List ℕ)
    → let (ok, tried) = try_cores succeeds cores in
      Ends succeeds ok tried × (length tried ≤ length cores)
unfolding try_cores
try_cores-Ends succeeds [] = (nothing, omega arith)
try_cores-Ends succeeds (core ∷ later) =
    let (e, le) = try_cores-Ends succeeds later in
    elim (Bool-cases (succeeds (process core))) [
      | inl ok ↦ rw ok (success ok, omega arith)
      | inr no_luck ↦ rw no_luck (failure no_luck e, omega arith)
    ]

-- The conversion stops at the first attempt that succeeds, returns 0 exactly if there is one, and
-- makes at most one attempt more than there are cores.
pub rga_convert_frame-Ends :
    (handle_api : Bool) (cores : List ℕ) (succeeds : Attempt → Bool) (f : Frames)
    → let (ok, tried) = rga_convert_frame handle_api cores succeeds f in
      Ends succeeds ok tried × (length tried ≤ length cores + 1)
unfolding rga_convert_frame
rga_convert_frame-Ends false cores succeeds f = elim (Bool-cases (succeeds blit)) [
  | inl ok ↦ rw ok (success ok, omega arith)
  | inr bad ↦ rw bad (failure bad nothing, omega arith)
]
rga_convert_frame-Ends true cores succeeds f =
    let (e, le) = try_cores-Ends succeeds cores in
    elim (Bool-cases (
      f.src_width == f.dst_width
      && f.src_height == f.dst_height
      && not (f.src_format == f.dst_format))) [
        | inr other ↦ rw (rga_convert_frame, other) (e, omega arith)
        | inl alike ↦ elim (Bool-cases (succeeds cvtcolor)) [
          | inl ok ↦ rw (rga_convert_frame, alike, ok) (success ok, omega arith)
          | inr bad ↦ rw (rga_convert_frame, alike, bad) (failure bad e, omega arith)
        ]
      ]
