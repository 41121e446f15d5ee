-- ===== src/AnnexB/Tests.antt =====
-- Witness and tests of `annexb_has_vcl`.
use remy_desk.Base.{ℕ, List, [], ◌∷◌, true, false, ◌≡◌, refl, ◌↔◌}
use remy_desk.AnnexB.{annexb_has_vcl, scan, slice_at}
use remy_desk.AnnexB.Slices.{SliceStart, annexb_has_vcl_iff}

-- A parameter set, then an IDR slice behind a start code of four bytes.
abbrev key_frame : List ℕ
key_frame = 0 ∷ 0 ∷ 1 ∷ 103 ∷ 0 ∷ 0 ∷ 0 ∷ 1 ∷ 101 ∷ []

abbrev parameter_set : List ℕ
parameter_set = 0 ∷ 0 ∷ 0 ∷ 1 ∷ 103 ∷ 66 ∷ []

key_frame_has_vcl : annexb_has_vcl key_frame ≡ true
unfolding annexb_has_vcl scan slice_at
key_frame_has_vcl = refl

parameter_set_has_no_vcl : annexb_has_vcl parameter_set ≡ false
unfolding annexb_has_vcl scan slice_at
parameter_set_has_no_vcl = refl

annexb_has_vcl_iff_example : (annexb_has_vcl key_frame ≡ true) ↔ ((i : ℕ) × SliceStart key_frame i)
annexb_has_vcl_iff_example = annexb_has_vcl_iff key_frame
