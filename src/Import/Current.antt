-- ===== src/Import/Current.antt =====
-- What an import is of, behind a call.
use remy_desk.Base.{
  Option-cases, ℕ, ◌≡◌, ◌⊎◌, refl, Bool, true, false, ◌||◌, ◌==◌, inl, inr, Bool-cases, arith,
}
use remy_desk.Import.{CaptureFb, wrap_rga_dma_fd}
use remy_desk.Import.Formats.{rga_format_for_drm, bytes_per_pixel_for_drm}
use remy_desk.Import.Source.{
  SrcImport, no_import, ImportCalls, release_src_import, is_current, map_source, import_exported,
  ensure_src_import,
}

-- The import is of the framebuffer where the call returned 0, and empty where it did not.
abbrev pub Settled : Bool → SrcImport → CaptureFb → Type 0
Settled ok src fb = ((ok ≡ true) × (is_current src fb ≡ true)) ⊎ ((ok ≡ false) × (src ≡ no_import))

import_exported-Settled :
    (c : ImportCalls) (cpu_stage xrgb_as_alpha : Bool) (fb : CaptureFb) (n : ℕ)
    → let (ok, src, l) = import_exported c cpu_stage xrgb_as_alpha fb n in Settled ok src fb
unfolding import_exported map_source release_src_import is_current wrap_rga_dma_fd
import_exported-Settled c cpu_stage xrgb_as_alpha fb n = ground arith

-- Where `ensure_src_import` returns 0, the import is the one of the framebuffer that was asked for,
-- so that the same call again does nothing; where it returns -1, the import is empty.
pub ensure_src_import-Settled :
    (c : ImportCalls) (cpu_stage xrgb_as_alpha : Bool) (src : SrcImport) (fb : CaptureFb)
    → let (ok, src', l) = ensure_src_import c cpu_stage xrgb_as_alpha src fb in Settled ok src' fb
unfolding ensure_src_import release_src_import
ensure_src_import-Settled c cpu_stage xrgb_as_alpha src fb = elim (Bool-cases (is_current src fb)) [
  | inl same ↦ rw (ensure_src_import, same) (inl (refl, same))
  | inr old ↦
      elim (Bool-cases (
        rga_format_for_drm c.codes fb.fourcc xrgb_as_alpha == 0
        || bytes_per_pixel_for_drm c.codes fb.fourcc == 0)) [
          | inl bad ↦ rw (ensure_src_import, old, bad) (inr (refl, refl))
          | inr fine ↦ elim (Option-cases c.exported) [
            | inl failed ↦ rw (ensure_src_import, old, fine, failed) (inr (refl, refl))
            | inr (n, at) ↦
                rw (ensure_src_import, old, fine, at)
                  (import_exported-Settled c cpu_stage xrgb_as_alpha fb n)
          ]
        ]
]
