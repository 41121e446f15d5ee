-- ===== src/Import/Capture.antt =====
-- `get_capture_fb`: what is known of a framebuffer, by GETFB2 or the older GETFB.
use remy_desk.Base.{
  ℕ, ◌≡◌, Bool, true, false, not, ◌||◌, ◌&&◌, ◌==◌, Option, none, some, if◌then◌else◌, arith,
}
use remy_desk.Import.{CaptureFb}
use remy_desk.Import.Formats.{FormatCodes, legacy_fourcc_for_fb}
use remy_desk.Import.Source.{is_some}

-- drmModeFB
pub record LegacyFb : Type 0 where
  pub fb_id : ℕ
  pub width : ℕ
  pub height : ℕ
  pub pitch : ℕ
  pub bpp : ℕ
  pub depth : ℕ
  pub handle : ℕ

-- The codes, DRM_FORMAT_MOD_INVALID, and what drmModeGetFB2 and drmModeGetFB answer. A drmModeFB2 has
-- the fields of `CaptureFb`.
pub record FbCalls : Type 0 where
  pub codes : FormatCodes
  pub mod_invalid : ℕ
  pub get_fb2 : Option CaptureFb
  pub get_fb : Option LegacyFb

-- `try_fb2` behind the call, the framebuffer where it returns 0, and the objects of libdrm that were
-- given to the call and freed.
pub record Captured : Type 0 where
  pub try_fb2 : Bool
  pub out : Option CaptureFb
  pub objects : ℕ
  pub freed : ℕ

abbrev captured : Bool → Option CaptureFb → ℕ → ℕ → Captured
captured try_fb2 out objects freed = record {
  try_fb2 = try_fb2;
  out = out;
  objects = objects;
  freed = freed;
}

-- The part behind `try_fb2 = 0`.
unfoldable pub get_legacy_fb : FbCalls → Captured
get_legacy_fb c = elim c.get_fb [
  | none ↦ captured false none 0 0
  | some fb ↦
      let fourcc = legacy_fourcc_for_fb c.codes fb.bpp fb.depth in
      let out : CaptureFb = record {
        fb_id = fb.fb_id;
        width = fb.width;
        height = fb.height;
        fourcc = fourcc;
        pitch = fb.pitch;
        modifier = c.mod_invalid;
        handle = fb.handle;
      } in
      if fb.handle == 0 || fourcc == 0
      then captured false none 1 1
      else captured false (some out) 1 1
]

unfoldable pub get_capture_fb : FbCalls → Bool → Captured
unfolding get_legacy_fb
get_capture_fb c try_fb2 = elim c.get_fb2 [
  | none ↦ get_legacy_fb c
  | some fb2 ↦
      if try_fb2
      then (if fb2.handle == 0 then captured true none 1 1 else captured true (some fb2) 1 1)
      else get_legacy_fb c
]

-- A framebuffer with a handle, or none.
abbrev pub is_exportable : Option CaptureFb → Bool
is_exportable none = true
is_exportable (some fb) = not (fb.handle == 0)

-- A framebuffer that `get_capture_fb` finds has a handle, every object of libdrm is freed once on
-- each path, and GETFB2 is tried again exactly where it was tried and answered.
pub get_capture_fb_sound :
    (c : FbCalls) (try_fb2 : Bool)
    → let found = get_capture_fb c try_fb2 in
      (is_exportable found.out ≡ true)
      × (found.freed ≡ found.objects)
      × (found.try_fb2 ≡ (try_fb2 && is_some c.get_fb2))
unfolding get_capture_fb get_legacy_fb
get_capture_fb_sound c try_fb2 = (ground arith, ground arith, ground arith)
