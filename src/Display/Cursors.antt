-- ===== src/Display/Cursors.antt =====
-- The cursor plane that is found, and its place on the screen.
use remy_desk.Base.{
  ℕ, suc, ◌-◌, ◌^◌, ◌≤◌, ◌<◌, ◌≡◌, ◌⊎◌, inl, inr, refl, Bool, true, Option, none, some, List, [],
  ◌∷◌, get_elem?, arith, Bool-cases, Option-cases,
}
use remy_desk.Base.Int.{ℤ, pos, negsuc, pos_part, neg_part}
use remy_desk.Cursor.{int_of_u32}
use remy_desk.Import.{CaptureFb}
use remy_desk.Import.Capture.{get_capture_fb, get_capture_fb_sound}
use remy_desk.Display.Planes.{
  Plane, PlaneCalls, PlaneCursor, no_plane_cursor, get_object_property, drm_prop_to_s32,
  is_candidate, cursor_of, scan_planes, find_cursor_plane,
}

-- A property of 64 bits holds a signed number in two's complement.
abbrev pub u64_of : ℤ → ℕ
u64_of (pos n) = n
u64_of (negsuc n) = 2 ^ 64 - 1 - n

-- A place of 32 bits on the screen that the kernel reports as a signed number of 64 bits is read
-- back as it is, also left of the screen and above it.
pub drm_prop_to_s32-u64_of :
    (place : ℤ)
    → pos_part place < 2 ^ 31
    → neg_part place ≤ 2 ^ 31
    → drm_prop_to_s32 (u64_of place) ≡ place
unfolding drm_prop_to_s32 int_of_u32
drm_prop_to_s32-u64_of (pos n) h k = ground arith
drm_prop_to_s32-u64_of (negsuc n) h k = ground arith

-- The plane that the cursor is taken from.
pub record Taken (c : PlaneCalls) (crtc_id : ℕ) (planes : List (Option Plane)) (out : PlaneCursor)
    : Type 0 where
  pub index : ℕ
  pub plane : Plane
  pub listed : get_elem? planes index ≡ some (some plane)
  pub on_crtc : plane.crtc_id ≡ crtc_id
  pub kind : get_object_property plane.props "type" ≡ some c.type_cursor
  pub shown : 0 < plane.fb_id
  pub exportable : 0 < out.fb.handle
  pub described : cursor_of plane out.fb ≡ out

Taken-later :
    {c : PlaneCalls} {crtc_id : ℕ} {planes : List (Option Plane)} {out : PlaneCursor}
    (o : Option Plane)
    → Taken c crtc_id planes out
    → Taken c crtc_id (o ∷ planes) out
Taken-later o t = record {
  index = suc t.index;
  plane = t.plane;
  listed = t.listed;
  on_crtc = t.on_crtc;
  kind = t.kind;
  shown = t.shown;
  exportable = t.exportable;
  described = t.described;
}

candidate_parts :
    (c : PlaneCalls) (crtc_id : ℕ) (p : Plane)
    → is_candidate c crtc_id p ≡ true
    → (get_object_property p.props "type" ≡ some c.type_cursor)
      × (p.crtc_id ≡ crtc_id)
      × (0 < p.fb_id)
unfolding is_candidate
candidate_parts c crtc_id p h = (ground arith, ground arith, ground arith)

step :
    {c : PlaneCalls} {crtc_id : ℕ} {planes : List (Option Plane)} {out : PlaneCursor}
    (o : Option Plane)
    → (out ≡ no_plane_cursor) ⊎ Taken c crtc_id planes out
    → (out ≡ no_plane_cursor) ⊎ Taken c crtc_id (o ∷ planes) out
step o (inl e) = inl e
step o (inr t) = inr (Taken-later o t)

Taken-cursor_of :
    (c : PlaneCalls) (crtc_id : ℕ) (try_fb2 : Bool) (p : Plane) (later : List (Option Plane))
    (fb : CaptureFb)
    → is_candidate c crtc_id p ≡ true
    → (get_capture_fb (c.get_fb p.fb_id) try_fb2).out ≡ some fb
    → Taken c crtc_id (some p ∷ later) (cursor_of p fb)
unfolding cursor_of
Taken-cursor_of c crtc_id try_fb2 p later fb fits e =
    let (kind, on_crtc, shown) = candidate_parts c crtc_id p fits in
    let (ok, _, _) = get_capture_fb_sound (c.get_fb p.fb_id) try_fb2 in
    record {
      index = 0;
      plane = p;
      listed = refl;
      on_crtc = on_crtc;
      kind = kind;
      shown = shown;
      exportable = ground arith;
      described = refl;
    }

scan_planes-Taken :
    (c : PlaneCalls) (crtc_id : ℕ) (try_fb2 : Bool) (planes : List (Option Plane))
    → ((scan_planes c crtc_id try_fb2 planes).0 ≡ no_plane_cursor)
      ⊎ Taken c crtc_id planes (scan_planes c crtc_id try_fb2 planes).0
unfolding scan_planes
scan_planes-Taken c crtc_id try_fb2 [] = inl refl
scan_planes-Taken c crtc_id try_fb2 (none ∷ later) =
    elim (scan_planes-Taken c crtc_id try_fb2 later) [
      | inl e ↦ inl e
      | inr t ↦ inr (Taken-later none t)
    ]
scan_planes-Taken c crtc_id try_fb2 (some p ∷ later) =
    let found = get_capture_fb (c.get_fb p.fb_id) try_fb2 in
    elim (Bool-cases (is_candidate c crtc_id p)) [
      | inr other ↦ rw other (step _ (scan_planes-Taken c crtc_id try_fb2 later))
      | inl fits ↦ elim (Option-cases found.out) [
        | inl gone ↦ rw (fits, gone) (step _ (scan_planes-Taken c crtc_id found.try_fb2 later))
        | inr (fb, e) ↦ rw (fits, e) (inr (Taken-cursor_of c crtc_id try_fb2 p later fb fits e))
      ]
    ]

-- The state that `find_cursor_plane` gives is empty, or describes a cursor plane on the CRTC with a
-- framebuffer that can be exported.
pub find_cursor_plane-Taken :
    (c : PlaneCalls) (crtc_id : ℕ) (try_fb2 behind : Bool) (planes : List (Option Plane))
    (out : PlaneCursor)
    → find_cursor_plane c crtc_id try_fb2 (some planes) ≡ some (out, behind)
    → (out ≡ no_plane_cursor) ⊎ Taken c crtc_id planes out
unfolding find_cursor_plane
find_cursor_plane-Taken c crtc_id try_fb2 behind planes out e =
    let same : (scan_planes c crtc_id try_fb2 planes).0 ≡ out = ground arith in
    rw same at (scan_planes-Taken c crtc_id try_fb2 planes)
