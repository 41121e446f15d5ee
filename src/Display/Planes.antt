-- ===== src/Display/Planes.antt =====
-- Planes and their properties: `get_object_property`, `drm_prop_to_s32`, `find_cursor_plane`,
-- `warn_active_overlay_planes` of native/desktop-streamer/drm_rga_mpp_stream.c.
use Prim.Native.String.{String}
use remy_desk.Base.{
  ℕ, ◌%◌, ◌^◌, Bool, true, false, ◌&&◌, ◌||◌, not, ◌==◌, Option, none, some, List, [], ◌∷◌,
  if◌then◌else◌,
}
use remy_desk.Base.Int.{ℤ, pos}
use remy_desk.Base.Text.{same}
use remy_desk.Cursor.{CursorState, int_of_u32}
use remy_desk.Import.{CaptureFb}
use remy_desk.Import.Source.{no_fb}
use remy_desk.Import.Capture.{FbCalls, get_capture_fb}

-- The properties of an object in their order, each with its name, where libdrm gives it, and its
-- value; `none` where libdrm gives no list.
abbrev pub Properties : Type 0
Properties = Option (List (Option String × ℕ))

unfoldable pub find_property : List (Option String × ℕ) → String → Option ℕ
find_property [] name = none
find_property ((none, value) ∷ later) name = find_property later name
find_property ((some n, value) ∷ later) name =
    let rest = find_property later name in if same n name then some value else rest

-- `none` is -1, which leaves the caller's variable.
unfoldable pub get_object_property : Properties → String → Option ℕ
unfolding find_property
get_object_property none name = none
get_object_property (some props) name = find_property props name

abbrev pub or_else : Option ℕ → ℕ → ℕ
or_else none default = default
or_else (some v) default = v

unfoldable pub drm_prop_to_s32 : ℕ → ℤ
drm_prop_to_s32 value = int_of_u32 (value % 2 ^ 32)

pub record Plane : Type 0 where
  pub plane_id : ℕ
  pub crtc_id : ℕ
  pub fb_id : ℕ
  pub props : Properties

-- DRM_PLANE_TYPE_CURSOR, and what is known of a framebuffer.
pub record PlaneCalls : Type 0 where
  pub type_cursor : ℕ
  pub get_fb : ℕ → FbCalls

-- `struct cursor_state`: the geometry, and what else it holds of the plane and its framebuffer.
pub record PlaneCursor : Type 0 where
  pub state : CursorState
  pub plane_id : ℕ
  pub fb : CaptureFb

abbrev pub no_plane_cursor : PlaneCursor
no_plane_cursor = record {
  state = record {
    active = false;
    width = 0;
    height = 0;
    x = pos 0;
    y = pos 0;
    w = pos 0;
    h = pos 0;
  };
  plane_id = 0;
  fb = no_fb;
}

abbrev pub holds : Option ℕ → ℕ → Bool
holds none v = false
holds (some w) v = w == v

-- A cursor plane on the CRTC with a framebuffer.
unfoldable pub is_candidate : PlaneCalls → ℕ → Plane → Bool
is_candidate c crtc_id p =
    holds (get_object_property p.props "type") c.type_cursor
    && p.crtc_id == crtc_id
    && not (p.fb_id == 0)

-- crtc_w ? (int32_t)crtc_w : (int32_t)fb.width
unfoldable pub plane_size : Option ℕ → ℕ → ℤ
plane_size property image =
    let size = or_else property image in
    if size == 0 then int_of_u32 (image % 2 ^ 32) else int_of_u32 (size % 2 ^ 32)

unfoldable pub cursor_of : Plane → CaptureFb → PlaneCursor
cursor_of p fb = record {
  state = record {
    active = true;
    width = fb.width;
    height = fb.height;
    x = drm_prop_to_s32 (or_else (get_object_property p.props "CRTC_X") 0);
    y = drm_prop_to_s32 (or_else (get_object_property p.props "CRTC_Y") 0);
    w = plane_size (get_object_property p.props "CRTC_W") fb.width;
    h = plane_size (get_object_property p.props "CRTC_H") fb.height;
  };
  plane_id = p.plane_id;
  fb = fb;
}

-- The loop, with `try_fb2` before it; the result holds `try_fb2` behind it.
unfoldable pub scan_planes : PlaneCalls → ℕ → Bool → List (Option Plane) → PlaneCursor × Bool
scan_planes c crtc_id try_fb2 [] = (no_plane_cursor, try_fb2)
scan_planes c crtc_id try_fb2 (none ∷ later) = scan_planes c crtc_id try_fb2 later
scan_planes c crtc_id try_fb2 (some p ∷ later) =
    let unasked = scan_planes c crtc_id try_fb2 later in
    let found = get_capture_fb (c.get_fb p.fb_id) try_fb2 in
    if is_candidate c crtc_id p
    then elim found.out [
      | none ↦ scan_planes c crtc_id found.try_fb2 later
      | some fb ↦ (cursor_of p fb, found.try_fb2)
    ]
    else unasked

-- `none` is -1.
unfoldable pub find_cursor_plane :
    PlaneCalls → ℕ → Bool → Option (List (Option Plane)) → Option (PlaneCursor × Bool)
unfolding scan_planes
find_cursor_plane c crtc_id try_fb2 none = none
find_cursor_plane c crtc_id try_fb2 (some planes) = some (scan_planes c crtc_id try_fb2 planes)

-- The loop of `warn_active_overlay_planes`: the plane that it warns of.
unfoldable pub find_overlay : ℕ → ℕ → ℕ → List (Option Plane) → Option ℕ
find_overlay type_cursor crtc_id primary [] = none
find_overlay type_cursor crtc_id primary (none ∷ later) =
    find_overlay type_cursor crtc_id primary later
find_overlay type_cursor crtc_id primary (some p ∷ later) =
    let rest = find_overlay type_cursor crtc_id primary later in
    if not (p.crtc_id == crtc_id) || p.fb_id == 0 || p.fb_id == primary
    then rest
    else if or_else (get_object_property p.props "type") 0 == type_cursor
    then rest
    else some p.plane_id

-- The plane that is reported, and `warned_overlay` behind the call.
unfoldable pub warn_active_overlay_planes :
    Bool → Option (List (Option Plane)) → ℕ → ℕ → ℕ → Option ℕ × Bool
unfolding find_overlay
warn_active_overlay_planes true planes type_cursor crtc_id primary = (none, true)
warn_active_overlay_planes false none type_cursor crtc_id primary = (none, false)
warn_active_overlay_planes false (some planes) type_cursor crtc_id primary =
    elim (find_overlay type_cursor crtc_id primary planes) [
      | none ↦ (none, false)
      | some id ↦ (some id, true)
    ]
