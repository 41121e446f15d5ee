-- ===== src/Display.antt =====
-- The search for the display, of native/desktop-streamer/drm_rga_mpp_stream.c: from
-- `find_encoder_for_connector` to `wait_for_crtc_vblank`. What libdrm answers is an argument; an
-- object that it does not give is `none`. Its objects are freed on every path, which is left out.
pub mod Choice
pub mod Planes
pub mod Cursors
mod Tests
use Prim.Native.String.{String}
use remy_desk.Base.{
  ℕ, ◌+◌, ◌*◌, ◌^◌, Bool, true, false, ◌&&◌, ◌||◌, not, ◌==◌, ltb, Option, none, some, List, [],
  ◌∷◌, if◌then◌else◌,
}
use remy_desk.Base.Int.{ℤ, pos, negsuc}
use remy_desk.Import.{CaptureFb}
use remy_desk.Import.Capture.{FbCalls, Captured, get_capture_fb}

-- drmModeConnector, with whether it is connected.
pub record Connector : Type 0 where
  pub connector_type : ℕ
  pub connected : Bool
  pub encoder_id : ℕ
  pub encoders : List ℕ

-- DRM_MODE_CONNECTOR_HDMIA and DRM_MODE_CONNECTOR_HDMIB
pub record ConnectorCodes : Type 0 where
  pub hdmia : ℕ
  pub hdmib : ℕ

-- `get_encoder` gives the CRTC of an encoder.
unfoldable pub first_encoder : (ℕ → Option ℕ) → List ℕ → Option ℕ
first_encoder get_encoder [] = none
first_encoder get_encoder (e ∷ later) = elim (get_encoder e) [
  | none ↦ first_encoder get_encoder later
  | some crtc ↦ some crtc
]

unfoldable pub find_encoder_for_connector : (ℕ → Option ℕ) → Connector → Option ℕ
unfolding first_encoder
find_encoder_for_connector get_encoder c =
    if not (c.encoder_id == 0)
    then get_encoder c.encoder_id
    else first_encoder get_encoder c.encoders

unfoldable pub is_hdmi : ConnectorCodes → Connector → Bool
is_hdmi codes c = c.connector_type == codes.hdmia || c.connector_type == codes.hdmib

-- The body of the inner loop: the CRTC that the connector gives in a pass, or 0.
unfoldable pub crtc_of : ConnectorCodes → (ℕ → Option ℕ) → Bool → Connector → ℕ
crtc_of codes get_encoder hdmi_pass c =
    if (if hdmi_pass then is_hdmi codes c else not (is_hdmi codes c)) && c.connected
    then elim (find_encoder_for_connector get_encoder c) [ none ↦ 0 | some crtc ↦ crtc ]
    else 0

-- One pass over the connectors, which stops at the first CRTC.
unfoldable pub scan_connectors :
    ConnectorCodes → (ℕ → Option ℕ) → Bool → List (Option Connector) → ℕ
scan_connectors codes get_encoder hdmi_pass [] = 0
scan_connectors codes get_encoder hdmi_pass (none ∷ later) =
    scan_connectors codes get_encoder hdmi_pass later
scan_connectors codes get_encoder hdmi_pass (some c ∷ later) =
    let rest = scan_connectors codes get_encoder hdmi_pass later in
    let crtc = crtc_of codes get_encoder hdmi_pass c in if crtc == 0 then rest else crtc

unfoldable pub choose_crtc : ConnectorCodes → (ℕ → Option ℕ) → List (Option Connector) → ℕ
choose_crtc codes get_encoder connectors =
    let hdmi = scan_connectors codes get_encoder true connectors in
    let others = scan_connectors codes get_encoder false connectors in
    if hdmi == 0 then others else hdmi

-- What libdrm answers: the connectors, the framebuffer of a CRTC, and what is known of a framebuffer.
pub record DrmCalls : Type 0 where
  pub codes : ConnectorCodes
  pub resources : Option (List (Option Connector))
  pub get_encoder : ℕ → Option ℕ
  pub get_crtc : ℕ → Option ℕ
  pub get_fb : ℕ → FbCalls

-- `struct capture_fb` with its CRTC.
pub record Display : Type 0 where
  pub fb : CaptureFb
  pub crtc_id : ℕ

abbrev with_crtc : ℕ → Option CaptureFb → Option Display
with_crtc crtc none = none
with_crtc crtc (some fb) = some (record { fb = fb; crtc_id = crtc })

-- The display where it returns 0, and `try_fb2` behind the call.
unfoldable pub get_crtc_capture_fb : DrmCalls → Bool → ℕ → Option Display × Bool
get_crtc_capture_fb d try_fb2 crtc_id = elim (d.get_crtc crtc_id) [
  | none ↦ (none, try_fb2)
  | some buffer_id ↦
      let found = get_capture_fb (d.get_fb buffer_id) try_fb2 in
      if buffer_id == 0 then (none, try_fb2) else (with_crtc crtc_id found.out, found.try_fb2)
]

unfoldable pub find_connected_display_fb : DrmCalls → Bool → Option Display × Bool
unfolding get_crtc_capture_fb choose_crtc
find_connected_display_fb d try_fb2 = elim d.resources [
  | none ↦ (none, try_fb2)
  | some connectors ↦
      let crtc_id = choose_crtc d.codes d.get_encoder connectors in
      if crtc_id == 0 then (none, try_fb2) else get_crtc_capture_fb d try_fb2 crtc_id
]

-- The loop of `crtc_index_for_id`, from index `i` on.
unfoldable pub index_from : List ℕ → ℕ → ℕ → ℤ
index_from [] crtc_id i = negsuc 0
index_from (c ∷ later) crtc_id i =
    let rest = index_from later crtc_id (i + 1) in if c == crtc_id then pos i else rest

unfoldable pub crtc_index_for_id : Option (List ℕ) → ℕ → ℤ
unfolding index_from
crtc_index_for_id none crtc_id = negsuc 0
crtc_index_for_id (some crtcs) crtc_id = index_from crtcs crtc_id 0

-- The flags of libdrm, where `high_shift` is `none` in a build without
-- DRM_VBLANK_HIGH_CRTC_SHIFT.
pub record VblankCodes : Type 0 where
  pub relative : ℕ
  pub secondary : ℕ
  pub high_shift : Option ℕ

-- The request type of `wait_for_crtc_vblank`, or `none` where it returns -1 without a call. The flags
-- are different bits, so that `|` adds them.
unfoldable pub vblank_request : VblankCodes → ℤ → Option ℕ
vblank_request v (negsuc n) = none
vblank_request v (pos i) = if i == 1 then some (v.relative + v.secondary) else elim v.high_shift [
  | none ↦ some v.relative
  | some shift ↦ if ltb 1 i then some (v.relative + i * 2 ^ shift) else some v.relative
]
