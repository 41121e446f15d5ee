-- ===== src/Display/Tests.antt =====
-- A board with an eDP panel and an HDMI screen, and its cursor plane.
use remy_desk.Base.{ℕ, zero, suc, ◌≡◌, ◌⊎◌, refl, true, false, Option, none, some, List, [], ◌∷◌}
use remy_desk.Base.Int.{negsuc}
use remy_desk.Cursor.{int_of_u32}
use remy_desk.Import.Formats.{FormatCodes}
use remy_desk.Import.Capture.{get_capture_fb}
use remy_desk.Display.{
  Connector, ConnectorCodes, first_encoder, find_encoder_for_connector, is_hdmi, crtc_of,
  scan_connectors, choose_crtc,
}
use remy_desk.Display.Choice.{First, AllPassed, choose_crtc-First}
use remy_desk.Display.Planes.{
  Plane, PlaneCalls, find_property, get_object_property, drm_prop_to_s32, is_candidate, cursor_of,
  scan_planes,
}
use remy_desk.Display.Cursors.{u64_of}

abbrev codes : ConnectorCodes
codes = record { hdmia = 11; hdmib = 12 }

-- Encoder 5 stands on CRTC 50, encoder 6 on CRTC 60.
abbrev get_encoder : ℕ → Option ℕ
get_encoder (suc (suc (suc (suc (suc zero))))) = some 50
get_encoder (suc (suc (suc (suc (suc (suc zero)))))) = some 60
get_encoder n = none

abbrev panel_and_screen : List (Option Connector)
panel_and_screen =
    some (record { connector_type = 14; connected = true; encoder_id = 5; encoders = [] })
    ∷ some (record { connector_type = 11; connected = true; encoder_id = 0; encoders = 9 ∷ 6 ∷ [] })
    ∷ []

screen_first : choose_crtc codes get_encoder panel_and_screen ≡ 60
unfolding choose_crtc scan_connectors crtc_of is_hdmi find_encoder_for_connector first_encoder
screen_first = refl

choose_crtc-First_example :
    First codes get_encoder true panel_and_screen (choose_crtc codes get_encoder panel_and_screen)
    ⊎ (AllPassed codes get_encoder true panel_and_screen
        × First codes get_encoder false panel_and_screen
            (choose_crtc codes get_encoder panel_and_screen))
    ⊎ (AllPassed codes get_encoder true panel_and_screen
        × AllPassed codes get_encoder false panel_and_screen
        × (choose_crtc codes get_encoder panel_and_screen ≡ 0))
choose_crtc-First_example = choose_crtc-First codes get_encoder panel_and_screen

abbrev fourccs : FormatCodes
fourccs = record {
  xrgb8888 = 1;
  argb8888 = 2;
  abgr8888 = 3;
  xbgr8888 = 4;
  rgb888 = 5;
  bgr888 = 6;
  rk_bgra_8888 = 11;
  rk_bgrx_8888 = 12;
  rk_rgba_8888 = 13;
  rk_rgbx_8888 = 14;
  rk_rgb_888 = 15;
  rk_bgr_888 = 16;
}

abbrev calls : PlaneCalls
calls = record {
  type_cursor = 2;
  get_fb = λ id. record {
    codes = fourccs;
    mod_invalid = 0;
    get_fb2 = some (record {
      fb_id = id;
      width = 64;
      height = 64;
      fourcc = 2;
      pitch = 256;
      modifier = 0;
      handle = 8;
    });
    get_fb = none;
  };
}

-- A primary plane, and a cursor three pixels left of the screen.
abbrev planes : List (Option Plane)
planes =
    some (record { plane_id = 1; crtc_id = 60; fb_id = 40; props = some ((some "type", 1) ∷ []) })
    ∷ none
    ∷ some (record {
      plane_id = 3;
      crtc_id = 60;
      fb_id = 41;
      props = some ((some "CRTC_X", u64_of (negsuc 2)) ∷ (none, 7) ∷ (some "type", 2) ∷ []);
    })
    ∷ []

cursor_left_of_screen : (scan_planes calls 60 true planes).0.state.x ≡ negsuc 2
unfolding scan_planes is_candidate get_object_property find_property get_capture_fb cursor_of
    drm_prop_to_s32 int_of_u32
cursor_left_of_screen = refl
