-- ===== src/Import/Tests.antt =====
-- Imports of one framebuffer and of a staging buffer.
use remy_desk.Base.Int.{negsuc, pos}
use remy_desk.Import.Capture.{FbCalls, get_legacy_fb, get_capture_fb}
use remy_desk.Import.EncodeBuffers.{BufferCalls}
use remy_desk.Base.{List, ◌≡◌, refl, Bool, true, false, none, some, [], ◌∷◌}
use remy_desk.Import.{
  CaptureFb, Resource, fd, rga_handle, took, gave, wrap_rga_dma_fd, release_rga_handle, give_fd,
  give_map,
}
use remy_desk.Import.Formats.{
  FormatCodes, legacy_fourcc_for_fb, rga_format_for_drm, bytes_per_pixel_for_drm,
}
use remy_desk.Import.Source.{
  SrcImport, no_import, ImportCalls, ensure_src_import, import_exported, map_source,
  release_src_import, is_current,
}
use remy_desk.Import.Staging.{DumbCalls}

abbrev codes : FormatCodes
codes = record {
  xrgb8888 = 1;
  argb8888 = 2;
  abgr8888 = 3;
  xbgr8888 = 4;
  rgb888 = 5;
  bgr888 = 6;
  rk_bgra_8888 = 11;
  rk_bgrx_8888 = 12;
  rk_rgba_8888 = 13;
  rk_rgbx_8888 = 14;
  rk_rgb_888 = 15;
  rk_bgr_888 = 16;
}

abbrev screen : CaptureFb
screen = record {
  fb_id = 40;
  width = 8;
  height = 4;
  fourcc = 1;
  pitch = 32;
  modifier = 0;
  handle = 3;
}

-- mmap fails.
abbrev calls : ImportCalls
calls = record {
  handle_api = true;
  codes = codes;
  exported = some 7;
  imported = 5;
  mapped_at = none;
}

abbrev imported_before : SrcImport
imported_before = record no_import { dma_fd = some 6; rga_handle = 4 }

failed_mapping :
    (ensure_src_import calls true false imported_before screen).2
    ≡ gave (rga_handle 4)
      ∷ gave (fd 6)
      ∷ took (fd 7)
      ∷ took (rga_handle 5)
      ∷ gave (rga_handle 5)
      ∷ gave (fd 7)
      ∷ []
unfolding ensure_src_import import_exported map_source release_src_import release_rga_handle give_fd
    give_map wrap_rga_dma_fd is_current rga_format_for_drm bytes_per_pixel_for_drm
failed_mapping = refl

abbrev is_fd : Resource → Bool
is_fd (fd n) = true
is_fd _ = false

abbrev dumb : DumbCalls
dumb = record {
  handle_api = true;
  created = some (record { handle = 9; pitch = 32; size = 128 });
  exported = some 8;
  imported = 5;
  map_dumb_fails = false;
  mapped_at = some 4096;
}

abbrev fb_calls : FbCalls
fb_calls = record {
  codes = codes;
  mod_invalid = 99;
  get_fb2 = none;
  get_fb =
      some (record {
        fb_id = 40;
        width = 8;
        height = 4;
        pitch = 32;
        bpp = 32;
        depth = 24;
        handle = 3;
      });
}

legacy_screen : (get_capture_fb fb_calls true).out ≡ some (record screen { modifier = 99 })
unfolding get_capture_fb get_legacy_fb legacy_fourcc_for_fb
legacy_screen = refl

-- The second buffer has no descriptor.
abbrev two_buffers : List BufferCalls
two_buffers =
    record { get = some 1; get_fd = pos 10; imported = 6 }
    ∷ record { get = some 2; get_fd = negsuc 0; imported = 7 }
    ∷ []
