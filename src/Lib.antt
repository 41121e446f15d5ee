-- ===== src/Lib.antt =====
-- RemyDesk: the H.264 desktop stream of native/desktop-streamer/drm_rga_mpp_stream.c, the part of
-- native/webrtc-publisher/main.go that consumes it, and parts of the control server in src/core.
--
-- The streamer captures the scanned-out framebuffer, blends the cursor into it, converts it with the
-- RGA and encodes it with MPP. The packets go to the publisher through a ring in shared memory, or
-- to a descriptor. One thread of the streamer writes, one of the publisher reads; a futex wakes the
-- reader. The control server runs curl and nmcli as child processes, one download after the other, and
-- keeps the files of a storage directory.
--
-- The files, each with its child modules, and the functions that they model:
--   Ring      struct remydesk_ring_header, stream_writer_write with a ring, stream_writer_notify;
--             Ring/Reader: consumeSharedRing and openSharedRing of main.go; Ring/System: both sides
--             as a step relation; Ring/Init: stream_writer_init, stream_writer_close;
--             Ring/Bitrate: the bitrate mailbox and the adaptation in main
--   Output    write_all
--   Writer    stream_writer_write, with and without a ring, as encode_one_frame calls it
--   Encode    encode_one_frame
--   AnnexB    annexb_has_vcl
--   Import    ensure_src_import, ensure_cursor_import, create_dumb_rgb_buffer, their releases,
--             wrap_rga_dma_fd; Import/Formats: rga_format_for_drm, bytes_per_pixel_for_drm;
--             Import/Capture: get_capture_fb; Import/EncodeBuffers: init_encode_buffers and
--             release_encode_buffers
--   Stage     copy_fb_to_rgb_stage
--   Cursor    the rectangles of blend_cursor_with_rga
--   Options   env_long_range, parse_u32_arg, parse_h264_profile_arg; Options/Command: the options of
--             main and the tests behind them
--   Session   main behind the options: Session/Setup: the set-up with its early returns;
--             Session/Round: a round of the capture loop; Session/Run: the loop and the teardown.
--             Its proofs: Held, Accounts and Balance (what is taken and given back), Whole (a whole
--             run), Frames (what is written), Same, Limits and Ready (buffers and counts), Mode (what
--             is shown), Progress (a run without a failure),
--             Descriptors (what the writer holds)
--   FrameTool native/desktop-streamer/drm_rga_mpp_frame.c: find_connected_hdmi_fb, append_all, main
--   Display   find_connected_display_fb, crtc_index_for_id, the request of wait_for_crtc_vblank;
--             Display/Planes: find_cursor_plane, warn_active_overlay_planes, get_object_property
--   Encoder   configure_encoder, update_encoder_bitrate
--   Convert   rga_convert_frame
--   Pacing    add_ns, timespec_diff_ns, timespec_cmp, the dynamic frame rate and the deadline in main
--   Download  src/core/download_manager.cpp. Download/Name: percentDecode, validUtf8, validateUrl,
--             filenameFromUrl; Download/Target: uniqueTarget; Download/Queue: enqueue, list, work,
--             download
--   Files     src/core/file_service.cpp: resolve, createDirectory, remove, move, writeUpload;
--             Files/Layout: boundedNumber, readDesktopLayout, writeDesktopLayout
--   Http      src/core/http_server.cpp: authorized, mimeType; Http/Host: requestHost; Http/Upload: the
--             route /api/upload
--   Network   src/core/network_manager.cpp. Network/Terse: splitTerse; Network/Connect: connectWifi;
--             Network/Scan: the list of networks of scan; Network/Profiles: connections, ipv4,
--             setIpv4; Network/Hotspot: hotspotSsid, startHotspot, stopHotspot, maybeStartHotspot
--   Process   src/core/process.cpp: the loop of runCommand
--   Base      numbers, lists, integers and bytes that the parts share
--
-- State is passed explicitly. What the kernel, librga and MPP answer is an argument of the functions
-- that call them: a list of answers, a function from the number of a call, or a record with a field
-- for each call. Where such a list can be used up, the result says so (`starved`, `blocked`), and no
-- theorem reads that as a success. Loops of the source recurse on a structure: `drain` on the 128
-- rounds that the source allows, `carry` on the number of whole seconds, `write_loop` and
-- `wait_for_room` on the answers, `scan` on the positions, `run_loop` on the rounds. `valid_from` has
-- as much fuel as there are bytes, and `search_target` one round more than the directory has files;
-- both are enough, as is proved with their results.
--
-- Unsigned fields of the ring wrap as written (`% 2 ^ 32`, `% 2 ^ 64`). The step relation takes the
-- atomics to be sequentially consistent and fewer than 2^64 packets to be sent. Times are numbers,
-- and `int`, `long` and `int64_t` are taken not to overflow.
--
-- A run of the streamer (Session) takes a list of rounds, each with all that the libraries answer in
-- it; behind the last one `stop_requested` is set. The consumer's store of a bitrate is part of a
-- round, its other stores are in the polls of the writer's calls.
--
-- Not modelled: the remaining diagnostic tools beside the streamer; the rest of the publisher; of the
-- control server the routes that only pass arguments on, the configuration, the probes, the service
-- units, the note, the listing of a directory and the report on the network; the web client, scripts
-- and packaging.
pub mod Base
pub mod Ring
pub mod Cursor
pub mod Output
pub mod Session
pub mod Http
pub mod Stage
pub mod Options
pub mod Pacing
pub mod AnnexB
pub mod Import
pub mod Encode
pub mod Convert
pub mod Encoder
pub mod Display
pub mod Writer
pub mod Download
pub mod Files
pub mod Network
pub mod Process
pub mod FrameTool
