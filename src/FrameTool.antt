-- ===== src/FrameTool.antt =====
-- native/desktop-streamer/drm_rga_mpp_frame.c, which encodes one frame of the HDMI output into a file:
-- `find_connected_hdmi_fb`, `append_all` and `main`, with what each early return gives back. The
-- settings of its `configure_encoder` are left out, and so are libdrm's objects, which are freed on
-- every path, and the frames and packets of MPP.
pub mod Balance
mod Tests
use remy_desk.Base.{
  ℕ, zero, suc, Bool, true, false, not, ◌||◌, ◌==◌, Option, none, some, List, [], ◌∷◌, ◌++◌,
  if◌then◌else◌, take, drop, length,
}
use remy_desk.Import.{
  CaptureFb, fd, rga_handle, mpp_buffer, mpp_context, buffer_group, Action, took, gave,
}
use remy_desk.Import.Formats.{FormatCodes, rga_format_for_drm}
use remy_desk.Display.{ConnectorCodes, Connector, scan_connectors}
use remy_desk.Encode.{Packet, Get, nothing, refused, got}

-- What libdrm answers. The framebuffer is the one of drmModeGetFB2.
pub record HdmiCalls : Type 0 where
  pub codes : ConnectorCodes
  pub resources : Option (List (Option Connector))
  pub get_encoder : ℕ → Option ℕ
  pub get_crtc : ℕ → Option ℕ
  pub get_fb2 : ℕ → Option CaptureFb

-- `none` is -1.
unfoldable pub find_connected_hdmi_fb : HdmiCalls → Option CaptureFb
find_connected_hdmi_fb d = elim d.resources [
  | none ↦ none
  | some connectors ↦
      let crtc_id = scan_connectors d.codes d.get_encoder true connectors in
      if crtc_id == 0 then none else elim (d.get_crtc crtc_id) [
        | none ↦ none
        | some buffer_id ↦ if buffer_id == 0 then none else elim (d.get_fb2 buffer_id) [
          | none ↦ none
          | some fb ↦ if fb.handle == 0 then none else some fb
        ]
      ]
]

-- What a call of append_all ends with; `unanswered` where the list of answers is used up.
pub data Appended : Type 0 where
  all_written failed unanswered : Appended

-- write(2) answers with a number of bytes, or with an error, EINTR included.
unfoldable pub append_all : List ℕ → List (Option ℕ) → Appended × List ℕ
append_all [] answers = (all_written, [])
append_all (b ∷ left) [] = (unanswered, [])
append_all (b ∷ left) (none ∷ later) = (failed, [])
append_all (b ∷ left) (some n ∷ later) =
    let (end, written) = append_all (drop n (b ∷ left)) later in (end, take n (b ∷ left) ++ written)

-- What the libraries answer to `main`. `answers i` is what write(2) answers in round `i`.
pub record ToolCalls : Type 0 where
  pub codes : FormatCodes
  pub card_fd : Option ℕ
  pub hdmi : HdmiCalls
  pub exported : Option ℕ
  pub create_context : Option ℕ
  pub init_fails : Bool
  pub configure_fails : Bool
  pub get_group : Option ℕ
  pub get_buffer : Option ℕ
  pub get_fd_fails : Bool
  pub src_handle : ℕ
  pub dst_handle : ℕ
  pub check_fails : Bool
  pub copy_fails : Bool
  pub output_fd : Option ℕ
  pub put_frame_fails : Bool
  pub get_packet : ℕ → Get
  pub answers : ℕ → List (Option ℕ)

-- What the loop for a packet leaves: whether encode_get_packet was refused, the length of the packets
-- so far, and what was written.
pub record Fetched : Type 0 where
  pub was_refused : Bool
  pub total : ℕ
  pub written : List ℕ

abbrev fetched : Bool → ℕ → List ℕ → Fetched
fetched was_refused total written = record {
  was_refused = was_refused;
  total = total;
  written = written;
}

-- So many rounds of the loop, the first being number `i`. It ends behind a packet with bytes; the
-- result of append_all is not looked at.
unfoldable pub fetch : ToolCalls → ℕ → ℕ → Fetched
unfolding append_all
fetch c zero i = fetched false 0 []
fetch c (suc rounds) i =
    let later = fetch c rounds (suc i) in
    elim (c.get_packet i) [
      | nothing set ↦ later
      | refused ↦ fetched true 0 []
      | got p ↦ elim p.data_bytes [
        | [] ↦ later
        | b ∷ bytes ↦ fetched false (suc (length bytes)) (append_all (b ∷ bytes) (c.answers i)).1
      ]
    ]

-- The exit code, what was taken and given back, and what was written.
pub record Exit : Type 0 where
  pub exit_code : ℕ
  pub actions : List Action
  pub written : List ℕ

abbrev exit : ℕ → List Action → List ℕ → Exit
exit code l written = record { exit_code = code; actions = l; written = written }

abbrev pub behind : List Action → Exit → Exit
behind l x = record x { actions = l ++ x.actions }

abbrev pub drop_encoder : ℕ → ℕ → ℕ → List Action
drop_encoder buffer group context =
    gave (mpp_buffer buffer) ∷ gave (buffer_group group) ∷ gave (mpp_context context) ∷ []

abbrev pub drop_source : ℕ → ℕ → List Action
drop_source card source = gave (fd source) ∷ gave (fd card) ∷ []

abbrev pub handle_taken : ℕ → List Action
handle_taken h = if h == 0 then [] else took (rga_handle h) ∷ []

abbrev pub handle_given : ℕ → List Action
handle_given h = if h == 0 then [] else gave (rga_handle h) ∷ []

-- Behind the open of the output, but for its close.
unfoldable pub encode_to : ToolCalls → List Action → Exit
unfolding fetch
encode_to c drop =
    let f = fetch c 8 0 in
    if c.put_frame_fails
    then exit 1 drop []
    else if f.was_refused
    then exit 1 drop []
    else if f.total == 0
    then exit 1 drop f.written
    else exit 0 drop f.written

-- From the open of the output on. It is closed before the rest is given back.
unfoldable pub encode_file : ToolCalls → List Action → Exit
unfolding encode_to
encode_file c drop = elim c.output_fd [
  | none ↦ exit 1 drop []
  | some out ↦ behind (took (fd out) ∷ gave (fd out) ∷ []) (encode_to c drop)
]

-- The two imports and their releases.
unfoldable pub handles : ToolCalls → List Action
handles c =
    handle_taken c.src_handle
    ++ handle_taken c.dst_handle
    ++ handle_given c.src_handle
    ++ handle_given c.dst_handle

-- The imports and the copy. Behind the copy the handles and both descriptors go.
unfoldable pub convert_source : ToolCalls → ℕ → ℕ → List Action → Exit
unfolding encode_file
convert_source c card source drop =
    let early = exit 1 (handles c ++ drop ++ drop_source card source) [] in
    let converted = if c.copy_fails then exit 1 drop [] else encode_file c drop in
    if c.src_handle == 0 || c.dst_handle == 0
    then early
    else if c.check_fails
    then early
    else behind (handles c ++ drop_source card source) converted

-- The group and the buffer of the input.
unfoldable pub set_up_input : ToolCalls → ℕ → ℕ → ℕ → Exit
unfolding convert_source
set_up_input c card source context =
    let drop = gave (mpp_context context) ∷ drop_source card source in
    elim c.get_group [
      | none ↦ exit 1 drop []
      | some g ↦ behind (took (buffer_group g) ∷ []) (elim c.get_buffer [
        | none ↦ exit 1 (gave (buffer_group g) ∷ drop) []
        | some b ↦ behind (took (mpp_buffer b) ∷ []) (
            if c.get_fd_fails
            then exit 1 (drop_encoder b g context ++ drop_source card source) []
            else convert_source c card source (drop_encoder b g context))
      ])
    ]

-- The context, and its settings.
unfoldable pub set_up_context : ToolCalls → ℕ → ℕ → Exit
unfolding set_up_input
set_up_context c card source = elim c.create_context [
  | none ↦ exit 1 (drop_source card source) []
  | some m ↦ behind (took (mpp_context m) ∷ []) (
      if c.init_fails || c.configure_fails
      then exit 1 (gave (mpp_context m) ∷ drop_source card source) []
      else set_up_input c card source m)
]

unfoldable pub capture_frame : ToolCalls → Exit
unfolding set_up_context find_connected_hdmi_fb
capture_frame c = elim c.card_fd [
  | none ↦ exit 1 [] []
  | some card ↦ behind (took (fd card) ∷ []) (elim (find_connected_hdmi_fb c.hdmi) [
    | none ↦ exit 1 (gave (fd card) ∷ []) []
    | some fb ↦
        if rga_format_for_drm c.codes fb.fourcc false == 0
        then exit 1 (gave (fd card) ∷ []) []
        else elim c.exported [
          | none ↦ exit 1 (gave (fd card) ∷ []) []
          | some source ↦ behind (took (fd source) ∷ []) (set_up_context c card source)
        ]
  ])
]
