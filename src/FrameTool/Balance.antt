-- ===== src/FrameTool/Balance.antt =====
-- What a call of the tool leaves open, and what its exit code says.
use remy_desk.Base.{
  ℕ, ◌+◌, ◌≡◌, refl, inl, inr, Bool, false, ◌||◌, ◌==◌, List, [], ◌∷◌, ◌++◌, arith, Bool-cases,
  Option-cases,
}
use remy_desk.Import.{Resource, fd, mpp_context, Action, took, gave}
use remy_desk.Import.Formats.{rga_format_for_drm}
use remy_desk.Import.Balance.{taken, given, taken-append, given-append}
use remy_desk.FrameTool.{
  ToolCalls, Exit, behind, drop_encoder, drop_source, handles, fetch, encode_to,
  find_connected_hdmi_fb, encode_file, convert_source, set_up_input, set_up_context, capture_frame,
}

module _ (f : Resource → Bool) where
  -- With so much in hand, all of it and what was taken is given back.
  Settles : ℕ → Exit → Type 0
  Settles n x = n + taken f x.actions ≡ given f x.actions

  behind-Settles :
      (l : List Action) (x : Exit) (n k : ℕ)
      → given f l + k ≡ n + taken f l
      → Settles k x
      → Settles n (behind l x)
  unfolding Settles
  behind-Settles l x n k h s =
      let t = taken-append f l x.actions in let g = given-append f l x.actions in omega arith

  -- A part that gives back what is in hand, and nothing else.
  plain-Settles :
      (x : Exit) (l : List Action) → x.actions ≡ l → taken f l ≡ 0 → Settles (given f l) x
  unfolding Settles
  plain-Settles x l same quiet = rw same (omega arith)

  encode_to-actions : (c : ToolCalls) (drop : List Action) → (encode_to c drop).actions ≡ drop
  unfolding encode_to
  encode_to-actions c drop = elim (Bool-cases c.put_frame_fails) [
    | inl refused ↦ rw (encode_to, refused) refl
    | inr sent ↦ elim (Bool-cases (fetch c 8 0).was_refused) [
      | inl none_came ↦ rw (encode_to, sent, none_came) refl
      | inr came ↦ elim (Bool-cases ((fetch c 8 0).total == 0)) [
        | inl empty ↦ rw (encode_to, sent, came, empty) refl
        | inr full ↦ rw (encode_to, sent, came, full) refl
      ]
    ]
  ]

  encode_file-Settles :
      (c : ToolCalls) (drop : List Action)
      → taken f drop ≡ 0
      → Settles (given f drop) (encode_file c drop)
  unfolding encode_file taken given Settles
  encode_file-Settles c drop quiet = elim (Option-cases c.output_fd) [
    | inl no_output ↦ rw (encode_file, no_output) (omega arith)
    | inr (out, opened) ↦
        let ends = plain-Settles (encode_to c drop) drop (encode_to-actions c drop) quiet in
        rw (encode_file, opened)
          (behind-Settles (took (fd out) ∷ gave (fd out) ∷ []) (encode_to c drop) (given f drop)
            (given f drop) (omega arith) ends)
  ]

  handles_even : (c : ToolCalls) → taken f (handles c) ≡ given f (handles c)
  unfolding handles taken given
  handles_even c = ground arith

  early_exit :
      (c : ToolCalls) (card source : ℕ) (drop : List Action)
      → taken f drop ≡ 0
      → Settles (given f drop + given f (drop_source card source)) (record {
        exit_code = 1;
        actions = handles c ++ drop ++ drop_source card source;
        written = [];
      })
  unfolding Settles taken given
  early_exit c card source drop quiet =
      let even = handles_even c in
      let early = taken-append f (handles c ++ drop) (drop_source card source) in
      let early' = given-append f (handles c ++ drop) (drop_source card source) in
      let first = taken-append f (handles c) drop in
      let first' = given-append f (handles c) drop in omega arith

  convert_source-Settles :
      (c : ToolCalls) (card source : ℕ) (drop : List Action)
      → taken f drop ≡ 0
      → Settles
          (given f drop + given f (drop_source card source))
          (convert_source c card source drop)
  unfolding convert_source taken given handles
  convert_source-Settles c card source drop quiet =
      let even = handles_even c in
      let late = taken-append f (handles c) (drop_source card source) in
      let late' = given-append f (handles c) (drop_source card source) in
      let gone = handles c ++ drop_source card source in
      let hand : given f gone + given f drop
          ≡ given f drop + given f (drop_source card source) + taken f gone =
        omega arith in
      let rest = encode_file-Settles c drop quiet in
      elim (Bool-cases (c.src_handle == 0 || c.dst_handle == 0)) [
        | inl no_handle ↦ rw (convert_source, no_handle) (early_exit c card source drop quiet)
        | inr handled ↦ elim (Bool-cases c.check_fails) [
          | inl bad ↦ rw (convert_source, handled, bad) (early_exit c card source drop quiet)
          | inr fine ↦ elim (Bool-cases c.copy_fails) [
            | inl no_copy ↦
                rw (convert_source, handled, fine, no_copy)
                  (behind-Settles gone (record { exit_code = 1; actions = drop; written = [] }) _
                    (given f drop) hand (plain-Settles _ drop refl quiet))
            | inr copied ↦
                rw (convert_source, handled, fine, copied)
                  (behind-Settles gone (encode_file c drop) _ (given f drop) hand rest)
          ]
        ]
      ]

  set_up_input-Settles :
      (c : ToolCalls) (card source m : ℕ)
      → Settles
          (given f (gave (mpp_context m) ∷ drop_source card source))
          (set_up_input c card source m)
  unfolding set_up_input taken given Settles handles
  set_up_input-Settles c card source m = elim (Option-cases c.get_group) [
    | inl no_group ↦ rw (set_up_input, no_group) (omega arith)
    | inr (g, group) ↦ elim (Option-cases c.get_buffer) [
      | inl no_buffer ↦ rw (set_up_input, group, no_buffer) (omega arith)
      | inr (b, buffer) ↦ elim (Bool-cases c.get_fd_fails) [
        | inl no_fd ↦ rw (set_up_input, group, buffer, no_fd) (omega arith)
        | inr fine ↦
            let rest = convert_source-Settles c card source (drop_encoder b g m) refl in
            rw (set_up_input, group, buffer, fine) (omega arith)
      ]
    ]
  ]

  set_up_context-Settles :
      (c : ToolCalls) (card source : ℕ)
      → Settles (given f (drop_source card source)) (set_up_context c card source)
  unfolding set_up_context taken given Settles
  set_up_context-Settles c card source = elim (Option-cases c.create_context) [
    | inl no_context ↦ rw (set_up_context, no_context) (omega arith)
    | inr (m, context) ↦ elim (Bool-cases (c.init_fails || c.configure_fails)) [
      | inl bad ↦ rw (set_up_context, context, bad) (omega arith)
      | inr fine ↦
          let rest = set_up_input-Settles c card source m in
          rw (set_up_context, context, fine) (omega arith)
    ]
  ]

  -- Every call of the tool gives back the descriptors, the context, the group, the buffer and the
  -- handles that it took, wherever it stops.
  pub capture_frame_balanced :
      (c : ToolCalls) → taken f (capture_frame c).actions ≡ given f (capture_frame c).actions
  unfolding capture_frame taken given Settles
  capture_frame_balanced c = elim (Option-cases c.card_fd) [
    | inl no_card ↦ rw (capture_frame, no_card) refl
    | inr (card, opened) ↦ elim (Option-cases (find_connected_hdmi_fb c.hdmi)) [
      | inl no_display ↦ rw (capture_frame, opened, no_display) (omega arith)
      | inr (fb, found) ↦ elim (Bool-cases (rga_format_for_drm c.codes fb.fourcc false == 0)) [
        | inl unknown ↦ rw (capture_frame, opened, found, unknown) (omega arith)
        | inr format ↦ elim (Option-cases c.exported) [
          | inl no_export ↦ rw (capture_frame, opened, found, format, no_export) (omega arith)
          | inr (source, exported) ↦
              let rest = set_up_context-Settles c card source in
              rw (capture_frame, opened, found, format, exported) (omega arith)
        ]
      ]
    ]
  ]
