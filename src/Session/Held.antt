-- ===== src/Session/Held.antt =====
-- What the set-up of `main` takes against what its teardown gives back, on every path.
use remy_desk.Base.{
  ℕ, ◌+◌, ◌≡◌, ◌⊎◌, refl, inl, inr, ap, Bool, true, false, ◌||◌, ◌==◌, Option, none, some, List, [],
  ◌∷◌, ◌++◌, if◌then◌else◌, arith, Bool-cases, ◌∙◌,
}
use remy_desk.Import.{
  release_rga_handle, give_map, give_fd, Resource, fd, mpp_buffer, mpp_context, buffer_group,
  allocation, Action, gave,
}
use remy_desk.Import.Formats.{bytes_per_pixel_for_drm, rga_format_for_drm}
use remy_desk.Import.Source.{no_import}
use remy_desk.Import.Staging.{
  give_dumb, DumbRgbBuffer, no_buffer, create_dumb_rgb_buffer, release_dumb_rgb_buffer,
}
use remy_desk.Import.EncodeBuffers.{release_encode_buffers, release_encode_buffers_quiet}
use remy_desk.Import.Balance.{
  taken, given, taken-append, given-append, src_held, held_nothing, held_released, has_handle,
  create_dumb_rgb_buffer_balanced,
}
use remy_desk.Options.Command.{StreamOptions}
use remy_desk.Session.{Env, Session}
use remy_desk.Session.Setup.{
  SetupCalls, dumb_calls, needs_stage, stage_format, drop_buffers, set_up_stage,
}
use remy_desk.Session.Run.{tear_down}

-- The packet buffer and its group.
abbrev pub packets : ℕ → ℕ → List Action
packets g p = gave (mpp_buffer p) ∷ gave (buffer_group g) ∷ []

-- What the teardown gives back but for the two imports.
abbrev pub give_stage : Env → StreamOptions → DumbRgbBuffer → List Action
give_stage e o b = if needs_stage o then (release_dumb_rgb_buffer e.handle_api b).1 else []

abbrev pub fixed : Env → StreamOptions → Session → List Action
fixed e o s =
    give_stage e o s.rgb_stage
    ++ gave (mpp_context s.context) ∷ release_encode_buffers e.handle_api s.buffers
    ++ gave (allocation s.array)
      ∷ gave (mpp_buffer s.packet_buffer)
      ∷ gave (buffer_group s.packet_group)
      ∷ gave (buffer_group s.group)
      ∷ gave (fd s.card)
      ∷ []

module _ (f : Resource → Bool) (e : Env) (o : StreamOptions) where
  abbrev pub held : Session → ℕ
  held s = given f (tear_down e o s)

  pub held-fixed :
      (s : Session)
      → held s
        ≡ src_held f e.handle_api s.cursor + src_held f e.handle_api s.src + given f (fixed e o s)
  unfolding tear_down
  held-fixed s =
      let c = held_released f e.handle_api s.cursor in
      let d = held_released f e.handle_api s.src in simp (given-append f) (omega arith)

  -- With so much in hand before it, what a part of the set-up did: it is ready with a session that
  -- holds the rest, or has given all back, or all but a packet buffer and its group.
  pub data Accounted (n : ℕ) : Option Session → List Action → Type 0 where
    ready :
        {s : Session} {l : List Action}
        → n + taken f l ≡ held s + given f l
        → Accounted n (some s) l
    dropped : {l : List Action} → n + taken f l ≡ given f l → Accounted n none l
    stranded :
        {l : List Action} (g p : ℕ)
        → n + taken f l ≡ given f (packets g p) + given f l
        → Accounted n none l

  -- More that was only taken, before a part.
  pub Accounted-taken :
      {n : ℕ} {r : Option Session} {l : List Action} (a : List Action)
      → given f a ≡ 0
      → Accounted (n + taken f a) r l
      → Accounted n r (a ++ l)
  Accounted-taken {l = l} a h (ready x) =
      let t = taken-append f a l in let g = given-append f a l in ready (omega arith)
  Accounted-taken {l = l} a h (dropped x) =
      let t = taken-append f a l in let g = given-append f a l in dropped (omega arith)
  Accounted-taken {l = l} a h (stranded g p x) =
      let t = taken-append f a l in let back = given-append f a l in stranded g p (omega arith)

  -- What a return in front of the packet buffer gives back.
  abbrev pub in_hand : Session → ℕ
  in_hand s = given f (drop_buffers e s)

  pub drop_takes_nothing : (s : Session) → taken f (drop_buffers e s) ≡ 0
  unfolding taken
  drop_takes_nothing s =
      let quiet = release_encode_buffers_quiet f e.handle_api s.buffers in
      simp (taken-append f) (omega arith)

  -- The set-up knows no import yet.
  pub record Bare (s : Session) : Type 0 where
    pub src : s.src ≡ no_import
    pub cursor : s.cursor ≡ no_import

  held-Bare :
      (s : Session)
      → Bare s
      → held s
        ≡ given f (give_stage e o s.rgb_stage)
          + in_hand s
          + given f (packets s.packet_group s.packet_buffer)
  unfolding given
  held-Bare s b =
      let whole = held-fixed s in
      let no_src : src_held f e.handle_api s.src ≡ 0 =
        ap (src_held f e.handle_api) b.src ∙ held_nothing f e.handle_api in
      let no_cursor : src_held f e.handle_api s.cursor ≡ 0 =
        ap (src_held f e.handle_api) b.cursor ∙ held_nothing f e.handle_api in
      let parts : given f (fixed e o s)
          ≡ given f (give_stage e o s.rgb_stage)
            + in_hand s
            + given f (packets s.packet_group s.packet_buffer) =
        simp (given-append f) (omega arith) in
      omega arith

  give_no_buffer : given f (release_dumb_rgb_buffer e.handle_api no_buffer).1 ≡ 0
  unfolding given release_dumb_rgb_buffer release_rga_handle give_map give_fd give_dumb
  give_no_buffer = ground arith

  no_buffer_left :
      (buf : DumbRgbBuffer) (ok : Bool)
      → ok ≡ false
      → (ok ≡ true) ⊎ (buf ≡ no_buffer)
      → given f (release_dumb_rgb_buffer e.handle_api buf).1 ≡ 0
  no_buffer_left buf ok failed (inl done) = ground arith
  no_buffer_left buf ok failed (inr empty) = rw empty give_no_buffer

  pub set_up_stage-Accounted :
      (c : SetupCalls) (s : Session)
      → has_handle c.dumb.created ≡ true
      → Bare s
      → let (r, l) = set_up_stage e c o s in
        Accounted (in_hand s + given f (packets s.packet_group s.packet_buffer)) r l
  unfolding set_up_stage
  set_up_stage-Accounted c s handles b =
      let format = rga_format_for_drm e.codes s.cap.fourcc o.alpha_on in
      let bytes_per_pixel = bytes_per_pixel_for_drm e.codes s.cap.fourcc in
      let made =
        create_dumb_rgb_buffer (dumb_calls e c) s.cap.width s.cap.height
          (stage_format e o s.cap.fourcc) bytes_per_pixel in
      let (sum, cases) =
        create_dumb_rgb_buffer_balanced f (dumb_calls e c) s.cap.width s.cap.height
          (stage_format e o s.cap.fourcc) bytes_per_pixel handles in
      let quiet = drop_takes_nothing s in
      let none_given : given f [] ≡ 0 = unfold given in refl in
      let none_taken : taken f [] ≡ 0 = unfold taken in refl in
      let after = taken-append f made.2 (drop_buffers e s) in
      let back = given-append f made.2 (drop_buffers e s) in
      elim (Bool-cases (needs_stage o)) [
        | inr plain ↦
            rw (set_up_stage, plain)
              (ready (
                let whole = held-Bare s b in
                let empty : given f (give_stage e o s.rgb_stage) ≡ 0 = rw plain none_given in
                omega arith))
        | inl staged ↦ elim (Bool-cases (format == 0 || bytes_per_pixel == 0)) [
          | inl bad ↦
              rw (set_up_stage, staged, bad) (stranded s.packet_group s.packet_buffer (omega arith))
          | inr fine ↦ elim (Bool-cases made.0) [
            | inl ok ↦
                rw (set_up_stage, staged, fine, ok)
                  (ready (
                    let whole =
                      held-Bare (record s { rgb_stage = made.1 })
                        (record { src = b.src; cursor = b.cursor }) in
                    let stage : given f (give_stage e o made.1)
                        ≡ given f (release_dumb_rgb_buffer e.handle_api made.1).1 =
                      rw staged refl in
                    omega arith))
            | inr failed ↦
                rw (set_up_stage, staged, fine, failed)
                  (stranded s.packet_group s.packet_buffer
                    (let empty = no_buffer_left made.1 made.0 failed cases in omega arith))
          ]
        ]
      ]
