-- ===== src/Session/Accounts.antt =====
-- The accounts of the whole set-up, from those of its parts.
use remy_desk.Base.{
  ℕ, ◌+◌, ◌≡◌, refl, inl, inr, Bool, true, not, ◌||◌, Option, List, [], ◌∷◌, arith, Bool-cases,
  Option-cases,
}
use remy_desk.Base.Int.{pos_part}
use remy_desk.Import.{
  Resource, fd, mpp_buffer, mpp_context, buffer_group, allocation, Action, took, gave,
}
use remy_desk.Import.EncodeBuffers.{init_encode_buffers, init_encode_buffers_balanced}
use remy_desk.Import.Balance.{taken, given, given-append, has_handle}
use remy_desk.Display.{find_connected_display_fb}
use remy_desk.Encoder.{configure_encoder}
use remy_desk.Options.Command.{StreamOptions}
use remy_desk.Options.Accepted.{encoder_options}
use remy_desk.Session.{Env, Session}
use remy_desk.Session.Setup.{
  SetupCalls, answers_from, destroy_context, set_up_packets, set_up_buffers, set_up_encoder,
  with_display, set_up,
}
use remy_desk.Session.Held.{
  Accounted, ready, dropped, stranded, Accounted-taken, in_hand, Bare, drop_takes_nothing,
  set_up_stage-Accounted,
}

module _ (f : Resource → Bool) (e : Env) (o : StreamOptions) (c : SetupCalls) where
  -- A number that is in hand, written in another way.
  recount :
      {n k : ℕ} {r : Option Session} {l : List Action}
      → n ≡ k
      → Accounted f e o n r l
      → Accounted f e o k r l
  recount h (ready x) = ready (omega arith)
  recount h (dropped x) = dropped (omega arith)
  recount h (stranded g p x) = stranded g p (omega arith)

  set_up_packets-Accounted :
      (s : Session)
      → has_handle c.dumb.created ≡ true
      → Bare f e o s
      → let (r, l) = set_up_packets e c o s in Accounted f e o (in_hand f e o s) r l
  unfolding set_up_packets taken given
  set_up_packets-Accounted s handles b =
      let quiet = drop_takes_nothing f e o s in
      elim (Option-cases c.get_packet_group) [
        | inl no_group ↦ rw (set_up_packets, no_group) (dropped (omega arith))
        | inr (g, group) ↦ elim (Option-cases c.get_packet_buffer) [
          | inl no_buffer ↦ rw (set_up_packets, group, no_buffer) (dropped (omega arith))
          | inr (p, buffer) ↦
              let s' : Session = record s { packet_group = g; packet_buffer = p } in
              let b' : Bare f e o s' = record { src = b.src; cursor = b.cursor } in
              let rest = set_up_stage-Accounted f e o c s' handles b' in
              rw (set_up_packets, group, buffer)
                (Accounted-taken f e o (took (buffer_group g) ∷ took (mpp_buffer p) ∷ []) (refl)
                  (recount ((omega arith)) rest))
        ]
      ]

  set_up_buffers-Accounted :
      (s : Session)
      → has_handle c.dumb.created ≡ true
      → Bare f e o s
      → let (r, l) = set_up_buffers e c o s in Accounted f e o (given f (destroy_context s)) r l
  unfolding set_up_buffers taken given
  set_up_buffers-Accounted s handles b = elim (Option-cases c.get_group) [
    | inl no_group ↦ rw (set_up_buffers, no_group) (dropped (omega arith))
    | inr (g, group) ↦ elim (Option-cases c.get_array) [
      | inl no_array ↦ rw (set_up_buffers, group, no_array) (dropped (omega arith))
      | inr (a, array) ↦
          let answers = answers_from (pos_part o.buffers) 0 c.buffer in
          let made = init_encode_buffers e.handle_api answers in
          let (sum, quiet) = init_encode_buffers_balanced f e.handle_api answers in
          let s' : Session = record s { group = g; array = a; buffers = made.1 } in
          let b' : Bare f e o s' = record { src = b.src; cursor = b.cursor } in
          let rest = set_up_packets-Accounted s' handles b' in
          let begun = took (buffer_group g) ∷ took (allocation a) ∷ made.2 in
          let begun_quiet : given f begun ≡ 0 = quiet in
          let hand : in_hand f e o s' ≡ given f (destroy_context s) + taken f begun =
            simp (given-append f) (omega arith) in
          elim (Bool-cases made.0) [
            | inl ok ↦
                rw (set_up_buffers, group, array, ok)
                  (Accounted-taken f e o begun begun_quiet (recount hand rest))
            | inr failed ↦
                let silent = drop_takes_nothing f e o s' in
                rw (set_up_buffers, group, array, failed)
                  (Accounted-taken f e o begun begun_quiet (recount hand (dropped (omega arith))))
          ]
    ]
  ]

  set_up_encoder-Accounted :
      (s : Session)
      → has_handle c.dumb.created ≡ true
      → Bare f e o s
      → let (r, l) = set_up_encoder e c o s in Accounted f e o (given f (gave (fd s.card) ∷ [])) r l
  unfolding set_up_encoder taken given
  set_up_encoder-Accounted s handles b = elim (Option-cases c.create_context) [
    | inl no_context ↦ rw (set_up_encoder, no_context) (dropped (omega arith))
    | inr (m, context) ↦
        let s' : Session = record s { context = m } in
        let b' : Bare f e o s' = record { src = b.src; cursor = b.cursor } in
        let set =
          configure_encoder c.encoder_codes c.config (encoder_options o s.cap.width s.cap.height) in
        let rest = set_up_buffers-Accounted s' handles b' in
        let hand : given f (destroy_context s')
            ≡ given f (gave (fd s.card) ∷ []) + taken f (took (mpp_context m) ∷ []) =
          omega arith in
        let one : given f (took (mpp_context m) ∷ []) ≡ 0 = refl in
        elim (Bool-cases (c.timeout_fails || c.init_fails || not set.returns_zero)) [
          | inl failed ↦
              rw (set_up_encoder, context, failed)
                (Accounted-taken f e o (took (mpp_context m) ∷ []) one
                  (recount hand (dropped (omega arith))))
          | inr fine ↦
              rw (set_up_encoder, context, fine)
                (Accounted-taken f e o (took (mpp_context m) ∷ []) one (recount hand rest))
        ]
  ]

  -- The set-up, on all its paths: a session holds what was taken and not given back; a failure has
  -- given all back, but for a packet buffer and its group.
  pub set_up-Accounted :
      has_handle c.dumb.created ≡ true → let (r, l) = set_up e c o in Accounted f e o 0 r l
  unfolding set_up taken given with_display
  set_up-Accounted handles = elim (Option-cases c.card_fd) [
    | inl no_card ↦ rw (set_up, no_card) (dropped (refl))
    | inr (card, opened) ↦
        let found = find_connected_display_fb c.drm true in
        elim (Option-cases found.0) [
          | inl no_display ↦ rw (set_up, opened, no_display) (dropped (omega arith))
          | inr (d, display) ↦
              let s = with_display c o card d found.1 in
              let b : Bare f e o s = record { src = refl; cursor = refl } in
              let rest = set_up_encoder-Accounted s handles b in
              rw (set_up, opened, display)
                (Accounted-taken f e o (took (fd card) ∷ []) (refl) (recount ((omega arith)) rest))
        ]
  ]
