-- ===== src/Session/Ready.antt =====
-- What the set-up leaves to the loop: the input buffers, and no frame yet.
use remy_desk.Base.{
  ℕ, zero, suc, ◌+◌, ◌%◌, ◌<◌, ◌≡◌, ◌∙◌, ap, refl, inl, inr, Bool, true, not, ◌||◌, Option, some,
  List, [], ◌∷◌, length, get_elem?, get_elem?-some, arith, Bool-cases, Option-cases,
}
use remy_desk.Base.Int.{ℤ, pos, negsuc, pos_part, ◌≤ℤ◌}
use remy_desk.Import.EncodeBuffers.{
  BufferCalls, EncodeBuffer, init_encode_buffer, init_encode_buffers,
}
use remy_desk.Display.{find_connected_display_fb}
use remy_desk.Encoder.{configure_encoder}
use remy_desk.Options.Command.{StreamOptions}
use remy_desk.Options.Accepted.{encoder_options}
use remy_desk.Writer.{Traffic, Link}
use remy_desk.Session.{Env, Session}
use remy_desk.Session.Setup.{
  SetupCalls, answers_from, set_up_stage, set_up_packets, set_up_buffers, set_up_encoder,
  with_display, set_up,
}
use remy_desk.Session.Round.{Meets}
use remy_desk.Session.Run.{run_loop}
use remy_desk.Session.Limits.{submitted_at}

length-answers_from : (n i : ℕ) (answer : ℕ → BufferCalls) → length (answers_from n i answer) ≡ n
unfolding answers_from
length-answers_from zero i answer = refl
length-answers_from (suc n) i answer = ap suc (length-answers_from n (suc i) answer)

length-init_encode_buffers :
    (handle_api : Bool) (calls : List BufferCalls)
    → (init_encode_buffers handle_api calls).0 ≡ true
    → length (init_encode_buffers handle_api calls).1 ≡ length calls
unfolding init_encode_buffers
length-init_encode_buffers handle_api [] h = refl
length-init_encode_buffers handle_api (c ∷ later) h =
    elim (Bool-cases (init_encode_buffer handle_api c).0) [
      | inr bad ↦ ground arith
      | inl ok ↦
          let rest =
            length-init_encode_buffers handle_api later (rw (init_encode_buffers, ok) at h) in
          rw (init_encode_buffers, ok) (ap suc rest)
    ]

inside_count : (z : ℤ) (k n : ℕ) → pos 1 ≤ℤ z → n ≡ pos_part z → k % pos_part z < n
inside_count (pos z) k n one same = let p : 0 < z = ground arith in omega arith
inside_count (negsuc z) k n one same = ground arith

module _ (e : Env) (c : SetupCalls) (o : StreamOptions) where
  stage_keeps :
      (s s' : Session)
      → (set_up_stage e c o s).0 ≡ some s'
      → (s'.frame_index ≡ s.frame_index) × (s'.buffers ≡ s.buffers)
  unfolding set_up_stage
  stage_keeps s s' h = (ground arith, ground arith)

  packets_keep :
      (s s' : Session)
      → (set_up_packets e c o s).0 ≡ some s'
      → (s'.frame_index ≡ s.frame_index) × (s'.buffers ≡ s.buffers)
  unfolding set_up_packets
  packets_keep s s' h = elim (Option-cases c.get_packet_group) [
    | inl no_group ↦ ground arith
    | inr (g, group) ↦ elim (Option-cases c.get_packet_buffer) [
      | inl no_buffer ↦ ground arith
      | inr (p, buffer) ↦
          stage_keeps (record s { packet_group = g; packet_buffer = p }) s'
            (rw (set_up_packets, group, buffer) at h)
    ]
  ]

  buffers_ready :
      (s s' : Session)
      → (set_up_buffers e c o s).0 ≡ some s'
      → (s'.frame_index ≡ s.frame_index) × (length s'.buffers ≡ pos_part o.buffers)
  unfolding set_up_buffers
  buffers_ready s s' h = elim (Option-cases c.get_group) [
    | inl no_group ↦ ground arith
    | inr (g, group) ↦ elim (Option-cases c.get_array) [
      | inl no_array ↦ ground arith
      | inr (a, array) ↦
          let answers = answers_from (pos_part o.buffers) 0 c.buffer in
          let made = init_encode_buffers e.handle_api answers in
          elim (Bool-cases made.0) [
            | inr bad ↦ ground arith
            | inl ok ↦
                let (index, same) =
                  packets_keep (record s { group = g; array = a; buffers = made.1 }) s'
                    (rw (set_up_buffers, group, array, ok) at h) in
                (
                  index,
                  ap length same
                      ∙ length-init_encode_buffers e.handle_api answers ok
                      ∙ length-answers_from (pos_part o.buffers) 0 c.buffer,
                )
          ]
    ]
  ]

  encoder_ready :
      (s s' : Session)
      → (set_up_encoder e c o s).0 ≡ some s'
      → (s'.frame_index ≡ s.frame_index) × (length s'.buffers ≡ pos_part o.buffers)
  unfolding set_up_encoder
  encoder_ready s s' h = elim (Option-cases c.create_context) [
    | inl no_context ↦ ground arith
    | inr (m, context) ↦
        let set =
          configure_encoder c.encoder_codes c.config (encoder_options o s.cap.width s.cap.height) in
        elim (Bool-cases (c.timeout_fails || c.init_fails || not set.returns_zero)) [
          | inl failed ↦ let no = rw (set_up_encoder, context, failed) at h in ground arith
          | inr fine ↦
              buffers_ready (record s { context = m }) s' (rw (set_up_encoder, context, fine) at h)
        ]
  ]

  set_up_ready :
      (s : Session)
      → (set_up e c o).0 ≡ some s
      → (s.frame_index ≡ 0) × (length s.buffers ≡ pos_part o.buffers)
  unfolding set_up with_display
  set_up_ready s h = elim (Option-cases c.card_fd) [
    | inl no_card ↦ ground arith
    | inr (card, opened) ↦
        let found = find_connected_display_fb c.drm true in
        elim (Option-cases found.0) [
          | inl no_display ↦ let no = rw (set_up, opened, no_display) at h in ground arith
          | inr (d, display) ↦
              encoder_ready (with_display c o card d found.1) s (rw (set_up, opened, display) at h)
        ]
  ]

  -- Behind a set-up that succeeds, and with at least one buffer asked for, the frames go to the
  -- encoder in the buffers that the set-up made, one after the other, and never in one that is not
  -- there: the frame of number `k` in the buffer of number `k` modulo their number.
  pub submitted_buffers :
      (traffic : ℕ → Traffic) (rounds : List Meets) (link : Link) (s : Session) (k : ℕ)
      (b : Option EncodeBuffer)
      → (set_up e c o).0 ≡ some s
      → pos 1 ≤ℤ o.buffers
      → get_elem? (run_loop traffic e o rounds s link).submitted k ≡ some b
      → (x : EncodeBuffer) × (b ≡ some x) × (get_elem? s.buffers (k % pos_part o.buffers) ≡ some x)
  submitted_buffers traffic rounds link s k b h one at =
      let (index, count) = set_up_ready s h in
      let same = submitted_at traffic e o rounds s link k b at in
      let inside : k % pos_part o.buffers < length s.buffers =
        inside_count o.buffers k (length s.buffers) one count in
      let (x, found) = get_elem?-some s.buffers (k % pos_part o.buffers) inside in
      let first : s.frame_index + k ≡ k = omega arith in (x, rw first at same ∙ found, found)
