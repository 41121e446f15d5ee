-- ===== src/Session/Run.antt =====
-- The capture loop of `main`, its teardown, and a whole run.
use remy_desk.Base.{ℕ, Option, none, some, List, [], ◌∷◌, ◌++◌, if◌then◌else◌}
use remy_desk.Ring.{Ring}
use remy_desk.Ring.Init.{stream_writer_close}
use remy_desk.Ring.Init
use remy_desk.Import.{fd, mpp_buffer, mpp_context, buffer_group, allocation, Action, gave}
use remy_desk.Import.Source.{release_src_import}
use remy_desk.Import.Staging.{release_dumb_rgb_buffer}
use remy_desk.Import.EncodeBuffers.{EncodeBuffer, release_encode_buffers}
use remy_desk.Options.Command.{StreamOptions}
use remy_desk.Writer.{Traffic, Link}
use remy_desk.Session.{Env, Session}
use remy_desk.Session.Setup.{SetupCalls, needs_stage, set_up}
use remy_desk.Session.Round.{Meets, Turn, run_round}

-- What the loop leaves; `submitted` lists the buffers that went to the encoder, the first first.
pub record Ended : Type 0 where
  pub exit_code : ℕ
  pub session : Session
  pub link : Link
  pub actions : List Action
  pub submitted : List (Option EncodeBuffer)

-- A round that ends the loop, and one that goes on.
unfoldable pub last_turn : Turn → Ended
last_turn t = record {
  exit_code = t.exit_code;
  session = t.session;
  link = t.link;
  actions = t.actions;
  submitted = t.submitted;
}

unfoldable pub after_turn : Turn → Ended → Ended
after_turn t rest = record rest {
  actions = t.actions ++ rest.actions;
  submitted = t.submitted ++ rest.submitted;
}

-- The rounds that the loop meets; behind the last of them, `stop_requested` is set.
unfoldable pub run_loop : (ℕ → Traffic) → Env → StreamOptions → List Meets → Session → Link → Ended
unfolding run_round last_turn after_turn
run_loop traffic e o [] s link = record {
  exit_code = 0;
  session = s;
  link = link;
  actions = [];
  submitted = [];
}
run_loop traffic e o (m ∷ later) s link =
    let t = run_round traffic e o m s link in
    let rest = run_loop traffic e o later t.session t.link in
    if t.goes_on then after_turn t rest else last_turn t

-- The teardown, up to the descriptor of the card. `mpi->reset` comes before the context's end.
unfoldable pub tear_down : Env → StreamOptions → Session → List Action
tear_down e o s =
    (release_src_import e.handle_api s.cursor).1
    ++ (release_src_import e.handle_api s.src).1
    ++ (if needs_stage o then (release_dumb_rgb_buffer e.handle_api s.rgb_stage).1 else [])
    ++ gave (mpp_context s.context) ∷ release_encode_buffers e.handle_api s.buffers
    ++ gave (allocation s.array)
      ∷ gave (mpp_buffer s.packet_buffer)
      ∷ gave (buffer_group s.packet_group)
      ∷ gave (buffer_group s.group)
      ∷ gave (fd s.card)
      ∷ []

-- What a run leaves: the exit code, the writer, the ring that its consumer is left with, and all
-- that was taken and given back; `writer_actions` are those of `stream_writer_close`, on the writer's
-- descriptors and mapping. A set-up that fails leaves the writer as it is, with these.
pub record Finished : Type 0 where
  pub exit_code : ℕ
  pub link : Link
  pub ring : Option Ring
  pub actions : List Action
  pub writer_actions : List Init.Resource

unfoldable pub finish : Env → StreamOptions → Ended → Finished
unfolding tear_down
finish e o x =
    let (ring, writer, closed) = stream_writer_close x.link.writer in
    record {
      exit_code = x.exit_code;
      link = record x.link { writer = writer };
      ring = ring;
      actions = x.actions ++ tear_down e o x.session;
      writer_actions = closed;
    }

-- Behind the set-up.
unfoldable pub run_ready :
    (ℕ → Traffic)
    → Env
    → StreamOptions
    → List Meets
    → Link
    → Option Session
    → List Action
    → Finished
unfolding run_loop finish
run_ready traffic e o rounds link none l = record {
  exit_code = 1;
  link = link;
  ring = link.writer.ring;
  actions = l;
  writer_actions = [];
}
run_ready traffic e o rounds link (some s) l =
    let done = finish e o (run_loop traffic e o rounds s link) in
    record done { actions = l ++ done.actions }

unfoldable pub run_session :
    (ℕ → Traffic) → Env → SetupCalls → StreamOptions → List Meets → Link → Finished
unfolding set_up run_ready
run_session traffic e c o rounds link =
    let (ready, l) = set_up e c o in run_ready traffic e o rounds link ready l
