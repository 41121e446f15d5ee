-- ===== src/Process/Tests.antt =====
-- Witness and tests of the child processes.
use remy_desk.Base.{◌≡◌, refl, true, false, none, some, [], ◌∷◌}
use remy_desk.Process.{
  exited, signaled, got, end_of_file, would_block, Round, Loop, start_loop, poll_child, stop_child,
  drain_pipe, one_round, run_loop, exit_code,
}
use remy_desk.Process.Ends.{Finished, run_loop-Finished}

abbrev talks : Round
talks = record {
  ended = false;
  past_deadline = false;
  past_deadline_again = false;
  cancelled = false;
  ended_on_term = false;
  status = exited 0;
  status_on_kill = exited 0;
  reads = got (1 ∷ 2 ∷ []) ∷ got (3 ∷ []) ∷ would_block ∷ [];
}

abbrev ends_now : Round
ends_now = record talks { ended = true; status = exited 7; reads = got (4 ∷ []) ∷ end_of_file ∷ [] }

run_loop-Finished_example :
    (t : Loop) × (run_loop (talks ∷ ends_now ∷ []) start_loop ≡ some t)
    × Finished (1 ∷ 2 ∷ 3 ∷ 4 ∷ []) t
run_loop-Finished_example = run_loop-Finished (talks ∷ ends_now ∷ []) refl refl

-- The child is killed at the deadline, but a process that it started keeps the pipe open: the loop
-- goes on.
abbrev held : Round
held = record talks {
  past_deadline = true;
  past_deadline_again = true;
  status_on_kill = signaled 9;
  reads = would_block ∷ [];
}

held_open : run_loop (held ∷ held ∷ held ∷ held ∷ []) start_loop ≡ none
unfolding run_loop one_round poll_child stop_child drain_pipe
held_open = refl

seven : exit_code (one_round ends_now start_loop) ≡ some 7
unfolding exit_code one_round poll_child stop_child drain_pipe
seven = refl
