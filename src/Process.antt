-- ===== src/Process.antt =====
-- `runCommand` of src/core/process.cpp, from the fork on: the loop that reads the output of a child and
-- waits for its end. What the kernel answers in a round is a record.
pub mod Ends
pub mod Tests
use remy_desk.Base.{
  ℕ, ◌+◌, Bool, true, false, ◌&&◌, ◌||◌, not, Option, none, some, List, [], ◌∷◌, ◌++◌,
  if◌then◌else◌,
}

-- Wait status: WIFEXITED, WIFSIGNALED, or neither.
pub data WaitStatus : Type 0 where
  exited signaled : ℕ → WaitStatus
  other_status : WaitStatus

-- read(2): bytes, the end of the file, EAGAIN, another error.
pub data ReadAnswer : Type 0 where
  got : List ℕ → ReadAnswer
  end_of_file would_block read_error : ReadAnswer

-- What a round meets: `ended` and `status` are of waitpid with WNOHANG; the two looks at the clock; the
-- flag; whether the child has ended 100 ms behind SIGTERM; and the reads.
pub record Round : Type 0 where
  pub ended : Bool
  pub past_deadline : Bool
  pub past_deadline_again : Bool
  pub cancelled : Bool
  pub ended_on_term : Bool
  pub status : WaitStatus
  pub status_on_kill : WaitStatus
  pub reads : List ReadAnswer

pub data Signal : Type 0 where
  sigterm sigkill : Signal

pub record Loop : Type 0 where
  pub pipe_open : Bool
  pub child_done : Bool
  pub status : WaitStatus
  pub timed_out : Bool
  pub output : List ℕ
  pub signals : List Signal
  pub reaped : ℕ

-- Where the loop starts: `int status = 0` is an exit with 0.
abbrev pub start_loop : Loop
start_loop = record {
  pipe_open = true;
  child_done = false;
  status = exited 0;
  timed_out = false;
  output = [];
  signals = [];
  reaped = 0;
}

unfoldable pub poll_child : Round → Loop → Loop
poll_child r s =
    if not s.child_done && r.ended
    then record s { child_done = true; status = r.status; reaped = s.reaped + 1 }
    else s

-- SIGTERM, and SIGKILL where that was not enough in time.
unfoldable pub stop_child : Round → Loop → Loop
stop_child r s =
    if not s.child_done && (r.past_deadline || r.cancelled)
    then record s {
      child_done = true;
      timed_out = r.past_deadline_again;
      status = r.status_on_kill;
      signals = s.signals ++ (sigterm ∷ (if r.ended_on_term then [] else sigkill ∷ []));
      reaped = s.reaped + 1;
    }
    else s

-- The inner loop; the pipe stays open where a read would block.
unfoldable pub drain_pipe : List ReadAnswer → Loop → Loop
drain_pipe [] s = s
drain_pipe (got bytes ∷ reads) s = drain_pipe reads (record s { output = s.output ++ bytes })
drain_pipe (end_of_file ∷ reads) s = record s { pipe_open = false }
drain_pipe (would_block ∷ reads) s = s
drain_pipe (read_error ∷ reads) s = record s { pipe_open = false }

unfoldable pub one_round : Round → Loop → Loop
unfolding poll_child stop_child drain_pipe
one_round r s =
    let waited = stop_child r (poll_child r s) in
    if waited.pipe_open then drain_pipe r.reads waited else waited

abbrev pub goes_on : Loop → Bool
goes_on s = s.pipe_open || not s.child_done

-- The loop; `none` where the rounds are used up and it still goes on.
unfoldable pub run_loop : List Round → Loop → Option Loop
run_loop [] s = if goes_on s then none else some s
run_loop (r ∷ rounds) s =
    let later = run_loop rounds (one_round r s) in if goes_on s then later else some s

-- -1 is `none`.
unfoldable pub exit_code : Loop → Option ℕ
exit_code s = if s.timed_out then none else elim s.status [
  | exited code ↦ some code
  | signaled signal ↦ some (128 + signal)
  | other_status ↦ none
]
