-- ===== src/Download/Queue/End.antt =====
-- The end of a download, of src/core/download_manager.cpp.
use remy_desk.Base.{
  ℕ, ◌≡◌, ◌≢◌, ◌⊎◌, Bool, true, false, Option, none, some, List, [], ◌∷◌, ◌&&◌, ◌||◌, not,
  if◌then◌else◌,
}
use remy_desk.Base.Text.{same_bytes}
use remy_desk.Download.Queue.{
  completed, failed, Task, no_failure, StopTime, stop_before_rename, temporary_of, FileCall,
  rename_file, remove_file, Fetched,
}

abbrev pub is_none : Option (List ℕ) → Bool
is_none none = true
is_none (some message) = false

-- The names in the storage directory.
abbrev pub Directory : Type 0
Directory = List ℕ → Bool

-- A rename with an error changes nothing.
abbrev pub run_call : Fetched → FileCall → Directory → Directory
run_call r (rename_file from to) d =
    if is_none r.rename_error
    then (λ p. if same_bytes to p then true else if same_bytes from p then false else d p)
    else d
run_call r (remove_file name) d = λ p. if same_bytes name p then false else d p

abbrev pub run_calls : Fetched → List FileCall → Directory → Directory
run_calls r [] d = d
run_calls r (c ∷ calls) d = run_calls r calls (run_call r c d)

-- The file was moved to its target: curl and the rename went well, and no stop came before it.
abbrev pub was_moved : Fetched → Bool
was_moved r = r.is_ok && not (stop_before_rename r.stop) && is_none r.rename_error

-- The names behind the calls: the target is there if the file was moved, or was there before; the
-- temporary file is gone; and nothing else has changed.
pub record Files (r : Fetched) (name temporary : List ℕ) (d after : Directory) : Type 0 where
  pub at_target : after name ≡ (was_moved r || d name)
  pub no_file : after temporary ≡ false
  pub others :
      (p : List ℕ) → same_bytes name p ≡ false → same_bytes temporary p ≡ false → after p ≡ d p

-- What the end of a download leaves of a task `before`, in a directory that held the names `d`.
pub record Ended (r : Fetched) (before t : Task) (d after : Directory) : Type 0 where
  pub outcome :
      ((t.status ≡ completed) × (was_moved r ≡ true))
      ⊎ ((t.status ≡ failed) × (t.error ≢ no_failure))
  pub files : Files r before.name (temporary_of before) d after
  pub no_temporary : t.temporary ≡ none

abbrev fetched : Bool → Bool → List ℕ → Option (List ℕ) → Option ℕ → StopTime → Fetched
fetched is_ok timed_out output rename_error size stop = record {
  is_ok = is_ok;
  timed_out = timed_out;
  output = output;
  rename_error = rename_error;
  size = size;
  stop = stop;
}
