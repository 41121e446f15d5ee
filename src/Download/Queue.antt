-- ===== src/Download/Queue.antt =====
-- The tasks and the queue of src/core/download_manager.cpp: `enqueue`, `list`, and the rounds of
-- `work` and `download`. Each part that holds the mutex is one step. `tasks_` and `queue_` share their
-- tasks by pointers: here the queue holds their ids.
pub mod Tasks
pub mod Order
pub mod End
use remy_desk.Base.{
  ℕ, zero, suc, ◌+◌, ◌-◌, ◌%◌, ◌^◌, ◌<◌, ◌≡◌, ◌⊎◌, inl, inr, Bool, true, false, ◌&&◌, ◌||◌, not,
  leb, ◌==◌, Option, none, some, List, [], ◌∷◌, ◌++◌, if◌then◌else◌, length,
}
use remy_desk.Base.Text.{codes}
use remy_desk.Download.Target.{unique_target}
use remy_desk.Download.Name.{to_string, UrlError, validate_url, filename_from_url}

pub data Status : Type 0 where
  queued running completed failed : Status

abbrev pub is_queued : Status → Bool
is_queued queued = true
is_queued running = false
is_queued completed = false
is_queued failed = false

-- The message of a task that failed: one of three fixed texts, or what curl or the system says.
pub data Failure : Type 0 where
  no_failure service_stops download_timed_out download_failed : Failure
  text : List ℕ → Failure

-- An empty `temporary` is `none`.
pub record Task : Type 0 where
  pub id : ℕ
  pub url : List ℕ
  pub name : List ℕ
  pub status : Status
  pub error : Failure
  pub temporary : Option (List ℕ)
  pub bytes : ℕ
  pub created_at : ℕ
  pub started_at : ℕ
  pub finished_at : ℕ

pub record Manager : Type 0 where
  pub tasks : List Task
  pub queue : List ℕ
  pub next_id : ℕ

abbrev pub start_manager : Manager
start_manager = record { tasks = []; queue = []; next_id = 1 }

pub data Enqueued : Type 0 where
  refused : UrlError → Enqueued
  full : Enqueued
  accepted : Manager → Task → (position : ℕ) → Enqueued

unfoldable pub new_task : ℕ → List ℕ → ℕ → Task
new_task id url now = record {
  id = id;
  url = url;
  name = filename_from_url url id;
  status = queued;
  error = no_failure;
  temporary = none;
  bytes = 0;
  created_at = now;
  started_at = 0;
  finished_at = 0;
}

unfoldable pub enqueue : Manager → List ℕ → ℕ → Enqueued
enqueue m raw_url now = elim (validate_url raw_url) [
  | inl e ↦ refused e
  | inr url ↦
      if leb 100 (length m.queue)
      then full
      else accepted
          (record {
            tasks = m.tasks ++ (new_task m.next_id url now ∷ []);
            queue = m.queue ++ (m.next_id ∷ []);
            next_id = (m.next_id + 1) % 2 ^ 64;
          })
          (new_task m.next_id url now) (length m.queue + 1)
]

-- A change of the task that a pointer leads to.
unfoldable pub update : ℕ → (Task → Task) → List Task → List Task
update id change [] = []
update id change (t ∷ tasks) =
    let later = update id change tasks in if t.id == id then change t ∷ tasks else t ∷ later

abbrev pub started : ℕ → Task → Task
started now t = record t { status = running; started_at = now }

-- The part of `work` behind the wait.
unfoldable pub take_task : Manager → ℕ → Option (Manager × ℕ)
take_task m now = elim m.queue [
  | [] ↦ none
  | id ∷ queue ↦ some (record m { tasks = update id (started now) m.tasks; queue = queue }, id)
]

-- The start of `download`, in a directory that holds the files `names`.
abbrev pub prepared : List ℕ → Task → Task
prepared target t = record t {
  name = target;
  temporary = some (codes "." ++ target ++ codes ".downloading." ++ to_string t.id);
}

abbrev pub find_task : ℕ → List Task → Option Task
find_task id [] = none
find_task id (t ∷ tasks) = let later = find_task id tasks in if t.id == id then some t else later

unfoldable pub prepare : Manager → ℕ → List (List ℕ) → Option Manager
prepare m id names = elim (find_task id m.tasks) [
  | none ↦ none
  | some t ↦ elim (unique_target (suc (length names)) names t.name) [
    | none ↦ none
    | some target ↦ some (record m { tasks = update id (prepared target) m.tasks })
  ]
]

-- By which of its reads `stopping_` is set.
pub data StopTime : Type 0 where
  before_rename before_status before_message never : StopTime

abbrev pub stop_before_rename : StopTime → Bool
stop_before_rename before_rename = true
stop_before_rename before_status = false
stop_before_rename before_message = false
stop_before_rename never = false

abbrev pub stop_before_status : StopTime → Bool
stop_before_status before_rename = true
stop_before_status before_status = true
stop_before_status before_message = false
stop_before_status never = false

abbrev pub stop_before_message : StopTime → Bool
stop_before_message before_rename = true
stop_before_message before_status = true
stop_before_message before_message = true
stop_before_message never = false

-- What curl and the file system answer: `output` is trimmed, `rename` and `size` are the errors of
-- fs::rename and the result of fs::file_size. `stopping_`, which is never reset, is read up to three times:
-- before the rename, behind it, and for the message.
pub record Fetched : Type 0 where
  pub is_ok : Bool
  pub timed_out : Bool
  pub output : List ℕ
  pub rename_error : Option (List ℕ)
  pub size : Option ℕ
  pub stop : StopTime

-- An empty message is replaced.
abbrev pub or_default : Fetched → List ℕ → Failure
or_default r [] = if r.timed_out then download_timed_out else download_failed
or_default r (b ∷ message) = text (b ∷ message)

-- The calls of the file system that end a download, in the storage directory.
pub data FileCall : Type 0 where
  rename_file : (from to : List ℕ) → FileCall
  remove_file : List ℕ → FileCall

-- The name of the temporary file; an empty one has none.
abbrev pub temporary_of : Task → List ℕ
temporary_of t = elim t.temporary [ none ↦ [] | some name ↦ name ]

abbrev pub error_text : Fetched → Option (List ℕ) → Failure
error_text r error =
    if stop_before_message r.stop
    then service_stops
    else or_default r (elim error [ none ↦ r.output | some message ↦ message ])

-- The end of `download`, whose target has the name of the task. The error of the rename counts where
-- it was tried.
unfoldable pub finished : Fetched → ℕ → Task → Task × List FileCall
finished r now t =
    let tried = r.is_ok && not (stop_before_rename r.stop) in
    let error : Option (List ℕ) = if tried then r.rename_error else none in
    let no_error : Bool = elim error [ none ↦ true | some message ↦ false ] in
    let calls : List FileCall = if tried then rename_file (temporary_of t) t.name ∷ [] else [] in
    if r.is_ok && no_error && not (stop_before_status r.stop)
    then (
      record t {
        status = completed;
        bytes = (elim r.size [ none ↦ 2 ^ 64 - 1 | some n ↦ n ]);
        temporary = none;
        finished_at = now;
      },
      calls,
    )
    else (
      record t { status = failed; error = error_text r error; temporary = none; finished_at = now },
      calls ++ (remove_file (temporary_of t) ∷ []),
    )

unfoldable pub finish : Manager → ℕ → Fetched → ℕ → Manager
finish m id r now = record m { tasks = update id (λ t. (finished r now t).0) m.tasks }

-- The ids and queue positions that `list` reports; a task that does not wait has position 0.
unfoldable pub list_from : ℕ → List Task → List (ℕ × ℕ)
list_from position [] = []
list_from position (t ∷ tasks) =
    let place = if is_queued t.status then suc position else position in
    (t.id, (if is_queued t.status then place else 0)) ∷ list_from place tasks

-- Where the worker stands.
pub data Worker : Type 0 where
  waiting : Worker
  chosen fetching : (id : ℕ) → Worker

-- The steps of the callers and of the worker, in any order. Fewer than 2^64 downloads are asked for.
pub data Step (m : Manager) : Worker → Manager → Worker → Type 0 where
  ask :
      (url : List ℕ) (now : ℕ) {w : Worker} {next : Manager} {t : Task} {position : ℕ}
      → m.next_id + 1 < 2 ^ 64
      → enqueue m url now ≡ accepted next t position
      → Step m w next w
  choose :
      (now : ℕ) {next : Manager} {id : ℕ}
      → take_task m now ≡ some (next, id)
      → Step m waiting next (chosen id)
  begin :
      (names : List (List ℕ)) {id : ℕ} {next : Manager}
      → prepare m id names ≡ some next
      → Step m (chosen id) next (fetching id)
  end : (r : Fetched) (now : ℕ) {id : ℕ} → Step m (fetching id) (finish m id r now) waiting

pub data Reach : Manager → Worker → Type 0 where
  start : Reach start_manager waiting
  step : {m next : Manager} {w v : Worker} → Reach m w → Step m w next v → Reach next v
