-- ===== src/Download/Queue/Order.antt =====
-- The order of the downloads of src/core/download_manager.cpp, over all runs of callers and worker.
use remy_desk.Base.{
  ℕ, zero, suc, ◌+◌, ◌%◌, ◌^◌, ◌≤◌, ◌<◌, ◌≡◌, ◌≢◌, refl, sym, ap, ◌∙◌, ◌⊎◌, inl, inr, Option, none,
  some, List, [], ◌∷◌, ◌++◌, arith, leb, if◌then◌else◌, length, length-append, Bool-cases,
  Option-cases,
}
use mathlib.Core.List.{append-nil}
use remy_desk.Download.Name.{UrlError, validate_url}
use remy_desk.Download.Target.{unique_target}
use remy_desk.Download.Queue.{
  Task, Manager, refused, full, accepted, new_task, enqueue, started, take_task, find_task,
  prepared, prepare, is_queued, Fetched, finished, finish, list_from, Worker, waiting, chosen,
  fetching, Step, ask, choose, begin, end, Reach, start, step,
}
use remy_desk.Download.Queue.Tasks.{
  is_running, select, Numbered, select-append, Numbered-append, update-Numbered, length-update,
  select-update_leaves, select-update_same, select-update_enters,
}

-- The task that the worker has taken.
abbrev pub active : Worker → List ℕ
active waiting = []
active (chosen id) = id ∷ []
active (fetching id) = id ∷ []

pub record Ordered (m : Manager) (w : Worker) : Type 0 where
  pub numbered : Numbered 1 m.tasks
  pub next : m.next_id ≡ suc (length m.tasks)
  pub in_order : m.queue ≡ select is_queued m.tasks
  pub one_running : select is_running m.tasks ≡ active w
  pub few : length m.queue ≤ 100

record Accepted (m : Manager) (url : List ℕ) (now : ℕ) (next : Manager) : Type 0 where
  had_room : length m.queue < 100
  is_next : next ≡ record {
    tasks = m.tasks ++ (new_task m.next_id url now ∷ []);
    queue = m.queue ++ (m.next_id ∷ []);
    next_id = (m.next_id + 1) % 2 ^ 64;
  }

checked :
    (v : UrlError ⊎ List ℕ) → ((e : UrlError) × (v ≡ inl e)) ⊎ ((url : List ℕ) × (v ≡ inr url))
checked (inl e) = inl (e, refl)
checked (inr url) = inr (url, refl)

clash :
    {bad : UrlError} {next : Manager} {t : Task} {position : ℕ}
    → refused bad ≢ accepted next t position
clash e = cc

other : {next : Manager} {t : Task} {position : ℕ} → full ≢ accepted next t position
other e = cc

manager_of :
    {m next : Manager} {t t' : Task} {position position' : ℕ}
    → accepted m t position ≡ accepted next t' position'
    → m ≡ next
manager_of e = cc

room :
    (m : Manager) (url : List ℕ) (now : ℕ) {next : Manager} {t : Task} {position : ℕ}
    → (if leb 100 (length m.queue)
        then full
        else accepted
            (record {
              tasks = m.tasks ++ (new_task m.next_id url now ∷ []);
              queue = m.queue ++ (m.next_id ∷ []);
              next_id = (m.next_id + 1) % 2 ^ 64;
            })
            (new_task m.next_id url now)
            (length m.queue + 1))
      ≡ accepted next t position
    → Accepted m url now next
room m url now e = elim (Bool-cases (leb 100 (length m.queue))) [
  | inl no_room ↦ let impossible = rw no_room at e in absurd (other impossible)
  | inr some_room ↦
      let same = rw some_room at e in
      record { had_room = ground arith; is_next = sym (manager_of same) }
]

enqueue-Accepted :
    (m : Manager) (raw_url : List ℕ) (now : ℕ) {next : Manager} {t : Task} {position : ℕ}
    → enqueue m raw_url now ≡ accepted next t position
    → (url : List ℕ) × Accepted m url now next
unfolding enqueue
enqueue-Accepted m raw_url now e = elim (checked (validate_url raw_url)) [
  | inl (bad, h) ↦ absurd (clash (rw (enqueue, h) at e))
  | inr (url, h) ↦ (url, room m url now (rw (enqueue, h) at e))
]

ask-Ordered :
    (m : Manager) (w : Worker) (url : List ℕ) (now : ℕ) (next : Manager)
    → Ordered m w
    → m.next_id + 1 < 2 ^ 64
    → Accepted m url now next
    → Ordered next w
unfolding new_task select
ask-Ordered m w url now next o below a = rw (a.is_next) (record {
  numbered =
      Numbered-append 1 m.tasks (new_task m.next_id url now) o.numbered
        (let h = o.next in omega arith);
  next =
      let h = o.next in
      let l = length-append m.tasks (new_task m.next_id url now ∷ []) in omega arith;
  in_order =
      rw (select-append is_queued m.tasks (new_task m.next_id url now ∷ []))
        (ap (λ l. l ++ (m.next_id ∷ [])) o.in_order);
  one_running =
      select-append is_running m.tasks (new_task m.next_id url now ∷ [])
      ∙ append-nil (select is_running m.tasks)
      ∙ o.one_running;
  few = let h = a.had_room in let l = length-append m.queue (m.next_id ∷ []) in omega arith;
})

queue_cases : (l : List ℕ) → (l ≡ []) ⊎ ((id : ℕ) × (rest : List ℕ) × (l ≡ id ∷ rest))
queue_cases [] = inl refl
queue_cases (id ∷ rest) = inr (id, rest, refl)

nothing_taken : {a : Manager × ℕ} → none ≢ some a
nothing_taken e = cc

taken_manager :
    {a b : Manager} {i j : ℕ} → ◌≡◌ {A = Option (Manager × ℕ)} (some (a, i)) (some (b, j)) → a ≡ b
taken_manager e = cc

taken_id :
    {a b : Manager} {i j : ℕ} → ◌≡◌ {A = Option (Manager × ℕ)} (some (a, i)) (some (b, j)) → i ≡ j
taken_id e = cc

choose-Ordered :
    (m : Manager) (now id : ℕ) (next : Manager)
    → Ordered m waiting
    → take_task m now ≡ some (next, id)
    → Ordered next (chosen id)
unfolding take_task
choose-Ordered m now id next o e = elim (queue_cases m.queue) [
  | inl none_left ↦ absurd (nothing_taken (rw (take_task, none_left) at e))
  | inr (first, rest, q) ↦
      let same_id : (t : Task) → (started now t).id ≡ t.id = λ t. refl in
      let h : select is_queued m.tasks ≡ first ∷ rest = sym o.in_order ∙ q in
      let taken = rw (take_task, q) at e in
      let is_next = taken_manager taken in
      let is_id = taken_id taken in
      let few = o.few in
      let shorter = ap length q in
      rw (← is_next, ← is_id)
        (record {
          numbered = update-Numbered (started now) same_id 1 first m.tasks o.numbered;
          next = o.next ∙ ap suc (sym (length-update (started now) same_id first m.tasks));
          in_order = sym (
              select-update_leaves (started now) same_id is_queued first 1 m.tasks rest o.numbered h
                (λ t. refl));
          one_running =
              select-update_enters (started now) same_id is_queued first is_running 1 m.tasks rest
                o.numbered h o.one_running (λ t. refl);
          few = omega arith;
        })
]

nothing_begun : {a : Manager} → none ≢ some a
nothing_begun e = cc

begun_as : {a b : Manager} → some a ≡ some b → a ≡ b
begun_as e = cc

begin-Ordered :
    (m : Manager) (names : List (List ℕ)) (id : ℕ) (next : Manager)
    → Ordered m (chosen id)
    → prepare m id names ≡ some next
    → Ordered next (fetching id)
unfolding prepare
begin-Ordered m names id next o e = elim (Option-cases (find_task id m.tasks)) [
  | inl h ↦ absurd (nothing_begun (rw (prepare, h) at e))
  | inr (t, h) ↦ elim (Option-cases (unique_target (suc (length names)) names t.name)) [
    | inl h' ↦ absurd (nothing_begun (rw (prepare, h, h') at e))
    | inr (target, h') ↦
        let change = prepared target in
        let same_id : (t : Task) → (change t).id ≡ t.id = λ t. refl in
        rw (← begun_as (rw (prepare, h, h') at e)) (record {
          numbered = update-Numbered change same_id 1 id m.tasks o.numbered;
          next = o.next ∙ ap suc (sym (length-update change same_id id m.tasks));
          in_order =
              o.in_order
              ∙ sym (
                  select-update_same change same_id is_running id is_queued 1 m.tasks [] o.numbered
                    o.one_running (λ t h. refl));
          one_running =
              select-update_same change same_id is_running id is_running 1 m.tasks [] o.numbered
                o.one_running (λ t h. refl)
              ∙ o.one_running;
          few = o.few;
        })
  ]
]

end-Ordered :
    (m : Manager) (r : Fetched) (now id : ℕ)
    → Ordered m (fetching id)
    → Ordered (finish m id r now) waiting
unfolding finish finished
end-Ordered m r now id o =
    let change : Task → Task = λ t. (finished r now t).0 in
    let same_id : (t : Task) → (change t).id ≡ t.id = λ t. ground arith in
    record {
      numbered = update-Numbered change same_id 1 id m.tasks o.numbered;
      next = o.next ∙ ap suc (sym (length-update change same_id id m.tasks));
      in_order =
          o.in_order
          ∙ sym (
              select-update_same change same_id is_running id is_queued 1 m.tasks [] o.numbered
                o.one_running (λ t h. ground arith));
      one_running =
          select-update_leaves change same_id is_running id 1 m.tasks [] o.numbered o.one_running
            (λ t. ground arith);
      few = o.few;
    }

step-Ordered : {m next : Manager} {w v : Worker} → Ordered m w → Step m w next v → Ordered next v
step-Ordered {m = m} {next = next} {w = w} o (ask url now below e) =
    let (good, a) = enqueue-Accepted m url now e in ask-Ordered m w good now next o below a
step-Ordered {m = m} {next = next} o (choose now {id = id} e) = choose-Ordered m now id next o e
step-Ordered {m = m} {next = next} o (begin names {id = id} e) = begin-Ordered m names id next o e
step-Ordered {m = m} o (end r now {id = id}) = end-Ordered m r now id o

-- After any steps of the callers and of the worker the tasks are numbered from 1 in the order in which
-- they were asked for, the queue holds the waiting ones in that order and at most 100 of them, and the
-- one that runs is the one that the worker has taken.
pub Reach-Ordered : {m : Manager} {w : Worker} → Reach m w → Ordered m w
unfolding select
Reach-Ordered start = record {
  numbered = tt;
  next = refl;
  in_order = refl;
  one_running = refl;
  few = omega arith;
}
Reach-Ordered (step before s) = step-Ordered (Reach-Ordered before) s

-- Places 1, 2, ... for the ids of a list.
abbrev pub places : ℕ → List ℕ → List (ℕ × ℕ)
places position [] = []
places position (id ∷ ids) = (id, suc position) ∷ places (suc position) ids

abbrev pub waiting_places : List (ℕ × ℕ) → List (ℕ × ℕ)
waiting_places [] = []
waiting_places ((id, zero) ∷ listed) = waiting_places listed
waiting_places ((id, suc place) ∷ listed) = (id, suc place) ∷ waiting_places listed

list_from-places :
    (position : ℕ) (tasks : List Task)
    → waiting_places (list_from position tasks) ≡ places position (select is_queued tasks)
unfolding list_from select
list_from-places position [] = refl
list_from-places position (t ∷ tasks) =
    let later = list_from-places (suc position) tasks in
    let same = list_from-places position tasks in
    elim (Bool-cases (is_queued t.status)) [
      | inl e ↦ rw (list_from, select, e) (ap (◌∷◌ (t.id, suc position)) later)
      | inr e ↦ rw (list_from, select, e) same
    ]

-- At any time `list` gives the waiting tasks, and only them, a position: that of the task in the queue.
pub list_positions :
    {m : Manager} {w : Worker} → Reach m w → waiting_places (list_from 0 m.tasks) ≡ places 0 m.queue
list_positions {m = m} reach =
    list_from-places 0 m.tasks ∙ ap (places 0) (sym (Reach-Ordered reach).in_order)
