-- ===== src/Download/Queue/Tasks.antt =====
-- How a change of one task, of src/core/download_manager.cpp, moves it between the states.
use remy_desk.Base.{
  ℕ, suc, ◌+◌, ◌≤◌, ◌≡◌, refl, ap, ◌∙◌, inl, inr, Bool, true, false, ◌==◌, List, [], ◌∷◌, ◌++◌,
  arith, if◌then◌else◌, length, Bool-cases,
}
use remy_desk.Download.Queue.{Status, queued, running, completed, failed, Task, update}

abbrev pub is_running : Status → Bool
is_running queued = false
is_running running = true
is_running completed = false
is_running failed = false

-- The ids of the tasks in some states, oldest first.
unfoldable pub select : (Status → Bool) → List Task → List ℕ
select p [] = []
select p (t ∷ tasks) = let rest = select p tasks in if p t.status then t.id ∷ rest else rest

-- The ids count up.
abbrev pub Numbered : ℕ → List Task → Type 0
Numbered first [] = Unit
Numbered first (t ∷ tasks) = (t.id ≡ first) × Numbered (suc first) tasks

pub select-append :
    (p : Status → Bool) (xs ys : List Task) → select p (xs ++ ys) ≡ select p xs ++ select p ys
unfolding select
select-append p [] ys = refl
select-append p (t ∷ xs) ys =
    let rest = select-append p xs ys in
    elim (Bool-cases (p t.status)) [
      | inl e ↦ rw (select, e) (ap (◌∷◌ t.id) rest)
      | inr e ↦ rw (select, e) rest
    ]

pub Numbered-append :
    (first : ℕ) (tasks : List Task) (t : Task)
    → Numbered first tasks
    → t.id ≡ first + length tasks
    → Numbered first (tasks ++ (t ∷ []))
Numbered-append first [] t n e = (omega arith, tt)
Numbered-append first (x ∷ tasks) t (e', n) e =
    (e', Numbered-append (suc first) tasks t n (omega arith))

-- A task that is selected has one of the ids.
select-Numbered :
    (p : Status → Bool) (first : ℕ) (tasks : List Task) (id : ℕ) (rest : List ℕ)
    → Numbered first tasks
    → select p tasks ≡ id ∷ rest
    → first ≤ id
unfolding select
select-Numbered p first [] id rest n e = absurd (ground arith)
select-Numbered p first (t ∷ tasks) id rest (here, n) e = elim (Bool-cases (p t.status)) [
  | inl yes_here ↦ ground arith
  | inr skipped ↦
      let later = select-Numbered p (suc first) tasks id rest n (ground arith) in omega arith
]

module _ (change : Task → Task) (same_id : (t : Task) → (change t).id ≡ t.id) where
  pub update-Numbered :
      (first id : ℕ) (tasks : List Task)
      → Numbered first tasks
      → Numbered first (update id change tasks)
  unfolding update
  update-Numbered first id [] n = tt
  update-Numbered first id (t ∷ tasks) (e, n) = elim (Bool-cases (t.id == id)) [
    | inl here ↦ rw (update, here) (same_id t ∙ e, n)
    | inr later ↦ rw (update, later) (e, update-Numbered (suc first) id tasks n)
  ]

  pub length-update : (id : ℕ) (tasks : List Task) → length (update id change tasks) ≡ length tasks
  unfolding update
  length-update id [] = refl
  length-update id (t ∷ tasks) = elim (Bool-cases (t.id == id)) [
    | inl here ↦ rw (update, here) refl
    | inr later ↦ rw (update, later) (ap suc (length-update id tasks))
  ]

  -- The first task of a state is changed.
  module _ (p : Status → Bool) (id : ℕ) where
    -- It leaves the state.
    pub select-update_leaves :
        (first : ℕ) (tasks : List Task) (rest : List ℕ)
        → Numbered first tasks
        → select p tasks ≡ id ∷ rest
        → ((t : Task) → p (change t).status ≡ false)
        → select p (update id change tasks) ≡ rest
    unfolding select update
    select-update_leaves first [] rest n e leaves = absurd (ground arith)
    select-update_leaves first (t ∷ tasks) rest (here, n) e leaves =
        elim (Bool-cases (p t.status)) [
          | inl chosen ↦
              let found : (t.id == id) ≡ true = ground arith in
              rw (update, found, select, leaves t) (ground arith)
          | inr skipped ↦
              let past = select-Numbered p (suc first) tasks id rest n (ground arith) in
              let other : (t.id == id) ≡ false = ground arith in
              rw (update, other, select, skipped)
                (select-update_leaves (suc first) tasks rest n (ground arith) leaves)
        ]

    -- Of another state, it changes nothing, if the tasks of the first state stay as they are in it.
    pub select-update_same :
        (q : Status → Bool) (first : ℕ) (tasks : List Task) (rest : List ℕ)
        → Numbered first tasks
        → select p tasks ≡ id ∷ rest
        → ((t : Task) → p t.status ≡ true → q (change t).status ≡ q t.status)
        → select q (update id change tasks) ≡ select q tasks
    unfolding select update
    select-update_same q first [] rest n e same = absurd (ground arith)
    select-update_same q first (t ∷ tasks) rest (here, n) e same = elim (Bool-cases (p t.status)) [
      | inl chosen ↦
          let found : (t.id == id) ≡ true = ground arith in
          rw (update, found, select, same t chosen, same_id t) refl
      | inr skipped ↦
          let past = select-Numbered p (suc first) tasks id rest n (ground arith) in
          let other : (t.id == id) ≡ false = ground arith in
          let later = select-update_same q (suc first) tasks rest n (ground arith) same in
          rw (update, other, select, later) refl
    ]

    -- It enters a state that no task was in.
    pub select-update_enters :
        (q : Status → Bool) (first : ℕ) (tasks : List Task) (rest : List ℕ)
        → Numbered first tasks
        → select p tasks ≡ id ∷ rest
        → select q tasks ≡ []
        → ((t : Task) → q (change t).status ≡ true)
        → select q (update id change tasks) ≡ id ∷ []
    unfolding select update
    select-update_enters q first [] rest n e none_yet enters = absurd (ground arith)
    select-update_enters q first (t ∷ tasks) rest (here, n) e none_yet enters =
        let free : q t.status ≡ false = ground arith in
        let none_later : select q tasks ≡ [] = ground arith in
        elim (Bool-cases (p t.status)) [
          | inl chosen ↦
              let found : (t.id == id) ≡ true = ground arith in
              let same : t.id ≡ id = ground arith in
              rw (update, found, select, enters t, none_later, same_id t, same) refl
          | inr skipped ↦
              let past = select-Numbered p (suc first) tasks id rest n (ground arith) in
              let other : (t.id == id) ≡ false = ground arith in
              rw (update, other, select, free)
                (select-update_enters q (suc first) tasks rest n (ground arith) none_later enters)
        ]
