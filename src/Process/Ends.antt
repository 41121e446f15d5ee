-- ===== src/Process/Ends.antt =====
-- The loop of `runCommand`, of src/core/process.cpp, ends behind the end of the child and of the pipe.
use remy_desk.Base.{
  ℕ, ◌≡◌, refl, sym, ap, ◌∙◌, inl, inr, Bool, true, false, ◌&&◌, ◌||◌, not, some, List, [], ◌∷◌,
  ◌++◌, arith, if◌then◌else◌, Bool-cases,
}
use mathlib.Core.Path.{subst}
use mathlib.Core.List.{append-nil, append_assoc}
use remy_desk.Process.{
  ReadAnswer, got, end_of_file, would_block, read_error, Round, Loop, start_loop, poll_child,
  stop_child, drain_pipe, one_round, goes_on, run_loop,
}

-- Do the reads of a round come to the end of the pipe?
abbrev pub closes : List ReadAnswer → Bool
closes [] = false
closes (got bytes ∷ reads) = closes reads
closes (end_of_file ∷ reads) = true
closes (would_block ∷ reads) = false
closes (read_error ∷ reads) = true

-- What they bring.
abbrev pub bytes_of : List ReadAnswer → List ℕ
bytes_of [] = []
bytes_of (got bytes ∷ reads) = bytes ++ bytes_of reads
bytes_of (end_of_file ∷ reads) = []
bytes_of (would_block ∷ reads) = []
bytes_of (read_error ∷ reads) = []

-- Has the child ended by itself, or is it stopped?
abbrev pub settles : Round → Bool
settles r = r.ended || r.past_deadline || r.cancelled

abbrev pub any_closes : List Round → Bool
any_closes [] = false
any_closes (r ∷ rounds) = closes r.reads || any_closes rounds

abbrev pub any_settles : List Round → Bool
any_settles [] = false
any_settles (r ∷ rounds) = settles r || any_settles rounds

-- All that is read up to the end of the pipe.
abbrev pub output_of : List Round → List ℕ
output_of [] = []
output_of (r ∷ rounds) =
    let later = output_of rounds in bytes_of r.reads ++ (if closes r.reads then [] else later)

-- The result of draining the pipe.
record Drained (reads : List ReadAnswer) (s t : Loop) : Type 0 where
  pipe : t.pipe_open ≡ (s.pipe_open && not (closes reads))
  child : t.child_done ≡ s.child_done
  reaped : t.reaped ≡ s.reaped
  output : t.output ≡ s.output ++ bytes_of reads

drain_pipe-Drained :
    (reads : List ReadAnswer) (s : Loop) → s.pipe_open ≡ true → Drained reads s (drain_pipe reads s)
unfolding drain_pipe
drain_pipe-Drained [] s e = record {
  pipe = rw e refl;
  child = refl;
  reaped = refl;
  output = sym (append-nil s.output);
}
drain_pipe-Drained (got bytes ∷ reads) s e =
    let d = drain_pipe-Drained reads (record s { output = s.output ++ bytes }) e in
    record {
      pipe = d.pipe;
      child = d.child;
      reaped = d.reaped;
      output = d.output ∙ append_assoc s.output bytes (bytes_of reads);
    }
drain_pipe-Drained (end_of_file ∷ reads) s e = record {
  pipe = rw e refl;
  child = refl;
  reaped = refl;
  output = sym (append-nil s.output);
}
drain_pipe-Drained (would_block ∷ reads) s e = record {
  pipe = rw e refl;
  child = refl;
  reaped = refl;
  output = sym (append-nil s.output);
}
drain_pipe-Drained (read_error ∷ reads) s e = record {
  pipe = rw e refl;
  child = refl;
  reaped = refl;
  output = sym (append-nil s.output);
}

-- A child is waited for once.
abbrev Waited : Loop → Type 0
Waited s = s.reaped ≡ (if s.child_done then 1 else 0)

record Stopped (r : Round) (s t : Loop) : Type 0 where
  pipe : t.pipe_open ≡ s.pipe_open
  child : t.child_done ≡ (s.child_done || settles r)
  output : t.output ≡ s.output
  waited : Waited t

stop_child-Stopped : (r : Round) (s : Loop) → Waited s → Stopped r s (stop_child r (poll_child r s))
unfolding stop_child poll_child
stop_child-Stopped r s w = record {
  pipe = ground arith;
  child = ground arith;
  output = ground arith;
  waited = ground arith;
}

record Advanced (r : Round) (s t : Loop) : Type 0 where
  pipe : t.pipe_open ≡ (s.pipe_open && not (closes r.reads))
  child : t.child_done ≡ (s.child_done || settles r)
  output : t.output ≡ s.output ++ (if s.pipe_open then bytes_of r.reads else [])
  waited : Waited t

drain_if :
    (b : Bool) (r : Round) (s t : Loop)
    → Stopped r s t
    → t.pipe_open ≡ b
    → Advanced r s (if b then drain_pipe r.reads t else t)
drain_if true r s t w is_open =
    let d = drain_pipe-Drained r.reads t is_open in
    let was_open = sym w.pipe ∙ is_open in
    record {
      pipe = d.pipe ∙ ap (λ b. b && not (closes r.reads)) w.pipe;
      child = d.child ∙ w.child;
      output =
          d.output
          ∙ ap (λ l. l ++ bytes_of r.reads) w.output
          ∙ sym (ap (λ b. s.output ++ (if b then bytes_of r.reads else [])) was_open);
      waited = d.reaped ∙ w.waited ∙ sym (ap (λ b. if b then 1 else 0) d.child);
    }
drain_if false r s t w is_shut =
    let was_shut = sym w.pipe ∙ is_shut in
    record {
      pipe = is_shut ∙ sym (ap (λ b. b && not (closes r.reads)) was_shut);
      child = w.child;
      output =
          w.output
          ∙ sym (append-nil s.output)
          ∙ sym (ap (λ b. s.output ++ (if b then bytes_of r.reads else [])) was_shut);
      waited = w.waited;
    }

one_round-Advanced : (r : Round) (s : Loop) → Waited s → Advanced r s (one_round r s)
unfolding one_round
one_round-Advanced r s w =
    drain_if _ r s (stop_child r (poll_child r s)) (stop_child-Stopped r s w) refl

-- The loop is over: what it gives, from a state on.
pub record Finished (before : List ℕ) (t : Loop) : Type 0 where
  pub pipe_shut : t.pipe_open ≡ false
  pub child_over : t.child_done ≡ true
  pub waited_once : t.reaped ≡ 1
  pub whole_output : t.output ≡ before

over-Finished :
    (s : Loop) (rounds : List Round)
    → Waited s
    → goes_on s ≡ false
    → Finished (s.output ++ (if s.pipe_open then output_of rounds else [])) s
over-Finished s rounds w over =
    let shut : s.pipe_open ≡ false = ground arith in
    let child : s.child_done ≡ true = ground arith in
    record {
      pipe_shut = shut;
      child_over = child;
      waited_once = w ∙ ap (λ b. if b then 1 else 0) child;
      whole_output =
          sym (append-nil s.output)
          ∙ sym (ap (λ b. s.output ++ (if b then output_of rounds else [])) shut);
    }

-- The output of a round and of those behind it.
joined_output :
    (is_open : Bool) (r : Round) (rounds : List Round) (before : List ℕ)
    → (before ++ (if is_open then bytes_of r.reads else []))
        ++ (if is_open && not (closes r.reads) then output_of rounds else [])
      ≡ before ++ (if is_open then output_of (r ∷ rounds) else [])
joined_output false r rounds before = append-nil (before ++ [])
joined_output true r rounds before = elim (Bool-cases (closes r.reads)) [
  | inl last ↦ rw last (append_assoc before (bytes_of r.reads) [])
  | inr more ↦ rw more (append_assoc before (bytes_of r.reads) (output_of rounds))
]

loop-Finished :
    (rounds : List Round) (s : Loop)
    → Waited s
    → (s.child_done || any_settles rounds) ≡ true
    → (not s.pipe_open || any_closes rounds) ≡ true
    → (t : Loop) × (run_loop rounds s ≡ some t)
      × Finished (s.output ++ (if s.pipe_open then output_of rounds else [])) t
unfolding run_loop
loop-Finished [] s w settled closed =
    let over : goes_on s ≡ false = ground arith in
    (s, rw (run_loop, over) refl, over-Finished s [] w over)
loop-Finished (r ∷ rounds) s w settled closed = elim (Bool-cases (goes_on s)) [
  | inr over ↦ (s, rw (run_loop, over) refl, over-Finished s (r ∷ rounds) w over)
  | inl on ↦
      let a = one_round-Advanced r s w in
      let child = a.child in
      let pipe = a.pipe in
      let (t, e, f) =
        loop-Finished rounds (one_round r s) a.waited (rw child (ground arith))
          (rw pipe (ground arith)) in
      let out =
        ap (λ l. l ++ (if (one_round r s).pipe_open then output_of rounds else [])) a.output
        ∙ ap
            (λ b.
              (s.output ++ (if s.pipe_open then bytes_of r.reads else []))
              ++ (if b then output_of rounds else []))
            pipe
        ∙ joined_output s.pipe_open r rounds s.output in
      (t, rw (run_loop, on) e, subst (λ l. Finished l t) out f)
]

-- Where in some round the child has ended, the time is up or the flag is set, and in some round the
-- reads come to the end of the pipe: the loop ends, it has waited for the child once, and its output
-- is all that was read up to the end of the pipe, in order.
pub run_loop-Finished :
    (rounds : List Round)
    → any_settles rounds ≡ true
    → any_closes rounds ≡ true
    → (t : Loop) × (run_loop rounds start_loop ≡ some t) × Finished (output_of rounds) t
run_loop-Finished rounds settled closed = loop-Finished rounds start_loop refl settled closed
