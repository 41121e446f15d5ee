-- ===== src/Output/Written.antt =====
-- What `write_all` has written when it stops, and that it stops.
use mathlib.Core.List.{append-nil, append_assoc}
use remy_desk.Base.{
  ℕ, zero, suc, ◌≤◌, ◌≡◌, ◌↔◌, refl, sym, ap, ◌∙◌, true, List, [], ◌∷◌, ◌++◌, length, take, drop,
  take-append-drop, length-drop, arith,
}
use remy_desk.Output.{
  Answer, wrote, eintr, epipe, failed, done, broken_pipe, Output, write_loop, write_all,
}

write_loop_split :
    (written left : List ℕ) (answers : List Answer)
    → (write_loop written left answers).written ++ (write_loop written left answers).left
      ≡ written ++ left
unfolding write_loop
write_loop_split written [] answers = refl
write_loop_split written (b ∷ left) [] = refl
write_loop_split written (b ∷ left) (wrote n ∷ later) =
    write_loop_split (written ++ take n (b ∷ left)) (drop n (b ∷ left)) later
    ∙ append_assoc written (take n (b ∷ left)) (drop n (b ∷ left))
    ∙ ap (λ l. written ++ l) (take-append-drop n (b ∷ left))
write_loop_split written (b ∷ left) (eintr ∷ later) = write_loop_split written (b ∷ left) later
write_loop_split written (b ∷ left) (epipe ∷ later) = refl
write_loop_split written (b ∷ left) (failed ∷ later) = refl

-- What the outcome says of the bytes left, and of the stop flag.
abbrev pub Matches : Output → Type 0
Matches o =
    ((o.outcome ≡ done) ↔ (o.left ≡ [])) × ((o.outcome ≡ broken_pipe) ↔ (o.stop_requested ≡ true))

write_loop-Matches :
    (written left : List ℕ) (answers : List Answer) → Matches (write_loop written left answers)
unfolding write_loop
write_loop-Matches written [] answers = ((λ e. refl, λ e. refl), (λ e. cc, λ e. cc))
write_loop-Matches written (b ∷ left) [] = ((λ e. cc, λ e. cc), (λ e. cc, λ e. cc))
write_loop-Matches written (b ∷ left) (wrote n ∷ later) =
    write_loop-Matches (written ++ take n (b ∷ left)) (drop n (b ∷ left)) later
write_loop-Matches written (b ∷ left) (eintr ∷ later) = write_loop-Matches written (b ∷ left) later
write_loop-Matches written (b ∷ left) (epipe ∷ later) = ((λ e. cc, λ e. cc), (λ e. refl, λ e. refl))
write_loop-Matches written (b ∷ left) (failed ∷ later) = ((λ e. cc, λ e. cc), (λ e. cc, λ e. cc))

pub write_all_split :
    (bytes : List ℕ) (answers : List Answer)
    → ((write_all bytes answers).written ++ (write_all bytes answers).left ≡ bytes)
      × (((write_all bytes answers).outcome ≡ done) ↔ ((write_all bytes answers).left ≡ []))
      × (((write_all bytes answers).outcome ≡ broken_pipe)
          ↔ ((write_all bytes answers).stop_requested ≡ true))
unfolding write_all
write_all_split bytes answers =
    let (m, k) = write_loop-Matches [] bytes answers in (write_loop_split [] bytes answers, m, k)

-- The calls that moved at least one byte, if no call fails.
unfoldable pub moves : List Answer → ℕ
moves [] = 0
moves (wrote (suc n) ∷ later) = suc (moves later)
moves (_ ∷ later) = moves later

abbrev pub NoFailure : List Answer → Type 0
NoFailure [] = Unit {0}
NoFailure (epipe ∷ later) = ⊥
NoFailure (failed ∷ later) = ⊥
NoFailure (_ ∷ later) = NoFailure later

write_loop_done :
    (written left : List ℕ) (answers : List Answer)
    → NoFailure answers
    → length left ≤ moves answers
    → (write_loop written left answers).outcome ≡ done
unfolding write_loop moves
write_loop_done written [] answers ok enough = refl
write_loop_done written (b ∷ left) [] ok enough = absurd (omega arith)
write_loop_done written (b ∷ left) (wrote zero ∷ later) ok enough =
    write_loop_done (written ++ []) (b ∷ left) later ok enough
write_loop_done written (b ∷ left) (wrote (suc n) ∷ later) ok enough =
    write_loop_done (written ++ take (suc n) (b ∷ left)) (drop n left) later ok
      (omega (arith, length-drop n left))
write_loop_done written (b ∷ left) (eintr ∷ later) ok enough =
    write_loop_done written (b ∷ left) later ok enough
write_loop_done written (b ∷ left) (epipe ∷ later) ok enough = absurd ok
write_loop_done written (b ∷ left) (failed ∷ later) ok enough = absurd ok

-- The call ends with 0 and has written all bytes, if no answer is an error other than EINTR and at
-- least as many answers moved a byte as there are bytes: interrupted and empty writes are retried.
pub write_all_done :
    (bytes : List ℕ) (answers : List Answer)
    → NoFailure answers
    → length bytes ≤ moves answers
    → ((write_all bytes answers).outcome ≡ done) × ((write_all bytes answers).written ≡ bytes)
unfolding write_all
write_all_done bytes answers ok enough =
    let finished = write_loop_done [] bytes answers ok enough in
    let none_left = (write_loop-Matches [] bytes answers).0.0 finished in
    (
      finished,
      sym (append-nil (write_loop [] bytes answers).written)
          ∙ ap (λ l. (write_loop [] bytes answers).written ++ l) (sym none_left)
          ∙ write_loop_split [] bytes answers,
    )
