-- ===== src/Output.antt =====
-- `write_all` of native/desktop-streamer/drm_rga_mpp_stream.c: the transport of the packets where
-- there is no ring. The answers of write(2) are an argument; its documented part here is that a
-- successful call takes at most the bytes that it was given.
pub mod Written
mod Tests
use remy_desk.Base.{ℕ, Bool, true, false, List, [], ◌∷◌, ◌++◌, length, take, drop}

-- What one call of write(2) answers: a count, or an error.
pub data Answer : Type 0 where
  wrote : ℕ → Answer
  eintr epipe failed : Answer

-- `done` is 0; `broken_pipe` and `failure` are -1, the first with `stop_requested` set. `starved` is
-- no end: the list of answers is used up.
pub data Outcome : Type 0 where
  done broken_pipe failure starved : Outcome

pub record Output : Type 0 where
  pub outcome : Outcome
  pub stop_requested : Bool
  pub written : List ℕ
  pub left : List ℕ

abbrev pub stop_with : Outcome → Bool → List ℕ → List ℕ → Output
stop_with outcome stop written left = record {
  outcome = outcome;
  stop_requested = stop;
  written = written;
  left = left;
}

-- The loop: what is written so far, what is left, and the answers to come.
unfoldable pub write_loop : List ℕ → List ℕ → List Answer → Output
write_loop written [] answers = stop_with done false written []
write_loop written (b ∷ left) [] = stop_with starved false written (b ∷ left)
write_loop written (b ∷ left) (wrote n ∷ later) =
    write_loop (written ++ take n (b ∷ left)) (drop n (b ∷ left)) later
write_loop written (b ∷ left) (eintr ∷ later) = write_loop written (b ∷ left) later
write_loop written (b ∷ left) (epipe ∷ later) = stop_with broken_pipe true written (b ∷ left)
write_loop written (b ∷ left) (failed ∷ later) = stop_with failure false written (b ∷ left)

unfoldable pub write_all : List ℕ → List Answer → Output
unfolding write_loop
write_all bytes answers = write_loop [] bytes answers
