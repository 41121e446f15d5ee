-- ===== src/Output/Tests.antt =====
-- `write_all` on a short packet, interrupted and in pieces.
use remy_desk.Base.{◌≡◌, refl, true, false, List, [], ◌∷◌, ℕ}
use remy_desk.Output.{wrote, eintr, epipe, done, broken_pipe, stop_with, write_all}

abbrev packet : List ℕ
packet = 1 ∷ 2 ∷ 3 ∷ []

in_pieces : write_all packet (wrote 2 ∷ eintr ∷ wrote 1 ∷ []) ≡ stop_with done false packet []
unfolding write_all
in_pieces = refl

broken : write_all packet (wrote 2 ∷ epipe ∷ []) ≡ stop_with broken_pipe true (1 ∷ 2 ∷ []) (3 ∷ [])
unfolding write_all
broken = refl
