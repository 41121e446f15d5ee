-- ===== src/Convert/Tests.antt =====
-- A conversion that the second core makes.
use remy_desk.Base.{zero, suc, ◌≡◌, refl, Bool, true, false, [], ◌∷◌}
use remy_desk.Convert.{Attempt, cvtcolor, process, blit, Frames, try_cores, rga_convert_frame}

abbrev second_core : Attempt → Bool
second_core cvtcolor = false
second_core (process zero) = false
second_core (process (suc core)) = true
second_core blit = false

abbrev frames : Frames
frames = record {
  src_width = 64;
  src_height = 32;
  dst_width = 64;
  dst_height = 32;
  src_format = 1;
  dst_format = 2;
}

third_attempt :
    rga_convert_frame true (0 ∷ 1 ∷ 2 ∷ []) second_core frames
    ≡ (true, cvtcolor ∷ process 0 ∷ process 1 ∷ [])
unfolding rga_convert_frame try_cores
third_attempt = refl
