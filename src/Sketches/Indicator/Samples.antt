-- ===== src/Sketches/Indicator/Samples.antt =====
-- Four calls of Indicator.ino: online, the same second again, offline, and an answer of 257.
use small_project_for_life_w.Base.{ℕ, ◌≡◌, refl, arith, List, [], ◌∷◌, replicate}
use small_project_for_life_w.Sketches.{pixel_num}
use small_project_for_life_w.Sketches.Indicator.{setup, loop_calls}
use small_project_for_life_w.Sketches.Indicator.Seconds.{account_watched}

abbrev answers : List (ℕ × ℕ)
answers = (1500, 1) ∷ (1999, 0) ∷ (2000, 0) ∷ (3001, 257) ∷ []

account_watched_example :
    let l = loop_calls answers (setup 0 (replicate pixel_num (0, 0, 0))) in
    (l.asked ≡ 3) × (l.strip ≡ replicate pixel_num (160, 0, 0))
unfolding setup small_project_for_life_w.Sketches.fill
    small_project_for_life_w.Sketches.Indicator.colour_of
account_watched_example =
    account_watched answers (setup 0 (replicate pixel_num (0, 0, 0))) (160, 160, 0)
      (omega arith, (omega arith, (omega arith, (omega arith, tt)))) (omega arith) refl
