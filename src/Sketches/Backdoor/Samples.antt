-- ===== src/Sketches/Backdoor/Samples.antt =====
-- A run of backdoor.ino: closed, opened, still open, closed and opened again.
use small_project_for_life_w.Base.{◌≡◌, refl, true, false, [], ◌∷◌, replicate}
use small_project_for_life_w.Sketches.{pixel_num}
use small_project_for_life_w.Sketches.Backdoor.{setup, loop_calls}
use small_project_for_life_w.Sketches.Backdoor.Openings.{pulses, door_watched}

door_watched_example :
    let d =
      loop_calls
        (false ∷ true ∷ true ∷ false ∷ true ∷ [])
        (setup (replicate pixel_num (0, 0, 0))) in
    (d.recorder ≡ true ∷ pulses 2) × (d.strip ≡ replicate pixel_num (0, 160, 0))
door_watched_example =
    door_watched (replicate pixel_num (0, 0, 0)) false (true ∷ true ∷ false ∷ true ∷ []) refl
