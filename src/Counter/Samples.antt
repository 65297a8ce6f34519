-- ===== src/Counter/Samples.antt =====
-- The bounds of the counter, at the least value that it can end with.
use small_project_for_life_w.Base.{◌≤◌}
use small_project_for_life_w.Counter.Ends.{gnum_ends, ends_with_two}

gnum_ends_example : (2 ≤ 2) × (2 ≤ 9)
gnum_ends_example = gnum_ends 2 ends_with_two
