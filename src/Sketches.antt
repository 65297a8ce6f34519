-- ===== src/Sketches.antt =====
-- The sketches 20161109/Indicator/Indicator.ino and 20161121/backdoor/backdoor.ino, which show a
-- state on a strip of 30 pixels. What the pins, the clock and the account's program give is an
-- argument.
pub mod Strip
pub mod Backdoor
pub mod Indicator
use small_project_for_life_w.Base.{ℕ, zero, suc, ◌+◌, List, set, replicate}

-- red, green and blue
abbrev pub Colour : Type 0
Colour = ℕ × ℕ × ℕ

abbrev pub pixel_num : ℕ
pixel_num = 30

-- `for (i = 0; i < PIXIEL_NUM; i++)` with `setPixelColor`, `n` pixels before the end
pub fill_from : (n i : ℕ) → Colour → List Colour → List Colour
fill_from zero i c strip = strip
fill_from (suc n) i c strip = fill_from n (i + 1) c (set strip i c)

pub fill : Colour → List Colour → List Colour
unfolding fill_from
fill c strip = fill_from pixel_num 0 c strip
