-- ===== src/Sketches/Indicator.antt =====
-- 20161109/Indicator/Indicator.ino: the strip shows whether an account is online.
pub mod Seconds
mod Samples
use small_project_for_life_w.Base.{
  ℕ, ◌+◌, ◌-◌, ◌/◌, ◌%◌, ◌^◌, List, [], ◌∷◌, ◌==◌, if◌then◌else◌, leb,
}
use small_project_for_life_w.Sketches.{Colour, fill}

-- `previousTime`, the strip, and how often the account's program has been run
pub record Light : Type 0 where
  pub previous_time : ℕ
  pub strip : List Colour
  pub asked : ℕ

-- the colour for a command
pub colour_of : ℕ → Colour
colour_of command =
    if command == 1 then (160, 0, 0) else if command == 0 then (0, 160, 0) else (0, 0, 160)

-- `loop` at a time in milliseconds, where the account's program prints the number `answer`, of
-- which a `uint8_t` is kept
pub loop_call : (millis answer : ℕ) → Light → Light
loop_call millis answer l =
    let current_time = millis / 1000 in
    if leb 1 ((current_time + 2 ^ 32 - l.previous_time) % 2 ^ 32)
    then record {
      previous_time = current_time;
      strip = fill (colour_of (answer % 256)) l.strip;
      asked = l.asked + 1;
    }
    else l

pub loop_calls : List (ℕ × ℕ) → Light → Light
loop_calls [] l = l
loop_calls ((millis, answer) ∷ later) l = loop_calls later (loop_call millis answer l)

pub setup : ℕ → List Colour → Light
setup millis strip = record {
  previous_time = millis / 1000;
  strip = fill (160, 160, 0) strip;
  asked = 0;
}
