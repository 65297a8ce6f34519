-- ===== src/Sketches/Backdoor.antt =====
-- 20161121/backdoor/backdoor.ino: a recorder is triggered when the door is opened.
pub mod Openings
mod Samples
use small_project_for_life_w.Base.{
  ℕ, ◌+◌, Bool, true, false, List, [], ◌∷◌, ◌++◌, ◌==◌, if◌then◌else◌, replicate,
}
use small_project_for_life_w.Sketches.{Colour, pixel_num, fill}

-- `flag`, the strip, and the levels that the recorder's pin is set to
pub record Door : Type 0 where
  pub flag : ℕ
  pub strip : List Colour
  pub recorder : List Bool

-- `setup`; `flag` is a global that starts as 0.
pub setup : List Colour → Door
setup strip = record { flag = 0; strip = fill (160, 160, 0) strip; recorder = true ∷ [] }

-- `loop`; `is_low` is whether the magnetic switch reads LOW, which it does when the door is open.
pub loop_call : Bool → Door → Door
loop_call is_low d =
    if is_low
    then (let d' =
          if d.flag == 1
          then record d { recorder = d.recorder ++ (false ∷ true ∷ []); flag = 0 }
          else d in
        record d' { strip = fill (0, 160, 0) d.strip })
    else record d { flag = 1; strip = fill (160, 0, 0) d.strip }

pub loop_calls : List Bool → Door → Door
loop_calls [] d = d
loop_calls (r ∷ readings) d = loop_calls readings (loop_call r d)
