-- ===== src/Sketches/Indicator/Seconds.antt =====
-- When Indicator.ino asks for the account's state, and what its strip then shows.
use small_project_for_life_w.Base.{
  ℕ, ◌+◌, ◌-◌, ◌/◌, ◌%◌, ◌^◌, ◌<◌, ◌≡◌, ap, ◌∙◌, true, false, Bool-cases, inl, inr, List, [], ◌∷◌,
  arith, length, length-replicate, replicate, ◌==◌, if◌then◌else◌, leb,
}
use small_project_for_life_w.Sketches.{Colour, pixel_num, fill}
use small_project_for_life_w.Sketches.Strip.{fill-replicate}
use small_project_for_life_w.Sketches.Indicator.{Light, colour_of, loop_call, loop_calls}

-- the calls at which the second is another one than before, and the answer at the last of them
abbrev pub changes : ℕ → List (ℕ × ℕ) → ℕ
changes second [] = 0
changes second ((millis, answer) ∷ later) =
    (if millis / 1000 == second then 0 else 1) + changes (millis / 1000) later

abbrev pub last_colour : ℕ → List (ℕ × ℕ) → Colour → Colour
last_colour second [] c = c
last_colour second ((millis, answer) ∷ later) c =
    last_colour (millis / 1000) later
      (if millis / 1000 == second then c else colour_of (answer % 256))

-- times that `millis` can return
abbrev pub AllBelow : List (ℕ × ℕ) → Type 0
AllBelow [] = Unit
AllBelow ((millis, answer) ∷ later) = (millis < 2 ^ 32) × AllBelow later

loop_call-same :
    (millis answer : ℕ) (l : Light)
    → millis / 1000 ≡ l.previous_time
    → millis < 2 ^ 32
    → loop_call millis answer l ≡ l
unfolding loop_call
loop_call-same millis answer l e h =
    let quiet : leb 1 ((millis / 1000 + 2 ^ 32 - l.previous_time) % 2 ^ 32) ≡ false =
      ground arith in
    rw quiet

loop_call-other :
    (millis answer : ℕ) (l : Light)
    → (millis / 1000 == l.previous_time) ≡ false
    → millis < 2 ^ 32
    → l.previous_time < 2 ^ 32
    → loop_call millis answer l ≡ record {
      previous_time = millis / 1000;
      strip = fill (colour_of (answer % 256)) l.strip;
      asked = l.asked + 1;
    }
unfolding loop_call
loop_call-other millis answer l e h h' =
    let due : leb 1 ((millis / 1000 + 2 ^ 32 - l.previous_time) % 2 ^ 32) ≡ true = ground arith in
    rw due

-- While `millis` gives numbers of 32 bits, also where they start again at 0, the account's program
-- is run exactly at the calls that find another second, and the whole strip has the colour of the
-- last answer modulo 256.
pub account_watched :
    (later : List (ℕ × ℕ)) (l : Light) (c : Colour)
    → AllBelow later
    → l.previous_time < 2 ^ 32
    → l.strip ≡ replicate pixel_num c
    → ((loop_calls later l).asked ≡ l.asked + changes l.previous_time later)
      × ((loop_calls later l).strip ≡ replicate pixel_num (last_colour l.previous_time later c))
unfolding loop_calls
account_watched [] l c all h s = (omega arith, s)
account_watched ((millis, answer) ∷ later) l c (below, all) h s =
    elim (Bool-cases (millis / 1000 == l.previous_time)) [
      | inl same ↦
          let e : millis / 1000 ≡ l.previous_time = ground arith in
          let (asked, strip) = account_watched later l c all h s in
          rw (loop_call-same millis answer l e below, loop_calls, same, e)
            (omega (arith, asked), strip)
      | inr other ↦
          let c' = colour_of (answer % 256) in
          let l' : Light = record {
            previous_time = millis / 1000;
            strip = fill c' l.strip;
            asked = l.asked + 1;
          } in
          let lit = ap length s ∙ length-replicate pixel_num c in
          let (asked, strip) =
            account_watched later l' c' all (omega arith) (fill-replicate c' l.strip lit) in
          rw (loop_call-other millis answer l other below h, loop_calls, other)
            (omega (arith, asked), strip)
    ]
