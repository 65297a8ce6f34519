-- ===== src/Sketches/Backdoor/Openings.antt =====
-- How often backdoor.ino triggers the recorder, and what its strip shows.
use small_project_for_life_w.Base.{
  ℕ, zero, suc, ◌≡◌, refl, sym, ap, ◌∙◌, Bool, true, false, List, [], ◌∷◌, ◌++◌, append-nil,
  append_assoc, arith, length, length-replicate, replicate, if◌then◌else◌,
}
use small_project_for_life_w.Sketches.{Colour, pixel_num, fill}
use small_project_for_life_w.Sketches.Strip.{fill-replicate}
use small_project_for_life_w.Sketches.Backdoor.{Door, setup, loop_call, loop_calls}

-- how often the door is found open right after it was found closed
abbrev pub openings : (was_closed : Bool) → List Bool → ℕ
openings was_closed [] = 0
openings true (true ∷ readings) = suc (openings false readings)
openings false (true ∷ readings) = openings false readings
openings true (false ∷ readings) = openings true readings
openings false (false ∷ readings) = openings true readings

-- pulses of the recorder's pin, each LOW and then HIGH
abbrev pub pulses : ℕ → List Bool
pulses zero = []
pulses (suc n) = false ∷ true ∷ pulses n

abbrev pub flag_of : Bool → ℕ
flag_of true = 1
flag_of false = 0

-- the state of the door at the last reading
abbrev pub last_closed : Bool → List Bool → Bool
last_closed was [] = was
last_closed was (is_low ∷ readings) = last_closed (if is_low then false else true) readings

abbrev pub colour_of : Bool → Colour
colour_of shut = if shut then (160, 0, 0) else (0, 160, 0)

opened :
    (d : Door)
    → d.flag ≡ 1
    → loop_call true d ≡ record {
      flag = 0;
      strip = fill (0, 160, 0) d.strip;
      recorder = d.recorder ++ false ∷ true ∷ [];
    }
unfolding loop_call
opened d f = ground arith

still_open :
    (d : Door) → d.flag ≡ 0 → loop_call true d ≡ record d { strip = fill (0, 160, 0) d.strip }
unfolding loop_call
still_open d f = ground arith

closed : (d : Door) → loop_call false d ≡ record d { flag = 1; strip = fill (160, 0, 0) d.strip }
unfolding loop_call
closed d = refl

-- after some readings, from a state in which the door was or was not found closed
loop_calls-pulses :
    (was : Bool) (readings : List Bool) (d : Door)
    → d.flag ≡ flag_of was
    → (loop_calls readings d).recorder ≡ d.recorder ++ pulses (openings was readings)
unfolding loop_calls
loop_calls-pulses was [] d f = sym (append-nil d.recorder)
loop_calls-pulses true (true ∷ readings) d f =
    rw (opened d f, loop_calls)
      (loop_calls-pulses false readings
          (record {
            flag = 0;
            strip = fill (0, 160, 0) d.strip;
            recorder = d.recorder ++ false ∷ true ∷ [];
          })
          refl
        ∙ append_assoc d.recorder (false ∷ true ∷ []) (pulses (openings false readings)))
loop_calls-pulses false (true ∷ readings) d f =
    rw (still_open d f, loop_calls)
      (loop_calls-pulses false readings (record d { strip = fill (0, 160, 0) d.strip }) f)
loop_calls-pulses true (false ∷ readings) d f =
    rw (closed d, loop_calls)
      (loop_calls-pulses true readings (record d { flag = 1; strip = fill (160, 0, 0) d.strip })
        refl)
loop_calls-pulses false (false ∷ readings) d f =
    rw (closed d, loop_calls)
      (loop_calls-pulses true readings (record d { flag = 1; strip = fill (160, 0, 0) d.strip })
        refl)

loop_call-strip :
    (is_low : Bool) (d : Door)
    → length d.strip ≡ pixel_num
    → (loop_call is_low d).strip ≡ replicate pixel_num (colour_of (if is_low then false else true))
unfolding loop_call
loop_call-strip true d h = fill-replicate (0, 160, 0) d.strip h
loop_call-strip false d h = fill-replicate (160, 0, 0) d.strip h

loop_calls-strip :
    (is_low : Bool) (readings : List Bool) (d : Door)
    → length d.strip ≡ pixel_num
    → (loop_calls (is_low ∷ readings) d).strip
      ≡ replicate pixel_num (colour_of (last_closed true (is_low ∷ readings)))
unfolding loop_calls
loop_calls-strip is_low [] d h = loop_call-strip is_low d h
loop_calls-strip is_low (next ∷ readings) d h =
    loop_calls-strip next readings (loop_call is_low d) (
      ap length (loop_call-strip is_low d h)
      ∙ length-replicate pixel_num (colour_of (if is_low then false else true)))

-- From `setup` on, the recorder's pin goes LOW and HIGH once for each time that the door is found
-- open right after it was found closed, and the whole strip is green while the last reading is
-- open and red while it is closed.
pub door_watched :
    (strip : List Colour) (is_low : Bool) (readings : List Bool)
    → length strip ≡ pixel_num
    → let d = loop_calls (is_low ∷ readings) (setup strip) in
      (d.recorder ≡ true ∷ pulses (openings false (is_low ∷ readings)))
      × (d.strip ≡ replicate pixel_num (colour_of (last_closed true (is_low ∷ readings))))
unfolding setup
door_watched strip is_low readings h =
    let lit =
      ap length (fill-replicate (160, 160, 0) strip h)
      ∙ length-replicate {A = Colour} pixel_num (160, 160, 0) in
    (
      loop_calls-pulses false (is_low ∷ readings) (setup strip) refl,
      loop_calls-strip is_low readings (setup strip) lit,
    )
