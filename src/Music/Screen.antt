-- ===== src/Music/Screen.antt =====
-- How often the result of a game is drawn.
use small_project_for_life_w.Base.{
  ℕ, ◌≤◌, ◌<◌, ◌≡◌, refl, ◌∙◌, Bool, true, false, ◌&&◌, Option, none, some, List, [], ◌∷◌, ◌++◌,
  arith, ltb, ◌==◌,
}
use small_project_for_life_w.Music.{
  game_stop, Look, Game, score_fail, time_interval, since, get_button_status, show_result,
  loop_call, MapFunction, Round,
}

-- one call of `loop` after the other
pub calls : MapFunction → List (Round × Look) → Game → Option Game
calls map [] g = some g
calls map ((r, k) ∷ later) g = elim (loop_call map r k g) [
  | none ↦ none
  | some g' ↦ calls map later g'
]

-- Each call reads the time at most three seconds after the one before, and no one presses both
-- buttons.
abbrev pub Quiet : ℕ → List (Round × Look) → Type 0
Quiet last [] = Unit
Quiet last ((r, k) ∷ later) =
    (since k.now last ≤ time_interval) × (k.left && k.right ≡ false) × Quiet k.then_now later

not_both : (left right : Bool) → left && right ≡ false → (get_button_status left right == 3) ≡ false
unfolding get_button_status
not_both true true h = cc
not_both true false h = refl
not_both false true h = refl
not_both false false h = refl

look_quiet :
    (map : MapFunction) (r : Round) (k : Look) (g : Game)
    → g.working_status ≡ game_stop
    → since k.now g.last_millis ≤ time_interval
    → k.left && k.right ≡ false
    → loop_call map r k g ≡ some (record g { last_millis = k.then_now })
unfolding loop_call show_result
look_quiet map r k g s near no_start =
    let early : ltb time_interval (since k.now g.last_millis) ≡ false = ground arith in
    let waits = not_both k.left k.right no_start in ground arith

look_late :
    (map : MapFunction) (r : Round) (k : Look) (g : Game)
    → g.working_status ≡ game_stop
    → time_interval < since k.now g.last_millis
    → k.left && k.right ≡ false
    → loop_call map r k g
      ≡ some
          (record g { last_millis = k.then_now; pictures = g.pictures ++ score_fail g.score ∷ [] })
unfolding loop_call show_result
look_late map r k g s far no_start =
    let late : ltb time_interval (since k.now g.last_millis) ≡ true = ground arith in
    let waits = not_both k.left k.right no_start in ground arith

calls-step :
    (map : MapFunction) (r : Round) (k : Look) (later : List (Round × Look)) (g g' : Game)
    → loop_call map r k g ≡ some g'
    → calls map ((r, k) ∷ later) g ≡ calls map later g'
unfolding calls
calls-step map r k later g g' e = ground arith

Quiet-pictures :
    (map : MapFunction) (later : List (Round × Look)) (g : Game)
    → g.working_status ≡ game_stop
    → Quiet g.last_millis later
    → (g' : Game) × (calls map later g ≡ some g')
      × (g'.pictures ≡ g.pictures)
      × (g'.working_status ≡ game_stop)
unfolding calls
Quiet-pictures map [] g s q = (g, refl, refl, s)
Quiet-pictures map ((r, k) ∷ later) g s (near, no_start, q) =
    let (g', run, same, still) =
      Quiet-pictures map later (record g { last_millis = k.then_now }) s q in
    (
      g',
      calls-step map r k later g (record g { last_millis = k.then_now })
            (look_quiet map r k g s near no_start)
          ∙ run,
      same,
      still,
    )

-- After a game that was lost and took more than three seconds, the score and "FAIL" are drawn at
-- the first call of `loop`, and not again while the calls are at most three seconds apart and no
-- one presses both buttons.
pub result_drawn-once :
    (map : MapFunction) (r : Round) (k : Look) (later : List (Round × Look)) (g : Game)
    → g.working_status ≡ game_stop
    → time_interval < since k.now g.last_millis
    → k.left && k.right ≡ false
    → Quiet k.then_now later
    → (g' : Game) × (calls map ((r, k) ∷ later) g ≡ some g')
      × (g'.pictures ≡ g.pictures ++ score_fail g.score ∷ [])
      × (g'.working_status ≡ game_stop)
result_drawn-once map r k later g s far no_start q =
    let drawn = record g {
      last_millis = k.then_now;
      pictures = g.pictures ++ score_fail g.score ∷ [];
    } in
    let (g', run, same, still) = Quiet-pictures map later drawn s q in
    (g', calls-step map r k later g drawn (look_late map r k g s far no_start) ∙ run, same, still)
