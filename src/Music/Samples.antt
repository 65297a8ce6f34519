-- ===== src/Music/Samples.antt =====
-- The theorems on the game, at one whose player presses the right button all the time.
use small_project_for_life_w.Base.{◌≡◌, refl, true, false, some, [], ◌++◌, replicate}
use small_project_for_life_w.Music.{
  game_start, game_stop, music_type, beat_time, happybirthday_song, since, get_button_status, Pass,
  pitch_of, beat_of, is_hit, show_arrow, press, play, to_byte, finish, Game, MapFunction, Round,
  game_round,
}
use small_project_for_life_w.Music.Playing.{melody, game_round-melody}
use small_project_for_life_w.Music.Score.{linear}

abbrev map : MapFunction
map x in_min in_max out_min out_max = linear x

-- the first arrow is drawn at once, and points to the right
abbrev pressing : Pass
pressing = record { now = 9000; shown_at = 9000; roll = 1; left = false; right = true }

abbrev round : Round
round = record { started_at = 8000; passes = replicate 25 pressing; now = 30000; now' = 30000 }

abbrev before_game : Game
before_game = record {
  working_status = game_start;
  score = 66;
  last_millis = 0;
  display_millis = 0;
  random_index = 0;
  pictures = [];
  tones = [];
}

abbrev after_game : Game
after_game = record before_game {
  working_status = game_stop;
  score = 67;
  last_millis = 8000;
  display_millis = 9000;
  random_index = 1;
  tones = melody;
}

round_ends : game_round map round before_game ≡ some after_game
unfolding game_round play show_arrow press since beat_of pitch_of is_hit get_button_status
    happybirthday_song beat_time music_type finish to_byte
round_ends = refl

game_round-melody_example : melody ≡ [] ++ melody
game_round-melody_example = game_round-melody map round before_game after_game round_ends
