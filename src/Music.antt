-- ===== src/Music.antt =====
-- The game of 20170626/Arduino_music/Arduino_music.ino: arrows are shown, and each press of the
-- button that an arrow points at plays the next note of a song. What `millis`, `random` and the
-- pins give is an argument of each step; what is drawn is a list of pictures.
pub mod Playing
pub mod Score
pub mod Screen
mod Samples
use small_project_for_life_w.Base.{
  ℕ, zero, suc, ◌+◌, ◌-◌, ◌*◌, ◌/◌, ◌%◌, ◌^◌, Option, none, some, Bool, true, false, not, ◌&&◌,
  List, [], ◌∷◌, ◌++◌, length, get_or, ◌==◌, if◌then◌else◌, ltb, leb, ℤ, pos, negsuc,
}
use small_project_for_life_w.Base.Int.{sub_ℕ, pos_part, neg_part}

pub data Status : Type 0 where
  game_start : Status
  game_stop : Status
  game_success : Status
  idle : Status

abbrev pub time_interval : ℕ
time_interval = 3000

-- the second column of MusicType, in Hertz
pub music_type : List ℕ
music_type =
    0 ∷ 262 ∷ 262 ∷ 330 ∷ 349 ∷ 392 ∷ 440 ∷ 494 ∷ 523 ∷ 587 ∷ 659 ∷ 698 ∷ 784 ∷ 880 ∷ 988 ∷ 1047
    ∷ 1175 ∷ 1319 ∷ 1397 ∷ 1568 ∷ 1760 ∷ 1976 ∷ []

-- the second column of beat_time, in milliseconds
pub beat_time : List ℕ
beat_time = 500 ∷ 1000 ∷ 2000 ∷ 4000 ∷ 250 ∷ 125 ∷ 62 ∷ 31 ∷ []

-- the notes of the song, each the number of a pitch and of a beat
pub happybirthday_song : List (ℕ × ℕ)
happybirthday_song =
    (5, 4)
    ∷ (5, 4)
    ∷ (6, 0)
    ∷ (5, 0)
    ∷ (8, 0)
    ∷ (7, 1)
    ∷ (5, 4)
    ∷ (5, 4)
    ∷ (6, 0)
    ∷ (5, 0)
    ∷ (9, 0)
    ∷ (8, 1)
    ∷ (5, 4)
    ∷ (5, 4)
    ∷ (12, 0)
    ∷ (10, 0)
    ∷ (8, 0)
    ∷ (7, 0)
    ∷ (6, 0)
    ∷ (11, 4)
    ∷ (11, 5)
    ∷ (10, 0)
    ∷ (8, 0)
    ∷ (9, 0)
    ∷ (8, 1)
    ∷ []

-- the difference of two `uint32_t`
pub since : (now before : ℕ) → ℕ
since now before = (now + 2 ^ 32 - before) % 2 ^ 32

-- `getButtonStatus`, of the pins that are HIGH
pub get_button_status : (left right : Bool) → ℕ
get_button_status left right =
    if right && left then 3 else if left then 2 else if right then 1 else 0

-- A pass of the loop over the song: the two readings of `millis`, what `random(0,6)` gives, and the
-- pins at the second call of `getButtonStatus`, which is the one that counts.
pub record Pass : Type 0 where
  pub now : ℕ
  pub shown_at : ℕ
  pub roll : ℕ
  pub left : Bool
  pub right : Bool

-- the loop's variables; `tones` are the calls of `tone`, with frequency and duration
pub record Song : Type 0 where
  pub i : ℕ
  pub display_millis : ℕ
  pub random_index : ℕ
  pub tones : List (ℕ × ℕ)

abbrev pub note_at : ℕ → ℕ × ℕ
note_at i = get_or happybirthday_song (i - 1) (0, 0)

pub pitch_of : ℕ × ℕ → ℕ
pitch_of n = get_or music_type n.0 0

pub beat_of : ℕ × ℕ → ℕ
beat_of n = get_or beat_time n.1 0

-- `((status-1) == random_index/3) && status != 0 && status != 3`; the left side is -1 for 0
pub is_hit : (status random_index : ℕ) → Bool
is_hit status random_index =
    ltb 0 status && (status - 1 == random_index / 3) && not (status == 0) && not (status == 3)

pub show_arrow : Pass → Song → Song
show_arrow p g =
    if ltb (beat_of (note_at g.i) + 100) (since p.now g.display_millis)
    then record g { random_index = p.roll; display_millis = p.shown_at }
    else g

pub press : Pass → Song → Song
press p g =
    if is_hit (get_button_status p.left p.right) g.random_index
    then record g {
      tones = g.tones ++ (pitch_of (note_at g.i), beat_of (note_at g.i)) ∷ [];
      i = g.i + 1;
    }
    else g

-- The loop, over the passes that are made while the song lasts.
pub play : List Pass → Song → Song
play [] g = g
play (p ∷ passes) g =
    let rest = play passes (press p (show_arrow p g)) in
    if leb g.i (length happybirthday_song) then rest else g

-- The end of a game: `map` is the library's, and the time is read once for the test and once more.
pub record Finish : Type 0 where
  pub temptime : ℕ
  pub score : ℕ
  pub status : Status

-- an integer in a `uint8_t`
pub to_byte : ℤ → ℕ
to_byte (pos n) = n % 256
to_byte (negsuc n) = 255 - n % 256

pub finish : (map : (x in_min in_max out_min out_max : ℤ) → ℤ) → (now now' last_millis : ℕ) → Finish
unfolding since to_byte
finish map now now' last_millis =
    let temptime =
      (if ltb 30 (since now last_millis / 1000) then 30 else since now' last_millis / 1000) % 256 in
    let score = to_byte (map (sub_ℕ temptime 12) (pos 0) (pos 30) (pos 100) (pos 0)) in
    record {
      temptime = temptime;
      score = score;
      status = if leb 80 score then game_success else game_stop;
    }

pub data Picture : Type 0 where
  score_fail : ℕ → Picture
  score_win : ℕ → Picture
  logo : Picture

-- what is kept between calls of `loop`
pub record Game : Type 0 where
  pub working_status : Status
  pub score : ℕ
  pub last_millis : ℕ
  pub display_millis : ℕ
  pub random_index : ℕ
  pub pictures : List Picture
  pub tones : List (ℕ × ℕ)

-- one call of `loop` while the game stands, with two readings of `millis` and the pins
pub record Look : Type 0 where
  pub now : ℕ
  pub then_now : ℕ
  pub left : Bool
  pub right : Bool

-- GameStop and GameSuccess
pub show_result : (ℕ → Picture) → Look → Game → Game
show_result picture k g =
    let shown =
      if ltb time_interval (since k.now g.last_millis)
      then g.pictures ++ picture g.score ∷ []
      else g.pictures in
    record g {
      pictures = shown;
      last_millis = k.then_now;
      working_status =
          if get_button_status k.left k.right == 3 then game_start else g.working_status;
    }

pub wait_idle : Look → Game → Game
wait_idle k g =
    let g' =
      if get_button_status k.left k.right == 3
      then record g { working_status = game_start }
      else g in
    if ltb (time_interval + 5000) (since k.now g.last_millis)
    then record g' { last_millis = k.then_now; pictures = g.pictures ++ logo ∷ [] }
    else g'

-- what the game itself takes: the passes of the song, and the time at its start and end
pub record Round : Type 0 where
  pub started_at : ℕ
  pub passes : List Pass
  pub now : ℕ
  pub now' : ℕ

abbrev pub MapFunction : Type 0
MapFunction = (x in_min in_max out_min out_max : ℤ) → ℤ

-- the song as it starts
abbrev pub song_of : Game → Song
song_of g = record {
  i = 1;
  display_millis = g.display_millis;
  random_index = g.random_index;
  tones = g.tones;
}

-- GameStart; `none` while the song goes on behind the passes
pub game_round : MapFunction → Round → Game → Option Game
game_round map r g =
    let song = play r.passes (song_of g) in
    let f = finish map r.now r.now' r.started_at in
    if leb song.i (length happybirthday_song)
    then none
    else some (record g {
      last_millis = r.started_at;
      score = f.score;
      working_status = f.status;
      display_millis = song.display_millis;
      random_index = song.random_index;
      tones = song.tones;
    })

pub loop_call : MapFunction → Round → Look → Game → Option Game
loop_call map r k g = elim g.working_status [
  | game_start ↦ game_round map r g
  | game_stop ↦ some (show_result score_fail k g)
  | game_success ↦ some (show_result score_win k g)
  | idle ↦ some (wait_idle k g)
]

-- `setup`
pub setup : ℕ → Game
setup now = record {
  working_status = idle;
  score = 66;
  last_millis = now;
  display_millis = since now 5000;
  random_index = 0;
  pictures = logo ∷ [];
  tones = [];
}
