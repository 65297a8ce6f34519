-- ===== src/Music/Playing.antt =====
-- Which presses play a note, and what the presses play.
use small_project_for_life_w.Base.{
  ℕ, zero, suc, ◌+◌, ◌-◌, ◌≤◌, ◌<◌, ◌≡◌, refl, sym, ap, ◌∙◌, Bool, true, false, not, ◌&&◌,
  Bool-cases, inl, inr, Option, none, some, List, [], ◌∷◌, ◌++◌, map, append-nil, append_assoc,
  arith, length, get_or, take, if◌then◌else◌, ltb, leb,
}
use small_project_for_life_w.Music.{
  happybirthday_song, get_button_status, Pass, Song, since, note_at, pitch_of, beat_of, is_hit,
  show_arrow, press, play, MapFunction, Round, Game, song_of, game_round,
}

-- A press counts if it is that of the one button to which the arrow points: the first three arrows
-- point to the right.
pub is_hit_iff :
    (left right : Bool) (random_index : ℕ)
    → random_index < 6
    → is_hit (get_button_status left right) random_index
      ≡ (if ltb random_index 3 then right && not left else left && not right)
unfolding is_hit get_button_status
is_hit_iff true true r h = ground arith
is_hit_iff true false r h = ground arith
is_hit_iff false true r h = ground arith
is_hit_iff false false r h = ground arith

abbrev pub voice : ℕ × ℕ → ℕ × ℕ
voice n = (pitch_of n, beat_of n)

-- the song as `tone` plays it
abbrev pub melody : List (ℕ × ℕ)
melody = map voice happybirthday_song

take-next :
    (xs : List (ℕ × ℕ)) (j : ℕ) (d : ℕ × ℕ)
    → j < length xs
    → take (suc j) (map voice xs) ≡ take j (map voice xs) ++ voice (get_or xs j d) ∷ []
take-next [] j d h = absurd (omega arith)
take-next (x ∷ xs) zero d h = refl
take-next (x ∷ xs) (suc j) d h = ap (λ l. voice x ∷ l) (take-next xs j d (omega arith))

take-all : (xs : List (ℕ × ℕ)) (n : ℕ) → length xs ≤ n → take n (map voice xs) ≡ map voice xs
take-all [] zero h = refl
take-all [] (suc n) h = refl
take-all (x ∷ xs) zero h = absurd (omega arith)
take-all (x ∷ xs) (suc n) h = ap (λ l. voice x ∷ l) (take-all xs n (omega arith))

-- what has been played when the next note is the `i`th, behind what was played before
pub record Played (old : List (ℕ × ℕ)) (g : Song) : Type 0 where
  pub from_1 : 1 ≤ g.i
  pub within : g.i ≤ length happybirthday_song + 1
  pub so_far : g.tones ≡ old ++ take (g.i - 1) melody

show_arrow-Played :
    (old : List (ℕ × ℕ)) (p : Pass) (g : Song) → Played old g → Played old (show_arrow p g)
unfolding show_arrow
show_arrow-Played old p g h =
    by_case (ltb (beat_of (note_at g.i) + 100) (since p.now g.display_millis)) refl
  where
    by_case :
        (b : Bool)
        → ltb (beat_of (note_at g.i) + 100) (since p.now g.display_millis) ≡ b
        → Played old (show_arrow p g)
    by_case true e =
        rw (e, show_arrow) (record { from_1 = h.from_1; within = h.within; so_far = h.so_far })
    by_case false e = rw (e, show_arrow) h

press-Played :
    (old : List (ℕ × ℕ)) (p : Pass) (g : Song)
    → Played old g
    → g.i ≤ length happybirthday_song
    → Played old (press p g)
unfolding press
press-Played old p g h le =
    elim (Bool-cases (is_hit (get_button_status p.left p.right) g.random_index)) [
      | inl hit ↦
          let next = take-next happybirthday_song (g.i - 1) (0, 0) (omega (arith, h.from_1)) in
          let e : suc (g.i - 1) ≡ g.i = omega (arith, h.from_1) in
          let e' : g.i + 1 - 1 ≡ g.i = omega arith in
          rw (hit, press)
            (record {
              from_1 = omega arith;
              within = omega arith;
              so_far =
                  ap (λ l. l ++ voice (note_at g.i) ∷ []) h.so_far
                  ∙ append_assoc old (take (g.i - 1) melody) (voice (note_at g.i) ∷ [])
                  ∙ ap (λ l. old ++ l) (sym next ∙ ap (λ n. take n melody) (e ∙ sym e'));
            })
      | inr miss ↦ rw (miss, press) h
    ]

show_arrow-i : (p : Pass) (g : Song) → (show_arrow p g).i ≡ g.i
unfolding show_arrow
show_arrow-i p g = ground arith

pub play-Played :
    (old : List (ℕ × ℕ)) (passes : List Pass) (g : Song) → Played old g → Played old (play passes g)
unfolding play
play-Played old [] g h = h
play-Played old (p ∷ passes) g h = elim (Bool-cases (leb g.i (length happybirthday_song))) [
  | inl on ↦
      let shown = show_arrow-Played old p g h in
      let le : (show_arrow p g).i ≤ length happybirthday_song =
        rw (show_arrow-i p g) (ground arith) in
      rw on (
        play-Played old passes (press p (show_arrow p g))
          (press-Played old p (show_arrow p g) shown le))
  | inr over ↦ rw over h
]

-- However the player presses the buttons: when the game ends, it has played the whole song, each
-- note once and in order, behind what was played before.
pub game_round-melody :
    (map : MapFunction) (r : Round) (g g' : Game)
    → game_round map r g ≡ some g'
    → g'.tones ≡ g.tones ++ melody
unfolding game_round
game_round-melody map r g g' e =
    let song = play r.passes (song_of g) in
    let h =
      play-Played g.tones r.passes (song_of g)
        (record { from_1 = omega arith; within = first; so_far = sym (append-nil g.tones) }) in
    elim (Bool-cases (leb song.i (length happybirthday_song))) [
      | inl on ↦
          let e' : ◌≡◌ {A = Option Game} none (some g') = rw on at e in
          let bad : ⊥ = cc in absurd bad
      | inr over ↦
          let played : song.tones ≡ g'.tones = ap tones_of (rw over at e) in
          let last : length happybirthday_song ≤ song.i - 1 = ground arith in
          sym played
          ∙ h.so_far
          ∙ ap (λ l. g.tones ++ l) (take-all happybirthday_song (song.i - 1) last)
    ]
  where
    first : 1 ≤ length happybirthday_song + 1
    first = omega arith

    tones_of : Option Game → List (ℕ × ℕ)
    tones_of none = []
    tones_of (some g) = g.tones
