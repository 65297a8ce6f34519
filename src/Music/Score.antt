-- ===== src/Music/Score.antt =====
-- The score of a game and what it is taken for.
use small_project_for_life_w.Base.{
  ℕ, suc, ◌+◌, ◌-◌, ◌*◌, ◌/◌, ◌%◌, ◌≤◌, ◌≡◌, arith, if◌then◌else◌, ltb, leb, ℤ, pos, negsuc,
}
use small_project_for_life_w.Base.Int.{sub_ℕ}
use small_project_for_life_w.Music.{game_stop, game_success, since, to_byte, finish, MapFunction}

-- The manual's formula for `map`, where it takes 0 to 100 and 30 to 0:
-- (x - in_min) * (out_max - out_min) / (in_max - in_min) + out_min
abbrev pub linear : ℤ → ℤ
linear (pos n) = sub_ℕ 100 (n * 100 / 30)
linear (negsuc n) = pos (suc n * 100 / 30 + 100)

abbrev pub capped : ℕ → ℕ
capped s = if ltb 30 s then 30 else s

score_of :
    (c : ℕ)
    → c ≤ 30
    → to_byte (linear (sub_ℕ (c % 256) 12))
      ≡ (if ltb c 12 then (12 - c) * 100 / 30 + 100 else 100 - (c - 12) * 100 / 30)
unfolding to_byte
score_of c h = ground arith

-- If `map` is linear, a game of `s` seconds is won exactly if `s` is at most 18; the score falls
-- from 140 at 0 seconds to 40 at 30 and more, and is 100 at 12.
pub finish-score :
    (map : MapFunction) (now now' last_millis s : ℕ)
    → ((x : ℤ) → map x (pos 0) (pos 30) (pos 100) (pos 0) ≡ linear x)
    → since now last_millis / 1000 ≡ s
    → since now' last_millis / 1000 ≡ s
    → let f = finish map now now' last_millis in
      (f.status ≡ (if leb s 18 then game_success else game_stop))
      × (f.temptime ≡ capped s)
      × (f.score
          ≡ (if ltb s 12 then (12 - s) * 100 / 30 + 100 else 100 - (capped s - 12) * 100 / 30))
unfolding finish
finish-score map now now' last_millis s maps e e' =
    let cap : capped s ≤ 30 = ground arith in
    rw (e, e', maps (sub_ℕ (capped s % 256) 12), score_of (capped s) cap)
      (ground arith, ground arith, ground arith)
