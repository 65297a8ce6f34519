-- ===== src/RingDemo/Samples.antt =====
-- A buffer of 40 bytes, into which the first thread puts twice before the second gets.
use small_project_for_life_w.Base.{
  ℕ, zero, suc, ◌+◌, ◌-◌, ◌*◌, ◌≡◌, refl, ap, [], ◌∷◌, ◌++◌, arith, length, take, drop,
  if◌then◌else◌, ltb,
}
use small_project_for_life_w.RingDemo.{
  Bytes, RingApi, size, count_up, Demo, pthread_func_1, pthread_func_2, by_1, by_2, Reach, here,
  next, started,
}
use small_project_for_life_w.RingDemo.Arrive.{Documented, numbers_arrive}

-- what there is room for
abbrev room : Bytes → Bytes → ℕ
room bytes q = if ltb (40 - length q) (length bytes) then 40 - length q else length bytes

abbrev api : RingApi Bytes
api = record {
  ring_buffer_put = λ bytes q. (room bytes q, q ++ take (room bytes q) bytes);
  ring_buffer_get = λ n q. (take n q, drop n q);
}

take-drop : (n : ℕ) (q : Bytes) → q ≡ take n q ++ drop n q
take-drop zero q = refl
take-drop (suc n) [] = refl
take-drop (suc n) (c ∷ q) = ap (λ l. c ∷ l) (take-drop n q)

api-Documented : Documented api (λ q. q)
api-Documented = record { puts = λ bytes q. (ground arith, refl); gets = take-drop }

abbrev full : Demo Bytes
full = pthread_func_1 api (pthread_func_1 api (started []))

abbrev later : Demo Bytes
later = pthread_func_2 api full

later-Reach : Reach api (started []) later
unfolding pthread_func_1 pthread_func_2
later-Reach = next (next (next here (by_1 refl)) (by_1 refl)) (by_2 refl)

numbers_arrive_example :
    (later.got ++ later.buffer ≡ later.accepted)
    × (length later.accepted + later.lost ≡ size * later.j)
    × (later.lost ≡ 0 → later.got ++ later.buffer ≡ count_up (size * later.j) 1)
numbers_arrive_example = numbers_arrive api (λ q. q) api-Documented [] later refl later-Reach

later_runs : (later.lost ≡ 24) × (length later.got ≡ 32)
unfolding pthread_func_1 pthread_func_2
later_runs = (refl, refl)
