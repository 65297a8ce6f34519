-- ===== src/ThreadPool/Places.antt =====
-- The places of the workers: how many are busy, and those that the manager adds.
use small_project_for_life_w.Base.{
  replicate, ◌-◌, ℕ, zero, suc, ◌+◌, ◌≤◌, ◌≡◌, refl, some, none, Option, Bool, List, [], ◌∷◌, ◌++◌,
  arith, length,
}
use small_project_for_life_w.ThreadPool.{Pool, grow_round, grow_loop, manager_grow}
use small_project_for_life_w.ThreadPool.System.{
  Place, ready, asleep, holding, working, uncreated, place_of, grow_places, new_places,
}

-- A worker counts as busy from the lock under which it takes a task to the lock behind the task.
abbrev pub is_busy : Place → ℕ
is_busy ready = 0
is_busy asleep = 0
is_busy (holding _) = 1
is_busy working = 1
is_busy uncreated = 0

abbrev pub count_busy : List Place → ℕ
count_busy [] = 0
count_busy (w ∷ ws) = is_busy w + count_busy ws

pub count_busy-append : (xs ys : List Place) → count_busy (xs ++ ys) ≡ count_busy xs + count_busy ys
count_busy-append [] ys = omega arith
count_busy-append (x ∷ xs) ys = omega (arith, count_busy-append xs ys)

pub count_busy-ready : (n : ℕ) → count_busy (replicate n ready) ≡ 0
count_busy-ready zero = refl
count_busy-ready (suc n) = omega (arith, count_busy-ready n)

pub count_busy-le : (ws : List Place) → count_busy ws ≤ length ws
count_busy-le [] = omega arith
count_busy-le (ready ∷ ws) = omega (arith, count_busy-le ws)
count_busy-le (asleep ∷ ws) = omega (arith, count_busy-le ws)
count_busy-le (holding _ ∷ ws) = omega (arith, count_busy-le ws)
count_busy-le (working ∷ ws) = omega (arith, count_busy-le ws)
count_busy-le (uncreated ∷ ws) = omega (arith, count_busy-le ws)

-- the threads that the code counts though they could not be created
abbrev pub is_uncreated : Place → ℕ
is_uncreated ready = 0
is_uncreated asleep = 0
is_uncreated (holding _) = 0
is_uncreated working = 0
is_uncreated uncreated = 1

abbrev pub count_uncreated : List Place → ℕ
count_uncreated [] = 0
count_uncreated (w ∷ ws) = is_uncreated w + count_uncreated ws

-- the threads that there are
abbrev pub count_created : List Place → ℕ
count_created [] = 0
count_created (w ∷ ws) = 1 - is_uncreated w + count_created ws

pub count_uncreated-append :
    (xs ys : List Place) → count_uncreated (xs ++ ys) ≡ count_uncreated xs + count_uncreated ys
count_uncreated-append [] ys = omega arith
count_uncreated-append (x ∷ xs) ys = omega (arith, count_uncreated-append xs ys)

pub count_created-append :
    (xs ys : List Place) → count_created (xs ++ ys) ≡ count_created xs + count_created ys
count_created-append [] ys = omega arith
count_created-append (x ∷ xs) ys = omega (arith, count_created-append xs ys)

pub is_uncreated-le : (w : Place) → is_uncreated w ≤ 1
is_uncreated-le ready = omega arith
is_uncreated-le asleep = omega arith
is_uncreated-le (holding _) = omega arith
is_uncreated-le working = omega arith
is_uncreated-le uncreated = omega arith

pub count_created_lem : (ws : List Place) → length ws ≡ count_created ws + count_uncreated ws
count_created_lem [] = refl
count_created_lem (w ∷ ws) = omega (arith, is_uncreated-le w, count_created_lem ws)

-- The loop of the manager counts as many threads as it gives places, and none of them is busy.
grow_places-length :
    (kill : ℕ → Bool) (create : ℕ → Option ℕ) (k i counted : ℕ) (p : Pool)
    → (grow_loop kill create k i (counted, p)).1.live_thread_num
      ≡ p.live_thread_num + length (grow_places kill create k i (counted, p))
unfolding grow_loop grow_places grow_round
grow_places-length kill create zero i counted p = omega arith
grow_places-length kill create (suc k) i counted p =
    let r = grow_round kill create i (counted, p) in
    ground (arith, grow_places-length kill create k (i + 1) r.0 r.1)

place_of-idle : (r : Option ℕ) → is_busy (place_of r) ≡ 0
place_of-idle none = refl
place_of-idle (some tid) = refl

grow_places-idle :
    (kill : ℕ → Bool) (create : ℕ → Option ℕ) (k i counted : ℕ) (p : Pool)
    → count_busy (grow_places kill create k i (counted, p)) ≡ 0
unfolding grow_places
grow_places-idle kill create zero i counted p = refl
grow_places-idle kill create (suc k) i counted p =
    let r = grow_round kill create i (counted, p) in
    ground (arith, grow_places-idle kill create k (i + 1) r.0 r.1, place_of-idle (create i))

pub new_places-length :
    (kill : ℕ → Bool) (create : ℕ → Option ℕ) (p : Pool)
    → (manager_grow kill create p).live_thread_num
      ≡ p.live_thread_num + length (new_places kill create p)
unfolding manager_grow new_places
new_places-length kill create p =
    ground (arith, grow_places-length kill create p.max_thread_num 0 0 p)

pub new_places-idle :
    (kill : ℕ → Bool) (create : ℕ → Option ℕ) (p : Pool) → count_busy (new_places kill create p) ≡ 0
unfolding new_places
new_places-idle kill create p = ground (arith, grow_places-idle kill create p.max_thread_num 0 0 p)
