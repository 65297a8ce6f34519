-- ===== src/ThreadPool/Demo.antt =====
-- 20180731threadpoll-test/main.c: a pool of at least 3 and at most 20 threads, and a main thread
-- that adds 50 tasks, one for each number. Between its calls the pool goes on in any order.
use small_project_for_life_w.Base.{
  ℕ, zero, suc, ◌+◌, ◌*◌, ◌<◌, ◌≤◌, ◌≡◌, refl, sym, ap, subst, ◌∙◌, Bool, Option, some, List, [],
  ◌∷◌, ◌++◌, arith, length,
}
use small_project_for_life_w.ThreadPool.{
  Task, Pool, Fetch, block, leave, run, Wake, Added, full, refused, added, worker_fetch,
  worker_woken, worker_done, manager_round, manager_grow, add_task,
}
use small_project_for_life_w.ThreadPool.Ring.{waiting}
use small_project_for_life_w.ThreadPool.Growth.{manager_grow_lem, manager_shrink-only}
use small_project_for_life_w.ThreadPool.Outcome.{
  Outcome, blocked, left, took, worker_fetch-Outcome, worker_woken-Outcome,
}
use small_project_for_life_w.ThreadPool.System.{
  Place, System, after_section, after_add, Step, fetch, wake, start, finish, add, manage, destroy,
  Reach, here, next,
}
use small_project_for_life_w.ThreadPool.Create.{
  Calls, created, threadpoll_create, AllSucceed, launch,
}
use small_project_for_life_w.ThreadPool.Safety.{launch-Inv, launch_open, tasks_in_order}
use small_project_for_life_w.ThreadPool.Invariant.{Inv, Reach-Inv, round-result}

-- the arguments of `threadpoll_create`, and how many tasks are added
abbrev pub min_num : ℕ
min_num = 3

abbrev pub max_num : ℕ
max_num = 20

abbrev pub queue_slots : ℕ
queue_slots = 30

abbrev pub task_count : ℕ
task_count = 50

-- `process` with `&num[i]`, where an `int` has four bytes
abbrev pub number_task : (process num i : ℕ) → Task
number_task process num i = record { task_name = process; task_param = num + 4 * i }

-- the tasks of the numbers below `n`
unfoldable pub first_tasks : (process num n : ℕ) → List Task
first_tasks process num zero = []
first_tasks process num (suc n) = first_tasks process num n ++ number_task process num n ∷ []

-- A step that neither adds a task nor destroys the pool.
abbrev pub FromWithin : {s t : System} → Step s t → Type 0
FromWithin (fetch _ _ _ _) = Unit
FromWithin (wake _ _ _ _) = Unit
FromWithin (start _ _ _ _ _) = Unit
FromWithin (finish _ _ _ _) = Unit
FromWithin (add _ _) = ⊥
FromWithin (manage _ _ _ _ _ _) = Unit
FromWithin (destroy _) = ⊥

-- A call that waits is made again; any other is followed by that for the next number.
abbrev pub next_number : Added → ℕ → ℕ
next_number full i = i
next_number refused i = suc i
next_number added i = suc i

-- The pool, and the number that `main` has come to.
pub data DemoStep (process num : ℕ) (s t : System × ℕ) : Type 0 where
  inside : (step : Step s.0 t.0) → FromWithin step → t.1 ≡ s.1 → DemoStep process num s t
  adds :
      s.1 < task_count
      → t.0
        ≡ after_add s.0
            (number_task process num s.1)
            (add_task s.0.pool (number_task process num s.1))
      → t.1 ≡ next_number (add_task s.0.pool (number_task process num s.1)).0 s.1
      → DemoStep process num s t

pub data DemoReach (process num : ℕ) (s : System × ℕ) : System × ℕ → Type 0 where
  at_start : DemoReach process num s s
  goes_on :
      {t u : System × ℕ}
      → DemoReach process num s t
      → DemoStep process num t u
      → DemoReach process num s u

-- What a step from within leaves as it was.
abbrev Untouched : System → System → Type 0
Untouched s t = (t.pool.poll_state ≡ s.pool.poll_state) × (t.submitted ≡ s.submitted)

Outcome-switch :
    (p : Pool) (r : Fetch × Pool × List Wake) → Outcome p r → r.1.poll_state ≡ p.poll_state
Outcome-switch p r (blocked _ k _ _ _) = k.switch
Outcome-switch p r (left _ k _ _ _ _) = k.switch
Outcome-switch p r (took _ _ _ k _ _ _ _) = k.switch

section-Untouched :
    (s : System) (pre post : List Place) (r : Fetch × Pool × List Wake)
    → r.1.poll_state ≡ s.pool.poll_state
    → Untouched s (after_section s pre post r)
section-Untouched s pre post (block, p, w) e = (e, refl)
section-Untouched s pre post (leave, p, w) e = (e, refl)
section-Untouched s pre post (run slot, p, w) e = (e, refl)

done-switch : (p : Pool) → (worker_done p).poll_state ≡ p.poll_state
unfolding worker_done
done-switch p = refl

round-switch :
    (p : Pool) (kill : ℕ → Bool) (create : ℕ → Option ℕ) (q : Pool) (wakes : List Wake)
    → p.live_thread_num ≤ p.max_thread_num
    → manager_round kill create p ≡ some (q, wakes)
    → q.poll_state ≡ p.poll_state
unfolding manager_round
round-switch p kill create q wakes high e =
    let g = manager_grow kill create p in
    let (only, _, _, _, _, _) = manager_grow_lem kill create p high in
    ap (λ (x : Pool). x.poll_state) (round-result p g q e ∙ manager_shrink-only g)
    ∙ ap (λ (x : Pool). x.poll_state) only

add_task-switch : (p : Pool) (t : Task) → (add_task p t).1.poll_state ≡ p.poll_state
unfolding add_task
add_task-switch p t = ground arith

add_task-off : (p : Pool) (t : Task) → (add_task p t).0 ≡ refused → p.poll_state ≡ 0
unfolding add_task
add_task-off p t e = ground arith

within-Untouched : (s t : System) (step : Step s t) → FromWithin step → Inv s → Untouched s t
within-Untouched s t (fetch pre post at e) w v = subst (Untouched s) (sym e) (
    section-Untouched s pre post (worker_fetch s.pool)
      (Outcome-switch s.pool _ (worker_fetch-Outcome s.pool v.ring)))
within-Untouched s t (wake pre post at e) w v = subst (Untouched s) (sym e) (
    section-Untouched s pre post (worker_woken s.pool)
      (Outcome-switch s.pool _ (worker_woken-Outcome s.pool v.ring)))
within-Untouched s t (start pre post slot at e) w v = subst (Untouched s) (sym e) (refl, refl)
within-Untouched s t (finish pre post at e) w v =
    subst (Untouched s) (sym e) (done-switch s.pool, refl)
within-Untouched s t (add task e) w v = absurd w
within-Untouched s t (manage kill create q wakes e e') w v =
    subst (Untouched s) (sym e') (round-switch s.pool kill create q wakes v.high e, refl)
within-Untouched s t (destroy e) w v = absurd w

-- What holds of the pool and the number in every order of steps.
abbrev InOrder : (process num : ℕ) → System → System × ℕ → Type 0
InOrder process num s₀ (s, i) =
    Reach s₀ s
    × (s.pool.poll_state ≡ 1)
    × (s.submitted ≡ first_tasks process num i)
    × (i ≤ task_count)

module _ (process num : ℕ) (s₀ : System) (v₀ : Inv s₀) where
  added-InOrder :
      (s : System) (i : ℕ) (r : Added × Pool × List Wake)
      → r ≡ add_task s.pool (number_task process num i)
      → i < task_count
      → InOrder process num s₀ (s, i)
      → InOrder process num s₀ (after_add s (number_task process num i) r, next_number r.0 i)
  unfolding first_tasks
  added-InOrder s i (full, p, w) e below (reach, on, all, h) = (
    next reach (add (number_task process num i) (ap (after_add s (number_task process num i)) e)),
    ap (λ (r : Added × Pool × List Wake). r.1.poll_state) e
        ∙ add_task-switch s.pool (number_task process num i)
        ∙ on,
    all,
    h,
  )
  added-InOrder s i (refused, p, w) e below (reach, on, all, h) =
      let off =
        add_task-off s.pool (number_task process num i)
          (ap (λ (r : Added × Pool × List Wake). r.0) (sym e)) in
      absurd (omega (arith, on, off))
  added-InOrder s i (added, p, w) e below (reach, on, all, h) = (
    next reach (add (number_task process num i) (ap (after_add s (number_task process num i)) e)),
    ap (λ (r : Added × Pool × List Wake). r.1.poll_state) e
        ∙ add_task-switch s.pool (number_task process num i)
        ∙ on,
    ap (λ (ts : List Task). ts ++ number_task process num i ∷ []) all,
    omega (arith, below),
  )

  step-InOrder :
      (s t : System × ℕ)
      → DemoStep process num s t
      → InOrder process num s₀ s
      → InOrder process num s₀ t
  step-InOrder s t (inside step w e) (reach, on, all, h) =
      let (switch, same) = within-Untouched s.0 t.0 step w (Reach-Inv reach v₀) in
      (
        next reach step,
        switch ∙ on,
        same ∙ all ∙ ap (first_tasks process num) (sym e),
        omega (arith, e, h),
      )
  step-InOrder s t (adds below e e') known =
      rw (e, e')
        (added-InOrder s.0 s.1 (add_task s.0.pool (number_task process num s.1)) refl below known)

  reach-InOrder :
      (t : System × ℕ)
      → InOrder process num s₀ (s₀, 0)
      → DemoReach process num (s₀, 0) t
      → InOrder process num s₀ t
  reach-InOrder t known at_start = known
  reach-InOrder t known (goes_on {t = u} r step) = step-InOrder u t step (reach-InOrder u known r)

module _ (c : Calls) (slots : List Task) (ok : AllSucceed c min_num)
    (enough : length slots ≡ queue_slots) (p : Pool)
    (made : threadpoll_create c min_num max_num queue_slots slots ≡ created p) where
  -- Once the pool of the demonstration is there, however the pool and the main thread go on: the
  -- tasks taken, followed by those that wait, are those of the numbers that the main thread has
  -- passed, in order and each once; it never finds the pool closed.
  pub numbers_in_order :
      (process num : ℕ) (s : System) (i : ℕ)
      → DemoReach process num (launch p, 0) (s, i)
      → (s.taken ++ waiting s.pool ≡ first_tasks process num i)
        × (i ≤ task_count)
        × (s.pool.poll_state ≡ 1)
  unfolding first_tasks
  numbers_in_order process num s i r =
      let some_room : 0 < queue_slots = omega arith in
      let in_limits : min_num ≤ max_num = omega arith in
      let v = launch-Inv c min_num max_num queue_slots slots ok in_limits some_room enough p made in
      let on₀ =
        launch_open c min_num max_num queue_slots slots ok in_limits some_room enough p made in
      let (reach, on, all, h) =
        reach-InOrder process num (launch p) v (s, i) (here, on₀, refl, omega arith) r in
      (
        tasks_in_order c min_num max_num queue_slots slots ok in_limits some_room enough p made s
              reach
            ∙ all,
        h,
        on,
      )
