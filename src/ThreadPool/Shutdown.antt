-- ===== src/ThreadPool/Shutdown.antt =====
-- The pool behind `threadpoll_destroy`: what becomes of its tasks, and of its workers' sections.
use small_project_for_life_w.Base.{
  ℕ, ◌+◌, ◌≤◌, ◌≡◌, refl, sym, ap, ◌∙◌, ◌⊎◌, inl, inr, Bool, true, false, Option, some, List, [],
  ◌∷◌, ◌++◌, arith, ◌==◌, ◌&&◌, ◌-◌, ltb, Bool-cases, subst,
}
use small_project_for_life_w.ThreadPool.{
  Task, Pool, Fetch, block, leave, run, Wake, refused, leave_pool, worker_fetch, worker_woken,
  worker_done, read_task, manager_round, add_task, disable,
}
use small_project_for_life_w.ThreadPool.Ring.{waiting}
use small_project_for_life_w.ThreadPool.Places.{
  is_uncreated, count_uncreated, count_uncreated-append,
}
use small_project_for_life_w.ThreadPool.System.{
  Place, ready, asleep, holding, working, uncreated, System, after_section, after_add, Step, fetch,
  wake, start, finish, add, manage, destroy, Reach, here, next,
}

-- `threadpoll_destroy` has been called.
abbrev pub Closed : System → Type 0
Closed s = s.pool.poll_state ≡ 0

-- the critical sections that a worker has before it when the pool is closed, and its task
abbrev pub sections_left : Place → ℕ
sections_left ready = 1
sections_left asleep = 1
sections_left (holding _) = 3
sections_left working = 2
sections_left uncreated = 0

abbrev pub load : List Place → ℕ
load [] = 0
load (w ∷ ws) = sections_left w + load ws

load-append : (xs ys : List Place) → load (xs ++ ys) ≡ load xs + load ys
load-append [] ys = omega arith
load-append (x ∷ xs) ys = omega (arith, load-append xs ys)

-- what a closed pool keeps, with one section less to go
pub record Drained (s t : System) : Type 0 where
  pub closed : Closed t
  pub taken : t.taken ≡ s.taken
  pub submitted : t.submitted ≡ s.submitted
  pub waiting_tasks : waiting t.pool ≡ waiting s.pool
  pub less : load t.workers + 1 ≡ load s.workers
  pub uncreated_same : count_uncreated t.workers ≡ count_uncreated s.workers

-- A critical section ends with the worker's exit.
abbrev pub Leaves : Pool → Fetch × Pool × List Wake → Type 0
Leaves p r = (r.0 ≡ leave) × (waiting r.1 ≡ waiting p) × (r.1.poll_state ≡ p.poll_state)

leave_pool-Leaves : (p : Pool) → Leaves p (leave_pool p)
unfolding leave_pool
leave_pool-Leaves p = (refl, refl, refl)

-- In a closed pool a worker leaves, whether it comes to the lock or wakes.
pub worker_fetch-Leaves : (p : Pool) → p.poll_state ≡ 0 → Leaves p (worker_fetch p)
unfolding worker_fetch
worker_fetch-Leaves p off =
    let not_open : (p.poll_state == 1 && p.task_queue_size == 0) ≡ false = ground arith in
    let shut : (p.poll_state == 0) ≡ true = ground arith in
    rw (not_open, shut) (leave_pool-Leaves p)

pub worker_woken-Leaves : (p : Pool) → p.poll_state ≡ 0 → Leaves p (worker_woken p)
unfolding worker_woken
worker_woken-Leaves p off =
    let q = record p { wait_exit_thread_num = p.wait_exit_thread_num - 1 } in
    elim (Bool-cases (ltb 0 p.wait_exit_thread_num)) [
      | inl asked ↦ rw asked (elim (Bool-cases (ltb p.min_thread_num p.live_thread_num)) [
        | inl spare ↦ rw spare (leave_pool-Leaves q)
        | inr needed ↦ rw needed (worker_fetch-Leaves q off)
      ])
      | inr not_asked ↦ rw not_asked (worker_fetch-Leaves p off)
    ]

add_task-refused : (p : Pool) (t : Task) → p.poll_state ≡ 0 → add_task p t ≡ (refused, p, [])
unfolding add_task
add_task-refused p t off = ground arith

no_round :
    (p : Pool) (kill : ℕ → Bool) (create : ℕ → Option ℕ) (q : Pool) (wakes : List Wake)
    → p.poll_state ≡ 0
    → ¬ (manager_round kill create p ≡ some (q, wakes))
unfolding manager_round
no_round p kill create q wakes off e = ground arith

module _ (s : System) (off : Closed s) (pre post : List Place) where
  pub section-Drained :
      (w : Place) (r : Fetch × Pool × List Wake)
      → s.workers ≡ pre ++ w ∷ post
      → sections_left w ≡ 1
      → is_uncreated w ≡ 0
      → Leaves s.pool r
      → Drained s (after_section s pre post r)
  section-Drained w (leave, q, wakes) at one created (e, same, shut) = record {
    closed = shut ∙ off;
    taken = refl;
    submitted = refl;
    waiting_tasks = same;
    less = omega (arith, ap load at, load-append pre (w ∷ post), load-append pre post, one);
    uncreated_same = omega (
      arith,
      ap count_uncreated at,
      created,
      count_uncreated-append pre (w ∷ post),
      count_uncreated-append pre post,
    );
  }
  section-Drained w (block, q, wakes) at one created (e, same, shut) = cc
  section-Drained w (run slot, q, wakes) at one created (e, same, shut) = cc

  pub start-Drained :
      (slot : ℕ)
      → s.workers ≡ pre ++ holding slot ∷ post
      → Drained s (record s {
        workers = pre ++ working ∷ post;
        executed = s.executed ++ (read_task s.pool slot ∷ []);
      })
  start-Drained slot at = record {
    closed = off;
    taken = refl;
    submitted = refl;
    waiting_tasks = refl;
    less = omega (
      arith,
      ap load at,
      load-append pre (holding slot ∷ post),
      load-append pre (working ∷ post),
    );
    uncreated_same = omega (
      arith,
      ap count_uncreated at,
      count_uncreated-append pre (holding slot ∷ post),
      count_uncreated-append pre (working ∷ post),
    );
  }

  pub finish-Drained :
      s.workers ≡ pre ++ working ∷ post
      → Drained s (record s { pool = worker_done s.pool; workers = pre ++ ready ∷ post })
  unfolding worker_done
  finish-Drained at = record {
    closed = off;
    taken = refl;
    submitted = refl;
    waiting_tasks = refl;
    less =
        omega (arith, ap load at, load-append pre (working ∷ post), load-append pre (ready ∷ post));
    uncreated_same = omega (
      arith,
      ap count_uncreated at,
      count_uncreated-append pre (working ∷ post),
      count_uncreated-append pre (ready ∷ post),
    );
  }

-- A step of a closed pool changes nothing, or it is a worker's: then no task is taken or added, and
-- the worker has one section less before it.
closed_step : (s t : System) → Closed s → Step s t → (t ≡ s) ⊎ Drained s t
unfolding disable
closed_step s t off (fetch pre post at e) = inr (
    subst (Drained s) (sym e) (
      section-Drained s off pre post ready (worker_fetch s.pool) at refl refl
        (worker_fetch-Leaves s.pool off)))
closed_step s t off (wake pre post at e) = inr (
    subst (Drained s) (sym e) (
      section-Drained s off pre post asleep (worker_woken s.pool) at refl refl
        (worker_woken-Leaves s.pool off)))
closed_step s t off (start pre post slot at e) =
    inr (subst (Drained s) (sym e) (start-Drained s off pre post slot at))
closed_step s t off (finish pre post at e) =
    inr (subst (Drained s) (sym e) (finish-Drained s off pre post at))
closed_step s t off (add task e) =
    inl (e ∙ ap (after_add s task) (add_task-refused s.pool task off))
closed_step s t off (manage kill create q wakes e e') =
    absurd (no_round s.pool kill create q wakes off e)
closed_step s t off (destroy e) =
    inl (e ∙ ap (λ (k : ℕ). record s { pool = record s.pool { poll_state = k } }) (sym off))

-- the sections that workers have gone through on the way
abbrev pub Drains : System → System → Type 0
Drains s t =
    Closed t
    × (t.taken ≡ s.taken)
    × (t.submitted ≡ s.submitted)
    × (waiting t.pool ≡ waiting s.pool)
    × (load t.workers ≤ load s.workers)
    × (count_uncreated t.workers ≡ count_uncreated s.workers)

-- Once `threadpoll_destroy` has been called: however the steps go on, no task is taken off the
-- queue or added to it any more, the tasks in it stay those that they were then, the workers have
-- no more critical sections before them than then, and the threads that could not be created stay
-- counted.
pub closed_pool : (s t : System) → Closed s → Reach s t → Drains s t
closed_pool s t off here = (off, refl, refl, refl, omega arith, refl)
closed_pool s t off (next {t = u} r step) =
    let (off', taken, submitted, waits, least, lost) = closed_pool s u off r in
    elim (closed_step u t off' step) [
      | inl same ↦ subst (Drains s) (sym same) (off', taken, submitted, waits, least, lost)
      | inr d ↦ (
        d.closed,
        d.taken ∙ taken,
        d.submitted ∙ submitted,
        d.waiting_tasks ∙ waits,
        omega (arith, d.less, least),
        d.uncreated_same ∙ lost,
      )
    ]
