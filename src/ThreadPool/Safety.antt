-- ===== src/ThreadPool/Safety.antt =====
-- The pool from `threadpoll_create` on: what holds in every state that its users can bring about.
use small_project_for_life_w.Base.{
  ℕ, zero, suc, ◌+◌, ◌≤◌, ◌<◌, ◌≡◌, refl, subst, ◌∙◌, true, List, ◌++◌, arith, length, leb, false,
  get_or, set, replicate, length-set, length-replicate, get_or-set_self, get_or-set_ne,
}
use native.Mathlib.Decide.{ℕ_discrete}
use small_project_for_life_w.ThreadPool.{Task, Pool, copy_tids, set_max_thread_num}
use small_project_for_life_w.ThreadPool.Ring.{waiting, length-behind}
use small_project_for_life_w.ThreadPool.Create.{
  Calls, created, threadpoll_create, AllSucceed, launch, create-Inv,
}
use small_project_for_life_w.ThreadPool.System.{System, Reach}
use small_project_for_life_w.ThreadPool.Invariant.{Inv, Reach-Inv}
use small_project_for_life_w.ThreadPool.Places.{
  count_busy, count_busy-le, count_created, count_uncreated, count_created_lem,
}

module _ (c : Calls) (min_num max_num cap : ℕ) (slots : List Task) (ok : AllSucceed c min_num)
    (in_order : min_num ≤ max_num) (room : 0 < cap) (enough : length slots ≡ cap) (p : Pool)
    (made : threadpoll_create c min_num max_num cap slots ≡ created p) where
  pub launch-Inv : Inv (launch p)
  launch-Inv =
      let (q, e, _, _, _, v) = create-Inv c min_num max_num cap slots ok in_order room enough in
      let same : q ≡ p = cc in subst (λ x. Inv (launch x)) same v

  pub launch_open : p.poll_state ≡ 1
  launch_open =
      let (q, e, _, _, on, _) = create-Inv c min_num max_num cap slots ok in_order room enough in
      let same : q ≡ p = cc in subst (λ (x : Pool). x.poll_state ≡ 1) same on

  -- A pool that was created with a minimum of threads not above its maximum, and room for a task,
  -- hands its tasks out in the order in which they were added, each once: in every
  -- reachable state those that were taken, followed by those that wait, are those that were added.
  pub tasks_in_order : (s : System) → Reach (launch p) s → s.taken ++ waiting s.pool ≡ s.submitted
  tasks_in_order s r = (Reach-Inv r launch-Inv).fifo

  -- In every reachable state of a pool that was created with a minimum of threads not above its
  -- maximum and room for a task: `live_thread_num` counts the workers, and with them each thread
  -- that the manager could not create; `busy_thread_num` counts the workers with a task, and is no
  -- more; `live_thread_num` stays within the maximum, and at least the minimum while the pool is
  -- open; the queue stays within its array.
  pub counters_exact :
      (s : System)
      → Reach (launch p) s
      → (s.pool.live_thread_num ≡ count_created s.workers + count_uncreated s.workers)
        × (s.pool.busy_thread_num ≡ count_busy s.workers)
        × (s.pool.busy_thread_num ≤ s.pool.live_thread_num)
        × (s.pool.live_thread_num ≤ s.pool.max_thread_num)
        × (s.pool.poll_state ≡ 1 → s.pool.min_thread_num ≤ s.pool.live_thread_num)
        × (length (waiting s.pool) ≤ s.pool.max_task_queue_size)
  counters_exact s r =
      let v = Reach-Inv r launch-Inv in
      (
        v.live ∙ count_created_lem s.workers,
        v.busy,
        omega (arith, v.live, v.busy, count_busy-le s.workers),
        v.high,
        v.low,
        omega (
          arith,
          v.ring.fits,
          length-behind s.pool.task_queue s.pool.max_task_queue_size s.pool.task_queue_front
              s.pool.task_queue_size,
        ),
      )

-- What the copying loop leaves at an index.
copy_tids_lem :
    (k i : ℕ) (from to : List ℕ) (j : ℕ)
    → i + k ≤ length to
    → (i ≤ j → j < i + k → get_or (copy_tids k i from to) j 0 ≡ get_or from j 0)
      × (j < i → get_or (copy_tids k i from to) j 0 ≡ get_or to j 0)
      × (length (copy_tids k i from to) ≡ length to)
unfolding copy_tids
copy_tids_lem zero i from to j h = (λ a b. absurd (omega arith), λ _. refl, refl)
copy_tids_lem (suc k) i from to j h =
    let to' = set to i (get_or from i 0) in
    let same = length-set to i (get_or from i 0) in
    let (inside, before, size) = copy_tids_lem k (i + 1) from to' j (omega (arith, same)) in
    (
      λ a b. elim (ℕ_discrete i j) [
        | yes e ↦
            before (omega arith) ∙ rw (← e) (get_or-set_self to i (get_or from i 0) 0 (omega arith))
        | no ne ↦ inside (omega arith) (omega arith)
      ],
      λ a.
          before (omega arith) ∙ get_or-set_ne to {i = i} {j = j} (get_or from i 0) 0 (omega arith),
      size ∙ same,
    )

-- Raising the limit makes the array of ids as long as the new limit and keeps every id in it.
pub set_max_thread_num-raise :
    (p : Pool) (n : ℕ)
    → p.max_thread_num < n
    → let (done, q) = set_max_thread_num true p n in
      (done ≡ true)
      × (q.max_thread_num ≡ n)
      × (length q.work_tids ≡ n)
      × ((j : ℕ) → j < p.max_thread_num → get_or q.work_tids j 0 ≡ get_or p.work_tids j 0)
unfolding set_max_thread_num
set_max_thread_num-raise p n h =
    let raised : leb n p.max_thread_num ≡ false = ground arith in
    let size = length-replicate {A = ℕ} n 0 in
    let copied = copy_tids_lem p.max_thread_num 0 p.work_tids (replicate n 0) in
    rw raised (
      refl,
      refl,
      (copied 0 (omega (arith, size))).2 ∙ size,
      λ j b. (copied j (omega (arith, size))).0 (omega arith) (omega arith),
    )
