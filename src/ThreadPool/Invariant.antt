-- ===== src/ThreadPool/Invariant.antt =====
-- What holds of a pool, its workers and its tasks in every order of steps.
use small_project_for_life_w.Base.{
  ℕ, suc, ◌+◌, ◌≤◌, ◌≡◌, refl, sym, ap, subst, ◌∙◌, some, none, Option, Bool, if◌then◌else◌, ◌==◌,
  List, [], ◌∷◌, ◌++◌, arith, length, length-append, append_assoc,
}
use small_project_for_life_w.ThreadPool.{
  Task, Pool, Fetch, block, leave, run, Wake, Added, full, refused, added, worker_fetch,
  worker_woken, worker_done, manager_round, manager_grow, manager_shrink, add_task, disable,
}
use small_project_for_life_w.ThreadPool.Ring.{waiting, IsRing}
use small_project_for_life_w.ThreadPool.Sections.{add_task_refines, add_task-IsRing, queue_add}
use small_project_for_life_w.ThreadPool.Growth.{manager_grow_lem, manager_shrink-only}
use small_project_for_life_w.ThreadPool.Outcome.{
  Outcome, blocked, left, took, worker_fetch-Outcome, worker_woken-Outcome,
}
use small_project_for_life_w.ThreadPool.Places.{
  is_busy, count_busy, count_busy-append, new_places-length, new_places-idle,
}
use small_project_for_life_w.ThreadPool.System.{
  Place, ready, asleep, holding, working, System, after_section, after_add, after_round, new_places,
  Step, fetch, wake, start, finish, add, manage, destroy, Reach, here, next,
}

pub record Inv (s : System) : Type 0 where
  pub ring : IsRing s.pool
  pub live : s.pool.live_thread_num ≡ length s.workers
  pub busy : s.pool.busy_thread_num ≡ count_busy s.workers
  pub low : s.pool.poll_state ≡ 1 → s.pool.min_thread_num ≤ s.pool.live_thread_num
  pub high : s.pool.live_thread_num ≤ s.pool.max_thread_num
  pub fifo : s.taken ++ waiting s.pool ≡ s.submitted

module _ (s : System) (v : Inv s) (pre post : List Place) (w : Place)
    (at : s.workers ≡ pre ++ w ∷ post) where
  -- the counts at a worker's place
  counted : s.pool.live_thread_num ≡ length pre + suc (length post)
  counted = omega (arith, v.live, ap length at, length-append pre (w ∷ post))

  counted_busy : s.pool.busy_thread_num ≡ count_busy pre + (is_busy w + count_busy post)
  counted_busy = omega (arith, v.busy, ap count_busy at, count_busy-append pre (w ∷ post))

  section-Inv :
      (r : Fetch × Pool × List Wake)
      → is_busy w ≡ 0
      → Outcome s.pool r
      → Inv (after_section s pre post r)
  section-Inv (block, p, wakes) idle (blocked e k q l b) = record {
    ring = k.ring;
    live = omega (arith, l, counted, length-append pre (asleep ∷ post));
    busy = omega (arith, b, counted_busy, count_busy-append pre (asleep ∷ post));
    low = λ on. omega (arith, l, k.low, v.low (omega (arith, k.switch)));
    high = omega (arith, v.high, l, k.high);
    fifo = rw q v.fifo;
  }
  section-Inv (block, p, wakes) idle (left e k q l b why) = cc
  section-Inv (block, p, wakes) idle (took slot t e k g q l b) = cc
  section-Inv (leave, p, wakes) idle (left e k q l b why) = record {
    ring = k.ring;
    live = omega (arith, l, counted, length-append pre post);
    busy = omega (arith, b, counted_busy, count_busy-append pre post);
    low = λ on. omega (arith, l, k.low, k.switch);
    high = omega (arith, v.high, l, k.high);
    fifo = rw q v.fifo;
  }
  section-Inv (leave, p, wakes) idle (blocked e k q l b) = cc
  section-Inv (leave, p, wakes) idle (took slot t e k g q l b) = cc
  section-Inv (run slot, p, wakes) idle (took slot' t e k g q l b) =
      let same : slot ≡ slot' = cc in
      record {
        ring = k.ring;
        live = omega (arith, l, counted, length-append pre (holding slot ∷ post));
        busy = omega (arith, b, counted_busy, count_busy-append pre (holding slot ∷ post));
        low = λ on. omega (arith, l, k.low, v.low (omega (arith, k.switch)));
        high = omega (arith, v.high, l, k.high);
        fifo = rw (same, g, append_assoc, ← q) v.fifo;
      }
  section-Inv (run slot, p, wakes) idle (blocked e k q l b) = cc
  section-Inv (run slot, p, wakes) idle (left e k q l b why) = cc

  -- a worker that only moves on
  moved-Inv :
      (w' : Place) (ran : List Task)
      → is_busy w' ≡ is_busy w
      → Inv (record s { workers = pre ++ w' ∷ post; executed = ran })
  moved-Inv w' ran e = record {
    ring = v.ring;
    live = omega (arith, counted, length-append pre (w' ∷ post));
    busy = omega (arith, counted_busy, count_busy-append pre (w' ∷ post));
    low = v.low;
    high = v.high;
    fifo = v.fifo;
  }

  done-Inv :
      is_busy w ≡ 1 → Inv (record s { pool = worker_done s.pool; workers = pre ++ ready ∷ post })
  unfolding worker_done
  done-Inv e = record {
    ring = ground (arith, v.ring);
    live = omega (arith, counted, length-append pre (ready ∷ post));
    busy = omega (arith, counted_busy, count_busy-append pre (ready ∷ post));
    low = v.low;
    high = v.high;
    fifo = v.fifo;
  }

-- what adding a task does not touch
record SameThreads (p q : Pool) : Type 0 where
  live : q.live_thread_num ≡ p.live_thread_num
  busy : q.busy_thread_num ≡ p.busy_thread_num
  switch : q.poll_state ≡ p.poll_state
  low : q.min_thread_num ≡ p.min_thread_num
  high : q.max_thread_num ≡ p.max_thread_num

add_task-SameThreads : (p : Pool) (t : Task) → SameThreads p (add_task p t).1
unfolding add_task
add_task-SameThreads p t = ground arith

-- the bounded queue's three results
module _ (state cap : ℕ) (q : List Task) (t : Task) {q' : List Task} where
  full-waiting : (full, q') ≡ queue_add state cap q t → q' ≡ q
  full-waiting e = ground arith

  refused-waiting : (refused, q') ≡ queue_add state cap q t → q' ≡ q
  refused-waiting e = ground arith

  added-waiting : (added, q') ≡ queue_add state cap q t → q' ≡ q ++ (t ∷ [])
  added-waiting e = ground arith

pub round-result :
    (p g q : Pool) {wakes : List Wake}
    → (if p.poll_state == 0 then none else some (manager_shrink g)) ≡ some (q, wakes)
    → q ≡ (manager_shrink g).0
round-result p g q e = ground arith

module _ (s : System) (v : Inv s) where
  open s.pool use {poll_state, max_task_queue_size, task_queue_size, task_queue_front, task_queue}

  added-Inv :
      (t : Task) (r : Added × Pool × List Wake)
      → (r.0, waiting r.1) ≡ queue_add poll_state max_task_queue_size (waiting s.pool) t
      → IsRing r.1
      → SameThreads s.pool r.1
      → Inv (after_add s t r)
  added-Inv t (full, q, wakes) e ring k = record {
    ring = ring;
    live = k.live ∙ v.live;
    busy = k.busy ∙ v.busy;
    low = λ on. omega (arith, k.switch, k.low, k.live, v.low (omega (arith, k.switch)));
    high = omega (arith, k.live, k.high, v.high);
    fifo = rw (full-waiting poll_state max_task_queue_size (waiting s.pool) t e) v.fifo;
  }
  added-Inv t (refused, q, wakes) e ring k = record {
    ring = ring;
    live = k.live ∙ v.live;
    busy = k.busy ∙ v.busy;
    low = λ on. omega (arith, k.switch, k.low, k.live, v.low (omega (arith, k.switch)));
    high = omega (arith, k.live, k.high, v.high);
    fifo = rw (refused-waiting poll_state max_task_queue_size (waiting s.pool) t e) v.fifo;
  }
  added-Inv t (added, q, wakes) e ring k = record {
    ring = ring;
    live = k.live ∙ v.live;
    busy = k.busy ∙ v.busy;
    low = λ on. omega (arith, k.switch, k.low, k.live, v.low (omega (arith, k.switch)));
    high = omega (arith, k.live, k.high, v.high);
    fifo =
        rw (
          added-waiting poll_state max_task_queue_size (waiting s.pool) t e,
          ← append_assoc,
          v.fifo,
        );
  }

  destroy-Inv : Inv (record s { pool = (disable s.pool).0 })
  unfolding disable
  destroy-Inv = record {
    ring = ground (arith, v.ring);
    live = v.live;
    busy = v.busy;
    low = λ on. cc;
    high = v.high;
    fifo = v.fifo;
  }

  -- a pool with more threads, and with a new count of threads to leave
  grown-Inv :
      (live leaving : ℕ) (tids : List ℕ) (new : List Place)
      → live ≡ s.pool.live_thread_num + length new
      → count_busy new ≡ 0
      → live ≤ s.pool.max_thread_num
      → Inv (
          after_round s new (record s.pool {
            live_thread_num = live;
            wait_exit_thread_num = leaving;
            work_tids = tids;
          }))
  grown-Inv live leaving tids new more idle below = record {
    ring = ground (arith, v.ring);
    live = omega (arith, v.live, more, length-append s.workers new);
    busy = omega (arith, v.busy, idle, count_busy-append s.workers new);
    low = λ on. omega (arith, more, v.low on);
    high = below;
    fifo = v.fifo;
  }

  manage-Inv :
      (kill : ℕ → Bool) (create : ℕ → Option ℕ) (q : Pool) (wakes : List Wake)
      → manager_round kill create s.pool ≡ some (q, wakes)
      → Inv (after_round s (new_places kill create s.pool) q)
  unfolding manager_round
  manage-Inv kill create q wakes e =
      let g = manager_grow kill create s.pool in
      let new = new_places kill create s.pool in
      let r = (manager_shrink g).0 in
      let (only, more, below, _, _, _) = manager_grow_lem kill create s.pool v.high in
      let whole : q ≡ record s.pool {
        live_thread_num = g.live_thread_num;
        wait_exit_thread_num = r.wait_exit_thread_num;
        work_tids = g.work_tids;
      } =
        round-result s.pool g q e
        ∙ manager_shrink-only g
        ∙ ap (λ (x : Pool). record x { wait_exit_thread_num = r.wait_exit_thread_num }) only in
      subst (λ x. Inv (after_round s new x)) (sym whole)
        (grown-Inv g.live_thread_num r.wait_exit_thread_num g.work_tids new
          (new_places-length kill create s.pool) (new_places-idle kill create s.pool) below)

-- Every step keeps the invariant.
pub Step-Inv : {s t : System} → Step s t → Inv s → Inv t
Step-Inv {s} (fetch pre post at e) v = rw e (
    section-Inv s v pre post ready at (worker_fetch s.pool) refl
      (worker_fetch-Outcome s.pool v.ring))
Step-Inv {s} (wake pre post at e) v = rw e (
    section-Inv s v pre post asleep at (worker_woken s.pool) refl
      (worker_woken-Outcome s.pool v.ring))
Step-Inv {s} (start pre post slot at e) v =
    rw e (moved-Inv s v pre post (holding slot) at working _ refl)
Step-Inv {s} (finish pre post at e) v = rw e (done-Inv s v pre post working at refl)
Step-Inv {s} (add task e) v = rw e (
    added-Inv s v task (add_task s.pool task) (add_task_refines s.pool task v.ring)
      (add_task-IsRing s.pool task v.ring) (add_task-SameThreads s.pool task))
Step-Inv {s} (manage kill create q wakes round e) v =
    rw e (manage-Inv s v kill create q wakes round)
Step-Inv {s} (destroy e) v = rw e (destroy-Inv s v)

pub Reach-Inv : {s t : System} → Reach s t → Inv s → Inv t
Reach-Inv here v = v
Reach-Inv (next r step) v = Step-Inv step (Reach-Inv r v)
