-- ===== src/ThreadPool/Progress.antt =====
-- A task that waits in an open pool can always be taken, where sleepers may wake of themselves.
use small_project_for_life_w.Base.{
  ℕ, ◌-◌, sym, append_assoc, ◌<◌, ◌≡◌, refl, ap, subst, ◌∙◌, Bool-cases, inl, inr, List, [], ◌∷◌,
  ◌++◌, ◌⊎◌, arith, ltb,
}
use small_project_for_life_w.ThreadPool.{
  Task, Pool, Fetch, run, Wake, signal, task_queue_not_full, leave_pool, worker_fetch, worker_woken,
  worker_done, read_task,
}
use small_project_for_life_w.ThreadPool.Ring.{waiting}
use small_project_for_life_w.ThreadPool.Sections.{worker_fetch-cons}
use small_project_for_life_w.ThreadPool.Places.{
  count_uncreated, count_uncreated-append, count_created, count_created-append, count_created_lem,
}
use small_project_for_life_w.ThreadPool.System.{
  Place, ready, asleep, holding, working, uncreated, System, after_section, Step, fetch, wake,
  start, finish, Reach, here, next, before,
}
use small_project_for_life_w.ThreadPool.Invariant.{Inv, Reach-Inv}

-- From here on, a worker can be the next to take a task, namely `x`.
abbrev pub Served : System → Task → Type 0
Served s x = (t : System) × Reach s t × (t.taken ≡ s.taken ++ x ∷ []) × (t.submitted ≡ s.submitted)

-- A step that leaves the tasks alone may come before.
later-Served :
    {s t : System} (x : Task)
    → Step s t
    → t.taken ≡ s.taken
    → t.submitted ≡ s.submitted
    → Served t x
    → Served s x
later-Served x step same same' (u, r, e, e') =
    (u, before step r, e ∙ ap (λ (ts : List Task). ts ++ x ∷ []) same, e' ∙ same')

module _ (s : System) (pre ws : List Place) (x : Task) where
  -- a section that took the task
  took_it :
      (r : Fetch × Pool × List Wake) (slot : ℕ) (q : Pool) (wakes : List Wake)
      → Step s (after_section s pre ws r)
      → r ≡ (run slot, q, wakes)
      → read_task q slot ≡ x
      → Served s x
  took_it r slot q wakes step e reads =
      let fine : after_section s pre ws r ≡ after_section s pre ws (run slot, q, wakes) =
        ap (after_section s pre ws) e in
      (
        after_section s pre ws r,
        next here step,
        ap (λ (t : System). t.taken) fine ∙ ap (λ (y : Task). s.taken ++ y ∷ []) reads,
        ap (λ (t : System). t.submitted) fine,
      )

  ready-Served :
      (xs : List Task)
      → Inv s
      → s.pool.poll_state ≡ 1
      → waiting s.pool ≡ x ∷ xs
      → s.workers ≡ pre ++ ready ∷ ws
      → Served s x
  ready-Served xs v on w at =
      let (slot, q, e, _, reads, _, _) = worker_fetch-cons s.pool x xs v.ring on w in
      took_it (worker_fetch s.pool) slot q (signal task_queue_not_full ∷ []) (fetch pre ws at refl)
        e reads

module _ (s : System) (pre ws : List Place) (x : Task) (xs : List Task) (v : Inv s)
    (on : s.pool.poll_state ≡ 1) (w : waiting s.pool ≡ x ∷ xs) where
  working-Served : s.workers ≡ pre ++ working ∷ ws → Served s x
  unfolding worker_done
  working-Served at =
      let t = record s { pool = worker_done s.pool; workers = pre ++ ready ∷ ws } in
      let step : Step s t = finish pre ws at refl in
      later-Served x step refl refl
        (ready-Served t pre ws x xs (Reach-Inv (next here step) v) on w refl)

module _ (s : System) (pre ws : List Place) (x : Task) (xs : List Task) (v : Inv s)
    (on : s.pool.poll_state ≡ 1) (w : waiting s.pool ≡ x ∷ xs) where
  holding-Served : (slot : ℕ) → s.workers ≡ pre ++ holding slot ∷ ws → Served s x
  holding-Served slot at =
      let t = record s {
        workers = pre ++ working ∷ ws;
        executed = s.executed ++ (read_task s.pool slot ∷ []);
      } in
      let step : Step s t = start pre ws slot at refl in
      later-Served x step refl refl
        (working-Served t pre ws x xs (Reach-Inv (next here step) v) on w refl)

-- What a worker does that wakes in an open pool with a task: it takes the task, or it leaves.
woken_takes :
    (s : System) (pre ws : List Place) (x : Task) (xs : List Task)
    → Inv s
    → s.pool.poll_state ≡ 1
    → waiting s.pool ≡ x ∷ xs
    → s.workers ≡ pre ++ asleep ∷ ws
    → Served s x
      ⊎ ((t : System) × Step s t
          × (t.workers ≡ pre ++ ws)
          × (t.taken ≡ s.taken)
          × (t.submitted ≡ s.submitted)
          × (t.pool.poll_state ≡ 1)
          × (t.pool.min_thread_num ≡ s.pool.min_thread_num)
          × (waiting t.pool ≡ x ∷ xs))
unfolding worker_woken leave_pool
woken_takes s pre ws x xs v on w at =
    let p = s.pool in
    let q = record p { wait_exit_thread_num = p.wait_exit_thread_num - 1 } in
    let step : Step s (after_section s pre ws (worker_woken p)) = wake pre ws at refl in
    elim (Bool-cases (ltb 0 p.wait_exit_thread_num)) [
      | inl asked ↦ elim (Bool-cases (ltb p.min_thread_num p.live_thread_num)) [
        | inl spare ↦
            let gone : worker_woken p ≡ leave_pool q = rw (asked, spare) refl in
            let left : Step s (after_section s pre ws (leave_pool q)) =
              subst (λ (r : Fetch × Pool × List Wake). Step s (after_section s pre ws r)) gone
                step in
            inr (after_section s pre ws (leave_pool q), left, refl, refl, refl, on, refl, w)
        | inr needed ↦
            let (slot, q', e, _, reads, _, _) =
              worker_fetch-cons q x xs
                (record {
                  switch = v.ring.switch;
                  storage = v.ring.storage;
                  room = v.ring.room;
                  front_in = v.ring.front_in;
                  fits = v.ring.fits;
                  rear_at = v.ring.rear_at;
                })
                on w in
            inl (
              took_it s pre ws x (worker_woken p) slot q' (signal task_queue_not_full ∷ []) step
                (rw (asked, needed) e) reads)
      ]
      | inr not_asked ↦
          let (slot, q', e, _, reads, _, _) = worker_fetch-cons p x xs v.ring on w in
          inl (
            took_it s pre ws x (worker_woken p) slot q' (signal task_queue_not_full ∷ []) step
              (rw not_asked e) reads)
    ]

-- The workers before `ws` could not be created.
workers-Served :
    (ws pre : List Place) (s : System) (x : Task) (xs : List Task)
    → s.workers ≡ pre ++ ws
    → count_created pre ≡ 0
    → Inv s
    → s.pool.poll_state ≡ 1
    → count_uncreated s.workers < s.pool.min_thread_num
    → waiting s.pool ≡ x ∷ xs
    → Served s x
workers-Served [] pre s x xs at lost v on some_live w = absurd (
    omega (
      arith,
      v.low on,
      v.live,
      count_created_lem s.workers,
      ap count_created at,
      count_created-append pre [],
      lost,
      some_live,
    ))
workers-Served (uncreated ∷ ws) pre s x xs at lost v on some_live w =
    workers-Served ws (pre ++ uncreated ∷ []) s x xs
      (at ∙ sym (append_assoc pre (uncreated ∷ []) ws))
      (omega (arith, lost, count_created-append pre (uncreated ∷ []))) v on some_live w
workers-Served (ready ∷ ws) pre s x xs at lost v on some_live w =
    ready-Served s pre ws x xs v on w at
workers-Served (working ∷ ws) pre s x xs at lost v on some_live w =
    working-Served s pre ws x xs v on w at
workers-Served (holding slot ∷ ws) pre s x xs at lost v on some_live w =
    holding-Served s pre ws x xs v on w slot at
workers-Served (asleep ∷ ws) pre s x xs at lost v on some_live w =
    elim (woken_takes s pre ws x xs v on w at) [
      | inl served ↦ served
      | inr (t, step, at', same, same', on', low, w') ↦ later-Served x step same same' (
          workers-Served ws pre t x xs at' lost (Reach-Inv (next here step) v) on'
            (omega (
              arith,
              low,
              some_live,
              ap count_uncreated at,
              ap count_uncreated at',
              count_uncreated-append pre (asleep ∷ ws),
              count_uncreated-append pre ws,
            ))
            w')
    ]

-- While the pool is open and the manager has failed to create fewer threads than the minimum (so,
-- if it never failed, the minimum is at least one), the task that waits longest can be taken next,
-- whatever state the pool has come to, if sleepers may wake without a signal.
pub waiting-Served :
    (s : System) (x : Task) (xs : List Task)
    → Inv s
    → s.pool.poll_state ≡ 1
    → count_uncreated s.workers < s.pool.min_thread_num
    → waiting s.pool ≡ x ∷ xs
    → Served s x
waiting-Served s x xs = workers-Served s.workers [] s x xs refl refl
