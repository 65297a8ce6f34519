-- ===== src/ThreadPool/Growth.antt =====
-- What the manager does in a round: the threads that it adds, those that it asks to leave, and
-- until when it sleeps.
use small_project_for_life_w.Base.{
  ℕ, zero, suc, ◌+◌, ◌-◌, ◌*◌, ◌≤◌, ◌<◌, ◌≡◌, refl, ap, ◌∙◌, ◌≢◌, ◌⊎◌, inl, inr, Bool, Option, List,
  [], arith, length, replicate, set, Bool-cases, Option-cases, ltb, ◌==◌, ◌&&◌, length-set, get_or,
}
use small_project_for_life_w.ThreadPool.{
  Pool, signal, task_queue_not_empty, grow_round, grow_loop, threadpoll_alive, manager_grow,
  manager_shrink, Timeval, deadline,
}

-- From `(add, p)` the loop has come to `(add', q)`: it touched two fields, added as many threads as
-- it counted, stayed below both limits and kept the array of ids.
pub record Grown (p : Pool) (add : ℕ) (q : Pool) (add' : ℕ) : Type 0 where
  pub only : q ≡ record p { live_thread_num = q.live_thread_num; work_tids = q.work_tids }
  pub more : q.live_thread_num + add ≡ p.live_thread_num + add'
  pub grows : add ≤ add'
  pub needed : add ≤ p.task_queue_size → add' ≤ p.task_queue_size
  pub below : p.live_thread_num ≤ p.max_thread_num → q.live_thread_num ≤ p.max_thread_num
  pub slots : length q.work_tids ≡ length p.work_tids

-- the tests of the two halves of a round
abbrev is_short : Pool → Bool
is_short p =
    p.busy_thread_num == p.live_thread_num
    && ltb 0 p.task_queue_size
    && ltb p.live_thread_num p.max_thread_num

abbrev is_slack : Pool → Bool
is_slack p =
    ltb p.busy_thread_num p.live_thread_num
    && ltb p.task_queue_size (p.live_thread_num - p.busy_thread_num)
    && ltb p.min_thread_num p.live_thread_num

module _ (kill : ℕ → Bool) (create : ℕ → Option ℕ) where
  Grown-refl : (add : ℕ) (p : Pool) → Grown p add p add
  Grown-refl add p = record {
    only = refl;
    more = refl;
    grows = omega arith;
    needed = λ h. h;
    below = λ h. h;
    slots = refl;
  }

  -- one more thread, whatever became of its id
  one_more :
      (add : ℕ) (p : Pool) (tids : List ℕ)
      → p.live_thread_num < p.max_thread_num
      → add < p.task_queue_size
      → length tids ≡ length p.work_tids
      → Grown p add
          (record p { live_thread_num = p.live_thread_num + 1; work_tids = tids })
          (add + 1)
  one_more add p tids h h' e = record {
    only = refl;
    more = omega arith;
    grows = omega arith;
    needed = λ _. omega arith;
    below = λ _. omega arith;
    slots = e;
  }

  grow_round-Grown :
      (i add : ℕ) (p : Pool)
      → p.live_thread_num < p.max_thread_num
      → add < p.task_queue_size
      → let (add', q) = grow_round kill create i (add, p) in Grown p add q add'
  unfolding grow_round
  grow_round-Grown i add p h h' =
      elim (Bool-cases (threadpoll_alive kill (get_or p.work_tids i 0))) [
        | inl alive ↦ rw alive (Grown-refl add p)
        | inr dead ↦ rw dead (elim (Option-cases (create i)) [
          | inl failed ↦ rw failed (one_more add p p.work_tids h h' refl)
          | inr (tid, made) ↦
              rw made (one_more add p (set p.work_tids i tid) h h' (length-set p.work_tids i tid))
        ])
      ]

  Grown-trans : {p q r : Pool} {a b c : ℕ} → Grown p a q b → Grown q b r c → Grown p a r c
  Grown-trans {p} {q} {r} g h =
      let same_max : q.max_thread_num ≡ p.max_thread_num =
        ap (λ (x : Pool). x.max_thread_num) g.only in
      let same_size : q.task_queue_size ≡ p.task_queue_size =
        ap (λ (x : Pool). x.task_queue_size) g.only in
      record {
        only =
            h.only
            ∙ ap
                (λ (x : Pool). record x {
                  live_thread_num = r.live_thread_num;
                  work_tids = r.work_tids;
                })
                g.only;
        more = omega (arith, g.more, h.more);
        grows = omega (arith, g.grows, h.grows);
        needed = λ e. rw same_size at (h.needed (rw same_size (g.needed e)));
        below = λ e. rw same_max at (h.below (rw same_max (g.below e)));
        slots = h.slots ∙ g.slots;
      }

  grow_loop-Grown :
      (k i add : ℕ) (p : Pool)
      → let (add', q) = grow_loop kill create k i (add, p) in Grown p add q add'
  unfolding grow_loop
  grow_loop-Grown zero i add p = Grown-refl add p
  grow_loop-Grown (suc k) i add p =
      elim (Bool-cases (ltb p.live_thread_num p.max_thread_num && ltb add p.task_queue_size)) [
        | inl on ↦ rw on (
            Grown-trans (grow_round-Grown i add p (ground arith) (ground arith)) (
              grow_loop-Grown k (i + 1) (grow_round kill create i (add, p)).0
                (grow_round kill create i (add, p)).1))
        | inr off ↦ rw off (Grown-refl add p)
      ]

  -- The manager adds threads only while every thread is busy and tasks wait, and never more than
  -- tasks wait or than `max_thread_num` allows; it changes the count of live threads and their ids
  -- alone, and keeps the array's length.
  pub manager_grow_lem :
      (p : Pool)
      → p.live_thread_num ≤ p.max_thread_num
      → let q = manager_grow kill create p in
        (q ≡ record p { live_thread_num = q.live_thread_num; work_tids = q.work_tids })
        × (p.live_thread_num ≤ q.live_thread_num)
        × (q.live_thread_num ≤ p.max_thread_num)
        × (q.live_thread_num ≤ p.live_thread_num + p.task_queue_size)
        × (length q.work_tids ≡ length p.work_tids)
        × (p.busy_thread_num ≢ p.live_thread_num → q ≡ p)
  unfolding manager_grow
  manager_grow_lem p h = elim (Bool-cases (is_short p)) [
    | inl short ↦
        let g = grow_loop-Grown p.max_thread_num 0 0 p in
        rw short (
          g.only,
          omega (arith, g.more),
          g.below h,
          omega (arith, g.more, g.needed (omega arith)),
          g.slots,
          λ ne. absurd (ne (ground arith)),
        )
    | inr enough ↦ rw enough (refl, omega arith, h, omega arith, refl, λ _. refl)
  ]

-- A round of the manager never adds threads and asks threads to leave: behind a growth the idle
-- threads are no more than the waiting tasks.
pub grow-no-shrink :
    (kill : ℕ → Bool) (create : ℕ → Option ℕ) (p : Pool)
    → p.live_thread_num ≤ p.max_thread_num
    → p.busy_thread_num ≡ p.live_thread_num
    → manager_shrink (manager_grow kill create p) ≡ (manager_grow kill create p, [])
unfolding manager_shrink
grow-no-shrink kill create p h e =
    let q = manager_grow kill create p in
    let (only, more, below, needed, slots, same) = manager_grow_lem kill create p h in
    let same_busy : q.busy_thread_num ≡ p.busy_thread_num =
      ap (λ (x : Pool). x.busy_thread_num) only in
    let same_size : q.task_queue_size ≡ p.task_queue_size =
      ap (λ (x : Pool). x.task_queue_size) only in
    ground arith

-- Asking threads to leave changes one field.
pub manager_shrink-only :
    (p : Pool)
    → let q = (manager_shrink p).0 in q ≡ record p { wait_exit_thread_num = q.wait_exit_thread_num }
unfolding manager_shrink
manager_shrink-only p = elim (Bool-cases (is_slack p)) [
  | inl slack ↦ rw slack
  | inr tight ↦ rw tight
]

-- When the manager asks threads to leave, it asks for all idle threads that have no task waiting,
-- wakes one sleeper for each, and at least one; otherwise it does nothing.
pub manager_shrink_lem :
    (p : Pool)
    → p.busy_thread_num ≤ p.live_thread_num
    → let (q, wakes) = manager_shrink p in
      ((q ≡ p) × (wakes ≡ []))
      ⊎ ((q ≡ record p { wait_exit_thread_num = q.wait_exit_thread_num })
          × (p.busy_thread_num + p.task_queue_size + q.wait_exit_thread_num ≡ p.live_thread_num)
          × (0 < q.wait_exit_thread_num)
          × (p.min_thread_num < p.live_thread_num)
          × (wakes ≡ replicate q.wait_exit_thread_num (signal task_queue_not_empty)))
unfolding manager_shrink
manager_shrink_lem p h = elim (Bool-cases (is_slack p)) [
  | inl slack ↦ rw slack (inr (refl, ground arith, ground arith, ground arith, refl))
  | inr tight ↦ rw tight (inl (refl, refl))
]

-- The timed wait of the manager ends one second after `now`, at a normalised time.
pub deadline_lem :
    (now : Timeval)
    → let t = deadline now in
      (t.tv_nsec < 1000000000)
      × (t.tv_sec * 1000000000 + t.tv_nsec
          ≡ now.tv_sec * 1000000000 + now.tv_usec * 1000 + 1000000000)
unfolding deadline
deadline_lem now = ground arith
