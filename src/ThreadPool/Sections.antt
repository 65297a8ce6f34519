-- ===== src/ThreadPool/Sections.antt =====
-- What the critical sections of workers and clients do to the queue of waiting tasks.
use native.Mathlib.Nat.{mod-add-mod, mod-eq_of_lt, mod-eq-sub-mod}
use native.Mathlib.Numerals.{add-one}
use small_project_for_life_w.Base.{
  ℕ, suc, ◌+◌, ◌-◌, ◌%◌, ◌<◌, ◌≡◌, refl, sym, ap, ◌∙◌, ◌≢◌, List, [], ◌∷◌, ◌++◌, arith, length, set,
  ◌==◌, if◌then◌else◌, length-set, get_or, get_or-set_self,
}
use small_project_for_life_w.ThreadPool.{
  Task, Pool, run, Added, full, refused, added, signal, task_queue_not_full, read_task,
  worker_fetch, add_task,
}
use small_project_for_life_w.ThreadPool.Ring.{
  behind, waiting, IsRing, behind-set, length-behind, behind-cons,
}

next_rear :
    (p : Pool)
    → IsRing p
    → (p.task_queue_rear + 1) % p.max_task_queue_size
      ≡ (p.task_queue_front + suc p.task_queue_size) % p.max_task_queue_size
next_rear p v =
    rw (v.rear_at, mod-add-mod) (ap (λ (k : ℕ). k % p.max_task_queue_size) (omega arith))

-- A write to the slot behind `task_queue_rear` appends, if a slot is free.
add-append :
    (p : Pool) (t : Task)
    → IsRing p
    → p.task_queue_size < p.max_task_queue_size
    → behind
        (set p.task_queue ((p.task_queue_rear + 1) % p.max_task_queue_size) t)
        p.max_task_queue_size
        p.task_queue_front
        (p.task_queue_size + 1)
      ≡ waiting p ++ (t ∷ [])
add-append p t v h = rw (add-one p.task_queue_size) (
    behind-set p.task_queue p.max_task_queue_size t p.task_queue_size p.task_queue_front _ v.storage
      v.front_in h (next_rear p v))

-- A bounded queue with a switch: what `threadpoll_add_task` promises.
abbrev pub queue_add : ℕ → ℕ → List Task → Task → Added × List Task
queue_add state cap q t =
    if state == 0
    then (refused, q)
    else if length q == cap
    then (full, q)
    else (added, q ++ (t ∷ []))

module _ (p : Pool) (t : Task) (v : IsRing p) where
  open p use {poll_state, max_task_queue_size, task_queue_size, task_queue_front, task_queue}

  -- Behind its test of the arguments, `threadpoll_add_task` on the ring is the operation of a
  -- bounded queue with a switch on the waiting tasks: it waits when full, refuses when closed, and
  -- appends otherwise.
  pub add_task_refines :
      let (r, q, _) = add_task p t in
      (r, waiting q) ≡ queue_add poll_state max_task_queue_size (waiting p) t
  unfolding add_task
  add_task_refines = ground (
    arith,
    v.switch,
    v.fits,
    length-behind task_queue max_task_queue_size task_queue_front task_queue_size,
    add-append p t v,
  )

  -- It keeps the invariant.
  pub add_task-IsRing : IsRing (add_task p t).1
  unfolding add_task
  add_task-IsRing = ground (
    arith,
    v,
    next_rear p v,
    add-one task_queue_size,
    length-set task_queue ((p.task_queue_rear + 1) % max_task_queue_size) t,
  )

size-ne-zero : (p : Pool) {t : Task} {ts : List Task} → waiting p ≡ t ∷ ts → p.task_queue_size ≢ 0
size-ne-zero p w e = omega (
  arith,
  ap length w,
  length-behind p.task_queue p.max_task_queue_size p.task_queue_front p.task_queue_size,
)

-- the pool after a worker has taken a task
abbrev pub take_one : Pool → Pool
take_one p = record p {
  task_queue_front = (p.task_queue_front + 1) % p.max_task_queue_size;
  task_queue_size = p.task_queue_size - 1;
  busy_thread_num = p.busy_thread_num + 1;
}

pub take_one-IsRing : (p : Pool) → IsRing p → p.task_queue_size ≢ 0 → IsRing (take_one p)
take_one-IsRing p v ne = record {
  switch = v.switch;
  storage = v.storage;
  room = v.room;
  front_in = omega (arith, v.room);
  fits = omega (arith, v.fits);
  rear_at = rw (v.rear_at, mod-add-mod) (ap (λ (k : ℕ). k % p.max_task_queue_size) (omega arith));
}

-- The worker's critical section takes the oldest task of an open pool: the slot that it hands over
-- holds that task, the others wait on in their order, a thread more is busy, and the invariant of
-- the queue is kept.
pub worker_fetch-cons :
    (p : Pool) (t : Task) (ts : List Task)
    → IsRing p
    → p.poll_state ≡ 1
    → waiting p ≡ t ∷ ts
    → (slot : ℕ) × (q : Pool) × (worker_fetch p ≡ (run slot, q, signal task_queue_not_full ∷ []))
      × IsRing q
      × (read_task q slot ≡ t)
      × (waiting q ≡ ts)
      × (q.busy_thread_num ≡ p.busy_thread_num + 1)
unfolding worker_fetch read_task
worker_fetch-cons p t ts v on w = (
  front,
  take_one p,
  ground (arith, size-ne-zero p w),
  take_one-IsRing p v (size-ne-zero p w),
  ground (arith, parts),
  ground (arith, parts),
  refl,
)
  where
    front : ℕ
    front = (p.task_queue_front + 1) % p.max_task_queue_size

    parts :
        get_or p.task_queue front (record { task_name = 0; task_param = 0 })
          ∷ behind p.task_queue p.max_task_queue_size front (p.task_queue_size - 1)
        ≡ t ∷ ts
    parts =
        sym (
          behind-cons p.task_queue p.max_task_queue_size p.task_queue_front p.task_queue_size
            (size-ne-zero p w))
        ∙ w

-- On every branch the worker's critical section keeps the invariant of the queue.
pub worker_fetch-IsRing : (p : Pool) → IsRing p → IsRing (worker_fetch p).1
unfolding worker_fetch
worker_fetch-IsRing p v = ground (arith, v, take_one-IsRing p v)

full-rear :
    (p : Pool)
    → IsRing p
    → p.task_queue_size ≡ p.max_task_queue_size
    → p.task_queue_rear ≡ p.task_queue_front
full-rear p v fill =
    let f : ℕ = p.task_queue_front in
    let cap : ℕ = p.max_task_queue_size in
    omega (
      arith,
      v.rear_at ∙ ap (λ (k : ℕ). (f + k) % cap) fill,
      mod-eq-sub-mod {n = f + cap} {m = cap} (omega arith),
      mod-eq_of_lt {n = f + cap - cap} {m = cap} (omega (arith, v.front_in)),
    )

-- The worker reads its slot with no lock held. If the queue was full when the worker took its task,
-- the next `threadpoll_add_task` writes to that very slot: a worker that has not read it yet runs
-- the new task, and its own is lost.
pub full-overwrites :
    (p : Pool) (t : Task)
    → IsRing p
    → p.poll_state ≡ 1
    → p.task_queue_size ≡ p.max_task_queue_size
    → (slot : ℕ) × (q : Pool) × (worker_fetch p ≡ (run slot, q, signal task_queue_not_full ∷ []))
      × ((add_task q t).0 ≡ added)
      × (read_task (add_task q t).1 slot ≡ t)
unfolding worker_fetch add_task read_task
full-overwrites p t v on fill = (
  (p.task_queue_front + 1) % p.max_task_queue_size,
  take_one p,
  ground (arith, v.room),
  ground (arith, v.room),
  ground (
    arith,
    v.room,
    full-rear p v fill,
    get_or-set_self p.task_queue ((p.task_queue_front + 1) % p.max_task_queue_size) t
        (record { task_name = 0; task_param = 0 }) (omega (arith, v.storage, v.room)),
  ),
)
