-- ===== src/ThreadPool/Samples.antt =====
-- The pool's theorems at a small pool, and runs of its critical sections.
use small_project_for_life_w.Base.{
  ℕ, ◌+◌, ◌≤◌, ◌≡◌, refl, ◌≢◌, true, false, some, List, [], ◌∷◌, ◌++◌, arith, length,
}
use small_project_for_life_w.ThreadPool.{
  Task, Pool, run, signal, task_queue_not_full, added, read_task, worker_fetch, manager_grow,
  add_task, worker_done,
}
use small_project_for_life_w.ThreadPool.Ring.{waiting, IsRing}
use small_project_for_life_w.ThreadPool.Sections.{queue_add, add_task_refines, full-overwrites}
use small_project_for_life_w.ThreadPool.Create.{
  Calls, created, failed, destroy_raw, threadpoll_create, AllSucceed, blank, launch, create-misuse,
  Misuse,
}
use small_project_for_life_w.ThreadPool.System.{
  System, fetch, add, finish, ready, asleep, working, Reach, here, next, after_add, after_section,
}
use small_project_for_life_w.ThreadPool.Invariant.{Inv}
use small_project_for_life_w.ThreadPool.Places.{count_busy, count_created, count_uncreated}
use small_project_for_life_w.ThreadPool.Shutdown.{Drains, closed_pool}
use small_project_for_life_w.ThreadPool.Emptied.{closed_drains}
use small_project_for_life_w.ThreadPool.Progress.{Served, waiting-Served}
use small_project_for_life_w.ThreadPool.Safety.{tasks_in_order, counters_exact}

abbrev job : ℕ → Task
job n = record { task_name = 0x400; task_param = n }

abbrev slots : List Task
slots = job 0 ∷ job 0 ∷ []

abbrev calls : Calls
calls = record {
  malloc_poll = true;
  malloc_task_queue = true;
  init_not_full = true;
  init_not_empty = true;
  malloc_work_tids = true;
  init_attr = true;
  set_detached = true;
  init_lock = true;
  init_not_enable = true;
  init_alive_empty = true;
  create_worker = λ i. some (i + 7);
  create_manager = some 99;
}

calls-AllSucceed : AllSucceed calls 1
calls-AllSucceed = record {
  poll = refl;
  queue = refl;
  not_full = refl;
  not_empty = refl;
  tids = refl;
  attr = refl;
  detached = refl;
  lock = refl;
  not_enable = refl;
  alive_empty = refl;
  workers = λ i h. (i + 7, refl);
  manager = (99, refl);
}

-- one worker of at most three, room for two tasks
abbrev pool : Pool
pool = record (blank 1 3 2 slots) { live_thread_num = 1; work_tids = 7 ∷ 0 ∷ 0 ∷ [] }

pool_made : threadpoll_create calls 1 3 2 slots ≡ created pool
unfolding threadpoll_create
pool_made = refl

-- the pool with two tasks, and with its worker busy too
abbrev full_pool : Pool
full_pool = record pool {
  task_queue = job 2 ∷ job 1 ∷ [];
  task_queue_size = 2;
  task_queue_front = 0;
  task_queue_rear = 0;
}

abbrev busy_pool : Pool
busy_pool = record full_pool { busy_thread_num = 1 }

full_pool-IsRing : IsRing full_pool
full_pool-IsRing = omega arith

abbrev added_one : System
added_one = after_add (launch pool) (job 5) (add_task pool (job 5))

abbrev fetched_one : System
fetched_one = after_section added_one [] [] (worker_fetch added_one.pool)

fetched_one-Reach : Reach (launch pool) fetched_one
unfolding worker_fetch add_task
fetched_one-Reach = next (next here (add (job 5) refl)) (fetch [] [] refl refl)

tasks_in_order_example : fetched_one.taken ++ waiting fetched_one.pool ≡ fetched_one.submitted
tasks_in_order_example =
    tasks_in_order calls 1 3 2 slots calls-AllSucceed (omega arith) (omega arith) refl pool
      pool_made fetched_one fetched_one-Reach

counters_exact_example :
    (fetched_one.pool.live_thread_num
      ≡ count_created fetched_one.workers + count_uncreated fetched_one.workers)
    × (fetched_one.pool.busy_thread_num ≡ count_busy fetched_one.workers)
    × (fetched_one.pool.busy_thread_num ≤ fetched_one.pool.live_thread_num)
    × (fetched_one.pool.live_thread_num ≤ fetched_one.pool.max_thread_num)
    × (fetched_one.pool.poll_state ≡ 1
        → fetched_one.pool.min_thread_num ≤ fetched_one.pool.live_thread_num)
    × (length (waiting fetched_one.pool) ≤ fetched_one.pool.max_task_queue_size)
counters_exact_example =
    counters_exact calls 1 3 2 slots calls-AllSucceed (omega arith) (omega arith) refl pool
      pool_made fetched_one fetched_one-Reach

fetched_one_runs : fetched_one.taken ≡ job 5 ∷ []
unfolding worker_fetch add_task read_task
fetched_one_runs = refl

add_task_refines_example :
    let (r, q, _) = add_task pool (job 5) in (r, waiting q) ≡ queue_add 1 2 [] (job 5)
add_task_refines_example = add_task_refines pool (job 5) (omega arith)

full-overwrites_example :
    (slot : ℕ) × (q : Pool) × (worker_fetch full_pool
      ≡ (run slot, q, signal task_queue_not_full ∷ []))
    × ((add_task q (job 3)).0 ≡ added)
    × (read_task (add_task q (job 3)).1 slot ≡ job 3)
full-overwrites_example = full-overwrites full_pool (job 3) full_pool-IsRing refl refl

manager_grow_runs :
    manager_grow (λ _. true) (λ i. some (i + 20)) busy_pool
    ≡ record busy_pool { live_thread_num = 3; work_tids = 7 ∷ 21 ∷ 22 ∷ [] }
unfolding manager_grow
manager_grow_runs = refl

-- `pthread_mutex_init` fails: three condition variables and the mutex were never set up
abbrev no_lock : Calls
no_lock = record calls { init_lock = false }

abbrev misuses : List Misuse
misuses = destroy_raw ∷ destroy_raw ∷ destroy_raw ∷ []

no_lock_fails : threadpoll_create no_lock 1 3 2 slots ≡ failed misuses
unfolding threadpoll_create
no_lock_fails = refl

create-misuse_example : misuses ≢ []
create-misuse_example = create-misuse no_lock 1 3 2 slots misuses refl no_lock_fails

-- a closed pool with two tasks, of which one worker is at work and the other asleep
abbrev shut : System
shut = record {
  pool = record full_pool { poll_state = 0; live_thread_num = 2; busy_thread_num = 1 };
  workers = working ∷ asleep ∷ [];
  submitted = job 4 ∷ job 1 ∷ job 2 ∷ [];
  taken = job 4 ∷ [];
  executed = job 4 ∷ [];
}

shut-Inv : Inv shut
shut-Inv = record {
  ring = omega arith;
  live = refl;
  busy = refl;
  low = λ e. omega arith;
  high = omega arith;
  fifo = refl;
}

abbrev done_one : System
done_one = record shut { pool = worker_done shut.pool; workers = ready ∷ asleep ∷ [] }

closed_pool_example : Drains shut done_one
closed_pool_example = closed_pool shut done_one refl (next here (finish [] (asleep ∷ []) refl refl))

closed_drains_example :
    (t : System) × Reach shut t
    × (count_created t.workers ≡ 0)
    × (t.pool.live_thread_num ≡ 0)
    × (waiting t.pool ≡ waiting shut.pool)
closed_drains_example = closed_drains shut shut-Inv refl

abbrev still_open : System
still_open = record shut {
  pool = record full_pool { live_thread_num = 2; busy_thread_num = 1; wait_exit_thread_num = 1 };
}

still_open-Inv : Inv still_open
still_open-Inv = record {
  ring = omega arith;
  live = refl;
  busy = refl;
  low = λ e. omega arith;
  high = omega arith;
  fifo = refl;
}

waiting-Served_example : Served still_open (job 1)
waiting-Served_example =
    waiting-Served still_open (job 1) (job 2 ∷ []) still_open-Inv refl (omega arith) refl

abbrev one_too_many : Pool
one_too_many = record full_pool { live_thread_num = 2; wait_exit_thread_num = 1 }
