-- ===== src/ThreadPool/DemoSamples.antt =====
-- The theorem on the demonstration, when its first number has been added.
use small_project_for_life_w.Base.{
  ◌≤◌, ◌≡◌, refl, true, some, List, ◌∷◌, ◌++◌, arith, replicate, ◌+◌,
}
use small_project_for_life_w.ThreadPool.{Task, Pool, add_task}
use small_project_for_life_w.ThreadPool.Ring.{waiting}
use small_project_for_life_w.ThreadPool.Create.{
  Calls, created, threadpoll_create, AllSucceed, blank, launch,
}
use small_project_for_life_w.ThreadPool.System.{System, after_add}
use small_project_for_life_w.ThreadPool.Demo.{
  number_task, first_tasks, DemoReach, at_start, goes_on, adds, numbers_in_order,
}

abbrev calls : Calls
calls = record {
  malloc_poll = true;
  malloc_task_queue = true;
  init_not_full = true;
  init_not_empty = true;
  malloc_work_tids = true;
  init_attr = true;
  set_detached = true;
  init_lock = true;
  init_not_enable = true;
  init_alive_empty = true;
  create_worker = λ i. some (i + 7);
  create_manager = some 99;
}

calls-AllSucceed : AllSucceed calls 3
calls-AllSucceed = record {
  poll = refl;
  queue = refl;
  not_full = refl;
  not_empty = refl;
  tids = refl;
  attr = refl;
  detached = refl;
  lock = refl;
  not_enable = refl;
  alive_empty = refl;
  workers = λ i h. (i + 7, refl);
  manager = (99, refl);
}

abbrev slots : List Task
slots = replicate 30 (record { task_name = 0; task_param = 0 })

abbrev pool : Pool
pool = record (blank 3 20 30 slots) { live_thread_num = 3; work_tids = 7 ∷ 8 ∷ 9 ∷ replicate 17 0 }

pool_made : threadpoll_create calls 3 20 30 slots ≡ created pool
unfolding threadpoll_create
pool_made = refl

abbrev added_first : System
added_first =
    after_add (launch pool) (number_task 0x400 100 0) (add_task pool (number_task 0x400 100 0))

added_first-DemoReach : DemoReach 0x400 100 (launch pool, 0) (added_first, 1)
unfolding add_task
added_first-DemoReach = goes_on at_start (adds (omega arith) refl refl)

numbers_in_order_example :
    (added_first.taken ++ waiting added_first.pool ≡ first_tasks 0x400 100 1)
    × (1 ≤ 50)
    × (added_first.pool.poll_state ≡ 1)
numbers_in_order_example =
    numbers_in_order calls slots calls-AllSucceed refl pool pool_made 0x400 100 added_first 1
      added_first-DemoReach
