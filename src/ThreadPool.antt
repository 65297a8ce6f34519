-- ===== src/ThreadPool.antt =====
-- The thread pool of 20180731threadpoll-test: `threadpoll_t` and the functions of threadpoll.c.
-- Each critical section, from `pthread_mutex_lock` to the unlock or to a wait, is one function from
-- the pool to the pool, with what the section wakes. The children prove what the sections do.
pub mod Create
pub mod Safety
mod Samples
mod DemoSamples
pub mod Ring
pub mod Sections
pub mod Growth
pub mod System
pub mod Outcome
pub mod Places
pub mod Invariant
pub mod Lost
pub mod Demo
pub mod Progress
pub mod Shutdown
pub mod Emptied
use small_project_for_life_w.Base.{
  ℕ, zero, suc, ◌+◌, ◌-◌, ◌*◌, ◌/◌, ◌%◌, Bool, true, false, ◌&&◌, Option, none, some, List, [], ◌∷◌,
  ltb, leb, ◌==◌, if◌then◌else◌, get_or, set, replicate,
}

-- `threadpoll_task_t`; a function pointer is an address, and 0 is NULL.
pub record Task : Type 0 where
  pub task_name : ℕ
  pub task_param : ℕ

-- The fields of `threadpoll_t` that the critical sections read and write.
pub record Pool : Type 0 where
  pub poll_state : ℕ
  pub min_thread_num : ℕ
  pub max_thread_num : ℕ
  pub live_thread_num : ℕ
  pub busy_thread_num : ℕ
  pub wait_exit_thread_num : ℕ
  pub max_task_queue_size : ℕ
  pub task_queue_size : ℕ
  pub task_queue_front : ℕ
  pub task_queue_rear : ℕ
  pub task_queue : List Task
  pub work_tids : List ℕ

-- The condition variables, and the two ways to wake.
pub data Cond : Type 0 where
  task_queue_not_full task_queue_not_empty poll_not_enable alive_thread_empty : Cond

pub data Wake : Type 0 where
  signal : Cond → Wake
  broadcast : Cond → Wake

-- `threadpoll_enable`, with 0 for a NULL pool.
pub threadpoll_enable : Option Pool → ℕ
threadpoll_enable none = 0
threadpoll_enable (some p) = p.poll_state

-- `threadpoll_alive`: `kill` says of a thread id whether `pthread_kill(tid, 0)` is not ESRCH.
pub threadpoll_alive : (ℕ → Bool) → ℕ → Bool
threadpoll_alive kill tid = if tid == 0 then false else kill tid

-- Where a worker stands when its critical section ends: in the wait, past `pthread_exit`, or on the
-- way to the task in the slot.
pub data Fetch : Type 0 where
  block : Fetch
  leave : Fetch
  run : ℕ → Fetch

-- `pthread_exit`, in both places: one thread less, and the manager is told about the last.
leave_pool : Pool → Fetch × Pool × List Wake
leave_pool p =
    let live = p.live_thread_num - 1 in
    (
      leave,
      record p { live_thread_num = live },
      if leb live 0 then signal alive_thread_empty ∷ [] else [],
    )

-- `worker_thread` from the test of the waiting loop to the end of the critical section.
pub worker_fetch : Pool → Fetch × Pool × List Wake
unfolding leave_pool
worker_fetch p =
    let front = (p.task_queue_front + 1) % p.max_task_queue_size in
    if p.poll_state == 1 && p.task_queue_size == 0
    then (block, p, [])
    else if p.poll_state == 0
    then leave_pool p
    else (
      run front,
      record p {
        task_queue_front = front;
        task_queue_size = p.task_queue_size - 1;
        busy_thread_num = p.busy_thread_num + 1;
      },
      signal task_queue_not_full ∷ [],
    )

-- `worker_thread` behind `pthread_cond_wait`: a thread too many goes, any other tests again.
pub worker_woken : Pool → Fetch × Pool × List Wake
unfolding leave_pool worker_fetch
worker_woken p =
    let q = record p { wait_exit_thread_num = p.wait_exit_thread_num - 1 } in
    if ltb 0 p.wait_exit_thread_num
    then (if ltb q.min_thread_num q.live_thread_num then leave_pool q else worker_fetch q)
    else worker_fetch p

-- `task->task_name(task->task_param)` reads the slot with no lock held.
pub read_task : Pool → ℕ → Task
read_task p slot = get_or p.task_queue slot (record { task_name = 0; task_param = 0 })

-- the critical section behind the task
pub worker_done : Pool → Pool
worker_done p = record p { busy_thread_num = p.busy_thread_num - 1 }

-- One round of the loop of `manager_thread` that adds threads. `create i` is the id that
-- `pthread_create` stores for slot `i`, and `none` if it fails; the code does not look at that.
pub grow_round : (ℕ → Bool) → (ℕ → Option ℕ) → ℕ → ℕ × Pool → ℕ × Pool
unfolding threadpoll_alive
grow_round kill create i (add, p) =
    if threadpoll_alive kill (get_or p.work_tids i 0) then (add, p) else (
      add + 1,
      record p {
        live_thread_num = p.live_thread_num + 1;
        work_tids = elim (create i) [ none ↦ p.work_tids | some tid ↦ set p.work_tids i tid ];
      },
    )

-- The loop, on the rounds that are left to `max_thread_num`.
grow_loop : (ℕ → Bool) → (ℕ → Option ℕ) → ℕ → ℕ → ℕ × Pool → ℕ × Pool
grow_loop kill create zero i (add, p) = (add, p)
grow_loop kill create (suc k) i (add, p) =
    let rest = grow_loop kill create k (i + 1) (grow_round kill create i (add, p)) in
    if ltb p.live_thread_num p.max_thread_num && ltb add p.task_queue_size then rest else (add, p)

pub manager_grow : (ℕ → Bool) → (ℕ → Option ℕ) → Pool → Pool
unfolding grow_loop grow_round
manager_grow kill create p =
    if p.busy_thread_num == p.live_thread_num
      && ltb 0 p.task_queue_size
      && ltb p.live_thread_num p.max_thread_num
    then (grow_loop kill create p.max_thread_num 0 (0, p)).1
    else p

-- The second half of a round asks the idle threads that have nothing to do to leave.
pub manager_shrink : Pool → Pool × List Wake
manager_shrink p =
    let idle = p.live_thread_num - p.busy_thread_num in
    let extra = idle - p.task_queue_size in
    if ltb p.busy_thread_num p.live_thread_num
      && ltb p.task_queue_size idle
      && ltb p.min_thread_num p.live_thread_num
    then (record p { wait_exit_thread_num = extra }, replicate extra (signal task_queue_not_empty))
    else (p, [])

-- `manager_thread` from the lock to the timed wait; `none` is the `break`.
pub manager_round : (ℕ → Bool) → (ℕ → Option ℕ) → Pool → Option (Pool × List Wake)
unfolding manager_grow manager_shrink
manager_round kill create p =
    if p.poll_state == 0 then none else some (manager_shrink (manager_grow kill create p))

-- Behind the timed wait: whether the manager leaves its loop. If not, the next round begins with
-- the same test.
pub manager_woken : Pool → Bool
manager_woken p = p.poll_state == 0

-- `struct timeval` and `struct timespec`
pub record Timeval : Type 0 where
  pub tv_sec : ℕ
  pub tv_usec : ℕ

pub record Timespec : Type 0 where
  pub tv_sec : ℕ
  pub tv_nsec : ℕ

-- TIMER_DEFAULT, in milliseconds as it is used
abbrev pub timer_default : ℕ
timer_default = 1 * 1000

-- when the timed wait of the manager ends
pub deadline : Timeval → Timespec
deadline now =
    let nsec = now.tv_usec * 1000 + timer_default % 1000 * 1000 * 1000 in
    record {
      tv_sec = now.tv_sec + timer_default / 1000 + nsec / (1000 * 1000 * 1000);
      tv_nsec = nsec % (1000 * 1000 * 1000);
    }

-- `manager_thread` behind its loop: whether it waits, once, for `alive_thread_empty`.
pub manager_finish : Pool → Bool
manager_finish p = ltb 0 p.live_thread_num

-- What the critical section of `threadpoll_add_task`, which is `add_task`, comes to: the wait, the
-- result -1, and the result 0.
pub data Added : Type 0 where
  full : Added
  refused : Added
  added : Added

pub add_task : Pool → Task → Added × Pool × List Wake
add_task p t =
    let rear = (p.task_queue_rear + 1) % p.max_task_queue_size in
    if p.poll_state == 1 && p.task_queue_size == p.max_task_queue_size
    then (full, p, [])
    else if p.poll_state == 0
    then (refused, p, [])
    else (
      added,
      record p {
        task_queue_rear = rear;
        task_queue = set p.task_queue rear t;
        task_queue_size = p.task_queue_size + 1;
      },
      signal task_queue_not_empty ∷ [],
    )

pub threadpoll_add_task : Option Pool → Task → Added × Option Pool × List Wake
unfolding add_task
threadpoll_add_task none t = (refused, none, [])
threadpoll_add_task (some p) t =
    if t.task_name == 0
    then (refused, some p, [])
    else let (r, q, wakes) = add_task p t in (r, some q, wakes)

-- The critical section of `threadpoll_destroy`; the join and `threadpoll_free` follow.
pub disable : Pool → Pool × List Wake
disable p = (
  record p { poll_state = 0 },
  broadcast task_queue_not_empty ∷ broadcast task_queue_not_full ∷ signal poll_not_enable ∷ [],
)

-- `threadpoll_destroy` up to the join; `none` is the result -1.
pub threadpoll_destroy : Option Pool → Option (Pool × List Wake)
unfolding disable
threadpoll_destroy none = none
threadpoll_destroy (some p) = some (disable p)

-- `for (; i < n; ++i) work_tids[i] = poll->work_tids[i]`, on the rounds left
copy_tids : ℕ → ℕ → List ℕ → List ℕ → List ℕ
copy_tids zero i from to = to
copy_tids (suc k) i from to = copy_tids k (i + 1) from (set to i (get_or from i 0))

-- `set_max_thread_num` with `fits` for the success of `malloc`, and whether it returns 0.
pub set_max_thread_num : Bool → Pool → ℕ → Bool × Pool
unfolding copy_tids
set_max_thread_num fits p n =
    if leb n p.max_thread_num
    then (true, record p { max_thread_num = n })
    else if fits
    then (
      true,
      record p {
        work_tids = copy_tids p.max_thread_num 0 p.work_tids (replicate n 0);
        max_thread_num = n;
      },
    )
    else (false, p)
