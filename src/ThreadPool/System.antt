-- ===== src/ThreadPool/System.antt =====
-- The pool at work: any number of workers, clients and the manager, interleaved by critical
-- sections. A sleeping worker may wake at any time, as POSIX allows; so every order that the
-- signals can bring about is among these steps. A thread that the manager could not create is among
-- the workers too, since the code counts it, but never moves.
use small_project_for_life_w.Base.{
  ℕ, zero, suc, ◌+◌, ◌≡◌, Bool, ◌&&◌, Option, none, some, List, [], ◌∷◌, ◌++◌, ltb, ◌==◌,
  if◌then◌else◌, get_or,
}
use small_project_for_life_w.ThreadPool.{
  Task, Pool, Fetch, block, leave, run, Wake, Added, full, refused, added, read_task, worker_fetch,
  worker_woken, worker_done, threadpoll_alive, grow_round, manager_round, add_task, disable,
}

-- Where a live worker stands in `worker_thread`.
pub data Place : Type 0 where
  ready : Place  -- before a lock of its loop
  asleep : Place  -- in `pthread_cond_wait`
  holding : ℕ → Place  -- behind the unlock, before it reads its slot
  working : Place  -- in the task
  uncreated : Place  -- counted by the manager, though `pthread_create` failed

-- Beside the pool and its live workers: the tasks that clients have added, those that workers have
-- taken off the queue, and those that workers have read from their slots and run, each in order.
pub record System : Type 0 where
  pub pool : Pool
  pub workers : List Place
  pub submitted : List Task
  pub taken : List Task
  pub executed : List Task

-- A worker between `pre` and `post` has ended a critical section.
abbrev pub after_section : System → List Place → List Place → Fetch × Pool × List Wake → System
after_section s pre post (block, p, _) = record s { pool = p; workers = pre ++ asleep ∷ post }
after_section s pre post (leave, p, _) = record s { pool = p; workers = pre ++ post }
after_section s pre post (run slot, p, _) = record s {
  pool = p;
  workers = pre ++ holding slot ∷ post;
  taken = s.taken ++ (read_task p slot ∷ []);
}

abbrev pub after_add : System → Task → Added × Pool × List Wake → System
after_add s t (full, p, _) = record s { pool = p }
after_add s t (refused, p, _) = record s { pool = p }
after_add s t (added, p, _) = record s { pool = p; submitted = s.submitted ++ (t ∷ []) }

-- A new thread starts at the head of its loop, if it could be created.
abbrev pub place_of : Option ℕ → Place
place_of none = uncreated
place_of (some tid) = ready

-- The threads that the manager counts in its loop, by what `pthread_create` returned for each.
unfoldable pub grow_places : (ℕ → Bool) → (ℕ → Option ℕ) → ℕ → ℕ → ℕ × Pool → List Place
grow_places kill create zero i (counted, p) = []
grow_places kill create (suc k) i (counted, p) =
    let rest = grow_places kill create k (i + 1) (grow_round kill create i (counted, p)) in
    if ltb p.live_thread_num p.max_thread_num && ltb counted p.task_queue_size
    then (if threadpoll_alive kill (get_or p.work_tids i 0)
        then rest
        else place_of (create i) ∷ rest)
    else []

unfoldable pub new_places : (ℕ → Bool) → (ℕ → Option ℕ) → Pool → List Place
new_places kill create p =
    if p.busy_thread_num == p.live_thread_num
      && ltb 0 p.task_queue_size
      && ltb p.live_thread_num p.max_thread_num
    then grow_places kill create p.max_thread_num 0 (0, p)
    else []

abbrev pub after_round : System → List Place → Pool → System
after_round s new q = record s { pool = q; workers = s.workers ++ new }

pub data Step (s t : System) : Type 0 where
  fetch :
      (pre post : List Place)
      → s.workers ≡ pre ++ ready ∷ post
      → t ≡ after_section s pre post (worker_fetch s.pool)
      → Step s t
  wake :
      (pre post : List Place)
      → s.workers ≡ pre ++ asleep ∷ post
      → t ≡ after_section s pre post (worker_woken s.pool)
      → Step s t
  start :
      (pre post : List Place) (slot : ℕ)
      → s.workers ≡ pre ++ holding slot ∷ post
      → t ≡ record s {
        workers = pre ++ working ∷ post;
        executed = s.executed ++ (read_task s.pool slot ∷ []);
      }
      → Step s t
  finish :
      (pre post : List Place)
      → s.workers ≡ pre ++ working ∷ post
      → t ≡ record s { pool = worker_done s.pool; workers = pre ++ ready ∷ post }
      → Step s t
  add : (task : Task) → t ≡ after_add s task (add_task s.pool task) → Step s t
  manage :
      (kill : ℕ → Bool) (create : ℕ → Option ℕ) (q : Pool) (wakes : List Wake)
      → manager_round kill create s.pool ≡ some (q, wakes)
      → t ≡ after_round s (new_places kill create s.pool) q
      → Step s t
  destroy : t ≡ record s { pool = (disable s.pool).0 } → Step s t

pub data Reach (s : System) : System → Type 0 where
  here : Reach s s
  next : {t u : System} → Reach s t → Step t u → Reach s u

pub before : {s t u : System} → Step s t → Reach t u → Reach s u
before step here = next here step
before step (next r more) = next (before step r) more
