-- ===== src/ThreadPool/Create.antt =====
-- `threadpoll_create`, `threadpoll_free` and the failures between them. What the calls of the
-- system return is the parameter `Calls`; what is freed or destroyed without having been set up is
-- recorded, since the standard leaves its effect open.
use small_project_for_life_w.Base.{
  ℕ, zero, suc, ◌+◌, ◌≤◌, ◌<◌, ◌≡◌, refl, ◌≢◌, Bool, true, false, Option, none, some, List, [], ◌∷◌,
  ◌++◌, arith, set, replicate, length, length-set, length-replicate, if◌then◌else◌, Option-cases,
  inl, inr, ap, sym, ◌∙◌,
}
use small_project_for_life_w.ThreadPool.{Task, Pool}
use small_project_for_life_w.ThreadPool.System.{System, ready}
use small_project_for_life_w.ThreadPool.Invariant.{Inv}
use small_project_for_life_w.ThreadPool.Places.{count_busy-ready}

-- a pointer that no one has set, NULL, or a block of `malloc`
pub data Block : Type 0 where
  garbage null allocated : Block

-- a condition variable, mutex or attribute before and after its `init`
pub data Obj : Type 0 where
  raw prepared : Obj

pub data Misuse : Type 0 where
  free_garbage destroy_raw join_raw : Misuse

-- The parts of `threadpoll_t` that `threadpoll_free` gives back.
pub record Parts : Type 0 where
  pub task_queue : Block
  pub work_tids : Block
  pub task_queue_not_full : Obj
  pub task_queue_not_empty : Obj
  pub thr_attr : Obj
  pub poll_lock : Obj
  pub poll_not_enable : Obj
  pub alive_thread_empty : Obj

give_back : Block → List Misuse
give_back garbage = free_garbage ∷ []
give_back _ = []

tear_down : Obj → List Misuse
tear_down raw = destroy_raw ∷ []
tear_down prepared = []

-- `threadpoll_free` of a pool that is not NULL
pub threadpoll_free : Parts → List Misuse
unfolding give_back tear_down
threadpoll_free p =
    give_back p.task_queue
    ++ (give_back p.work_tids
        ++ (tear_down p.task_queue_not_full
            ++ (tear_down p.task_queue_not_empty
                ++ (tear_down p.thr_attr
                    ++ (tear_down p.poll_lock
                        ++ (tear_down p.poll_not_enable ++ tear_down p.alive_thread_empty))))))

-- What each call returns: whether it succeeds, and the ids of the threads that are created.
pub record Calls : Type 0 where
  pub malloc_poll : Bool
  pub malloc_task_queue : Bool
  pub init_not_full : Bool
  pub init_not_empty : Bool
  pub malloc_work_tids : Bool
  pub init_attr : Bool
  pub set_detached : Bool
  pub init_lock : Bool
  pub init_not_enable : Bool
  pub init_alive_empty : Bool
  pub create_worker : ℕ → Option ℕ
  pub create_manager : Option ℕ

pub data Created : Type 0 where
  created : Pool → Created
  failed : List Misuse → Created

-- `if (… != 0) { threadpoll_free(poll); return NULL; }`
need : Bool → Parts → Created → Created
unfolding threadpoll_free
need true p k = k
need false p k = failed (threadpoll_free p)

-- The pool behind the first block of assignments; `slots` is what the new array of tasks holds.
abbrev pub blank : ℕ → ℕ → ℕ → List Task → Pool
blank min_num max_num cap slots = record {
  poll_state = 1;
  min_thread_num = min_num;
  max_thread_num = max_num;
  live_thread_num = 0;
  busy_thread_num = 0;
  wait_exit_thread_num = 0;
  max_task_queue_size = cap;
  task_queue_size = 0;
  task_queue_front = 0;
  task_queue_rear = 0;
  task_queue = slots;
  work_tids = replicate max_num 0;
}

-- `adjust_tid` is set by the last call only, so a `threadpoll_destroy` before joins no thread.
abbrev destroy_early : Created
destroy_early = failed (join_raw ∷ [])

-- the loop over the first workers, on the rounds left, and the manager behind it
start_workers : Calls → ℕ → ℕ → Pool → Created
start_workers c zero i p = elim c.create_manager [ none ↦ destroy_early | some _ ↦ created p ]
start_workers c (suc k) i p = elim (c.create_worker i) [
  | none ↦ destroy_early
  | some tid ↦
      start_workers c k (i + 1)
        (record p { work_tids = set p.work_tids i tid; live_thread_num = p.live_thread_num + 1 })
]

abbrev parts₀ : Parts
parts₀ = record {
  task_queue = null;
  work_tids = garbage;
  task_queue_not_full = raw;
  task_queue_not_empty = raw;
  thr_attr = raw;
  poll_lock = raw;
  poll_not_enable = raw;
  alive_thread_empty = raw;
}

-- `threadpoll_create`; each failure frees what the parts are by then.
unfoldable pub threadpoll_create : Calls → ℕ → ℕ → ℕ → List Task → Created
unfolding need start_workers
threadpoll_create c min_num max_num cap slots =
    let q₁ = record parts₀ { task_queue = allocated } in
    let q₂ = record q₁ { task_queue_not_full = prepared } in
    let q₃ = record q₂ { task_queue_not_empty = prepared } in
    let q₄ = record q₃ { work_tids = allocated } in
    let q₅ = record q₄ { thr_attr = prepared } in
    let q₆ = record q₅ { poll_lock = prepared } in
    let q₇ = record q₆ { poll_not_enable = prepared } in
    if c.malloc_poll
    then (need c.malloc_task_queue parts₀ (
        need c.init_not_full q₁ (
          need c.init_not_empty q₂ (
            need c.malloc_work_tids (record q₃ { work_tids = null })
              (need c.init_attr q₄ (
                need c.set_detached q₅ (
                  need c.init_lock q₅ (
                    need c.init_not_enable q₆ (
                      need c.init_alive_empty q₇
                        (start_workers c min_num 0 (blank min_num max_num cap slots)))))))))))
    else failed []

-- what the code takes for granted of a call that succeeds
pub record AllSucceed (c : Calls) (min_num : ℕ) : Type 0 where
  pub poll : c.malloc_poll ≡ true
  pub queue : c.malloc_task_queue ≡ true
  pub not_full : c.init_not_full ≡ true
  pub not_empty : c.init_not_empty ≡ true
  pub tids : c.malloc_work_tids ≡ true
  pub attr : c.init_attr ≡ true
  pub detached : c.set_detached ≡ true
  pub lock : c.init_lock ≡ true
  pub not_enable : c.init_not_enable ≡ true
  pub alive_empty : c.init_alive_empty ≡ true
  pub workers : (i : ℕ) → i < min_num → (tid : ℕ) × (c.create_worker i ≡ some tid)
  pub manager : (tid : ℕ) × (c.create_manager ≡ some tid)

-- Behind the initialisations a failure is that of a thread.
start_workers-failed :
    (c : Calls) (k i : ℕ) (p : Pool) (ms : List Misuse)
    → start_workers c k i p ≡ failed ms
    → ms ≢ []
unfolding start_workers
start_workers-failed c zero i p ms e = elim (Option-cases c.create_manager) [
  | inl no_thread ↦ ground arith
  | inr (tid, made) ↦ ground arith
]
start_workers-failed c (suc k) i p ms e = elim (Option-cases (c.create_worker i)) [
  | inl no_thread ↦ ground arith
  | inr (tid, made) ↦ start_workers-failed c k (i + 1) _ ms (rw (made, start_workers) at e)
]

-- Every failure behind the first `malloc` frees, destroys or joins something that was never set up.
pub create-misuse :
    (c : Calls) (min_num max_num cap : ℕ) (slots : List Task) (ms : List Misuse)
    → c.malloc_poll ≡ true
    → threadpoll_create c min_num max_num cap slots ≡ failed ms
    → ms ≢ []
unfolding threadpoll_create
create-misuse c min_num max_num cap slots ms got e =
    ground (arith, start_workers-failed c min_num 0 (blank min_num max_num cap slots) ms)

-- The loop adds one live thread a round, and keeps all else but the ids.
start_workers-created :
    (c : Calls) (k i : ℕ) (p : Pool)
    → ((j : ℕ) → j < i + k → (tid : ℕ) × (c.create_worker j ≡ some tid))
    → (tid : ℕ) × (c.create_manager ≡ some tid)
    → (ids : List ℕ) × (start_workers c k i p
        ≡ created (record p { live_thread_num = p.live_thread_num + k; work_tids = ids }))
      × (length ids ≡ length p.work_tids)
unfolding start_workers
start_workers-created c zero i p workers (tid, made) = (
  p.work_tids,
  rw (made, start_workers)
      (ap (λ (n : ℕ). created (record p { live_thread_num = n })) (omega arith)),
  refl,
)
start_workers-created c (suc k) i p workers manager =
    let (tid, made) = workers i (omega arith) in
    let (ids, e, same) =
      start_workers-created c k (i + 1)
        (record p { work_tids = set p.work_tids i tid; live_thread_num = p.live_thread_num + 1 })
        (λ j h. workers j (omega arith)) manager in
    (
      ids,
      rw (made, start_workers)
          (e
            ∙ ap (λ (n : ℕ). created (record p { live_thread_num = n; work_tids = ids }))
                (omega arith)),
      same ∙ length-set p.work_tids i tid,
    )

-- the pool that `threadpoll_create` returns, with its workers at the head of their loop
abbrev pub launch : Pool → System
launch p = record {
  pool = p;
  workers = replicate p.live_thread_num ready;
  submitted = [];
  taken = [];
  executed = [];
}

-- If every call succeeds and the limits are in order, `threadpoll_create` returns a pool with
-- `min_thread_num` live workers and no task, which meets the invariant.
pub create-Inv :
    (c : Calls) (min_num max_num cap : ℕ) (slots : List Task)
    → AllSucceed c min_num
    → min_num ≤ max_num
    → 0 < cap
    → length slots ≡ cap
    → (p : Pool) × (threadpoll_create c min_num max_num cap slots ≡ created p)
      × (p.live_thread_num ≡ min_num)
      × (length p.work_tids ≡ max_num)
      × (p.poll_state ≡ 1)
      × Inv (launch p)
unfolding threadpoll_create
create-Inv c min_num max_num cap slots ok in_order room enough =
    let (ids, e, same) =
      start_workers-created c min_num 0 (blank min_num max_num cap slots)
        (λ j h. ok.workers j (omega arith)) ok.manager in
    (
      record (blank min_num max_num cap slots) { live_thread_num = min_num; work_tids = ids },
      ground (arith, ok, e),
      refl,
      same ∙ length-replicate max_num 0,
      refl,
      record {
        ring = record {
          switch = omega arith;
          storage = enough;
          room = room;
          front_in = room;
          fits = omega arith;
          rear_at = omega arith;
        };
        live = sym (length-replicate min_num ready);
        busy = sym (count_busy-ready min_num);
        low = λ _. omega arith;
        high = in_order;
        fifo = refl;
      },
    )
