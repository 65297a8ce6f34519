-- ===== src/ThreadPool/Outcome.antt =====
-- The three ways in which a worker's critical section can end, with what each leaves as it was.
use small_project_for_life_w.Base.{
  ℕ, ◌+◌, ◌-◌, ◌%◌, ◌<◌, ◌≡◌, refl, ◌≢◌, ◌⊎◌, inl, inr, List, ◌∷◌, arith, Bool-cases, ltb, ◌==◌,
  ◌&&◌,
}
use small_project_for_life_w.ThreadPool.{
  Task, Pool, Fetch, block, leave, run, Wake, read_task, worker_fetch, worker_woken, leave_pool,
}
use small_project_for_life_w.ThreadPool.Ring.{waiting, IsRing, behind-cons}
use small_project_for_life_w.ThreadPool.Sections.{take_one-IsRing}

pub record Kept (p q : Pool) : Type 0 where
  pub ring : IsRing q
  pub switch : q.poll_state ≡ p.poll_state
  pub low : q.min_thread_num ≡ p.min_thread_num
  pub high : q.max_thread_num ≡ p.max_thread_num

pub data Outcome (p : Pool) (r : Fetch × Pool × List Wake) : Type 0 where
  blocked :
      r.0 ≡ block
      → Kept p r.1
      → waiting r.1 ≡ waiting p
      → r.1.live_thread_num ≡ p.live_thread_num
      → r.1.busy_thread_num ≡ p.busy_thread_num
      → Outcome p r
  left :
      r.0 ≡ leave
      → Kept p r.1
      → waiting r.1 ≡ waiting p
      → r.1.live_thread_num ≡ p.live_thread_num - 1
      → r.1.busy_thread_num ≡ p.busy_thread_num
      → (p.poll_state ≡ 0) ⊎ (p.min_thread_num < p.live_thread_num)
      → Outcome p r
  took :
      (slot : ℕ) (t : Task)
      → r.0 ≡ run slot
      → Kept p r.1
      → read_task r.1 slot ≡ t
      → waiting p ≡ t ∷ waiting r.1
      → r.1.live_thread_num ≡ p.live_thread_num
      → r.1.busy_thread_num ≡ p.busy_thread_num + 1
      → Outcome p r

leave-Outcome :
    (p : Pool)
    → IsRing p
    → (p.poll_state ≡ 0) ⊎ (p.min_thread_num < p.live_thread_num)
    → Outcome p (leave_pool p)
unfolding leave_pool
leave-Outcome p v why =
    left refl (record { ring = ground (arith, v); switch = refl; low = refl; high = refl }) refl
      refl refl why

-- The section from the test of the waiting loop on ends in one of the three ways.
pub worker_fetch-Outcome : (p : Pool) → IsRing p → Outcome p (worker_fetch p)
unfolding worker_fetch read_task
worker_fetch-Outcome p v = elim (Bool-cases (p.poll_state == 1 && p.task_queue_size == 0)) [
  | inl idle ↦
      rw idle
        (blocked refl (record { ring = v; switch = refl; low = refl; high = refl }) refl refl refl)
  | inr busy ↦ rw busy (elim (Bool-cases (p.poll_state == 0)) [
    | inl off ↦ rw off (leave-Outcome p v (inl (ground arith)))
    | inr on ↦
        let some_wait : p.task_queue_size ≢ 0 = ground (arith, v.switch) in
        rw on (
          took ((p.task_queue_front + 1) % p.max_task_queue_size) _ refl
            (record {
              ring = take_one-IsRing p v some_wait;
              switch = refl;
              low = refl;
              high = refl;
            })
            refl
            (behind-cons p.task_queue p.max_task_queue_size p.task_queue_front p.task_queue_size
              some_wait)
            refl refl)
  ])
]

-- The section does not look at the count of threads to leave, beyond its first test.
less_to_leave :
    {p : Pool} {r : Fetch × Pool × List Wake}
    → Outcome (record p { wait_exit_thread_num = p.wait_exit_thread_num - 1 }) r
    → Outcome p r
less_to_leave (blocked e k w l b) =
    blocked e (record { ring = k.ring; switch = k.switch; low = k.low; high = k.high }) w l b
less_to_leave (left e k w l b why) =
    left e (record { ring = k.ring; switch = k.switch; low = k.low; high = k.high }) w l b why
less_to_leave (took slot t e k g w l b) =
    took slot t e (record { ring = k.ring; switch = k.switch; low = k.low; high = k.high }) g w l b

-- A worker that wakes ends its section in one of the three ways, and leaves an open pool only if
-- more threads than the minimum are alive.
pub worker_woken-Outcome : (p : Pool) → IsRing p → Outcome p (worker_woken p)
unfolding worker_woken
worker_woken-Outcome p v =
    let q = record p { wait_exit_thread_num = p.wait_exit_thread_num - 1 } in
    let w : IsRing q = ground (arith, v) in
    elim (Bool-cases (ltb 0 p.wait_exit_thread_num)) [
      | inl asked ↦ rw asked (elim (Bool-cases (ltb p.min_thread_num p.live_thread_num)) [
        | inl spare ↦ rw spare (less_to_leave (leave-Outcome q w (inr (ground arith))))
        | inr needed ↦ rw needed (less_to_leave (worker_fetch-Outcome q w))
      ])
      | inr not_asked ↦ rw not_asked (worker_fetch-Outcome p v)
    ]
