-- ===== src/Sem/Threads.antt =====
-- What the semaphore keeps between the two threads.
use small_project_for_life_w.Base.{◌+◌, ◌≤◌, ◌≡◌, refl, arith}
use small_project_for_life_w.Sem.{Semaphore, start, Step, wait, post, Reach, here, next}

Step-balance :
    {s t : Semaphore}
    → Step s t
    → s.value + s.waited ≡ 2 + s.posted
    → t.value + t.waited ≡ 2 + t.posted
Step-balance (wait v e) h = omega arith
Step-balance post h = omega arith

Reach-balance :
    {s t : Semaphore}
    → Reach s t
    → s.value + s.waited ≡ 2 + s.posted
    → t.value + t.waited ≡ 2 + t.posted
Reach-balance here h = h
Reach-balance (next run step) h = Step-balance step (Reach-balance run h)

-- The waiting thread is never more than two rounds ahead of the posting one.
ahead_by_two : (s : Semaphore) → Reach start s → s.waited ≤ 2 + s.posted
ahead_by_two s run = let e = Reach-balance run refl in omega arith
