-- ===== src/Counter.antt =====
-- The two threads of 20170822/main.c that count in `gnum` with the calls of the mutex commented
-- out. `gnum++` is a read and a write; a step is one of them, by either thread.
pub mod Bounds
pub mod Ends
mod Samples
use small_project_for_life_w.Base.{ℕ, zero, suc, ◌+◌, ◌≡◌, refl}

-- Where a thread stands, with the rounds of its loop that are left: before the read, or between the
-- read of a value and the write.
pub data Place : Type 0 where
  before : ℕ → Place
  between : (rounds value : ℕ) → Place

pub record Counting : Type 0 where
  pub gnum : ℕ
  pub thread_1 : Place
  pub thread_2 : Place

-- the state in which `main` has created both threads
abbrev pub start : Counting
start = record { gnum = 0; thread_1 = before 3; thread_2 = before 6 }

-- what a thread does to `gnum` and to its place
pub data Move : ℕ → Place → ℕ → Place → Type 0 where
  read : (g k : ℕ) → Move g (before (suc k)) g (between k g)
  write_back : (g k v : ℕ) → Move g (between k v) (v + 1) (before k)

pub data Step (s t : Counting) : Type 0 where
  by_1 : Move s.gnum s.thread_1 t.gnum t.thread_1 → t.thread_2 ≡ s.thread_2 → Step s t
  by_2 : Move s.gnum s.thread_2 t.gnum t.thread_2 → t.thread_1 ≡ s.thread_1 → Step s t

pub data Reach (s : Counting) : Counting → Type 0 where
  here : Reach s s
  next : {t u : Counting} → Reach s t → Step t u → Reach s u
