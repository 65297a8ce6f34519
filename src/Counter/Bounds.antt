-- ===== src/Counter/Bounds.antt =====
-- What `gnum` can come to.
use small_project_for_life_w.Base.{ℕ, suc, ◌+◌, ◌≤◌, refl, arith}
use small_project_for_life_w.Counter.{
  Place, before, between, Counting, start, Move, read, write_back, Step, by_1, by_2, Reach, here,
  next,
}

-- the increments that a thread has still to write
abbrev pub left : Place → ℕ
left (before k) = k
left (between k v) = suc k

-- what a thread will write next is at most this
abbrev pub held : Place → ℕ
held (before k) = 0
held (between k v) = v

-- `gnum`, and the values that the threads hold, leave room for what is still to be added.
pub record Room (n : ℕ) (s : Counting) : Type 0 where
  pub shared : s.gnum + (left s.thread_1 + left s.thread_2) ≤ n
  pub first : held s.thread_1 + (left s.thread_1 + left s.thread_2) ≤ n
  pub second : held s.thread_2 + (left s.thread_1 + left s.thread_2) ≤ n

-- a move of one thread beside another
Move-room :
    (n g h : ℕ) (p q : Place) (other value : ℕ)
    → Move g p h q
    → g + (left p + other) ≤ n
    → held p + (left p + other) ≤ n
    → value + (left p + other) ≤ n
    → (h + (left q + other) ≤ n) × (held q + (left q + other) ≤ n) × (value + (left q + other) ≤ n)
Move-room n g h p q other value (read _ k) a b c = (a, a, c)
Move-room n g h p q other value (write_back _ k v) a b c = (omega arith, omega arith, omega arith)

Step-Room : (n : ℕ) {s t : Counting} → Step s t → Room n s → Room n t
Step-Room n {s} {t} (by_1 m e) r =
    let (a, b, c) =
      Move-room n s.gnum t.gnum s.thread_1 t.thread_1 (left s.thread_2) (held s.thread_2) m r.shared
        r.first r.second in
    record { shared = rw e a; first = rw e b; second = rw e c }
Step-Room n {s} {t} (by_2 m e) r =
    let (a, b, c) =
      Move-room n s.gnum t.gnum s.thread_2 t.thread_2 (left s.thread_1) (held s.thread_1) m
        (omega (arith, r.shared)) (omega (arith, r.second)) (omega (arith, r.first)) in
    record {
      shared = rw e (omega (arith, a));
      first = rw e (omega (arith, c));
      second = rw e (omega (arith, b));
    }

Reach-Room : (n : ℕ) {s t : Counting} → Reach s t → Room n s → Room n t
Reach-Room n here r = r
Reach-Room n (next run step) r = Step-Room n step (Reach-Room n run r)

-- However the threads take turns, `gnum` and the increments that are still to come are at most 9
-- together.
pub gnum_bounded : (s : Counting) → Reach start s → s.gnum + (left s.thread_1 + left s.thread_2) ≤ 9
gnum_bounded s run =
    (Reach-Room 9 run
      (record { shared = omega arith; first = omega arith; second = omega arith })).shared

-- From any state before their reads, both threads can pass a round of their loops and `gnum` grow
-- by one alone: an increment is lost.
pub increment_lost :
    (g n m : ℕ)
    → Reach
        (record { gnum = g; thread_1 = before (suc n); thread_2 = before (suc m) })
        (record { gnum = g + 1; thread_1 = before n; thread_2 = before m })
increment_lost g n m =
    next
      (next (next (next here (by_1 (read g n) refl)) (by_2 (read g m) refl))
        (by_1 (write_back g n g) refl))
      (by_2 (write_back (g + 1) m g) refl)
