-- ===== src/Counter/Ends.antt =====
-- The values of `gnum` when both threads are done.
use small_project_for_life_w.Base.{ℕ, zero, suc, ◌+◌, ◌≤◌, ◌<◌, refl, sym, subst, arith}
use small_project_for_life_w.Counter.{
  Place, before, between, Counting, start, Move, read, write_back, Step, by_1, by_2, Reach, here,
  next,
}
use small_project_for_life_w.Counter.Bounds.{gnum_bounded}

-- A thread of `n` rounds that has passed one has left at least 1 in `gnum`, and what it then reads
-- is no less.
abbrev Passed : (n g : ℕ) → Place → Type 0
Passed n g (before k) = k < n → 1 ≤ g
Passed n g (between k v) = (k + 1 < n) → (1 ≤ g) × (1 ≤ v)

abbrev Done : Place → Type 0
Done (before zero) = Unit
Done (before (suc k)) = ⊥
Done (between k v) = ⊥

-- `gnum` only ever becomes larger than 0.
Move-Passed : (n g h : ℕ) (p q : Place) → Move g p h q → Passed n g p → Passed n h q
Move-Passed n g h p q (read g' k) before_it =
    λ more. (before_it (omega (arith, more)), before_it (omega (arith, more)))
Move-Passed n g h p q (write_back g' k v) before_it = λ more. omega arith

Move-other : (n g h : ℕ) (p q r : Place) → Move g p h q → Passed n g r → Passed n h r
Move-other n g h p q (before k) (read g' j) passed = passed
Move-other n g h p q (between k v) (read g' j) passed = passed
Move-other n g h p q (before k) (write_back g' j w) passed = λ more. omega arith
Move-other n g h p q (between k v) (write_back g' j w) passed =
    λ more. let (_, held) = passed more in (omega arith, held)

-- A thread of at least two rounds that comes to its end leaves at least 2.
Move-Done : (n g h : ℕ) (p q : Place) → 1 < n → Move g p h q → Passed n g p → Done q → 2 ≤ h
Move-Done n g h p q two (read g' k) passed done = absurd done
Move-Done n g h p q two (write_back g' zero v) passed done =
    let (_, held) = passed (omega (arith, two)) in omega (arith, held)
Move-Done n g h p q two (write_back g' (suc k) v) passed done = absurd done

record AtLeast (s : Counting) : Type 0 where
  passed_1 : Passed 3 s.gnum s.thread_1
  passed_2 : Passed 6 s.gnum s.thread_2
  ended : Done s.thread_1 → Done s.thread_2 → 2 ≤ s.gnum

Step-AtLeast : (s t : Counting) → Step s t → AtLeast s → AtLeast t
Step-AtLeast s t (by_1 move same) a = record {
  passed_1 = Move-Passed 3 _ _ _ _ move a.passed_1;
  passed_2 =
      subst (λ (p : Place). Passed 6 t.gnum p) (sym same)
        (Move-other 6 _ _ _ _ s.thread_2 move a.passed_2);
  ended = λ done _. Move-Done 3 _ _ _ _ (omega arith) move a.passed_1 done;
}
Step-AtLeast s t (by_2 move same) a = record {
  passed_1 =
      subst (λ (p : Place). Passed 3 t.gnum p) (sym same)
        (Move-other 3 _ _ _ _ s.thread_1 move a.passed_1);
  passed_2 = Move-Passed 6 _ _ _ _ move a.passed_2;
  ended = λ _ done. Move-Done 6 _ _ _ _ (omega arith) move a.passed_2 done;
}

Reach-AtLeast : (t : Counting) → Reach start t → AtLeast t
Reach-AtLeast t here = record {
  passed_1 = λ more. absurd (omega (arith, more));
  passed_2 = λ more. absurd (omega (arith, more));
  ended = λ done _. absurd done;
}
Reach-AtLeast t (next {t = s} r step) = Step-AtLeast s t step (Reach-AtLeast s r)

-- both threads behind their loops
abbrev pub ended_with : ℕ → Counting
ended_with g = record { gnum = g; thread_1 = before 0; thread_2 = before 0 }

-- a round of one thread alone
round_1 :
    {s : Counting} {g k : ℕ} {p : Place}
    → Reach s (record { gnum = g; thread_1 = before (suc k); thread_2 = p })
    → Reach s (record { gnum = g + 1; thread_1 = before k; thread_2 = p })
round_1 {g} {k} r = next (next r (by_1 (read g k) refl)) (by_1 (write_back g k g) refl)

round_2 :
    {s : Counting} {g k : ℕ} {p : Place}
    → Reach s (record { gnum = g; thread_1 = p; thread_2 = before (suc k) })
    → Reach s (record { gnum = g + 1; thread_1 = p; thread_2 = before k })
round_2 {g} {k} r = next (next r (by_2 (read g k) refl)) (by_2 (write_back g k g) refl)

-- The first thread reads 0, the second comes to its last round, the first writes 1, the second
-- reads that, and writes 2 when the first is done.
pub ends_with_two : Reach start (ended_with 2)
ends_with_two =
    let first_read = next here (by_1 (read 0 2) refl) in
    let one_left = round_2 (round_2 (round_2 (round_2 (round_2 first_read)))) in
    let both_read = next (next one_left (by_1 (write_back 5 2 0) refl)) (by_2 (read 1 0) refl) in
    next (round_1 (round_1 both_read)) (by_2 (write_back 3 0 1) refl)

pub ends_with_nine : Reach start (ended_with 9)
ends_with_nine =
    let first_done = round_1 (round_1 (round_1 here)) in
    round_2 (round_2 (round_2 (round_2 (round_2 (round_2 first_done)))))

-- When both threads are done, `gnum` is at least 2 and at most 9.
pub gnum_ends : (g : ℕ) → Reach start (ended_with g) → (2 ≤ g) × (g ≤ 9)
gnum_ends g r = ((Reach-AtLeast _ r).ended tt tt, omega (arith, gnum_bounded _ r))
