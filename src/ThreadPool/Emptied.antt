-- ===== src/ThreadPool/Emptied.antt =====
-- The workers of a pool behind `threadpoll_destroy` can all leave.
use small_project_for_life_w.Base.{
  ℕ, zero, suc, ◌≡◌, refl, ap, List, [], ◌∷◌, ◌++◌, ◌⊎◌, inl, inr, arith,
}
use small_project_for_life_w.ThreadPool.{worker_fetch, worker_woken}
use small_project_for_life_w.ThreadPool.Invariant.{Inv, Reach-Inv}
use small_project_for_life_w.ThreadPool.Ring.{waiting}
use small_project_for_life_w.ThreadPool.Places.{
  is_uncreated, count_uncreated, count_created, count_created_lem,
}
use small_project_for_life_w.ThreadPool.System.{
  Place, ready, asleep, holding, working, uncreated, System, after_section, Step, fetch, wake,
  start, finish, Reach, here, before,
}
use small_project_for_life_w.ThreadPool.Shutdown.{
  Closed, load, Drained, closed_pool, section-Drained, worker_fetch-Leaves, worker_woken-Leaves,
  start-Drained, finish-Drained,
}

-- Of any workers, one has a section before it, or none was ever created.
some_or_none :
    (ws : List Place)
    → ((pre : List Place) × (w : Place) × (post : List Place) × (ws ≡ pre ++ w ∷ post)
        × (is_uncreated w ≡ 0))
      ⊎ (count_created ws ≡ 0)
some_or_none [] = inr refl
some_or_none (ready ∷ ws) = inl ([], ready, ws, refl, refl)
some_or_none (asleep ∷ ws) = inl ([], asleep, ws, refl, refl)
some_or_none (holding slot ∷ ws) = inl ([], holding slot, ws, refl, refl)
some_or_none (working ∷ ws) = inl ([], working, ws, refl, refl)
some_or_none (uncreated ∷ ws) = elim (some_or_none ws) [
  | inl (pre, w, post, e, c) ↦
      inl (uncreated ∷ pre, w, post, ap (λ (l : List Place). uncreated ∷ l) e, c)
  | inr none_left ↦ inr (omega (arith, none_left))
]

-- A worker that was created can go on.
one_moves :
    (s : System) (pre : List Place) (w : Place) (ws : List Place)
    → Closed s
    → s.workers ≡ pre ++ w ∷ ws
    → is_uncreated w ≡ 0
    → (t : System) × Step s t × Drained s t
one_moves s pre ready ws off at c = (
  after_section s pre ws (worker_fetch s.pool),
  fetch pre ws at refl,
  section-Drained s off pre ws ready (worker_fetch s.pool) at refl refl
      (worker_fetch-Leaves s.pool off),
)
one_moves s pre asleep ws off at c = (
  after_section s pre ws (worker_woken s.pool),
  wake pre ws at refl,
  section-Drained s off pre ws asleep (worker_woken s.pool) at refl refl
      (worker_woken-Leaves s.pool off),
)
one_moves s pre (holding slot) ws off at c =
    (_, start pre ws slot at refl, start-Drained s off pre ws slot at)
one_moves s pre uncreated ws off at c = absurd (omega (arith, c))
one_moves s pre working ws off at c = (_, finish pre ws at refl, finish-Drained s off pre ws at)

drains_from :
    (n : ℕ) (s : System)
    → load s.workers ≡ n
    → Closed s
    → (t : System) × Reach s t × (count_created t.workers ≡ 0)
drains_from zero s e off = elim (some_or_none s.workers) [
  | inr gone ↦ (s, here, gone)
  | inl (pre, w, post, at, c) ↦
      let (t, step, d) = one_moves s pre w post off at c in absurd (omega (arith, d.less, e))
]
drains_from (suc n) s e off = elim (some_or_none s.workers) [
  | inr gone ↦ (s, here, gone)
  | inl (pre, w, post, at, c) ↦
      let (t, step, d) = one_moves s pre w post off at c in
      let (u, r, gone) = drains_from n t (omega (arith, d.less, e)) d.closed in
      (u, before step r, gone)
]

-- Once `threadpoll_destroy` has been called, the workers can always go on until none is left;
-- `live_thread_num` is then the number of threads that the manager could not create, which is 0 if
-- it could create all; the tasks that waited still wait.
pub closed_drains :
    (s : System)
    → Inv s
    → Closed s
    → (t : System) × Reach s t
      × (count_created t.workers ≡ 0)
      × (t.pool.live_thread_num ≡ count_uncreated s.workers)
      × (waiting t.pool ≡ waiting s.pool)
closed_drains s v off =
    let (t, r, gone) = drains_from (load s.workers) s refl off in
    let (_, _, _, waits, _, lost) = closed_pool s t off r in
    let live = (Reach-Inv r v).live in
    (t, r, gone, omega (arith, live, gone, lost, count_created_lem t.workers), waits)
