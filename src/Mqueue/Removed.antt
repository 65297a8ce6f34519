-- ===== src/Mqueue/Removed.antt =====
-- 20171107/mqueue_system.c after the queue has been removed.
use small_project_for_life_w.Base.{
  ◌≡◌, refl, sym, subst, ◌∙◌, inl, inr, ◌⊎◌, Option-cases, List, arith, ℤ,
}
use small_project_for_life_w.Mqueue.{
  Bytes, MyMsg, QueueApi, read_message, Thread1, receives, answers, Thread3, waits, finished,
  System, thr_fun1_receive, thr_fun1_answer, thr_fun1, thr_fun2, thr_fun3, main_round, Step, by_1,
  by_2, by_3, by_main, by_join, Reach, here, next, started,
}
use small_project_for_life_w.Mqueue.Documented.{Documented}

module _ {Q : Type 0} (api : QueueApi Q) (view : Q → List MyMsg) (Gone : Q → Type 0)
    (doc : Documented api view Gone) where
  -- Nothing is said of the places: only of what has gone through the queue.
  abbrev pub Unmoved : System Q → System Q → Type 0
  Unmoved s t =
      (t.queue ≡ s.queue)
      × (t.sent ≡ s.sent)
      × (t.taken_1 ≡ s.taken_1)
      × (t.taken_2 ≡ s.taken_2)
      × (t.taken_3 ≡ s.taken_3)

  same : (s : System Q) → Unmoved s s
  same s = (refl, refl, refl, refl, refl)

  thread_1-Unmoved : (s : System Q) → Gone s.queue → Unmoved s (thr_fun1 api s)
  unfolding thr_fun1 thr_fun1_receive thr_fun1_answer
  thread_1-Unmoved s gone = by_place s.thread_1 refl
    where
      by_place : (p : Thread1) → s.thread_1 ≡ p → Unmoved s (thr_fun1 api s)
      by_place receives e =
          rw (e, doc.gone_empty 1 s.queue gone, thr_fun1, thr_fun1_receive) (same s)
      by_place (answers r) e =
          rw (e, doc.gone_refuses r s.queue gone, thr_fun1, thr_fun1_answer) (same s)

  thread_3-Unmoved : (s : System Q) → Gone s.queue → Unmoved s (thr_fun3 api s)
  unfolding thr_fun3
  thread_3-Unmoved s gone = by_place s.thread_3 refl
    where
      by_place : (p : Thread3) → s.thread_3 ≡ p → Unmoved s (thr_fun3 api s)
      by_place finished e = rw (e, thr_fun3) (same s)
      by_place waits e = rw (e, doc.gone_empty 3 s.queue gone, thr_fun3) (same s)

  main-Unmoved :
      (word second : Bytes) (k : ℤ) (s : System Q)
      → Gone s.queue
      → Unmoved s (main_round api word second k s)
  unfolding main_round
  main-Unmoved word second k s gone = elim (Option-cases (read_message word second k)) [
    | inl e ↦ rw (e, main_round) (same s)
    | inr (m, e) ↦ rw (e, doc.gone_refuses m s.queue gone, main_round) (same s)
  ]

  Step-Unmoved : {s t : System Q} → Gone s.queue → Step api s t → Unmoved s t
  unfolding thr_fun2
  Step-Unmoved {s} gone (by_1 r) = thread_1-Unmoved s gone
  Step-Unmoved {s} gone (by_2 r) = rw (doc.gone_empty 2 s.queue gone, thr_fun2) (same s)
  Step-Unmoved {s} gone (by_3 r) = thread_3-Unmoved s gone
  Step-Unmoved {s} gone (by_main word second k r) = main-Unmoved word second k s gone
  Step-Unmoved {s} gone (by_join r f) = same s

  Reach-Unmoved : {s t : System Q} → Gone s.queue → Reach api s t → Unmoved s t
  Reach-Unmoved {s} gone here = same s
  Reach-Unmoved {s} gone (next {u} run step) =
      let (q, a, b, c, d) = Reach-Unmoved gone run in
      let (q', a', b', c', d') = Step-Unmoved (subst Gone (sym q) gone) step in
      (q' ∙ q, a' ∙ a, b' ∙ b, c' ∙ c, d' ∙ d)

  abbrev StillThere : System Q → Type 0
  StillThere s = (s.thread_3 ≡ waits) ⊎ Gone s.queue

  stays-Gone : (s t : System Q) → Gone s.queue → Unmoved s t → StillThere t
  stays-Gone s t gone u = inr (subst Gone (sym u.0) gone)

  thread_1-waits : (s : System Q) → (thr_fun1 api s).thread_3 ≡ s.thread_3
  unfolding thr_fun1 thr_fun1_receive thr_fun1_answer
  thread_1-waits s = ground arith

  thread_2-waits : (s : System Q) → (thr_fun2 api s).thread_3 ≡ s.thread_3
  unfolding thr_fun2
  thread_2-waits s = ground arith

  main-waits :
      (word second : Bytes) (k : ℤ) (s : System Q)
      → (main_round api word second k s).thread_3 ≡ s.thread_3
  unfolding main_round
  main-waits word second k s = ground arith

  thread_3-StillThere : (s : System Q) → s.thread_3 ≡ waits → StillThere (thr_fun3 api s)
  unfolding thr_fun3
  thread_3-StillThere s w = elim (Option-cases (api.msgrcv 3 s.queue)) [
    | inl e ↦ rw (w, e, thr_fun3) (inl w)
    | inr ((m, q), e) ↦ elim (Option-cases (api.remove q)) [
      | inl f ↦ rw (w, e, f, thr_fun3) (inl w)
      | inr (q', f) ↦ rw (w, e, f, thr_fun3) (inr (doc.removes q q' f))
    ]
  ]

  Step-StillThere : {s t : System Q} → Step api s t → StillThere s → StillThere t
  Step-StillThere {s} {t} step (inr gone) = stays-Gone s t gone (Step-Unmoved gone step)
  Step-StillThere {s} (by_1 r) (inl w) = inl (thread_1-waits s ∙ w)
  Step-StillThere {s} (by_2 r) (inl w) = inl (thread_2-waits s ∙ w)
  Step-StillThere {s} (by_3 r) (inl w) = thread_3-StillThere s w
  Step-StillThere {s} (by_main word second k r) (inl w) = inl (main-waits word second k s ∙ w)
  Step-StillThere {s} (by_join r f) (inl w) = inl w

  Reach-StillThere : {s t : System Q} → StillThere s → Reach api s t → StillThere t
  Reach-StillThere h here = h
  Reach-StillThere h (next run step) = Step-StillThere step (Reach-StillThere h run)

  -- Once `thr_fun3` has finished, the queue is gone for good: whatever steps follow, no message
  -- goes in and none comes out.
  pub after_removal :
      (q : Q) (s t : System Q)
      → Reach api (started q) s
      → s.thread_3 ≡ finished
      → Reach api s t
      → Unmoved s t
  after_removal q s t run f more = by_case (Reach-StillThere (inl refl) run)
    where
      by_case : StillThere s → Unmoved s t
      by_case (inl w) = let bad : ⊥ = cc in absurd bad
      by_case (inr gone) = Reach-Unmoved gone more
