-- ===== src/Mqueue/Refused.antt =====
-- 20171107/mqueue_system.c after a message that the queue refuses.
use small_project_for_life_w.Base.{
  ◌≤◌, length, take, ltb, ◌≡◌, refl, sym, ap, ◌∙◌, false, inl, inr, Option-cases, some, List, [],
  ◌∷◌, arith, ℤ,
}
use small_project_for_life_w.Mqueue.{
  Bytes, MyMsg, QueueApi, maxbuf, answer, read_message, Thread1, receives, answers, waits, joins,
  System, thr_fun1_receive, thr_fun1_answer, thr_fun1, thr_fun2, thr_fun3, main_round, Step, by_1,
  by_2, by_3, by_main, by_join, Reach, here, next, of_type,
}
use small_project_for_life_w.Mqueue.Documented.{Documented}
use small_project_for_life_w.Mqueue.Invariant.{pending}
use small_project_for_life_w.Mqueue.Documented.{is_positive, of_type-append, view-take, view-other}

read_message-fits :
    (word second : Bytes) (k : ℤ)
    → length word ≤ maxbuf
    → length second ≤ maxbuf
    → read_message word second k
      ≡ some (record { msg_type = k; msg_text = take maxbuf word; msg2 = take 20 second })
unfolding read_message
read_message-fits word second k w w' =
    let a : ltb maxbuf (length word) ≡ false = ground arith in
    let b : ltb maxbuf (length second) ≡ false = ground arith in rw (a, b)

module _ {Q : Type 0} (api : QueueApi Q) (view : Q → List MyMsg) (Gone : Q → Type 0)
    (doc : Documented api view Gone) where
  -- `main` waits for `thr_fun3`, which waits for a message that nobody will send.
  pub record Hangs (s : System Q) : Type 0 where
    pub joining : s.main ≡ joins
    pub waiting : s.thread_3 ≡ waits
    pub nothing : of_type 3 (view s.queue) ≡ []
    pub no_answer : of_type 3 (pending s.thread_1) ≡ []

  receive-Hangs : (s : System Q) → Hangs s → Hangs (thr_fun1_receive api s)
  unfolding thr_fun1_receive answer of_type
  receive-Hangs s h = elim (Option-cases (api.msgrcv 1 s.queue)) [
    | inl e ↦ rw (e, thr_fun1_receive) h
    | inr ((m, q), e) ↦
        let other = view-other api view Gone doc 1 3 s.queue q m e (omega arith) in
        rw (e, thr_fun1_receive)
          (record {
            joining = h.joining;
            waiting = h.waiting;
            nothing = sym other ∙ h.nothing;
            no_answer = refl;
          })
  ]

  answer-Hangs :
      (r : MyMsg) (s : System Q)
      → s.thread_1 ≡ answers r
      → Hangs s
      → Hangs (thr_fun1_answer api r s)
  unfolding thr_fun1_answer of_type
  answer-Hangs r s p h =
      let none_of_it : of_type 3 (r ∷ []) ≡ [] = rw p at h.no_answer in
      elim (Option-cases (api.msgsnd r s.queue)) [
        | inl e ↦
            rw (e, thr_fun1_answer)
              (record {
                joining = h.joining;
                waiting = h.waiting;
                nothing = h.nothing;
                no_answer = refl;
              })
        | inr (q, e) ↦
            rw (e, thr_fun1_answer)
              (record {
                joining = h.joining;
                waiting = h.waiting;
                nothing =
                    ap (of_type 3) (doc.appends r s.queue q e)
                    ∙ of_type-append 3 (view s.queue) (r ∷ [])
                    ∙ rw (h.nothing) none_of_it;
                no_answer = refl;
              })
      ]

  thread_1-Hangs : (s : System Q) → Hangs s → Hangs (thr_fun1 api s)
  unfolding thr_fun1
  thread_1-Hangs s h = by_place s.thread_1 refl
    where
      by_place : (p : Thread1) → s.thread_1 ≡ p → Hangs (thr_fun1 api s)
      by_place receives e = rw (e, thr_fun1) (receive-Hangs s h)
      by_place (answers r) e = rw (e, thr_fun1) (answer-Hangs r s e h)

  thread_2-Hangs : (s : System Q) → Hangs s → Hangs (thr_fun2 api s)
  unfolding thr_fun2
  thread_2-Hangs s h = elim (Option-cases (api.msgrcv 2 s.queue)) [
    | inl e ↦ rw (e, thr_fun2) h
    | inr ((m, q), e) ↦
        let other = view-other api view Gone doc 2 3 s.queue q m e (omega arith) in
        rw (e, thr_fun2)
          (record {
            joining = h.joining;
            waiting = h.waiting;
            nothing = sym other ∙ h.nothing;
            no_answer = h.no_answer;
          })
  ]

  thread_3-Hangs : (s : System Q) → Hangs s → Hangs (thr_fun3 api s)
  unfolding thr_fun3
  thread_3-Hangs s h = elim (Option-cases (api.msgrcv 3 s.queue)) [
    | inl e ↦ rw (h.waiting, e, thr_fun3) h
    | inr ((m, q), e) ↦
        let bad : ⊥ = cc (view-take api view Gone doc 3 s.queue q m e, h.nothing) in absurd bad
  ]

  Step-Hangs : {s t : System Q} → Step api s t → Hangs s → Hangs t
  Step-Hangs {s} (by_1 r) h = thread_1-Hangs s h
  Step-Hangs {s} (by_2 r) h = thread_2-Hangs s h
  Step-Hangs {s} (by_3 r) h = thread_3-Hangs s h
  Step-Hangs {s} (by_main word second k r) h = let bad : ⊥ = cc (h.joining) in absurd bad
  Step-Hangs {s} (by_join r f) h = let bad : ⊥ = cc (h.waiting) in absurd bad

  Reach-Hangs : {s t : System Q} → Hangs s → Reach api s t → Hangs t
  Reach-Hangs h here = h
  Reach-Hangs h (next run step) = Step-Hangs step (Reach-Hangs h run)

  -- If the system's queue does what its manual says, and the user types a type that is not
  -- positive while `thr_fun3` waits and no message of type 3 is in the queue or about to be sent,
  -- `main` leaves its loop and waits for `thr_fun3` for ever.
  pub not_positive-hangs :
      (word second : Bytes) (k : ℤ) (s t : System Q)
      → length word ≤ maxbuf
      → length second ≤ maxbuf
      → is_positive k ≡ false
      → s.thread_3 ≡ waits
      → of_type 3 (view s.queue) ≡ []
      → of_type 3 (pending s.thread_1) ≡ []
      → Reach api (main_round api word second k s) t
      → (t.main ≡ joins) × (t.thread_3 ≡ waits)
  unfolding main_round
  not_positive-hangs word second k s t w w' bad waiting nothing no_answer run =
      let m : MyMsg = record { msg_type = k; msg_text = take maxbuf word; msg2 = take 20 second } in
      let read = read_message-fits word second k w w' in
      let round : main_round api word second k s ≡ record s { main = joins } =
        rw (read, doc.refuses m s.queue bad, main_round) in
      let h =
        Reach-Hangs
          (record {
            joining = ap (λ (u : System Q). u.main) round;
            waiting = ap (λ (u : System Q). u.thread_3) round ∙ waiting;
            nothing = ap (λ (u : System Q). of_type 3 (view u.queue)) round ∙ nothing;
            no_answer = ap (λ (u : System Q). of_type 3 (pending u.thread_1)) round ∙ no_answer;
          })
          run in
      (h.joining, h.waiting)
