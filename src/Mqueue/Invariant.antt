-- ===== src/Mqueue/Invariant.antt =====
-- What the threads of 20171107/mqueue_system.c take out of the queue and answer.
use small_project_for_life_w.Base.{
  ◌≡◌, refl, sym, ap, ◌∙◌, inl, inr, Option-cases, some, List, [], ◌∷◌, ◌++◌, append-nil, map,
  arith, ℤ,
}
use mathlib.Core.List.{map-append}
use small_project_for_life_w.Mqueue.{
  Bytes, MyMsg, QueueApi, answer, read_message, Thread1, receives, answers, Thread3, waits,
  finished, Main, joins, returned, exited, undefined, System, thr_fun1_receive, thr_fun1_answer,
  thr_fun1, thr_fun2, thr_fun3, main_round, Step, by_1, by_2, by_3, by_main, by_join, Reach, here,
  next,
}
use small_project_for_life_w.Mqueue.Documented.{
  Documented, Flow, Flow-send, Flow-take, Flow-other, Flow-Gone,
}

-- the answer that is still to be tried
abbrev pub pending : Thread1 → List MyMsg
pending receives = []
pending (answers r) = r ∷ []

module _ {Q : Type 0} (api : QueueApi Q) (view : Q → List MyMsg) (Gone : Q → Type 0)
    (doc : Documented api view Gone) where
  pub record Inv (s : System Q) : Type 0 where
    pub flow_1 : Flow view Gone s.queue s.sent 1 s.taken_1
    pub flow_2 : Flow view Gone s.queue s.sent 2 s.taken_2
    pub flow_3 : Flow view Gone s.queue s.sent 3 s.taken_3
    pub answered : map answer s.taken_1 ≡ s.tried ++ pending s.thread_1

  receive-Inv : (s : System Q) → s.thread_1 ≡ receives → Inv s → Inv (thr_fun1_receive api s)
  unfolding thr_fun1_receive
  receive-Inv s p i = elim (Option-cases (api.msgrcv 1 s.queue)) [
    | inl e ↦ rw (e, thr_fun1_receive) i
    | inr ((m, q), e) ↦
        let all_tried : map answer s.taken_1 ≡ s.tried ++ [] = rw p at i.answered in
        rw (e, thr_fun1_receive)
          (record {
            flow_1 = Flow-take api view Gone doc 1 s.queue q m s.sent s.taken_1 e i.flow_1;
            flow_2 =
                Flow-other api view Gone doc 1 2 s.queue q m s.sent s.taken_2 e (omega arith)
                  i.flow_2;
            flow_3 =
                Flow-other api view Gone doc 1 3 s.queue q m s.sent s.taken_3 e (omega arith)
                  i.flow_3;
            answered =
                map-append answer s.taken_1 (m ∷ [])
                ∙ ap (λ l. l ++ answer m ∷ []) (all_tried ∙ append-nil s.tried);
          })
  ]

  answer-Inv :
      (r : MyMsg) (s : System Q) → s.thread_1 ≡ answers r → Inv s → Inv (thr_fun1_answer api r s)
  unfolding thr_fun1_answer
  answer-Inv r s p i =
      let now_tried : map answer s.taken_1 ≡ (s.tried ++ r ∷ []) ++ [] =
        rw p at i.answered ∙ sym (append-nil (s.tried ++ r ∷ [])) in
      elim (Option-cases (api.msgsnd r s.queue)) [
        | inl e ↦
            rw (e, thr_fun1_answer)
              (record {
                flow_1 = i.flow_1;
                flow_2 = i.flow_2;
                flow_3 = i.flow_3;
                answered = now_tried;
              })
        | inr (q, e) ↦
            rw (e, thr_fun1_answer)
              (record {
                flow_1 = Flow-send api view Gone doc r s.queue q s.sent 1 s.taken_1 e i.flow_1;
                flow_2 = Flow-send api view Gone doc r s.queue q s.sent 2 s.taken_2 e i.flow_2;
                flow_3 = Flow-send api view Gone doc r s.queue q s.sent 3 s.taken_3 e i.flow_3;
                answered = now_tried;
              })
      ]

  thread_1-Inv : (s : System Q) → Inv s → Inv (thr_fun1 api s)
  unfolding thr_fun1
  thread_1-Inv s i = by_place s.thread_1 refl
    where
      by_place : (p : Thread1) → s.thread_1 ≡ p → Inv (thr_fun1 api s)
      by_place receives e = rw (e, thr_fun1) (receive-Inv s e i)
      by_place (answers r) e = rw (e, thr_fun1) (answer-Inv r s e i)

  thread_2-Inv : (s : System Q) → Inv s → Inv (thr_fun2 api s)
  unfolding thr_fun2
  thread_2-Inv s i = elim (Option-cases (api.msgrcv 2 s.queue)) [
    | inl e ↦ rw (e, thr_fun2) i
    | inr ((m, q), e) ↦
        rw (e, thr_fun2)
          (record {
            flow_1 =
                Flow-other api view Gone doc 2 1 s.queue q m s.sent s.taken_1 e (omega arith)
                  i.flow_1;
            flow_2 = Flow-take api view Gone doc 2 s.queue q m s.sent s.taken_2 e i.flow_2;
            flow_3 =
                Flow-other api view Gone doc 2 3 s.queue q m s.sent s.taken_3 e (omega arith)
                  i.flow_3;
            answered = i.answered;
          })
  ]

  -- a message of type 3 taken, before the queue is removed
  taken-Inv :
      (s : System Q) (m : MyMsg) (q : Q)
      → api.msgrcv 3 s.queue ≡ some (m, q)
      → Inv s
      → Inv (record s { queue = q; taken_3 = s.taken_3 ++ m ∷ [] })
  taken-Inv s m q e i = record {
    flow_1 = Flow-other api view Gone doc 3 1 s.queue q m s.sent s.taken_1 e (omega arith) i.flow_1;
    flow_2 = Flow-other api view Gone doc 3 2 s.queue q m s.sent s.taken_2 e (omega arith) i.flow_2;
    flow_3 = Flow-take api view Gone doc 3 s.queue q m s.sent s.taken_3 e i.flow_3;
    answered = i.answered;
  }

  removed-Inv :
      (s : System Q) (q : Q) → api.remove s.queue ≡ some q → Inv s → Inv (record s { queue = q })
  removed-Inv s q e i = record {
    flow_1 = Flow-Gone api view Gone doc 1 s.queue q s.sent s.taken_1 e i.flow_1;
    flow_2 = Flow-Gone api view Gone doc 2 s.queue q s.sent s.taken_2 e i.flow_2;
    flow_3 = Flow-Gone api view Gone doc 3 s.queue q s.sent s.taken_3 e i.flow_3;
    answered = i.answered;
  }

  -- where the threads stand does not matter for these
  elsewhere :
      (s : System Q) (w : Thread3) (m : Main) → Inv s → Inv (record s { thread_3 = w; main = m })
  elsewhere s w m i = record {
    flow_1 = i.flow_1;
    flow_2 = i.flow_2;
    flow_3 = i.flow_3;
    answered = i.answered;
  }

  thread_3-Inv : (s : System Q) → Inv s → Inv (thr_fun3 api s)
  unfolding thr_fun3
  thread_3-Inv s i = by_place s.thread_3 refl
    where
      by_remove :
          (m : MyMsg) (q : Q)
          → s.thread_3 ≡ waits
          → api.msgrcv 3 s.queue ≡ some (m, q)
          → Inv (thr_fun3 api s)
      by_remove m q w e =
          let t = record s { queue = q; taken_3 = s.taken_3 ++ m ∷ [] } in
          elim (Option-cases (api.remove q)) [
            | inl f ↦ rw (w, e, f, thr_fun3) (elsewhere t s.thread_3 exited (taken-Inv s m q e i))
            | inr (q', f) ↦
                rw (w, e, f, thr_fun3)
                  (elsewhere (record t { queue = q' }) finished s.main
                    (removed-Inv t q' f (taken-Inv s m q e i)))
          ]

      by_place : (p : Thread3) → s.thread_3 ≡ p → Inv (thr_fun3 api s)
      by_place finished e = rw (e, thr_fun3) i
      by_place waits e = elim (Option-cases (api.msgrcv 3 s.queue)) [
        | inl f ↦ rw (e, f, thr_fun3) i
        | inr ((m, q), f) ↦ by_remove m q e f
      ]

  main-Inv :
      (word second : Bytes) (k : ℤ) (s : System Q) → Inv s → Inv (main_round api word second k s)
  unfolding main_round
  main-Inv word second k s i = elim (Option-cases (read_message word second k)) [
    | inl e ↦ rw (e, main_round) (elsewhere s s.thread_3 undefined i)
    | inr (m, e) ↦ elim (Option-cases (api.msgsnd m s.queue)) [
      | inl f ↦ rw (e, f, main_round) (elsewhere s s.thread_3 joins i)
      | inr (q, f) ↦
          rw (e, f, main_round)
            (record {
              flow_1 = Flow-send api view Gone doc m s.queue q s.sent 1 s.taken_1 f i.flow_1;
              flow_2 = Flow-send api view Gone doc m s.queue q s.sent 2 s.taken_2 f i.flow_2;
              flow_3 = Flow-send api view Gone doc m s.queue q s.sent 3 s.taken_3 f i.flow_3;
              answered = i.answered;
            })
    ]
  ]

  Step-Inv : {s t : System Q} → Step api s t → Inv s → Inv t
  Step-Inv {s} (by_1 r) i = thread_1-Inv s i
  Step-Inv {s} (by_2 r) i = thread_2-Inv s i
  Step-Inv {s} (by_3 r) i = thread_3-Inv s i
  Step-Inv {s} (by_main word second k r) i = main-Inv word second k s i
  Step-Inv {s} (by_join r f) i = elsewhere s s.thread_3 returned i

  pub Reach-Inv : {s t : System Q} → Inv s → Reach api s t → Inv t
  Reach-Inv i here = i
  Reach-Inv i (next run step) = Step-Inv step (Reach-Inv i run)
