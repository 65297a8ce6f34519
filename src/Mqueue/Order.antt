-- ===== src/Mqueue/Order.antt =====
-- The order in which the threads of 20171107/mqueue_system.c take messages and answer them.
use small_project_for_life_w.Base.{◌≡◌, refl, inl, List, [], ◌++◌, map}
use small_project_for_life_w.Mqueue.{MyMsg, QueueApi, answer, System, Reach, started, of_type}
use small_project_for_life_w.Mqueue.Documented.{Documented, Flow}
use small_project_for_life_w.Mqueue.Invariant.{Inv, Reach-Inv, pending}

module _ {Q : Type 0} (api : QueueApi Q) (view : Q → List MyMsg) (Gone : Q → Type 0)
    (doc : Documented api view Gone) where
  started-Inv : (q : Q) → view q ≡ [] → Inv api view Gone doc (started q)
  unfolding of_type
  started-Inv q empty = record {
    flow_1 = ([], refl, inl (rw empty));
    flow_2 = ([], refl, inl (rw empty));
    flow_3 = ([], refl, inl (rw empty));
    answered = refl;
  }

  -- If the system's queue does what its manual says, from an empty queue on, in every
  -- interleaving: what each of the three threads has taken is the messages of its type that went
  -- into the queue, in the same order, but for a rest; while the queue is there the rest is what
  -- waits in it.
  pub taken_in_order :
      (q : Q) (s : System Q)
      → view q ≡ []
      → Reach api (started q) s
      → Flow view Gone s.queue s.sent 1 s.taken_1
        × Flow view Gone s.queue s.sent 2 s.taken_2
        × Flow view Gone s.queue s.sent 3 s.taken_3
  taken_in_order q s empty run =
      let i = Reach-Inv api view Gone doc (started-Inv q empty) run in
      (i.flow_1, i.flow_2, i.flow_3)

  -- `thr_fun1` tries to send one answer for each message that it has taken, in the same order; the
  -- last may be still to come.
  pub answered_in_order :
      (q : Q) (s : System Q)
      → view q ≡ []
      → Reach api (started q) s
      → map answer s.taken_1 ≡ s.tried ++ pending s.thread_1
  answered_in_order q s empty run = (Reach-Inv api view Gone doc (started-Inv q empty) run).answered
