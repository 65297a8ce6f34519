-- ===== src/Queue/Drain.antt =====
-- A queue that is filled and then emptied, as examples/simple.c does.
use small_project_for_life_w.Base.{
  ℕ, zero, suc, ◌<◌, ◌≡◌, refl, subst, ◌≢◌, Bool, true, false, Option, some, List, [], ◌∷◌, map,
  arith, length, ◌==◌,
}
use small_project_for_life_w.Memory.{
  Ptr, null, Run, ok, fault, out_of_fuel, Cmd, feed, Store, Yields, ◌>>=◌, pure,
}
use small_project_for_life_w.Memory.Chain.{Yields-bind}
use small_project_for_life_w.Queue.{Msgqueue, Texts, queue_init, queue_push, queue_pop, queue_size}
use small_project_for_life_w.Queue.Calls.{
  run_calls, pop_all, answered, pushes, fill_and_pop, simple_messages, simple_main, addmsg_texts,
}
use small_project_for_life_w.Queue.Fifo.{Messages, rest_of, fifo}
use small_project_for_life_w.Queue.First.{first_calls, calls_from_start}
use small_project_for_life_w.Queue.Held.{Holds}
use small_project_for_life_w.Queue.Order.{AllGranted, Agrees, size-Holds}
use small_project_for_life_w.Queue.Refine.{After, pop_refines}
use small_project_for_life_w.Queue.Newest.{
  last_of, length-last_of, fifo-pushes, pushes-never_refilled,
}

module _ (ends : Ptr → Bool) where
  -- Popping until the queue is empty returns its messages in order, and ends.
  pub pop_all-Holds :
      (fuel : ℕ) (s : Store Ptr Texts) (q : Msgqueue) (ts : Messages)
      → Holds ends s q ts
      → length ts < fuel
      → Yields (pop_all ends fuel q s) (λ (out, q') u. (out ≡ map some ts) × (queue_size q' ≡ 0))
  unfolding pop_all answered
  pop_all-Holds zero s q ts h more = absurd (omega arith)
  pop_all-Holds (suc fuel) s q [] h more =
      let empty : (queue_size q == 0) ≡ true = ground (arith, size-Holds ends s q [] h) in
      rw empty (refl, size-Holds ends s q [] h)
  pop_all-Holds (suc fuel) s q (t ∷ ts) h more =
      let left : (queue_size q == 0) ≡ false = ground (arith, size-Holds ends s q (t ∷ ts) h) in
      rw left (
        Yields-bind (λ (r, q') u. (r ≡ some t) × Holds ends u q' ts × (q'.size ≡ q.size))
          (λ (out, q') u. (out ≡ map some (t ∷ ts)) × (queue_size q' ≡ 0)) (queue_pop ends q)
          (λ r. do a ← pop_all ends fuel r.1; pure (answered r.0 a)) s
          (pop_refines ends s q (t ∷ ts) h)
          λ (r, q') u (first, h', _).
            Yields-bind (λ (out, q') u. (out ≡ map some ts) × (queue_size q' ≡ 0))
              (λ (out, q') u. (out ≡ map some (t ∷ ts)) × (queue_size q' ≡ 0))
              (pop_all ends fuel q') (λ a. pure (answered r a)) u
              (pop_all-Holds fuel u q' ts h' (omega arith)) λ (out, q'') v (e, z). (cc, z))

regroup :
    {S A B C D : Type 0} (P : D → S → Type 0) (m : Cmd S A) (k : A → Cmd S B) (l : B → Cmd S C)
    (g : C → Cmd S D) (s : S)
    → Yields (◌>>=◌ (◌>>=◌ (◌>>=◌ m k) l) g s) P
    → Yields (◌>>=◌ m (λ a. ◌>>=◌ (◌>>=◌ (k a) l) g) s) P
regroup P m k l g s = split (m s)
  where
    split :
        (r : Run _ _)
        → Yields (feed (feed (feed r k) l) g) P
        → Yields (feed r (λ a. ◌>>=◌ (◌>>=◌ (k a) l) g)) P
    split (ok a t) y = y
    split fault y = y
    split out_of_fuel y = y

module _ (ends : Ptr → Bool) (size : ℕ) (n junk : Ptr) (malloc : ℕ → Ptr × Ptr × Ptr)
    (text : List ℕ) (texts : Messages) where
  -- A new queue of a size of at least two, filled with messages and then emptied, counts and
  -- returns the newest of them, as many as its size, in order; and the loop ends. `malloc` must
  -- return memory that is not in use, with a NUL behind each block.
  pub fill_and_pop-last :
      (fuel : ℕ) (s : Store Ptr Texts)
      → let (n', d, junk') = malloc 0 in
        1 < size
        → n ≢ null
        → d ≢ null
        → ends d ≡ true
        → After
            (first_calls ends size n junk n' d junk' text s)
            (λ q u. AllGranted ends (pushes malloc 1 texts) q u)
        → size < fuel
        → Yields (fill_and_pop ends size n junk malloc (text ∷ texts) fuel s) (λ (count, out) u.
          let newest = last_of size (text ∷ texts) in
          (count ≡ length newest) × (out ≡ map some newest))
  unfolding fill_and_pop pushes run_calls
  fill_and_pop-last fuel s two n_ne d_ne fine gs enough =
      let (n', d, junk') = malloc 0 in
      let newest = last_of size (text ∷ texts) in
      let left : fifo size (pushes malloc 1 texts) (text ∷ []) ≡ ([], newest) =
        fifo-pushes size malloc 1 texts (text ∷ []) (omega arith) (omega arith) in
      let first = first_calls ends size n junk n' d junk' text in
      regroup _ (queue_init n junk size) (λ q. queue_push ends q n' d junk' text)
        (run_calls ends (pushes malloc 1 texts))
        (λ filled. do printed ← pop_all ends fuel filled.1; pure (queue_size filled.1, printed.0)) s
        (Yields-bind (Agrees ends size (pushes malloc 1 texts) (text ∷ []))
          (λ (count, out) u. (count ≡ length newest) × (out ≡ map some newest))
          (◌>>=◌ first (run_calls ends (pushes malloc 1 texts)))
          (λ filled. do printed ← pop_all ends fuel filled.1; pure (queue_size filled.1, printed.0))
          s
          (calls_from_start ends size n junk n' d junk' text n_ne d_ne fine (pushes malloc 1 texts)
            s two gs (pushes-never_refilled size malloc 1 texts text []))
          λ (out, q) u (_, h, _).
            let h' : Holds ends u q newest =
              subst (λ (m : List (Option (List ℕ)) × Messages). Holds ends u q m.1) left h in
            Yields-bind (λ (out, q') v. (out ≡ map some newest) × (queue_size q' ≡ 0))
              (λ (count, out) u. (count ≡ length newest) × (out ≡ map some newest))
              (pop_all ends fuel q) (λ printed. pure (queue_size q, printed.0)) u
              (pop_all-Holds ends fuel u q newest h'
                (omega (arith, length-last_of size (text ∷ texts))))
              λ (out, q') v (e, _). (size-Holds ends u q newest h', e))

-- `main` of examples/simple.c prints that there are ten messages, and then those of `addmsg` from
-- the number 5 to 14, under the same conditions.
simple_main-prints :
    (ends : Ptr → Bool) (n junk : Ptr) (malloc : ℕ → Ptr × Ptr × Ptr) (s : Store Ptr Texts)
    → let (n', d, junk') = malloc 0 in
      n ≢ null
      → d ≢ null
      → ends d ≡ true
      → After
          (first_calls ends 10 n junk n' d junk' (97 ∷ 98 ∷ 99 ∷ []) s)
          (λ q u. AllGranted ends (pushes malloc 1 (rest_of simple_messages)) q u)
      → Yields
          (simple_main ends n junk malloc 11 s)
          (λ (count, out) u. (count ≡ 10) × (out ≡ map some (addmsg_texts 10 5)))
unfolding simple_main simple_messages addmsg_texts
simple_main-prints ends n junk malloc s n_ne d_ne fine gs =
    fill_and_pop-last ends 10 n junk malloc (97 ∷ 98 ∷ 99 ∷ []) (rest_of simple_messages) 11 s
      (omega arith) n_ne d_ne fine gs (omega arith)
