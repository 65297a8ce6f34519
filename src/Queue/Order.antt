-- ===== src/Queue/Order.antt =====
-- Any sequence of calls on the queue, from `QUEUE_INIT` on.
use small_project_for_life_w.Base.{
  ℕ, ◌≤◌, ◌<◌, ◌≡◌, refl, subst, ◌∙◌, Bool, true, List, [], ◌∷◌, arith, length,
}
use small_project_for_life_w.Memory.{Ptr, Store, Yields, pure, ◌>>=◌}
use small_project_for_life_w.Memory.Chain.{Yields-bind}
use small_project_for_life_w.Queue.{Msgqueue, Texts, queue_push, queue_pop, queue_size}
use small_project_for_life_w.Queue.Calls.{Request, Answer, push, pop, run_calls, answered}
use small_project_for_life_w.Queue.Fifo.{
  Messages, rest_of, oldest, enqueue, fifo, never_refilled, length-enqueue,
}
use small_project_for_life_w.Queue.Held.{Holds}
use small_project_for_life_w.Queue.Refine.{
  After, Yields-After, Granted, held_count, push_refines, pop_refines,
}

-- Each push of the run is granted its memory.
abbrev pub AllGranted : (Ptr → Bool) → List Request → Msgqueue → Store Ptr Texts → Type 0
AllGranted ends [] q s = Unit
AllGranted ends (push n d junk text ∷ rs) q s =
    Granted ends s q n d
    × After (queue_push ends q n d junk text s) (λ q' t. AllGranted ends rs q' t)
AllGranted ends (pop ∷ rs) q s = After (queue_pop ends q s) (λ r t. AllGranted ends rs r.1 t)

-- What the calls return and leave is what the bounded queue returns and leaves.
abbrev pub Agrees : (Ptr → Bool) → ℕ → List Request → Messages → Answer → Store Ptr Texts → Type 0
Agrees ends size rs ts (out, q') u =
    (out ≡ (fifo size rs ts).0) × Holds ends u q' (fifo size rs ts).1 × (q'.size ≡ size)

pub size-Holds :
    (ends : Ptr → Bool) (s : Store Ptr Texts) (q : Msgqueue) (ts : Messages)
    → Holds ends s q ts
    → queue_size q ≡ length ts
unfolding queue_size
size-Holds ends s q [] h = h
size-Holds ends s q (t ∷ ts) h = held_count ends s q t ts h

module _ (ends : Ptr → Bool) (size : ℕ) (two : 1 < size) where
  pub calls_refine :
      (rs : List Request) (s : Store Ptr Texts) (q : Msgqueue) (ts : Messages)
      → q.size ≡ size
      → Holds ends s q ts
      → length ts ≤ size
      → AllGranted ends rs q s
      → never_refilled size rs ts ≡ true
      → Yields (run_calls ends rs q s) (Agrees ends size rs ts)
  unfolding run_calls fifo never_refilled answered
  calls_refine [] s q ts e h fits g lasts = (refl, h, e)
  calls_refine (push n d junk text ∷ rs) s q [] e h fits g lasts = cc
  calls_refine (push n d junk text ∷ rs) s q (t ∷ ts) e h fits (g, gs) lasts =
      Yields-bind
        (λ q' u.
          (Holds ends u q' (enqueue q.size text (t ∷ ts)) × (q'.size ≡ q.size))
          × AllGranted ends rs q' u)
        (Agrees ends size rs (enqueue size text (t ∷ ts))) (queue_push ends q n d junk text)
        (run_calls ends rs) s
        (Yields-After _ _ (queue_push ends q n d junk text s)
          (push_refines ends s q n d junk text t ts h (omega (arith, e)) (omega (arith, e)) g) gs)
        λ q' u ((h', same), gs').
          calls_refine rs u q' (enqueue size text (t ∷ ts)) (same ∙ e)
            (subst (λ (k : ℕ). Holds ends u q' (enqueue k text (t ∷ ts))) e h')
            (length-enqueue size text (t ∷ ts) (omega arith) fits) gs' lasts
  calls_refine (pop ∷ rs) s q ts e h fits gs lasts =
      Yields-bind
        (λ (r, q') u.
          ((r ≡ oldest ts) × Holds ends u q' (rest_of ts) × (q'.size ≡ q.size))
          × AllGranted ends rs q' u)
        (Agrees ends size (pop ∷ rs) ts) (queue_pop ends q)
        (λ r. do a ← run_calls ends rs r.1; pure (answered r.0 a)) s
        (Yields-After _ _ (queue_pop ends q s) (pop_refines ends s q ts h) gs)
        λ (r, q') u ((first, h', same), gs').
          Yields-bind (Agrees ends size rs (rest_of ts)) (Agrees ends size (pop ∷ rs) ts)
            (run_calls ends rs q') (λ a. pure (answered r a)) u
            (calls_refine rs u q' (rest_of ts) (same ∙ e) h' (shorter ts fits) gs' lasts)
            λ (out, q'') v (agree, h'', same'). (cc, h'', same')
    where
      shorter : (ts : Messages) → length ts ≤ size → length (rest_of ts) ≤ size
      shorter [] fits = fits
      shorter (t ∷ ts) fits = omega arith
