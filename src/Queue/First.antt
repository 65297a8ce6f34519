-- ===== src/Queue/First.antt =====
-- `QUEUE_INIT` and the first `QUEUE_PUSH`, and what every later sequence of calls then does.
use small_project_for_life_w.Base.{
  ℕ, ◌<◌, ◌≡◌, refl, ◌≢◌, Bool, true, some, List, [], ◌∷◌, arith, length,
}
use small_project_for_life_w.Memory.{Ptr, null, node, write, Store, Yields, ◌>>=◌, ◌>>◌}
use small_project_for_life_w.Memory.Chain.{Yields-bind, Yields-map, load-ok, set_item-ok}
use small_project_for_life_w.Memory.Relink.{write_self}
use small_project_for_life_w.Queue.{
  Do, Msgqueue, Texts, queue_init, push_first, queue_push, queue_size,
}
use small_project_for_life_w.Queue.Calls.{Request, run_calls}
use small_project_for_life_w.Queue.Fifo.{fifo, never_refilled}
use small_project_for_life_w.Queue.Held.{Holds}
use small_project_for_life_w.Queue.Order.{AllGranted, Agrees, size-Holds, calls_refine}
use small_project_for_life_w.Queue.Pop.{alloc-ok}
use small_project_for_life_w.Queue.Push.{copy_text-ok}
use small_project_for_life_w.Queue.Refine.{After, Yields-After}

-- the two calls; the push takes the node that `QUEUE_INIT` made
abbrev pub first_calls :
    (Ptr → Bool) → (size : ℕ) → (n junk n' d junk' : Ptr) → List ℕ → Do Msgqueue
first_calls ends size n junk n' d junk' text =
    ◌>>=◌ (queue_init n junk size) (λ q. queue_push ends q n' d junk' text)

module _ (ends : Ptr → Bool) (size : ℕ) (n junk n' d junk' : Ptr) (text : List ℕ) (n_ne : n ≢ null)
    (d_ne : d ≢ null) (fine : ends d ≡ true) where
  pub first_push-Holds :
      (s : Store Ptr Texts)
      → Yields
          (first_calls ends size n junk n' d junk' text s)
          (λ q u. Holds ends u q (text ∷ []) × (q.size ≡ size))
  unfolding queue_init queue_push push_first
  first_push-Holds s =
      let s₁ = record s { cells = write s.cells n (some (node junk junk)) } in
      let s₂ = record s₁ { cells = write s₁.cells n (some (node d junk)) } in
      let s₃ = record s₂ { rest = write s.rest d (some text) } in
      let here = write_self s₁.cells n (some (node d junk)) in
      rw
        (
          ◌>>=◌,
          ◌>>◌,
          alloc-ok s n junk n_ne,
          set_item-ok n junk junk s₁ n_ne (write_self s.cells n (some (node junk junk))) d,
          copy_text-ok s₂ d text d_ne,
          load-ok n d junk s₃ n_ne here,
        )
        (
          (
            (n, d),
            [],
            record {
              chain = (n_ne, here, refl, tt);
              front_at = refl;
              backrear_at = refl;
              counted = refl;
            },
            (d_ne, write_self s.rest d (some text), fine, refl, tt),
          ),
          refl,
        )

  pub calls_from_start :
      (rs : List Request) (s : Store Ptr Texts)
      → 1 < size
      → After (first_calls ends size n junk n' d junk' text s) (λ q u. AllGranted ends rs q u)
      → never_refilled size rs (text ∷ []) ≡ true
      → Yields
          (◌>>=◌ (first_calls ends size n junk n' d junk' text) (run_calls ends rs) s)
          (Agrees ends size rs (text ∷ []))
  calls_from_start rs s two gs lasts =
      let first = first_calls ends size n junk n' d junk' text in
      Yields-bind (λ q u. (Holds ends u q (text ∷ []) × (q.size ≡ size)) × AllGranted ends rs q u)
        (Agrees ends size rs (text ∷ [])) first (run_calls ends rs) s
        (Yields-After _ _ (first s) (first_push-Holds s) gs)
        λ q u ((h, same), gs').
          calls_refine ends size two rs u q (text ∷ []) same h (omega arith) gs' lasts

  -- From `QUEUE_INIT` on, whatever is pushed and popped behind the first message: the pops return
  -- and the queue counts what a bounded queue does that gives up its oldest message when it is
  -- full. The size must be at least two, no push may come after the last message was taken, and
  -- `malloc` must return memory that is not in use, with a NUL behind each block.
  pub calls_in_order :
      (rs : List Request) (s : Store Ptr Texts)
      → 1 < size
      → After (first_calls ends size n junk n' d junk' text s) (λ q u. AllGranted ends rs q u)
      → never_refilled size rs (text ∷ []) ≡ true
      → let wanted = fifo size rs (text ∷ []) in
        Yields
          (◌>>=◌ (first_calls ends size n junk n' d junk' text) (run_calls ends rs) s)
          (λ (out, q) u. (out ≡ wanted.0) × (queue_size q ≡ length wanted.1))
  calls_in_order rs s two gs lasts =
      Yields-map _ _ (◌>>=◌ (first_calls ends size n junk n' d junk' text) (run_calls ends rs) s)
        (calls_from_start rs s two gs lasts)
        λ (out, q') v (agree, h', _). (agree, size-Holds ends v q' _ h')
