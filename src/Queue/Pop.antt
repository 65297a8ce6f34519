-- ===== src/Queue/Pop.antt =====
-- `QUEUE_POP`, and a queue that it has emptied.
use small_project_for_life_w.Base.{
  ℕ, ◌-◌, ◌<◌, ◌≡◌, refl, sym, ◌∙◌, ◌≢◌, ap, inl, inr, Bool, true, false, none, some, List, [], ◌∷◌,
  arith, ◌==◌, ltb, Bool-cases, length,
}
use small_project_for_life_w.Memory.{
  Ptr, null, node, write, ok, fault, Yields, Store, load, put, set_item, set_next, ◌>>=◌, ◌>>◌,
}
use small_project_for_life_w.Memory.Chain.{Cells, first, Chain, Chain-write, load-ok, free_node-ok}
use small_project_for_life_w.Memory.Relink.{last, write_self, write-ne}
use small_project_for_life_w.Queue.{
  alloc, Msgqueue, Texts, read_text, free_text, drop_front, push_first, push_behind, queue_push,
  queue_pop,
}

-- The queue is this list of nodes, which are as many as it counts; the last leads to `rear`.
pub record IsQueue (s : Store Ptr Texts) (q : Msgqueue) (c : Ptr × Ptr) (xs : Cells Ptr)
    : Type 0 where
  pub chain : Chain s.cells q.rear (c ∷ xs)
  pub front_at : q.front ≡ c.0
  pub backrear_at : q.backrear ≡ (last c xs).0
  pub counted : q.count ≡ length (c ∷ xs)

module _ (ends : Ptr → Bool) (s : Store Ptr Texts) where
  read_text-ok :
      (d : Ptr) (text : List ℕ)
      → d ≢ null
      → s.rest d ≡ some text
      → ends d ≡ true
      → read_text ends d s ≡ ok text s
  unfolding read_text
  read_text-ok d text ne here fine =
      let not_null : (d == null) ≡ false = ground arith in rw (read_text, not_null, here, fine)

  pub drop_front-ok :
      (q : Msgqueue) (a d : Ptr) (xs : Cells Ptr) (text : List ℕ)
      → IsQueue s q (a, d) xs
      → d ≢ null
      → s.rest d ≡ some text
      → ends d ≡ true
      → drop_front ends q s
        ≡ ok
            (text, record q { front = first xs q.rear; count = q.count - 1 })
            (record { cells = write s.cells a none; rest = write s.rest d none })
  unfolding drop_front free_text
  drop_front-ok q a d xs text i d_ne d_here fine =
      let (ne, here, out, ch) = i.chain in
      let s₁ = record s { rest = write s.rest d none } in
      rw (
        i.front_at,
        load-ok a d (first xs q.rear) s ne here,
        ◌>>=◌,
        read_text-ok d text d_ne d_here fine,
        ◌>>◌,
        free_node-ok a d (first xs q.rear) s₁ ne here,
      )

  pub dropped-IsQueue :
      (q : Msgqueue) (a d : Ptr) (c : Ptr × Ptr) (xs : Cells Ptr) (texts : Texts)
      → IsQueue s q (a, d) (c ∷ xs)
      → IsQueue
          (record { cells = write s.cells a none; rest = texts })
          (record q { front = c.0; count = q.count - 1 })
          c
          xs
  dropped-IsQueue q a d c xs texts i =
      let (ne, here, out, ch) = i.chain in
      record {
        chain = Chain-write s.cells q.rear (c ∷ xs) a none out ch;
        front_at = refl;
        backrear_at = i.backrear_at;
        counted = omega (arith, i.counted);
      }

  -- `QUEUE_POP` of a queue with at least two messages returns the oldest and leaves the queue of
  -- the others, with the node and the data given back; a NUL must follow the block.
  pub queue_pop-oldest :
      (q : Msgqueue) (a d : Ptr) (c : Ptr × Ptr) (xs : Cells Ptr) (text : List ℕ)
      → IsQueue s q (a, d) (c ∷ xs)
      → d ≢ null
      → s.rest d ≡ some text
      → ends d ≡ true
      → Yields (queue_pop ends q s) (λ (r, q') t.
        (r ≡ some text)
        × IsQueue t q' c xs
        × (q'.size ≡ q.size)
        × (t.cells a ≡ none)
        × (t.rest ≡ write s.rest d none))
  unfolding queue_pop
  queue_pop-oldest q a d c xs text i d_ne d_here fine =
      let (ne, here, out, ch) = i.chain in
      let some_left : (q.count == 0) ≡ false = ground arith in
      let not_null : (q.front == null) ≡ false = ground arith in
      rw (some_left, not_null, ◌>>=◌, drop_front-ok q a d (c ∷ xs) text i d_ne d_here fine)
        (
          refl,
          dropped-IsQueue q a d c xs (write s.rest d none) i,
          refl,
          write_self s.cells a none,
          refl,
        )

load-gone : (s : Store Ptr Texts) (a : Ptr) → s.cells a ≡ none → load a s ≡ fault
unfolding load
load-gone s a e = ground arith

set_item-gone : (s : Store Ptr Texts) (a d : Ptr) → s.cells a ≡ none → set_item a d s ≡ fault
unfolding set_item load
set_item-gone s a d e = ground arith

set_next-gone : (s : Store Ptr Texts) (a q : Ptr) → s.cells a ≡ none → set_next a q s ≡ fault
unfolding set_next load
set_next-gone s a q e = ground arith

-- a new node
pub alloc-ok :
    (s : Store Ptr Texts) (n junk : Ptr)
    → n ≢ null
    → alloc n junk s ≡ ok tt (record s { cells = write s.cells n (some (node junk junk)) })
unfolding alloc put
alloc-ok s n junk ne = ground arith

module _ (ends : Ptr → Bool) (s : Store Ptr Texts) (q : Msgqueue) (n d junk : Ptr)
    (text : List ℕ) where
  -- A queue whose last node and first node have both been given back, and which counts nothing.
  push_drained :
      s.cells q.backrear ≡ none
      → s.cells q.head_node ≡ none
      → q.count ≡ 0
      → 0 < q.size
      → n ≢ null
      → n ≢ q.backrear
      → queue_push ends q n d junk text s ≡ fault
  unfolding queue_push push_first push_behind
  push_drained last_gone head_gone empty room ne apart = elim (Bool-cases (q.front == null)) [
    | inl at_end ↦ rw (at_end, ◌>>◌, set_item-gone s q.head_node d head_gone)
    | inr junk_left ↦
        let below : ltb q.count q.size ≡ true = ground arith in
        let s₁ = record s { cells = write s.cells n (some (node junk junk)) } in
        rw (
          junk_left,
          below,
          ◌>>◌,
          alloc-ok s n junk ne,
          set_next-gone s₁ q.backrear n (
              write-ne s.cells n q.backrear (some (node junk junk)) (λ e. apart (sym e))
              ∙ last_gone),
        )
  ]

module _ (ends : Ptr → Bool) (s : Store Ptr Texts) where
  -- Once `QUEUE_POP` has taken the last message, where the node that `QUEUE_INIT` made has been
  -- given back, the queue's size is at least one, and `malloc` succeeds but does not return the
  -- address of the last node at once: the next `QUEUE_PUSH` writes to a node that has been given
  -- back.
  pub drained-faults :
      (q : Msgqueue) (a d : Ptr) (text : List ℕ) (n d' junk : Ptr) (text' : List ℕ)
      → IsQueue s q (a, d) []
      → d ≢ null
      → s.rest d ≡ some text
      → ends d ≡ true
      → write s.cells a none q.head_node ≡ none
      → 0 < q.size
      → n ≢ null
      → n ≢ a
      → Yields
          (queue_pop ends q s)
          (λ (r, q') t. (r ≡ some text) × (queue_push ends q' n d' junk text' t ≡ fault))
  unfolding queue_pop
  drained-faults q a d text n d' junk text' i d_ne d_here fine gone room ne apart =
      let some_left : (q.count == 0) ≡ false = ground arith in
      let not_null : (q.front == null) ≡ false = ground arith in
      let q' = record q { front = q.rear; count = q.count - 1 } in
      let t : Store Ptr Texts = record {
        cells = write s.cells a none;
        rest = write s.rest d none;
      } in
      rw (some_left, not_null, ◌>>=◌, drop_front-ok ends s q a d [] text i d_ne d_here fine)
        (
          refl,
          push_drained ends t q' n d' junk text'
              (ap (λ (p : Ptr). write s.cells a none p) i.backrear_at ∙ write_self s.cells a none)
              gone (omega (arith, i.counted)) room ne (λ e. apart (e ∙ i.backrear_at)),
        )
