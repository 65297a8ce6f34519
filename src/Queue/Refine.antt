-- ===== src/Queue/Refine.antt =====
-- One call of `QUEUE_PUSH` or `QUEUE_POP` is the operation of the bounded queue of Queue/Fifo.
use small_project_for_life_w.Base.{
  ℕ, ◌≤◌, ◌<◌, ◌≡◌, refl, sym, subst, ◌≢◌, Bool, true, false, Bool-cases, inl, inr, none, List, [],
  ◌∷◌, ◌++◌, arith, ◌==◌, ltb, length,
}
use small_project_for_life_w.Memory.{
  Ptr, null, write, Run, ok, fault, out_of_fuel, Yields, Store, ◌>>=◌,
}
use small_project_for_life_w.Memory.Chain.{Yields-map}
use small_project_for_life_w.Queue.{Msgqueue, Texts, drop_front, queue_push, queue_pop}
use small_project_for_life_w.Queue.Fifo.{Messages, rest_of, oldest, enqueue}
use small_project_for_life_w.Queue.Held.{
  Kept, Holds, length-Kept, leads_to-unused, write-Kept, append-Kept,
}
use small_project_for_life_w.Queue.Pop.{drop_front-ok, queue_pop-oldest}
use small_project_for_life_w.Queue.Push.{queue_push-append, queue_push-full}

-- if the run ends well
abbrev pub After : {S A : Type 0} → Run S A → (A → S → Type 0) → Type 0
After (ok a s) P = P a s
After fault P = Unit
After out_of_fuel P = Unit

pub Yields-After :
    {S A : Type 0} (P Q : A → S → Type 0) (r : Run S A)
    → Yields r P
    → After r Q
    → Yields r (λ a s. P a s × Q a s)
Yields-After P Q (ok a s) y z = (y, z)
Yields-After P Q fault y z = y
Yields-After P Q out_of_fuel y z = y

-- `malloc` returns a node and a block that are not in use, and a NUL comes behind the block.
pub record Unused (ends : Ptr → Bool) (s : Store Ptr Texts) (n d : Ptr) : Type 0 where
  pub node_ne : n ≢ null
  pub node_free : s.cells n ≡ none
  pub block_ne : d ≢ null
  pub block_free : s.rest d ≡ none
  pub ended : ends d ≡ true

-- Where `QUEUE_PUSH` calls `malloc`, a full queue has given its first node and block back.
pub record Granted (ends : Ptr → Bool) (s : Store Ptr Texts) (q : Msgqueue) (n d : Ptr)
    : Type 0 where
  pub with_room : q.count < q.size → Unused ends s n d
  pub when_full : q.size ≤ q.count → After (drop_front ends q s) (λ _ t. Unused ends t n d)

module _ (ends : Ptr → Bool) (s : Store Ptr Texts) (q : Msgqueue) where
  pub held_count :
      (t : List ℕ) (ts : Messages) → Holds ends s q (t ∷ ts) → q.count ≡ length (t ∷ ts)
  held_count t ts (c, xs, is, k) =
      omega (arith, is.counted, length-Kept ends s.rest (c ∷ xs) (t ∷ ts) k)

  module _ (n d junk : Ptr) (text : List ℕ) where
    push_with_room :
        (t : List ℕ) (ts : Messages)
        → Holds ends s q (t ∷ ts)
        → q.count < q.size
        → Unused ends s n d
        → Yields
            (queue_push ends q n d junk text s)
            (λ q' u. Holds ends u q' ((t ∷ ts) ++ text ∷ []) × (q'.size ≡ q.size))
    push_with_room t ts (c, xs, is, k) room free =
        Yields-map _ _ (queue_push ends q n d junk text s)
          (queue_push-append s q c xs n d junk text is free.node_ne free.block_ne free.node_free
            ends room)
          λ q' u (is', more, same, rest). (
            (
              c,
              xs ++ (n, d) ∷ [],
              is',
              subst (λ (m : Texts). Kept ends m ((c ∷ xs) ++ (n, d) ∷ []) ((t ∷ ts) ++ text ∷ []))
                  (sym rest)
                  (append-Kept ends s.rest (c ∷ xs) (t ∷ ts) n d text k
                    (leads_to-unused ends s.rest (c ∷ xs) (t ∷ ts) d k free.block_free)
                    free.block_ne free.ended),
            ),
            same,
          )

    -- The oldest message goes; at least one other stays.
    push_when_full :
        (t u : List ℕ) (us : Messages)
        → Holds ends s q (t ∷ u ∷ us)
        → q.count ≡ q.size
        → Granted ends s q n d
        → Yields
            (queue_push ends q n d junk text s)
            (λ q' v. Holds ends v q' ((u ∷ us) ++ text ∷ []) × (q'.size ≡ q.size))
    push_when_full t u us (c, [], is, k) full free = absurd k.4
    push_when_full t u us ((a, b), x ∷ xs, is, (b_ne, b_here, b_fine, apart, k)) full free =
        let fine : Unused ends (record { cells = write s.cells a none; rest = write s.rest b none })
            n d =
          subst
            (λ (r : Run (Store Ptr Texts) (List ℕ × Msgqueue)). After r λ _ v. Unused ends v n d)
            (drop_front-ok ends s q a b (x ∷ xs) t is b_ne b_here b_fine)
            (free.when_full (omega (arith, full))) in
        let k' : Kept ends (write s.rest b none) (x ∷ xs) (u ∷ us) =
          write-Kept ends s.rest (x ∷ xs) (u ∷ us) b none apart k in
        Yields-map _ _ (queue_push ends q n d junk text s)
          (queue_push-full ends s q a b x xs t n d junk text is full b_ne b_here b_fine fine.node_ne
            fine.block_ne fine.node_free)
          λ q' v (is', more, same, rest). (
            (
              x,
              xs ++ (n, d) ∷ [],
              is',
              subst (λ (m : Texts). Kept ends m ((x ∷ xs) ++ (n, d) ∷ []) ((u ∷ us) ++ text ∷ []))
                  (sym rest)
                  (append-Kept ends (write s.rest b none) (x ∷ xs) (u ∷ us) n d text k'
                    (leads_to-unused ends (write s.rest b none) (x ∷ xs) (u ∷ us) d k'
                      fine.block_free)
                    fine.block_ne fine.ended),
            ),
            same,
          )

    -- `QUEUE_PUSH` on a queue that holds a message, of a size of at least two, is `enqueue`.
    pub push_refines :
        (t : List ℕ) (ts : Messages)
        → Holds ends s q (t ∷ ts)
        → length (t ∷ ts) ≤ q.size
        → 1 < q.size
        → Granted ends s q n d
        → Yields
            (queue_push ends q n d junk text s)
            (λ q' u. Holds ends u q' (enqueue q.size text (t ∷ ts)) × (q'.size ≡ q.size))
    unfolding enqueue
    push_refines t ts h fits two free = elim (Bool-cases (ltb (length (t ∷ ts)) q.size)) [
      | inl room ↦
          let below : q.count < q.size = ground (arith, held_count t ts h) in
          rw room (push_with_room t ts h below (free.with_room below))
      | inr full ↦ rw full (at_size ts h (ground (arith, held_count t ts h)))
    ]
      where
        at_size :
            (ts : Messages)
            → Holds ends s q (t ∷ ts)
            → q.count ≡ q.size
            → Yields
                (queue_push ends q n d junk text s)
                (λ q' u. Holds ends u q' (ts ++ text ∷ []) × (q'.size ≡ q.size))
        at_size [] h full = absurd (omega (arith, held_count t [] h, full, two))
        at_size (u ∷ us) h full = push_when_full t u us h full free

  -- `QUEUE_POP` returns the oldest message, or waits, and the queue holds the others.
  pub pop_refines :
      (ts : Messages)
      → Holds ends s q ts
      → Yields
          (queue_pop ends q s)
          (λ (r, q') u. (r ≡ oldest ts) × Holds ends u q' (rest_of ts) × (q'.size ≡ q.size))
  unfolding queue_pop
  pop_refines [] h =
      let nothing : (q.count == 0) ≡ true = ground arith in rw nothing (refl, h, refl)
  pop_refines (t ∷ []) ((a, b), x ∷ xs, is, (_, _, _, _, k)) = absurd k
  pop_refines (t ∷ []) ((a, b), [], is, (b_ne, b_here, b_fine, apart, k)) =
      let (ne, _, _, _) = is.chain in
      let some_left : (q.count == 0) ≡ false = ground (arith, is.counted) in
      let not_null : (q.front == null) ≡ false = ground (arith, is.front_at) in
      rw (some_left, not_null, ◌>>=◌, drop_front-ok ends s q a b [] t is b_ne b_here b_fine)
        (refl, omega (arith, is.counted), refl)
  pop_refines (t ∷ u ∷ us) (c, [], is, (_, _, _, _, k)) = absurd k
  pop_refines (t ∷ u ∷ us) ((a, b), x ∷ xs, is, (b_ne, b_here, b_fine, apart, k)) =
      Yields-map _ _ (queue_pop ends q s)
        (queue_pop-oldest ends s q a b x xs t is b_ne b_here b_fine)
        λ (r, q') v (e, is', same, _, rest). (
          e,
          (
            x,
            xs,
            is',
            subst (λ (m : Texts). Kept ends m (x ∷ xs) (u ∷ us)) (sym rest)
                (write-Kept ends s.rest (x ∷ xs) (u ∷ us) b none apart k),
          ),
          same,
        )
