-- ===== src/Queue/Push.antt =====
-- `QUEUE_PUSH` on a queue that is not empty.
use small_project_for_life_w.Base.{
  ℕ, ◌+◌, ◌-◌, ◌<◌, ◌≡◌, refl, sym, ◌∙◌, ◌≢◌, ap, Bool, true, false, none, some, List, [], ◌∷◌,
  ◌++◌, arith, ◌==◌, ltb, length-append,
}
use small_project_for_life_w.Memory.{Ptr, null, node, write, ok, Yields, Store, ◌>>=◌, ◌>>◌}
use small_project_for_life_w.Memory.Chain.{
  Cells, Chain-write, load-ok, set_next-ok, set_item-ok, not-has_of_none, Yields-map,
}
use small_project_for_life_w.Memory.Relink.{
  last, last-linked, Chain-link, Chain-set, not-has_single, ne_of_has, write_self, write-ne,
}
use small_project_for_life_w.Queue.{Msgqueue, Texts, copy_text, push_behind, queue_push}
use small_project_for_life_w.Queue.Pop.{IsQueue, alloc-ok, drop_front-ok, dropped-IsQueue}

pub copy_text-ok :
    (s : Store Ptr Texts) (d : Ptr) (text : List ℕ)
    → d ≢ null
    → copy_text d text s ≡ ok tt (record s { rest = write s.rest d (some text) })
unfolding copy_text
copy_text-ok s d text ne = ground arith

last-append : (c b : Ptr × Ptr) (xs : Cells Ptr) → last c (xs ++ b ∷ []) ≡ b
last-append c b [] = refl
last-append c b (d ∷ xs) = last-append d b xs

module _ (s : Store Ptr Texts) (q : Msgqueue) (c : Ptr × Ptr) (xs : Cells Ptr) (n d junk : Ptr)
    (text : List ℕ) (i : IsQueue s q c xs) (n_ne : n ≢ null) (d_ne : d ≢ null)
    (unused : s.cells n ≡ none) where
  push_behind-IsQueue : Yields (push_behind q n d junk text s) (λ q' t.
      IsQueue t q' c (xs ++ (n, d) ∷ [])
      × (q'.count ≡ q.count + 1)
      × (q'.size ≡ q.size)
      × (t.rest ≡ write s.rest d (some text)))
  unfolding push_behind
  push_behind-IsQueue =
      let out = not-has_of_none s.cells q.rear n (c ∷ xs) i.chain unused in
      let s₁ = record s { cells = write s.cells n (some (node junk junk)) } in
      let ch₁ = Chain-write s.cells q.rear (c ∷ xs) n (some (node junk junk)) out i.chain in
      let l = last c xs in
      let (l_ne, l_here, among) = last-linked s₁.cells q.rear c xs ch₁ in
      let s₂ = record s₁ { cells = write s₁.cells l.0 (some (node l.1 n)) } in
      let n_l : n ≢ l.0 = ne_of_has l.0 n (c ∷ xs) among out in
      let n₂ =
        write-ne s₁.cells l.0 n (some (node l.1 n)) n_l
        ∙ write_self s.cells n (some (node junk junk)) in
      let s₃ = record s₂ { cells = write s₂.cells n (some (node d junk)) } in
      let s₄ = record s₃ { rest = write s.rest d (some text) } in
      let l₄ =
        write-ne s₂.cells n l.0 (some (node d junk)) (λ e. n_l (sym e))
        ∙ write_self s₁.cells l.0 (some (node l.1 n)) in
      let n₄ = write_self s₂.cells n (some (node d junk)) in
      let joined =
        Chain-link s₁.cells q.rear junk c xs ((n, junk) ∷ []) ch₁
          (n_ne, write_self s.cells n (some (node junk junk)), refl, tt)
          (λ p h. not-has_single n p junk (c ∷ xs) out h) in
      rw
        (
          ◌>>◌,
          alloc-ok s n junk n_ne,
          i.backrear_at,
          set_next-ok l.0 l.1 q.rear s₁ l_ne l_here n,
          set_item-ok n junk junk s₂ n_ne n₂ d,
          copy_text-ok s₃ d text d_ne,
          ◌>>=◌,
          load-ok l.0 l.1 n s₄ l_ne l₄,
          load-ok n d junk s₄ n_ne n₄,
        )
        (
          record {
            chain = Chain-set s₂.cells junk (c ∷ xs) [] n junk d joined;
            front_at = i.front_at;
            backrear_at = ap (λ (b : Ptr × Ptr). b.0) (sym (last-append c (n, d) xs));
            counted = omega (arith, i.counted, length-append xs ((n, d) ∷ []));
          },
          refl,
          refl,
          refl,
        )

  -- `QUEUE_PUSH` on a queue that is neither empty nor full appends the message.
  pub queue_push-append :
      (ends : Ptr → Bool)
      → q.count < q.size
      → Yields (queue_push ends q n d junk text s) (λ q' t.
        IsQueue t q' c (xs ++ (n, d) ∷ [])
        × (q'.count ≡ q.count + 1)
        × (q'.size ≡ q.size)
        × (t.rest ≡ write s.rest d (some text)))
  unfolding queue_push
  queue_push-append ends room =
      let below : ltb q.count q.size ≡ true = ground arith in
      let (ne, _, _, _) = i.chain in
      let not_null : (q.front == null) ≡ false = ground arith in
      rw (not_null, below) push_behind-IsQueue

module _ (ends : Ptr → Bool) (s : Store Ptr Texts) where
  -- `QUEUE_PUSH` on a full queue of at least two gives the oldest message up and appends the new
  -- one; the new node may be where the oldest was.
  pub queue_push-full :
      (q : Msgqueue) (a b : Ptr) (c : Ptr × Ptr) (xs : Cells Ptr) (old : List ℕ) (n d junk : Ptr)
      (text : List ℕ)
      → IsQueue s q (a, b) (c ∷ xs)
      → q.count ≡ q.size
      → b ≢ null
      → s.rest b ≡ some old
      → ends b ≡ true
      → n ≢ null
      → d ≢ null
      → write s.cells a none n ≡ none
      → Yields (queue_push ends q n d junk text s) (λ q' t.
        IsQueue t q' c (xs ++ (n, d) ∷ [])
        × (q'.count ≡ q.size)
        × (q'.size ≡ q.size)
        × (t.rest ≡ write (write s.rest b none) d (some text)))
  unfolding queue_push
  queue_push-full q a b c xs old n d junk text i full b_ne b_here fine n_ne d_ne unused =
      let above : ltb q.count q.size ≡ false = ground arith in
      let (ne, _, _, _) = i.chain in
      let not_null : (q.front == null) ≡ false = ground arith in
      let q₁ = record q { front = c.0; count = q.count - 1 } in
      let s₁ : Store Ptr Texts = record {
        cells = write s.cells a none;
        rest = write s.rest b none;
      } in
      rw (not_null, above, ◌>>=◌, drop_front-ok ends s q a b (c ∷ xs) old i b_ne b_here fine)
        (Yields-map _ _ (push_behind q₁ n d junk text s₁)
          (push_behind-IsQueue s₁ q₁ c xs n d junk text
            (dropped-IsQueue ends s q a b c xs (write s.rest b none) i) n_ne d_ne unused)
          λ q' t (is, more, same, rest). (is, omega (arith, more, full, i.counted), same, rest))
