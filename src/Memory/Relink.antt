-- ===== src/Memory/Relink.antt =====
-- Cutting a chain in two, and linking its last node anew.
use small_project_for_life_w.Base.{
  ◌≡◌, refl, ◌∙◌, ◌≢◌, true, false, Option, none, some, Bool-cases, inl, inr, [], ◌∷◌, ◌++◌, arith,
  ◌==◌,
}
use small_project_for_life_w.Memory.{Ptr, null, node, Heap, write}
use small_project_for_life_w.Memory.Chain.{
  Cells, first, has, Chain, SameOutside, has-append, Chain-append, Chain-write, first-ne-null,
}

pub write-ne :
    {C : Type 0} (h : Ptr → Option C) (p a : Ptr) (c : Option C) → a ≢ p → write h p c a ≡ h a
unfolding write
write-ne h p a c ne = ground arith

pub write_self : {C : Type 0} (h : Ptr → Option C) (p : Ptr) (c : Option C) → write h p c p ≡ c
unfolding write
write_self h p c = ground arith

pub write-again :
    {C : Type 0} (h : Ptr → Option C) (a : Ptr) (c d : Option C) (p : Ptr)
    → write (write h a c) a d p ≡ write h a d p
unfolding write
write-again h a c d p = ground arith

module _ {A : Type 0} where
  pub ne_of_has : (p a : Ptr) (xs : Cells A) → has p xs ≡ true → has a xs ≡ false → a ≢ p
  ne_of_has p a xs i out e = cc

  -- the last of the nodes `c`, `xs`
  abbrev pub last : Ptr × A → Cells A → Ptr × A
  last c [] = c
  last c (d ∷ xs) = last d xs

  -- an address of one chain, and a single node that is not in it
  pub not-has_single :
      (n p : Ptr) (v : A) (xs : Cells A)
      → has n xs ≡ false
      → has p xs ≡ true
      → has p ((n, v) ∷ []) ≡ false
  not-has_single n p v xs out i = ground arith

  pub not-has-append :
      (p : Ptr) (xs ys : Cells A)
      → has p (xs ++ ys) ≡ false
      → (has p xs ≡ false) × (has p ys ≡ false)
  not-has-append p xs ys out = ground (arith, has-append p xs ys)

  pub not-has_join :
      (p : Ptr) (xs ys : Cells A) → has p xs ≡ false → has p ys ≡ false → has p (xs ++ ys) ≡ false
  not-has_join p xs ys out out' = rw (has-append p xs ys, out) out'

  pub not-has_rest :
      (p a : Ptr) (v : A) (xs : Cells A) → has p ((a, v) ∷ xs) ≡ false → has p xs ≡ false
  not-has_rest p a v xs out = ground arith

  same-first :
      (pre post : Cells A) (a : Ptr) (v w : A) (stop : Ptr)
      → first (pre ++ (a, w) ∷ post) stop ≡ first (pre ++ (a, v) ∷ post) stop
  same-first [] post a v w stop = refl
  same-first (b ∷ pre) post a v w stop = refl

  pub ne_of_not-has : (p a : Ptr) (v : A) (xs : Cells A) → has p ((a, v) ∷ xs) ≡ false → p ≢ a
  ne_of_not-has p a v xs out = ground arith

  pub first-ne-null_append :
      (h : Heap A) (xs ys : Cells A) (c : Ptr × A)
      → Chain h null (xs ++ c ∷ ys)
      → (first (xs ++ c ∷ ys) null == null) ≡ false
  first-ne-null_append h [] ys c ch = first-ne-null h c.0 c.1 ys ch
  first-ne-null_append h (b ∷ xs) ys c ch = first-ne-null h b.0 b.1 (xs ++ c ∷ ys) ch

  pub first-append :
      (xs ys : Cells A) (stop : Ptr) → first (xs ++ ys) stop ≡ first xs (first ys stop)
  first-append [] ys stop = refl
  first-append (c ∷ xs) ys stop = refl

  pub Chain-front :
      (h : Heap A) (stop : Ptr) (xs ys : Cells A)
      → Chain h stop (xs ++ ys)
      → Chain h (first ys stop) xs
  Chain-front h stop [] ys c = tt
  Chain-front h stop ((a, v) ∷ xs) ys (ne, here, out, c) = (
    ne,
    rw (← first-append xs ys stop) here,
    ground (arith, has-append a xs ys),
    Chain-front h stop xs ys c,
  )

  pub Chain-back :
      (h : Heap A) (stop : Ptr) (xs ys : Cells A) → Chain h stop (xs ++ ys) → Chain h stop ys
  Chain-back h stop [] ys c = c
  Chain-back h stop ((a, v) ∷ xs) ys (ne, here, out, c) = Chain-back h stop xs ys c

  pub Chain-apart :
      (h : Heap A) (stop : Ptr) (xs ys : Cells A)
      → Chain h stop (xs ++ ys)
      → (p : Ptr) → has p xs ≡ true
      → has p ys ≡ false
  Chain-apart h stop [] ys c p i = cc
  Chain-apart h stop ((a, v) ∷ xs) ys (ne, here, out, c) p i =
      ground (arith, has-append a xs ys, Chain-apart h stop xs ys c p)

  -- The last node is linked to the end of the chain.
  pub last-linked :
      (h : Heap A) (stop : Ptr) (c : Ptr × A) (xs : Cells A)
      → Chain h stop (c ∷ xs)
      → let (a, v) = last c xs in (a ≢ null) × (h a ≡ some (node v stop)) × (has a (c ∷ xs) ≡ true)
  last-linked h stop (a, v) [] (ne, here, out, c) = (ne, here, ground arith)
  last-linked h stop (a, v) (d ∷ xs) (ne, here, out, c) =
      let (ne', here', among) = last-linked h stop d xs c in (ne', here', ground arith)

  -- Linking the last node to `q` gives the chain that leads to `q`.
  pub Chain-relink :
      (h : Heap A) (stop q : Ptr) (c : Ptr × A) (xs : Cells A)
      → Chain h stop (c ∷ xs)
      → let (a, v) = last c xs in Chain (write h a (some (node v q))) q (c ∷ xs)
  unfolding write
  Chain-relink h stop q (a, v) [] (ne, here, out, c) = (ne, ground arith, refl, tt)
  Chain-relink h stop q (a, v) ((b, w) ∷ xs) (ne, here, out, c) =
      let l = last (b, w) xs in
      let (_, _, among) = last-linked h stop (b, w) xs c in
      (
        ne,
        write-ne h l.0 a (some (node l.1 q)) (ne_of_has l.0 a ((b, w) ∷ xs) among out) ∙ here,
        out,
        Chain-relink h stop q (b, w) xs c,
      )

  -- Linking the last node to another chain joins the two.
  pub Chain-link :
      (h : Heap A) (old stop : Ptr) (c : Ptr × A) (xs ys : Cells A)
      → Chain h old (c ∷ xs)
      → Chain h stop ys
      → ((p : Ptr) → has p (c ∷ xs) ≡ true → has p ys ≡ false)
      → let (a, v) = last c xs in
        Chain (write h a (some (node v (first ys stop)))) stop ((c ∷ xs) ++ ys)
  Chain-link h old stop c xs ys ch d apart =
      let l = last c xs in
      let (_, _, among) = last-linked h old c xs ch in
      Chain-append (write h l.0 (some (node l.1 (first ys stop)))) stop (c ∷ xs) ys
        (Chain-relink h old (first ys stop) c xs ch)
        (Chain-write h stop ys l.0 (some (node l.1 (first ys stop))) (apart l.0 among) d) apart

  -- and writes to no other node.
  pub link-SameOutside :
      (h : Heap A) (q : Ptr) (c : Ptr × A) (xs : Cells A)
      → Chain h null (c ∷ xs)
      → let (a, v) = last c xs in SameOutside (c ∷ xs) h (write h a (some (node v q)))
  link-SameOutside h q c xs ch p out =
      let l = last c xs in
      let (_, _, among) = last-linked h null c xs ch in
      write-ne h l.0 p (some (node l.1 q)) (ne_of_has l.0 p (c ∷ xs) among out)

  pub not-has_front :
      (a : Ptr) (v : A) (pre post : Cells A)
      → ((p : Ptr) → has p pre ≡ true → has p ((a, v) ∷ post) ≡ false)
      → has a pre ≡ false
  not-has_front a v pre post apart = elim (Bool-cases (has a pre)) [
    | inl i ↦ absurd (ne_of_not-has a a v post (apart a i) refl)
    | inr out ↦ out
  ]

  -- Linking round a node behind the first, and giving that node back, takes it out of the chain.
  pub Chain-unlink :
      (h : Heap A) (c : Ptr × A) (pre post : Cells A) (a : Ptr) (v : A)
      → Chain h null ((c ∷ pre) ++ (a, v) ∷ post)
      → let (b, w) = last c pre in
        Chain (write (write h b (some (node w (first post null)))) a none) null ((c ∷ pre) ++ post)
  Chain-unlink h c pre post a v ch =
      let l = last c pre in
      let front = Chain-front h null (c ∷ pre) ((a, v) ∷ post) ch in
      let (_, _, out, back) = Chain-back h null (c ∷ pre) ((a, v) ∷ post) ch in
      let apart = Chain-apart h null (c ∷ pre) ((a, v) ∷ post) ch in
      let gone = not-has_front a v (c ∷ pre) post apart in
      Chain-write (write h l.0 (some (node l.1 (first post null)))) null ((c ∷ pre) ++ post) a none
        (not-has_join a (c ∷ pre) post gone out)
        (Chain-link h a null c pre post front back (λ p i. not-has_rest p a v post (apart p i)))

  -- The first node moves from one of two separate chains to the other.
  pub apart-cons :
      (a : Ptr) (v : A) (xs ys : Cells A)
      → has a xs ≡ false
      → ((p : Ptr) → has p ((a, v) ∷ xs) ≡ true → has p ys ≡ false)
      → (p : Ptr) → has p xs ≡ true
      → has p ((a, v) ∷ ys) ≡ false
  apart-cons a v xs ys out apart p i = ground (arith, apart p)

  -- A chain in which one node has a new item.
  pub Chain-set :
      (h : Heap A) (stop : Ptr) (pre post : Cells A) (a : Ptr) (v w : A)
      → Chain h stop (pre ++ (a, v) ∷ post)
      → Chain (write h a (some (node w (first post stop)))) stop (pre ++ (a, w) ∷ post)
  Chain-set h stop [] post a v w (ne, here, out, ch) = (
    ne,
    write_self h a (some (node w (first post stop))),
    out,
    Chain-write h stop post a (some (node w (first post stop))) out ch,
  )
  Chain-set h stop ((b, u) ∷ pre) post a v w (ne, here, out, ch) =
      let (out_pre, out_post) = not-has-append b pre ((a, v) ∷ post) out in
      (
        ne,
        write-ne h a b (some (node w (first post stop))) (ne_of_not-has b a v post out_post)
            ∙ rw (same-first pre post a v w stop) here,
        not-has_join b pre ((a, w) ∷ post) out_pre out_post,
        Chain-set h stop pre post a v w ch,
      )
