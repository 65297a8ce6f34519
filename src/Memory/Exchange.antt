-- ===== src/Memory/Exchange.antt =====
-- Two nodes of a chain that change places.
use small_project_for_life_w.Base.{
  ◌≡◌, refl, ◌∙◌, ◌≢◌, Bool, true, false, some, [], ◌∷◌, ◌++◌, arith, ◌==◌,
}
use small_project_for_life_w.Memory.{Ptr, null, node, Heap}
use small_project_for_life_w.Memory.Chain.{
  Cells, first, has, has-append, Chain, Chain-frame, Chain-append, SameOutside,
}
use small_project_for_life_w.Memory.Relink.{
  last, last-linked, not-has-append, not-has_rest, Chain-front, Chain-back, Chain-apart, ne_of_has,
  ne_of_not-has, not-has_front,
}

pub test_ne : (a b : Ptr) → a ≢ b → (a == b) ≡ false
test_ne a b ne = ground arith

module _ {A : Type 0} where
  -- the last node, if there is one, has the pointer
  abbrev pub Linked : Heap A → Cells A → Ptr → Type 0
  Linked g [] q = Unit
  Linked g (c ∷ xs) q = let l = last c xs in g l.0 ≡ some (node l.1 q)

  abbrev pub is_last : Ptr → Cells A → Bool
  is_last p [] = false
  is_last p (c ∷ xs) = p == (last c xs).0

  pub not-last : (p : Ptr) (xs : Cells A) → has p xs ≡ false → is_last p xs ≡ false
  not-last p [] out = refl
  not-last p ((a, v) ∷ []) out = ground arith
  not-last p ((a, v) ∷ (b, w) ∷ xs) out = not-last p ((b, w) ∷ xs) (ground arith)

  has_first : (a : Ptr) (v : A) (xs : Cells A) → has a ((a, v) ∷ xs) ≡ true
  has_first a v xs = ground arith

  has_later : (p a : Ptr) (v : A) (xs : Cells A) → has p xs ≡ true → has p ((a, v) ∷ xs) ≡ true
  has_later p a v xs i = ground arith

  -- A chain leads to `q` if only its last node has changed, and has `q`.
  pub Chain-to :
      (h g : Heap A) (old q : Ptr) (xs : Cells A)
      → Chain h old xs
      → Linked g xs q
      → ((p : Ptr) → has p xs ≡ true → is_last p xs ≡ false → g p ≡ h p)
      → Chain g q xs
  Chain-to h g old q [] ch l same = tt
  Chain-to h g old q ((a, v) ∷ []) (ne, here, out, ch) l same = (ne, l, refl, tt)
  Chain-to h g old q ((a, v) ∷ (b, w) ∷ xs) (ne, here, out, ch) l same =
      let (_, _, among) = last-linked h old (b, w) xs ch in
      let ne_last : a ≢ (last (b, w) xs).0 =
        ne_of_has (last (b, w) xs).0 a ((b, w) ∷ xs) among out in
      (
        ne,
        same a (has_first a v ((b, w) ∷ xs)) (test_ne a (last (b, w) xs).0 ne_last) ∙ here,
        out,
        Chain-to h g old q ((b, w) ∷ xs) ch l (λ p i. same p (has_later p a v ((b, w) ∷ xs) i)),
      )

module _ {A : Type 0} (h : Heap A) (pre mid post : Cells A) (a b : Ptr) (v w : A) where
  -- `g` is `h` but for the nodes `a` and `b`, and those before them
  pub record Exchanged (g : Heap A) : Type 0 where
    pub at_a : g a ≡ some (node v (first post null))
    pub at_b : g b ≡ some (node w (first (mid ++ (a, v) ∷ post) null))
    pub end_pre : Linked g pre b
    pub end_mid : Linked g mid a
    pub same : (p : Ptr) → p ≢ a → p ≢ b → is_last p pre ≡ false → is_last p mid ≡ false → g p ≡ h p

  -- where the nodes are, before
  pub record Places : Type 0 where
    pub front : Chain h a pre
    pub a_ne : a ≢ null
    pub a_here : h a ≡ some (node v (first (mid ++ (b, w) ∷ post) null))
    pub middle : Chain h b mid
    pub b_ne : b ≢ null
    pub b_here : h b ≡ some (node w (first post null))
    pub back : Chain h null post
    pub a_b : a ≢ b
    pub a_pre : has a pre ≡ false
    pub a_mid : has a mid ≡ false
    pub a_post : has a post ≡ false
    pub b_pre : has b pre ≡ false
    pub b_mid : has b mid ≡ false
    pub b_post : has b post ≡ false
    pub pre_mid : (p : Ptr) → has p pre ≡ true → has p mid ≡ false
    pub pre_post : (p : Ptr) → has p pre ≡ true → has p post ≡ false
    pub mid_post : (p : Ptr) → has p mid ≡ true → has p post ≡ false

  pub Chain-Places : Chain h null (pre ++ (a, v) ∷ (mid ++ (b, w) ∷ post)) → Places
  Chain-Places ch =
      let rest = mid ++ (b, w) ∷ post in
      let (ne, here, out, ch') = Chain-back h null pre ((a, v) ∷ rest) ch in
      let (ne', here', out', ch'') = Chain-back h null mid ((b, w) ∷ post) ch' in
      let apart = Chain-apart h null pre ((a, v) ∷ rest) ch in
      let apart' = Chain-apart h null mid ((b, w) ∷ post) ch' in
      let split = λ (p : Ptr). has-append p mid ((b, w) ∷ post) in
      record {
        front = Chain-front h null pre ((a, v) ∷ rest) ch;
        a_ne = ne;
        a_here = here;
        middle = Chain-front h null mid ((b, w) ∷ post) ch';
        b_ne = ne';
        b_here = here';
        back = ch'';
        a_b = ground (arith, out, split a);
        a_pre = not-has_front a v pre rest apart;
        a_mid = ground (arith, out, split a);
        a_post = ground (arith, out, split a);
        b_pre = not-has_front b w pre post (λ p i. ground (arith, apart p i, split p));
        b_mid = not-has_front b w mid post apart';
        b_post = out';
        pre_mid = λ p i. ground (arith, apart p i, split p);
        pre_post = λ p i. ground (arith, apart p i, split p);
        mid_post = λ p i. ground (arith, apart' p i);
      }

  pub Chain-exchange :
      (g : Heap A) → Places → Exchanged g → Chain g null (pre ++ (b, w) ∷ (mid ++ (a, v) ∷ post))
  Chain-exchange g at ex =
      let behind : Chain g null post =
        Chain-frame h g null post
          (λ p i.
            ex.same p (ground (arith, i, at.a_post)) (ground (arith, i, at.b_post))
              (not-last p pre (ground (arith, i, at.pre_post p)))
              (not-last p mid (ground (arith, i, at.mid_post p))))
          at.back in
      let between : Chain g a mid = Chain-to h g b a mid at.middle ex.end_mid (λ p i not_last.
        ex.same p (ground (arith, i, at.a_mid)) (ground (arith, i, at.b_mid))
          (not-last p pre (ground (arith, i, at.pre_mid p))) not_last) in
      let before : Chain g b pre = Chain-to h g a b pre at.front ex.end_pre (λ p i not_last.
        ex.same p (ground (arith, i, at.a_pre)) (ground (arith, i, at.b_pre)) not_last
          (not-last p mid (at.pre_mid p i))) in
      let later : Chain g null (mid ++ (a, v) ∷ post) =
        Chain-append g null mid ((a, v) ∷ post) between (at.a_ne, ex.at_a, at.a_post, behind)
          (λ p i. ground (arith, i, at.a_mid, at.mid_post p i)) in
      let split = λ (p : Ptr). has-append p mid ((a, v) ∷ post) in
      Chain-append g null pre ((b, w) ∷ (mid ++ (a, v) ∷ post)) before
        (at.b_ne, ex.at_b, ground (arith, split b, at.b_mid, at.b_post, at.a_b), later)
        (λ p i. ground (arith, i, split p, at.a_pre, at.b_pre, at.pre_mid p i, at.pre_post p i))

  -- nothing else has changed
  pub exchanged-SameOutside :
      (g : Heap A) → Exchanged g → SameOutside (pre ++ (a, v) ∷ (mid ++ (b, w) ∷ post)) h g
  exchanged-SameOutside g ex p out =
      let (out_pre, out_rest) = not-has-append p pre ((a, v) ∷ (mid ++ (b, w) ∷ post)) out in
      let (out_mid, out_post) =
        not-has-append p mid ((b, w) ∷ post) (not-has_rest p a v (mid ++ (b, w) ∷ post) out_rest) in
      ex.same p (ne_of_not-has p a v (mid ++ (b, w) ∷ post) out_rest)
        (ne_of_not-has p b w post out_post) (not-last p pre out_pre) (not-last p mid out_mid)
