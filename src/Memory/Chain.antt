-- ===== src/Memory/Chain.antt =====
-- Chains of nodes: what a pointer to a list stands for.
use small_project_for_life_w.Base.{
  if◌then◌else◌, ap, ◌≡◌, refl, ◌∙◌, ◌≢◌, Bool, true, false, ◌||◌, Option, none, some, List, [],
  ◌∷◌, ◌++◌, arith, ◌==◌,
}
use small_project_for_life_w.Memory.{
  Cmd, ◌>>=◌, feed, Run, fault, out_of_fuel, Yields, Ptr, null, Node, node, Heap, write, Store,
  load, put, set_next, set_item, free_node, ok,
}

pub Yields-map :
    {S A : Type 0} (P Q : A → S → Type 0) (r : Run S A)
    → Yields r P
    → ((a : A) (s : S) → P a s → Q a s)
    → Yields r Q
Yields-map P Q (ok a s) y f = f a s y
Yields-map P Q fault y f = y
Yields-map P Q out_of_fuel y f = y

pub Yields-feed :
    {S A B : Type 0} (P : A → S → Type 0) (r : Run S A) (k : A → Cmd S B) (x : Run S B)
    → Yields r P
    → ((a : A) (s : S) → P a s → k a s ≡ x)
    → feed r k ≡ x
Yields-feed P (ok a s) k x y f = f a s y
Yields-feed P fault k x y f = absurd y
Yields-feed P out_of_fuel k x y f = absurd y

pub bind-ok :
    {S A B : Type 0} (m : Cmd S A) (k : A → Cmd S B) (s t : S) (a : A)
    → m s ≡ ok a t
    → ◌>>=◌ m k s ≡ k a t
bind-ok m k s t a e = ap (λ (r : Run _ _). feed r k) e

-- a guard that does not return
pub guard_passed :
    {S A : Type 0} (c : Bool) (m k : Cmd S A) (s : S) → c ≡ false → (if c then m else k) s ≡ k s
guard_passed c m k s e = rw e

module _ {S A B : Type 0} (P : A → S → Type 0) (Q : B → S → Type 0) where
  pub Yields-bind :
      (m : Cmd S A) (k : A → Cmd S B) (s : S)
      → Yields (m s) P
      → ((a : A) (t : S) → P a t → Yields (k a t) Q)
      → Yields (◌>>=◌ m k s) Q
  Yields-bind m k s y f = bound (m s) y
    where
      bound : (r : Run S A) → Yields r P → Yields (feed r k) Q
      bound (ok a t) y = f a t y
      bound fault y = absurd y
      bound out_of_fuel y = absurd y

pub Yields-guard :
    {S A : Type 0} (Q : A → S → Type 0) (c : Bool) (m k : Cmd S A) (s : S)
    → c ≡ false
    → Yields (k s) Q
    → Yields ((if c then m else k) s) Q
Yields-guard Q c m k s e y = rw e y

-- the nodes of a chain in order, each with its address and its item
abbrev pub Cells : Type 0 → Type 0
Cells A = List (Ptr × A)

module _ {A : Type 0} where
  -- where the chain begins, if it leads to `stop`
  abbrev pub first : Cells A → Ptr → Ptr
  first [] stop = stop
  first ((a, _) ∷ xs) stop = a

  abbrev pub has : Ptr → Cells A → Bool
  has p [] = false
  has p ((a, _) ∷ xs) = (p == a) || has p xs

  -- The nodes are there, apart from one another, and linked in this order up to `stop`.
  abbrev pub Chain : Heap A → Ptr → Cells A → Type 0
  Chain h stop [] = Unit
  Chain h stop ((a, v) ∷ xs) =
      (a ≢ null) × (h a ≡ some (node v (first xs stop))) × (has a xs ≡ false) × Chain h stop xs

  -- `g` is `h` but at most at the addresses of `xs`
  abbrev pub SameOutside : Cells A → Heap A → Heap A → Type 0
  SameOutside xs h g = (p : Ptr) → has p xs ≡ false → g p ≡ h p

  pub has-append : (p : Ptr) (xs ys : Cells A) → has p (xs ++ ys) ≡ (has p xs || has p ys)
  has-append p [] ys = refl
  has-append p ((a, v) ∷ xs) ys = ground (arith, has-append p xs ys)

  -- A chain survives a change that spares its nodes.
  pub Chain-frame :
      (h g : Heap A) (stop : Ptr) (xs : Cells A)
      → ((p : Ptr) → has p xs ≡ true → g p ≡ h p)
      → Chain h stop xs
      → Chain g stop xs
  Chain-frame h g stop [] same c = tt
  Chain-frame h g stop ((a, v) ∷ xs) same (ne, at, out, c) = (
    ne,
    same a (ground arith) ∙ at,
    out,
    Chain-frame h g stop xs (λ p i. same p (ground arith)) c,
  )

  pub Chain-write :
      (h : Heap A) (stop : Ptr) (xs : Cells A) (p : Ptr) (c : Option (Node A))
      → has p xs ≡ false
      → Chain h stop xs
      → Chain (write h p c) stop xs
  unfolding write
  Chain-write h stop xs p c out = Chain-frame h (write h p c) stop xs λ q i. ground arith

  -- an address without a node is in no chain
  pub not-has_of_none :
      (h : Heap A) (stop p : Ptr) (xs : Cells A) → Chain h stop xs → h p ≡ none → has p xs ≡ false
  not-has_of_none h stop p [] c e = refl
  not-has_of_none h stop p ((a, v) ∷ xs) (ne, at, out, c) e =
      ground (arith, not-has_of_none h stop p xs c e)

  -- A chain begins at NULL only if it has no node.
  pub first-ne-null :
      (h : Heap A) (a : Ptr) (v : A) (xs : Cells A)
      → Chain h null ((a, v) ∷ xs)
      → (a == null) ≡ false
  first-ne-null h a v xs (ne, at, out, c) = ground arith

  -- Two chains, the second behind the first.
  pub Chain-append :
      (h : Heap A) (stop : Ptr) (xs ys : Cells A)
      → Chain h (first ys stop) xs
      → Chain h stop ys
      → ((p : Ptr) → has p xs ≡ true → has p ys ≡ false)
      → Chain h stop (xs ++ ys)
  Chain-append h stop [] ys c d apart = d
  Chain-append h stop ((a, v) ∷ []) ys (ne, at, out, c) d apart =
      (ne, at, apart a (ground arith), d)
  Chain-append h stop ((a, v) ∷ (b, w) ∷ xs) ys (ne, at, out, c) d apart = (
    ne,
    at,
    ground (arith, has-append a ((b, w) ∷ xs) ys, apart a),
    Chain-append h stop ((b, w) ∷ xs) ys c d (λ p i. apart p (ground arith)),
  )

module _ {A E : Type 0} (p : Ptr) (v : A) (q : Ptr) (s : Store A E) (ne : p ≢ null)
    (at : s.cells p ≡ some (node v q)) where
  pub load-ok : load p s ≡ ok (node v q) s
  unfolding load
  load-ok = ground arith

  pub set_next-ok :
      (r : Ptr) → set_next p r s ≡ ok tt (record s { cells = write s.cells p (some (node v r)) })
  unfolding set_next load put
  set_next-ok r = ground arith

  pub set_item-ok :
      (w : A) → set_item p w s ≡ ok tt (record s { cells = write s.cells p (some (node w q)) })
  unfolding set_item load put
  set_item-ok w = ground arith

  pub free_node-ok : free_node p s ≡ ok tt (record s { cells = write s.cells p none })
  unfolding free_node load
  free_node-ok = ground arith
