-- ===== src/DevList/Swap/Link.antt =====
-- The writes of `list_swap`.
use small_project_for_life_w.Base.{
  ◌≡◌, ◌∙◌, ◌≢◌, Bool, true, false, some, [], ◌∷◌, ◌++◌, arith, ◌==◌, if◌then◌else◌,
}
use small_project_for_life_w.Memory.{Ptr, null, node, Heap, write, ok, ◌>>◌, load, set_next}
use small_project_for_life_w.Memory.Chain.{Cells, first, has, Chain, load-ok, set_next-ok}
use small_project_for_life_w.Memory.Relink.{
  last, last-linked, write-ne, ne_of_has, Chain-front, Chain-back,
}
use small_project_for_life_w.Memory.Exchange.{Places, Chain-Places}
use small_project_for_life_w.Memory.ExchangeSteps.{
  elsewhere, Halfway, Quarter-Halfway, Quarter-nil, Quarter-cons, write-swap,
}
use small_project_for_life_w.DevList.{Mem, Found, swap_link}
use small_project_for_life_w.DevList.Swap.Search.{before}

module _ (s : Mem) (pre mid post : Cells Ptr) (a b v w : Ptr)
    (ch : Chain s.cells null (pre ++ (a, v) ∷ (mid ++ (b, w) ∷ post))) where
  pub at : Places s.cells pre mid post a b v w
  at = Chain-Places s.cells pre mid post a b v w ch

  -- the node before `b`
  before_b :
      let l = last (a, v) mid in
      (l.0 ≢ null) × (s.cells l.0 ≡ some (node l.1 b)) × (has l.0 ((a, v) ∷ mid) ≡ true)
  before_b =
      last-linked s.cells b (a, v) mid
        (Chain-front s.cells null ((a, v) ∷ mid) ((b, w) ∷ post)
          (Chain-back s.cells null pre ((a, v) ∷ (mid ++ (b, w) ∷ post)) ch))

  -- behind the two writes to the nodes before: the reads, and the writes to the nodes themselves,
  -- in either order
  module _ (g : Heap Ptr) (half : Halfway s.cells pre mid post a b v w at g) where
    abbrev pub half_done : Mem
    half_done = record s { cells = g }

    abbrev pub next_a : Ptr
    next_a = first (mid ++ (a, v) ∷ post) null

    abbrev pub next_b : Ptr
    next_b = first post null

    abbrev pub with_a : Mem
    with_a = record s { cells = write g a (some (node v next_b)) }

    abbrev pub with_b : Mem
    with_b = record s { cells = write g b (some (node w next_a)) }

    pub load_a : load a half_done ≡ ok (node v next_a) half_done
    load_a = load-ok a v next_a half_done at.a_ne half.a_now

    pub load_b : load b half_done ≡ ok (node w next_b) half_done
    load_b = load-ok b w next_b half_done at.b_ne half.b_now

    pub set_a : set_next a next_b half_done ≡ ok tt with_a
    set_a = set_next-ok a v next_a half_done at.a_ne half.a_now next_b

    pub set_b : set_next b next_a half_done ≡ ok tt with_b
    set_b = set_next-ok b w next_b half_done at.b_ne half.b_now next_a

    pub set_b_last :
        set_next b next_a with_a
        ≡ ok tt (record s { cells = write with_a.cells b (some (node w next_a)) })
    set_b_last =
        set_next-ok b w next_b with_a at.b_ne
          (write-ne g a b (some (node v next_b)) (λ e. at.a_b (ground (arith, e))) ∙ half.b_now)
          next_a

    pub set_a_last :
        set_next a next_b with_b
        ≡ ok tt (record s { cells = write with_b.cells a (some (node v next_b)) })
    set_a_last =
        set_next-ok a v next_a with_b at.a_ne
          (write-ne g b a (some (node w next_a)) at.a_b ∙ half.a_now) next_b

-- `swap_link`, with the positions in either order
module _ (s : Mem) (mid post : Cells Ptr) (a b v w : Ptr) where
  abbrev pub found : (turned : Bool) → Cells Ptr → Found
  found turned pre =
      if turned
      then record { a_pre = (last (a, v) mid).0; b_pre = before pre; a = b; b = a }
      else record { a_pre = before pre; b_pre = (last (a, v) mid).0; a = a; b = b }

  -- the cells behind it
  abbrev pub relinked : Cells Ptr → Heap Ptr
  relinked [] = let l = last (a, v) mid in write s.cells l.0 (some (node l.1 a))
  relinked (c ∷ pre) =
      let l = last (a, v) mid in
      let m = last c pre in write (write s.cells m.0 (some (node m.1 b))) l.0 (some (node l.1 a))

  abbrev pub Before : Cells Ptr → Type 0
  Before pre = Chain s.cells null (pre ++ (a, v) ∷ (mid ++ (b, w) ∷ post))

  pub relinked-Halfway :
      (pre : Cells Ptr) (ch : Before pre)
      → Halfway s.cells pre mid post a b v w (at s pre mid post a b v w ch) (relinked pre)
  relinked-Halfway [] ch =
      let p = at s [] mid post a b v w ch in
      Quarter-Halfway s.cells [] a b v w mid post p s.cells (Quarter-nil s.cells mid post a b v w p)
  relinked-Halfway (c ∷ pre) ch =
      let p = at s (c ∷ pre) mid post a b v w ch in
      let m = last c pre in
      Quarter-Halfway s.cells (c ∷ pre) a b v w mid post p (write s.cells m.0 (some (node m.1 b)))
        (Quarter-cons s.cells mid post a b v w c pre p)

  -- The nodes before `a` and before `b` are two.
  links_apart :
      (c : Ptr × Ptr) (pre : Cells Ptr)
      → Before (c ∷ pre)
      → ((last (a, v) mid).0 ≢ (last c pre).0) × ((last c pre).0 ≢ (last (a, v) mid).0)
  links_apart c pre ch =
      let p = at s (c ∷ pre) mid post a b v w ch in
      let l = last (a, v) mid in
      let m = last c pre in
      let (_, _, among) = before_b s (c ∷ pre) mid post a b v w ch in
      let (_, _, among') = last-linked s.cells a c pre p.front in
      let out : has l.0 (c ∷ pre) ≡ false =
        elsewhere l.0 (c ∷ pre) ((a, v) ∷ mid) (λ r i. ground (arith, i, p.a_pre, p.pre_mid r i))
          among in
      let ne : l.0 ≢ m.0 = ne_of_has m.0 l.0 (c ∷ pre) among' out in
      (ne, λ e. ne (ground (arith, e)))

  pub swap_link-ok :
      (turned : Bool) (pre : Cells Ptr)
      → Before pre
      → swap_link (first (pre ++ (a, v) ∷ (mid ++ (b, w) ∷ post)) null) (found turned pre) s
        ≡ ok
            (first (pre ++ (b, w) ∷ (mid ++ (a, v) ∷ post)) null)
            (record s { cells = relinked pre })
  unfolding swap_link
  swap_link-ok false [] ch =
      let l = last (a, v) mid in
      let (ne, here, _) = before_b s [] mid post a b v w ch in
      let is_head : (a == a) ≡ true = ground arith in
      rw (is_head, ◌>>◌, set_next-ok l.0 l.1 b s ne here a)
  swap_link-ok true [] ch =
      let p = at s [] mid post a b v w ch in
      let l = last (a, v) mid in
      let (ne, here, _) = before_b s [] mid post a b v w ch in
      let is_head : (a == a) ≡ true = ground arith in
      let not_head : (b == a) ≡ false = ground (arith, p.a_b) in
      rw (not_head, is_head, ◌>>◌, set_next-ok l.0 l.1 b s ne here a)
  swap_link-ok false (c ∷ pre) ch =
      let p = at s (c ∷ pre) mid post a b v w ch in
      let l = last (a, v) mid in
      let m = last c pre in
      let (ne, here, _) = before_b s (c ∷ pre) mid post a b v w ch in
      let (ne', here', _) = last-linked s.cells a c pre p.front in
      let (apart, _) = links_apart c pre ch in
      let to_b = some (node m.1 b) in
      let a_head : (a == c.0) ≡ false = ground (arith, p.a_pre) in
      let b_head : (b == c.0) ≡ false = ground (arith, p.b_pre) in
      rw (
        a_head,
        b_head,
        ◌>>◌,
        set_next-ok m.0 m.1 a s ne' here' b,
        set_next-ok l.0 l.1 b (record s { cells = write s.cells m.0 to_b }) ne
            (write-ne s.cells m.0 l.0 to_b apart ∙ here) a,
      )
  swap_link-ok true (c ∷ pre) ch =
      let p = at s (c ∷ pre) mid post a b v w ch in
      let l = last (a, v) mid in
      let m = last c pre in
      let (ne, here, _) = before_b s (c ∷ pre) mid post a b v w ch in
      let (ne', here', _) = last-linked s.cells a c pre p.front in
      let (apart, apart') = links_apart c pre ch in
      let to_b = some (node m.1 b) in
      let to_a = some (node l.1 a) in
      let a_head : (a == c.0) ≡ false = ground (arith, p.a_pre) in
      let b_head : (b == c.0) ≡ false = ground (arith, p.b_pre) in
      rw (
        b_head,
        a_head,
        ◌>>◌,
        set_next-ok l.0 l.1 b s ne here a,
        set_next-ok m.0 m.1 a (record s { cells = write s.cells l.0 to_a }) ne'
            (write-ne s.cells l.0 m.0 to_a apart' ∙ here') b,
        write-swap s.cells l.0 m.0 to_a to_b apart,
      )
