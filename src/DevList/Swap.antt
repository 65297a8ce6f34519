-- ===== src/DevList/Swap.antt =====
-- `list_swap`.
pub mod Search
pub mod Link
use small_project_for_life_w.Base.{
  ℕ, zero, suc, ◌+◌, ◌<◌, ◌≤◌, ◌≡◌, refl, sym, ap, ◌∙◌, ◌≢◌, Bool, not, Bool-cases, inl, inr, true,
  false, some, [], ◌∷◌, ◌++◌, append_assoc, arith, ◌==◌, if◌then◌else◌, length, length-append, ℤ,
  pos, is_at,
}
use small_project_for_life_w.Memory.{
  Ptr, null, node, Heap, write, ok, Yields, ◌>>=◌, ◌>>◌, load, set_next,
}
use small_project_for_life_w.Memory.Chain.{
  Cells, first, has, Chain, SameOutside, first-ne-null, load-ok, set_next-ok,
}
use small_project_for_life_w.Memory.Relink.{
  last, last-linked, write-ne, ne_of_has, Chain-front, Chain-back,
}
use small_project_for_life_w.Memory.Exchange.{
  test_ne, Places, Chain-Places, Exchanged, Chain-exchange, exchanged-SameOutside,
}
use small_project_for_life_w.Memory.ExchangeSteps.{
  elsewhere, Halfway, Quarter-Halfway, Quarter-nil, Quarter-cons, finish, finish_b, write-swap,
}
use small_project_for_life_w.DevList.{Mem, Found, is_before, swap_find, swap_link, list_swap}
use small_project_for_life_w.DevList.Swap.Search.{
  found_at, swap_find-ok, found_at-first, found_at-second,
}
use small_project_for_life_w.DevList.Swap.Link.{
  at, found, relinked, relinked-Halfway, swap_link-ok, Before, load_a, load_b, set_a, set_b,
  set_a_last, set_b_last,
}

module _ (s : Mem) (mid post : Cells Ptr) (a b v w : Ptr) (pre : Cells Ptr) where
  abbrev xs : Cells Ptr
  xs = pre ++ (a, v) ∷ (mid ++ (b, w) ∷ post)

  abbrev ys : Cells Ptr
  ys = pre ++ (b, w) ∷ (mid ++ (a, v) ∷ post)

  abbrev Swapped : ℕ × Ptr → Mem → Type 0
  Swapped (r, head) t =
      (r ≡ 1)
      × (head ≡ first ys null)
      × Chain t.cells null ys
      × (t.rest ≡ s.rest)
      × SameOutside xs s.cells t.cells

  abbrev place : (second : Bool) → ℤ
  place second = if second then pos (length pre + suc (length mid)) else pos (length pre)

  -- what the search starts with
  abbrev at_first : (turned : Bool) → Found
  at_first turned = record {
    a_pre = null;
    b_pre = null;
    a = if is_at 0 (place turned) then first xs null else null;
    b = if is_at 0 (place (not turned)) then first xs null else null;
  }

  -- the search, with the positions in either order
  search :
      (turned : Bool) (fuel : ℕ)
      → Chain s.cells null xs
      → length xs < fuel
      → swap_find fuel (place turned) (place (not turned)) (first xs null) 0 (at_first turned) s
        ≡ ok (found s mid post a b v w turned pre) s
  search false fuel ch h =
      rw
        (
          found_at-first pre (mid ++ (b, w) ∷ post) (a, v),
          found_at-second pre mid post (a, v) (b, w),
        )
        at (swap_find-ok s fuel xs (place false) (place true) 0 (at_first false) ch h)
  search true fuel ch h =
      rw
        (
          found_at-first pre (mid ++ (b, w) ∷ post) (a, v),
          found_at-second pre mid post (a, v) (b, w),
        )
        at (swap_find-ok s fuel xs (place true) (place false) 0 (at_first true) ch h)

  done :
      (t : Mem)
      → (ch : Chain s.cells null xs) → t.rest ≡ s.rest
      → Exchanged s.cells pre mid post a b v w t.cells
      → Swapped (1, first ys null) t
  done t ch rest ex = (
    refl,
    refl,
    Chain-exchange s.cells pre mid post a b v w t.cells (at s pre mid post a b v w ch) ex,
    rest,
    exchanged-SameOutside s.cells pre mid post a b v w t.cells ex,
  )

  -- The two nodes change places in the chain, in whichever order their positions are given, also
  -- where one is the first or they are next to each other; nothing else is written.
  pub list_swap-swap :
      (turned : Bool) (fuel : ℕ)
      → Chain s.cells null xs
      → length xs < fuel
      → Yields (list_swap fuel (first xs null) (place turned) (place (not turned)) s) Swapped
  unfolding list_swap
  list_swap-swap false fuel ch h =
      let p = at s pre mid post a b v w ch in
      let g = relinked s mid post a b v w pre in
      let half = relinked-Halfway s mid post a b v w pre ch in
      let a_null : (a == null) ≡ false = test_ne a null p.a_ne in
      let b_null : (b == null) ≡ false = test_ne b null p.b_ne in
      let other : (a == b) ≡ false = test_ne a b p.a_b in
      rw
        (
          ◌>>=◌,
          search false fuel ch h,
          a_null,
          b_null,
          other,
          ◌>>=◌,
          ◌>>◌,
          swap_link-ok s mid post a b v w false pre ch,
          load_a s pre mid post a b v w ch g half,
          load_b s pre mid post a b v w ch g half,
          set_a s pre mid post a b v w ch g half,
          set_b_last s pre mid post a b v w ch g half,
        )
        (done _ ch refl (finish s.cells pre mid post a b v w p g half))
  list_swap-swap true fuel ch h =
      let p = at s pre mid post a b v w ch in
      let g = relinked s mid post a b v w pre in
      let half = relinked-Halfway s mid post a b v w pre ch in
      let a_null : (a == null) ≡ false = test_ne a null p.a_ne in
      let b_null : (b == null) ≡ false = test_ne b null p.b_ne in
      let other : (b == a) ≡ false = test_ne b a (λ e. p.a_b (sym e)) in
      rw
        (
          ◌>>=◌,
          search true fuel ch h,
          b_null,
          a_null,
          other,
          ◌>>=◌,
          ◌>>◌,
          swap_link-ok s mid post a b v w true pre ch,
          load_b s pre mid post a b v w ch g half,
          load_a s pre mid post a b v w ch g half,
          set_b s pre mid post a b v w ch g half,
          set_a_last s pre mid post a b v w ch g half,
        )
        (done _ ch refl (finish_b s.cells pre mid post a b v w p g half))
