-- ===== src/DevList/Append.antt =====
-- `list_append` and `list_extend`: the walk to the last node and the link that follows it.
use small_project_for_life_w.Base.{
  ℕ, zero, suc, ◌<◌, ◌≡◌, refl, ◌∙◌, ◌≢◌, true, false, none, some, [], ◌∷◌, ◌++◌, arith, length,
}
use small_project_for_life_w.Memory.{Ptr, null, node, write, ok, Yields, ◌>>=◌, ◌>>◌, put}
use small_project_for_life_w.Memory.Chain.{
  Cells, first, has, Chain, SameOutside, first-ne-null, load-ok, set_next-ok, not-has_of_none,
  Chain-write,
}
use small_project_for_life_w.Memory.Relink.{
  last, last-linked, write-ne, write_self, Chain-link, not-has_single, not-has-append,
  ne_of_not-has, link-SameOutside,
}
use small_project_for_life_w.DevList.{
  DevInfo, Mem, load_block, put_block, new_node, last_node, list_append, list_extend,
}

module _ (s : Mem) where
  pub last_node-ok :
      (k : ℕ) (c : Ptr × Ptr) (xs : Cells Ptr)
      → Chain s.cells null (c ∷ xs)
      → length xs < k
      → last_node k c.0 s ≡ ok (last c xs).0 s
  unfolding last_node
  last_node-ok zero c xs ch h = absurd (omega arith)
  last_node-ok (suc k) (a, v) [] (ne, here, out, ch) h = rw (load-ok a v null s ne here)
  last_node-ok (suc k) (a, v) ((b, w) ∷ xs) (ne, here, out, ch) h =
      rw (load-ok a v b s ne here, first-ne-null s.cells b w xs ch)
        (last_node-ok k (b, w) xs ch (omega arith))

module _ (s : Mem) where
  -- the two allocations of a new node, and the state behind them
  pub new_node-ok :
      (n d source : Ptr) (v : DevInfo)
      → source ≢ null
      → s.rest source ≡ some v
      → n ≢ null
      → d ≢ null
      → new_node n d source s
        ≡ ok n (record {
          cells = write s.cells n (some (node d null));
          rest = write s.rest d (some v);
        })
  unfolding new_node load_block put_block put
  new_node-ok n d source v ne here nn nd = ground arith

module _ (s : Mem) where
  -- `list_append` copies the data to the new block and links the new node behind the last, if
  -- `malloc` returned unused addresses; it writes to no node outside the list.
  pub list_append-append :
      (fuel : ℕ) (n d source : Ptr) (v : DevInfo) (xs : Cells Ptr)
      → Chain s.cells null xs
      → length xs < fuel
      → source ≢ null
      → s.rest source ≡ some v
      → n ≢ null
      → d ≢ null
      → s.cells n ≡ none
      → Yields (list_append fuel n d (first xs null) source s) (λ head t.
        (head ≡ first (xs ++ (n, d) ∷ []) null)
        × Chain t.cells null (xs ++ (n, d) ∷ [])
        × (t.rest ≡ write s.rest d (some v))
        × SameOutside (xs ++ (n, d) ∷ []) s.cells t.cells)
  unfolding list_append
  list_append-append fuel n d source v [] ch h ne here nn nd unused =
      rw (new_node-ok s n d source v ne here nn nd) (
        refl,
        (nn, write_self s.cells n (some (node d null)), refl, tt),
        refl,
        λ p out. write-ne s.cells n p (some (node d null)) (ground arith),
      )
  list_append-append fuel n d source v (c ∷ xs) ch h ne here nn nd unused =
      let fresh = node d null in
      let s' = record s { cells = write s.cells n (some fresh); rest = write s.rest d (some v) } in
      let out : has n (c ∷ xs) ≡ false = not-has_of_none s.cells null n (c ∷ xs) ch unused in
      let ch' = Chain-write s.cells null (c ∷ xs) n (some fresh) out ch in
      let new : Chain s'.cells null ((n, d) ∷ []) =
        (nn, write_self s.cells n (some fresh), refl, tt) in
      let l = last c xs in
      let (l_ne, l_here, _) = last-linked s'.cells null c xs ch' in
      rw
        (
          new_node-ok s n d source v ne here nn nd,
          first-ne-null s.cells c.0 c.1 xs ch,
          ◌>>=◌,
          last_node-ok s' fuel c xs ch' (omega arith),
          ◌>>◌,
          set_next-ok l.0 l.1 null s' l_ne l_here n,
        )
        (
          refl,
          Chain-link s'.cells null null c xs ((n, d) ∷ []) ch' new
              (λ p i. not-has_single n p d (c ∷ xs) out i),
          refl,
          λ p o.
              let (before, behind) = not-has-append p (c ∷ xs) ((n, d) ∷ []) o in
              link-SameOutside s'.cells n c xs ch' p before
              ∙ write-ne s.cells n p (some fresh) (ne_of_not-has p n d [] behind),
        )

  -- `list_extend` joins two lists that share no node, without copying: it writes to the first list
  -- only.
  pub list_extend-append :
      (fuel : ℕ) (xs ys : Cells Ptr)
      → Chain s.cells null xs
      → Chain s.cells null ys
      → ((p : Ptr) → has p xs ≡ true → has p ys ≡ false)
      → length xs < fuel
      → Yields (list_extend fuel (first xs null) (first ys null) s) (λ head t.
        (head ≡ first (xs ++ ys) null)
        × Chain t.cells null (xs ++ ys)
        × (t.rest ≡ s.rest)
        × SameOutside xs s.cells t.cells)
  unfolding list_extend
  list_extend-append fuel [] ys ch d apart h = (refl, d, refl, λ p o. refl)
  list_extend-append fuel (c ∷ xs) ys ch d apart h =
      let l = last c xs in
      let (l_ne, l_here, _) = last-linked s.cells null c xs ch in
      rw
        (
          first-ne-null s.cells c.0 c.1 xs ch,
          ◌>>=◌,
          last_node-ok s fuel c xs ch (omega arith),
          ◌>>◌,
          set_next-ok l.0 l.1 null s l_ne l_here (first ys null),
        )
        (
          refl,
          Chain-link s.cells null null c xs ys ch d apart,
          refl,
          link-SameOutside s.cells (first ys null) c xs ch,
        )
