-- ===== src/DevList/Pop.antt =====
-- `list_pop` and `list_pop_tail`.
use small_project_for_life_w.Base.{
  ℕ, zero, suc, ◌<◌, ◌≡◌, refl, sym, ◌∙◌, ◌≢◌, true, false, none, some, [], ◌∷◌, ◌++◌, arith, ◌==◌,
  length, length-append, ℤ, pos, append-nil,
}
use small_project_for_life_w.Memory.{Ptr, null, node, write, ok, Yields, ◌>>=◌, ◌>>◌}
use small_project_for_life_w.Memory.Chain.{
  Cells, first, has, Chain, first-ne-null, load-ok, set_next-ok, free_node-ok, Chain-write,
}
use small_project_for_life_w.Memory.Relink.{
  last, last-linked, Chain-link, write-ne, write_self, ne_of_has, not-has_front, Chain-unlink,
  first-ne-null_append, Chain-front, Chain-back, Chain-apart,
}
use small_project_for_life_w.DevList.{
  DevInfo, Mem, load_block, free_block, node_before, second_last, list_pop, list_pop_tail,
}
use small_project_for_life_w.DevList.Read.{at, at_from-zero, find_pos-ok, at-append}

free_block-ok :
    (s : Mem) (d : Ptr) (v : DevInfo)
    → d ≢ null
    → s.rest d ≡ some v
    → free_block d s ≡ ok tt (record s { rest = write s.rest d none })
unfolding free_block load_block
free_block-ok s d v ne here = ground arith

module _ (s : Mem) where
  -- the walk to the node before `a`, which is not the first
  node_before-ok :
      (k : ℕ) (a : Ptr) (c : Ptr × Ptr) (xs : Cells Ptr)
      → Chain s.cells a (c ∷ xs)
      → has a (c ∷ xs) ≡ false
      → length xs < k
      → node_before k a c.0 s ≡ ok (last c xs).0 s
  unfolding node_before
  node_before-ok zero a c xs ch out h = absurd (omega arith)
  node_before-ok (suc k) a (p, v) [] (ne, here, _, ch) out h =
      let hit : (a == a) ≡ true = ground arith in rw (load-ok p v a s ne here, hit)
  node_before-ok (suc k) a (p, v) ((b, w) ∷ xs) (ne, here, _, ch) out h =
      let miss : (b == a) ≡ false = ground arith in
      rw (load-ok p v b s ne here, miss)
        (node_before-ok k a (b, w) xs ch (ground arith) (omega arith))

  second_last-ok :
      (k : ℕ) (c : Ptr × Ptr) (xs : Cells Ptr) (a d : Ptr)
      → Chain s.cells null ((c ∷ xs) ++ (a, d) ∷ [])
      → length xs < k
      → second_last k c.0 s ≡ ok (last c xs).0 s
  unfolding second_last
  second_last-ok zero c xs a d ch h = absurd (omega arith)
  second_last-ok (suc k) (p, v) [] a d (ne, here, _, (ne', here', _, _)) h =
      rw (load-ok p v a s ne here, load-ok a d null s ne' here')
  second_last-ok (suc k) (p, v) ((b, w) ∷ xs) a d (ne, here, _, (ne', here', out', ch)) h =
      rw
        (
          load-ok p v b s ne here,
          load-ok b w (first (xs ++ (a, d) ∷ []) null) s ne' here',
          first-ne-null_append s.cells xs [] (a, d) ch,
        )
        (second_last-ok k (b, w) xs a d (ne', here', out', ch) (omega arith))

module _ (s : Mem) where
  -- No position: `list_pop` returns 0 and changes nothing.
  pub list_pop-none :
      (fuel : ℕ) (xs : Cells Ptr) (p : ℤ)
      → Chain s.cells null xs
      → length xs < fuel
      → at xs p ≡ none
      → list_pop fuel (first xs null) p s ≡ ok (0, first xs null) s
  unfolding list_pop
  list_pop-none fuel [] p ch h e = refl
  list_pop-none fuel (c ∷ xs) p ch h e = rw (
    first-ne-null s.cells c.0 c.1 xs ch,
    ◌>>=◌,
    find_pos-ok s fuel (c ∷ xs) p 0 ch h,
    at_from-zero (c ∷ xs) p,
    e,
  )

  -- `list_pop` at a position of the list returns 1, takes that node out of the chain and frees it.
  -- It frees the node's data too, unless the node is the first: then the data leaks.
  pub list_pop-at :
      (fuel : ℕ) (pre post : Cells Ptr) (a d : Ptr) (v : DevInfo)
      → Chain s.cells null (pre ++ (a, d) ∷ post)
      → length (pre ++ (a, d) ∷ post) < fuel
      → d ≢ null
      → s.rest d ≡ some v
      → Yields
          (list_pop fuel (first (pre ++ (a, d) ∷ post) null) (pos (length pre)) s)
          (λ (r, head) t.
            (r ≡ 1)
            × (head ≡ first (pre ++ post) null)
            × Chain t.cells null (pre ++ post)
            × (t.cells a ≡ none)
            × (t.rest ≡ elim pre [ [] ↦ s.rest | _ ∷ _ ↦ write s.rest d none ]))
  unfolding list_pop
  list_pop-at fuel [] post a d v (ne, here, out, ch) h nd block =
      let q = first post null in
      let not_null : (a == null) ≡ false = ground arith in
      let same : (a == a) ≡ true = ground arith in
      rw
        (
          not_null,
          ◌>>=◌,
          find_pos-ok s fuel ((a, d) ∷ post) (pos 0) 0 (ne, here, out, ch) h,
          not_null,
          same,
          ◌>>=◌,
          load-ok a d q s ne here,
          ◌>>◌,
          free_node-ok a d q s ne here,
        )
        (refl, refl, Chain-write s.cells null post a none out ch, write_self s.cells a none, refl)
  list_pop-at fuel (c ∷ pre) post a d v ch h nd block =
      let q = first post null in
      let l = last c pre in
      let front = Chain-front s.cells null (c ∷ pre) ((a, d) ∷ post) ch in
      let (ne, here, out, back) = Chain-back s.cells null (c ∷ pre) ((a, d) ∷ post) ch in
      let apart = Chain-apart s.cells null (c ∷ pre) ((a, d) ∷ post) ch in
      let out_front : has a (c ∷ pre) ≡ false = not-has_front a d (c ∷ pre) post apart in
      let (l_ne, l_here, among) = last-linked s.cells a c pre front in
      let l_ne_a : a ≢ l.0 = ne_of_has l.0 a (c ∷ pre) among out_front in
      let not_null : (a == null) ≡ false = ground arith in
      let not_head : (a == c.0) ≡ false = ground arith in
      let s₁ = record s { cells = write s.cells l.0 (some (node l.1 q)) } in
      let s₂ = record s₁ { rest = write s.rest d none } in
      let here₁ : s₁.cells a ≡ some (node d q) =
        write-ne s.cells l.0 a (some (node l.1 q)) l_ne_a ∙ here in
      rw
        (
          first-ne-null s.cells c.0 c.1 (pre ++ (a, d) ∷ post) ch,
          ◌>>=◌,
          find_pos-ok s fuel ((c ∷ pre) ++ (a, d) ∷ post) (pos (suc (length pre))) 0 ch h,
          at_from-zero ((c ∷ pre) ++ (a, d) ∷ post) (pos (suc (length pre))),
          at-append (c ∷ pre) post (a, d),
          not_null,
          not_head,
          ◌>>=◌,
          node_before-ok s fuel a c pre front out_front
              (omega (arith, length-append pre ((a, d) ∷ post))),
          load-ok a d q s ne here,
          ◌>>◌,
          set_next-ok l.0 l.1 a s l_ne l_here q,
          free_block-ok s₁ d v nd block,
          free_node-ok a d q s₂ ne here₁,
        )
        (refl, refl, Chain-unlink s.cells c pre post a d ch, write_self s₁.cells a none, refl)

  -- `list_pop_tail` returns 0 for an empty list. Otherwise it returns 1, takes the last node out of
  -- the chain, and frees the node and its data.
  pub list_pop_tail-nil : (fuel : ℕ) → list_pop_tail fuel null s ≡ ok (0, null) s
  unfolding list_pop_tail
  list_pop_tail-nil fuel = refl

  pub list_pop_tail-append :
      (fuel : ℕ) (pre : Cells Ptr) (a d : Ptr) (v : DevInfo)
      → Chain s.cells null (pre ++ (a, d) ∷ [])
      → length pre < fuel
      → d ≢ null
      → s.rest d ≡ some v
      → Yields (list_pop_tail fuel (first (pre ++ (a, d) ∷ []) null) s) (λ (r, head) t.
        (r ≡ 1)
        × (head ≡ first pre null)
        × Chain t.cells null pre
        × (t.cells a ≡ none)
        × (t.rest ≡ write s.rest d none))
  unfolding list_pop_tail
  list_pop_tail-append fuel [] a d v (ne, here, out, ch) h nd block =
      let not_null : (a == null) ≡ false = ground arith in
      let s₁ = record s { rest = write s.rest d none } in
      rw
        (
          not_null,
          ◌>>=◌,
          load-ok a d null s ne here,
          ◌>>◌,
          free_block-ok s d v nd block,
          free_node-ok a d null s₁ ne here,
        )
        (refl, refl, tt, write_self s.cells a none, refl)
  list_pop_tail-append fuel (c ∷ pre) a d v ch h nd block =
      let l = last c pre in
      let front = Chain-front s.cells null (c ∷ pre) ((a, d) ∷ []) ch in
      let (ne, here, out, back) = Chain-back s.cells null (c ∷ pre) ((a, d) ∷ []) ch in
      let apart = Chain-apart s.cells null (c ∷ pre) ((a, d) ∷ []) ch in
      let gone = not-has_front a d (c ∷ pre) [] apart in
      let (l_ne, l_here, among) = last-linked s.cells a c pre front in
      let s₁ = record s { rest = write s.rest d none } in
      let s₂ = record s₁ { cells = write s.cells a none } in
      let l_here₂ : s₂.cells l.0 ≡ some (node l.1 a) =
        write-ne s.cells a l.0 none (λ e. ne_of_has l.0 a (c ∷ pre) among gone (sym e)) ∙ l_here in
      let front₂ : Chain s₂.cells a (c ∷ pre) = Chain-write s.cells a (c ∷ pre) a none gone front in
      let (_, c_here, _, _) = ch in
      rw
        (
          first-ne-null s.cells c.0 c.1 (pre ++ (a, d) ∷ []) ch,
          ◌>>=◌,
          load-ok c.0 c.1 (first (pre ++ (a, d) ∷ []) null) s ch.0 c_here,
          first-ne-null_append s.cells pre [] (a, d) ch.3,
          ◌>>=◌,
          second_last-ok s fuel c pre a d ch (omega arith),
          load-ok l.0 l.1 a s l_ne l_here,
          load-ok a d null s ne here,
          ◌>>◌,
          free_block-ok s d v nd block,
          free_node-ok a d null s₁ ne here,
          set_next-ok l.0 l.1 a s₂ l_ne l_here₂ null,
        )
        (
          refl,
          refl,
          rw append-nil at (Chain-link s₂.cells a null c pre [] front₂ tt (λ p i. refl)),
          write-ne s₂.cells l.0 a (some (node l.1 null)) (ne_of_has l.0 a (c ∷ pre) among gone)
              ∙ write_self s.cells a none,
          refl,
        )
