-- ===== src/DevList/Iterate.antt =====
-- The walks of list.c by position and by call: `list_set`, `list_iter` and `list_cycle`.
use small_project_for_life_w.Base.{
  ℕ, zero, suc, ◌+◌, ◌<◌, ◌≡◌, refl, sym, ap, ◌∙◌, true, false, none, some, List, [], ◌∷◌, ◌++◌,
  arith, ◌==◌, length, length-append, append_assoc, pos,
}
use small_project_for_life_w.Memory.{Ptr, null, ok, Yields, pure, ◌>>=◌, ◌>>◌}
use small_project_for_life_w.Memory.Chain.{Cells, first, Chain, load-ok, set_item-ok}
use small_project_for_life_w.Memory.Relink.{Chain-back, Chain-set, not-has-append}
use small_project_for_life_w.DevList.{Mem, Do, index_loop, list_set, Cursor, list_iter}
use small_project_for_life_w.DevList.Read.{at_from-zero, find_pos-ok, at-append}

-- The calls of `list_iter` that a client makes until one returns 0, with what they store.
pub iterate : ℕ → ℕ → Ptr → Cursor → Do (List (Ptr × ℕ) × Cursor)
iterate fuel zero head c = pure ([], c)
iterate fuel (suc calls) head c = do
  (r, c') ← list_iter fuel head c
  elim r [
    | none ↦ pure ([], c')
    | some x ↦ do (xs, c'') ← iterate fuel calls head c'; pure (x ∷ xs, c'')
  ]

-- every node's data with its index, from `i` on
abbrev pub indexed : Cells Ptr → ℕ → List (Ptr × ℕ)
indexed [] i = []
indexed ((a, d) ∷ xs) i = (d, i) ∷ indexed xs (i + 1)

module _ (s : Mem) where
  index_loop-ok :
      (k : ℕ) (pre post : Cells Ptr) (a d : Ptr) (i : ℕ)
      → Chain s.cells null (pre ++ (a, d) ∷ post)
      → length pre < k
      → index_loop k a (first (pre ++ (a, d) ∷ post) null) i s ≡ ok (i + length pre) s
  unfolding index_loop
  index_loop-ok zero pre post a d i ch h = absurd (omega arith)
  index_loop-ok (suc k) [] post a d i ch h =
      let same : (a == a) ≡ true = ground arith in rw same (ap (λ (n : ℕ). ok n s) (omega arith))
  index_loop-ok (suc k) ((b, w) ∷ pre) post a d i (ne, here, out, ch) h =
      let (_, away) = not-has-append b pre ((a, d) ∷ post) out in
      let other : (b == a) ≡ false = ground arith in
      rw (other, load-ok b w (first (pre ++ (a, d) ∷ post) null) s ne here)
        (index_loop-ok k pre post a d (i + 1) ch (omega arith)
          ∙ ap (λ (n : ℕ). ok n s) (omega arith))

  -- a call of `list_iter` behind the nodes `pre`
  iter-some :
      (fuel : ℕ) (pre post : Cells Ptr) (a d : Ptr)
      → Chain s.cells null (pre ++ (a, d) ∷ post)
      → length pre < fuel
      → list_iter fuel (first (pre ++ (a, d) ∷ post) null) (record { p = a; flag = true }) s
        ≡ ok (some (d, length pre), record { p = first post null; flag = true }) s
  unfolding list_iter
  iter-some fuel pre post a d ch h =
      let (ne, here, out, back) = Chain-back s.cells null pre ((a, d) ∷ post) ch in
      let not_null : (a == null) ≡ false = ground arith in
      rw
        (
          not_null,
          ◌>>=◌,
          load-ok a d (first post null) s ne here,
          index_loop-ok fuel pre post a d 0 ch h,
        )
        (ap (λ (n : ℕ). ok (some (d, n), record { p = first post null; flag = true }) s)
          (omega arith))

  iter-none :
      (fuel : ℕ) (head : Ptr)
      → list_iter fuel head (record { p = null; flag = true }) s
        ≡ ok (none, record { p = null; flag = false }) s
  unfolding list_iter
  iter-none fuel head = refl

  -- `whole` is the list, of which the calls before have stored the first `i` nodes
  iterate-from :
      (fuel calls i : ℕ) (whole pre post : Cells Ptr)
      → whole ≡ pre ++ post
      → i ≡ length pre
      → Chain s.cells null whole
      → length whole < fuel
      → length post < calls
      → iterate fuel calls (first whole null) (record { p = first post null; flag = true }) s
        ≡ ok (indexed post i, record { p = null; flag = false }) s
  unfolding iterate
  iterate-from fuel zero i whole pre post e n ch h h' = absurd (omega arith)
  iterate-from fuel (suc calls) i whole pre [] e n ch h h' =
      rw (◌>>=◌, iter-none fuel (first whole null))
  iterate-from fuel (suc calls) i whole pre ((a, d) ∷ post) e n ch h h' =
      let called =
        iter-some fuel pre post a d (rw e at ch)
          (omega (arith, ap length e, length-append pre ((a, d) ∷ post))) in
      rw (
        ◌>>=◌,
        e,
        called,
        ← n,
        ◌>>=◌,
        iterate-from fuel calls (i + 1) whole (pre ++ (a, d) ∷ []) post
            (e ∙ sym (append_assoc pre ((a, d) ∷ []) post))
            (omega (arith, length-append pre ((a, d) ∷ []))) ch h (omega arith),
      )

  first-call :
      (fuel : ℕ) (xs : Cells Ptr) (p : Ptr)
      → list_iter fuel (first xs null) (record { p = p; flag = false }) s
        ≡ list_iter fuel (first xs null) (record { p = first xs null; flag = true }) s
  unfolding list_iter
  first-call fuel xs p = refl

  -- From a fresh cursor, calls of `list_iter` store the data of every node with its index, in
  -- order, then return 0 and leave a fresh cursor; the list is not changed.
  pub iterate-indexed :
      (fuel calls : ℕ) (xs : Cells Ptr) (p : Ptr)
      → Chain s.cells null xs
      → length xs < fuel
      → length xs < calls
      → iterate fuel calls (first xs null) (record { p = p; flag = false }) s
        ≡ ok (indexed xs 0, record { p = null; flag = false }) s
  unfolding iterate
  iterate-indexed fuel zero xs p ch h h' = absurd (omega arith)
  iterate-indexed fuel (suc calls) xs p ch h h' =
      rw (◌>>=◌, first-call fuel xs p) (iterate-from fuel (suc calls) 0 xs [] xs refl refl ch h h')

  -- `list_set` at a position of the list returns 1 and gives that node the new data pointer; the
  -- block of the old data is neither freed nor changed.
  pub list_set-at :
      (fuel : ℕ) (pre post : Cells Ptr) (a d new : Ptr)
      → Chain s.cells null (pre ++ (a, d) ∷ post)
      → length (pre ++ (a, d) ∷ post) < fuel
      → Yields
          (list_set fuel (first (pre ++ (a, d) ∷ post) null) (pos (length pre)) new s)
          (λ r t. (r ≡ 1) × Chain t.cells null (pre ++ (a, new) ∷ post) × (t.rest ≡ s.rest))
  unfolding list_set
  list_set-at fuel pre post a d new ch h =
      let (ne, here, out, back) = Chain-back s.cells null pre ((a, d) ∷ post) ch in
      let not_null : (a == null) ≡ false = ground arith in
      rw
        (
          ◌>>=◌,
          find_pos-ok s fuel (pre ++ (a, d) ∷ post) (pos (length pre)) 0 ch h,
          at_from-zero (pre ++ (a, d) ∷ post) (pos (length pre)),
          at-append pre post (a, d),
          not_null,
          ◌>>◌,
          set_item-ok a d (first post null) s ne here new,
        )
        (refl, Chain-set s.cells null pre post a d new ch, refl)
