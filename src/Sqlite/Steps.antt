-- ===== src/Sqlite/Steps.antt =====
-- The loop of sqlstmt.c ends exactly if sqlite says that it is done.
use small_project_for_life_w.Base.{
  ℕ, zero, suc, ◌≡◌, ◌<◌, refl, ◌≢◌, true, false, none, some, List, [], ◌∷◌, ◌++◌, ◌==◌, arith,
  length,
}
use small_project_for_life_w.Sqlite.{Bytes}
use small_project_for_life_w.Sqlite.Stmt.{
  Value, StmtApi, finalizes, closes_db, sqlite_done, show_row, stmt_loop, stmt_main,
}

module _ {F S : Type 0} (api : StmtApi F S) where
  -- From `s` on the steps find these rows, and then sqlite is done.
  abbrev pub Delivers : S → List (List (Value F)) → Type 0
  Delivers s [] = (api.step s).0 ≡ sqlite_done
  Delivers s (row ∷ rows) =
      ((api.step s).0 ≢ sqlite_done)
      × (api.columns (api.step s).1 ≡ row)
      × Delivers (api.step s).1 rows

  abbrev pub rows_text : List (List (Value F)) → Bytes
  rows_text [] = []
  rows_text (row ∷ rows) = show_row api row ++ rows_text rows

  abbrev pub after_steps : ℕ → S → S
  after_steps zero s = s
  after_steps (suc n) s = after_steps n (api.step s).1

  loop-Delivers :
      (fuel : ℕ) (s : S) (rows : List (List (Value F)))
      → Delivers s rows
      → length rows < fuel
      → stmt_loop api fuel s ≡ some (rows_text rows)
  unfolding stmt_loop
  loop-Delivers zero s rows d h = absurd (omega arith)
  loop-Delivers (suc fuel) s [] d h =
      let done : ((api.step s).0 == sqlite_done) ≡ true = ground arith in rw done refl
  loop-Delivers (suc fuel) s (row ∷ rows) (more, found, d) h =
      let not_done : ((api.step s).0 == sqlite_done) ≡ false = ground arith in
      rw (not_done, loop-Delivers fuel (api.step s).1 rows d (omega arith), found) refl

  -- The loop prints each row that sqlite finds, in order, and then ends, in one round more than
  -- there are rows.
  pub stmt_main-Delivers :
      (fuel : ℕ) (s : S) (rows : List (List (Value F)))
      → Delivers s rows
      → length rows < fuel
      → stmt_main api true fuel s ≡ some (0, rows_text rows, finalizes ∷ closes_db ∷ [])
  unfolding stmt_main
  stmt_main-Delivers fuel s rows d h = rw (loop-Delivers fuel s rows d h) refl

  loop_endless :
      (fuel : ℕ) (s : S)
      → ((n : ℕ) → (api.step (after_steps n s)).0 ≢ sqlite_done)
      → stmt_loop api fuel s ≡ none
  unfolding stmt_loop
  loop_endless zero s never = refl
  loop_endless (suc fuel) s never =
      let first : (api.step s).0 ≢ sqlite_done = never 0 in
      let not_done : ((api.step s).0 == sqlite_done) ≡ false = ground arith in
      rw (not_done, loop_endless fuel (api.step s).1 (λ n. never (suc n))) refl

  -- If no step is ever the last, as where the query could not be prepared and every step reports
  -- an error, `main` never returns.
  pub stmt_main_endless :
      (fuel : ℕ) (s : S)
      → ((n : ℕ) → (api.step (after_steps n s)).0 ≢ sqlite_done)
      → stmt_main api true fuel s ≡ none
  unfolding stmt_main
  stmt_main_endless fuel s never = rw (loop_endless fuel s never) refl
