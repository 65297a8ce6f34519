-- ===== src/Sqlite/Samples.antt =====
-- The theorems on the programs for sqlite, at a query with two rows and at one that fails.
use small_project_for_life_w.Base.{
  ℕ, ◌≡◌, refl, true, none, some, List, [], ◌∷◌, ◌==◌, ◌-◌, arith, if◌then◌else◌,
}
use small_project_for_life_w.Sqlite.Stmt.{
  Value, text, other, StmtApi, finalizes, closes_db, stmt_main, show_row, show_value,
}
use small_project_for_life_w.Sqlite.Steps.{stmt_main-Delivers, stmt_main_endless}

-- A statement with so many rows left, each of a text and a NULL: SQLITE_ROW is 100.
abbrev counted_rows : StmtApi ℕ ℕ
counted_rows = record {
  step = λ n. (if n == 0 then 101 else 100, n - 1);
  columns = λ n. text (65 ∷ []) ∷ other ∷ [];
  show_float = λ x. [];
}

-- every step is misuse
abbrev misused : StmtApi ℕ ℕ
misused = record { step = λ n. (21, n); columns = λ n. []; show_float = λ x. [] }

abbrev a_row : List (Value ℕ)
a_row = text (65 ∷ []) ∷ other ∷ []

stmt_main-Delivers_example :
    stmt_main counted_rows true 3 2
    ≡ some (0, 65 ∷ 44 ∷ 32 ∷ 10 ∷ 65 ∷ 44 ∷ 32 ∷ 10 ∷ [], finalizes ∷ closes_db ∷ [])
unfolding show_row show_value
stmt_main-Delivers_example =
    stmt_main-Delivers counted_rows 3 2 (a_row ∷ a_row ∷ [])
      (ground arith, refl, (ground arith, refl, refl)) (omega arith)

stmt_main_endless_example : stmt_main misused true 5 0 ≡ none
stmt_main_endless_example = stmt_main_endless misused 5 0 (λ n. ground arith)
