-- ===== src/Sqlite/Stmt.antt =====
-- 20170808/sqlstmt.c: a query, stepped through row by row. `sqlite3_step` and what it finds are a
-- parameter, as is what "%g" prints.
use small_project_for_life_w.Base.{
  ℕ, zero, suc, ◌+◌, Bool, Option, none, some, List, [], ◌∷◌, ◌++◌, ◌==◌, if◌then◌else◌, ℤ, pos,
  negsuc,
}
use small_project_for_life_w.Sem.{digits}
use small_project_for_life_w.Sqlite.{Bytes}

-- `sqlite3_column_type` with the value of the column; `other` is NULL or a blob.
pub data Value (F : Type 0) : Type 0 where
  text : Bytes → Value F
  integer : ℤ → Value F
  float : F → Value F
  other : Value F

pub record StmtApi (F S : Type 0) : Type 0 where
  pub step : S → ℕ × S
  pub columns : S → List (Value F)
  pub show_float : F → Bytes

-- SQLITE_DONE
abbrev pub sqlite_done : ℕ
sqlite_done = 101

-- "%d" of 32 bits
pub show_int : ℤ → Bytes
show_int (pos n) = digits 10 n []
show_int (negsuc n) = 45 ∷ digits 10 (n + 1) []

abbrev pub comma : Bytes
comma = 44 ∷ 32 ∷ []

pub data StmtCall : Type 0 where
  finalizes closes_db : StmtCall

module _ {F S : Type 0} (api : StmtApi F S) where
  -- the `switch` on the type of a column
  unfoldable pub show_value : Value F → Bytes
  show_value (text t) = t ++ comma
  show_value (integer i) = show_int i ++ comma
  show_value (float x) = api.show_float x ++ comma
  show_value other = []

  unfoldable pub show_row : List (Value F) → Bytes
  show_row [] = 10 ∷ []
  show_row (v ∷ vs) = show_value v ++ show_row vs

  -- the `while`, from a state of the statement on: what it prints, if it ends
  unfoldable pub stmt_loop : (fuel : ℕ) → S → Option Bytes
  stmt_loop zero s = none
  stmt_loop (suc fuel) s =
      let (rc, t) = api.step s in
      let rest = stmt_loop fuel t in
      if rc == sqlite_done
      then some []
      else elim rest [ none ↦ none | some out ↦ some (show_row (api.columns t) ++ out) ]

  -- `main` up to `getc`, with whether there is a handle for the database: the result, what is
  -- printed behind the first two lines, and the last calls
  unfoldable pub stmt_main : (handle : Bool) → (fuel : ℕ) → S → Option (ℕ × Bytes × List StmtCall)
  stmt_main handle fuel s =
      if handle
      then elim (stmt_loop fuel s) [
        | none ↦ none
        | some out ↦ some (0, out, finalizes ∷ closes_db ∷ [])
      ]
      else some (1, [], [])
