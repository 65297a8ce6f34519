-- ===== src/Sqlite/Closing.antt =====
-- The database handle in the programs that run one script.
use small_project_for_life_w.Base.{
  ℕ, ◌≡◌, ◌≢◌, refl, true, false, Bool-cases, inl, inr, List, [], ◌∷◌, ◌==◌, arith, ◌+◌,
}
use small_project_for_life_w.Sqlite.{
  Script, Answers, SqlCall, opens, closes, frees, executes, script_main,
}

abbrev pub count_closes : List SqlCall → ℕ
count_closes [] = 0
count_closes (closes ∷ cs) = 1 + count_closes cs
count_closes (opens ∷ cs) = count_closes cs
count_closes (frees ∷ cs) = count_closes cs
count_closes (executes sql ∷ cs) = count_closes cs

-- A database that was opened is closed once, whatever becomes of the script; the handle of one
-- that could not be opened is never closed.
pub script_main-closes :
    (script : Script) (a : Answers)
    → (a.open_rc ≡ 0 → count_closes (script_main script a).1 ≡ 1)
      × (a.open_rc ≢ 0 → count_closes (script_main script a).1 ≡ 0)
unfolding script_main
script_main-closes script a = (
  λ fine.
      let e : (a.open_rc == 0) ≡ true = ground arith in
      elim (Bool-cases (a.exec_rc == 0)) [
        | inl ok ↦ rw (e, ok) (omega arith)
        | inr failed ↦ rw (e, failed) (omega arith)
      ],
  λ bad. let e : (a.open_rc == 0) ≡ false = ground arith in rw e refl,
)
