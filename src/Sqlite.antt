-- ===== src/Sqlite.antt =====
-- The programs on sqlite in 20170808: five that run one script, sqlinsert.c, sqlselects.c,
-- sqlupdate.c, sqldelete.c and sqlcreatetable.c, sqllink.c, which only opens the database, and in
-- Sqlite/Stmt sqlstmt.c, which steps through a query. What sqlite answers is an argument.
pub mod Stmt
pub mod Steps
pub mod Closing
pub mod Scripts
mod Samples
use small_project_for_life_w.Base.{
  ℕ, Bool, true, false, Option, none, some, List, [], ◌∷◌, ◌++◌, ◌==◌, if◌then◌else◌,
}

abbrev pub Bytes : Type 0
Bytes = List ℕ

-- What `sqlite3_exec` hands to the callback: the columns of a row, each with its name and its text,
-- if it is not NULL.
abbrev pub Row : Type 0
Row = List (Bytes × Option Bytes)

-- The two streams that the program prints to.
pub data Stream : Type 0 where
  stdout stderr : Stream

abbrev pub Output : Type 0
Output = List (Stream × Bytes)

-- In what the programs differ: their script, the stream on which they say that the database is
-- open, their last message, what the callback prints to `stderr` before a row, and behind it.
pub record Script : Type 0 where
  pub sql : Bytes
  pub opened_on : Stream
  pub done : Bytes
  pub heading : Option Bytes
  pub trailer : Bytes

-- What `sqlite3_open`, `sqlite3_errmsg` and `sqlite3_exec` answer, the last with the rows for which
-- it calls the callback, which returns 0 and so never stops it.
pub record Answers : Type 0 where
  pub open_rc : ℕ
  pub errmsg : Bytes
  pub rows : List Row
  pub exec_rc : ℕ
  pub exec_msg : Bytes

pub data SqlCall : Type 0 where
  opens closes frees : SqlCall
  executes : Bytes → SqlCall

abbrev pub null_text : Bytes
null_text = 78 ∷ 85 ∷ 76 ∷ 76 ∷ []

-- "%s = %s\n"
abbrev pub column_line : Bytes × Option Bytes → Bytes
column_line (name, none) = name ++ 32 ∷ 61 ∷ 32 ∷ null_text ++ 10 ∷ []
column_line (name, some text) = name ++ 32 ∷ 61 ∷ 32 ∷ text ++ 10 ∷ []

unfoldable pub column_lines : Row → Output
column_lines [] = []
column_lines (c ∷ cs) = (stdout, column_line c) ∷ column_lines cs

-- `callback`
unfoldable pub callback : Script → Row → Output
unfolding column_lines
callback script row =
    (elim script.heading [ none ↦ [] | some text ↦ (stderr, text) ∷ [] ])
    ++ column_lines row
    ++ (stdout, 10 ∷ script.trailer) ∷ []

unfoldable pub callbacks : Script → List Row → Output
unfolding callback
callbacks script [] = []
callbacks script (row ∷ rows) = callback script row ++ callbacks script rows

-- "Can't open database: %s\n", "Opened database successfully\n" and "SQL error: %s\n"
abbrev pub cannot_open : Bytes → Bytes
cannot_open msg =
    67 ∷ 97 ∷ 110 ∷ 39 ∷ 116 ∷ 32 ∷ 111 ∷ 112 ∷ 101 ∷ 110 ∷ 32 ∷ 100 ∷ 97 ∷ 116 ∷ 97 ∷ 98 ∷ 97 ∷ 115
      ∷ 101 ∷ 58 ∷ 32 ∷ msg
    ++ 10 ∷ []

abbrev pub opened_message : Bytes
opened_message =
    79 ∷ 112 ∷ 101 ∷ 110 ∷ 101 ∷ 100 ∷ 32 ∷ 100 ∷ 97 ∷ 116 ∷ 97 ∷ 98 ∷ 97 ∷ 115 ∷ 101 ∷ 32 ∷ 115
    ∷ 117 ∷ 99 ∷ 99 ∷ 101 ∷ 115 ∷ 115 ∷ 102 ∷ 117 ∷ 108 ∷ 108 ∷ 121 ∷ 10 ∷ []

abbrev pub sql_error : Bytes → Bytes
sql_error msg = 83 ∷ 81 ∷ 76 ∷ 32 ∷ 101 ∷ 114 ∷ 114 ∷ 111 ∷ 114 ∷ 58 ∷ 32 ∷ msg ++ 10 ∷ []

-- `main` of the five programs: what it prints, and the calls that it makes; it returns 0.
unfoldable pub script_main : Script → Answers → Output × List SqlCall
unfolding callbacks
script_main script a =
    if a.open_rc == 0
    then (
      (script.opened_on, opened_message) ∷ callbacks script a.rows
          ++ (if a.exec_rc == 0
              then (stdout, script.done) ∷ []
              else (stderr, sql_error a.exec_msg) ∷ []),
      opens ∷ executes script.sql ∷ (if a.exec_rc == 0 then closes ∷ [] else frees ∷ closes ∷ []),
    )
    else ((stderr, cannot_open a.errmsg) ∷ [], opens ∷ [])

-- `main` of sqllink.c
unfoldable pub link_main : Answers → Output × List SqlCall
link_main a =
    if a.open_rc == 0
    then ((stderr, opened_message) ∷ [], opens ∷ closes ∷ [])
    else ((stderr, cannot_open a.errmsg) ∷ [], opens ∷ [])
