-- ===== src/Db/Program.antt =====
-- auto_imi_db_bin/main.c, which sets three values and reads them back.
use small_project_for_life_w.Base.{
  true, Option, none, some, List, [], ◌∷◌, ◌++◌, ◌==◌, if◌then◌else◌, length, drop, replicate, ℤ,
  pos,
}
use small_project_for_life_w.Text.{Bytes}
use small_project_for_life_w.Db.Keys.{db_keys}
use small_project_for_life_w.Db.{
  Files, IniApi, DbName, DbInfoKeys, imi_db_mi_get_value, imi_db_mi_set_value,
}

-- what `memcpy` leaves in the buffer, if the text fits
abbrev pub copied : Bytes → Bytes → Bytes
copied text buf = text ++ drop (length text) buf

-- the string that "%s" prints; `none` if the buffer has no NUL
unfoldable pub c_string : Bytes → Option Bytes
c_string [] = none
c_string (c ∷ cs) =
    let rest = c_string cs in
    if c == 0 then some [] else elim rest [ none ↦ none | some s ↦ some (c ∷ s) ]

-- `char test_out[32]` behind `bzero`
abbrev pub blank_buffer : Bytes
blank_buffer = replicate 32 0

abbrev pub bind_status : Bytes
bind_status =
    78 ∷ 86 ∷ 77 ∷ 46 ∷ 73 ∷ 80 ∷ 67 ∷ 58 ∷ 98 ∷ 105 ∷ 110 ∷ 100 ∷ 95 ∷ 115 ∷ 116 ∷ 97 ∷ 116 ∷ 117
    ∷ 115 ∷ []

abbrev pub motor_reset : Bytes
motor_reset =
    82 ∷ 65 ∷ 77 ∷ 46 ∷ 82 ∷ 85 ∷ 78 ∷ 58 ∷ 109 ∷ 111 ∷ 116 ∷ 111 ∷ 114 ∷ 95 ∷ 114 ∷ 101 ∷ 115 ∷ 101
    ∷ 116 ∷ []

abbrev pub runlevel : Bytes
runlevel = 77 ∷ 69 ∷ 77 ∷ 46 ∷ 114 ∷ 117 ∷ 110 ∷ 108 ∷ 101 ∷ 118 ∷ 101 ∷ 108 ∷ []

-- "2", "4" and "normal"
abbrev pub two_text : Bytes
two_text = 50 ∷ []

abbrev pub four_text : Bytes
four_text = 52 ∷ []

abbrev pub normal_text : Bytes
normal_text = 110 ∷ 111 ∷ 114 ∷ 109 ∷ 97 ∷ 108 ∷ []

module _ {D : Type 0} (api : IniApi D) where
  -- One call of each: the buffer that was `buf`, the databases and the files.
  unfoldable pub set_and_get :
      List (DbName D) → Files → (key value buf : Bytes) → Bytes × List (DbName D) × Files
  set_and_get dbs files key value buf =
      let (_, dbs', files') = imi_db_mi_set_value api dbs files key value true in
      let (_, text) = imi_db_mi_get_value api dbs' key (pos 32) in (copied text buf, dbs', files')

  -- The loop over the table: the result of each call, and what the buffer then holds.
  unfoldable pub show_all : List (DbName D) → List DbInfoKeys → List (ℤ × Bytes)
  show_all dbs [] = []
  show_all dbs (k ∷ ks) =
      let (ret, text) = imi_db_mi_get_value api dbs k.key (pos 32) in
      (ret, copied text blank_buffer) ∷ show_all dbs ks

  -- What `main` prints of its three values, behind the loop. The second value is copied into the
  -- buffer as the first has left it.
  unfoldable pub main_values : List (DbName D) → Files → List (Option Bytes)
  main_values dbs files =
      let (buf₁, dbs₁, files₁) = set_and_get dbs files bind_status two_text blank_buffer in
      let (buf₂, dbs₂, files₂) = set_and_get dbs₁ files₁ motor_reset four_text buf₁ in
      let (buf₃, dbs₃, files₃) = set_and_get dbs₂ files₂ runlevel normal_text blank_buffer in
      c_string buf₁ ∷ c_string buf₂ ∷ c_string buf₃ ∷ []

-- its table, which is a copy of that in imi_db_mi.c
abbrev pub main_keys : List DbInfoKeys
main_keys = db_keys
