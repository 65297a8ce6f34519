-- ===== src/Db.antt =====
-- The settings database of auto_imi_db_bin/src/imi_db_mi.c. The dictionaries of iniparser and the
-- timers of the system are parameters; a file is its bytes, or none if it cannot be opened, and a
-- NULL dictionary is none. The results of the locks on the files are not looked at, and Db/Locks
-- has them beside the other calls on the files.
pub mod Dispatch
pub mod Values
pub mod Save
pub mod Create
pub mod Life
pub mod Locks
pub mod Program
pub mod ReadBack
pub mod Keys
mod Samples
use small_project_for_life_w.Base.{
  ℕ, zero, suc, ◌+◌, ◌-◌, ◌*◌, ◌/◌, ◌%◌, ◌^◌, Bool, true, false, ◌&&◌, not, Option, none, some,
  List, [], ◌∷◌, ◌++◌, ◌==◌, ltb, if◌then◌else◌, get_or, length, take, drop, ℤ, pos, negsuc, is_at,
}
use small_project_for_life_w.Text.{Bytes, string_hash, string_key_value_get}
use small_project_for_life_w.Memory.{Ptr, null, ok, ◌>>=◌, ◌>>◌, pure, Store}
use small_project_for_life_w.Timer.{
  ImiTimer, TimerApi, Do, timer_init, timer_mode_loop, create_event_timer, delete_all_timer,
}

-- `NVM_DB_PATH`, `RAM_INI_PATH` and the file of the factory data
pub data DbPath : Type 0 where
  nvm_db_path ram_ini_path factory_path : DbPath

abbrev pub same_path : DbPath → DbPath → Bool
same_path nvm_db_path nvm_db_path = true
same_path ram_ini_path ram_ini_path = true
same_path factory_path factory_path = true
same_path _ _ = false

abbrev pub Files : Type 0
Files = DbPath → Option Bytes

abbrev pub write_file : Files → DbPath → Bytes → Files
write_file files p bytes q = if same_path q p then some bytes else files q

-- What the database calls of iniparser and dictionary: `iniparser_getstring` with the default NULL,
-- `iniparser_set`, `dictionary_new(0)`, `dictionary_set`, `iniparser_load` on the bytes of a file
-- and `iniparser_dump_ini` as the bytes that it prints.
pub record IniApi (D : Type 0) : Type 0 where
  pub getstring : Option D → Bytes → Option Bytes
  pub ini_set : Option D → Bytes → Bytes → ℤ × Option D
  pub dictionary_new : D
  pub dictionary_set : D → Bytes → Option Bytes → D
  pub load : Bytes → Option D
  pub dump : D → Bytes

-- `db_name_t`
pub record DbName (D : Type 0) : Type 0 where
  pub db : Option D
  pub path : Option DbPath
  pub name : Bytes
  pub hash : ℕ
  pub sync_flag : Bool

-- `db_info_keys_t`, without the description
pub record DbInfoKeys : Type 0 where
  pub key : Bytes
  pub value : Option Bytes

abbrev pub ret_ok : ℤ
ret_ok = pos 0

abbrev pub ret_no_value_err : ℤ
ret_no_value_err = negsuc 0

abbrev pub ret_length_err : ℤ
ret_length_err = negsuc 1

abbrev pub ret_readonly_err : ℤ
ret_readonly_err = negsuc 3

abbrev pub key_offset : ℕ
key_offset = 4

-- the comparison of the unsigned `strlen(s)` with the `int` length
abbrev pub longer : ℕ → ℤ → Bool
longer n (pos len) = ltb len n
longer n (negsuc k) = ltb (2 ^ 64 - suc k) n

-- the names of the four databases
abbrev pub rom_name : Bytes
rom_name = 82 ∷ 79 ∷ 77 ∷ []

abbrev pub nvm_name : Bytes
nvm_name = 78 ∷ 86 ∷ 77 ∷ []

abbrev pub ram_name : Bytes
ram_name = 82 ∷ 65 ∷ 77 ∷ []

abbrev pub mem_name : Bytes
mem_name = 77 ∷ 69 ∷ 77 ∷ []

module _ {D : Type 0} where
  abbrev pub named : Option DbPath → Bytes → DbName D
  named path name = record { db = none; path = path; name = name; hash = 0; sync_flag = false }

  -- the initial value of `db_name`
  abbrev pub db_names : List (DbName D)
  db_names =
      named none rom_name
      ∷ named (some nvm_db_path) nvm_name
      ∷ named (some ram_ini_path) ram_name
      ∷ named none mem_name
      ∷ []

-- How the loop of `imi_db_mi_set_value` ends: by its `return`, by its end, or by its `break`.
pub data Looked (D : Type 0) : Type 0 where
  read_only : Looked D
  missing : Looked D
  stored : ℤ → List (DbName D) → Looked D

-- what the loop comes to when it has passed a database
abbrev pub passed : {D : Type 0} → DbName D → Looked D → Looked D
passed d read_only = read_only
passed d missing = missing
passed d (stored ret ds) = stored ret (d ∷ ds)

-- The tests of `imi_db_mi_save_db_file`: the dictionary to save, and where.
abbrev pub due : {D : Type 0} → DbName D → Option (D × DbPath)
due d = elim d.db [
  | none ↦ none
  | some ini ↦ elim d.path [ none ↦ none | some p ↦ if d.sync_flag then some (ini, p) else none ]
]

module _ {D : Type 0} (api : IniApi D) where
  -- The result, and what is copied to `out_value`.
  pub imi_db_mi_get_value : List (DbName D) → (key : Bytes) → (len : ℤ) → ℤ × Bytes
  imi_db_mi_get_value [] key len = (ret_no_value_err, [])
  imi_db_mi_get_value (d ∷ ds) key len =
      let rest = imi_db_mi_get_value ds key len in
      if d.hash == string_hash key 3
      then elim (api.getstring d.db (drop key_offset key)) [
        | none ↦ (ret_no_value_err, [])
        | some s ↦ if longer (length s) len then (ret_length_err, []) else (ret_ok, s)
      ]
      else rest

  -- `imi_db_mi_save_db_file`: the result, the databases and the files. A file that is opened with
  -- "rt+" keeps what it holds behind the bytes that are written.
  unfoldable pub save_db_file : List (DbName D) → Files → ℤ × List (DbName D) × Files
  save_db_file [] files = (pos 0, [], files)
  save_db_file (d ∷ ds) files =
      let kept = save_db_file ds files in
      elim (due d) [
        | none ↦ (kept.0, d ∷ kept.1, kept.2)
        | some (ini, p) ↦ elim (files p) [
          | none ↦ (negsuc 0, d ∷ ds, files)
          | some old ↦
              let text = api.dump ini in
              let saved = save_db_file ds (write_file files p (text ++ drop (length text) old)) in
              (saved.0, record d { sync_flag = false } ∷ saved.1, saved.2)
        ]
      ]

  -- the loop, from database `i` on
  pub set_loop : ℕ → List (DbName D) → (key : Bytes) → (in_value : Bytes) → Looked D
  set_loop i [] key in_value = missing
  set_loop i (d ∷ ds) key in_value =
      let rest = set_loop (i + 1) ds key in_value in
      if d.hash == string_hash key 3
      then if i == 0
        then read_only
        else (let (ret, db) = api.ini_set d.db (drop key_offset key) in_value in
            stored ret (record d { db = db; sync_flag = true } ∷ ds))
      else passed d rest

  -- The result, the databases and the files.
  pub imi_db_mi_set_value :
      List (DbName D)
      → Files
      → (key : Bytes) → (in_value : Bytes) → (flag : Bool) → ℤ × List (DbName D) × Files
  unfolding set_loop save_db_file
  imi_db_mi_set_value dbs files key in_value flag = elim (set_loop 0 dbs key in_value) [
    | read_only ↦ (ret_readonly_err, dbs, files)
    | missing ↦ (ret_no_value_err, dbs, files)
    | stored ret dbs' ↦ if flag then save_db_file dbs' files else (ret, dbs', files)
  ]
