-- ===== src/Db/Create.antt =====
-- `imi_db_mi_init` and `imi_db_mi_deinit`, with the default databases and the factory data.
use small_project_for_life_w.Base.{
  ℕ, zero, suc, ◌+◌, ◌-◌, ◌*◌, ◌&&◌, Bool, true, false, Option, none, some, List, [], ◌∷◌, ◌++◌,
  ◌==◌, ltb, if◌then◌else◌, length, drop, ℤ, pos, negsuc, map,
}
use small_project_for_life_w.Text.{Bytes, string_hash, string_key_value_get}
use small_project_for_life_w.Memory.{Ptr, null, ◌>>=◌, ◌>>◌, pure}
use small_project_for_life_w.Timer.{
  TimerApi, Do, timer_init, timer_mode_loop, create_event_timer, delete_all_timer,
}
use small_project_for_life_w.Db.{
  DbPath, factory_path, Files, write_file, IniApi, DbName, DbInfoKeys, key_offset,
}

-- What the program meets beside the databases: the files, which paths `fopen` can create, what the
-- memory of a `malloc` holds, and the static variable of `imi_db_mi_create_default_db`.
pub record Disk : Type 0 where
  pub files : Files
  pub writable : DbPath → Bool
  pub junk : Bytes
  pub sect_hash : ℕ

-- `%[^:]`, and what follows the colon
pub until_colon : Bytes → Bytes
until_colon [] = []
until_colon (c ∷ cs) = if c == 58 then [] else c ∷ until_colon cs

pub after_colon : Bytes → Bytes
after_colon [] = []
after_colon (c ∷ cs) = if c == 58 then cs else after_colon cs

-- what `%s` prints, with glibc's text for NULL
abbrev pub printed : Option Bytes → Bytes
printed none = 40 ∷ 110 ∷ 117 ∷ 108 ∷ 108 ∷ 41 ∷ []
printed (some value) = value

-- The lines that one key of the table adds to a default file, and the hash of its section.
pub default_line : DbInfoKeys → ℕ → Bytes × ℕ
unfolding until_colon after_colon
default_line k sect_hash =
    let string = drop key_offset k.key in
    let section = until_colon string in
    let key = if length section == 0 then [] else until_colon (after_colon string) in
    let hash = string_hash section (length section) in
    let line = key ++ 9 ∷ 61 ∷ 9 ∷ printed k.value ++ 32 ∷ 10 ∷ [] in
    if sect_hash == hash
    then (line, sect_hash)
    else (10 ∷ 10 ∷ 91 ∷ section ++ 93 ∷ 10 ∷ line, hash)

-- the loop over the keys, for the database with this hash
pub default_text : List DbInfoKeys → (hash sect_hash : ℕ) → Bytes × ℕ
unfolding default_line
default_text [] hash sect_hash = ([], sect_hash)
default_text (k ∷ ks) hash sect_hash =
    let first = default_line k sect_hash in
    let rest = default_text ks hash first.1 in
    let skipped = default_text ks hash sect_hash in
    if hash == string_hash k.key 3 then (first.0 ++ rest.0, rest.1) else skipped

-- `fgets` of at most `n` bytes
pub line_of : ℕ → Bytes → Bytes
line_of zero bytes = []
line_of (suc n) [] = []
line_of (suc n) (c ∷ cs) = if c == 10 then c ∷ [] else c ∷ line_of n cs

-- the buffer behind the call of `fgets`, which leaves it alone at the end of the file
pub fgets : (size : ℕ) → (junk file : Bytes) → Bytes
unfolding line_of
fgets size junk [] = junk
fgets size junk (c ∷ cs) =
    let line = line_of (size - 1) (c ∷ cs) in line ++ 0 ∷ drop (length line + 1) junk

abbrev pub factory_size : ℕ
factory_size = 64 * 1024

abbrev pub positive : ℤ → Bool
positive (pos n) = ltb 0 n
positive (negsuc n) = false

-- the first loop of `imi_db_mi_init`
abbrev pub with_hash : {D : Type 0} → DbName D → DbName D
with_hash d = record d { hash = string_hash d.name 3 }

module _ {D : Type 0} (api : IniApi D) where
  -- the loop of `factory_info_load`
  unfoldable pub factory_loop : List DbInfoKeys → (hash : ℕ) → (buf : Bytes) → D → D
  factory_loop [] hash buf ini = ini
  factory_loop (k ∷ ks) hash buf ini =
      let key = drop key_offset k.key in
      let (ret, out) = string_key_value_get buf factory_size key 1024 in
      let found = hash == string_hash k.key 3 && positive ret in
      factory_loop ks hash buf (if found then api.dictionary_set ini key (some out) else ini)

  -- `factory_info_load`, whose `malloc` is taken to succeed
  unfoldable pub factory_info_load : List DbInfoKeys → (hash : ℕ) → Disk → Option D
  unfolding factory_loop fgets
  factory_info_load keys hash disk = elim (disk.files factory_path) [
    | none ↦ none
    | some file ↦
        some (factory_loop keys hash (fgets factory_size disk.junk file) api.dictionary_new)
  ]

  -- the loop for the database in memory
  unfoldable pub mem_loop : List DbInfoKeys → (hash : ℕ) → D → D
  mem_loop [] hash ini = ini
  mem_loop (k ∷ ks) hash ini =
      let key = drop key_offset k.key in
      let found = hash == string_hash k.key 3 in
      mem_loop ks hash (if found then api.dictionary_set ini key k.value else ini)

  -- `iniparser_load` of a path
  abbrev pub load_path : Files → DbPath → Option D
  load_path files p = elim (files p) [ none ↦ none | some bytes ↦ api.load bytes ]

  -- the part for a database with a file
  unfoldable pub load_or_create : List DbInfoKeys → (hash : ℕ) → DbPath → Disk → Option D × Disk
  unfolding default_text
  load_or_create keys hash p disk = elim (load_path disk.files p) [
    | some ini ↦ (some ini, disk)
    | none ↦
        if disk.writable p
        then (let (text, sect_hash) = default_text keys hash disk.sect_hash in
            let files = write_file disk.files p text in
            (load_path files p, record disk { files = files; sect_hash = sect_hash }))
        else (none, disk)
  ]

  -- `imi_db_mi_create_default_db`, where `d` is `db_name[index]`
  unfoldable pub create_default_db : List DbInfoKeys → ℕ → DbName D → Disk → Option D × Disk
  unfolding factory_info_load mem_loop load_or_create
  create_default_db keys index d disk =
      if index == 0
      then (factory_info_load keys d.hash disk, disk)
      else if index == 3
      then (some (mem_loop keys d.hash api.dictionary_new), disk)
      else elim d.path [ none ↦ (none, disk) | some p ↦ load_or_create keys d.hash p disk ]

  -- The second loop, from database `i` on: whether it ends without the result -1.
  unfoldable pub create_loop :
      List DbInfoKeys → ℕ → List (DbName D) → Disk → Bool × List (DbName D) × Disk
  unfolding create_default_db
  create_loop keys i [] disk = (true, [], disk)
  create_loop keys i (d ∷ ds) disk =
      let (db, disk') = create_default_db keys i d disk in
      let (fine, ds', disk'') = create_loop keys (i + 1) ds disk' in
      elim db [
        | none ↦ (false, record d { db = none } ∷ ds, disk')
        | some ini ↦ (fine, record d { db = some ini } ∷ ds', disk'')
      ]

-- What `imi_db_mi_init` leaves: its result, the databases, the disk, and `db_timer`.
pub record Started (D : Type 0) : Type 0 where
  pub ret : ℤ
  pub dbs : List (DbName D)
  pub disk : Disk
  pub db_timer : Ptr

module _ {D O : Type 0} (api : IniApi D) (timers : TimerApi O) where
  -- `head` and `n` are what the two calls of `malloc` for the timer return, and `sync` is the
  -- address of `imi_db_timeout_sync_db`.
  unfoldable pub imi_db_mi_init :
      List DbInfoKeys → List (DbName D) → Disk → (fuel head n sync : ℕ) → Do O (Started D)
  unfolding create_loop
  imi_db_mi_init keys dbs disk fuel head n sync =
      let (fine, dbs', disk') = create_loop api keys 0 (map with_hash dbs) disk in
      if fine
      then (do
        db_timer ← timer_init head
        create_event_timer timers fuel n db_timer 0 timer_mode_loop (pos 60) sync
        pure (record { ret = pos 0; dbs = dbs'; disk = disk'; db_timer = db_timer }))
      else pure (record { ret = negsuc 0; dbs = dbs'; disk = disk'; db_timer = null })

-- the dictionaries that are given to `iniparser_freedict`, in order
unfoldable pub freed_dicts : {D : Type 0} → List (DbName D) → List D
freed_dicts [] = []
freed_dicts (d ∷ ds) =
    let rest = freed_dicts ds in elim d.db [ none ↦ rest | some ini ↦ ini ∷ rest ]

module _ {D O : Type 0} (timers : TimerApi O) where
  -- `imi_db_mi_deinit`, with what it frees; it has no result
  unfoldable pub imi_db_mi_deinit : (fuel : ℕ) → (db_timer : Ptr) → List (DbName D) → Do O (List D)
  unfolding freed_dicts
  imi_db_mi_deinit fuel db_timer dbs =
      if db_timer == null
      then pure (freed_dicts dbs)
      else do delete_all_timer timers fuel db_timer; pure (freed_dicts dbs)
