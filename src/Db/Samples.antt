-- ===== src/Db/Samples.antt =====
-- The theorems on the database over dictionaries that are functions, with a key of the NVM
-- database.
use small_project_for_life_w.Base.{
  ℕ, ◌+◌, ◌≡◌, refl, ap, true, Option, none, some, List, [], ◌∷◌, arith, if◌then◌else◌, map, ℤ, pos,
  negsuc,
}
use small_project_for_life_w.Text.{Bytes, string_hash}
use small_project_for_life_w.Memory.{fault, Yields, Store}
use small_project_for_life_w.DevList.{str_eq}
use small_project_for_life_w.DevList.Device.{str_eq_iff}
use small_project_for_life_w.Timer.{ImiTimer, TimerApi, cleared, times, timer_mode_loop}
use small_project_for_life_w.Timer.Start.{armed-set, event}
use small_project_for_life_w.Db.{
  nvm_db_path, ram_ini_path, Files, IniApi, DbName, DbInfoKeys, named, rom_name, nvm_name, ram_name,
  mem_name, imi_db_mi_get_value, imi_db_mi_set_value, ret_ok,
}
use small_project_for_life_w.Db.Create.{
  Disk, with_hash, create_loop, create_default_db, load_or_create, factory_info_load, mem_loop,
  imi_db_mi_init, imi_db_mi_deinit,
}
use small_project_for_life_w.Db.Dispatch.{Lacks}
use small_project_for_life_w.Db.Values.{SetThenGet, set_value-get}
use small_project_for_life_w.Db.Program.{main_values}
use small_project_for_life_w.Db.ReadBack.{SetWorks, main_values-ReadsBack}
use small_project_for_life_w.Db.Locks.{
  NeverUnderLock, save_calls, saves, late_calls, save_calls-NeverUnderLock,
}
use small_project_for_life_w.Db.Life.{deinit-faults}

abbrev Dict : Type 0
Dict = Bytes → Option Bytes

abbrev store : Option Dict → Bytes → Bytes → ℤ × Option Dict
store none key value = (negsuc 0, none)
store (some f) key value = (pos 0, some (λ q. if str_eq q key then some value else f q))

abbrev look_up : Option Dict → Bytes → Option Bytes
look_up none key = none
look_up (some f) key = f key

abbrev ini : IniApi Dict
ini = record {
  getstring = look_up;
  ini_set = store;
  dictionary_new = λ q. none;
  dictionary_set = λ f key value. λ q. if str_eq q key then value else f q;
  load = λ bytes. some (λ q. none);
  dump = λ f. 91 ∷ 93 ∷ [];
}

ini-SetThenGet : SetThenGet ini
ini-SetThenGet none key value e = cc
ini-SetThenGet (some f) key value e =
    let same : str_eq key key ≡ true = (str_eq_iff key key).1 refl in rw same

abbrev filled : DbName Dict → DbName Dict
filled d = record (with_hash d) { db = some (λ q. none) }

abbrev rom : DbName Dict
rom = filled (named none rom_name)

abbrev nvm : DbName Dict
nvm = filled (named (some nvm_db_path) nvm_name)

abbrev ram : DbName Dict
ram = filled (named (some ram_ini_path) ram_name)

abbrev mem : DbName Dict
mem = filled (named none mem_name)

-- "NVM.a:b" and "ROM.mac"
abbrev nvm_key : Bytes
nvm_key = 78 ∷ 86 ∷ 77 ∷ 46 ∷ 97 ∷ 58 ∷ 98 ∷ []

abbrev files : Files
files = λ p. some (1 ∷ 2 ∷ 3 ∷ [])

nvm_key-Lacks : Lacks (string_hash nvm_key 3) (rom ∷ [])
unfolding string_hash
nvm_key-Lacks = (ground arith, tt)

nvm_key-hash : nvm.hash ≡ string_hash nvm_key 3
unfolding string_hash
nvm_key-hash = refl

set_value-get_example :
    imi_db_mi_get_value ini
      (imi_db_mi_set_value ini (rom ∷ nvm ∷ ram ∷ mem ∷ []) files nvm_key (49 ∷ []) true).1
      nvm_key
      (pos 9)
    ≡ (ret_ok, 49 ∷ [])
set_value-get_example =
    set_value-get ini (rom ∷ []) (ram ∷ mem ∷ []) nvm files nvm_key (49 ∷ []) true nvm_key-Lacks
      nvm_key-hash (ground arith) (pos 9) ini-SetThenGet refl refl

abbrev keys : List DbInfoKeys
keys = record { key = nvm_key; value = some (49 ∷ []) } ∷ []

abbrev disk : Disk
disk = record { files = files; writable = λ p. true; junk = []; sect_hash = 0 }

abbrev unset : List (DbName Dict)
unset =
    named none rom_name
    ∷ named (some nvm_db_path) nvm_name
    ∷ named (some ram_ini_path) ram_name
    ∷ named none mem_name
    ∷ []

-- a system whose handles are the number of the call that made them
abbrev clock : TimerApi ℕ
clock = record {
  create = λ e o. (some o, o + 1);
  settime = λ t its o. (true, o + 1);
  gettime = λ t o. some cleared.its;
  delete = λ t o. (true, o + 1);
}

abbrev fresh : Store ImiTimer ℕ
fresh = record { cells = λ p. none; rest = 100 }

created : (create_loop ini keys 0 (map with_hash unset) disk).0 ≡ true
unfolding create_loop create_default_db load_or_create factory_info_load mem_loop
created = refl

deinit-faults_example :
    Yields
      (imi_db_mi_init ini clock keys unset disk 1 10 11 900 fresh)
      (λ r t. (r.ret ≡ pos 0) × (imi_db_mi_deinit clock 2 r.db_timer r.dbs t ≡ fault))
deinit-faults_example =
    deinit-faults ini clock fresh keys unset disk 1 1 10 11 900 100 created (ground arith)
      (ground arith) (ground arith) refl (omega arith)
      (ap (λ (x : Option ℕ × ℕ). x.0)
        (armed-set clock (event 0 900) (times timer_mode_loop (pos 60)) 100 100 refl refl))

save_calls-NeverUnderLock_example :
    let ds = record nvm { sync_flag = true } ∷ [] in
    let calls = save_calls ini (λ t. 0) (λ p. true) (λ p. true) ds files in
    (calls ≡ late_calls (λ p. true) (saves ini files ds)) × NeverUnderLock none calls
save_calls-NeverUnderLock_example =
    save_calls-NeverUnderLock ini (λ t. 0) (λ p. true) (λ p. true) 4096
      (record nvm { sync_flag = true } ∷ []) files (λ text h. refl) (λ p. refl)
      ((λ i p e. omega arith), tt)

ini-SetWorks : SetWorks ini
ini-SetWorks db key value = (refl, (_, refl))

main_values-ReadsBack_example :
    main_values ini (rom ∷ nvm ∷ ram ∷ mem ∷ []) files
    ≡ some (50 ∷ []) ∷ some (52 ∷ []) ∷ some (110 ∷ 111 ∷ 114 ∷ 109 ∷ 97 ∷ 108 ∷ []) ∷ []
main_values-ReadsBack_example =
    main_values-ReadsBack ini (rom ∷ nvm ∷ ram ∷ mem ∷ []) files ini-SetThenGet ini-SetWorks
      (refl, (_, refl), (refl, (_, refl), (refl, (_, refl), (refl, (_, refl), tt))))
