-- ===== src/Db/Keys.antt =====
-- The tables of imi_db_mi.c and imi_db_mi.h: the keys and their default values, as bytes.
use small_project_for_life_w.Base.{
  ◌≡◌, refl, Bool, true, ◌&&◌, ◌||◌, Option, none, some, List, [], ◌∷◌, ◌++◌, ◌==◌,
}
use small_project_for_life_w.Text.{Bytes, string_hash}
use small_project_for_life_w.Db.{DbInfoKeys, rom_name, nvm_name, ram_name, mem_name}

abbrev pub rom_keys : List Bytes
rom_keys =
    (82 ∷ 79 ∷ 77 ∷ 46 ∷ 118 ∷ 101 ∷ 110 ∷ 100 ∷ 111 ∷ 114 ∷ [])  -- ROM.vendor
    ∷ (82 ∷ 79 ∷ 77 ∷ 46 ∷ 109 ∷ 111 ∷ 100 ∷ 101 ∷ 108 ∷ [])  -- ROM.model
    ∷ (82 ∷ 79 ∷ 77 ∷ 46 ∷ 108 ∷ 97 ∷ 110 ∷ 103 ∷ 117 ∷ 97 ∷ 103 ∷ 101 ∷ [])  -- ROM.language
    ∷ (82 ∷ 79 ∷ 77 ∷ 46 ∷ 109 ∷ 97 ∷ 99 ∷ [])  -- ROM.mac
    ∷ (82 ∷ 79 ∷ 77 ∷ 46 ∷ 111 ∷ 111 ∷ 98 ∷ [])  -- ROM.oob
    ∷ (82 ∷ 79 ∷ 77 ∷ 46 ∷ 109 ∷ 106 ∷ 97 ∷ 99 ∷ 95 ∷ 105 ∷ 50 ∷ 99 ∷ [])  -- ROM.mjac_i2c
    ∷ (82 ∷ 79 ∷ 77 ∷ 46 ∷ 109 ∷ 106 ∷ 97 ∷ 99 ∷ 95 ∷ 103 ∷ 112 ∷ 105 ∷ 111 ∷ [])  -- ROM.mjac_gpio
    ∷ (82 ∷ 79 ∷ 77 ∷ 46 ∷ 100 ∷ 105 ∷ 100 ∷ [])  -- ROM.did
    ∷ (82 ∷ 79 ∷ 77 ∷ 46 ∷ 107 ∷ 101 ∷ 121 ∷ [])  -- ROM.key
    ∷ []

abbrev pub nvm_keys : List Bytes
nvm_keys =
    (78 ∷ 86 ∷ 77 ∷ 46 ∷ 73 ∷ 80 ∷ 67 ∷ 58 ∷ 98 ∷ 105 ∷ 110 ∷ 100 ∷ 95 ∷ 115 ∷ 116 ∷ 97 ∷ 116 ∷ 117
      ∷ 115 ∷ [])  -- NVM.IPC:bind_status
    ∷ (78 ∷ 86 ∷ 77 ∷ 46 ∷ 73 ∷ 80 ∷ 67 ∷ 58 ∷ 112 ∷ 111 ∷ 119 ∷ 101 ∷ 114 ∷ [])  -- NVM.IPC:power
    ∷ (78 ∷ 86 ∷ 77 ∷ 46 ∷ 73 ∷ 80 ∷ 67 ∷ 58 ∷ 108 ∷ 101 ∷ 100 ∷ 95 ∷ 115 ∷ 116 ∷ 97 ∷ 116 ∷ 117
        ∷ 115 ∷ [])  -- NVM.IPC:led_status
    ∷ (78 ∷ 86 ∷ 77 ∷ 46 ∷ 73 ∷ 80 ∷ 67 ∷ 58 ∷ 105 ∷ 109 ∷ 112 ∷ 114 ∷ 111 ∷ 118 ∷ 101 ∷ 95 ∷ 112
        ∷ 114 ∷ 111 ∷ 103 ∷ 114 ∷ 97 ∷ 109 ∷ [])  -- NVM.IPC:improve_program
    ∷ (78 ∷ 86 ∷ 77 ∷ 46 ∷ 73 ∷ 80 ∷ 67 ∷ 58 ∷ 109 ∷ 111 ∷ 116 ∷ 111 ∷ 114 ∷ [])  -- NVM.IPC:motor
    ∷ (78 ∷ 86 ∷ 77 ∷ 46 ∷ 80 ∷ 50 ∷ 80 ∷ 58 ∷ 116 ∷ 111 ∷ 107 ∷ 101 ∷ 110 ∷ [])  -- NVM.P2P:token
    ∷ (78 ∷ 86 ∷ 77 ∷ 46 ∷ 67 ∷ 76 ∷ 79 ∷ 85 ∷ 68 ∷ 58 ∷ 100 ∷ 101 ∷ 116 ∷ 101 ∷ 99 ∷ 116 ∷ 95 ∷ 115
        ∷ 119 ∷ 116 ∷ 105 ∷ 99 ∷ 104 ∷ [])  -- NVM.CLOUD:detect_swtich
    ∷ (78 ∷ 86 ∷ 77 ∷ 46 ∷ 67 ∷ 76 ∷ 79 ∷ 85 ∷ 68 ∷ 58 ∷ 98 ∷ 97 ∷ 98 ∷ 121 ∷ 99 ∷ 114 ∷ 121 ∷ 95
        ∷ 115 ∷ 119 ∷ 105 ∷ 116 ∷ 99 ∷ 104 ∷ [])  -- NVM.CLOUD:babycry_switch
    ∷ (78 ∷ 86 ∷ 77 ∷ 46 ∷ 67 ∷ 76 ∷ 79 ∷ 85 ∷ 68 ∷ 58 ∷ 105 ∷ 110 ∷ 116 ∷ 101 ∷ 114 ∷ 118 ∷ 97
        ∷ 108 ∷ [])  -- NVM.CLOUD:interval
    ∷ (78 ∷ 86 ∷ 77 ∷ 46 ∷ 67 ∷ 76 ∷ 79 ∷ 85 ∷ 68 ∷ 58 ∷ 100 ∷ 101 ∷ 116 ∷ 101 ∷ 99 ∷ 116 ∷ 95 ∷ 115
        ∷ 116 ∷ 97 ∷ 114 ∷ 116 ∷ 95 ∷ 116 ∷ 105 ∷ 109 ∷ 101 ∷ [])  -- NVM.CLOUD:detect_start_time
    ∷ (78 ∷ 86 ∷ 77 ∷ 46 ∷ 67 ∷ 76 ∷ 79 ∷ 85 ∷ 68 ∷ 58 ∷ 100 ∷ 101 ∷ 116 ∷ 101 ∷ 99 ∷ 116 ∷ 95 ∷ 101
        ∷ 110 ∷ 100 ∷ 95 ∷ 116 ∷ 105 ∷ 109 ∷ 101 ∷ [])  -- NVM.CLOUD:detect_end_time
    ∷ (78 ∷ 86 ∷ 77 ∷ 46 ∷ 86 ∷ 73 ∷ 68 ∷ 69 ∷ 79 ∷ 58 ∷ 119 ∷ 100 ∷ 114 ∷ [])  -- NVM.VIDEO:wdr
    ∷ (78 ∷ 86 ∷ 77 ∷ 46 ∷ 86 ∷ 73 ∷ 68 ∷ 69 ∷ 79 ∷ 58 ∷ 102 ∷ 105 ∷ 108 ∷ 112 ∷ [])  -- NVM.VIDEO:filp
    ∷ (78 ∷ 86 ∷ 77 ∷ 46 ∷ 86 ∷ 73 ∷ 68 ∷ 69 ∷ 79 ∷ 58 ∷ 119 ∷ 97 ∷ 116 ∷ 101 ∷ 114 ∷ 109 ∷ 97 ∷ 114
        ∷ 107 ∷ [])  -- NVM.VIDEO:watermark
    ∷ (78 ∷ 86 ∷ 77 ∷ 46 ∷ 65 ∷ 76 ∷ 71 ∷ 79 ∷ 58 ∷ 115 ∷ 101 ∷ 110 ∷ 115 ∷ 105 ∷ 116 ∷ 105 ∷ 118
        ∷ 105 ∷ 116 ∷ 121 ∷ [])  -- NVM.ALGO:sensitivity
    ∷ (78 ∷ 86 ∷ 77 ∷ 46 ∷ 65 ∷ 76 ∷ 71 ∷ 79 ∷ 58 ∷ 116 ∷ 114 ∷ 97 ∷ 99 ∷ 107 ∷ 95 ∷ 115 ∷ 119 ∷ 105
        ∷ 116 ∷ 99 ∷ 104 ∷ [])  -- NVM.ALGO:track_switch
    ∷ (78 ∷ 86 ∷ 77 ∷ 46 ∷ 65 ∷ 76 ∷ 71 ∷ 79 ∷ 58 ∷ 110 ∷ 105 ∷ 103 ∷ 104 ∷ 116 ∷ 95 ∷ 109 ∷ 111
        ∷ 100 ∷ 101 ∷ [])  -- NVM.ALGO:night_mode
    ∷ (78 ∷ 86 ∷ 77 ∷ 46 ∷ 66 ∷ 73 ∷ 78 ∷ 68 ∷ 58 ∷ 119 ∷ 105 ∷ 102 ∷ 105 ∷ 95 ∷ 115 ∷ 115 ∷ 105
        ∷ 100 ∷ [])  -- NVM.BIND:wifi_ssid
    ∷ (78 ∷ 86 ∷ 77 ∷ 46 ∷ 66 ∷ 73 ∷ 78 ∷ 68 ∷ 58 ∷ 119 ∷ 105 ∷ 102 ∷ 105 ∷ 95 ∷ 112 ∷ 119 ∷ 100
        ∷ [])  -- NVM.BIND:wifi_pwd
    ∷ (78 ∷ 86 ∷ 77 ∷ 46 ∷ 66 ∷ 73 ∷ 78 ∷ 68 ∷ 58 ∷ 116 ∷ 105 ∷ 109 ∷ 101 ∷ 122 ∷ 111 ∷ 110 ∷ 101
        ∷ [])  -- NVM.BIND:timezone
    ∷ (78 ∷ 86 ∷ 77 ∷ 46 ∷ 83 ∷ 68 ∷ 58 ∷ 115 ∷ 116 ∷ 111 ∷ 114 ∷ 97 ∷ 103 ∷ 101 ∷ 95 ∷ 109 ∷ 111
        ∷ 100 ∷ 101 ∷ [])  -- NVM.SD:storage_mode
    ∷ []

abbrev pub ram_keys : List Bytes
ram_keys =
    (82 ∷ 65 ∷ 77 ∷ 46 ∷ 82 ∷ 85 ∷ 78 ∷ 58 ∷ 109 ∷ 111 ∷ 116 ∷ 111 ∷ 114 ∷ 95 ∷ 114 ∷ 101 ∷ 115
      ∷ 101 ∷ 116 ∷ [])  -- RAM.RUN:motor_reset
    ∷ []

abbrev pub mem_keys : List Bytes
mem_keys =
    (77 ∷ 69 ∷ 77 ∷ 46 ∷ 114 ∷ 117 ∷ 110 ∷ 108 ∷ 101 ∷ 118 ∷ 101 ∷ 108 ∷ [])  -- MEM.runlevel
    ∷ []

abbrev pub default_values : List (Option Bytes)
default_values =
    none
    ∷ none
    ∷ none
    ∷ none
    ∷ none
    ∷ none
    ∷ none
    ∷ none
    ∷ none
    ∷ some (102 ∷ 97 ∷ 105 ∷ 108 ∷ 101 ∷ 100 ∷ [])
    ∷ some (49 ∷ [])
    ∷ some (49 ∷ [])
    ∷ some (48 ∷ [])
    ∷ some (91 ∷ 53 ∷ 48 ∷ 44 ∷ 53 ∷ 48 ∷ 93 ∷ [])
    ∷ some ([])
    ∷ some (48 ∷ [])
    ∷ some (48 ∷ [])
    ∷ some (53 ∷ [])
    ∷ some ([])
    ∷ some ([])
    ∷ some (48 ∷ [])
    ∷ some (48 ∷ [])
    ∷ some (49 ∷ [])
    ∷ some ([])
    ∷ some (48 ∷ [])
    ∷ some (48 ∷ [])
    ∷ some ([])
    ∷ some ([])
    ∷ some ([])
    ∷ some (48 ∷ [])
    ∷ some (48 ∷ [])
    ∷ some (114 ∷ 117 ∷ 110 ∷ 108 ∷ 101 ∷ 118 ∷ 101 ∷ 108 ∷ [])
    ∷ []

-- one line of the table for each key
abbrev pub with_values : List Bytes → List (Option Bytes) → List DbInfoKeys
with_values [] values = []
with_values (k ∷ ks) [] = []
with_values (k ∷ ks) (v ∷ vs) = record { key = k; value = v } ∷ with_values ks vs

-- `db_keys`
pub db_keys : List DbInfoKeys
db_keys = with_values (rom_keys ++ (nvm_keys ++ (ram_keys ++ mem_keys))) default_values

-- The key belongs to one of the four databases.
abbrev known : Bytes → Bool
known key =
    string_hash key 3 == string_hash rom_name 3
    || (string_hash key 3 == string_hash nvm_name 3
        || (string_hash key 3 == string_hash ram_name 3
            || string_hash key 3 == string_hash mem_name 3))

abbrev all_known : List DbInfoKeys → Bool
all_known [] = true
all_known (k ∷ ks) = known k.key && all_known ks

-- Every key of the table belongs to a database.
db_keys-all_known : all_known db_keys ≡ true
unfolding db_keys string_hash
db_keys-all_known = refl
