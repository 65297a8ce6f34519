-- ===== src/Db/Dispatch.antt =====
-- Which database a key belongs to.
use small_project_for_life_w.Base.{
  ℕ, ◌+◌, ◌<◌, ◌≡◌, refl, sym, ◌∙◌, ◌≢◌, Bool, true, false, Option, none, some, List, [], ◌∷◌, ◌++◌,
  arith, ◌==◌, Bool-cases, inl, inr, if◌then◌else◌, get_or, drop, length, ℤ,
}
use small_project_for_life_w.Text.{Bytes, string_hash}
use small_project_for_life_w.Text.Hash.{string_hash-agree}
use small_project_for_life_w.Db.{
  IniApi, DbName, Files, missing, stored, imi_db_mi_get_value, set_loop, imi_db_mi_set_value,
  ret_no_value_err, ret_length_err, ret_ok, ret_readonly_err, longer, key_offset, rom_name,
  nvm_name, ram_name, mem_name,
}

-- No database of these has the hash.
abbrev pub Lacks : {D : Type 0} → ℕ → List (DbName D) → Type 0
Lacks hash [] = Unit
Lacks hash (d ∷ ds) = (d.hash ≢ hash) × Lacks hash ds

module _ {D : Type 0} (api : IniApi D) where
  -- what a database answers
  abbrev pub answer : Option D → Bytes → ℤ → ℤ × Bytes
  answer db key len = elim (api.getstring db (drop key_offset key)) [
    | none ↦ (ret_no_value_err, [])
    | some s ↦ if longer (length s) len then (ret_length_err, []) else (ret_ok, s)
  ]

  -- `imi_db_mi_get_value` asks the first database that has the hash of the key.
  pub get_value-answer :
      (pre post : List (DbName D)) (d : DbName D) (key : Bytes) (len : ℤ)
      → Lacks (string_hash key 3) pre
      → d.hash ≡ string_hash key 3
      → imi_db_mi_get_value api (pre ++ d ∷ post) key len ≡ answer d.db key len
  unfolding imi_db_mi_get_value
  get_value-answer [] post d key len out e =
      let hit : (d.hash == string_hash key 3) ≡ true = ground arith in rw hit
  get_value-answer (b ∷ pre) post d key len (ne, out) e =
      let miss : (b.hash == string_hash key 3) ≡ false = ground arith in
      rw miss (get_value-answer pre post d key len out e)

  pub get_value-missing :
      (ds : List (DbName D)) (key : Bytes) (len : ℤ)
      → Lacks (string_hash key 3) ds
      → imi_db_mi_get_value api ds key len ≡ (ret_no_value_err, [])
  unfolding imi_db_mi_get_value
  get_value-missing [] key len out = refl
  get_value-missing (b ∷ ds) key len (ne, out) =
      let miss : (b.hash == string_hash key 3) ≡ false = ground arith in
      rw miss (get_value-missing ds key len out)

  -- The loop of `imi_db_mi_set_value` stores in the first database that has the hash.
  pub set_loop-stored :
      (i : ℕ) (pre post : List (DbName D)) (d : DbName D) (key in_value : Bytes)
      → Lacks (string_hash key 3) pre
      → d.hash ≡ string_hash key 3
      → i + length pre ≢ 0
      → let r = api.ini_set d.db (drop key_offset key) in_value in
        set_loop api i (pre ++ d ∷ post) key in_value
        ≡ stored r.0 (pre ++ record d { db = r.1; sync_flag = true } ∷ post)
  unfolding set_loop
  set_loop-stored i [] post d key in_value out e later =
      let hit : (d.hash == string_hash key 3) ≡ true = ground arith in
      let behind : (i == 0) ≡ false = ground arith in rw (hit, behind)
  set_loop-stored i (b ∷ pre) post d key in_value (ne, out) e later =
      let miss : (b.hash == string_hash key 3) ≡ false = ground arith in
      rw (miss, set_loop-stored (i + 1) pre post d key in_value out e (omega arith))

  pub set_loop-missing :
      (i : ℕ) (ds : List (DbName D)) (key in_value : Bytes)
      → Lacks (string_hash key 3) ds
      → set_loop api i ds key in_value ≡ missing
  unfolding set_loop
  set_loop-missing i [] key in_value out = refl
  set_loop-missing i (b ∷ ds) key in_value (ne, out) =
      let miss : (b.hash == string_hash key 3) ≡ false = ground arith in
      rw (miss, set_loop-missing (i + 1) ds key in_value out)

  -- A key that belongs to the first database, the factory data, cannot be set, and a key that
  -- belongs to none is not found; nothing changes in either case.
  pub set_value-refused :
      (ds : List (DbName D)) (files : Files) (key in_value : Bytes) (flag : Bool)
      → Lacks (string_hash key 3) (drop 1 ds)
      → let hits : Bool = elim ds [ [] ↦ false | d ∷ _ ↦ d.hash == string_hash key 3 ] in
        imi_db_mi_set_value api ds files key in_value flag
        ≡ ((if hits then ret_readonly_err else ret_no_value_err), ds, files)
  unfolding imi_db_mi_set_value set_loop
  set_value-refused [] files key in_value flag out = refl
  set_value-refused (d ∷ ds) files key in_value flag out =
      elim (Bool-cases (d.hash == string_hash key 3)) [
        | inl hit ↦ rw (imi_db_mi_set_value, set_loop, hit)
        | inr miss ↦
            rw (imi_db_mi_set_value, set_loop, miss, set_loop-missing 1 ds key in_value out)
      ]

-- The hashes of the four names differ, so the prefix of a key decides.
pub names-apart :
    let h = λ (name : Bytes). string_hash name 3 in
    (h rom_name ≢ h nvm_name)
    × (h rom_name ≢ h ram_name)
    × (h rom_name ≢ h mem_name)
    × (h nvm_name ≢ h ram_name)
    × (h nvm_name ≢ h mem_name)
    × (h ram_name ≢ h mem_name)
unfolding string_hash
names-apart = (ground arith, ground arith, ground arith, ground arith, ground arith, ground arith)

-- The databases have the hashes that `imi_db_mi_init` gives them.
abbrev pub Ready : {D : Type 0} (rom nvm ram mem : DbName D) → Type 0
Ready rom nvm ram mem =
    (rom.hash ≡ string_hash rom_name 3)
    × (nvm.hash ≡ string_hash nvm_name 3)
    × (ram.hash ≡ string_hash ram_name 3)
    × (mem.hash ≡ string_hash mem_name 3)

-- The key begins with the name.
abbrev pub Begins : Bytes → Bytes → Type 0
Begins name key = (j : ℕ) → j < 3 → get_or key j 0 ≡ get_or name j 0

module _ {D : Type 0} (api : IniApi D) (rom nvm ram mem : DbName D) (ready : Ready rom nvm ram mem)
    (key : Bytes) (len : ℤ) where
  -- Once the databases have their hashes, a key that begins with the name of one is looked up in
  -- that one.
  pub get_value-by_name :
      let get = imi_db_mi_get_value api (rom ∷ nvm ∷ ram ∷ mem ∷ []) key len in
      (Begins rom_name key → get ≡ answer api rom.db key len)
      × (Begins nvm_name key → get ≡ answer api nvm.db key len)
      × (Begins ram_name key → get ≡ answer api ram.db key len)
      × (Begins mem_name key → get ≡ answer api mem.db key len)
  get_value-by_name =
      let (at_rom, at_nvm, at_ram, at_mem) = ready in
      let (rom_nvm, rom_ram, rom_mem, nvm_ram, nvm_mem, ram_mem) = names-apart in
      (
        λ same.
            let e = string_hash-agree key rom_name 3 same in
            get_value-answer api [] (nvm ∷ ram ∷ mem ∷ []) rom key len tt (at_rom ∙ sym e),
        λ same.
            let e = string_hash-agree key nvm_name 3 same in
            get_value-answer api (rom ∷ []) (ram ∷ mem ∷ []) nvm key len
              ((λ f. rom_nvm (sym at_rom ∙ f ∙ e)), tt) (at_nvm ∙ sym e),
        λ same.
            let e = string_hash-agree key ram_name 3 same in
            get_value-answer api (rom ∷ nvm ∷ []) (mem ∷ []) ram key len
              ((λ f. rom_ram (sym at_rom ∙ f ∙ e)), ((λ f. nvm_ram (sym at_nvm ∙ f ∙ e)), tt))
              (at_ram ∙ sym e),
        λ same.
            let e = string_hash-agree key mem_name 3 same in
            get_value-answer api (rom ∷ nvm ∷ ram ∷ []) [] mem key len
              (
                (λ f. rom_mem (sym at_rom ∙ f ∙ e)),
                ((λ f. nvm_mem (sym at_nvm ∙ f ∙ e)), ((λ f. ram_mem (sym at_ram ∙ f ∙ e)), tt)),
              )
              (at_mem ∙ sym e),
      )
