-- ===== src/Db/Values.antt =====
-- `imi_db_mi_set_value` followed by `imi_db_mi_get_value`.
use small_project_for_life_w.Base.{
  ◌≡◌, refl, sym, ◌∙◌, ◌≢◌, ap, inl, inr, Bool, true, false, Option, some, List, [], ◌∷◌, ◌++◌,
  arith, ◌==◌, Bool-cases, drop, length, ℤ, pos,
}
use small_project_for_life_w.Text.{Bytes, string_hash}
use small_project_for_life_w.Db.{
  Files, IniApi, DbName, imi_db_mi_get_value, imi_db_mi_set_value, ret_ok, longer, key_offset,
}
use small_project_for_life_w.Db.Dispatch.{Lacks, answer, get_value-answer, set_loop-stored}
use small_project_for_life_w.Db.Save.{SameData, SameData-refl, save_db_file-SameData}

-- What iniparser documents of `iniparser_set`: when it returns 0, the entry has the value.
abbrev pub SetThenGet : {D : Type 0} → IniApi D → Type 0
SetThenGet api =
    (db : Option _) (key value : Bytes)
    → (api.ini_set db key value).0 ≡ pos 0
    → api.getstring (api.ini_set db key value).1 key ≡ some value

module _ {D : Type 0} (api : IniApi D) where
  get_value-SameData :
      (ds es : List (DbName D)) (key : Bytes) (len : ℤ)
      → SameData ds es
      → imi_db_mi_get_value api es key len ≡ imi_db_mi_get_value api ds key len
  unfolding imi_db_mi_get_value
  get_value-SameData [] [] key len same = refl
  get_value-SameData [] (_ ∷ _) key len same = absurd same
  get_value-SameData (_ ∷ _) [] key len same = absurd same
  get_value-SameData (d ∷ ds) (e ∷ es) key len (alike, same) =
      let at_hash : e.hash ≡ d.hash = ap (λ (x : DbName D). x.hash) alike in
      let at_db : e.db ≡ d.db = ap (λ (x : DbName D). x.db) alike in
      rw (at_hash, at_db, get_value-SameData ds es key len same)

  -- two lists that differ at a database that is not asked
  get_value-other :
      (pre post : List (DbName D)) (d e : DbName D) (key : Bytes) (len : ℤ)
      → d.hash ≢ string_hash key 3
      → e.hash ≢ string_hash key 3
      → imi_db_mi_get_value api (pre ++ e ∷ post) key len
        ≡ imi_db_mi_get_value api (pre ++ d ∷ post) key len
  unfolding imi_db_mi_get_value
  get_value-other [] post d e key len d_ne e_ne =
      let miss : (d.hash == string_hash key 3) ≡ false = ground arith in
      let miss' : (e.hash == string_hash key 3) ≡ false = ground arith in rw (miss, miss')
  get_value-other (b ∷ pre) post d e key len d_ne e_ne =
      rw (get_value-other pre post d e key len d_ne e_ne)

  module _ (pre post : List (DbName D)) (d : DbName D) (files : Files) (key value : Bytes)
      (flag : Bool) (out : Lacks (string_hash key 3) pre) (hit : d.hash ≡ string_hash key 3)
      (behind : length pre ≢ 0) where
    -- what the databases are when the value has been stored
    pub set_value-stored :
        SameData
          (pre
            ++ record d { db = (api.ini_set d.db (drop key_offset key) value).1; sync_flag = true }
              ∷ post)
          (imi_db_mi_set_value api (pre ++ d ∷ post) files key value flag).1
    unfolding imi_db_mi_set_value
    set_value-stored =
        rw
          (
            imi_db_mi_set_value,
            set_loop-stored api 0 pre post d key value out hit (λ e. behind (omega arith)),
          )
          (elim (Bool-cases flag) [
            | inl now ↦ rw now (save_db_file-SameData api _ files)
            | inr later ↦ rw later (SameData-refl _)
          ])

    -- A value that has been set in a database other than the factory data is what the key then
    -- has, saved or not.
    pub set_value-get :
        (len : ℤ)
        → SetThenGet api
        → (api.ini_set d.db (drop key_offset key) value).0 ≡ pos 0
        → longer (length value) len ≡ false
        → imi_db_mi_get_value api
            (imi_db_mi_set_value api (pre ++ d ∷ post) files key value flag).1
            key
            len
          ≡ (ret_ok, value)
    set_value-get len law done fits =
        get_value-SameData _ _ key len set_value-stored
        ∙ get_value-answer api pre post
            (record d { db = (api.ini_set d.db (drop key_offset key) value).1; sync_flag = true })
            key len out hit
        ∙ rw (answer, law d.db (drop key_offset key) value done, fits)

    -- What a key of another database has does not change.
    pub set_value-other :
        (key' : Bytes) (len : ℤ)
        → string_hash key' 3 ≢ string_hash key 3
        → imi_db_mi_get_value api
            (imi_db_mi_set_value api (pre ++ d ∷ post) files key value flag).1
            key'
            len
          ≡ imi_db_mi_get_value api (pre ++ d ∷ post) key' len
    set_value-other key' len ne =
        get_value-SameData _ _ key' len set_value-stored
        ∙ get_value-other pre post d _ key' len (λ e. ne (sym e ∙ hit)) (λ e. ne (sym e ∙ hit))
