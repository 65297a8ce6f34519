-- ===== src/Db/Save.antt =====
-- `imi_db_mi_save_db_file`.
use small_project_for_life_w.Base.{
  ◌≡◌, refl, sym, ◌∙◌, ◌≢◌, ap, inl, inr, true, false, none, some, List, [], ◌∷◌, ◌++◌, arith,
  Bool-cases, Option-cases, drop, length, pos, negsuc,
}
use small_project_for_life_w.Text.{Bytes}
use small_project_for_life_w.Db.{
  DbPath, nvm_db_path, ram_ini_path, factory_path, same_path, Files, write_file, IniApi, DbName,
  save_db_file, due,
}

-- Nothing of these databases is left to be saved.
abbrev pub AllClean : {D : Type 0} → List (DbName D) → Type 0
AllClean [] = Unit
AllClean (d ∷ ds) = (due d ≡ none) × AllClean ds

-- The same databases, but for the flags.
abbrev pub SameData : {D : Type 0} → List (DbName D) → List (DbName D) → Type 0
SameData [] [] = Unit
SameData [] (_ ∷ _) = ⊥
SameData (_ ∷ _) [] = ⊥
SameData (d ∷ ds) (e ∷ es) = (e ≡ record d { sync_flag = e.sync_flag }) × SameData ds es

pub SameData-refl : {D : Type 0} (ds : List (DbName D)) → SameData ds ds
SameData-refl [] = tt
SameData-refl (d ∷ ds) = (refl, SameData-refl ds)

-- No database of these is kept in the file.
abbrev pub NotIn : {D : Type 0} → DbPath → List (DbName D) → Type 0
NotIn p [] = Unit
NotIn p (d ∷ ds) = (d.path ≢ some p) × NotIn p ds

due-path :
    {D : Type 0} (d : DbName D) (ini : D) (p : DbPath) → due d ≡ some (ini, p) → d.path ≡ some p
due-path d ini p e = ground arith

due-cleared : {D : Type 0} (d : DbName D) → due (record d { sync_flag = false }) ≡ none
due-cleared d = ground arith

same_path_iff : (p q : DbPath) → same_path p q ≡ true → p ≡ q
same_path_iff nvm_db_path nvm_db_path e = refl
same_path_iff ram_ini_path ram_ini_path e = refl
same_path_iff factory_path factory_path e = refl
same_path_iff nvm_db_path ram_ini_path e = cc
same_path_iff nvm_db_path factory_path e = cc
same_path_iff ram_ini_path nvm_db_path e = cc
same_path_iff ram_ini_path factory_path e = cc
same_path_iff factory_path nvm_db_path e = cc
same_path_iff factory_path ram_ini_path e = cc

same_path_refl : (p : DbPath) → same_path p p ≡ true
same_path_refl nvm_db_path = refl
same_path_refl ram_ini_path = refl
same_path_refl factory_path = refl

write_file-ne :
    (files : Files) (p q : DbPath) (bytes : Bytes) → q ≢ p → write_file files p bytes q ≡ files q
write_file-ne files p q bytes ne = elim (Bool-cases (same_path q p)) [
  | inl same ↦ absurd (ne (same_path_iff q p same))
  | inr other ↦ rw other
]

module _ {D : Type 0} (api : IniApi D) (d : DbName D) (ds : List (DbName D)) (files : Files) where
  save-idle :
      due d ≡ none
      → let kept = save_db_file api ds files in
        save_db_file api (d ∷ ds) files ≡ (kept.0, d ∷ kept.1, kept.2)
  unfolding save_db_file
  save-idle idle = rw (save_db_file, idle)

  save-closed :
      (ini : D) (p : DbPath)
      → due d ≡ some (ini, p)
      → files p ≡ none
      → save_db_file api (d ∷ ds) files ≡ (negsuc 0, d ∷ ds, files)
  unfolding save_db_file
  save-closed ini p set closed = rw (save_db_file, set, closed)

  save-opened :
      (ini : D) (p : DbPath) (old : Bytes)
      → due d ≡ some (ini, p)
      → files p ≡ some old
      → let saved =
          save_db_file api ds
            (write_file files p (api.dump ini ++ drop (length (api.dump ini)) old)) in
        save_db_file api (d ∷ ds) files
        ≡ (saved.0, record d { sync_flag = false } ∷ saved.1, saved.2)
  unfolding save_db_file
  save-opened ini p old set opened = rw (save_db_file, set, opened)

module _ {D : Type 0} (api : IniApi D) where
  -- Saving changes the databases in their flags only.
  pub save_db_file-SameData :
      (ds : List (DbName D)) (files : Files) → SameData ds (save_db_file api ds files).1
  unfolding save_db_file
  save_db_file-SameData [] files = tt
  save_db_file-SameData (d ∷ ds) files = elim (Option-cases (due d)) [
    | inl idle ↦ rw (save-idle api d ds files idle) (refl, save_db_file-SameData ds files)
    | inr ((ini, p), set) ↦ elim (Option-cases (files p)) [
      | inl closed ↦ rw (save-closed api d ds files ini p set closed) (refl, SameData-refl ds)
      | inr (old, opened) ↦
          rw (save-opened api d ds files ini p old set opened) (refl, save_db_file-SameData ds _)
    ]
  ]

  -- A save that returns 0 leaves nothing to be saved.
  pub save_db_file-AllClean :
      (ds : List (DbName D)) (files : Files)
      → (save_db_file api ds files).0 ≡ pos 0
      → AllClean (save_db_file api ds files).1
  unfolding save_db_file
  save_db_file-AllClean [] files e = tt
  save_db_file-AllClean (d ∷ ds) files e = elim (Option-cases (due d)) [
    | inl idle ↦
        rw (save-idle api d ds files idle)
          (idle, save_db_file-AllClean ds files (rw (save-idle api d ds files idle) at e))
    | inr ((ini, p), set) ↦ elim (Option-cases (files p)) [
      | inl closed ↦
          let f : negsuc 0 ≡ pos 0 = rw (save-closed api d ds files ini p set closed) at e in cc
      | inr (old, opened) ↦ rw (save-opened api d ds files ini p old set opened) (
        due-cleared d,
        save_db_file-AllClean ds _ (rw (save-opened api d ds files ini p old set opened) at e),
      )
    ]
  ]

  -- It touches no file that none of the databases is kept in.
  save_db_file-elsewhere :
      (ds : List (DbName D)) (files : Files) (q : DbPath)
      → NotIn q ds
      → (save_db_file api ds files).2 q ≡ files q
  unfolding save_db_file
  save_db_file-elsewhere [] files q out = refl
  save_db_file-elsewhere (d ∷ ds) files q (ne, out) = elim (Option-cases (due d)) [
    | inl idle ↦ rw (save-idle api d ds files idle) (save_db_file-elsewhere ds files q out)
    | inr ((ini, p), set) ↦ elim (Option-cases (files p)) [
      | inl closed ↦ rw (save-closed api d ds files ini p set closed)
      | inr (old, opened) ↦ rw (save-opened api d ds files ini p old set opened) (
          save_db_file-elsewhere ds _ q out
          ∙ write_file-ne files p q _ (λ e. ne (due-path d ini p set ∙ ap some (sym e))))
    ]
  ]

  -- The file of a database that is saved holds the new text, followed by whatever the old text was
  -- longer by: it is not cut off.
  pub save_db_file-tail :
      (ds : List (DbName D)) (d : DbName D) (ini : D) (p : DbPath) (files : Files) (old : Bytes)
      → due d ≡ some (ini, p)
      → files p ≡ some old
      → NotIn p ds
      → (save_db_file api (d ∷ ds) files).2 p
        ≡ some (api.dump ini ++ drop (length (api.dump ini)) old)
  save_db_file-tail ds d ini p files old set opened out =
      rw (save-opened api d ds files ini p old set opened)
        (save_db_file-elsewhere ds _ p out ∙ (let same = same_path_refl p in rw same))
