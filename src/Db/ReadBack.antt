-- ===== src/Db/ReadBack.antt =====
-- What auto_imi_db_bin/main.c prints of the values that it has set.
use small_project_for_life_w.Base.{
  ℕ, ◌<◌, ◌≡◌, refl, sym, ap, subst, ◌∙◌, ◌≢◌, true, false, some, List, [], ◌∷◌, ◌++◌, arith,
  length, drop, pos, map,
}
use small_project_for_life_w.Text.{Bytes, string_hash}
use small_project_for_life_w.Db.{
  Files, IniApi, DbName, imi_db_mi_get_value, imi_db_mi_set_value, ret_ok, key_offset, rom_name,
  nvm_name, ram_name, mem_name, longer,
}
use small_project_for_life_w.Db.Dispatch.{Lacks, names-apart}
use small_project_for_life_w.Db.Save.{SameData}
use small_project_for_life_w.Db.Values.{SetThenGet, set_value-stored, set_value-get}
use small_project_for_life_w.Db.Program.{
  set_and_get, main_values, c_string, bind_status, motor_reset, runlevel, two_text, four_text,
  normal_text,
}

-- What iniparser documents of `iniparser_set` on a dictionary, if there is memory: it returns 0.
abbrev pub SetWorks : {D : Type 0} → IniApi D → Type 0
SetWorks {D} api =
    (ini : D) (key value : Bytes)
    → ((api.ini_set (some ini) key value).0 ≡ pos 0)
      × ((ini' : D) × ((api.ini_set (some ini) key value).1 ≡ some ini'))

-- The databases have these hashes, and each its dictionary.
abbrev pub FilledAs : {D : Type 0} → List (DbName D) → List ℕ → Type 0
FilledAs [] [] = Unit
FilledAs [] (h ∷ hs) = ⊥
FilledAs (d ∷ ds) [] = ⊥
FilledAs {D} (d ∷ ds) (h ∷ hs) = (d.hash ≡ h) × ((ini : D) × (d.db ≡ some ini)) × FilledAs ds hs

abbrev Without : ℕ → List ℕ → Type 0
Without h [] = Unit
Without h (g ∷ gs) = (g ≢ h) × Without h gs

module _ {D : Type 0} where
  SameData-FilledAs :
      (ds es : List (DbName D)) (hs : List ℕ) → SameData ds es → FilledAs ds hs → FilledAs es hs
  SameData-FilledAs [] [] hs same f = f
  SameData-FilledAs [] (e ∷ es) hs same f = absurd same
  SameData-FilledAs (d ∷ ds) [] hs same f = absurd same
  SameData-FilledAs (d ∷ ds) (e ∷ es) [] same f = f
  SameData-FilledAs (d ∷ ds) (e ∷ es) (h ∷ hs) (alike, same) (at, (ini, filled), f) = (
    ap (λ (x : DbName D). x.hash) alike ∙ at,
    (ini, ap (λ (x : DbName D). x.db) alike ∙ filled),
    SameData-FilledAs ds es hs same f,
  )

  split_at :
      (hs : List ℕ) (h : ℕ) (hs' : List ℕ) (ds : List (DbName D))
      → FilledAs ds (hs ++ h ∷ hs')
      → (pre : List (DbName D)) × (d : DbName D) × (post : List (DbName D)) × (ds ≡ pre ++ d ∷ post)
        × FilledAs pre hs
        × FilledAs (d ∷ post) (h ∷ hs')
  split_at [] h hs' [] f = absurd f
  split_at [] h hs' (d ∷ ds) f = ([], d, ds, refl, tt, f)
  split_at (g ∷ hs) h hs' [] f = absurd f
  split_at (g ∷ hs) h hs' (b ∷ ds) (at, filled, f) =
      let (pre, d, post, e, before, here) = split_at hs h hs' ds f in
      (b ∷ pre, d, post, ap (λ (l : List (DbName D)). b ∷ l) e, (at, filled, before), here)

  append-FilledAs :
      (pre post : List (DbName D)) (hs hs' : List ℕ)
      → FilledAs pre hs
      → FilledAs post hs'
      → FilledAs (pre ++ post) (hs ++ hs')
  append-FilledAs [] post [] hs' f g = g
  append-FilledAs [] post (h ∷ hs) hs' f g = absurd f
  append-FilledAs (d ∷ pre) post [] hs' f g = absurd f
  append-FilledAs (d ∷ pre) post (h ∷ hs) hs' (at, filled, f) g =
      (at, filled, append-FilledAs pre post hs hs' f g)

  FilledAs-Lacks :
      (pre : List (DbName D)) (hs : List ℕ) (h : ℕ) → FilledAs pre hs → Without h hs → Lacks h pre
  FilledAs-Lacks [] hs h f out = tt
  FilledAs-Lacks (d ∷ pre) [] h f out = absurd f
  FilledAs-Lacks (d ∷ pre) (g ∷ hs) h (at, filled, f) (ne, out) =
      ((λ e. ne (sym at ∙ e)), FilledAs-Lacks pre hs h f out)

  length-FilledAs : (pre : List (DbName D)) (hs : List ℕ) → FilledAs pre hs → length pre ≡ length hs
  length-FilledAs [] [] f = refl
  length-FilledAs [] (h ∷ hs) f = absurd f
  length-FilledAs (d ∷ pre) [] f = absurd f
  length-FilledAs (d ∷ pre) (h ∷ hs) (_, _, f) = omega (arith, length-FilledAs pre hs f)

module _ {D : Type 0} (api : IniApi D) (law : SetThenGet api) (works : SetWorks api) (hs : List ℕ)
    (h : ℕ) (hs' : List ℕ) (behind : 0 < length hs) (out : Without h hs) (files : Files)
    (key value : Bytes) (hit : h ≡ string_hash key 3)
    (fits : longer (length value) (pos 32) ≡ false) where
  -- the value is read back, and the databases are as before but for their entries
  abbrev ReadsBack : List (DbName D) → Type 0
  ReadsBack ds =
      let (_, ds', _) = imi_db_mi_set_value api ds files key value true in
      (imi_db_mi_get_value api ds' key (pos 32) ≡ (ret_ok, value)) × FilledAs ds' (hs ++ h ∷ hs')

  split-ReadsBack :
      (pre : List (DbName D)) (d : DbName D) (post : List (DbName D))
      → FilledAs pre hs
      → FilledAs (d ∷ post) (h ∷ hs')
      → ReadsBack (pre ++ d ∷ post)
  split-ReadsBack pre d post before (at, (ini, filled), after) =
      let lacks : Lacks (string_hash key 3) pre =
        subst (λ (g : ℕ). Lacks g pre) hit (FilledAs-Lacks pre hs h before out) in
      let some_before : length pre ≢ 0 = omega (arith, length-FilledAs pre hs before, behind) in
      let (done, (ini', stays)) = works ini (drop key_offset key) value in
      let done' : (api.ini_set d.db (drop key_offset key) value).0 ≡ pos 0 = rw filled done in
      let stays' : (api.ini_set d.db (drop key_offset key) value).1 ≡ some ini' = rw filled stays in
      (
        set_value-get api pre post d files key value true lacks (at ∙ hit) some_before (pos 32) law
            done' fits,
        SameData-FilledAs _ _ (hs ++ h ∷ hs')
            (set_value-stored api pre post d files key value true lacks (at ∙ hit) some_before)
            (append-FilledAs pre _ hs (h ∷ hs') before (at, (ini', stays'), after)),
      )

  set-ReadsBack : (ds : List (DbName D)) → FilledAs ds (hs ++ h ∷ hs') → ReadsBack ds
  set-ReadsBack ds f =
      let (pre, d, post, e, before, here) = split_at hs h hs' ds f in
      subst ReadsBack (sym e) (split-ReadsBack pre d post before here)

abbrev pub name_hashes : List ℕ
name_hashes =
    map (λ (name : Bytes). string_hash name 3) (rom_name ∷ nvm_name ∷ ram_name ∷ mem_name ∷ [])

bind_status-hash : string_hash nvm_name 3 ≡ string_hash bind_status 3
unfolding string_hash
bind_status-hash = refl

motor_reset-hash : string_hash ram_name 3 ≡ string_hash motor_reset 3
unfolding string_hash
motor_reset-hash = refl

runlevel-hash : string_hash mem_name 3 ≡ string_hash runlevel 3
unfolding string_hash
runlevel-hash = refl

module _ {D : Type 0} (api : IniApi D) where
  -- Once the four databases are there, `main` reads back the three values that it sets, whatever
  -- the files are, if iniparser stores and finds entries.
  pub main_values-ReadsBack :
      (ds : List (DbName D)) (files : Files)
      → SetThenGet api
      → SetWorks api
      → FilledAs ds name_hashes
      → main_values api ds files ≡ some two_text ∷ some four_text ∷ some normal_text ∷ []
  unfolding main_values set_and_get c_string
  main_values-ReadsBack ds files law works f =
      let (rom_nvm, rom_ram, rom_mem, nvm_ram, nvm_mem, ram_mem) = names-apart in
      let rom = string_hash rom_name 3 in
      let nvm = string_hash nvm_name 3 in
      let ram = string_hash ram_name 3 in
      let mem = string_hash mem_name 3 in
      let after₁ = imi_db_mi_set_value api ds files bind_status two_text true in
      let (read₁, f₁) =
        set-ReadsBack api law works (rom ∷ []) nvm (ram ∷ mem ∷ []) (omega arith) (rom_nvm, tt)
          files bind_status two_text bind_status-hash refl ds f in
      let after₂ = imi_db_mi_set_value api after₁.1 after₁.2 motor_reset four_text true in
      let (read₂, f₂) =
        set-ReadsBack api law works (rom ∷ nvm ∷ []) ram (mem ∷ []) (omega arith)
          (rom_ram, (nvm_ram, tt)) after₁.2 motor_reset four_text motor_reset-hash refl after₁.1
          f₁ in
      let (read₃, f₃) =
        set-ReadsBack api law works (rom ∷ nvm ∷ ram ∷ []) mem [] (omega arith)
          (rom_mem, (nvm_mem, (ram_mem, tt))) after₂.2 runlevel normal_text runlevel-hash refl
          after₂.1 f₂ in
      rw (read₁, read₂, read₃) refl
