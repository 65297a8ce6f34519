-- ===== src/Db/Locks.antt =====
-- The calls that `imi_db_mi_save_db_file` makes on its files, in order, with `file_lock` and
-- `file_unlock`. The library buffers what is printed to a file: `early text` bytes of a text are
-- written while it is printed, the others by `fclose`.
use small_project_for_life_w.Base.{
  ◌⊎◌, refl, ap, ◌∙◌, Bool-cases, append_assoc, ℕ, ◌<◌, ◌≡◌, ◌≢◌, Bool, true, false, Option, none,
  some, List, [], ◌∷◌, ◌++◌, Option-cases, inl, inr, drop, take, length, ℤ, pos, negsuc,
  if◌then◌else◌,
}
use small_project_for_life_w.Text.{Bytes}
use small_project_for_life_w.Db.{
  nvm_db_path, ram_ini_path, factory_path, same_path, DbPath, Files, write_file, IniApi, DbName,
  save_db_file, due,
}

pub data FileCall : Type 0 where
  locks unlocks closes : DbPath → FileCall
  writes : DbPath → Bytes → FileCall

-- `file_lock`, with the file that `fd` stands for and whether `flock` succeeds
unfoldable pub file_lock : Option DbPath → Bool → ℤ × List FileCall
file_lock none granted = (pos 0, [])
file_lock (some p) granted = if granted then (pos 0, locks p ∷ []) else (negsuc 0, [])

unfoldable pub file_unlock : Option DbPath → Bool → ℤ × List FileCall
file_unlock none granted = (pos 0, [])
file_unlock (some p) granted = if granted then (pos 0, unlocks p ∷ []) else (negsuc 0, [])

abbrev pub written : DbPath → Bytes → List FileCall
written p [] = []
written p (b ∷ bytes) = writes p (b ∷ bytes) ∷ []

-- `iniparser_dump_ini` between the two calls of `flock`, and `fclose`
unfoldable pub save_file :
    (early : Bytes → ℕ) → (lock unlock : Bool) → DbPath → Bytes → List FileCall
unfolding file_lock file_unlock
save_file early lock unlock p text =
    (file_lock (some p) lock).1
    ++ written p (take (early text) text)
    ++ (file_unlock (some p) unlock).1
    ++ written p (drop (early text) text)
    ++ closes p ∷ []

module _ {D : Type 0} (api : IniApi D) (early : Bytes → ℕ) (lock unlock : DbPath → Bool) where
  -- the calls of `imi_db_mi_save_db_file`
  unfoldable pub save_calls : List (DbName D) → Files → List FileCall
  save_calls [] files = []
  save_calls (d ∷ ds) files =
      let kept = save_calls ds files in
      elim (due d) [
        | none ↦ kept
        | some (ini, p) ↦ elim (files p) [
          | none ↦ []
          | some old ↦
              let text = api.dump ini in
              save_file early (lock p) (unlock p) p text
              ++ save_calls ds (write_file files p (text ++ drop (length text) old))
        ]
      ]

-- `imi_db_timeout_sync_db`, which has no result
unfoldable pub timeout_sync_db :
    {D : Type 0} → IniApi D → List (DbName D) → Files → List (DbName D) × Files
timeout_sync_db api dbs files =
    let (ret, dbs', files') = save_db_file api dbs files in (dbs', files')

-- No file is written while its lock is held; `held` is the lock before the calls.
abbrev pub NeverUnderLock : Option DbPath → List FileCall → Type 0
NeverUnderLock held [] = Unit
NeverUnderLock held (locks p ∷ cs) = NeverUnderLock (some p) cs
NeverUnderLock held (unlocks p ∷ cs) = NeverUnderLock none cs
NeverUnderLock held (closes p ∷ cs) = NeverUnderLock none cs
NeverUnderLock held (writes p bytes ∷ cs) = (held ≢ some p) × NeverUnderLock held cs

-- The texts of the databases that are to be saved fit the buffer of a file.
abbrev pub AllShort : {D : Type 0} → IniApi D → (bufsiz : ℕ) → List (DbName D) → Type 0
AllShort api bufsiz [] = Unit
AllShort api bufsiz (d ∷ ds) =
    ((ini : _) (p : DbPath) → due d ≡ some (ini, p) → length (api.dump ini) < bufsiz)
    × AllShort api bufsiz ds

-- What is to be saved, with its place, up to the first file that cannot be opened.
abbrev pub saves : {D : Type 0} → IniApi D → Files → List (DbName D) → List (DbPath × Bytes)
saves api files [] = []
saves api files (d ∷ ds) =
    let rest = saves api files ds in
    elim (due d) [
      | none ↦ rest
      | some (ini, p) ↦ elim (files p) [ none ↦ [] | some old ↦ (p, api.dump ini) ∷ rest ]
    ]

-- Each file is locked, if the lock is granted, given back, then written with its whole text, and
-- closed.
abbrev pub late_calls : (DbPath → Bool) → List (DbPath × Bytes) → List FileCall
late_calls lock [] = []
late_calls lock ((p, text) ∷ rest) =
    (if lock p then locks p ∷ [] else [])
    ++ unlocks p ∷ written p text
    ++ closes p ∷ late_calls lock rest

-- Writing a file leaves it and the others as open as they were.
abbrev SameOpen : Files → Files → Type 0
SameOpen files files' =
    (p : DbPath)
    → ((files p ≡ none) × (files' p ≡ none))
      ⊎ ((a : Bytes) × (b : Bytes) × (files p ≡ some a) × (files' p ≡ some b))

SameOpen-refl : (files : Files) → SameOpen files files
SameOpen-refl files p = elim (Option-cases (files p)) [
  | inl closed ↦ inl (closed, closed)
  | inr (a, opened) ↦ inr (a, a, opened, opened)
]

same_path-≡ : (q p : DbPath) → same_path q p ≡ true → q ≡ p
same_path-≡ nvm_db_path nvm_db_path e = refl
same_path-≡ ram_ini_path ram_ini_path e = refl
same_path-≡ factory_path factory_path e = refl
same_path-≡ nvm_db_path ram_ini_path e = let bad : ⊥ = cc in absurd bad
same_path-≡ nvm_db_path factory_path e = let bad : ⊥ = cc in absurd bad
same_path-≡ ram_ini_path nvm_db_path e = let bad : ⊥ = cc in absurd bad
same_path-≡ ram_ini_path factory_path e = let bad : ⊥ = cc in absurd bad
same_path-≡ factory_path nvm_db_path e = let bad : ⊥ = cc in absurd bad
same_path-≡ factory_path ram_ini_path e = let bad : ⊥ = cc in absurd bad

write_file-SameOpen :
    (files files' : Files) (p : DbPath) (old text : Bytes)
    → files' p ≡ some old
    → SameOpen files files'
    → SameOpen files (write_file files' p text)
write_file-SameOpen files files' p old text opened same q = elim (Bool-cases (same_path q p)) [
  | inl hit ↦
      let e : files' q ≡ some old = ap files' (same_path-≡ q p hit) ∙ opened in
      elim (same q) [
        | inl (_, closed) ↦ let bad : ⊥ = cc in absurd bad
        | inr (a, b, f, g) ↦ inr (a, text, f, rw hit refl)
      ]
  | inr miss ↦ rw miss (same q)
]

save_file-late :
    (early : Bytes → ℕ) (lock : Bool) (p : DbPath) (text : Bytes) (cs : List FileCall)
    → early text ≡ 0
    → save_file early lock true p text ++ cs
      ≡ (if lock then locks p ∷ [] else []) ++ unlocks p ∷ written p text ++ closes p ∷ cs
unfolding save_file file_lock file_unlock
save_file-late early true p text cs e =
    rw (e, append_assoc (written p text) (closes p ∷ []) cs) refl
save_file-late early false p text cs e =
    rw (e, append_assoc (written p text) (closes p ∷ []) cs) refl

save_calls-late :
    {D : Type 0} (api : IniApi D) (early : Bytes → ℕ) (lock unlock : DbPath → Bool) (bufsiz : ℕ)
    (ds : List (DbName D)) (files files' : Files)
    → ((text : Bytes) → length text < bufsiz → early text ≡ 0)
    → ((p : DbPath) → unlock p ≡ true)
    → AllShort api bufsiz ds
    → SameOpen files files'
    → save_calls api early lock unlock ds files' ≡ late_calls lock (saves api files ds)
unfolding save_calls
save_calls-late api early lock unlock bufsiz [] files files' buffered freed short same = refl
save_calls-late api early lock unlock bufsiz (d ∷ ds) files files' buffered freed (fits, short)
      same =
    elim (Option-cases (due d)) [
      | inl idle ↦
          rw (save_calls, saves, idle)
            (save_calls-late api early lock unlock bufsiz ds files files' buffered freed short same)
      | inr ((ini, p), set) ↦ elim (same p) [
        | inl (closed, closed') ↦ rw (save_calls, saves, set, closed, closed') refl
        | inr (a, old, opened, opened') ↦
            let text = api.dump ini in
            let next = write_file files' p (text ++ drop (length text) old) in
            rw (save_calls, saves, set, opened, opened', freed p)
              (save_file-late early (lock p) p text (save_calls api early lock unlock ds next)
                  (buffered text (fits ini p set))
                ∙ ap
                    (λ (cs : List FileCall).
                      (if lock p then locks p ∷ [] else [])
                      ++ unlocks p ∷ written p text
                      ++ closes p ∷ cs)
                    (save_calls-late api early lock unlock bufsiz ds files next buffered freed short
                      (write_file-SameOpen files files' p old _ opened' same)))
      ]
    ]

late_calls-NeverUnderLock :
    (lock : DbPath → Bool) (ss : List (DbPath × Bytes)) → NeverUnderLock none (late_calls lock ss)
late_calls-NeverUnderLock lock [] = tt
late_calls-NeverUnderLock lock ((p, text) ∷ rest) =
    by_lock (lock p) text (late_calls-NeverUnderLock lock rest)
  where
    written_then :
        (text : Bytes) (cs : List FileCall)
        → NeverUnderLock none cs
        → NeverUnderLock none (written p text ++ closes p ∷ cs)
    written_then [] cs h = h
    written_then (b ∷ text) cs h = ((λ e. cc), h)

    by_lock :
        (granted : Bool) (text : Bytes)
        → NeverUnderLock none (late_calls lock rest)
        → NeverUnderLock none (
            (if granted then locks p ∷ [] else [])
            ++ unlocks p ∷ written p text
            ++ closes p ∷ late_calls lock rest)
    by_lock true text h = written_then text _ h
    by_lock false text h = written_then text _ h

-- Where the text of each database that is to be saved fits the buffer of a file, and every lock
-- can be given back: `imi_db_mi_save_db_file` makes exactly these calls, for each such database in
-- order up to the first whose file cannot be opened: it locks the file, if the lock is granted,
-- gives the lock back, then writes the whole text, and closes the file. So it writes no file under
-- its lock.
pub save_calls-NeverUnderLock :
    {D : Type 0} (api : IniApi D) (early : Bytes → ℕ) (lock unlock : DbPath → Bool) (bufsiz : ℕ)
    (ds : List (DbName D)) (files : Files)
    → ((text : Bytes) → length text < bufsiz → early text ≡ 0)
    → ((p : DbPath) → unlock p ≡ true)
    → AllShort api bufsiz ds
    → (save_calls api early lock unlock ds files ≡ late_calls lock (saves api files ds))
      × NeverUnderLock none (save_calls api early lock unlock ds files)
save_calls-NeverUnderLock api early lock unlock bufsiz ds files buffered freed short =
    let e =
      save_calls-late api early lock unlock bufsiz ds files files buffered freed short
        (SameOpen-refl files) in
    (e, rw e (late_calls-NeverUnderLock lock (saves api files ds)))
