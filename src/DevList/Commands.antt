-- ===== src/DevList/Commands.antt =====
-- The table that 20180208/main.c keeps, and the commands of its loop. `devInfo` is the block that
-- `main` allocates, `devInfo1` the local one; what `malloc` returns is `n` and `d`.
mod Samples
use small_project_for_life_w.Base.{
  ℕ, zero, suc, ◌+◌, ◌<◌, ◌≡◌, refl, sym, ◌∙◌, ◌≢◌, ap, true, false, none, some, List, [], ◌∷◌,
  ◌++◌, arith, ltb, if◌then◌else◌, length, length-append, append_assoc, ℤ, pos,
}
use small_project_for_life_w.Memory.{Ptr, null, ok, pure, ◌>>=◌, ◌>>◌, out_of_fuel}
use small_project_for_life_w.Memory.Chain.{Cells, first, Chain}
use small_project_for_life_w.DevList.{
  DevInfo, Blocks, Mem, Do, load_block, put_block, list_init, list_len, list_get, list_append,
  list_pop, list_pop_tail, list_index_by_dev_id,
}
use small_project_for_life_w.DevList.Device.{load_block-ok}
use small_project_for_life_w.DevList.Read.{at, at-append, list_len-length, list_get-at}

pub data Command : Type 0 where
  add pop getindex1 getindex2 poptail print other : Command

-- what a command prints: nothing, an index and whether the removal succeeded, or the devices
pub data Shown : Type 0 where
  nothing : Shown
  index : ℤ → Shown
  removed : ℤ → ℕ → Shown
  tail_removed : ℕ → Shown
  devices : List DevInfo → Shown

-- "111122", "111133", "111144", "111166", "111177": four ones and the digit twice
abbrev dev_id_of : ℕ → List ℕ
dev_id_of c = 49 ∷ 49 ∷ 49 ∷ 49 ∷ c ∷ c ∷ []

-- "0000" to "0003"
abbrev short_addr_of : ℕ → List ℕ
short_addr_of c = 48 ∷ 48 ∷ 48 ∷ c ∷ []

-- the `memset` of a device and the two `sprintf` that follow
abbrev pub blank_device : (digit short : ℕ) → DevInfo
blank_device digit short = record {
  dev_id = dev_id_of digit;
  short_addr = short_addr_of short;
  flag = 0;
  other = 0;
}

-- the two `sprintf` alone
pub rename_device : (devInfo : Ptr) → (digit short : ℕ) → Do (Unit {0})
rename_device devInfo digit short = do
  v ← load_block devInfo
  put_block devInfo (record v { dev_id = dev_id_of digit; short_addr = short_addr_of short })

-- The loop that prints, from index `i` on; `list_len` walks the list in every round.
pub print_loop : ℕ → ℕ → (head : Ptr) → (i : ℕ) → (temp : Ptr) → Do (List DevInfo)
print_loop fuel zero head i temp = λ _. out_of_fuel
print_loop fuel (suc k) head i temp = do
  len ← list_len fuel head
  if ltb i len
      then (do
        r ← list_get fuel head (pos i)
        let found : Ptr = elim r [ none ↦ temp | some p ↦ p ]
        v ← load_block found
        vs ← print_loop fuel k head (i + 1) found
        pure (v ∷ vs))
      else pure []

-- one round of the loop over the commands
pub command : ℕ → (devInfo devInfo1 n d : Ptr) → Command → (head temp : Ptr) → Do (Shown × Ptr)
unfolding rename_device print_loop
command fuel devInfo devInfo1 n d add head temp = do
  rename_device devInfo 54 48
  head' ← list_append fuel n d head devInfo
  pure (nothing, head')
command fuel devInfo devInfo1 n d pop head temp = do
  put_block devInfo (blank_device 52 48)
  i ← list_index_by_dev_id fuel head devInfo
  r ← list_pop fuel head i
  pure (removed i r.0, r.1)
command fuel devInfo devInfo1 n d getindex1 head temp = do
  put_block devInfo1 (blank_device 55 48)
  i ← list_index_by_dev_id fuel head devInfo1
  pure (index i, head)
command fuel devInfo devInfo1 n d getindex2 head temp = do
  put_block devInfo1 (blank_device 51 48)
  i ← list_index_by_dev_id fuel head devInfo1
  pure (index i, head)
command fuel devInfo devInfo1 n d poptail head temp = do
  r ← list_pop_tail fuel head
  pure (tail_removed r.0, r.1)
command fuel devInfo devInfo1 n d print head temp = do
  vs ← print_loop fuel fuel head 0 temp
  pure (devices vs, head)
command fuel devInfo devInfo1 n d other head temp = pure (nothing, head)

-- The table as `main` sets it up, with three devices; `fresh` is what each `malloc` returns.
pub set_up : ℕ → (devInfo : Ptr) → (fresh : ℕ → Ptr × Ptr) → Do Ptr
unfolding rename_device
set_up fuel devInfo fresh = do
  put_block devInfo (blank_device 50 49)
  a ← list_append fuel (fresh 0).0 (fresh 0).1 list_init devInfo
  rename_device devInfo 51 50
  b ← list_append fuel (fresh 1).0 (fresh 1).1 a devInfo
  rename_device devInfo 52 51
  list_append fuel (fresh 2).0 (fresh 2).1 b devInfo

-- What `main` does with the table before its loop: it prints it, removes the device "111144", and
-- removes the last. These are the bodies of three commands.
pub first_round :
    ℕ → (devInfo devInfo1 n d : Ptr) → (head temp : Ptr) → Do (Shown × Shown × Shown × Ptr)
first_round fuel devInfo devInfo1 n d head temp = do
  shown ← command fuel devInfo devInfo1 n d print head temp
  popped ← command fuel devInfo devInfo1 n d pop shown.1 temp
  last ← command fuel devInfo devInfo1 n d poptail popped.1 temp
  pure (shown.0, popped.0, last.0, last.1)

-- The nodes of the list hold these devices.
abbrev pub Holds : Blocks → Cells Ptr → List DevInfo → Type 0
Holds b [] [] = Unit
Holds b [] (_ ∷ _) = ⊥
Holds b (_ ∷ _) [] = ⊥
Holds b ((a, d) ∷ xs) (v ∷ vs) = (d ≢ null) × (b d ≡ some v) × Holds b xs vs

module _ (s : Mem) where
  -- `whole` is the list, of which the rounds before have printed the first `i` devices
  print_from :
      (fuel k i : ℕ) (whole pre post : Cells Ptr) (vs : List DevInfo) (temp : Ptr)
      → whole ≡ pre ++ post
      → i ≡ length pre
      → Chain s.cells null whole
      → Holds s.rest post vs
      → length whole < fuel
      → length post < k
      → print_loop fuel k (first whole null) i temp s ≡ ok vs s
  unfolding print_loop
  print_from fuel zero i whole pre post vs temp w e ch held h h' = absurd (omega arith)
  print_from fuel (suc k) i whole pre [] [] temp w e ch held h h' =
      let len : length whole ≡ length pre + 0 = ap length w ∙ length-append pre [] in
      let over : ltb i (length whole) ≡ false = ground arith in
      rw (◌>>=◌, list_len-length s fuel whole ch h, over)
  print_from fuel (suc k) i whole pre [] (_ ∷ _) temp w e ch held h h' = absurd held
  print_from fuel (suc k) i whole pre (_ ∷ _) [] temp w e ch held h h' = absurd held
  print_from fuel (suc k) i whole pre ((a, d) ∷ post) (v ∷ vs) temp w e ch (ne, here, held) h h' =
      let len : length whole ≡ length pre + suc (length post) =
        ap length w ∙ length-append pre ((a, d) ∷ post) in
      let below : ltb i (length whole) ≡ true = ground arith in
      let found : at whole (pos i) ≡ some (a, d) = rw (w, e) (at-append pre post (a, d)) in
      rw (
        ◌>>=◌,
        list_len-length s fuel whole ch h,
        below,
        list_get-at s fuel whole (pos i) ch h,
        found,
        load_block-ok s d v ne here,
        print_from fuel k (i + 1) whole (pre ++ (a, d) ∷ []) post vs d
            (w ∙ sym (append_assoc pre ((a, d) ∷ []) post))
            (omega (arith, e, length-append pre ((a, d) ∷ []))) ch held h (omega arith),
      )

  -- The command `print` shows the devices of the list in their order, and changes nothing.
  pub command-print :
      (fuel devInfo devInfo1 n d : ℕ) (xs : Cells Ptr) (vs : List DevInfo) (temp : Ptr)
      → Chain s.cells null xs
      → Holds s.rest xs vs
      → length xs < fuel
      → command fuel devInfo devInfo1 n d print (first xs null) temp s
        ≡ ok (devices vs, first xs null) s
  unfolding command
  command-print fuel devInfo devInfo1 n d xs vs temp ch held h =
      rw (◌>>=◌, print_from fuel fuel 0 xs [] xs vs temp refl refl ch held h h)
