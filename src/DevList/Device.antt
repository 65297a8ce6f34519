-- ===== src/DevList/Device.antt =====
-- Devices by their id: `list_index_by_devID`, and the removal that main.c builds from it.
use small_project_for_life_w.Base.{
  ℕ, zero, suc, ◌+◌, ◌<◌, ◌≡◌, refl, ap, ◌∙◌, ◌≢◌, ◌↔◌, inl, inr, true, false, none, some, List, [],
  ◌∷◌, ◌++◌, arith, Bool-cases, length, length-append, pos, negsuc,
}
use small_project_for_life_w.Memory.{Ptr, null, write, ok, Yields, ◌>>=◌}
use small_project_for_life_w.Memory.Chain.{Cells, first, Chain, first-ne-null, load-ok}
use small_project_for_life_w.DevList.{
  DevInfo, Blocks, Mem, Do, load_block, str_eq, dev_id_loop, list_index_by_dev_id, list_pop,
}
use small_project_for_life_w.DevList.Pop.{list_pop-at, list_pop-none}

-- `strcmp` finds two strings equal exactly when their bytes are.
pub str_eq_iff : (s t : List ℕ) → (str_eq s t ≡ true) ↔ (s ≡ t)
unfolding str_eq
str_eq_iff [] [] = (λ _. refl, λ _. refl)
str_eq_iff [] (b ∷ t) = (λ e. cc, λ e. cc)
str_eq_iff (a ∷ s) [] = (λ e. cc, λ e. cc)
str_eq_iff (a ∷ s) (b ∷ t) =
    (λ e. ground (arith, (str_eq_iff s t).0), λ e. ground (arith, (str_eq_iff s t).1))

-- No device of the list has the id, and each has its block of data.
abbrev pub Without : Blocks → List ℕ → Cells Ptr → Type 0
Without b id [] = Unit
Without b id ((a, d) ∷ xs) =
    ((v : DevInfo) × (d ≢ null) × (b d ≡ some v) × (v.dev_id ≢ id)) × Without b id xs

-- a read of a block of data
pub load_block-ok :
    (s : Mem) (d : Ptr) (v : DevInfo) → d ≢ null → s.rest d ≡ some v → load_block d s ≡ ok v s
unfolding load_block
load_block-ok s d v ne here = ground arith

module _ (s : Mem) (key : Ptr) (w : DevInfo) (key_ne : key ≢ null)
    (key_at : s.rest key ≡ some w) where
  dev_id_loop-hit :
      (k i : ℕ) (pre post : Cells Ptr) (a d : Ptr) (v : DevInfo)
      → Chain s.cells null (pre ++ (a, d) ∷ post)
      → Without s.rest w.dev_id pre
      → d ≢ null
      → s.rest d ≡ some v
      → v.dev_id ≡ w.dev_id
      → length pre < k
      → dev_id_loop k key (first (pre ++ (a, d) ∷ post) null) i s ≡ ok (pos (i + length pre)) s
  unfolding dev_id_loop
  dev_id_loop-hit zero i pre post a d v ch none_before nd block same h = absurd (omega arith)
  dev_id_loop-hit (suc k) i [] post a d v ch none_before nd block same h =
      rw
        (
          first-ne-null s.cells a d post ch,
          ◌>>=◌,
          load-ok a d (first post null) s ch.0 ch.1,
          load_block-ok s d v nd block,
          load_block-ok s key w key_ne key_at,
          (str_eq_iff v.dev_id w.dev_id).1 same,
        )
        (ap (λ (n : ℕ). ok (pos n) s) (omega arith))
  dev_id_loop-hit (suc k) i ((b, e) ∷ pre) post a d v ch ((u, e_ne, e_at, other), none_before) nd
        block same h =
      let miss : str_eq u.dev_id w.dev_id ≡ false = elim (Bool-cases (str_eq u.dev_id w.dev_id)) [
        | inl hit ↦ absurd (other ((str_eq_iff u.dev_id w.dev_id).0 hit))
        | inr miss ↦ miss
      ] in
      rw
        (
          first-ne-null s.cells b e (pre ++ (a, d) ∷ post) ch,
          ◌>>=◌,
          load-ok b e (first (pre ++ (a, d) ∷ post) null) s ch.0 ch.1,
          load_block-ok s e u e_ne e_at,
          load_block-ok s key w key_ne key_at,
          miss,
        )
        (dev_id_loop-hit k (i + 1) pre post a d v ch.3 none_before nd block same (omega arith)
          ∙ ap (λ (n : ℕ). ok (pos n) s) (omega arith))

  dev_id_loop-miss :
      (k i : ℕ) (xs : Cells Ptr)
      → Chain s.cells null xs
      → Without s.rest w.dev_id xs
      → length xs < k
      → dev_id_loop k key (first xs null) i s ≡ ok (negsuc 0) s
  unfolding dev_id_loop
  dev_id_loop-miss zero i xs ch none_before h = absurd (omega arith)
  dev_id_loop-miss (suc k) i [] ch none_before h = refl
  dev_id_loop-miss (suc k) i ((b, e) ∷ xs) ch ((u, e_ne, e_at, other), none_before) h =
      let miss : str_eq u.dev_id w.dev_id ≡ false = elim (Bool-cases (str_eq u.dev_id w.dev_id)) [
        | inl hit ↦ absurd (other ((str_eq_iff u.dev_id w.dev_id).0 hit))
        | inr miss ↦ miss
      ] in
      rw
        (
          first-ne-null s.cells b e xs ch,
          ◌>>=◌,
          load-ok b e (first xs null) s ch.0 ch.1,
          load_block-ok s e u e_ne e_at,
          load_block-ok s key w key_ne key_at,
          miss,
        )
        (dev_id_loop-miss k (i + 1) xs ch.3 none_before (omega arith))

-- `list_pop(devTable, list_index_by_dev_id(devTable, devInfo))`, as main.c removes a device
pub pop_device : ℕ → Ptr → Ptr → Do (ℕ × Ptr)
pop_device fuel head key = do i ← list_index_by_dev_id fuel head key; list_pop fuel head i

module _ (s : Mem) (key : Ptr) (w : DevInfo) (key_ne : key ≢ null)
    (key_at : s.rest key ≡ some w) where
  -- Where a device has the id of the key and none before it has, its node leaves the chain and is
  -- freed, with its data unless it is the first; the function says so by 1.
  pub pop_device-found :
      (fuel : ℕ) (pre post : Cells Ptr) (a d : Ptr) (v : DevInfo)
      → Chain s.cells null (pre ++ (a, d) ∷ post)
      → Without s.rest w.dev_id pre
      → d ≢ null
      → s.rest d ≡ some v
      → v.dev_id ≡ w.dev_id
      → length (pre ++ (a, d) ∷ post) < fuel
      → Yields (pop_device fuel (first (pre ++ (a, d) ∷ post) null) key s) (λ (r, head) t.
        (r ≡ 1)
        × (head ≡ first (pre ++ post) null)
        × Chain t.cells null (pre ++ post)
        × (t.cells a ≡ none)
        × (t.rest ≡ elim pre [ [] ↦ s.rest | _ ∷ _ ↦ write s.rest d none ]))
  unfolding pop_device list_index_by_dev_id
  pop_device-found fuel pre post a d v ch none_before nd block same h =
      rw
        (
          ◌>>=◌,
          dev_id_loop-hit s key w key_ne key_at fuel 0 pre post a d v ch none_before nd block same
              (omega (arith, length-append pre ((a, d) ∷ post))),
          (let start : 0 + length pre ≡ length pre = omega arith in start),
        )
        (list_pop-at s fuel pre post a d v ch h nd block)

  -- Where no device has the id of the key, nothing changes, and the function says so by 0.
  pub pop_device-missing :
      (fuel : ℕ) (xs : Cells Ptr)
      → Chain s.cells null xs
      → Without s.rest w.dev_id xs
      → length xs < fuel
      → pop_device fuel (first xs null) key s ≡ ok (0, first xs null) s
  unfolding pop_device list_index_by_dev_id
  pop_device-missing fuel xs ch none_before h =
      rw (◌>>=◌, dev_id_loop-miss s key w key_ne key_at fuel 0 xs ch none_before h)
        (list_pop-none s fuel xs (negsuc 0) ch h refl)
