-- ===== src/DevList/Swap/Search.antt =====
-- The loop of `list_swap` that looks for the two nodes and those before them.
use small_project_for_life_w.Base.{
  ℕ, zero, suc, ◌+◌, ◌<◌, ◌≤◌, ◌≡◌, refl, sym, ap, ◌∙◌, Bool-cases, inl, inr, true, false, [], ◌∷◌,
  ◌++◌, arith, if◌then◌else◌, length, ℤ, pos, is_at,
}
use small_project_for_life_w.Memory.{Ptr, null, ok}
use small_project_for_life_w.Memory.Chain.{Cells, first, Chain, first-ne-null, load-ok}
use small_project_for_life_w.Memory.Relink.{last}
use small_project_for_life_w.DevList.{Mem, Found, is_before, swap_find}

-- What the search keeps for one position: the node before it, and the one at it.
abbrev pub found_at : Cells Ptr → ℤ → ℕ → Ptr × Ptr → Ptr × Ptr
found_at [] p i r = r
found_at ((q, d) ∷ xs) p i r =
    found_at xs p (i + 1) (if is_before i p then (q, first xs null) else r)

pub swap_find-ok :
    (s : Mem) (k : ℕ) (xs : Cells Ptr) (p q : ℤ) (i : ℕ) (f : Found)
    → Chain s.cells null xs
    → length xs < k
    → swap_find k p q (first xs null) i f s
      ≡ ok
          (record {
            a_pre = (found_at xs p i (f.a_pre, f.a)).0;
            b_pre = (found_at xs q i (f.b_pre, f.b)).0;
            a = (found_at xs p i (f.a_pre, f.a)).1;
            b = (found_at xs q i (f.b_pre, f.b)).1;
          })
          s
unfolding swap_find
swap_find-ok s zero xs p q i f ch h = absurd (omega arith)
swap_find-ok s (suc k) [] p q i f ch h = refl
swap_find-ok s (suc k) ((c, d) ∷ xs) p q i f (ne, here, out, ch) h =
    rw (first-ne-null s.cells c d xs (ne, here, out, ch), load-ok c d (first xs null) s ne here)
      (elim (Bool-cases (is_before i p)) [
        | inl x ↦ elim (Bool-cases (is_before i q)) [
          | inl y ↦ rw (x, y, found_at) (swap_find-ok s k xs p q (i + 1) _ ch (omega arith))
          | inr y ↦ rw (x, y, found_at) (swap_find-ok s k xs p q (i + 1) _ ch (omega arith))
        ]
        | inr x ↦ elim (Bool-cases (is_before i q)) [
          | inl y ↦ rw (x, y, found_at) (swap_find-ok s k xs p q (i + 1) _ ch (omega arith))
          | inr y ↦ rw (x, y, found_at) (swap_find-ok s k xs p q (i + 1) _ ch (omega arith))
        ]
      ])

-- A position that is passed stays as it is.
found_at-passed : (xs : Cells Ptr) (n i : ℕ) (r : Ptr × Ptr) → n ≤ i → found_at xs (pos n) i r ≡ r
found_at-passed [] n i r h = refl
found_at-passed ((q, d) ∷ xs) n i r h =
    let miss : is_before i (pos n) ≡ false = ground arith in
    rw (miss, found_at) (found_at-passed xs n (i + 1) r (omega arith))

found_at-later :
    (pre xs : Cells Ptr) (i n : ℕ) (r : Ptr × Ptr)
    → found_at (pre ++ xs) (pos (i + length pre + suc n)) i r
      ≡ found_at xs (pos (i + length pre + suc n)) (i + length pre) r
found_at-later [] xs i n r = ap (λ j. found_at xs (pos (i + 0 + suc n)) j r) (omega arith)
found_at-later ((q, d) ∷ pre) xs i n r =
    let miss : is_before i (pos (i + suc (length pre) + suc n)) ≡ false = ground arith in
    let same : i + 1 + length pre ≡ i + suc (length pre) = omega arith in
    rw (miss, found_at)
      (ap (λ j. found_at (pre ++ xs) (pos (j + suc n)) (i + 1) r) (sym same)
        ∙ found_at-later pre xs (i + 1) n r
        ∙ ap (λ j. found_at xs (pos (j + suc n)) j r) same)

found_at-behind :
    (d : Ptr × Ptr) (pre xs : Cells Ptr) (c : Ptr × Ptr) (i : ℕ) (r : Ptr × Ptr)
    → found_at ((d ∷ pre) ++ c ∷ xs) (pos (i + suc (length pre))) i r ≡ ((last d pre).0, c.0)
found_at-behind d [] xs c i r =
    let hit : is_before i (pos (i + suc 0)) ≡ true = ground arith in
    rw (hit, found_at) (found_at-passed (c ∷ xs) (i + suc 0) (i + 1) (d.0, c.0) (omega arith))
found_at-behind d (e ∷ pre) xs c i r =
    let miss : is_before i (pos (i + suc (suc (length pre)))) ≡ false = ground arith in
    let same : i + 1 + suc (length pre) ≡ i + suc (suc (length pre)) = omega arith in
    rw (miss, found_at)
      (ap (λ j. found_at ((e ∷ pre) ++ c ∷ xs) (pos j) (i + 1) r) (sym same)
        ∙ found_at-behind e pre xs c (i + 1) r)

abbrev pub before : Cells Ptr → Ptr
before [] = null
before (c ∷ xs) = (last c xs).0

abbrev pub head_at : Cells Ptr → ℤ → Ptr
head_at xs p = if is_at 0 p then first xs null else null

-- what the search has for the first of the two positions,
pub found_at-first :
    (pre rest : Cells Ptr) (c : Ptr × Ptr)
    → found_at
        (pre ++ c ∷ rest)
        (pos (length pre))
        0
        (null, head_at (pre ++ c ∷ rest) (pos (length pre)))
      ≡ (before pre, c.0)
found_at-first [] rest c = found_at-passed (c ∷ rest) 0 0 (null, c.0) (omega arith)
found_at-first (d ∷ pre) rest c =
    let same : 0 + suc (length pre) ≡ suc (length pre) = omega arith in
    ap
      (λ j.
        found_at ((d ∷ pre) ++ c ∷ rest) (pos j) 0
          (null, head_at ((d ∷ pre) ++ c ∷ rest) (pos (suc (length pre)))))
      (sym same)
    ∙ found_at-behind d pre rest c 0 _

-- and for the second
pub found_at-second :
    (pre mid post : Cells Ptr) (c d : Ptr × Ptr)
    → let xs = pre ++ c ∷ (mid ++ d ∷ post) in
      let p = pos (length pre + suc (length mid)) in
      found_at xs p 0 (null, head_at xs p) ≡ ((last c mid).0, d.0)
found_at-second pre mid post c d =
    let xs = pre ++ c ∷ (mid ++ d ∷ post) in
    let r : Ptr × Ptr = (null, head_at xs (pos (length pre + suc (length mid)))) in
    let same : 0 + length pre ≡ length pre = omega arith in
    ap (λ j. found_at xs (pos (j + suc (length mid))) 0 r) (sym same)
    ∙ found_at-later pre (c ∷ (mid ++ d ∷ post)) 0 (length mid) r
    ∙ found_at-behind c mid post d (0 + length pre) r
