-- ===== src/Text/Find.antt =====
-- `string_find`: the first place where the bytes of the pattern stand.
use small_project_for_life_w.Base.{
  ℕ, zero, suc, ◌+◌, ◌<◌, ◌≡◌, refl, ◌∙◌, ◌≢◌, inl, inr, ap, Bool, true, false, ◌&&◌, Option, none,
  some, [], ◌∷◌, arith, ◌==◌, Bool-cases, get_or, length,
}
use small_project_for_life_w.Text.{Bytes, match_loop, find_loop, string_find}

-- The bytes stand at this place.
abbrev pub occurs : Bytes → ℕ → Bytes → Bool
occurs psrc i [] = true
occurs psrc i (c ∷ cs) = (get_or psrc i 0 == c) && occurs psrc (i + 1) cs

-- A C string holds no NUL.
abbrev pub NoNul : Bytes → Type 0
NoNul [] = Unit
NoNul (c ∷ cs) = (c ≢ 0) × NoNul cs

module _ (psrc : Bytes) (i : ℕ) (pdst : Bytes) where
  match_loop-end : (k j : ℕ) → get_or pdst j 0 ≡ 0 → match_loop k psrc i pdst j ≡ j
  unfolding match_loop
  match_loop-end zero j e = refl
  match_loop-end (suc k) j e = rw e

  -- The inner loop, where byte `j` of the pattern is `c` and has been found: it stops at the end
  -- of the pattern exactly if the rest of it stands there too.
  match_loop-occurs :
      (k j c : ℕ) (cs : Bytes)
      → ((n : ℕ) → get_or pdst (j + n) 0 ≡ get_or (c ∷ cs) n 0)
      → NoNul (c ∷ cs)
      → get_or psrc (i + j) 0 ≡ c
      → length cs < k
      → (get_or pdst (match_loop k psrc i pdst j) 0 == 0) ≡ occurs psrc (i + (j + 1)) cs
  unfolding match_loop
  match_loop-occurs zero j c cs here no_nul found h = absurd (omega arith)
  match_loop-occurs (suc k) j c [] here (c_ne, _) found h =
      let at_j : get_or pdst j 0 ≡ c = ap (λ (n : ℕ). get_or pdst n 0) (omega arith) ∙ here 0 in
      let not_nul : (c == 0) ≡ false = ground arith in
      elim (Bool-cases (0 == get_or psrc (i + (j + 1)) 0)) [
        | inl same ↦
            rw (at_j, found, not_nul, here 1, same, match_loop-end k (j + 1) (here 1), here 1)
        | inr other ↦ rw (at_j, found, not_nul, here 1, other, here 1)
      ]
  match_loop-occurs (suc k) j c (d ∷ cs) here (c_ne, (d_ne, no_nul)) found h =
      let at_j : get_or pdst j 0 ≡ c = ap (λ (n : ℕ). get_or pdst n 0) (omega arith) ∙ here 0 in
      let not_nul : (c == 0) ≡ false = ground arith in
      let d_not_nul : (d == 0) ≡ false = ground arith in
      let later : (n : ℕ) → get_or pdst (j + 1 + n) 0 ≡ get_or (d ∷ cs) n 0 =
        λ n. ap (λ (m : ℕ). get_or pdst m 0) (omega arith) ∙ here (suc n) in
      elim (Bool-cases (d == get_or psrc (i + (j + 1)) 0)) [
        | inl same ↦
            let found' : get_or psrc (i + (j + 1)) 0 ≡ d = ground arith in
            let same' : (d == d) ≡ true = ground arith in
            rw (at_j, found, not_nul, here 1, found', same')
              (match_loop-occurs k (j + 1) d cs later (d_ne, no_nul) found' (omega arith)
                ∙ ap (λ (m : ℕ). occurs psrc m cs) (omega arith))
        | inr other ↦
            let other' : (get_or psrc (i + (j + 1)) 0 == d) ≡ false = ground arith in
            rw (at_j, found, not_nul, here 1, other, here 1, d_not_nul, other')
      ]

-- the answer that a search should give, over the places from `i` on that are left
abbrev pub First : (psrc : Bytes) (k i : ℕ) (pdst : Bytes) → Option ℕ → Type 0
First psrc k i pdst none = (n : ℕ) → n < k → occurs psrc (i + n) pdst ≡ false
First psrc k i pdst (some at) =
    (n : ℕ) × (n < k)
    × (at ≡ i + n)
    × (occurs psrc at pdst ≡ true)
    × ((m : ℕ) → m < n → occurs psrc (i + m) pdst ≡ false)

not_before :
    (psrc : Bytes) (i b : ℕ) (pdst : Bytes)
    → occurs psrc i pdst ≡ false
    → ((m : ℕ) → m < b → occurs psrc (i + 1 + m) pdst ≡ false)
    → (m : ℕ) → m < suc b
    → occurs psrc (i + m) pdst ≡ false
not_before psrc i b pdst miss f zero h = ap (λ (x : ℕ). occurs psrc x pdst) (omega arith) ∙ miss
not_before psrc i b pdst miss f (suc m) h =
    ap (λ (x : ℕ). occurs psrc x pdst) (omega arith) ∙ f m (omega arith)

module _ (psrc : Bytes) (c : ℕ) (cs : Bytes) (no_nul : NoNul (c ∷ cs)) where
  find_test :
      (i : ℕ)
      → get_or psrc i 0 ≡ c
      → (get_or (c ∷ cs) (match_loop (length (c ∷ cs)) psrc i (c ∷ cs) 0) 0 == 0)
        ≡ occurs psrc (i + 1) cs
  find_test i e =
      match_loop-occurs psrc i (c ∷ cs) (length (c ∷ cs)) 0 c cs
        (λ n. ap (λ (m : ℕ). get_or (c ∷ cs) m 0) (omega arith)) no_nul
        (ap (λ (m : ℕ). get_or psrc m 0) (omega arith) ∙ e) (omega arith)
      ∙ ap (λ (m : ℕ). occurs psrc m cs) (omega arith)

  First-later :
      (k i : ℕ) (r : Option ℕ)
      → occurs psrc i (c ∷ cs) ≡ false
      → First psrc k (i + 1) (c ∷ cs) r
      → First psrc (suc k) i (c ∷ cs) r
  First-later k i none miss f = not_before psrc i k (c ∷ cs) miss f
  First-later k i (some at) miss (n, h, e, hit, before) =
      (suc n, omega arith, omega arith, hit, not_before psrc i n (c ∷ cs) miss before)

  find_loop-First : (k i : ℕ) → First psrc k i (c ∷ cs) (find_loop k psrc i (c ∷ cs))
  unfolding find_loop
  find_loop-First zero i = λ n h. absurd (omega arith)
  find_loop-First (suc k) i = elim (Bool-cases (get_or psrc i 0 == c)) [
    | inl same ↦ elim (Bool-cases (occurs psrc (i + 1) cs)) [
      | inl all ↦
          rw (same, find_test i (ground arith), all)
            (0, omega arith, omega arith, ground arith, λ m h. absurd (omega arith))
      | inr part ↦
          rw (same, find_test i (ground arith), part)
            (First-later k i _ (ground arith) (find_loop-First k (i + 1)))
    ]
    | inr other ↦ rw other (First-later k i _ (ground arith) (find_loop-First k (i + 1)))
  ]

-- `string_find` finds the first of the `len` places where the pattern stands, and -1 if it stands
-- at none of them; the pattern is a string that is not empty.
pub string_find-First :
    (psrc : Bytes) (len c : ℕ) (cs : Bytes)
    → NoNul (c ∷ cs)
    → First psrc len 0 (c ∷ cs) (string_find psrc len (c ∷ cs))
unfolding string_find
string_find-First psrc len c cs no_nul = find_loop-First psrc c cs no_nul len 0
