-- ===== src/DevList/Read.antt =====
-- The functions of list.c that only read, on a list that is a chain of nodes.
use small_project_for_life_w.Base.{
  ℕ, zero, suc, ◌+◌, ◌<◌, ◌≡◌, refl, ap, ◌∙◌, ◌≢◌, inl, inr, true, false, Option, none, some, [],
  ◌∷◌, ◌++◌, arith, ◌==◌, if◌then◌else◌, Bool-cases, Option-cases, length, get_elem?, ℤ, pos,
  negsuc, is_at,
}
use small_project_for_life_w.Memory.{Ptr, null, node, Heap, ok, ◌>>=◌}
use small_project_for_life_w.Memory.Chain.{Cells, first, has, Chain, first-ne-null, load-ok}
use small_project_for_life_w.DevList.{Mem, len_loop, list_len, find_pos, list_get}

-- the node at a position that is any `int`
abbrev pub at : Cells Ptr → ℤ → Option (Ptr × Ptr)
at xs (pos n) = get_elem? xs n
at xs (negsuc n) = none

abbrev pub address : Option (Ptr × Ptr) → Ptr
address none = null
address (some (a, d)) = a

abbrev pub item? : Option (Ptr × Ptr) → Option Ptr
item? none = none
item? (some (a, d)) = some d

-- The same by counting up, as the loops do.
abbrev pub at_from : Cells Ptr → ℤ → ℕ → Option (Ptr × Ptr)
at_from [] p i = none
at_from (c ∷ xs) p i = if is_at i p then some c else at_from xs p (i + 1)

at_from-pos : (xs : Cells Ptr) (i n : ℕ) → at_from xs (pos (i + n)) i ≡ get_elem? xs n
at_from-pos [] i n = refl
at_from-pos (c ∷ xs) i zero = ground arith
at_from-pos (c ∷ xs) i (suc n) =
    let later : (i == i + suc n) ≡ false = ground arith in
    rw later (ap (λ (k : ℕ). at_from xs (pos k) (i + 1)) (omega arith) ∙ at_from-pos xs (i + 1) n)

at_from-negsuc : (xs : Cells Ptr) (i n : ℕ) → at_from xs (negsuc n) i ≡ none
at_from-negsuc [] i n = refl
at_from-negsuc (c ∷ xs) i n = at_from-negsuc xs (i + 1) n

pub at_from-zero : (xs : Cells Ptr) (p : ℤ) → at_from xs p 0 ≡ at xs p
at_from-zero xs (pos n) = ap (λ (k : ℕ). at_from xs (pos k) 0) (omega arith) ∙ at_from-pos xs 0 n
at_from-zero xs (negsuc n) = at_from-negsuc xs 0 n

-- the node behind `pre`, at its position
pub at-append :
    (pre post : Cells Ptr) (c : Ptr × Ptr) → at (pre ++ c ∷ post) (pos (length pre)) ≡ some c
at-append [] post c = refl
at-append (b ∷ pre) post c = at-append pre post c

-- A node at a position is one of the chain.
pub at_from-linked :
    (h : Heap Ptr) (xs : Cells Ptr) (p : ℤ) (i : ℕ) (a d : Ptr)
    → Chain h null xs
    → at_from xs p i ≡ some (a, d)
    → (q : Ptr) × (a ≢ null) × (h a ≡ some (node d q)) × (has a xs ≡ true)
at_from-linked h [] p i a d c e = cc
at_from-linked h ((b, v) ∷ xs) p i a d (ne, here, out, c) e = elim (Bool-cases (is_at i p)) [
  | inl found ↦ (first xs null, ground arith, ground arith, ground arith)
  | inr later ↦
      let (q, ne', here', among) = at_from-linked h xs p (i + 1) a d c (rw later at e) in
      (q, ne', here', ground arith)
]

module _ (s : Mem) where
  len_loop-ok :
      (k : ℕ) (xs : Cells Ptr) (i : ℕ)
      → Chain s.cells null xs
      → length xs < k
      → len_loop k (first xs null) i s ≡ ok (i + length xs) s
  unfolding len_loop
  len_loop-ok zero xs i c h = absurd (omega arith)
  len_loop-ok (suc k) [] i c h = ap (λ (n : ℕ). ok n s) (omega arith)
  len_loop-ok (suc k) ((a, v) ∷ xs) i (ne, here, out, c) h =
      rw (first-ne-null s.cells a v xs (ne, here, out, c), load-ok a v (first xs null) s ne here)
        (len_loop-ok k xs (i + 1) c (omega arith) ∙ ap (λ (n : ℕ). ok n s) (omega arith))

  pub find_pos-ok :
      (k : ℕ) (xs : Cells Ptr) (p : ℤ) (i : ℕ)
      → Chain s.cells null xs
      → length xs < k
      → find_pos k p (first xs null) i s ≡ ok (address (at_from xs p i)) s
  unfolding find_pos
  find_pos-ok zero xs p i c h = absurd (omega arith)
  find_pos-ok (suc k) [] p i c h = refl
  find_pos-ok (suc k) ((a, v) ∷ xs) p i (ne, here, out, c) h =
      rw (first-ne-null s.cells a v xs (ne, here, out, c)) (elim (Bool-cases (is_at i p)) [
        | inl found ↦ rw found
        | inr later ↦
            rw (later, ◌>>=◌, load-ok a v (first xs null) s ne here)
              (find_pos-ok k xs p (i + 1) c (omega arith))
      ])

  -- `list_len` counts the nodes, and changes nothing.
  pub list_len-length :
      (fuel : ℕ) (xs : Cells Ptr)
      → Chain s.cells null xs
      → length xs < fuel
      → list_len fuel (first xs null) s ≡ ok (length xs) s
  unfolding list_len
  list_len-length fuel xs c h = len_loop-ok fuel xs 0 c h ∙ ap (λ (n : ℕ). ok n s) (omega arith)

  -- `list_get` stores the data of the node at the position, and finds none at a position that is
  -- negative or behind the end; it changes nothing.
  pub list_get-at :
      (fuel : ℕ) (xs : Cells Ptr) (p : ℤ)
      → Chain s.cells null xs
      → length xs < fuel
      → list_get fuel (first xs null) p s ≡ ok (item? (at xs p)) s
  unfolding list_get
  list_get-at fuel xs p c h =
      rw (← at_from-zero xs p, find_pos-ok fuel xs p 0 c h)
        (elim (Option-cases (at_from xs p 0)) [
          | inl none_there ↦ rw none_there
          | inr ((a, d), there) ↦
              let (q, ne, here, _) = at_from-linked s.cells xs p 0 a d c there in
              let not_null : (a == null) ≡ false = ground arith in
              rw (there, not_null, ◌>>=◌, load-ok a d q s ne here)
        ])
