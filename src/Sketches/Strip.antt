-- ===== src/Sketches/Strip.antt =====
-- The strip of the sketches when a loop has filled it.
use small_project_for_life_w.Base.{
  ℕ, zero, suc, ◌+◌, ◌≡◌, refl, sym, ap, ◌∙◌, List, [], ◌∷◌, ◌++◌, append-nil, arith, length, set,
  replicate,
}
use small_project_for_life_w.Sketches.{Colour, pixel_num, fill_from, fill}

set-behind :
    (c d : Colour) (n : ℕ) (strip : List Colour)
    → set (replicate n c ++ d ∷ strip) n c ≡ replicate n c ++ c ∷ strip
set-behind c d zero strip = refl
set-behind c d (suc n) strip = ap (λ l. c ∷ l) (set-behind c d n strip)

replicate-last :
    (c : Colour) (n : ℕ) (l : List Colour) → replicate n c ++ c ∷ l ≡ replicate (suc n) c ++ l
replicate-last c zero l = refl
replicate-last c (suc n) l = ap (λ l. c ∷ l) (replicate-last c n l)

fill_from-replicate :
    (c : Colour) (strip : List Colour) (i : ℕ)
    → fill_from (length strip) i c (replicate i c ++ strip) ≡ replicate (i + length strip) c
unfolding fill_from
fill_from-replicate c [] i = append-nil (replicate i c) ∙ ap (λ n. replicate n c) (omega arith)
fill_from-replicate c (d ∷ strip) i =
    let e : i + 1 ≡ suc i = omega arith in
    let n : suc i + length strip ≡ i + length (d ∷ strip) = omega arith in
    ap (λ k. fill_from (length strip) k c (set (replicate i c ++ d ∷ strip) i c)) e
    ∙ ap (λ l. fill_from (length strip) (suc i) c l)
        (set-behind c d i strip ∙ replicate-last c i strip)
    ∙ fill_from-replicate c strip (suc i)
    ∙ ap (λ k. replicate k c) n

-- A filled strip has the colour at every pixel.
pub fill-replicate :
    (c : Colour) (strip : List Colour)
    → length strip ≡ pixel_num
    → fill c strip ≡ replicate pixel_num c
unfolding fill
fill-replicate c strip h =
    let whole : 0 + length strip ≡ pixel_num = omega (arith, h) in
    ap (λ n. fill_from n 0 c strip) (sym h)
    ∙ fill_from-replicate c strip 0
    ∙ ap (λ n. replicate n c) whole
