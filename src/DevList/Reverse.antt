-- ===== src/DevList/Reverse.antt =====
-- `list_reverse`.
use mathlib.Core.List.{reverse, reverse_aux}
use small_project_for_life_w.Base.{
  ℕ, zero, suc, ◌<◌, ◌≡◌, refl, ap, ◌∙◌, true, false, Option, some, [], ◌∷◌, arith, length,
}
use small_project_for_life_w.Memory.{
  Ptr, null, Node, node, write, Run, ok, fault, out_of_fuel, Yields, ◌>>=◌, ◌>>◌,
}
use small_project_for_life_w.Memory.Chain.{
  Cells, first, has, Chain, SameOutside, first-ne-null, load-ok, set_next-ok, Chain-write,
}
use small_project_for_life_w.Memory.Relink.{
  write-ne, write_self, not-has_rest, ne_of_not-has, apart-cons,
}
use small_project_for_life_w.DevList.{Mem, reverse_loop, list_reverse}

abbrev pub Turned : Mem → Cells Ptr → Cells Ptr → Ptr → Mem → Type 0
Turned s xs ys head t =
    (head ≡ first (reverse_aux xs ys) null)
    × Chain t.cells null (reverse_aux xs ys)
    × (t.rest ≡ s.rest)
    × SameOutside xs s.cells t.cells

turn_one :
    (s t : Mem) (p v : Ptr) (c : Option (Node Ptr)) (xs ys : Cells Ptr) (r : Run Mem Ptr)
    → t ≡ record s { cells = write s.cells p c }
    → Yields r (Turned t xs ((p, v) ∷ ys))
    → Yields r (Turned s ((p, v) ∷ xs) ys)
turn_one s t p v c xs ys (ok head u) e (at_head, ch, rest, same) = (
  at_head,
  ch,
  rest ∙ ap (λ (m : Mem). m.rest) e,
  λ q out.
      same q (not-has_rest q p v xs out)
      ∙ ap (λ (m : Mem). m.cells q) e
      ∙ write-ne s.cells p q c (ne_of_not-has q p v xs out),
)
turn_one s t p v c xs ys fault e y = y
turn_one s t p v c xs ys out_of_fuel e y = y

reverse_loop-Turned :
    (k : ℕ) (s : Mem) (xs ys : Cells Ptr)
    → Chain s.cells null xs
    → Chain s.cells null ys
    → ((p : Ptr) → has p xs ≡ true → has p ys ≡ false)
    → length xs < k
    → Yields (reverse_loop k (first ys null) (first xs null) s) (Turned s xs ys)
unfolding reverse_loop
reverse_loop-Turned zero s xs ys ch d apart h = absurd (omega arith)
reverse_loop-Turned (suc k) s [] ys ch d apart h = (refl, d, refl, λ p out. refl)
reverse_loop-Turned (suc k) s ((p, v) ∷ xs) ys (ne, here, out, ch) d apart h =
    let q = first ys null in
    let t = record s { cells = write s.cells p (some (node v q)) } in
    let new : has p ys ≡ false = apart p (ground arith) in
    let turned : Chain t.cells null ((p, v) ∷ ys) = (
      ne,
      write_self s.cells p (some (node v q)),
      new,
      Chain-write s.cells null ys p (some (node v q)) new d,
    ) in
    rw
      (
        first-ne-null s.cells p v xs (ne, here, out, ch),
        ◌>>=◌,
        load-ok p v (first xs null) s ne here,
        ◌>>◌,
        set_next-ok p v (first xs null) s ne here q,
      )
      (turn_one s t p v (some (node v q)) xs ys (reverse_loop k p (first xs null) t) refl (
        reverse_loop-Turned k t xs ((p, v) ∷ ys)
          (Chain-write s.cells null xs p (some (node v q)) out ch) turned
          (apart-cons p v xs ys out apart) (omega arith)))

-- `list_reverse` links the same nodes in reverse order, and writes to no other node.
pub list_reverse-reverse :
    (fuel : ℕ) (s : Mem) (xs : Cells Ptr)
    → Chain s.cells null xs
    → length xs < fuel
    → Yields (list_reverse fuel (first xs null) s) (λ head t.
      (head ≡ first (reverse xs) null)
      × Chain t.cells null (reverse xs)
      × (t.rest ≡ s.rest)
      × SameOutside xs s.cells t.cells)
unfolding list_reverse
list_reverse-reverse fuel s xs ch h = reverse_loop-Turned fuel s xs [] ch tt (λ p i. refl) h
