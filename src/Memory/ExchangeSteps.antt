-- ===== src/Memory/ExchangeSteps.antt =====
-- The writes that make two nodes of a chain change places: first the nodes before them, then the
-- two.
use small_project_for_life_w.Base.{
  ◌≡◌, refl, ◌∙◌, ◌≢◌, Bool-cases, inl, inr, true, false, Option, some, [], ◌∷◌, ◌++◌, arith, ◌==◌,
}
use mathlib.Core.Path.{fun_ext}
use small_project_for_life_w.Memory.{Ptr, null, node, Node, Heap, write}
use small_project_for_life_w.Memory.Chain.{Cells, first, has}
use small_project_for_life_w.Memory.Relink.{last, write-ne, write_self, ne_of_has}
use small_project_for_life_w.Memory.Exchange.{Linked, is_last, not-last, Exchanged, Places}

ne_of_test : (p q : Ptr) → (p == q) ≡ false → p ≢ q
ne_of_test p q t = ground arith

module _ {A : Type 0} where
  pub last-has : (c : Ptr × A) (xs : Cells A) → has (last c xs).0 (c ∷ xs) ≡ true
  last-has (a, v) [] = ground arith
  last-has (a, v) (d ∷ xs) = ground (arith, last-has d xs)

  Linked-write :
      (g : Heap A) (xs : Cells A) (q p : Ptr) (c : Option (Node A))
      → has p xs ≡ false
      → Linked g xs q
      → Linked (write g p c) xs q
  Linked-write g [] q p c out l = tt
  Linked-write g (d ∷ xs) q p c out l =
      let ne : p ≢ (last d xs).0 = ne_of_has (last d xs).0 p (d ∷ xs) (last-has d xs) out in
      write-ne g p (last d xs).0 c (λ e. ne (ground (arith, e))) ∙ l

-- An address of one chain is not in a chain apart from it.
pub elsewhere :
    {A : Type 0} (p : Ptr) (xs ys : Cells A)
    → ((r : Ptr) → has r xs ≡ true → has r ys ≡ false)
    → has p ys ≡ true
    → has p xs ≡ false
elsewhere p xs ys apart i = elim (Bool-cases (has p xs)) [
  | inl j ↦ let bad : ⊥ = ground (arith, apart p j) in absurd bad
  | inr out ↦ out
]

module _ {A : Type 0} (h : Heap A) (pre mid post : Cells A) (a b : Ptr) (v w : A)
    (at : Places h pre mid post a b v w) where
  -- the node before `a` is done
  pub record Quarter (k : Heap A) : Type 0 where
    pub end_pre : Linked k pre b
    pub same : (p : Ptr) → is_last p pre ≡ false → k p ≡ h p

  -- the nodes before `a` and `b` are done
  pub record Halfway (g : Heap A) : Type 0 where
    pub a_now : g a ≡ some (node v (first (mid ++ (a, v) ∷ post) null))
    pub b_now : g b ≡ some (node w (first post null))
    pub end_pre : Linked g pre b
    pub end_mid : Linked g mid a
    pub same : (p : Ptr) → p ≢ a → is_last p pre ≡ false → is_last p mid ≡ false → g p ≡ h p

  module _ (g : Heap A) (half : Halfway g) where
    pub finish : Exchanged h pre mid post a b v w (
        write
          (write g a (some (node v (first post null))))
          b
          (some (node w (first (mid ++ (a, v) ∷ post) null))))
    finish =
        let c = some (node v (first post null)) in
        let d = some (node w (first (mid ++ (a, v) ∷ post) null)) in
        let g' = write g a c in
        record {
          at_a = write-ne g' b a d at.a_b ∙ write_self g a c;
          at_b = write_self g' b d;
          end_pre =
              Linked-write g' pre b b d at.b_pre (Linked-write g pre b a c at.a_pre half.end_pre);
          end_mid =
              Linked-write g' mid a b d at.b_mid (Linked-write g mid a a c at.a_mid half.end_mid);
          same = λ p ne ne' l l'. write-ne g' b p d ne' ∙ write-ne g a p c ne ∙ half.same p ne l l';
        }

    -- the same with `b` first
    pub finish_b : Exchanged h pre mid post a b v w (
        write
          (write g b (some (node w (first (mid ++ (a, v) ∷ post) null))))
          a
          (some (node v (first post null))))
    finish_b =
        let c = some (node v (first post null)) in
        let d = some (node w (first (mid ++ (a, v) ∷ post) null)) in
        let g' = write g b d in
        let ne : b ≢ a = λ e. at.a_b (ground (arith, e)) in
        record {
          at_a = write_self g' a c;
          at_b = write-ne g' a b c ne ∙ write_self g b d;
          end_pre =
              Linked-write g' pre b a c at.a_pre (Linked-write g pre b b d at.b_pre half.end_pre);
          end_mid =
              Linked-write g' mid a a c at.a_mid (Linked-write g mid a b d at.b_mid half.end_mid);
          same = λ p ne ne' l l'. write-ne g' a p c ne ∙ write-ne g b p d ne' ∙ half.same p ne l l';
        }

module _ {A : Type 0} (h : Heap A) (pre : Cells A) (a b : Ptr) (v w : A) where
  -- the node before `b` is relinked
  pub Quarter-Halfway :
      (mid post : Cells A) (at : Places h pre mid post a b v w) (k : Heap A)
      → Quarter h pre mid post a b v w at k
      → let l = last (a, v) mid in
        Halfway h pre mid post a b v w at (write k l.0 (some (node l.1 a)))
  Quarter-Halfway [] post at k q =
      let c = some (node v a) in
      let ne : b ≢ a = λ e. at.a_b (ground (arith, e)) in
      record {
        a_now = write_self k a c;
        b_now = write-ne k a b c ne ∙ q.same b (not-last b pre at.b_pre) ∙ at.b_here;
        end_pre = Linked-write k pre b a c at.a_pre q.end_pre;
        end_mid = tt;
        same = λ p ne l l'. write-ne k a p c ne ∙ q.same p l;
      }
  Quarter-Halfway (d ∷ mid) post at k q =
      let l = last d mid in
      let c = some (node l.1 a) in
      let among = last-has d mid in
      let l_pre = elsewhere l.0 pre (d ∷ mid) at.pre_mid among in
      record {
        a_now =
            write-ne k l.0 a c (ne_of_has l.0 a (d ∷ mid) among at.a_mid)
            ∙ q.same a (not-last a pre at.a_pre)
            ∙ at.a_here;
        b_now =
            write-ne k l.0 b c (ne_of_has l.0 b (d ∷ mid) among at.b_mid)
            ∙ q.same b (not-last b pre at.b_pre)
            ∙ at.b_here;
        end_pre = Linked-write k pre b l.0 c l_pre q.end_pre;
        end_mid = write_self k l.0 c;
        same = λ p ne n n'. write-ne k l.0 p c (ne_of_test p l.0 n') ∙ q.same p n;
      }

-- Before `a`, if it is the first node, nothing is to be done; else the node there is relinked.
module _ {A : Type 0} (h : Heap A) (mid post : Cells A) (a b : Ptr) (v w : A) where
  pub Quarter-nil : (at : Places h [] mid post a b v w) → Quarter h [] mid post a b v w at h
  Quarter-nil at = record { end_pre = tt; same = λ p n. refl }

  pub Quarter-cons :
      (c : Ptr × A) (pre : Cells A) (at : Places h (c ∷ pre) mid post a b v w)
      → let l = last c pre in
        Quarter h (c ∷ pre) mid post a b v w at (write h l.0 (some (node l.1 b)))
  Quarter-cons c pre at =
      let l = last c pre in
      record {
        end_pre = write_self h l.0 (some (node l.1 b));
        same = λ p n. write-ne h l.0 p (some (node l.1 b)) (ne_of_test p l.0 n);
      }

-- Writes to two addresses can be made in any order.
pub write-swap :
    {C : Type 0} (h : Ptr → Option C) (p q : Ptr) (c d : Option C)
    → p ≢ q
    → write (write h p c) q d ≡ write (write h q d) p c
unfolding write
write-swap h p q c d ne = fun_ext (λ x. ground arith)
