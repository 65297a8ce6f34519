-- ===== src/Timer/Add.antt =====
-- `list_add`: a new node behind the head.
use small_project_for_life_w.Base.{◌≡◌, refl, sym, ◌∙◌, ◌≢◌, false, some, [], ◌∷◌, arith, ◌==◌}
use small_project_for_life_w.Memory.{Ptr, null, node, write, Yields, Store, put, ◌>>=◌, ◌>>◌}
use small_project_for_life_w.Memory.Chain.{
  has, Chain, first-ne-null, load-ok, set_next-ok, Chain-write,
}
use small_project_for_life_w.Memory.Relink.{write-ne, write_self, ne_of_not-has, not-has_rest}
use small_project_for_life_w.Timer.{ImiTimer, cleared, list_add}
use small_project_for_life_w.Timer.Find.{Timers}

pub put-ok :
    {O : Type 0} (s : Store ImiTimer O) (n : Ptr)
    → n ≢ null
    → Yields
        (put n (node cleared null) s)
        (λ _ t. t ≡ record s { cells = write s.cells n (some (node cleared null)) })
unfolding put
put-ok s n ne = ground arith

not-has_cons :
    (p n : Ptr) (v : ImiTimer) (xs : Timers)
    → p ≢ n
    → has p xs ≡ false
    → has p ((n, v) ∷ xs) ≡ false
not-has_cons p n v xs apart out = ground arith

module _ {O : Type 0} (s : Store ImiTimer O) where
  -- a new node behind the head, in both branches of `list_add`
  pub list_add-Chain :
      (head : Ptr × ImiTimer) (n : Ptr) (v : ImiTimer) (xs : Timers)
      → Chain s.cells null (head ∷ xs)
      → n ≢ null
      → s.cells n ≡ some (node v null)
      → has n (head ∷ xs) ≡ false
      → Yields
          (list_add head.0 n s)
          (λ r t. Chain t.cells null (head ∷ (n, v) ∷ xs) × (t.rest ≡ s.rest))
  unfolding list_add
  list_add-Chain head n v [] (ne, here, out, ch) n_ne n_here away =
      let apart = ne_of_not-has n head.0 head.1 [] away in
      let head_not_null : (head.0 == null) ≡ false = ground arith in
      let not_null : (n == null) ≡ false = ground arith in
      rw
        (
          head_not_null,
          not_null,
          ◌>>=◌,
          load-ok head.0 head.1 null s ne here,
          set_next-ok head.0 head.1 null s ne here n,
        )
        (
          (
            ne,
            write_self s.cells head.0 (some (node head.1 n)),
            ground arith,
            (n_ne, write-ne s.cells head.0 n (some (node head.1 n)) apart ∙ n_here, refl, tt),
          ),
          refl,
        )
  list_add-Chain head n v (c ∷ xs) (ne, here, out, ch) n_ne n_here away =
      let apart = ne_of_not-has n head.0 head.1 (c ∷ xs) away in
      let apart' : head.0 ≢ n = λ e. apart (sym e) in
      let head_not_null : (head.0 == null) ≡ false = ground arith in
      let not_null : (n == null) ≡ false = ground arith in
      let q = c.0 in
      let s₁ = record s { cells = write s.cells n (some (node v q)) } in
      let here₁ : s₁.cells head.0 ≡ some (node head.1 q) =
        write-ne s.cells n head.0 (some (node v q)) apart' ∙ here in
      let behind = not-has_rest n head.0 head.1 (c ∷ xs) away in
      rw
        (
          head_not_null,
          not_null,
          ◌>>=◌,
          load-ok head.0 head.1 q s ne here,
          first-ne-null s.cells c.0 c.1 xs ch,
          ◌>>◌,
          set_next-ok n v null s n_ne n_here q,
          set_next-ok head.0 head.1 q s₁ ne here₁ n,
        )
        (
          (
            ne,
            write_self s₁.cells head.0 (some (node head.1 n)),
            not-has_cons head.0 n v (c ∷ xs) apart' out,
            (
              n_ne,
              write-ne s₁.cells head.0 n (some (node head.1 n)) apart
                  ∙ write_self s.cells n (some (node v q)),
              behind,
              Chain-write s₁.cells null (c ∷ xs) head.0 (some (node head.1 n)) out
                  (Chain-write s.cells null (c ∷ xs) n (some (node v q)) behind ch),
            ),
          ),
          refl,
        )
