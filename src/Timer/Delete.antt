-- ===== src/Timer/Delete.antt =====
-- `delete_designation_timer` and `delete_all_timer`.
use small_project_for_life_w.Base.{
  ℕ, zero, suc, ◌<◌, ◌≡◌, refl, sym, ◌∙◌, ◌≢◌, inl, inr, true, false, none, some, [], ◌∷◌, ◌++◌,
  arith, ◌==◌, Bool-cases, length, length-append, ℤ, pos, negsuc,
}
use small_project_for_life_w.Memory.{
  Ptr, null, node, write, ok, fault, Yields, Run, Store, load, ◌>>=◌, ◌>>◌,
}
use small_project_for_life_w.Memory.Chain.{
  first, Chain, first-ne-null, load-ok, set_next-ok, free_node-ok, Chain-frame, Yields-map,
  Yields-feed,
}
use small_project_for_life_w.Memory.Relink.{
  last, last-linked, write-ne, write_self, ne_of_has, ne_of_not-has, not-has_front, Chain-unlink,
  write-again, Chain-front, Chain-back, Chain-apart,
}
use small_project_for_life_w.Timer.{
  ImiTimer, TimerApi, unlink, node_loop, delete_designation_node, delete_designation_timer,
  all_loop, delete_all_timer,
}
use small_project_for_life_w.Timer.Find.{find_timer-behind, Timers, find_timer, list_for_entry-find}

load-gone : {O : Type 0} (s : Store ImiTimer O) (a : Ptr) → s.cells a ≡ none → load a s ≡ fault
unfolding load
load-gone s a e = ground arith

module _ {O : Type 0} (s : Store ImiTimer O) where
  -- the walk to the node that has the id
  node_loop-walk :
      (k timer_id : ℕ) (c : Ptr × ImiTimer) (mid post : Timers) (a : Ptr) (v : ImiTimer)
      (r : Run (Store ImiTimer O) ℤ)
      → Chain s.cells null ((c ∷ mid) ++ (a, v) ∷ post)
      → find_timer timer_id mid ≡ none
      → v.evp.sival_int ≡ timer_id
      → length mid < k
      → unlink (last c mid).0 a s ≡ r
      → node_loop k timer_id c.0 (first (mid ++ (a, v) ∷ post) null) s ≡ r
  unfolding node_loop
  node_loop-walk zero timer_id c mid post a v r ch out same h e = absurd (omega arith)
  node_loop-walk (suc k) timer_id c [] post a v r ch out same h e =
      let hit : (v.evp.sival_int == timer_id) ≡ true = ground arith in
      rw
        (
          first-ne-null s.cells a v post ch.3,
          ◌>>=◌,
          load-ok a v (first post null) s ch.3.0 ch.3.1,
          hit,
        )
        e
  node_loop-walk (suc k) timer_id c ((b, w) ∷ mid) post a v r ch out same h e =
      elim (Bool-cases (w.evp.sival_int == timer_id)) [
        | inl hit ↦ let f : some (b, w) ≡ none = rw hit at out in cc
        | inr miss ↦
            rw
              (
                first-ne-null s.cells b w (mid ++ (a, v) ∷ post) ch.3,
                ◌>>=◌,
                load-ok b w (first (mid ++ (a, v) ∷ post) null) s ch.3.0 ch.3.1,
                miss,
                load-ok c.0 c.1 b s ch.0 ch.1,
                ◌>>=◌,
                load-ok b w (first (mid ++ (a, v) ∷ post) null) s ch.3.0 ch.3.1,
              )
              (node_loop-walk k timer_id (b, w) mid post a v r ch.3 (rw miss at out) same
                (omega arith) e)
      ]

  -- `unlink` frees a node behind another, in both of its branches.
  unlink-run :
      (l a q : Ptr) (w v : ImiTimer)
      → l ≢ null
      → s.cells l ≡ some (node w a)
      → a ≢ null
      → s.cells a ≡ some (node v q)
      → a ≢ l
      → Yields (unlink l a s) (λ r t.
        (r ≡ pos 0)
        × ((p : Ptr) → t.cells p ≡ write (write s.cells l (some (node w q))) a none p)
        × (t.rest ≡ s.rest))
  unfolding unlink
  unlink-run l a q w v l_ne l_here ne here apart =
      let s₁ = record s { cells = write s.cells l (some (node w q)) } in
      let here₁ : s₁.cells a ≡ some (node v q) =
        write-ne s.cells l a (some (node w q)) apart ∙ here in
      let s₂ = record s₁ { cells = write s₁.cells a (some (node v null)) } in
      elim (Bool-cases (q == null)) [
        | inl at_end ↦
            let q_null : null ≡ q = ground arith in
            rw
              (
                ◌>>=◌,
                load-ok a v q s ne here,
                at_end,
                ◌>>◌,
                set_next-ok l w a s l_ne l_here null,
                q_null,
                free_node-ok a v q s₁ ne here₁,
              )
              (refl, λ p. refl, refl)
        | inr inside ↦
            rw
              (
                ◌>>=◌,
                load-ok a v q s ne here,
                inside,
                ◌>>◌,
                set_next-ok l w a s l_ne l_here q,
                set_next-ok a v q s₁ ne here₁ null,
                free_node-ok a v null s₂ ne (write_self s₁.cells a (some (node v null))),
              )
              (refl, write-again s₁.cells a (some (node v null)) none, refl)
      ]

  unlink-Chain :
      (c : Ptr × ImiTimer) (pre post : Timers) (a : Ptr) (v : ImiTimer)
      → Chain s.cells null ((c ∷ pre) ++ (a, v) ∷ post)
      → Yields (unlink (last c pre).0 a s) (λ r t.
        (r ≡ pos 0)
        × Chain t.cells null ((c ∷ pre) ++ post)
        × (t.cells a ≡ none)
        × (t.rest ≡ s.rest))
  unlink-Chain c pre post a v ch =
      let q = first post null in
      let l = last c pre in
      let front = Chain-front s.cells null (c ∷ pre) ((a, v) ∷ post) ch in
      let (ne, here, out, back) = Chain-back s.cells null (c ∷ pre) ((a, v) ∷ post) ch in
      let apart = Chain-apart s.cells null (c ∷ pre) ((a, v) ∷ post) ch in
      let gone = not-has_front a v (c ∷ pre) post apart in
      let (l_ne, l_here, among) = last-linked s.cells a c pre front in
      let linked = write s.cells l.0 (some (node l.1 q)) in
      let ch₁ = Chain-unlink s.cells c pre post a v ch in
      Yields-map _ _ (unlink l.0 a s)
        (unlink-run l.0 a q l.1 v l_ne l_here ne here (ne_of_has l.0 a (c ∷ pre) among gone))
        λ r t (done, same, rest). (
          done,
          Chain-frame (write linked a none) t.cells null ((c ∷ pre) ++ post) (λ p i. same p) ch₁,
          same a ∙ write_self linked a none,
          rest,
        )

module _ {O : Type 0} (api : TimerApi O) (s : Store ImiTimer O) where
  -- `delete_designation_timer` deletes the first timer that has the id in the system and takes its
  -- node out of the list, which it frees, also where the system refuses to delete the timer.
  pub delete_designation_timer-found :
      (fuel : ℕ) (head : Ptr × ImiTimer) (pre post : Timers) (a : Ptr) (v : ImiTimer)
      → Chain s.cells null (head ∷ pre ++ (a, v) ∷ post)
      → find_timer v.evp.sival_int pre ≡ none
      → length (pre ++ (a, v) ∷ post) < fuel
      → Yields (delete_designation_timer api fuel head.0 v.evp.sival_int s) (λ r t.
        (r ≡ pos 0)
        × Chain t.cells null (head ∷ pre ++ post)
        × (t.cells a ≡ none)
        × (t.rest ≡ (api.delete v.timer s.rest).1))
  unfolding delete_designation_timer delete_designation_node
  delete_designation_timer-found fuel head pre post a v ch out h =
      let (ne, here, _, _) = Chain-back s.cells null (head ∷ pre) ((a, v) ∷ post) ch in
      let found : find_timer v.evp.sival_int (pre ++ (a, v) ∷ post) ≡ some (a, v) =
        find_timer-behind v.evp.sival_int pre post (a, v) out refl in
      let not_null : (a == null) ≡ false = ground arith in
      let s₁ = record s { rest = (api.delete v.timer s.rest).1 } in
      rw
        (
          first-ne-null s.cells head.0 head.1 (pre ++ (a, v) ∷ post) ch,
          ◌>>=◌,
          list_for_entry-find s fuel head v.evp.sival_int (pre ++ (a, v) ∷ post) ch h,
          found,
          not_null,
          ◌>>=◌,
          load-ok a v (first post null) s ne here,
          load-ok head.0 head.1 (first (pre ++ (a, v) ∷ post) null) s₁ ch.0 ch.1,
          node_loop-walk s₁ fuel v.evp.sival_int head pre post a v (unlink (last head pre).0 a s₁)
              ch out refl (omega (arith, length-append pre ((a, v) ∷ post))) refl,
        )
        (unlink-Chain s₁ head pre post a v ch)

  -- Where no timer has the id it returns -1, and nothing changes.
  pub delete_designation_timer-missing :
      (fuel : ℕ) (head : Ptr × ImiTimer) (timer_id : ℕ) (xs : Timers)
      → Chain s.cells null (head ∷ xs)
      → find_timer timer_id xs ≡ none
      → length xs < fuel
      → delete_designation_timer api fuel head.0 timer_id s ≡ ok (negsuc 0) s
  unfolding delete_designation_timer
  delete_designation_timer-missing fuel head timer_id xs ch out h = rw (
    first-ne-null s.cells head.0 head.1 xs ch,
    ◌>>=◌,
    list_for_entry-find s fuel head timer_id xs ch h,
    out,
  )

  -- `delete_all_timer` returns 0 on an empty list, but on any other it reads the node it has just
  -- freed.
  pub delete_all_timer-faults :
      (k : ℕ) (head : Ptr × ImiTimer) (xs : Timers)
      → Chain s.cells null (head ∷ xs)
      → delete_all_timer api (suc k) head.0 s ≡ elim xs [ [] ↦ ok (pos 0) s | _ ∷ _ ↦ fault ]
  unfolding delete_all_timer all_loop
  delete_all_timer-faults k head [] ch =
      rw (first-ne-null s.cells head.0 head.1 [] ch, ◌>>=◌, load-ok head.0 head.1 null s ch.0 ch.1)
  delete_all_timer-faults k head ((a, v) ∷ xs) ch =
      let q = first xs null in
      let s₁ = record s { rest = (api.delete v.timer s.rest).1 } in
      let apart = ne_of_not-has head.0 a v xs ch.2 in
      rw
        (
          first-ne-null s.cells head.0 head.1 ((a, v) ∷ xs) ch,
          ◌>>=◌,
          load-ok head.0 head.1 a s ch.0 ch.1,
          first-ne-null s.cells a v xs ch.3,
          ◌>>=◌,
          load-ok a v q s ch.3.0 ch.3.1,
        )
        (Yields-feed _ (unlink head.0 a s₁) _ fault
          (unlink-run s₁ head.0 a q head.1 v ch.0 ch.1 ch.3.0 ch.3.1 (λ e. apart (sym e)))
          λ r t (done, same, rest).
            let head_here : t.cells head.0 ≡ some (node head.1 q) =
              same head.0
              ∙ write-ne (write s.cells head.0 (some (node head.1 q))) a head.0 none apart
              ∙ write_self s.cells head.0 (some (node head.1 q)) in
            let gone : t.cells a ≡ none =
              same a ∙ write_self (write s.cells head.0 (some (node head.1 q))) a none in
            rw (◌>>=◌, load-ok head.0 head.1 q t ch.0 head_here, ◌>>=◌, load-gone t a gone))
