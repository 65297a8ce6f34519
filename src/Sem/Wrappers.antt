-- ===== src/Sem/Wrappers.antt =====
-- What `sem_node_destroy` gives back.
use small_project_for_life_w.Base.{
  ℕ, ◌≡◌, refl, ◌≢◌, true, false, inl, inr, arith, ◌==◌, Bool-cases,
}
use small_project_for_life_w.Memory.{Ptr, null}
use small_project_for_life_w.Sem.{SemApi, World, sem_node_init, sem_node_destroy}

module _ {O : Type 0} (api : SemApi O) where
  -- The memory of `sem_node_init` is given back by `sem_node_destroy`, whatever the calls of the
  -- system return, and afterwards the node is without a semaphore.
  destroy-init :
      (p random pshared value : ℕ) (w : World O)
      → p ≢ null
      → w.given p ≡ false
      → let (_, s, u) = sem_node_init api p random pshared value w in
        let (_, s', u') = sem_node_destroy api s u in
        (s'.sem ≡ null) × ((q : Ptr) → u'.given q ≡ w.given q)
  unfolding sem_node_init sem_node_destroy
  destroy-init p random pshared value w ne unused =
      let not_null : (p == null) ≡ false = ground arith in
      rw not_null (
        refl,
        λ q. elim (Bool-cases (q == p)) [
          | inl same ↦
              let e : q ≡ p = ground arith in
              rw (e, unused) (let f : (p == p) ≡ true = ground arith in rw f)
          | inr other ↦ rw other
        ],
      )
