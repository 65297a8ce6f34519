-- ===== src/Sem/Apple.antt =====
-- The branches of 20180727sem-sig-test/sem.c for __APPLE__: semaphores that have a name.
use small_project_for_life_w.Base.{ℕ, ◌≡◌, Bool, List, ◌==◌, if◌then◌else◌, ℤ, pos, negsuc, is_at}
use small_project_for_life_w.Memory.{Ptr, null}
use small_project_for_life_w.Sem.{SemNode, print_unsigned}

-- `sem_open` with O_CREAT and O_EXCL, `sem_close` and `sem_unlink`
pub record NamedApi (O : Type 0) : Type 0 where
  pub sem_open : (name : List ℕ) (value : ℕ) → O → Ptr × O
  pub sem_close : Ptr → O → ℤ × O
  pub sem_unlink : (name : List ℕ) → O → ℤ × O

abbrev is_zero : ℤ → Bool
is_zero z = is_at 0 z

module _ {O : Type 0} (api : NamedApi O) where
  -- A result of `sem_open` other than NULL counts as success.
  pub sem_node_init_named : (random value : ℕ) → O → ℤ × SemNode × O
  unfolding print_unsigned
  sem_node_init_named random value o =
      let name = print_unsigned random in
      let (p, o') = api.sem_open name value o in
      (if p == null then negsuc 0 else pos 0, record { sem = p; sem_name = name }, o')

  -- The name goes only if the semaphore could be closed.
  pub sem_node_destroy_named : SemNode → O → ℤ × SemNode × O
  sem_node_destroy_named s o =
      let (closed, o') = api.sem_close s.sem o in
      let (unlinked, o'') = api.sem_unlink s.sem_name o' in
      if is_zero closed
      then (if is_zero unlinked then pos 0 else negsuc 0, s, o'')
      else (negsuc 0, s, o')

  -- What was made under a name is taken away under it: if both calls succeed, `sem_node_destroy`
  -- returns 0.
  pub destroy-init_named :
      (random value : ℕ) (o : O)
      → let (r, s, o') = sem_node_init_named random value o in
        let (closed, o'') = api.sem_close s.sem o' in
        closed ≡ pos 0
        → (api.sem_unlink (print_unsigned random) o'').0 ≡ pos 0
        → (sem_node_destroy_named s o').0 ≡ pos 0
  unfolding sem_node_init_named sem_node_destroy_named
  destroy-init_named random value o closes unlinks = rw (closes, unlinks)
