-- ===== src/Sem.antt =====
-- The semaphores of 20180727sem-sig-test: the wrappers of sem.c, as they are built where __APPLE__
-- is not defined, and the two threads of main.c. The POSIX functions are a parameter; what
-- `malloc` and `random` return are arguments.
pub mod Wrappers
pub mod Threads
pub mod Interrupts
mod Samples
pub mod Signals
pub mod Apple
use small_project_for_life_w.Base.{
  ℕ, zero, suc, ◌+◌, ◌-◌, ◌/◌, ◌%◌, ◌^◌, ◌≡◌, Bool, true, false, Option, none, some, List, [], ◌∷◌,
  ◌++◌, ◌==◌, if◌then◌else◌, ltb, ℤ, pos, negsuc,
}
use small_project_for_life_w.Memory.{Ptr, null}

-- `sem_node_t`; the name is the bytes before its NUL.
pub record SemNode : Type 0 where
  pub sem : Ptr
  pub sem_name : List ℕ

-- `sem_init`, `sem_destroy`, `sem_wait` and `sem_post` on a state of the system
pub record SemApi (O : Type 0) : Type 0 where
  pub init : Ptr → (pshared value : ℕ) → O → ℤ × O
  pub destroy : Ptr → O → ℤ × O
  pub wait : Ptr → O → ℤ × O
  pub post : Ptr → O → ℤ × O

-- the system, and which addresses `malloc` has given out
pub record World (O : Type 0) : Type 0 where
  pub system : O
  pub given : Ptr → Bool

-- the decimal digits of a number below 10 ^ fuel, before those that are there
unfoldable pub digits : (fuel n : ℕ) → List ℕ → List ℕ
digits zero n rest = rest
digits (suc fuel) n rest =
    let more = digits fuel (n / 10) ((48 + n % 10) ∷ rest) in
    if ltb n 10 then (48 + n) ∷ rest else more

-- `sprintf` with "%u" of 32 bits, which has ten digits at most
pub print_unsigned : ℕ → List ℕ
unfolding digits
print_unsigned n = digits 10 (n % 2 ^ 32) []

abbrev mark : (Ptr → Bool) → Ptr → Bool → Ptr → Bool
mark given p b q = if q == p then b else given q

module _ {O : Type 0} (api : SemApi O) where
  -- `p` is what `malloc` returns.
  pub sem_node_init : (p random pshared value : ℕ) → World O → ℤ × SemNode × World O
  unfolding print_unsigned
  sem_node_init p random pshared value w =
      let given = if p == null then w.given else mark w.given p true in
      let r = api.init p pshared value w.system in
      (
        r.0,
        record { sem = p; sem_name = print_unsigned random },
        record { system = r.1; given = given },
      )

  pub sem_node_destroy : SemNode → World O → ℤ × SemNode × World O
  sem_node_destroy s w =
      let r = api.destroy s.sem w.system in
      if s.sem == null
      then (r.0, s, record w { system = r.1 })
      else (r.0, record s { sem = null }, record { system = r.1; given = mark w.given s.sem false })

  pub sem_node_wait : SemNode → World O → ℤ × World O
  sem_node_wait s w = let r = api.wait s.sem w.system in (r.0, record w { system = r.1 })

  pub sem_node_post : SemNode → World O → ℤ × World O
  sem_node_post s w = let r = api.post s.sem w.system in (r.0, record w { system = r.1 })

-- The threads of main.c: the value of the semaphore, and how often each thread has passed its call,
-- which is what its `index` counts.
pub record Semaphore : Type 0 where
  pub value : ℕ
  pub waited : ℕ
  pub posted : ℕ

-- `main` posts twice before it starts the threads.
abbrev pub start : Semaphore
start = record { value = 2; waited = 0; posted = 0 }

pub data Step (s : Semaphore) : Semaphore → Type 0 where
  wait : (v : ℕ) → s.value ≡ suc v → Step s (record s { value = v; waited = s.waited + 1 })
  post : Step s (record s { value = s.value + 1; posted = s.posted + 1 })

pub data Reach (s : Semaphore) : Semaphore → Type 0 where
  here : Reach s s
  next : {t u : Semaphore} → Reach s t → Step t u → Reach s u
