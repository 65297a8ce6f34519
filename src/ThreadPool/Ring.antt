-- ===== src/ThreadPool/Ring.antt =====
-- The task queue of the pool as a sequence: `task_queue_front` is the slot that was emptied last,
-- so the oldest task stands one slot behind it.
use native.Mathlib.Nat.{mod-add-mod, mod-eq_of_lt, mod-eq-sub-mod}
use native.Mathlib.Decide.{dec_lt}
use small_project_for_life_w.Base.{
  ℕ, zero, suc, ◌+◌, ◌-◌, ◌%◌, ◌≤◌, ◌<◌, ◌≡◌, refl, sym, ap, ◌∙◌, ◌≢◌, List, [], ◌∷◌, ◌++◌, arith,
  length, set, get_or, get_or-set_self, get_or-set_ne,
}
use small_project_for_life_w.ThreadPool.{Task, Pool}

-- the `n` tasks in the slots behind slot `f`, round the end of the array
abbrev pub behind : List Task → ℕ → ℕ → ℕ → List Task
behind slots cap f zero = []
behind slots cap f (suc n) =
    let g = (f + 1) % cap in
    get_or slots g (record { task_name = 0; task_param = 0 }) ∷ behind slots cap g n

-- the waiting tasks, oldest first
abbrev pub waiting : Pool → List Task
waiting p = behind p.task_queue p.max_task_queue_size p.task_queue_front p.task_queue_size

pub record IsRing (p : Pool) : Type 0 where
  pub switch : p.poll_state ≤ 1
  pub storage : length p.task_queue ≡ p.max_task_queue_size
  pub room : 0 < p.max_task_queue_size
  pub front_in : p.task_queue_front < p.max_task_queue_size
  pub fits : p.task_queue_size ≤ p.max_task_queue_size
  pub rear_at : p.task_queue_rear ≡ (p.task_queue_front + p.task_queue_size) % p.max_task_queue_size

-- fewer than `cap` steps round the array do not lead back
pub round-ne : {cap f k : ℕ} → f < cap → suc k < cap → (f + suc k) % cap ≢ f
round-ne {cap} {f} {k} hf hk = elim (dec_lt (f + suc k) cap) [
  | yes p ↦ omega (arith, mod-eq_of_lt p)
  | no p ↦ omega (
    arith,
    mod-eq-sub-mod {n = f + suc k} {m = cap} (omega arith),
    mod-eq_of_lt {n = f + suc k - cap} {m = cap} (omega arith),
  )
]

step-mod : (f n cap : ℕ) → ((f + 1) % cap + n) % cap ≡ (f + suc n) % cap
step-mod f n cap = rw mod-add-mod (ap (λ (k : ℕ). k % cap) (omega arith))

-- A write behind the last waiting task appends it.
pub behind-set :
    (slots : List Task) (cap : ℕ) (t : Task) (n f i : ℕ)
    → length slots ≡ cap
    → f < cap
    → n < cap
    → i ≡ (f + suc n) % cap
    → behind (set slots i t) cap f (suc n) ≡ behind slots cap f n ++ (t ∷ [])
behind-set slots cap t zero f i hs hf hn e =
    rw (e, get_or-set_self slots ((f + 1) % cap) t _ (omega arith))
behind-set slots cap t (suc n) f i hs hf hn e =
    let g = (f + 1) % cap in
    let far : i ≢ g = rw (e, ← step-mod f (suc n) cap) (round-ne (omega arith) hn) in
    rw (
      get_or-set_ne slots {i = i} {j = g} t (record { task_name = 0; task_param = 0 }) far,
      behind-set slots cap t n g i hs (omega arith) (omega arith)
          (e ∙ sym (step-mod f (suc n) cap)),
    )

pub length-behind : (slots : List Task) (cap f n : ℕ) → length (behind slots cap f n) ≡ n
length-behind slots cap f zero = refl
length-behind slots cap f (suc n) = ap suc (length-behind slots cap ((f + 1) % cap) n)

-- `behind` matches on `suc`, the code tests for 0
pub behind-cons :
    (slots : List Task) (cap f n : ℕ)
    → n ≢ 0
    → behind slots cap f n
      ≡ get_or slots ((f + 1) % cap) (record { task_name = 0; task_param = 0 })
        ∷ behind slots cap ((f + 1) % cap) (n - 1)
behind-cons slots cap f zero h = absurd (h refl)
behind-cons slots cap f (suc n) h = ap (λ k. behind slots cap f (suc k)) (omega arith)
