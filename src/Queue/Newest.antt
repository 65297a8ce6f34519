-- ===== src/Queue/Newest.antt =====
-- The newest messages: what a bounded queue keeps of those that are pushed.
use small_project_for_life_w.Base.{
  ℕ, zero, suc, ◌+◌, ◌-◌, ◌≤◌, ◌<◌, ◌≡◌, refl, ap, ◌∙◌, true, Bool-cases, inl, inr, List, [], ◌∷◌,
  ◌++◌, append_assoc, append-nil, arith, length, ltb, drop, if◌then◌else◌, length-append,
}
use small_project_for_life_w.Memory.{Ptr}
use small_project_for_life_w.Queue.Calls.{pushes}
use small_project_for_life_w.Queue.Fifo.{Messages, enqueue, fifo, never_refilled, length-enqueue}

abbrev pub last_of : ℕ → Messages → Messages
last_of size ts = drop (length ts - size) ts

drop_none : (ts : Messages) (k : ℕ) → k ≡ 0 → drop k ts ≡ ts
drop_none ts zero e = refl
drop_none ts (suc k) e = absurd (omega (arith, e))

last_of-more :
    (size : ℕ) (t : List ℕ) (ts : Messages)
    → size ≤ length ts
    → last_of size (t ∷ ts) ≡ last_of size ts
last_of-more size t ts h =
    let more : length (t ∷ ts) - size ≡ suc (length ts - size) = omega (arith, h) in
    ap (λ (k : ℕ). drop k (t ∷ ts)) more

enqueue-last_of :
    (size : ℕ) (text : List ℕ) (ts texts : Messages)
    → 0 < size
    → length ts ≤ size
    → last_of size (enqueue size text ts ++ texts) ≡ last_of size (ts ++ text ∷ texts)
unfolding enqueue
enqueue-last_of size text [] texts room fits =
    let below : ltb 0 size ≡ true = ground arith in rw below refl
enqueue-last_of size text (t ∷ ts) texts room fits =
    elim (Bool-cases (ltb (length (t ∷ ts)) size)) [
      | inl below ↦ rw below (ap (last_of size) (append_assoc (t ∷ ts) (text ∷ []) texts))
      | inr full ↦
          let filled : length ts + 1 ≡ size = ground arith in
          rw
            (
              full,
              append_assoc ts (text ∷ []) texts,
              last_of-more size t (ts ++ text ∷ texts)
                  (omega (arith, length-append ts (text ∷ texts), filled)),
            )
            refl
    ]

-- Pushes alone leave the newest messages.
pub fifo-pushes :
    (size : ℕ) (malloc : ℕ → Ptr × Ptr × Ptr) (i : ℕ) (texts ts : Messages)
    → 0 < size
    → length ts ≤ size
    → fifo size (pushes malloc i texts) ts ≡ ([], last_of size (ts ++ texts))
unfolding fifo pushes
fifo-pushes size malloc i [] ts room fits =
    rw (append-nil, drop_none ts (length ts - size) (omega (arith, fits))) refl
fifo-pushes size malloc i (text ∷ texts) ts room fits =
    fifo-pushes size malloc (i + 1) texts (enqueue size text ts) room
      (length-enqueue size text ts room fits)
    ∙ ap (λ (m : Messages). ([], m)) (enqueue-last_of size text ts texts room fits)

append-cons :
    (text : List ℕ) (ts : Messages) → (u : List ℕ) × (us : Messages) × (ts ++ text ∷ [] ≡ u ∷ us)
append-cons text [] = (text, [], refl)
append-cons text (t ∷ ts) = (t, ts ++ text ∷ [], refl)

-- and never refill a queue that was emptied
pub pushes-never_refilled :
    (size : ℕ) (malloc : ℕ → Ptr × Ptr × Ptr) (i : ℕ) (texts : Messages) (t : List ℕ)
    (ts : Messages)
    → never_refilled size (pushes malloc i texts) (t ∷ ts) ≡ true
unfolding never_refilled pushes enqueue
pushes-never_refilled size malloc i [] t ts = refl
pushes-never_refilled size malloc i (text ∷ texts) t ts =
    let (u, us, e) = append-cons text (if ltb (length (t ∷ ts)) size then t ∷ ts else ts) in
    rw e (pushes-never_refilled size malloc (i + 1) texts u us)

length-drop : (k : ℕ) (ts : Messages) → length (drop k ts) ≡ length ts - k
length-drop zero ts = omega arith
length-drop (suc k) [] = omega arith
length-drop (suc k) (t ∷ ts) = omega (arith, length-drop k ts)

pub length-last_of : (size : ℕ) (ts : Messages) → length (last_of size ts) ≤ size
length-last_of size ts = omega (arith, length-drop (length ts - size) ts)
