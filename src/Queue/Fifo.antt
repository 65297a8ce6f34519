-- ===== src/Queue/Fifo.antt =====
-- What 20180320queue/src/queue.c promises: a bounded queue that gives its oldest message up for a
-- new one when it is full.
use small_project_for_life_w.Base.{
  ℕ, ◌≤◌, ◌<◌, Bool, true, false, ◌&&◌, Option, none, some, List, [], ◌∷◌, ◌++◌, arith, ltb,
  if◌then◌else◌, length, length-append,
}
use small_project_for_life_w.Queue.Calls.{Request, push, pop}

abbrev pub Messages : Type 0
Messages = List (List ℕ)

abbrev pub rest_of : Messages → Messages
rest_of [] = []
rest_of (t ∷ ts) = ts

unfoldable pub enqueue : (size : ℕ) → List ℕ → Messages → Messages
enqueue size text ts = (if ltb (length ts) size then ts else rest_of ts) ++ text ∷ []

abbrev pub oldest : Messages → Option (List ℕ)
oldest [] = none
oldest (t ∷ ts) = some t

-- what the pops return, and what is left
unfoldable pub fifo : (size : ℕ) → List Request → Messages → List (Option (List ℕ)) × Messages
fifo size [] ts = ([], ts)
fifo size (push n d junk text ∷ rs) ts = fifo size rs (enqueue size text ts)
fifo size (pop ∷ rs) ts = let (out, left) = fifo size rs (rest_of ts) in (oldest ts ∷ out, left)

abbrev pub is_empty : Messages → Bool
is_empty [] = true
is_empty (t ∷ ts) = false

-- No push comes after the last message was taken.
unfoldable pub never_refilled : (size : ℕ) → List Request → Messages → Bool
never_refilled size [] ts = true
never_refilled size (push n d junk text ∷ rs) ts =
    (if is_empty ts then false else true) && never_refilled size rs (enqueue size text ts)
never_refilled size (pop ∷ rs) ts = never_refilled size rs (rest_of ts)

pub length-enqueue :
    (size : ℕ) (text : List ℕ) (ts : Messages)
    → 0 < size
    → length ts ≤ size
    → length (enqueue size text ts) ≤ size
unfolding enqueue
length-enqueue size text [] room fits = ground (arith, length-append [] (text ∷ []))
length-enqueue size text (t ∷ ts) room fits =
    ground (arith, length-append (t ∷ ts) (text ∷ []), length-append ts (text ∷ []))
