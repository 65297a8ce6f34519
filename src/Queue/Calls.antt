-- ===== src/Queue/Calls.antt =====
-- A client of 20180320queue/src/queue.c: a sequence of calls, and the program examples/simple.c.
use small_project_for_life_w.Base.{
  ℕ, zero, suc, ◌+◌, Bool, Option, List, [], ◌∷◌, ◌++◌, ◌==◌, if◌then◌else◌,
}
use small_project_for_life_w.Memory.{Ptr, out_of_fuel, pure, ◌>>=◌}
use small_project_for_life_w.Sem.{digits}
use small_project_for_life_w.Queue.{Msgqueue, Do, queue_init, queue_push, queue_pop, queue_size}

-- A call, with the node and the block that `malloc` returns for it and what the node holds.
pub data Request : Type 0 where
  push : (n d junk : Ptr) → List ℕ → Request
  pop : Request

-- what the pops return, in order, and the queue; `none` is a wait
abbrev pub Answer : Type 0
Answer = List (Option (List ℕ)) × Msgqueue

unfoldable pub answered : Option (List ℕ) → Answer → Answer
answered r (rs, q) = (r ∷ rs, q)

module _ (ends : Ptr → Bool) where
  unfoldable pub run_calls : List Request → Msgqueue → Do Answer
  run_calls [] q = pure ([], q)
  run_calls (push n d junk text ∷ rs) q = do q' ← queue_push ends q n d junk text; run_calls rs q'
  run_calls (pop ∷ rs) q = do r ← queue_pop ends q; a ← run_calls rs r.1; pure (answered r.0 a)

  -- `while (QUEUE_SIZE(&msgs)) { … QUEUE_POP(&msgs, &m2); … }`, and what it prints
  unfoldable pub pop_all : ℕ → Msgqueue → Do Answer
  pop_all zero q = λ s. out_of_fuel
  pop_all (suc fuel) q =
      let one = (do r ← queue_pop ends q; a ← pop_all fuel r.1; pure (answered r.0 a)) in
      if queue_size q == 0 then pure ([], q) else one

-- `sprintf(m3.data, "The number is %d", i)`
unfoldable pub number_text : ℕ → List ℕ
number_text i =
    (84 ∷ 104 ∷ 101 ∷ 32 ∷ 110 ∷ 117 ∷ 109 ∷ 98 ∷ 101 ∷ 114 ∷ 32 ∷ 105 ∷ 115 ∷ 32 ∷ [])
    ++ digits 10 i []

-- what `addmsg` pushes in `n` calls, from the number `i` on
unfoldable pub addmsg_texts : (n i : ℕ) → List (List ℕ)
addmsg_texts zero i = []
addmsg_texts (suc n) i = number_text i ∷ addmsg_texts n (i + 1)

-- "abc", "123", "456" and 15 calls of `addmsg`
unfoldable pub simple_messages : List (List ℕ)
unfolding addmsg_texts
simple_messages =
    (97 ∷ 98 ∷ 99 ∷ []) ∷ (49 ∷ 50 ∷ 51 ∷ []) ∷ (52 ∷ 53 ∷ 54 ∷ []) ∷ addmsg_texts 15 0

-- The push number `i` gets the memory `malloc i`.
unfoldable pub pushes : (malloc : ℕ → Ptr × Ptr × Ptr) → ℕ → List (List ℕ) → List Request
pushes malloc i [] = []
pushes malloc i (text ∷ texts) =
    let (n, d, junk) = malloc i in push n d junk text ∷ pushes malloc (i + 1) texts

-- A new queue into which messages are pushed and which is then emptied: its size in between, and
-- what is popped.
unfoldable pub fill_and_pop :
    (Ptr → Bool)
    → (size : ℕ) → (n junk : Ptr) → (ℕ → Ptr × Ptr × Ptr)
    → List (List ℕ)
    → ℕ
    → Do (ℕ × List (Option (List ℕ)))
fill_and_pop ends size n junk malloc texts fuel = do
  q₀ ← queue_init n junk size
  filled ← run_calls ends (pushes malloc 0 texts) q₀
  printed ← pop_all ends fuel filled.1
  pure (queue_size filled.1, printed.0)

-- `main`, up to its endless loop: the size that it prints, and the messages
unfoldable pub simple_main :
    (Ptr → Bool) → (n junk : Ptr) → (ℕ → Ptr × Ptr × Ptr) → ℕ → Do (ℕ × List (Option (List ℕ)))
simple_main ends n junk malloc fuel = fill_and_pop ends 10 n junk malloc simple_messages fuel
