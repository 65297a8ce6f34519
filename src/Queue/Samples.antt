-- ===== src/Queue/Samples.antt =====
-- The theorems on the message queue, from an empty memory and at a queue of one message.
use small_project_for_life_w.Base.{
  ℕ, ◌+◌, ◌≡◌, refl, Bool, true, none, some, List, [], ◌∷◌, arith, ◌==◌, if◌then◌else◌,
}
use small_project_for_life_w.Memory.{
  Ptr, node, write, fault, Yields, Store, ◌>>=◌, put, load, set_item, set_next, free_node,
}
use small_project_for_life_w.Queue.{
  Msgqueue, Texts, queue_push, queue_pop, queue_init, push_first, push_behind, drop_front, alloc,
  copy_text, free_text, read_text, queue_size,
}
use small_project_for_life_w.Queue.Calls.{Request, push, pop, run_calls, pushes, fill_and_pop}
use small_project_for_life_w.Queue.Fifo.{fifo, enqueue, never_refilled}
use small_project_for_life_w.Queue.Drain.{fill_and_pop-last}
use small_project_for_life_w.Queue.First.{first_calls, calls_in_order}
use small_project_for_life_w.Queue.Order.{AllGranted}
use small_project_for_life_w.Queue.Refine.{After}
use small_project_for_life_w.Queue.Pop.{IsQueue, drained-faults}

-- every block has a NUL behind it
abbrev ends : Ptr → Bool
ends d = true

abbrev texts : Texts
texts = λ d. if d == 110 then some (97 ∷ 98 ∷ []) else if d == 111 then some (99 ∷ []) else none

abbrev memory : Store Ptr Texts
memory = record {
  cells = λ p. if p == 10 then some (node 110 11) else if p == 11 then some (node 111 77) else none;
  rest = texts;
}

abbrev two : ℕ → Msgqueue
two size = record { head_node = 10; rear = 77; front = 10; backrear = 11; size = size; count = 2 }

abbrev one : Msgqueue
one = record (two 5) { front = 11; count = 1 }

one-IsQueue : IsQueue memory (record one { head_node = 9 }) (11, 111) []
one-IsQueue = record {
  chain = (ground arith, refl, refl, tt);
  front_at = refl;
  backrear_at = refl;
  counted = refl;
}

first_gone : write memory.cells 11 none 9 ≡ none
unfolding write
first_gone = refl

drained-faults_example :
    Yields
      (queue_pop ends (record one { head_node = 9 }) memory)
      (λ (r, q') t. (r ≡ some (99 ∷ [])) × (queue_push ends q' 12 112 66 (100 ∷ []) t ≡ fault))
drained-faults_example =
    drained-faults ends memory (record one { head_node = 9 }) 11 111 (99 ∷ []) 12 112 66 (100 ∷ [])
      one-IsQueue (ground arith) refl refl first_gone (omega arith) (ground arith) (ground arith)

abbrev unused : Store Ptr Texts
unused = record { cells = λ p. none; rest = λ d. none }

-- the messages "a", "b" and "c", of which the third fills a queue of two anew, and a pop
abbrev three_and_pop : List Request
three_and_pop = push 12 112 70 (98 ∷ []) ∷ push 13 113 70 (99 ∷ []) ∷ pop ∷ []

granted :
    After
      (first_calls ends 2 10 70 11 111 70 (97 ∷ []) unused)
      (λ q u. AllGranted ends three_and_pop q u)
unfolding queue_init queue_push push_first push_behind drop_front queue_pop alloc put set_item load
    write copy_text free_text read_text free_node set_next
granted = (
  record {
    with_room = λ room. record {
      node_ne = ground arith;
      node_free = refl;
      block_ne = ground arith;
      block_free = refl;
      ended = refl;
    };
    when_full = λ full. absurd (omega (arith, full));
  },
  (
    record {
      with_room = λ room. absurd (omega (arith, room));
      when_full = λ full. record {
        node_ne = ground arith;
        node_free = refl;
        block_ne = ground arith;
        block_free = refl;
        ended = refl;
      };
    },
    tt,
  ),
)

calls_in_order_example :
    Yields
      (◌>>=◌ (first_calls ends 2 10 70 11 111 70 (97 ∷ [])) (run_calls ends three_and_pop) unused)
      (λ (out, q) u. (out ≡ some (98 ∷ []) ∷ []) × (queue_size q ≡ 1))
unfolding fifo enqueue never_refilled
calls_in_order_example =
    calls_in_order ends 2 10 70 11 111 70 (97 ∷ []) (ground arith) (ground arith) refl three_and_pop
      unused (omega arith) granted refl

abbrev malloc : ℕ → Ptr × Ptr × Ptr
malloc i = (11 + i, 111 + i, 70)

granted_pushes :
    After
      (first_calls ends 2 10 70 11 111 70 (97 ∷ []) unused)
      (λ q u. AllGranted ends (pushes malloc 1 ((98 ∷ []) ∷ (99 ∷ []) ∷ [])) q u)
unfolding queue_init queue_push push_first push_behind drop_front queue_pop alloc put set_item load
    write copy_text free_text read_text free_node set_next pushes
granted_pushes = granted

fill_and_pop-last_example :
    Yields
      (fill_and_pop ends 2 10 70 malloc ((97 ∷ []) ∷ (98 ∷ []) ∷ (99 ∷ []) ∷ []) 3 unused)
      (λ (count, out) u. (count ≡ 2) × (out ≡ some (98 ∷ []) ∷ some (99 ∷ []) ∷ []))
fill_and_pop-last_example =
    fill_and_pop-last ends 2 10 70 malloc (97 ∷ []) ((98 ∷ []) ∷ (99 ∷ []) ∷ []) 3 unused
      (omega arith) (ground arith) (ground arith) refl granted_pushes (omega arith)
