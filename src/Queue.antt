-- ===== src/Queue.antt =====
-- The message queue of 20180320queue/src/queue.c: a list of nodes, each with a copy of a string.
-- The copies are made without their NUL, so a later `strlen` reads on behind the block, and the
-- `memset` that follows writes there: `ends d` says that a NUL comes next behind block `d`, and a
-- run where it does not is a fault. What `malloc` returns, and what its memory holds, are
-- arguments. The mutex makes each function one step, and a `QUEUE_POP` that waits is a result of
-- its own.
pub mod Calls
pub mod Drain
pub mod Fifo
pub mod First
pub mod Held
pub mod Newest
pub mod Order
pub mod Pop
pub mod Push
pub mod Refine
mod Samples
use small_project_for_life_w.Base.{
  ℕ, ◌+◌, ◌-◌, Bool, true, false, Option, none, some, List, ◌==◌, ltb, if◌then◌else◌,
}
use small_project_for_life_w.Memory.{
  Ptr, null, node, write, ok, fault, Cmd, pure, ◌>>=◌, ◌>>◌, Store, load, put, set_next, set_item,
  free_node,
}

-- `msgqueue_t` with the `size` of its `queue_core`; `head_node` is the field `node`.
pub record Msgqueue : Type 0 where
  pub head_node : Ptr
  pub rear : Ptr
  pub front : Ptr
  pub backrear : Ptr
  pub size : ℕ
  pub count : ℕ

-- An `Elem` is a node of which the item is the pointer to the data; the rest of the store is the
-- blocks of data.
abbrev pub Texts : Type 0
Texts = Ptr → Option (List ℕ)

abbrev pub Do : Type 0 → Type 0
Do = Cmd (Store Ptr Texts)

-- a `malloc` of an `Elem`, whose memory holds `junk`
unfoldable pub alloc : (n junk : Ptr) → Do (Unit {0})
alloc n junk = if n == null then pure tt else put n (node junk junk)

-- a `malloc` of the length of a string, and the `memcpy` into it
unfoldable pub copy_text : (d : Ptr) → List ℕ → Do (Unit {0})
copy_text d text s =
    if d == null then fault else ok tt (record s { rest = write s.rest d (some text) })

-- `strlen`, and what is done with so many bytes of the block
unfoldable pub read_text : (Ptr → Bool) → Ptr → Do (List ℕ)
read_text ends d s = elim (if d == null then none else s.rest d) [
  | none ↦ fault
  | some text ↦ if ends d then ok text s else fault
]

unfoldable pub free_text : Ptr → Do (Unit {0})
free_text d s = ok tt (record s { rest = write s.rest d none })

-- `QUEUE_INIT`
pub queue_init : (n junk : Ptr) → (size : ℕ) → Do Msgqueue
unfolding alloc
queue_init n junk size = do
  alloc n junk
  pure
      (record { head_node = n; rear = null; front = null; backrear = junk; size = size; count = 0 })

-- the branch of `QUEUE_PUSH` for the first datum
pub push_first : Msgqueue → (d : Ptr) → List ℕ → Do Msgqueue
unfolding copy_text
push_first q d text = do
  set_item q.head_node d
  copy_text d text
  n ← load q.head_node
  pure
      (record q { front = q.head_node; backrear = q.head_node; rear = n.next; count = q.count + 1 })

-- a new node behind the last, in both other branches
pub push_behind : Msgqueue → (n d junk : Ptr) → List ℕ → Do Msgqueue
unfolding alloc copy_text
push_behind q n d junk text = do
  alloc n junk
  set_next q.backrear n
  set_item n d
  copy_text d text
  b ← load q.backrear
  m ← load b.next
  pure (record q { backrear = b.next; rear = m.next; count = q.count + 1 })

-- The first node and its data are given back.
pub drop_front : (Ptr → Bool) → Msgqueue → Do (List ℕ × Msgqueue)
unfolding read_text free_text
drop_front ends q = do
  n ← load q.front
  text ← read_text ends n.item
  free_text n.item
  free_node q.front
  pure (text, record q { front = n.next; count = q.count - 1 })

-- `QUEUE_PUSH`
pub queue_push : (Ptr → Bool) → Msgqueue → (n d junk : Ptr) → List ℕ → Do Msgqueue
unfolding push_first push_behind drop_front
queue_push ends q n d junk text =
    if q.front == null
    then push_first q d text
    else if ltb q.count q.size
    then push_behind q n d junk text
    else do r ← drop_front ends q; push_behind r.1 n d junk text

-- `QUEUE_POP`; `none` is the wait.
pub queue_pop : (Ptr → Bool) → Msgqueue → Do (Option (List ℕ) × Msgqueue)
unfolding drop_front
queue_pop ends q =
    if q.count == 0
    then pure (none, q)
    else if q.front == null
    then pure (none, q)
    else do r ← drop_front ends q; pure (some r.0, r.1)

-- `QUEUE_SIZE`
unfoldable pub queue_size : Msgqueue → ℕ
queue_size q = q.count
