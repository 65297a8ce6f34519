-- ===== src/DevList.antt =====
-- The device list of 20180208/list.c. A `list_t` is its head pointer: a function that assigns to
-- `list->head` returns the new one. The nodes and the blocks of device data lie in one `Memory`.
-- What `malloc` returns is an argument, and each loop has fuel: one round more than the list has
-- nodes is enough, as the children prove.
pub mod Read
pub mod Append
pub mod Pop
pub mod Reverse
pub mod Swap
pub mod Iterate
pub mod Device
pub mod Commands
mod Samples
use small_project_for_life_w.Base.{
  ℕ, zero, suc, ◌+◌, ◌-◌, ◌*◌, ◌≡◌, Bool, true, false, ◌&&◌, Option, none, some, List, [], ◌∷◌,
  ◌==◌, leb, ltb, if◌then◌else◌, ℤ, pos, negsuc, is_at,
}
use small_project_for_life_w.Memory.{
  Ptr, null, Node, node, write, Run, ok, fault, out_of_fuel, Cmd, pure, ◌>>=◌, ◌>>◌, Store, load,
  put, set_next, set_item, free_node, on_rest,
}

-- `devInfoTable_t`; a `uint8_t` array that holds a C string is the bytes before its NUL.
pub record DevInfo : Type 0 where
  pub dev_id : List ℕ
  pub short_addr : List ℕ
  pub flag : ℕ
  pub other : ℕ

-- the blocks of device data
abbrev pub Blocks : Type 0
Blocks = Ptr → Option DevInfo

-- A node holds the pointer to its data.
abbrev pub Mem : Type 0
Mem = Store Ptr Blocks

abbrev pub Do : Type 0 → Type 0
Do = Cmd Mem

-- a read of the block at `d`
unfoldable pub load_block : Ptr → Do DevInfo
load_block d s = elim (if d == null then none else s.rest d) [ none ↦ fault | some v ↦ ok v s ]

-- `memcpy` into the block that `malloc` returned
unfoldable pub put_block : Ptr → DevInfo → Do (Unit {0})
put_block d v s = if d == null then fault else ok tt (record s { rest = write s.rest d (some v) })

-- `memset(d, 0, …); free(d);`
unfoldable pub free_block : Ptr → Do (Unit {0})
unfolding load_block
free_block d = do _ ← load_block d; (λ s. ok tt (record s { rest = write s.rest d none }))

pub list_init : Ptr
list_init = null

pub len_loop : ℕ → Ptr → ℕ → Do ℕ
len_loop zero p i = λ _. out_of_fuel
len_loop (suc k) p i = if p == null then pure i else do n ← load p; len_loop k n.next (i + 1)

pub list_len : ℕ → Ptr → Do ℕ
unfolding len_loop
list_len fuel head = len_loop fuel head 0

-- `n` and `d` are what the two calls of `malloc` return.
pub new_node : (n d : Ptr) → (source : Ptr) → Do Ptr
new_node n d source = do v ← load_block source; put_block d v; put n (node d null); pure n

pub index_loop : ℕ → Ptr → Ptr → ℕ → Do ℕ
index_loop zero p t i = λ _. out_of_fuel
index_loop (suc k) p t i = if t == p then pure i else do n ← load t; index_loop k p n.next (i + 1)

pub get_index_by_node : ℕ → Ptr → Ptr → Do ℕ
unfolding index_loop
get_index_by_node fuel head p = index_loop fuel p head 0

-- `for (; t->next; t = t->next);`
pub last_node : ℕ → Ptr → Do Ptr
last_node zero t = λ _. out_of_fuel
last_node (suc k) t = do n ← load t; if n.next == null then pure t else last_node k n.next

pub list_append : ℕ → (n d : Ptr) → Ptr → (source : Ptr) → Do Ptr
unfolding new_node last_node
list_append fuel n d head source = do
  fresh ← new_node n d source
  if head == null then pure fresh else do t ← last_node fuel head; set_next t fresh; pure head

-- `for (; head->next->next; head = head->next);`
pub second_last : ℕ → Ptr → Do Ptr
second_last zero t = λ _. out_of_fuel
second_last (suc k) t = do
  n ← load t
  m ← load n.next
  if m.next == null then pure t else second_last k n.next

-- The result is what the function returns, 0 or 1, and the new head.
pub list_pop_tail : ℕ → Ptr → Do (ℕ × Ptr)
unfolding second_last
list_pop_tail fuel head = if head == null then pure (0, head) else do
  n ← load head
  if n.next == null then (do free_block n.item; free_node head; pure (1, null)) else do
    t ← second_last fuel head
    m ← load t
    l ← load m.next
    free_block l.item
    free_node m.next
    set_next t null
    pure (1, head)

-- `for (; temp && i != pos; temp = temp->next, i++);`, and the loops of `list_get` and `list_set`:
-- the node at the position, or NULL behind the last
pub find_pos : ℕ → ℤ → Ptr → ℕ → Do Ptr
find_pos zero p t i = λ _. out_of_fuel
find_pos (suc k) p t i =
    if t == null
    then pure null
    else if is_at i p
    then pure t
    else do n ← load t; find_pos k p n.next (i + 1)

-- `for (; head->next != temp; head = head->next);`
pub node_before : ℕ → Ptr → Ptr → Do Ptr
node_before zero temp t = λ _. out_of_fuel
node_before (suc k) temp t = do
  n ← load t
  if n.next == temp then pure t else node_before k temp n.next

pub list_pop : ℕ → Ptr → ℤ → Do (ℕ × Ptr)
unfolding find_pos node_before
list_pop fuel head p = if head == null then pure (0, head) else do
  temp ← find_pos fuel p head 0
  if temp == null
      then pure (0, head)
      else if temp == head
      then (do n ← load head; free_node head; pure (1, n.next))
      else do
        before ← node_before fuel temp head
        n ← load temp
        set_next before n.next
        free_block n.item
        free_node temp
        pure (1, head)

-- the two static variables of `list_iter`
pub record Cursor : Type 0 where
  pub p : Ptr
  pub flag : Bool

-- `none` is the result 0; else what goes through the two pointers.
pub list_iter : ℕ → Ptr → Cursor → Do (Option (Ptr × ℕ) × Cursor)
unfolding get_index_by_node
list_iter fuel head c =
    let p = if c.flag then c.p else head in
    if p == null then pure (none, record { p = p; flag = false }) else do
      n ← load p
      i ← get_index_by_node fuel head p
      pure (some (n.item, i), record { p = n.next; flag = true })

-- `none` is the result 0; else the pointer that is stored.
pub list_get : ℕ → Ptr → ℤ → Do (Option Ptr)
unfolding find_pos
list_get fuel head p = do
  t ← find_pos fuel p head 0
  if t == null then pure none else do n ← load t; pure (some n.item)

pub list_set : ℕ → Ptr → ℤ → Ptr → Do ℕ
unfolding find_pos
list_set fuel head p d = do
  t ← find_pos fuel p head 0
  if t == null then pure 0 else do set_item t d; pure 1

-- The nodes of the second list are linked, not copied.
pub list_extend : ℕ → Ptr → Ptr → Do Ptr
unfolding last_node
list_extend fuel head_a head_b =
    if head_a == null
    then pure head_b
    else do t ← last_node fuel head_a; set_next t head_b; pure head_a

-- the four pointers that `list_swap` looks for
pub record Found : Type 0 where
  pub a_pre : Ptr
  pub b_pre : Ptr
  pub a : Ptr
  pub b : Ptr

-- `i == pos - 1`, where `i` counts from 0
abbrev pub is_before : ℕ → ℤ → Bool
is_before i p = is_at (i + 1) p

pub swap_find : ℕ → (pos_a pos_b : ℤ) → Ptr → ℕ → Found → Do Found
swap_find zero pos_a pos_b t i f = λ _. out_of_fuel
swap_find (suc k) pos_a pos_b t i f = if t == null then pure f else do
  n ← load t
  let f' = if is_before i pos_a then record f { a_pre = t; a = n.next } else f
  let f'' = if is_before i pos_b then record f' { b_pre = t; b = n.next } else f'
  swap_find k pos_a pos_b n.next (i + 1) f''

-- the relinking; the result is the new head
pub swap_link : Ptr → Found → Do Ptr
swap_link head f =
    if f.a == head
    then (do set_next f.b_pre f.a; pure f.b)
    else if f.b == head
    then (do set_next f.a_pre f.b; pure f.a)
    else do set_next f.a_pre f.b; set_next f.b_pre f.a; pure head

pub list_swap : ℕ → Ptr → (pos_a pos_b : ℤ) → Do (ℕ × Ptr)
unfolding swap_find swap_link
list_swap fuel head pos_a pos_b = do
  f ← swap_find fuel pos_a pos_b head 0 (record {
    a_pre = null;
    b_pre = null;
    a = if is_at 0 pos_a then head else null;
    b = if is_at 0 pos_b then head else null;
  })
  if f.a == null
      then pure (0, head)
      else if f.b == null
      then pure (0, head)
      else if f.a == f.b
      then pure (0, head)
      else do
        head' ← swap_link head f
        n ← load f.a
        m ← load f.b
        set_next f.a m.next
        set_next f.b n.next
        pure (1, head')

pub reverse_loop : ℕ → (q m : Ptr) → Do Ptr
reverse_loop zero q m = λ _. out_of_fuel
reverse_loop (suc k) q m =
    if m == null then pure q else do n ← load m; set_next m q; reverse_loop k m n.next

pub list_reverse : ℕ → Ptr → Do Ptr
unfolding reverse_loop
list_reverse fuel head = reverse_loop fuel null head

-- The search by the pointer to the data; `negsuc 0` is -1.
pub data_loop : ℕ → Ptr → Ptr → ℕ → Do ℤ
data_loop zero d t i = λ _. out_of_fuel
data_loop (suc k) d t i =
    if t == null
    then pure (negsuc 0)
    else do n ← load t; if n.item == d then pure (pos i) else data_loop k d n.next (i + 1)

pub list_index : ℕ → Ptr → Ptr → Do ℤ
unfolding data_loop
list_index fuel head d = data_loop fuel d head 0

-- `strcmp(s, t) == 0`
unfoldable pub str_eq : List ℕ → List ℕ → Bool
str_eq [] [] = true
str_eq [] (_ ∷ _) = false
str_eq (_ ∷ _) [] = false
str_eq (a ∷ s) (b ∷ t) = (a == b) && str_eq s t

pub dev_id_loop : ℕ → Ptr → Ptr → ℕ → Do ℤ
unfolding str_eq
dev_id_loop zero d t i = λ _. out_of_fuel
dev_id_loop (suc k) d t i = if t == null then pure (negsuc 0) else do
  n ← load t
  v ← load_block n.item
  w ← load_block d
  if str_eq v.dev_id w.dev_id then pure (pos i) else dev_id_loop k d n.next (i + 1)

pub list_index_by_dev_id : ℕ → Ptr → Ptr → Do ℤ
unfolding dev_id_loop
list_index_by_dev_id fuel head d = dev_id_loop fuel d head 0

-- `p` is the static variable.
pub list_cycle : ℕ → Ptr → Ptr → Do ((Ptr × ℕ) × Ptr)
unfolding get_index_by_node
list_cycle fuel head p =
    let q = if p == null then head else p in
    do n ← load q; i ← get_index_by_node fuel head q; pure ((n.item, i), n.next)

-- The loop of `list_from_array` on the rounds left; `fresh i` is what `malloc` returns for item
-- `i`.
pub array_loop : (ℕ → Ptr × Ptr) → (source size : ℕ) → ℕ → ℕ → Ptr → Do (Unit {0})
array_loop fresh source size zero i t = pure tt
array_loop fresh source size (suc k) i t = do
  q ← new_node (fresh i).0 (fresh i).1 (source + size * i)
  set_next t q
  n ← load t
  array_loop fresh source size k (i + 1) n.next

-- The first part is the result: 0, or none, since the function ends without a `return`.
pub list_from_array : (ℕ → Ptr × Ptr) → Ptr → (source size len : ℕ) → Do (Option ℕ × Ptr)
unfolding new_node array_loop
list_from_array fresh head source size len =
    if head == null
    then (do
      h ← new_node (fresh 0).0 (fresh 0).1 source
      array_loop fresh source size (len - 1) 1 h
      pure (none, h))
    else pure (some 0, head)
