-- ===== src/Memory.antt =====
-- The memory of the list programs: nodes with a `next` pointer at addresses, beside whatever else
-- the program keeps. A command ends with a result, in a fault (a read or write through NULL or
-- through an address that holds nothing), or by using up the fuel of its loop.
pub mod Chain
pub mod Relink
pub mod Exchange
pub mod ExchangeSteps
use small_project_for_life_w.Base.{ℕ, ◌≡◌, Option, none, some, ◌==◌, if◌then◌else◌}

abbrev pub Ptr : Type 0
Ptr = ℕ

abbrev pub null : Ptr
null = 0

pub record Node (A : Type 0) : Type 0 where
  pub item : A
  pub next : Ptr

abbrev pub node : {A : Type 0} → A → Ptr → Node A
node v q = record { item = v; next = q }

abbrev pub Heap : Type 0 → Type 0
Heap A = Ptr → Option (Node A)

-- One address written, or given back.
unfoldable pub write : {C : Type 0} → (Ptr → Option C) → Ptr → Option C → Ptr → Option C
write h p c a = if a == p then c else h a

pub data Run (S A : Type 0) : Type 0 where
  ok : A → S → Run S A
  fault : Run S A
  out_of_fuel : Run S A

abbrev pub Cmd : Type 0 → Type 0 → Type 0
Cmd S A = S → Run S A

abbrev pub pure : {S A : Type 0} → A → Cmd S A
pure a s = ok a s

abbrev pub feed : {S A B : Type 0} → Run S A → (A → Cmd S B) → Run S B
feed (ok a s) k = k a s
feed fault k = fault
feed out_of_fuel k = out_of_fuel

infixl 5 ◌>>=◌ ◌>>◌
abbrev pub ◌>>=◌ : {S A B : Type 0} → Cmd S A → (A → Cmd S B) → Cmd S B
◌>>=◌ m k s = feed (m s) k

abbrev pub ◌>>◌ : {S A B : Type 0} → Cmd S A → Cmd S B → Cmd S B
◌>>◌ m k s = feed (m s) (λ _. k)

-- The run ends well, in a result and a state with the property.
abbrev pub Yields : {S A : Type 0} → Run S A → (A → S → Type 0) → Type 0
Yields (ok a s) P = P a s
Yields fault P = ⊥
Yields out_of_fuel P = ⊥

pub record Store (A E : Type 0) : Type 0 where
  pub cells : Heap A
  pub rest : E

module _ {A E : Type 0} where
  -- `*p`
  unfoldable pub load : Ptr → Cmd (Store A E) (Node A)
  load p s = elim (if p == null then none else s.cells p) [ none ↦ fault | some n ↦ ok n s ]

  -- what `malloc` returned is filled
  unfoldable pub put : Ptr → Node A → Cmd (Store A E) (Unit {0})
  put p n s = if p == null then fault else ok tt (record s { cells = write s.cells p (some n) })

  -- `p->next = q`
  unfoldable pub set_next : Ptr → Ptr → Cmd (Store A E) (Unit {0})
  unfolding load put
  set_next p q = do n ← load p; put p (node n.item q)

  -- an assignment to the rest of the node
  unfoldable pub set_item : Ptr → A → Cmd (Store A E) (Unit {0})
  unfolding load put
  set_item p v = do n ← load p; put p (node v n.next)

  -- `free(p)`
  unfoldable pub free_node : Ptr → Cmd (Store A E) (Unit {0})
  unfolding load
  free_node p = do _ ← load p; (λ s. ok tt (record s { cells = write s.cells p none }))

  -- a command on the rest of the state
  unfoldable pub on_rest : (E → Option E) → Cmd (Store A E) (Unit {0})
  on_rest f s = elim (f s.rest) [ none ↦ fault | some e ↦ ok tt (record s { rest = e }) ]
