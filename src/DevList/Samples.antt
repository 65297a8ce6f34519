-- ===== src/DevList/Samples.antt =====
-- The theorems on the device list at a list of three devices.
use small_project_for_life_w.Base.{
  true, ℕ, ◌≡◌, refl, none, some, [], ◌∷◌, arith, pos, if◌then◌else◌, ◌==◌,
}
use small_project_for_life_w.Memory.{Ptr, null, node, Heap, write, Yields}
use small_project_for_life_w.Memory.Chain.{Cells, Chain, SameOutside}
use small_project_for_life_w.DevList.{DevInfo, Blocks, Mem, list_pop, list_reverse, list_swap}
use small_project_for_life_w.DevList.Pop.{list_pop-at}
use small_project_for_life_w.DevList.Reverse.{list_reverse-reverse}
use small_project_for_life_w.DevList.Swap.{list_swap-swap}

abbrev device : ℕ → DevInfo
device n = record { dev_id = n ∷ 49 ∷ []; short_addr = []; flag = 0; other = 0 }

abbrev three : Cells Ptr
three = (10, 110) ∷ (11, 111) ∷ (12, 112) ∷ []

abbrev nodes : Heap Ptr
nodes = λ p.
    if p == 10
    then some (node 110 11)
    else if p == 11
    then some (node 111 12)
    else if p == 12
    then some (node 112 null)
    else if p == 20
    then some (node 120 null)
    else none

abbrev blocks : Blocks
blocks = λ p.
    if p == 110
    then some (device 97)
    else if p == 111
    then some (device 98)
    else if p == 112
    then some (device 99)
    else if p == 50
    then some (device 98)
    else if p == 51
    then some (device 90)
    else none

abbrev memory : Mem
memory = record { cells = nodes; rest = blocks }

three-Chain : Chain nodes null three
three-Chain = (ground arith, refl, refl, (ground arith, refl, refl, (ground arith, refl, refl, tt)))

list_pop-at_example : Yields (list_pop 4 10 (pos 1) memory) (λ (r, head) t.
    (r ≡ 1)
    × (head ≡ 10)
    × Chain t.cells null ((10, 110) ∷ (12, 112) ∷ [])
    × (t.cells 11 ≡ none)
    × (t.rest ≡ write blocks 111 none))
list_pop-at_example =
    list_pop-at memory 4 ((10, 110) ∷ []) ((12, 112) ∷ []) 11 111 (device 98) three-Chain
      (omega arith) (ground arith) refl

list_reverse-reverse_example : Yields (list_reverse 4 10 memory) (λ head t.
    (head ≡ 12)
    × Chain t.cells null ((12, 112) ∷ (11, 111) ∷ (10, 110) ∷ [])
    × (t.rest ≡ blocks)
    × SameOutside three nodes t.cells)
list_reverse-reverse_example = list_reverse-reverse 4 memory three three-Chain (omega arith)

-- the last and the first
list_swap-swap_example : Yields (list_swap 4 10 (pos 2) (pos 0) memory) (λ (r, head) t.
    (r ≡ 1)
    × (head ≡ 12)
    × Chain t.cells null ((12, 112) ∷ (11, 111) ∷ (10, 110) ∷ [])
    × (t.rest ≡ blocks)
    × SameOutside three nodes t.cells)
list_swap-swap_example =
    list_swap-swap memory ((11, 111) ∷ []) [] 10 12 110 112 [] true 4 three-Chain (omega arith)
