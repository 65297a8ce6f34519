-- ===== src/DevList/Commands/Samples.antt =====
-- A run of 20180208/main.c up to its loop.
use small_project_for_life_w.Base.{
  ℕ, ◌+◌, ◌≡◌, refl, none, some, [], ◌∷◌, arith, pos, if◌then◌else◌, ◌==◌,
}
use small_project_for_life_w.Memory.{
  Ptr, null, write, put, load, set_next, free_node, Yields, ◌>>=◌,
}
use small_project_for_life_w.Memory.Chain.{Chain}
use small_project_for_life_w.DevList.{
  put_block, load_block, free_block, list_init, Mem, list_append, list_index_by_dev_id, list_pop,
  list_pop_tail, list_len, list_get, new_node, last_node, find_pos, node_before, second_last,
  len_loop, dev_id_loop,
}
use small_project_for_life_w.DevList.Commands.{
  removed, tail_removed, devices, blank_device, set_up, first_round, command, print_loop,
  rename_device,
}

-- main.c up to its loop, on a memory that holds nothing but the block of `devInfo`
abbrev at_start : Mem
at_start = record {
  cells = λ p. none;
  rest = λ p. if p == 50 then some (blank_device 48 48) else none;
}

abbrev fresh : ℕ → Ptr × Ptr
fresh i = (10 + i, 110 + i)

first_round_runs :
    Yields
      ((do head ← set_up 5 50 fresh; first_round 5 50 51 20 120 head null) at_start)
      (λ (shown, popped, last, head) t.
        (shown ≡ devices (blank_device 50 49 ∷ blank_device 51 50 ∷ blank_device 52 51 ∷ []))
        × (popped ≡ removed (pos 2) 1)
        × (last ≡ tail_removed 1)
        × (head ≡ 10)
        × Chain t.cells null ((10, 110) ∷ []))
unfolding set_up first_round command print_loop rename_device list_append list_index_by_dev_id
    list_pop list_pop_tail list_len list_get new_node last_node find_pos node_before second_last
    len_loop dev_id_loop put_block load_block free_block list_init write put load set_next free_node
first_round_runs = (refl, refl, refl, refl, (ground arith, refl, refl, tt))
