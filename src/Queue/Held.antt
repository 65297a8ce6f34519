-- ===== src/Queue/Held.antt =====
-- The messages that the nodes of a queue lead to.
use small_project_for_life_w.Base.{
  ℕ, ◌≡◌, refl, ◌∙◌, ◌≢◌, Bool, true, false, ◌||◌, none, some, List, [], ◌∷◌, ◌++◌, arith, ◌==◌,
  length,
}
use small_project_for_life_w.Memory.{Ptr, null, write, Store}
use small_project_for_life_w.Memory.Chain.{Cells}
use small_project_for_life_w.Memory.Relink.{write_self, write-ne}
use small_project_for_life_w.Queue.{Msgqueue, Texts}
use small_project_for_life_w.Queue.Fifo.{Messages}
use small_project_for_life_w.Queue.Pop.{IsQueue}

-- one of the nodes leads to the block `d`
abbrev pub leads_to : Ptr → Cells Ptr → Bool
leads_to d [] = false
leads_to d ((a, e) ∷ xs) = (d == e) || leads_to d xs

-- The blocks of the nodes are apart from one another and hold these messages.
abbrev pub Kept : (Ptr → Bool) → Texts → Cells Ptr → Messages → Type 0
Kept ends texts [] [] = Unit
Kept ends texts [] (t ∷ ts) = ⊥
Kept ends texts (x ∷ xs) [] = ⊥
Kept ends texts ((a, d) ∷ xs) (t ∷ ts) =
    (d ≢ null)
    × (texts d ≡ some t)
    × (ends d ≡ true)
    × (leads_to d xs ≡ false)
    × Kept ends texts xs ts

-- The queue holds these messages, the oldest first. Of an empty one only the count is known.
abbrev pub Holds : (Ptr → Bool) → Store Ptr Texts → Msgqueue → Messages → Type 0
Holds ends s q [] = q.count ≡ 0
Holds ends s q (t ∷ ts) =
    (c : Ptr × Ptr) × (xs : Cells Ptr) × IsQueue s q c xs × Kept ends s.rest (c ∷ xs) (t ∷ ts)

module _ (ends : Ptr → Bool) (texts : Texts) where
  pub length-Kept : (xs : Cells Ptr) (ts : Messages) → Kept ends texts xs ts → length xs ≡ length ts
  length-Kept [] [] k = refl
  length-Kept [] (t ∷ ts) k = absurd k
  length-Kept (x ∷ xs) [] k = absurd k
  length-Kept ((a, d) ∷ xs) (t ∷ ts) (_, _, _, _, k) = omega (arith, length-Kept xs ts k)

  -- a block that nothing holds
  pub leads_to-unused :
      (xs : Cells Ptr) (ts : Messages) (d : Ptr)
      → Kept ends texts xs ts
      → texts d ≡ none
      → leads_to d xs ≡ false
  leads_to-unused [] ts d k e = refl
  leads_to-unused (x ∷ xs) [] d k e = absurd k
  leads_to-unused ((a, b) ∷ xs) (t ∷ ts) d (_, here, _, _, k) e =
      ground (arith, leads_to-unused xs ts d k e)

  pub write-Kept :
      (xs : Cells Ptr) (ts : Messages) (d : Ptr) (text : _)
      → leads_to d xs ≡ false
      → Kept ends texts xs ts
      → Kept ends (write texts d text) xs ts
  write-Kept [] [] d text out k = tt
  write-Kept [] (t ∷ ts) d text out k = k
  write-Kept (x ∷ xs) [] d text out k = k
  write-Kept ((a, b) ∷ xs) (t ∷ ts) d text out (ne, here, fine, apart, k) = (
    ne,
    write-ne texts d b text (ground arith) ∙ here,
    fine,
    apart,
    write-Kept xs ts d text (ground arith) k,
  )

pub leads_to-append :
    (d n e : Ptr) (xs : Cells Ptr) → leads_to d (xs ++ (n, e) ∷ []) ≡ (leads_to d xs || (d == e))
leads_to-append d n e [] = ground arith
leads_to-append d n e ((a, b) ∷ xs) = ground (arith, leads_to-append d n e xs)

-- a message behind the others, in a block that none of them uses
pub append-Kept :
    (ends : Ptr → Bool) (texts : Texts) (xs : Cells Ptr) (ts : Messages) (n d : Ptr) (text : List ℕ)
    → Kept ends texts xs ts
    → leads_to d xs ≡ false
    → d ≢ null
    → ends d ≡ true
    → Kept ends (write texts d (some text)) (xs ++ (n, d) ∷ []) (ts ++ text ∷ [])
append-Kept ends texts [] [] n d text k out ne fine =
    (ne, write_self texts d (some text), fine, refl, tt)
append-Kept ends texts [] (t ∷ ts) n d text k out ne fine = absurd k
append-Kept ends texts (x ∷ xs) [] n d text k out ne fine = absurd k
append-Kept ends texts ((a, b) ∷ xs) (t ∷ ts) n d text (b_ne, here, b_fine, apart, k) out ne fine =
    (
      b_ne,
      write-ne texts d b (some text) (ground arith) ∙ here,
      b_fine,
      ground (arith, leads_to-append b n d xs),
      append-Kept ends texts xs ts n d text k (ground arith) ne fine,
    )
