-- ===== src/Mqueue/Samples.antt =====
-- The theorems on the message queue at a queue that is a list, after a few messages.
use small_project_for_life_w.Base.{
  ℕ, ◌≡◌, refl, sym, ap, ◌∙◌, Bool, true, false, Bool-cases, inl, inr, ◌&&◌, Option, Option-cases,
  none, some, List, [], ◌∷◌, ◌++◌, arith, ℤ, pos, is_at, if◌then◌else◌,
}
use small_project_for_life_w.Mqueue.{
  MyMsg, QueueApi, read_message, waits, joins, System, thr_fun1, main_round, by_1, by_main, Reach,
  here, next, started, of_type,
}
use small_project_for_life_w.Mqueue.Documented.{Documented, Flow, is_positive}
use small_project_for_life_w.Mqueue.Order.{taken_in_order}
use small_project_for_life_w.Mqueue.Refused.{not_positive-hangs}

record Held : Type 0 where
  there : Bool
  items : List MyMsg

take_first : ℕ → List MyMsg → Option (MyMsg × List MyMsg)
take_first t [] = none
take_first t (m ∷ ms) =
    let rest : Option (MyMsg × List MyMsg) = elim (take_first t ms) [
      | none ↦ none
      | some (n, left) ↦ some (n, m ∷ left)
    ] in
    if is_at t m.msg_type then some (m, ms) else rest

abbrev send : MyMsg → Held → Option Held
send m q =
    if q.there && is_positive m.msg_type
    then some (record q { items = q.items ++ m ∷ [] })
    else none

abbrev receive : ℕ → Held → Option (MyMsg × Held)
receive t q =
    if q.there
    then elim (take_first t q.items) [
      | none ↦ none
      | some (m, left) ↦ some (m, record q { items = left })
    ]
    else none

abbrev api : QueueApi Held
api = record {
  msgsnd = send;
  msgrcv = receive;
  remove = λ q. some (record { there = false; items = [] });
}

abbrev view : Held → List MyMsg
view q = q.items

abbrev Gone : Held → Type 0
Gone q = q.there ≡ false

take_first-First :
    (t : ℕ) (ms left : List MyMsg) (m : MyMsg)
    → take_first t ms ≡ some (m, left)
    → (pre : List MyMsg) × (post : List MyMsg) × (ms ≡ pre ++ m ∷ post)
      × (left ≡ pre ++ post)
      × (of_type t pre ≡ [])
      × (is_at t m.msg_type ≡ true)
unfolding take_first of_type
take_first-First t [] left m e = let bad : ⊥ = cc in absurd bad
take_first-First t (n ∷ ms) left m e = elim (Bool-cases (is_at t n.msg_type)) [
  | inl hit ↦
      let e' : ◌≡◌ {A = Option (MyMsg × List MyMsg)} (some (n, ms)) (some (m, left)) =
        rw hit at e in
      let same : n ≡ m = cc in
      let l : ms ≡ left = cc in ([], ms, ap (λ k. k ∷ ms) same, sym l, refl, rw same at hit)
  | inr miss ↦ elim (Option-cases (take_first t ms)) [
    | inl gone ↦
        let e' : ◌≡◌ {A = Option (MyMsg × List MyMsg)} none (some (m, left)) =
          rw (miss, gone) at e in
        let bad : ⊥ = cc in absurd bad
    | inr ((k, rest), f) ↦
        let (pre, post, whole, without, first, at) = take_first-First t ms rest k f in
        let e' : ◌≡◌ {A = Option (MyMsg × List MyMsg)} (some (k, n ∷ rest)) (some (m, left)) =
          rw (miss, f) at e in
        let same : k ≡ m = cc in
        let l : n ∷ rest ≡ left = cc in
        (
          n ∷ pre,
          post,
          ap (λ x. n ∷ x) (whole ∙ ap (λ x. pre ++ x ∷ post) same),
          sym l ∙ ap (λ x. n ∷ x) without,
          rw miss first,
          rw same at at,
        )
  ]
]

receive-parts :
    (t : ℕ) (q q' : Held) (m : MyMsg)
    → receive t q ≡ some (m, q')
    → take_first t q.items ≡ some (m, q'.items)
receive-parts t q q' m e = ground arith

api-Documented : Documented api view Gone
api-Documented = record {
  appends = λ m q q' e. ground arith;
  refuses = λ m q h. ground arith;
  takes_first = λ t q q' m e. take_first-First t q.items q'.items m (receive-parts t q q' m e);
  removes = λ q q' e. ground arith;
  gone_refuses = λ m q g. rw g refl;
  gone_empty = λ t q g. rw g refl;
}

abbrev empty : Held
empty = record { there = true; items = [] }

-- the user types "a" and "b" with a type
abbrev typed : ℤ → System Held → System Held
typed k s = main_round api (97 ∷ []) (98 ∷ []) k s

abbrev asked : System Held
asked = thr_fun1 api (typed (pos 1) (started empty))

asked-Reach : Reach api (started empty) asked
unfolding main_round read_message
asked-Reach = next (next here (by_main (97 ∷ []) (98 ∷ []) (pos 1) refl)) (by_1 refl)

taken_in_order_example :
    Flow view Gone asked.queue asked.sent 1 asked.taken_1
    × Flow view Gone asked.queue asked.sent 2 asked.taken_2
    × Flow view Gone asked.queue asked.sent 3 asked.taken_3
taken_in_order_example = taken_in_order api view Gone api-Documented empty asked refl asked-Reach

not_positive-hangs_example :
    ((typed (pos 0) (started empty)).main ≡ joins)
    × ((typed (pos 0) (started empty)).thread_3 ≡ waits)
not_positive-hangs_example =
    not_positive-hangs api view Gone api-Documented (97 ∷ []) (98 ∷ []) (pos 0) (started empty)
      (typed (pos 0) (started empty)) (omega arith) (omega arith) refl refl none_of_it none_of_it
      here
  where
    none_of_it : of_type 3 [] ≡ []
    none_of_it = unfold of_type in refl
