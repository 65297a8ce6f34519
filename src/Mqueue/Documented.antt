-- ===== src/Mqueue/Documented.antt =====
-- What the manual says of the queue, and what follows for the messages of one type.
use small_project_for_life_w.Base.{
  ℕ, zero, suc, ◌≡◌, refl, sym, ap, ◌∙◌, ◌≢◌, Bool, true, false, inl, inr, ◌⊎◌, none, some, List,
  [], ◌∷◌, ◌++◌, append_assoc, arith, ℤ, pos, negsuc, is_at,
}
use small_project_for_life_w.Mqueue.{MyMsg, QueueApi, of_type}

abbrev pub is_positive : ℤ → Bool
is_positive (pos zero) = false
is_positive (pos (suc n)) = true
is_positive (negsuc n) = false

-- `view` is what waits in a queue, oldest first, and `Gone` says that the queue has been removed.
-- `msgsnd` appends a message, and refuses one whose type is not positive; `msgrcv` takes the first
-- message of the type; nothing can be done with a queue that has been removed.
pub record Documented {Q : Type 0} (api : QueueApi Q) (view : Q → List MyMsg) (Gone : Q → Type 0)
    : Type 0 where
  pub appends : (m : MyMsg) (q q' : Q) → api.msgsnd m q ≡ some q' → view q' ≡ view q ++ m ∷ []
  pub refuses : (m : MyMsg) (q : Q) → is_positive m.msg_type ≡ false → api.msgsnd m q ≡ none
  pub takes_first :
      (t : ℕ) (q q' : Q) (m : MyMsg)
      → api.msgrcv t q ≡ some (m, q')
      → (pre : List MyMsg) × (post : List MyMsg) × (view q ≡ pre ++ m ∷ post)
        × (view q' ≡ pre ++ post)
        × (of_type t pre ≡ [])
        × (is_at t m.msg_type ≡ true)
  pub removes : (q q' : Q) → api.remove q ≡ some q' → Gone q'
  pub gone_refuses : (m : MyMsg) (q : Q) → Gone q → api.msgsnd m q ≡ none
  pub gone_empty : (t : ℕ) (q : Q) → Gone q → api.msgrcv t q ≡ none

pub of_type-append :
    (t : ℕ) (xs ys : List MyMsg) → of_type t (xs ++ ys) ≡ of_type t xs ++ of_type t ys
unfolding of_type
of_type-append t [] ys = refl
of_type-append t (m ∷ xs) ys = ground (arith, of_type-append t xs ys)

pub of_type-hit :
    (t : ℕ) (m : MyMsg) (ms : List MyMsg)
    → is_at t m.msg_type ≡ true
    → of_type t (m ∷ ms) ≡ m ∷ of_type t ms
unfolding of_type
of_type-hit t m ms h = rw h

pub of_type-miss :
    (t : ℕ) (m : MyMsg) (ms : List MyMsg)
    → is_at t m.msg_type ≡ false
    → of_type t (m ∷ ms) ≡ of_type t ms
unfolding of_type
of_type-miss t m ms h = rw h

is_at-other : (t u : ℕ) (z : ℤ) → is_at t z ≡ true → u ≢ t → is_at u z ≡ false
is_at-other t u (pos n) h ne = ground arith
is_at-other t u (negsuc n) h ne = refl

-- The messages of type `t` that went into the queue are those taken out and then a rest, which is
-- what waits in the queue while that is there.
abbrev pub Flow :
    {Q : Type 0} → (Q → List MyMsg) → (Q → Type 0) → Q → List MyMsg → ℕ → List MyMsg → Type 0
Flow view Gone q sent t taken =
    (rest : List MyMsg) × (of_type t sent ≡ taken ++ rest) × ((rest ≡ of_type t (view q)) ⊎ Gone q)

module _ {Q : Type 0} (api : QueueApi Q) (view : Q → List MyMsg) (Gone : Q → Type 0)
    (doc : Documented api view Gone) where
  pub Flow-send :
      (m : MyMsg) (q q' : Q) (sent : List MyMsg) (t : ℕ) (taken : List MyMsg)
      → api.msgsnd m q ≡ some q'
      → Flow view Gone q sent t taken
      → Flow view Gone q' (sent ++ m ∷ []) t taken
  Flow-send m q q' sent t taken e (rest, whole, now) = (
    rest ++ of_type t (m ∷ []),
    of_type-append t sent (m ∷ [])
        ∙ ap (λ l. l ++ of_type t (m ∷ [])) whole
        ∙ append_assoc taken rest (of_type t (m ∷ [])),
    by_case now,
  )
    where
      by_case :
          (rest ≡ of_type t (view q)) ⊎ Gone q
          → (rest ++ of_type t (m ∷ []) ≡ of_type t (view q')) ⊎ Gone q'
      by_case (inl here) = inl (
          ap (λ l. l ++ of_type t (m ∷ [])) here
          ∙ sym (of_type-append t (view q) (m ∷ []))
          ∙ sym (ap (of_type t) (doc.appends m q q' e)))
      by_case (inr gone) = let bad : ⊥ = cc (doc.gone_refuses m q gone, e) in absurd bad

  -- What was the first message of the type is no longer there,
  pub view-take :
      (t : ℕ) (q q' : Q) (m : MyMsg)
      → api.msgrcv t q ≡ some (m, q')
      → of_type t (view q) ≡ m ∷ of_type t (view q')
  view-take t q q' m e =
      let (pre, post, before, after, first, hit) = doc.takes_first t q q' m e in
      rw (
        before,
        after,
        of_type-append t pre (m ∷ post),
        of_type-append t pre post,
        first,
        of_type-hit t m post hit,
      )

  -- and the messages of other types are.
  pub view-other :
      (t u : ℕ) (q q' : Q) (m : MyMsg)
      → api.msgrcv t q ≡ some (m, q')
      → u ≢ t
      → of_type u (view q) ≡ of_type u (view q')
  view-other t u q q' m e ne =
      let (pre, post, before, after, first, hit) = doc.takes_first t q q' m e in
      rw (
        before,
        after,
        of_type-append u pre (m ∷ post),
        of_type-append u pre post,
        of_type-miss u m post (is_at-other t u m.msg_type hit ne),
      )

  pub Flow-take :
      (t : ℕ) (q q' : Q) (m : MyMsg) (sent taken : List MyMsg)
      → api.msgrcv t q ≡ some (m, q')
      → Flow view Gone q sent t taken
      → Flow view Gone q' sent t (taken ++ m ∷ [])
  Flow-take t q q' m sent taken e (rest, whole, inl here) = (
    of_type t (view q'),
    whole
        ∙ ap (λ l. taken ++ l) (here ∙ view-take t q q' m e)
        ∙ sym (append_assoc taken (m ∷ []) (of_type t (view q'))),
    inl refl,
  )
  Flow-take t q q' m sent taken e (rest, whole, inr gone) =
      let bad : ⊥ = cc (doc.gone_empty t q gone, e) in absurd bad

  pub Flow-other :
      (t u : ℕ) (q q' : Q) (m : MyMsg) (sent taken : List MyMsg)
      → api.msgrcv t q ≡ some (m, q')
      → u ≢ t
      → Flow view Gone q sent u taken
      → Flow view Gone q' sent u taken
  Flow-other t u q q' m sent taken e ne (rest, whole, inl here) =
      (rest, whole, inl (here ∙ view-other t u q q' m e ne))
  Flow-other t u q q' m sent taken e ne (rest, whole, inr gone) =
      let bad : ⊥ = cc (doc.gone_empty t q gone, e) in absurd bad

  pub Flow-Gone :
      (u : ℕ) (q q' : Q) (sent taken : List MyMsg)
      → api.remove q ≡ some q'
      → Flow view Gone q sent u taken
      → Flow view Gone q' sent u taken
  Flow-Gone u q q' sent taken e (rest, whole, now) = (rest, whole, inr (doc.removes q q' e))
