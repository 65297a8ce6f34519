-- ===== src/Timer/Create.antt =====
-- `create_event_timer`: the timer armed and its node in the list, or neither.
use small_project_for_life_w.Base.{
  ℕ, zero, suc, ◌<◌, ◌≡◌, refl, sym, ap, ◌∙◌, ◌≢◌, false, Option, none, some, ◌∷◌, arith, ◌==◌,
  if◌then◌else◌, length, ℤ, pos, negsuc, is_at,
}
use small_project_for_life_w.Memory.{
  Ptr, null, node, Heap, write, ok, Yields, Store, put, pure, free_node, ◌>>◌,
}
use small_project_for_life_w.Memory.Chain.{
  has, Chain, first-ne-null, free_node-ok, Chain-frame, Chain-write, not-has_of_none, guard_passed,
  bind-ok, Yields-bind, Yields-guard,
}
use small_project_for_life_w.Memory.Relink.{write-ne, write_self, ne_of_has}
use small_project_for_life_w.Timer.{
  Itimerspec, Sigevent, ImiTimer, TimerMode, TimerApi, cleared, times, list_add, check_timer_status,
  start_event_timer, create_event_timer, create_checked,
}
use small_project_for_life_w.Timer.Find.{Timers, find_timer, status_of, check_timer_status-status}
use small_project_for_life_w.Timer.Start.{event, armed, Started, result, start_event_timer-armed}
use small_project_for_life_w.Timer.Add.{put-ok, list_add-Chain}

-- What a creation leaves: with the timer armed, its node behind the head; otherwise the list as it
-- was, and the node freed again.
abbrev pub Outcome :
    Heap ImiTimer → Ptr → Ptr × ImiTimer → Timers → Sigevent → Itimerspec → Option ℕ → Type 0
Outcome h n head xs evp its none = Chain h null (head ∷ xs) × (h n ≡ none)
Outcome h n head xs evp its (some t) =
    Chain h null (head ∷ (n, record { evp = evp; its = its; timer = t }) ∷ xs)

module _ {O : Type 0} (api : TimerApi O) (s : Store ImiTimer O) where
  create_event_timer-checked :
      (fuel n : ℕ) (head : Ptr × ImiTimer) (xs : Timers) (timer_id : ℕ) (mode : TimerMode) (sec : ℤ)
      (time_out_func : ℕ) (status : ℤ)
      → Chain s.cells null (head ∷ xs)
      → length xs < fuel
      → status_of api s.rest (find_timer timer_id xs) ≡ status
      → create_event_timer api fuel n head.0 timer_id mode sec time_out_func s
        ≡ create_checked api n head.0 timer_id mode sec time_out_func status s
  unfolding create_event_timer
  create_event_timer-checked fuel n head xs timer_id mode sec time_out_func status ch h e =
      guard_passed (head.0 == null) _ _ s (first-ne-null s.cells head.0 head.1 xs ch)
      ∙ bind-ok (check_timer_status api fuel head.0 timer_id) _ s s status
          (check_timer_status-status s api fuel head timer_id xs ch h ∙ ap (λ (z : ℤ). ok z s) e)

  -- the end of `create_event_timer`, behind the arming of the timer
  finish :
      (t : Store ImiTimer O) (n : Ptr) (head : Ptr × ImiTimer) (xs : Timers) (evp : Sigevent)
      (its : Itimerspec) (made : Option ℕ) (r : ℤ) (v : ImiTimer) (o : O)
      → Chain t.cells null (head ∷ xs)
      → n ≢ null
      → has n (head ∷ xs) ≡ false
      → t.cells n ≡ some (node v null)
      → Started evp its made v
      → r ≡ result made
      → t.rest ≡ o
      → Yields
          ((if is_at 0 r
              then (do list_add head.0 n; pure (pos 0))
              else do free_node n; pure (negsuc 0))
            t)
          (λ r u. (r ≡ result made) × Outcome u.cells n head xs evp its made × (u.rest ≡ o))
  finish t n head xs evp its none r v o ch ne out here st e at_rest =
      rw (e, ◌>>◌, free_node-ok n v null t ne here)
        (
          refl,
          (Chain-write t.cells null (head ∷ xs) n none out ch, write_self t.cells n none),
          at_rest,
        )
  finish t n head xs evp its (some h) r v o ch ne out here st e at_rest = rw e (
      Yields-bind _ _ (list_add head.0 n) _ t (list_add-Chain t head n v xs ch ne here out)
        λ x u (ch', rest). (refl, rw (← st) ch', rest ∙ at_rest))

  create_checked-Outcome :
      (n : ℕ) (head : Ptr × ImiTimer) (xs : Timers) (timer_id : ℕ) (mode : TimerMode) (sec : ℤ)
      (time_out_func : ℕ)
      → Chain s.cells null (head ∷ xs)
      → n ≢ null
      → s.cells n ≡ none
      → Yields (create_checked api n head.0 timer_id mode sec time_out_func (negsuc 0) s) (λ r t.
        let evp = event timer_id time_out_func in
        let (made, o) = armed api evp (times mode sec) s.rest in
        (r ≡ result made) × Outcome t.cells n head xs evp (times mode sec) made × (t.rest ≡ o))
  unfolding create_checked
  create_checked-Outcome n head xs timer_id mode sec time_out_func ch ne unused =
      let out = not-has_of_none s.cells null n (head ∷ xs) ch unused in
      let s₁ = record s { cells = write s.cells n (some (node cleared null)) } in
      let here₁ = write_self s.cells n (some (node cleared null)) in
      Yields-guard _ (n == null) _ _ s (ground arith) (
        Yields-bind (λ _ t. t ≡ s₁) _ (put n (node cleared null)) _ s (put-ok s n ne)
          λ _ t e. rw e (
            Yields-bind _ _ (start_event_timer api n timer_id mode sec time_out_func) _ s₁
              (start_event_timer-armed api s₁ n timer_id mode sec time_out_func ne here₁)
              λ r t (e, (v, here, st), same, rest).
                let ch' =
                  Chain-frame s.cells t.cells null (head ∷ xs)
                    (λ p i.
                      let apart : p ≢ n = λ f. ne_of_has p n (head ∷ xs) i out (sym f) in
                      same p apart ∙ write-ne s.cells n p (some (node cleared null)) apart)
                    ch in
                finish t n head xs _ _ _ r v _ ch' ne out here st e rest))

  create_checked-exists :
      (n head timer_id : ℕ) (mode : TimerMode) (sec : ℤ) (time_out_func : ℕ) (status : ℤ)
      → status ≢ negsuc 0
      → create_checked api n head timer_id mode sec time_out_func status s ≡ ok (negsuc 0) s
  unfolding create_checked
  create_checked-exists n head timer_id mode sec time_out_func (pos _) exists = refl
  create_checked-exists n head timer_id mode sec time_out_func (negsuc (suc _)) exists = refl
  create_checked-exists n head timer_id mode sec time_out_func (negsuc zero) exists =
      absurd (exists refl)

  -- Where no timer of the list has the id, or the system does not tell the time of the first one
  -- that has it, so that `check_timer_status` is -1, and `malloc` returned an unused address:
  -- `create_event_timer` returns 0 exactly if the system creates and sets the timer, and then its
  -- node is the first of the list. Otherwise it returns -1, the list is as it was, and neither the
  -- node nor a timer of the system is left.
  pub create_event_timer-Outcome :
      (fuel n : ℕ) (head : Ptr × ImiTimer) (xs : Timers) (timer_id : ℕ) (mode : TimerMode) (sec : ℤ)
      (time_out_func : ℕ)
      → Chain s.cells null (head ∷ xs)
      → length xs < fuel
      → status_of api s.rest (find_timer timer_id xs) ≡ negsuc 0
      → n ≢ null
      → s.cells n ≡ none
      → Yields (create_event_timer api fuel n head.0 timer_id mode sec time_out_func s) (λ r t.
        let evp = event timer_id time_out_func in
        let (made, o) = armed api evp (times mode sec) s.rest in
        (r ≡ result made) × Outcome t.cells n head xs evp (times mode sec) made × (t.rest ≡ o))
  create_event_timer-Outcome fuel n head xs timer_id mode sec time_out_func ch h fresh ne unused =
      rw
        (create_event_timer-checked fuel n head xs timer_id mode sec time_out_func (negsuc 0) ch h
          fresh)
        (create_checked-Outcome n head xs timer_id mode sec time_out_func ch ne unused)

  -- Where `check_timer_status` is 0 or -2, `create_event_timer` returns -1 and changes nothing: a
  -- timer that has run out still blocks its id.
  pub create_event_timer-exists :
      (fuel n : ℕ) (head : Ptr × ImiTimer) (xs : Timers) (timer_id : ℕ) (mode : TimerMode) (sec : ℤ)
      (time_out_func : ℕ)
      → Chain s.cells null (head ∷ xs)
      → length xs < fuel
      → status_of api s.rest (find_timer timer_id xs) ≢ negsuc 0
      → create_event_timer api fuel n head.0 timer_id mode sec time_out_func s ≡ ok (negsuc 0) s
  create_event_timer-exists fuel n head xs timer_id mode sec time_out_func ch h exists =
      create_event_timer-checked fuel n head xs timer_id mode sec time_out_func _ ch h refl
      ∙ create_checked-exists n head.0 timer_id mode sec time_out_func _ exists
