-- ===== src/Timer/Find.antt =====
-- `list_for_entry` and `check_timer_status`: the search by id.
use small_project_for_life_w.Base.{
  ℕ, zero, suc, ◌<◌, ◌≡◌, refl, ◌≢◌, inl, inr, true, false, ◌&&◌, Option, none, some, [], ◌∷◌, ◌++◌,
  arith, ◌==◌, if◌then◌else◌, Bool-cases, length, Option-cases, ℤ, pos, negsuc, is_at,
}
use small_project_for_life_w.Memory.{Ptr, null, node, ok, Store, ◌>>=◌}
use small_project_for_life_w.Memory.Chain.{Cells, first, Chain, first-ne-null, load-ok}
use small_project_for_life_w.Timer.{
  Itimerspec, ImiTimer, TimerApi, entry_loop, list_for_entry, check_timer_status,
}

abbrev pub Timers : Type 0
Timers = Cells ImiTimer

-- the first timer of the list that has the id
abbrev pub find_timer : ℕ → Timers → Option (Ptr × ImiTimer)
find_timer timer_id [] = none
find_timer timer_id (c ∷ xs) =
    if c.1.evp.sival_int == timer_id then some c else find_timer timer_id xs

abbrev pub address : Option (Ptr × ImiTimer) → Ptr
address none = null
address (some c) = c.0

-- what `check_timer_status` finds out from the remaining time
abbrev pub status : Option Itimerspec → ℤ
status none = negsuc 0
status (some c) = if is_at 0 c.value_sec && is_at 0 c.interval_sec then negsuc 1 else pos 0

abbrev pub status_of : {O : Type 0} → TimerApi O → O → Option (Ptr × ImiTimer) → ℤ
status_of api o none = negsuc 0
status_of api o (some c) = status (api.gettime c.1.timer o)

-- a timer behind others that do not have its id is found
pub find_timer-behind :
    (timer_id : ℕ) (pre post : Timers) (c : Ptr × ImiTimer)
    → find_timer timer_id pre ≡ none
    → c.1.evp.sival_int ≡ timer_id
    → find_timer timer_id (pre ++ c ∷ post) ≡ some c
find_timer-behind timer_id [] post c out same =
    let hit : (c.1.evp.sival_int == timer_id) ≡ true = ground arith in rw hit
find_timer-behind timer_id (b ∷ pre) post c out same =
    elim (Bool-cases (b.1.evp.sival_int == timer_id)) [
      | inl hit ↦ let e : some b ≡ none = rw hit at out in cc
      | inr miss ↦ rw miss (find_timer-behind timer_id pre post c (rw miss at out) same)
    ]

module _ {O : Type 0} (s : Store ImiTimer O) where
  entry_loop-find :
      (k timer_id : ℕ) (xs : Timers)
      → Chain s.cells null xs
      → length xs < k
      → entry_loop k timer_id (first xs null) s ≡ ok (address (find_timer timer_id xs)) s
  unfolding entry_loop
  entry_loop-find zero timer_id xs ch h = absurd (omega arith)
  entry_loop-find (suc k) timer_id [] ch h = refl
  entry_loop-find (suc k) timer_id ((a, v) ∷ xs) (ne, here, out, ch) h =
      rw
        (
          first-ne-null s.cells a v xs (ne, here, out, ch),
          ◌>>=◌,
          load-ok a v (first xs null) s ne here,
        )
        (elim (Bool-cases (v.evp.sival_int == timer_id)) [
          | inl hit ↦ rw hit
          | inr miss ↦ rw miss (entry_loop-find k timer_id xs ch (omega arith))
        ])

  pub find_timer-linked :
      (timer_id : ℕ) (xs : Timers) (c : Ptr × ImiTimer)
      → Chain s.cells null xs
      → find_timer timer_id xs ≡ some c
      → (q : Ptr) × (c.0 ≢ null) × (s.cells c.0 ≡ some (node c.1 q))
  find_timer-linked timer_id [] c ch e = cc
  find_timer-linked timer_id (b ∷ xs) c (ne, here, out, ch) e =
      elim (Bool-cases (b.1.evp.sival_int == timer_id)) [
        | inl hit ↦ let same : b ≡ c = ground arith in (first xs null, ground arith, ground arith)
        | inr miss ↦ find_timer-linked timer_id xs c ch (rw miss at e)
      ]

  -- `list_for_entry` finds the first timer of the list that has the id, or NULL where none has.
  pub list_for_entry-find :
      (fuel : ℕ) (head : Ptr × ImiTimer) (timer_id : ℕ) (xs : Timers)
      → Chain s.cells null (head ∷ xs)
      → length xs < fuel
      → list_for_entry fuel head.0 timer_id s ≡ ok (address (find_timer timer_id xs)) s
  unfolding list_for_entry
  list_for_entry-find fuel head timer_id xs (ne, here, out, ch) h =
      rw (◌>>=◌, load-ok head.0 head.1 (first xs null) s ne here)
        (entry_loop-find fuel timer_id xs ch h)

  -- `check_timer_status` is -1 where no timer has the id or the system cannot read it, -2 where
  -- the first that has it is disarmed, by the seconds of its times, and 0 otherwise.
  pub check_timer_status-status :
      (api : TimerApi O) (fuel : ℕ) (head : Ptr × ImiTimer) (timer_id : ℕ) (xs : Timers)
      → Chain s.cells null (head ∷ xs)
      → length xs < fuel
      → check_timer_status api fuel head.0 timer_id s
        ≡ ok (status_of api s.rest (find_timer timer_id xs)) s
  unfolding check_timer_status
  check_timer_status-status api fuel head timer_id xs ch h =
      rw (first-ne-null s.cells head.0 head.1 xs ch, list_for_entry-find fuel head timer_id xs ch h)
        (elim (Option-cases (find_timer timer_id xs)) [
          | inl missing ↦ rw missing
          | inr (c, found) ↦
              let (q, c_ne, here) = find_timer-linked timer_id xs c ch.3 found in
              let not_null : (c.0 == null) ≡ false = ground arith in
              rw (found, not_null, ◌>>=◌, load-ok c.0 c.1 q s c_ne here)
                (elim (Option-cases (api.gettime c.1.timer s.rest)) [
                  | inl unread ↦ rw unread
                  | inr (t, read) ↦
                      rw read (elim (Bool-cases (is_at 0 t.value_sec && is_at 0 t.interval_sec)) [
                        | inl disarmed ↦ rw disarmed
                        | inr armed ↦ rw armed
                      ])
                ])
        ])
