-- ===== src/Timer.antt =====
-- The event timers of auto_imi_db_bin/src/miio_timer.c: a list of timers behind a head node that
-- holds none. The POSIX timers are a parameter, whose state is the rest of the store. What
-- `malloc` returns is an argument, and each loop has fuel: one round more than the list has timers
-- is enough.
pub mod Find
pub mod Start
pub mod Add
pub mod Create
pub mod Delete
pub mod Refresh
mod Samples
use small_project_for_life_w.Base.{
  ℕ, zero, suc, ◌+◌, ◌≡◌, Bool, true, false, ◌&&◌, Option, none, some, ◌==◌, if◌then◌else◌, ℤ, pos,
  negsuc, is_at,
}
use small_project_for_life_w.Memory.{
  Ptr, null, node, write, Run, ok, fault, out_of_fuel, Cmd, pure, ◌>>=◌, ◌>>◌, Store, load, put,
  set_next, set_item, free_node,
}

-- `struct itimerspec`
pub record Itimerspec : Type 0 where
  pub interval_sec : ℤ
  pub interval_nsec : ℤ
  pub value_sec : ℤ
  pub value_nsec : ℤ

-- `struct sigevent`, of which `sival_int` overwrites what `sival_ptr` was set to
pub record Sigevent : Type 0 where
  pub sival_int : ℕ
  pub sigev_notify : ℕ
  pub sigev_notify_function : ℕ

-- `imi_timer_t`
pub record ImiTimer : Type 0 where
  pub evp : Sigevent
  pub its : Itimerspec
  pub timer : ℕ

pub data TimerMode : Type 0 where
  timer_mode_loop : TimerMode
  timer_mode_single : TimerMode

abbrev pub sigev_thread : ℕ
sigev_thread = 2

-- a timer that `bzero` has cleared
abbrev pub cleared : ImiTimer
cleared = record {
  evp = record { sival_int = 0; sigev_notify = 0; sigev_notify_function = 0 };
  its = record {
    interval_sec = pos 0;
    interval_nsec = pos 0;
    value_sec = pos 0;
    value_nsec = pos 0;
  };
  timer = 0;
}

-- `timer_create`, `timer_settime`, `timer_gettime` and `timer_delete` on a system state; `none` and
-- `false` are failures.
pub record TimerApi (O : Type 0) : Type 0 where
  pub create : Sigevent → O → Option ℕ × O
  pub settime : ℕ → Itimerspec → O → Bool × O
  pub gettime : ℕ → O → Option Itimerspec
  pub delete : ℕ → O → Bool × O

abbrev pub Do : Type 0 → Type 0 → Type 0
Do O A = Cmd (Store ImiTimer O) A

module _ {O : Type 0} where
  -- a call of the system
  abbrev pub call : {A : Type 0} → (O → A × O) → Do O A
  call f s = let r = f s.rest in ok r.0 (record s { rest = r.1 })

  -- `list_for_each`, until a node has the id
  pub entry_loop : ℕ → ℕ → Ptr → Do O Ptr
  entry_loop zero timer_id p = λ _. out_of_fuel
  entry_loop (suc k) timer_id p = if p == null then pure null else do
    n ← load p
    if n.item.evp.sival_int == timer_id then pure p else entry_loop k timer_id n.next

  pub list_for_entry : ℕ → Ptr → ℕ → Do O Ptr
  unfolding entry_loop
  list_for_entry fuel head timer_id = do n ← load head; entry_loop fuel timer_id n.next

  unfoldable pub timer_init : (n : Ptr) → Do O Ptr
  timer_init n = if n == null then pure null else do put n (node cleared null); pure n

  -- `__list_add`
  pub list_add : (head n : Ptr) → Do O (Unit {0})
  list_add head n = if head == null then pure tt else if n == null then pure tt else do
    h ← load head
    if h.next == null then set_next head n else do set_next n h.next; set_next head n

  -- the part of `delete_designation_node` for the node that it finds
  pub unlink : (prev p : Ptr) → Do O ℤ
  unlink prev p = do
    n ← load p
    if n.next == null
        then (do set_next prev null; free_node p; pure (pos 0))
        else do set_next prev n.next; set_next p null; free_node p; pure (pos 0)

  pub node_loop : ℕ → ℕ → (prev p : Ptr) → Do O ℤ
  unfolding unlink
  node_loop zero timer_id prev p = λ _. out_of_fuel
  node_loop (suc k) timer_id prev p = if p == null then pure (negsuc 0) else do
    n ← load p
    if n.item.evp.sival_int == timer_id
        then unlink prev p
        else do b ← load prev; m ← load p; node_loop k timer_id b.next m.next

  pub delete_designation_node : ℕ → Ptr → ℕ → Do O ℤ
  unfolding node_loop
  delete_designation_node fuel head timer_id = do n ← load head; node_loop fuel timer_id head n.next

-- the times that `__create_event_timer` sets
abbrev pub interval_of : TimerMode → ℤ → ℤ
interval_of timer_mode_loop sec = sec
interval_of timer_mode_single sec = pos 0

abbrev pub times : TimerMode → ℤ → Itimerspec
times mode sec = record {
  interval_sec = interval_of mode sec;
  interval_nsec = pos 0;
  value_sec = sec;
  value_nsec = pos 0;
}

module _ {O : Type 0} (api : TimerApi O) where
  pub check_timer_status : ℕ → Ptr → ℕ → Do O ℤ
  unfolding list_for_entry
  check_timer_status fuel head timer_id = if head == null then pure (negsuc 0) else do
    p ← list_for_entry fuel head timer_id
    if p == null then pure (negsuc 0) else do
      n ← load p
      curr ← call (λ o. (api.gettime n.item.timer o, o))
      elim curr [
        | none ↦ pure (negsuc 0)
        | some c ↦
            if is_at 0 c.value_sec && is_at 0 c.interval_sec then pure (negsuc 1) else pure (pos 0)
      ]

  -- `__create_event_timer`
  pub start_event_timer :
      (n : Ptr) (timer_id : ℕ) → TimerMode → (sec : ℤ) → (time_out_func : ℕ) → Do O ℤ
  start_event_timer n timer_id mode sec time_out_func = if n == null then pure (negsuc 0) else do
    v ← load n
    let evp : Sigevent = record {
      sival_int = timer_id;
      sigev_notify = sigev_thread;
      sigev_notify_function = time_out_func;
    }
    set_item n (record v.item { evp = evp })
    created ← call (api.create evp)
    elim created [
      | none ↦ pure (negsuc 0)
      | some t ↦ do
        w ← load n
        set_item n (record w.item { its = times mode sec; timer = t })
        set ← call (api.settime t (times mode sec))
        if set then pure (pos 0) else do _ ← call (api.delete t); pure (negsuc 0)
    ]

  -- `create_event_timer` behind its call of `check_timer_status`
  pub create_checked :
      (n head : Ptr) (timer_id : ℕ) → TimerMode → (sec : ℤ) → (time_out_func : ℕ) → ℤ → Do O ℤ
  unfolding start_event_timer list_add
  create_checked n head timer_id mode sec time_out_func (pos _) = pure (negsuc 0)
  create_checked n head timer_id mode sec time_out_func (negsuc (suc _)) = pure (negsuc 0)
  create_checked n head timer_id mode sec time_out_func (negsuc zero) =
      if n == null then pure (negsuc 0) else do
        put n (node cleared null)
        r ← start_event_timer n timer_id mode sec time_out_func
        if is_at 0 r then (do list_add head n; pure (pos 0)) else do free_node n; pure (negsuc 0)

  pub create_event_timer :
      ℕ → (n head : Ptr) (timer_id : ℕ) → TimerMode → (sec : ℤ) → (time_out_func : ℕ) → Do O ℤ
  unfolding check_timer_status create_checked
  create_event_timer fuel n head timer_id mode sec time_out_func =
      if head == null then pure (negsuc 0) else do
        status ← check_timer_status fuel head timer_id
        create_checked n head timer_id mode sec time_out_func status

  pub refresh_event_timer : ℕ → Ptr → ℕ → (sec : ℤ) → Do O ℤ
  unfolding list_for_entry
  refresh_event_timer fuel head timer_id sec = if head == null then pure (negsuc 0) else do
    p ← list_for_entry fuel head timer_id
    if p == null then pure (negsuc 0) else do
      n ← load p
      set_item p (record n.item { its = times timer_mode_loop sec })
      set ← call (api.settime n.item.timer (times timer_mode_loop sec))
      if set then pure (pos 0) else pure (negsuc 0)

  pub delete_designation_timer : ℕ → Ptr → ℕ → Do O ℤ
  unfolding list_for_entry delete_designation_node
  delete_designation_timer fuel head timer_id = if head == null then pure (negsuc 0) else do
    p ← list_for_entry fuel head timer_id
    if p == null then pure (negsuc 0) else do
      n ← load p
      _ ← call (api.delete n.item.timer)
      delete_designation_node fuel head timer_id

  -- The loop steps on by `pos->next`, which it reads behind the `free(pos)`.
  pub all_loop : ℕ → (prev p : Ptr) → Do O ℤ
  unfolding unlink
  all_loop zero prev p = λ _. out_of_fuel
  all_loop (suc k) prev p = if p == null then pure (pos 0) else do
    n ← load p
    _ ← call (api.delete n.item.timer)
    _ ← unlink prev p
    b ← load prev
    m ← load p
    all_loop k b.next m.next

  pub delete_all_timer : ℕ → Ptr → Do O ℤ
  unfolding all_loop
  delete_all_timer fuel head =
      if head == null then pure (negsuc 0) else do n ← load head; all_loop fuel head n.next
