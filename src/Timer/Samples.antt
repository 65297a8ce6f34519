-- ===== src/Timer/Samples.antt =====
-- The theorems on event timers at a list of two timers, over a system that counts its calls.
use small_project_for_life_w.Base.{
  ℕ, ◌+◌, ◌≡◌, refl, true, none, some, [], ◌∷◌, arith, ◌==◌, if◌then◌else◌, pos,
}
use small_project_for_life_w.Memory.{Ptr, null, node, Yields, Store}
use small_project_for_life_w.Memory.Chain.{Chain}
use small_project_for_life_w.Timer.{
  ImiTimer, TimerApi, cleared, times, timer_mode_loop, timer_mode_single, create_event_timer,
}
use small_project_for_life_w.Timer.Find.{Timers}
use small_project_for_life_w.Timer.Start.{armed, event, result}
use small_project_for_life_w.Timer.Create.{Outcome, create_event_timer-Outcome}

-- Handles are the number of the call that made them; timer 7 has run out.
abbrev system : TimerApi ℕ
system = record {
  create = λ e o. (some o, o + 1);
  settime = λ t its o. (true, o + 1);
  gettime = λ t o. if t == 7 then some cleared.its else some (times timer_mode_loop (pos 5));
  delete = λ t o. (true, o + 1);
}

abbrev timer : ℕ → ℕ → ImiTimer
timer timer_id handle = record {
  evp = event timer_id 900;
  its = times timer_mode_single (pos 5);
  timer = handle;
}

abbrev head : Ptr × ImiTimer
head = (10, cleared)

abbrev two : Timers
two = (11, timer 1 7) ∷ (12, timer 2 8) ∷ []

abbrev memory : Store ImiTimer ℕ
memory = record {
  cells = λ p.
      if p == 10
      then some (node cleared 11)
      else if p == 11
      then some (node (timer 1 7) 12)
      else if p == 12
      then some (node (timer 2 8) null)
      else none;
  rest = 100;
}

two-Chain : Chain memory.cells null (head ∷ two)
two-Chain = (ground arith, refl, refl, (ground arith, refl, refl, (ground arith, refl, refl, tt)))

create_event_timer-Outcome_example :
    Yields (create_event_timer system 3 20 10 5 timer_mode_loop (pos 9) 901 memory) (λ r t.
      let its = times timer_mode_loop (pos 9) in
      let (made, o) = armed system (event 5 901) its 100 in
      (r ≡ result made) × Outcome t.cells 20 head two (event 5 901) its made × (t.rest ≡ o))
create_event_timer-Outcome_example =
    create_event_timer-Outcome system memory 3 20 head two 5 timer_mode_loop (pos 9) 901 two-Chain
      (omega arith) refl (ground arith) refl
