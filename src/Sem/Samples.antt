-- ===== src/Sem/Samples.antt =====
-- The count of the rounds, when a signal has let the waiting thread pass a third time.
use small_project_for_life_w.Base.{◌+◌, ◌≡◌, refl}
use small_project_for_life_w.Sem.{wait}
use small_project_for_life_w.Sem.Interrupts.{
  Signalled, undisturbed, interrupted, SignalReach, here, next, signal_start, rounds_counted,
}

abbrev third_round : Signalled
third_round = record { semaphore = record { value = 0; waited = 3; posted = 0 }; interrupts = 1 }

third_round-SignalReach : SignalReach signal_start third_round
third_round-SignalReach =
    next (next (next here (undisturbed (wait 1 refl))) (undisturbed (wait 0 refl))) interrupted

rounds_counted_example : 0 + 3 ≡ 2 + 0 + 1
rounds_counted_example = rounds_counted third_round third_round-SignalReach
