-- ===== src/Sem/Interrupts.antt =====
-- The two threads of 20180727sem-sig-test/main.c under SIGINT: its handler returns, so the
-- `sem_wait` of a thread that is interrupted returns -1, and `pthread_func_1` does not look at
-- that.
use small_project_for_life_w.Base.{◌+◌, ◌≡◌, ℕ, refl, arith}
use small_project_for_life_w.Sem.{Semaphore, start, Step, wait, post}

-- the semaphore, and how many waits a signal has ended
pub record Signalled : Type 0 where
  pub semaphore : Semaphore
  pub interrupts : ℕ

pub data SignalStep (s : Signalled) : Signalled → Type 0 where
  undisturbed : {t : Semaphore} → Step s.semaphore t → SignalStep s (record s { semaphore = t })
  interrupted : SignalStep s (record {
    semaphore = record s.semaphore { waited = s.semaphore.waited + 1 };
    interrupts = s.interrupts + 1;
  })

pub data SignalReach (s : Signalled) : Signalled → Type 0 where
  here : SignalReach s s
  next : {t u : Signalled} → SignalReach s t → SignalStep t u → SignalReach s u

abbrev pub signal_start : Signalled
signal_start = record { semaphore = start; interrupts = 0 }

abbrev Balanced : Signalled → Type 0
Balanced s = s.semaphore.value + s.semaphore.waited ≡ 2 + s.semaphore.posted + s.interrupts

SignalStep-Balanced : {s t : Signalled} → SignalStep s t → Balanced s → Balanced t
SignalStep-Balanced (undisturbed (wait v e)) h = omega (arith, e, h)
SignalStep-Balanced (undisturbed post) h = omega (arith, h)
SignalStep-Balanced interrupted h = omega (arith, h)

-- However the threads and the signals come: the rounds of the waiting thread, with what is left in
-- the semaphore, are the two posts of `main`, those of the other thread, and one for each wait that
-- a signal ended.
pub rounds_counted :
    (s : Signalled)
    → SignalReach signal_start s
    → s.semaphore.value + s.semaphore.waited ≡ 2 + s.semaphore.posted + s.interrupts
rounds_counted s here = refl
rounds_counted s (next r step) = SignalStep-Balanced step (rounds_counted _ r)
