-- ===== src/MqueueIpc/Samples.antt =====
-- The theorems on the POSIX queue at a queue that is a list and refuses long messages: a long word,
-- a short one, and "quit".
use small_project_for_life_w.Base.{
  ℕ, ◌≡◌, refl, List, [], ◌∷◌, ◌++◌, length, ltb, if◌then◌else◌, replicate,
}
use small_project_for_life_w.MqueueIpc.{
  Message, Call, gives, blocks, fails, MqApi, quit_word, returned, System, main_read, main_send,
  thr_fun1, thr_fun2, by_1, by_read, by_send, Reach, here, next, started,
}
use small_project_for_life_w.MqueueIpc.Quit.{Ended, quit_ends}

abbrev receive : List Message → Call (Message × List Message)
receive [] = blocks
receive (m ∷ ms) = gives (m, ms)

abbrev api : MqApi (List Message)
api = record {
  mq_send = λ m q. if ltb 50 (length m.0) then fails else gives (q ++ m ∷ []);
  mq_receive = receive;
}

abbrev long_word : List ℕ
long_word = replicate 60 97

abbrev typed : List ℕ → System (List Message) → System (List Message)
typed word s = main_send api word 1 (main_read word 1 s)

abbrev refused_one : System (List Message)
refused_one = typed long_word (started [])

abbrev ended : System (List Message)
ended = typed quit_word (thr_fun1 api (typed (97 ∷ []) refused_one))

ended-Reach : Reach api (started []) ended
unfolding main_send main_read thr_fun1 small_project_for_life_w.MqueueIpc.after_send
ended-Reach =
    next
      (next
        (next
          (next
            (next (next (next here (by_read long_word 1 refl)) (by_send long_word 1 refl))
              (by_read (97 ∷ []) 1 refl))
            (by_send (97 ∷ []) 1 refl))
          (by_1 refl))
        (by_read quit_word 1 refl))
      (by_send quit_word 1 refl)

quit_ends_example : Ended ended.main ended.tried × (ended.errors ≡ 0)
quit_ends_example = quit_ends api [] ended ended-Reach
