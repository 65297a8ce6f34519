-- ===== src/Mqueue.antt =====
-- The System V queue of 20171107/mqueue_system.c with its four threads. The queue is the system's:
-- a record of functions, of which Mqueue/Documented says what the manual promises. A thread's step
-- is one call on the queue with what the thread does behind it; what is only printed is left out.
pub mod Documented
pub mod Invariant
pub mod Order
pub mod Removed
pub mod Refused
mod Samples
use small_project_for_life_w.Base.{
  ℕ, zero, suc, ◌+◌, Bool, true, false, ◌&&◌, Option, none, some, List, [], ◌∷◌, ◌++◌, length, take,
  ◌==◌, if◌then◌else◌, ltb, ℤ, pos, negsuc, ◌≡◌, is_at,
}

abbrev pub Bytes : Type 0
Bytes = List ℕ

-- `struct myMsg`; the texts are the bytes before their NUL, or the whole array.
pub record MyMsg : Type 0 where
  pub msg_type : ℤ
  pub msg_text : Bytes
  pub msg2 : Bytes

-- `msgsnd`, `msgrcv` of a type with IPC_NOWAIT, and `msgctl` with IPC_RMID; -1 is `none`.
pub record QueueApi (Q : Type 0) : Type 0 where
  pub msgsnd : MyMsg → Q → Option Q
  pub msgrcv : ℕ → Q → Option (MyMsg × Q)
  pub remove : Q → Option Q

abbrev pub maxbuf : ℕ
maxbuf = 255

-- "Message from thr_fun1"
abbrev pub answer_text : Bytes
answer_text =
    77 ∷ 101 ∷ 115 ∷ 115 ∷ 97 ∷ 103 ∷ 101 ∷ 32 ∷ 102 ∷ 114 ∷ 111 ∷ 109 ∷ 32 ∷ 116 ∷ 104 ∷ 114 ∷ 95
    ∷ 102 ∷ 117 ∷ 110 ∷ 49 ∷ []

-- what `thr_fun1` makes of a message: the second text stays
pub answer : MyMsg → MyMsg
answer m = record m { msg_type = pos 2; msg_text = answer_text }

-- `scanf` twice into `buf`, which a word of 256 bytes overruns, with `strncpy` into the message
pub read_message : (word second : Bytes) → (msg_type : ℤ) → Option MyMsg
read_message word second msg_type =
    if ltb maxbuf (length word)
    then none
    else if ltb maxbuf (length second)
    then none
    else some (record { msg_type = msg_type; msg_text = take maxbuf word; msg2 = take 20 second })

pub data Thread1 : Type 0 where
  receives : Thread1
  answers : MyMsg → Thread1

pub data Thread3 : Type 0 where
  waits : Thread3
  finished : Thread3

pub data Main : Type 0 where
  reads : Main
  joins : Main
  returned : Main
  exited : Main
  undefined : Main

-- The program, with what has been done: the messages that went into the queue, those that each
-- thread took out, and the answers that `thr_fun1` tried to send.
pub record System (Q : Type 0) : Type 0 where
  pub queue : Q
  pub thread_1 : Thread1
  pub thread_3 : Thread3
  pub main : Main
  pub sent : List MyMsg
  pub taken_1 : List MyMsg
  pub taken_2 : List MyMsg
  pub taken_3 : List MyMsg
  pub tried : List MyMsg

module _ {Q : Type 0} (api : QueueApi Q) where
  -- `thr_fun1`: `msgrcv`, and then `msgsnd` of the answer
  pub thr_fun1_receive : System Q → System Q
  unfolding answer
  thr_fun1_receive s = elim (api.msgrcv 1 s.queue) [
    | none ↦ s
    | some (m, q) ↦ record s {
      queue = q;
      taken_1 = s.taken_1 ++ m ∷ [];
      thread_1 = answers (answer m);
    }
  ]

  pub thr_fun1_answer : MyMsg → System Q → System Q
  thr_fun1_answer r s = elim (api.msgsnd r s.queue) [
    | none ↦ record s { thread_1 = receives; tried = s.tried ++ r ∷ [] }
    | some q ↦ record s {
      queue = q;
      sent = s.sent ++ r ∷ [];
      thread_1 = receives;
      tried = s.tried ++ r ∷ [];
    }
  ]

  pub thr_fun1 : System Q → System Q
  unfolding thr_fun1_receive thr_fun1_answer
  thr_fun1 s = elim s.thread_1 [ receives ↦ thr_fun1_receive s | answers r ↦ thr_fun1_answer r s ]

  pub thr_fun2 : System Q → System Q
  thr_fun2 s = elim (api.msgrcv 2 s.queue) [
    | none ↦ s
    | some (m, q) ↦ record s { queue = q; taken_2 = s.taken_2 ++ m ∷ [] }
  ]

  -- The first message of type 3 removes the queue; a failure ends the program.
  pub thr_fun3 : System Q → System Q
  thr_fun3 s = elim s.thread_3 [
    | finished ↦ s
    | waits ↦ elim (api.msgrcv 3 s.queue) [
      | none ↦ s
      | some (m, q) ↦ elim (api.remove q) [
        | none ↦ record s { queue = q; taken_3 = s.taken_3 ++ m ∷ []; main = exited }
        | some q' ↦ record s { queue = q'; taken_3 = s.taken_3 ++ m ∷ []; thread_3 = finished }
      ]
    ]
  ]

  -- a round of the loop of `main`, with what the user types
  pub main_round : (word second : Bytes) → (msg_type : ℤ) → System Q → System Q
  main_round word second msg_type s = elim (read_message word second msg_type) [
    | none ↦ record s { main = undefined }
    | some m ↦ elim (api.msgsnd m s.queue) [
      | none ↦ record s { main = joins }
      | some q ↦ record s { queue = q; sent = s.sent ++ m ∷ [] }
    ]
  ]

  abbrev pub runs : Main → Bool
  runs reads = true
  runs joins = true
  runs returned = false
  runs exited = false
  runs undefined = false

  pub data Step (s : System Q) : System Q → Type 0 where
    by_1 : runs s.main ≡ true → Step s (thr_fun1 s)
    by_2 : runs s.main ≡ true → Step s (thr_fun2 s)
    by_3 : runs s.main ≡ true → Step s (thr_fun3 s)
    by_main :
        (word second : Bytes) (msg_type : ℤ)
        → s.main ≡ reads
        → Step s (main_round word second msg_type s)
    by_join : s.main ≡ joins → s.thread_3 ≡ finished → Step s (record s { main = returned })

  pub data Reach (s : System Q) : System Q → Type 0 where
    here : Reach s s
    next : {t u : System Q} → Reach s t → Step t u → Reach s u

abbrev all_true : List Bool → Bool
all_true [] = true
all_true (b ∷ bs) = b && all_true bs

abbrev pub started : {Q : Type 0} → Q → System Q
started q = record {
  queue = q;
  thread_1 = receives;
  thread_3 = waits;
  main = reads;
  sent = [];
  taken_1 = [];
  taken_2 = [];
  taken_3 = [];
  tried = [];
}

-- `main` up to its loop: whether `ftok`, `msgget` and the three `pthread_create` succeed. Anything
-- else ends the program.
pub main_start :
    {Q : Type 0} → (key_made queue_opens : Bool) → (creates : List Bool) → Q → Option (System Q)
main_start key_made queue_opens creates q =
    if key_made && queue_opens && all_true creates then some (started q) else none

-- the messages of a type, as `msgrcv` chooses
pub of_type : ℕ → List MyMsg → List MyMsg
of_type t [] = []
of_type t (m ∷ ms) = let rest = of_type t ms in if is_at t m.msg_type then m ∷ rest else rest
