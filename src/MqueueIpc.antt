-- ===== src/MqueueIpc.antt =====
-- The POSIX queue of 20171107/mqueue_ipc.c: `main` sends what is typed, two threads read it. The
-- queue is the system's, a record of functions. A step is one call on the queue with what the
-- thread does behind it; what is only printed is left out.
pub mod Quit
mod Samples
use small_project_for_life_w.Base.{
  ℕ, ◌+◌, ◌*◌, ◌-◌, Bool, true, false, ◌&&◌, Option, none, some, List, [], ◌∷◌, ◌++◌, length, ◌==◌,
  if◌then◌else◌, ltb, ◌≡◌,
}

abbrev pub Bytes : Type 0
Bytes = List ℕ

abbrev pub buf_len : ℕ
buf_len = 128

-- the bytes of a message, its NUL included, and its priority
abbrev pub Message : Type 0
Message = Bytes × ℕ

pub data Call (A : Type 0) : Type 0 where
  gives : A → Call A
  blocks : Call A
  fails : Call A

-- `mq_send` and `mq_receive`, which wait while the queue is full, or empty
pub record MqApi (Q : Type 0) : Type 0 where
  pub mq_send : Message → Q → Call Q
  pub mq_receive : Q → Call (Message × Q)

pub str_eq : Bytes → Bytes → Bool
str_eq [] [] = true
str_eq [] (d ∷ t) = false
str_eq (c ∷ s) [] = false
str_eq (c ∷ s) (d ∷ t) = c == d && str_eq s t

abbrev pub quit_word : Bytes
quit_word = 113 ∷ 117 ∷ 105 ∷ 116 ∷ []

-- Where `main` stands: at `scanf`, in `mq_send` with a word and a priority, behind `mq_unlink`, or
-- with a word that ran over the end of `buf`.
pub data Place : Type 0 where
  reads : Place
  sends : Bytes → ℕ → Place
  returned : Place
  overrun : Place

-- The program, with what has been done: the messages that `main` tried to send, those that the
-- queue took, those that it refused, those that each thread received, and how often `perror` was
-- called for `mq_send`.
pub record System (Q : Type 0) : Type 0 where
  pub queue : Q
  pub main : Place
  pub ret : ℕ
  pub tried : List Message
  pub sent : List Message
  pub refused : List Message
  pub taken_1 : List Message
  pub taken_2 : List Message
  pub errors : ℕ

-- `scanf` of a word; a NUL is put behind it.
pub main_read : {Q : Type 0} → Bytes → ℕ → System Q → System Q
main_read word por s =
    if ltb (length word) buf_len
    then record s { main = sends word por }
    else record s { main = overrun }

-- Behind `mq_send`: `ret== mq_send(...)` throws the result away, and `ret` stays what it was.
pub after_send : {Q : Type 0} → Bytes → System Q → System Q
unfolding str_eq
after_send word s = record s {
  errors = if s.ret == 0 then s.errors else s.errors + 1;
  main = if str_eq word quit_word then returned else reads;
}

module _ {Q : Type 0} (api : MqApi Q) where
  pub main_send : Bytes → ℕ → System Q → System Q
  main_send word por s =
      let m : Message = (word ++ 0 ∷ [], por) in
      elim (api.mq_send m s.queue) [
        | blocks ↦ s
        | fails ↦
            after_send word (record s { tried = s.tried ++ m ∷ []; refused = s.refused ++ m ∷ [] })
        | gives q ↦
            after_send word
              (record s { queue = q; tried = s.tried ++ m ∷ []; sent = s.sent ++ m ∷ [] })
      ]

  pub thr_fun1 : System Q → System Q
  thr_fun1 s = elim (api.mq_receive s.queue) [
    | blocks ↦ s
    | fails ↦ s
    | gives (m, q) ↦ record s { queue = q; taken_1 = s.taken_1 ++ m ∷ [] }
  ]

  pub thr_fun2 : System Q → System Q
  thr_fun2 s = elim (api.mq_receive s.queue) [
    | blocks ↦ s
    | fails ↦ s
    | gives (m, q) ↦ record s { queue = q; taken_2 = s.taken_2 ++ m ∷ [] }
  ]

  abbrev pub is_over : Place → Bool
  is_over reads = false
  is_over (sends word por) = false
  is_over returned = true
  is_over overrun = true

  pub data Step (s : System Q) : System Q → Type 0 where
    by_1 : is_over s.main ≡ false → Step s (thr_fun1 s)
    by_2 : is_over s.main ≡ false → Step s (thr_fun2 s)
    by_read : (word : Bytes) (por : ℕ) → s.main ≡ reads → Step s (main_read word por s)
    by_send : (word : Bytes) (por : ℕ) → s.main ≡ sends word por → Step s (main_send word por s)

  pub data Reach (s : System Q) : System Q → Type 0 where
    here : Reach s s
    next : {t u : System Q} → Reach s t → Step t u → Reach s u

abbrev pub started : {Q : Type 0} → Q → System Q
started q = record {
  queue = q;
  main = reads;
  ret = 0;
  tried = [];
  sent = [];
  refused = [];
  taken_1 = [];
  taken_2 = [];
  errors = 0;
}

-- `main` up to its loop: whether `mq_open` and the two `pthread_create` succeed
pub main_start : {Q : Type 0} → (opens creates_1 creates_2 : Bool) → Q → Option (System Q)
main_start opens creates_1 creates_2 q =
    if opens && creates_1 && creates_2 then some (started q) else none
