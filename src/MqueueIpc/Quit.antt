-- ===== src/MqueueIpc/Quit.antt =====
-- How `main` of 20171107/mqueue_ipc.c ends, and what it reports.
use small_project_for_life_w.Base.{
  ℕ, ◌+◌, ◌≡◌, refl, ◌∙◌, Bool, true, Bool-cases, inl, inr, List, [], ◌∷◌, ◌++◌, arith,
  if◌then◌else◌, length, ltb,
}
use small_project_for_life_w.MqueueIpc.{
  Bytes, buf_len, Message, Call, gives, blocks, fails, MqApi, str_eq, quit_word, Place, reads,
  sends, returned, overrun, System, main_read, after_send, main_send, thr_fun1, thr_fun2, Step,
  by_1, by_2, by_read, by_send, Reach, here, next, started,
}

-- how many messages pass a test
abbrev pub count : (Message → Bool) → List Message → ℕ
count p [] = 0
count p (m ∷ ms) = (if p m then 1 else 0) + count p ms

count-append :
    (p : Message → Bool) (xs ys : List Message) → count p (xs ++ ys) ≡ count p xs + count p ys
count-append p [] ys = omega arith
count-append p (m ∷ xs) ys = omega (arith, count-append p xs ys)

-- the message that "quit" becomes
abbrev pub is_quit : Message → Bool
is_quit m = str_eq m.0 (quit_word ++ 0 ∷ [])

str_eq-append : (s t : Bytes) → str_eq (s ++ 0 ∷ []) (t ++ 0 ∷ []) ≡ str_eq s t
unfolding str_eq
str_eq-append [] [] = ground arith
str_eq-append [] (d ∷ []) = ground arith
str_eq-append [] (d ∷ e ∷ t) = ground arith
str_eq-append (c ∷ []) [] = ground arith
str_eq-append (c ∷ d ∷ s) [] = ground arith
str_eq-append (c ∷ s) (d ∷ t) = ground (arith, str_eq-append s t)

-- what has been tried, by where `main` stands
abbrev pub Ended : Place → List Message → Type 0
Ended reads tried = count is_quit tried ≡ 0
Ended (sends word por) tried = count is_quit tried ≡ 0
Ended overrun tried = count is_quit tried ≡ 0
Ended returned tried =
    (pre : List Message) × (last : Message) × (tried ≡ pre ++ last ∷ [])
    × (is_quit last ≡ true)
    × (count is_quit pre ≡ 0)

pub record Inv {Q : Type 0} (s : System Q) : Type 0 where
  pub ret_kept : s.ret ≡ 0
  pub no_error : s.errors ≡ 0
  pub ended : Ended s.main s.tried

after-Ended :
    (word : Bytes) (por : ℕ) (tried : List Message)
    → count is_quit tried ≡ 0
    → Ended
        (if str_eq word quit_word then returned else reads)
        (tried ++ (word ++ 0 ∷ [], por) ∷ [])
after-Ended word por tried none_yet =
    let m : Message = (word ++ 0 ∷ [], por) in
    let same : is_quit m ≡ str_eq word quit_word = str_eq-append word quit_word in
    elim (Bool-cases (str_eq word quit_word)) [
      | inl quit ↦ rw quit (tried, m, refl, same ∙ quit, none_yet)
      | inr other ↦
          let more = count-append is_quit tried (m ∷ []) in
          let it = same ∙ other in rw other (ground (arith, more, it, none_yet))
    ]

module _ {Q : Type 0} (api : MqApi Q) where
  thread_1-Inv : (s : System Q) → Inv s → Inv (thr_fun1 api s)
  unfolding thr_fun1
  thread_1-Inv s i = by_call (api.mq_receive s.queue) refl
    where
      by_call : (r : Call (Message × Q)) → api.mq_receive s.queue ≡ r → Inv (thr_fun1 api s)
      by_call blocks e = rw (e, thr_fun1) i
      by_call fails e = rw (e, thr_fun1) i
      by_call (gives (m, q)) e =
          rw (e, thr_fun1)
            (record { ret_kept = i.ret_kept; no_error = i.no_error; ended = i.ended })

  thread_2-Inv : (s : System Q) → Inv s → Inv (thr_fun2 api s)
  unfolding thr_fun2
  thread_2-Inv s i = by_call (api.mq_receive s.queue) refl
    where
      by_call : (r : Call (Message × Q)) → api.mq_receive s.queue ≡ r → Inv (thr_fun2 api s)
      by_call blocks e = rw (e, thr_fun2) i
      by_call fails e = rw (e, thr_fun2) i
      by_call (gives (m, q)) e =
          rw (e, thr_fun2)
            (record { ret_kept = i.ret_kept; no_error = i.no_error; ended = i.ended })

  read-Inv :
      (word : Bytes) (por : ℕ) (s : System Q) → s.main ≡ reads → Inv s → Inv (main_read word por s)
  unfolding main_read
  read-Inv word por s here_now i =
      let none_yet : count is_quit s.tried ≡ 0 = rw here_now at i.ended in
      elim (Bool-cases (ltb (length word) buf_len)) [
        | inl fits ↦
            rw (fits, main_read)
              (record { ret_kept = i.ret_kept; no_error = i.no_error; ended = none_yet })
        | inr long ↦
            rw (long, main_read)
              (record { ret_kept = i.ret_kept; no_error = i.no_error; ended = none_yet })
      ]

  -- behind a call of `mq_send` that came back
  after-Inv :
      (word : Bytes) (por : ℕ) (s : System Q)
      → s.main ≡ sends word por
      → Inv s
      → (t : System Q) → t.ret ≡ s.ret
      → t.errors ≡ s.errors
      → t.tried ≡ s.tried ++ (word ++ 0 ∷ [], por) ∷ []
      → Inv (after_send word t)
  unfolding after_send
  after-Inv word por s here_now i t same_ret same_errors now_tried =
      let none_yet : count is_quit s.tried ≡ 0 = rw here_now at i.ended in
      let ret : t.ret ≡ 0 = same_ret ∙ i.ret_kept in
      let errors : t.errors ≡ 0 = same_errors ∙ i.no_error in
      record {
        ret_kept = ret;
        no_error = ground (arith, ret, errors);
        ended = rw now_tried (after-Ended word por s.tried none_yet);
      }

  send-Inv :
      (word : Bytes) (por : ℕ) (s : System Q)
      → s.main ≡ sends word por
      → Inv s
      → Inv (main_send api word por s)
  unfolding main_send
  send-Inv word por s here_now i = by_call (api.mq_send m s.queue) refl
    where
      m : Message
      m = (word ++ 0 ∷ [], por)

      by_call : (r : Call Q) → api.mq_send m s.queue ≡ r → Inv (main_send api word por s)
      by_call blocks e = rw (e, main_send) i
      by_call fails e = rw (e, main_send) (after-Inv word por s here_now i _ refl refl refl)
      by_call (gives q) e = rw (e, main_send) (after-Inv word por s here_now i _ refl refl refl)

  Step-Inv : {s t : System Q} → Step api s t → Inv s → Inv t
  Step-Inv {s} (by_1 r) i = thread_1-Inv s i
  Step-Inv {s} (by_2 r) i = thread_2-Inv s i
  Step-Inv {s} (by_read word por r) i = read-Inv word por s r i
  Step-Inv {s} (by_send word por r) i = send-Inv word por s r i

  Reach-Inv : {s t : System Q} → Inv s → Reach api s t → Inv t
  Reach-Inv i here = i
  Reach-Inv i (next run step) = Step-Inv step (Reach-Inv i run)

  -- Whatever the queue does: `main` has returned exactly if the last message that it tried to send
  -- is "quit", none before was, and no error of `mq_send` is ever reported.
  pub quit_ends :
      (q : Q) (s : System Q) → Reach api (started q) s → Ended s.main s.tried × (s.errors ≡ 0)
  quit_ends q s run =
      let i = Reach-Inv (record { ret_kept = refl; no_error = refl; ended = refl }) run in
      (i.ended, i.no_error)
