-- ===== src/Chat/Errors.antt =====
-- Where server.c and client.c of 20170815 leave what they mean to do.
use small_project_for_life_w.Base.{
  zero, suc, ◌^◌, ◌<◌, ◌≡◌, refl, true, false, Bool, [], ◌∷◌, ◌++◌, arith, length, ltb,
  if◌then◌else◌, ℤ, pos, negsuc,
}
use small_project_for_life_w.Chat.{
  Bytes, buflen, c_str, to_unsigned, Peer, listening, talking, stopped, after_send, listen,
}

-- a result that an `int` holds
abbrev pub FitsInt : ℤ → Type 0
FitsInt (pos n) = n < 2 ^ 31
FitsInt (negsuc n) = n < 2 ^ 31

abbrev pub is_zero : ℤ → Bool
is_zero (pos zero) = true
is_zero (pos (suc n)) = false
is_zero (negsuc n) = false

to_unsigned-zero : (r : ℤ) → FitsInt r → ltb 0 (to_unsigned r) ≡ (if is_zero r then false else true)
unfolding to_unsigned
to_unsigned-zero (pos zero) h = refl
to_unsigned-zero (pos (suc n)) h = ground arith
to_unsigned-zero (negsuc n) h = ground arith

-- Only the result 0 of `send` or `recv` ends a chat, where it fits an `int` and less than a buffer
-- was received: one that reports an error passes for success, so that the message counts as sent,
-- or the cleared buffer as a message.
pub errors_unseen :
    (result : ℤ) (m got : Bytes) (e : Peer)
    → FitsInt result
    → length got < buflen
    → (after_send result m e ≡ (
        if is_zero result
        then record e { place = stopped }
        else record e { said = e.said ++ m ∷ []; place = listening }))
      × (listen result got e ≡ (
          if is_zero result
          then record e { place = stopped }
          else record e { shown = e.shown ++ c_str got ∷ []; place = talking }))
unfolding after_send listen
errors_unseen result m got e fits short = ground (arith, to_unsigned-zero result fits)
