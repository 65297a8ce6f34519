-- ===== src/Chat/Delivery.antt =====
-- What the two programs of 20170815 say to each other is what they show.
use small_project_for_life_w.Base.{
  true, ◌<◌, ◌≡◌, refl, ◌≢◌, Bool, inl, inr, ◌⊎◌, List, [], ◌∷◌, ◌++◌, arith, length, take, drop,
  pos,
}
use small_project_for_life_w.Chat.{
  Bytes, buflen, talking, listening, stopped, overrun, Peer, talk, listen, Chat, Act, talks, hears,
  hears_end, is_stopped, Step, by_server, by_client, Reach, connected,
}
use small_project_for_life_w.Chat.Turns.{IsText, Message}
use small_project_for_life_w.Chat.Phase.{
  Phase, p_turn, p_said, p_left, q_turn, q_said, q_left, both_left, Inv, Reach-Inv,
}

-- All that was said has been shown, but at most one message of 1 to 19 bytes that is under way.
abbrev pub Carries : List Bytes → List Bytes → Bytes → Type 0
Carries said shown [] = said ≡ shown
Carries said shown (c ∷ m) = (said ≡ shown ++ (c ∷ m) ∷ []) × (length (c ∷ m) < buflen)

Message-Carries :
    (said shown : List Bytes) (m : Bytes)
    → Message m
    → said ≡ shown ++ m ∷ []
    → Carries said shown m
Message-Carries said shown [] (_, some_byte, _) e = absurd (omega arith)
Message-Carries said shown (c ∷ m) (_, _, short) e = (e, short)

nothing-Carries :
    (said shown : List Bytes) (m : Bytes) → m ≡ [] → said ≡ shown → Carries said shown m
nothing-Carries said shown m n e = rw n e

abbrev pub Delivered : Chat → Type 0
Delivered s =
    Carries s.server.said s.client.shown s.to_client
    × Carries s.client.said s.server.shown s.to_server
    × ((s.to_client ≡ []) ⊎ (s.to_server ≡ []))
    × (s.server.place ≢ overrun)
    × (s.client.place ≢ overrun)

Inv-Delivered : (s : Chat) → Inv s → Delivered s
Inv-Delivered s i = by_phase i.phase
  where
    by_phase : Phase s.server s.client s.to_client s.to_server → Delivered s
    by_phase (p_turn x y a b c d) =
        (nothing-Carries _ _ _ a c, nothing-Carries _ _ _ b d, inl a, λ e. cc, λ e. cc)
    by_phase (p_said x y z a b c) =
        (Message-Carries _ _ _ x b, nothing-Carries _ _ _ a c, inr a, λ e. cc, λ e. cc)
    by_phase (p_left x y a b c d) =
        (nothing-Carries _ _ _ a c, nothing-Carries _ _ _ b d, inl a, λ e. cc, λ e. cc)
    by_phase (q_turn x y a b c d) =
        (nothing-Carries _ _ _ a c, nothing-Carries _ _ _ b d, inl a, λ e. cc, λ e. cc)
    by_phase (q_said x y z a b c) =
        (nothing-Carries _ _ _ a c, Message-Carries _ _ _ x b, inl a, λ e. cc, λ e. cc)
    by_phase (q_left x y a b c d) =
        (nothing-Carries _ _ _ a c, nothing-Carries _ _ _ b d, inl a, λ e. cc, λ e. cc)
    by_phase (both_left x y a b c d) =
        (nothing-Carries _ _ _ a c, nothing-Carries _ _ _ b d, inl a, λ e. cc, λ e. cc)

-- If each `send` takes the whole message, each `recv` gives all that has arrived, and neither
-- fails, then whatever text the two users type: what each program has sent is what the other has
-- shown, message by message and in order, but at most one message of 1 to 19 bytes under way, in
-- one direction only; and no buffer is printed over its end.
pub messages_arrive :
    (server_types client_types : Bytes) {s : Chat}
    → IsText server_types
    → IsText client_types
    → Reach true (connected server_types client_types) s
    → Delivered s
messages_arrive a b {s} ta tb run = Inv-Delivered s (Reach-Inv a b ta tb run)

-- The peer's next act, if it is its turn or something has come for it.
turn-Act :
    (p : Peer) (inbox : Bytes) (closed : Bool)
    → p.place ≡ talking
    → let r = talk (λ m. pos (length m)) p in Act true closed p inbox r.0 inbox r.1
turn-Act p inbox closed t = talks t refl

hear-Act :
    (p : Peer) (inbox : Bytes) (closed : Bool)
    → p.place ≡ listening
    → Message inbox
    → Act true closed p inbox
        (listen (pos (length (take buflen inbox))) (take buflen inbox) p)
        (drop buflen inbox)
        []
hear-Act p [] closed l (_, some_byte, _) = absurd (omega arith)
hear-Act p (c ∷ m) closed l msg = hears l (λ e. cc) refl refl

end-Act :
    (p q : Peer) (inbox : Bytes)
    → p.place ≡ listening
    → q.place ≡ stopped
    → inbox ≡ []
    → Act true (is_stopped q.place) p inbox (listen (pos 0) [] p) inbox []
end-Act p q inbox l s n = hears_end l n (rw s) refl

-- If each `send` takes the whole message, each `recv` gives all that has arrived, and neither
-- fails: until both programs have stopped one of them can go on, whatever text is typed, and so
-- they never wait for each other.
pub chat_goes_on :
    (server_types client_types : Bytes) {s : Chat}
    → IsText server_types
    → IsText client_types
    → Reach true (connected server_types client_types) s
    → ((t : Chat) × Step true s t) ⊎ ((s.server.place ≡ stopped) × (s.client.place ≡ stopped))
chat_goes_on a b {s} ta tb run = by_phase (Reach-Inv a b ta tb run).phase
  where
    server_acts :
        {f : Peer} {left sent : Bytes}
        → Act true (is_stopped s.client.place) s.server s.to_server f left sent
        → (t : Chat) × Step true s t
    server_acts {f} {left} {sent} act = (
      record s { server = f; to_server = left; to_client = s.to_client ++ sent },
      by_server sent act refl refl,
    )

    client_acts :
        {f : Peer} {left sent : Bytes}
        → Act true (is_stopped s.server.place) s.client s.to_client f left sent
        → (t : Chat) × Step true s t
    client_acts {f} {left} {sent} act = (
      record s { client = f; to_client = left; to_server = s.to_server ++ sent },
      by_client sent act refl refl,
    )

    by_phase :
        Phase s.server s.client s.to_client s.to_server
        → ((t : Chat) × Step true s t) ⊎ ((s.server.place ≡ stopped) × (s.client.place ≡ stopped))
    by_phase (p_turn x y a b c d) = inl (server_acts (turn-Act s.server s.to_server _ x))
    by_phase (p_said x y z a b c) = inl (client_acts (hear-Act s.client s.to_client _ z x))
    by_phase (p_left x y a b c d) = inl (client_acts (end-Act s.client s.server s.to_client y x a))
    by_phase (q_turn x y a b c d) = inl (client_acts (turn-Act s.client s.to_client _ x))
    by_phase (q_said x y z a b c) = inl (server_acts (hear-Act s.server s.to_server _ z x))
    by_phase (q_left x y a b c d) = inl (server_acts (end-Act s.server s.client s.to_server y x b))
    by_phase (both_left x y a b c d) = inr (x, y)
