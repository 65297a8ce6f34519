-- ===== src/Chat/Ending.antt =====
-- The chat of 20170815 comes to an end.
use small_project_for_life_w.Base.{
  true, ℕ, suc, ◌+◌, ◌*◌, ◌≤◌, ◌<◌, ◌≡◌, refl, sym, ◌∙◌, [], ◌∷◌, ◌++◌, arith, length, pos,
}
use small_project_for_life_w.Chat.{
  Bytes, buflen, Place, talking, listening, stopped, overrun, Peer, talk, Chat, Act, talks,
  talks_part, hears, hears_part, hears_error, hears_end, is_stopped, Step, by_server, by_client,
  Reach, here, next, connected,
}
use small_project_for_life_w.Chat.Turns.{
  IsText, Talked, leaves, says, talk-Talked, drop-short, listen-Message, listen-end,
}
use small_project_for_life_w.Chat.Phase.{
  Phase, mirror, not_talking, on_arrival, on_end, stopped_of, Inv, Reach-Inv,
}

abbrev weight_of : Place → ℕ
weight_of talking = 3
weight_of listening = 2
weight_of stopped = 0
weight_of overrun = 0

abbrev flight : Bytes → ℕ
flight [] = 0
flight (c ∷ m) = 2

-- what a peer can still do, with what has come for it
abbrev still : Peer → Bytes → ℕ
still p inbox = 3 * length p.input + weight_of p.place + flight inbox

abbrev weight : Chat → ℕ
weight s = still s.server s.to_server + still s.client s.to_client

flight-Message : (m : Bytes) → 0 < length m → flight m ≡ 2
flight-Message [] h = absurd (omega arith)
flight-Message (c ∷ m) h = refl

talks-still :
    (p f : Peer) (sent : Bytes)
    → IsText p.input
    → p.place ≡ talking
    → talk (λ m. pos (length m)) p ≡ (f, sent)
    → still f [] + flight sent < still p []
talks-still p f sent text t e = by_case (talk-Talked p text)
  where
    by_case : Talked p (talk (λ m. pos (length m)) p) → still f [] + flight sent < still p []
    by_case (leaves rest r shorter h) =
        let g : f ≡ record p { input = rest; place = stopped } = cc in
        let n : sent ≡ [] = cc in rw (g, n, t) (omega arith)
    by_case (says m rest r shorter msg h) =
        let g : f ≡ record p { input = rest; said = p.said ++ m ∷ []; place = listening } = cc in
        let n : sent ≡ m = cc in rw (g, n, t, flight-Message m msg.1) (omega arith)

-- Each act takes from what can still be done.
Act-still :
    (p q f : Peer) (to_q to_p left sent : Bytes)
    → Phase p q to_q to_p
    → IsText p.input
    → Act true (is_stopped q.place) p to_p f left sent
    → still f left + flight (to_q ++ sent) < still p to_p + flight to_q
Act-still p q f to_q to_p left sent ph text (talks t e) =
    let (_, a, b, _, _) = not_talking p q to_q to_p t ph in
    rw (a, b) (omega (arith, talks-still p f sent text t e))
Act-still p q f to_q to_p left sent ph text (talks_part r odd t e a) =
    let bad : ⊥ = cc in absurd bad
Act-still p q f to_q to_p left sent ph text (hears_part n odd l h ne e d) =
    let bad : ⊥ = cc in absurd bad
Act-still p q f to_q to_p left sent ph text (hears_error k odd l e) = let bad : ⊥ = cc in absurd bad
Act-still p q f to_q to_p left sent ph text (hears l ne e d) =
    let (m, _, a, _, _) = on_arrival p q to_q to_p ne ph in
    let g : f ≡ record p { shown = p.shown ++ to_p ∷ []; place = talking } =
      sym e ∙ listen-Message to_p p m in
    let n : left ≡ [] = sym d ∙ drop-short buflen to_p (omega (arith, m.2)) in
    rw (g, n, a, l, flight-Message to_p m.1) (omega arith)
Act-still p q f to_q to_p left sent ph text (hears_end l n c e) =
    let (a, _, _) = on_end p q to_q to_p l (stopped_of q.place c) ph in
    let g : f ≡ record p { place = stopped } = sym e ∙ listen-end p in rw (g, n, a, l) (omega arith)

Step-weight : (s t : Chat) → Step true s t → Inv s → weight t < weight s
Step-weight s t (by_server sent act same on) i =
    rw (same, on)
      (omega (
        arith,
        Act-still s.server s.client t.server s.to_client s.to_server t.to_server sent i.phase
            i.server_types act,
      ))
Step-weight s t (by_client sent act same on) i =
    rw (same, on)
      (omega (
        arith,
        Act-still s.client s.server t.client s.to_server s.to_client t.to_client sent
            (mirror i.phase) i.client_types act,
      ))

abbrev pub steps : {s t : Chat} → Reach true s t → ℕ
steps here = 0
steps (next run step) = suc (steps run)

steps-weight :
    (a b : Bytes) (s : Chat)
    → IsText a
    → IsText b
    → (run : Reach true (connected a b) s) → steps run + weight s ≤ weight (connected a b)
steps-weight a b s ta tb here = omega arith
steps-weight a b s ta tb (next {t} run step) =
    omega (arith, Step-weight t s step (Reach-Inv a b ta tb run), steps-weight a b t ta tb run)

-- If each `send` takes the whole message, each `recv` gives all that has arrived, and neither
-- fails: the two programs take at most three steps for each byte typed, and five more, whatever
-- text is typed.
pub chat_ends :
    (server_types client_types : Bytes) {s : Chat}
    → IsText server_types
    → IsText client_types
    → (run : Reach true (connected server_types client_types) s)
    → steps run ≤ 3 * (length server_types + length client_types) + 5
chat_ends a b {s} ta tb run = omega (arith, steps-weight a b s ta tb run)
