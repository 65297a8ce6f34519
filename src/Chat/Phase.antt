-- ===== src/Chat/Phase.antt =====
-- The two programs on one connection: whose turn it is, and what is under way.
use small_project_for_life_w.Base.{
  true, ◌≡◌, refl, sym, ap, ◌∙◌, ◌≢◌, true, [], ◌∷◌, ◌++◌, arith, length, pos,
}
use small_project_for_life_w.Chat.{
  Bytes, buflen, Place, talking, listening, stopped, overrun, Peer, talk, Chat, Act, talks,
  talks_part, hears, hears_part, hears_error, hears_end, is_stopped, Step, by_server, by_client,
  Reach, here, next, connected,
}
use small_project_for_life_w.Chat.Turns.{
  IsText, Message, Talked, leaves, says, talk-Talked, drop-short, listen-Message, listen-end,
}

-- Whose turn it is, with what is under way; all messages else have been shown.
pub data Phase (p q : Peer) (to_q to_p : Bytes) : Type 0 where
  p_turn :
      p.place ≡ talking
      → q.place ≡ listening
      → to_q ≡ []
      → to_p ≡ []
      → p.said ≡ q.shown
      → q.said ≡ p.shown
      → Phase p q to_q to_p
  p_said :
      Message to_q
      → p.place ≡ listening
      → q.place ≡ listening
      → to_p ≡ []
      → p.said ≡ q.shown ++ to_q ∷ []
      → q.said ≡ p.shown
      → Phase p q to_q to_p
  p_left :
      p.place ≡ stopped
      → q.place ≡ listening
      → to_q ≡ []
      → to_p ≡ []
      → p.said ≡ q.shown
      → q.said ≡ p.shown
      → Phase p q to_q to_p
  q_turn :
      q.place ≡ talking
      → p.place ≡ listening
      → to_q ≡ []
      → to_p ≡ []
      → p.said ≡ q.shown
      → q.said ≡ p.shown
      → Phase p q to_q to_p
  q_said :
      Message to_p
      → q.place ≡ listening
      → p.place ≡ listening
      → to_q ≡ []
      → q.said ≡ p.shown ++ to_p ∷ []
      → p.said ≡ q.shown
      → Phase p q to_q to_p
  q_left :
      q.place ≡ stopped
      → p.place ≡ listening
      → to_q ≡ []
      → to_p ≡ []
      → p.said ≡ q.shown
      → q.said ≡ p.shown
      → Phase p q to_q to_p
  both_left :
      p.place ≡ stopped
      → q.place ≡ stopped
      → to_q ≡ []
      → to_p ≡ []
      → p.said ≡ q.shown
      → q.said ≡ p.shown
      → Phase p q to_q to_p

pub mirror : {p q : Peer} {a b : Bytes} → Phase p q a b → Phase q p b a
mirror (p_turn x y a b c d) = q_turn x y b a d c
mirror (p_said x y z a b c) = q_said x y z a b c
mirror (p_left x y a b c d) = q_left x y b a d c
mirror (q_turn x y a b c d) = p_turn x y b a d c
mirror (q_said x y z a b c) = p_said x y z a b c
mirror (q_left x y a b c d) = p_left x y b a d c
mirror (both_left x y a b c d) = both_left y x b a d c

-- The peer whose turn it is talks.
talks-Phase :
    (p q f : Peer) (sent : Bytes)
    → IsText p.input
    → talk (λ m. pos (length m)) p ≡ (f, sent)
    → q.place ≡ listening
    → p.said ≡ q.shown
    → q.said ≡ p.shown
    → Phase f q sent [] × IsText f.input
talks-Phase p q f sent text t y c d = by_case (talk-Talked p text)
  where
    by_case : Talked p (talk (λ m. pos (length m)) p) → Phase f q sent [] × IsText f.input
    by_case (leaves rest r _ e) =
        let g : f ≡ record p { input = rest; place = stopped } = cc in
        let n : sent ≡ [] = cc in rw (g, n) (p_left refl y refl refl c d, r)
    by_case (says m rest r _ msg e) =
        let g : f ≡ record p { input = rest; said = p.said ++ m ∷ []; place = listening } = cc in
        let n : sent ≡ m = cc in rw (g, n) (p_said msg refl y refl (ap (λ l. l ++ m ∷ []) c) d, r)

-- It can talk in no other phase,
pub not_talking :
    (p q : Peer) (to_q to_p : Bytes)
    → p.place ≡ talking
    → Phase p q to_q to_p
    → (q.place ≡ listening) × (to_q ≡ []) × (to_p ≡ []) × (p.said ≡ q.shown) × (q.said ≡ p.shown)
not_talking p q to_q to_p t (p_turn x y a b c d) = (y, a, b, c, d)
not_talking p q to_q to_p t (p_said x y z a b c) = let bad : ⊥ = cc in absurd bad
not_talking p q to_q to_p t (p_left x y a b c d) = let bad : ⊥ = cc in absurd bad
not_talking p q to_q to_p t (q_turn x y a b c d) = let bad : ⊥ = cc in absurd bad
not_talking p q to_q to_p t (q_said x y z a b c) = let bad : ⊥ = cc in absurd bad
not_talking p q to_q to_p t (q_left x y a b c d) = let bad : ⊥ = cc in absurd bad
not_talking p q to_q to_p t (both_left x y a b c d) = let bad : ⊥ = cc in absurd bad

-- hears something only when the other has said it,
pub on_arrival :
    (p q : Peer) (to_q to_p : Bytes)
    → to_p ≢ []
    → Phase p q to_q to_p
    → Message to_p
      × (q.place ≡ listening)
      × (to_q ≡ [])
      × (q.said ≡ p.shown ++ to_p ∷ [])
      × (p.said ≡ q.shown)
on_arrival p q to_q to_p ne (p_turn x y a b c d) = absurd (ne b)
on_arrival p q to_q to_p ne (p_said x y z a b c) = absurd (ne a)
on_arrival p q to_q to_p ne (p_left x y a b c d) = absurd (ne b)
on_arrival p q to_q to_p ne (q_turn x y a b c d) = absurd (ne b)
on_arrival p q to_q to_p ne (q_said x y z a b c) = (x, y, a, b, c)
on_arrival p q to_q to_p ne (q_left x y a b c d) = absurd (ne b)
on_arrival p q to_q to_p ne (both_left x y a b c d) = absurd (ne b)

-- and hears the end only when the other has left.
pub on_end :
    (p q : Peer) (to_q to_p : Bytes)
    → p.place ≡ listening
    → q.place ≡ stopped
    → Phase p q to_q to_p
    → (to_q ≡ []) × (p.said ≡ q.shown) × (q.said ≡ p.shown)
on_end p q to_q to_p l s (p_turn x y a b c d) = (a, c, d)
on_end p q to_q to_p l s (p_said x y z a b c) = let bad : ⊥ = cc in absurd bad
on_end p q to_q to_p l s (p_left x y a b c d) = (a, c, d)
on_end p q to_q to_p l s (q_turn x y a b c d) = (a, c, d)
on_end p q to_q to_p l s (q_said x y z a b c) = let bad : ⊥ = cc in absurd bad
on_end p q to_q to_p l s (q_left x y a b c d) = (a, c, d)
on_end p q to_q to_p l s (both_left x y a b c d) = (a, c, d)

pub stopped_of : (p : Place) → is_stopped p ≡ true → p ≡ stopped
stopped_of talking h = cc
stopped_of listening h = cc
stopped_of stopped h = refl
stopped_of overrun h = cc

Act-Phase :
    (p q f : Peer) (to_q to_p left sent : Bytes)
    → Phase p q to_q to_p
    → IsText p.input
    → Act true (is_stopped q.place) p to_p f left sent
    → Phase f q (to_q ++ sent) left × IsText f.input
Act-Phase p q f to_q to_p left sent ph text (talks t e) =
    let (y, a, b, c, d) = not_talking p q to_q to_p t ph in
    rw (a, b) (talks-Phase p q f sent text e y c d)
Act-Phase p q f to_q to_p left sent ph text (talks_part r odd t e a) =
    let bad : ⊥ = cc in absurd bad
Act-Phase p q f to_q to_p left sent ph text (hears_part n odd l h ne e d) =
    let bad : ⊥ = cc in absurd bad
Act-Phase p q f to_q to_p left sent ph text (hears_error k odd l e) = let bad : ⊥ = cc in absurd bad
Act-Phase p q f to_q to_p left sent ph text (hears l ne e d) =
    let (m, y, a, b, c) = on_arrival p q to_q to_p ne ph in
    let g : f ≡ record p { shown = p.shown ++ to_p ∷ []; place = talking } =
      sym e ∙ listen-Message to_p p m in
    let n : left ≡ [] = sym d ∙ drop-short buflen to_p (omega (arith, m.2)) in
    rw (g, n, a) (p_turn refl y refl refl c b, text)
Act-Phase p q f to_q to_p left sent ph text (hears_end l n c e) =
    let gone = stopped_of q.place c in
    let (a, b, d) = on_end p q to_q to_p l gone ph in
    let g : f ≡ record p { place = stopped } = sym e ∙ listen-end p in
    rw (g, n, a) (both_left refl gone refl refl b d, text)

-- The invariant of a connection.
pub record Inv (s : Chat) : Type 0 where
  pub phase : Phase s.server s.client s.to_client s.to_server
  pub server_types : IsText s.server.input
  pub client_types : IsText s.client.input

pub Step-Inv : {s t : Chat} → Step true s t → Inv s → Inv t
Step-Inv {s} {t} (by_server sent act same on) i =
    let (ph, text) =
      Act-Phase s.server s.client t.server s.to_client s.to_server t.to_server sent i.phase
        i.server_types act in
    record { phase = rw (same, on) ph; server_types = text; client_types = rw same i.client_types }
Step-Inv {s} {t} (by_client sent act same on) i =
    let (ph, text) =
      Act-Phase s.client s.server t.client s.to_server s.to_client t.to_client sent (mirror i.phase)
        i.client_types act in
    record {
      phase = rw (same, on) (mirror ph);
      server_types = rw same i.server_types;
      client_types = text;
    }

pub Reach-Inv :
    (a b : Bytes) {s : Chat} → IsText a → IsText b → Reach true (connected a b) s → Inv s
Reach-Inv a b ta tb here = record {
  phase = p_turn refl refl refl refl refl refl;
  server_types = ta;
  client_types = tb;
}
Reach-Inv a b ta tb (next run step) = Step-Inv step (Reach-Inv a b ta tb run)
