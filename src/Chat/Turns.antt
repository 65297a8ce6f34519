-- ===== src/Chat/Turns.antt =====
-- What a turn of one program does to it, where no call fails and none gives a part.
use small_project_for_life_w.Base.{
  ℕ, zero, suc, ◌+◌, ◌≤◌, ◌<◌, ◌≡◌, refl, ap, true, false, Bool, some, [], ◌∷◌, ◌++◌, arith, length,
  length-append, take, drop, replicate, if◌then◌else◌, pos,
}
use small_project_for_life_w.Chat.{
  Bytes, buflen, newline, begins_as, has_byte, quit_word, quits, sends, say, talking, listening,
  stopped, Peer, talk, listen,
}
use small_project_for_life_w.Chat.Say.{say-Line, has_byte-append, c_str-free}

-- text without a NUL
abbrev pub IsText : Bytes → Type 0
IsText s = has_byte 0 s ≡ false

abbrev pub Message : Bytes → Type 0
Message m = IsText m × (0 < length m) × (length m < buflen)

-- what a turn to talk can come to
pub data Talked (e : Peer) (r : Peer × Bytes) : Type 0 where
  leaves :
      (rest : Bytes)
      → IsText rest
      → length rest ≤ length e.input
      → r ≡ (record e { input = rest; place = stopped }, [])
      → Talked e r
  says :
      (m rest : Bytes)
      → IsText rest
      → length rest < length e.input
      → Message m
      → r ≡ (record e { input = rest; said = e.said ++ m ∷ []; place = listening }, m)
      → Talked e r

talk-quits :
    (e : Peer) (rest : Bytes)
    → say (length e.input + 1) e.input ≡ some (quits, rest)
    → talk (λ m. pos (length m)) e ≡ (record e { input = rest; place = stopped }, [])
unfolding talk
talk-quits e rest h = ground arith

talk-sends :
    (e : Peer) (c : ℕ) (m rest : Bytes)
    → length (c ∷ m) < buflen
    → say (length e.input + 1) e.input ≡ some (sends (c ∷ m), rest)
    → talk (λ m. pos (length m)) e
      ≡ (record e { input = rest; said = e.said ++ (c ∷ m) ∷ []; place = listening }, c ∷ m)
unfolding talk
talk-sends e c m rest short h = ground arith

talk-nothing :
    (e : Peer) (rest : Bytes)
    → say (length e.input + 1) e.input ≡ some (sends [], rest)
    → talk (λ m. pos (length m)) e ≡ (record e { input = rest; place = stopped }, [])
unfolding talk
talk-nothing e rest h = ground arith

text_parts : (s t : Bytes) → IsText (s ++ t) → IsText s × IsText t
text_parts s t h = ground (arith, has_byte-append 0 s t)

pub talk-Talked : (e : Peer) → IsText e.input → Talked e (talk (λ m. pos (length m)) e)
talk-Talked e text =
    let (k, m, end, rest, whole, ends, clear, short, _, _, result) =
      say-Line (length e.input + 1) e.input text (omega arith) in
    let behind = (text_parts (replicate k newline) (m ++ (end ++ rest)) (rw whole at text)).1 in
    let m_text = text_parts m (end ++ rest) behind in
    let rest_text = (text_parts end rest m_text.1).1 in
    let len : length m + length rest ≤ length e.input = omega (
      arith,
      ap length whole,
      length-append (replicate k newline) (m ++ (end ++ rest)),
      length-append m (end ++ rest),
      length-append end rest,
    ) in
    by_case m (begins_as m quit_word) rest m_text.0 rest_text len (omega (arith, short)) result
  where
    by_case :
        (m : Bytes) (b : Bool) (rest : Bytes)
        → IsText m
        → IsText rest
        → length m + length rest ≤ length e.input
        → length m < buflen
        → say (length e.input + 1) e.input ≡ some ((if b then quits else sends m), rest)
        → Talked e (talk (λ m. pos (length m)) e)
    by_case m true rest t r len short h = leaves rest r (omega arith) (talk-quits e rest h)
    by_case [] false rest t r len short h = leaves rest r (omega arith) (talk-nothing e rest h)
    by_case (c ∷ m) false rest t r len short h =
        says (c ∷ m) rest r (omega arith) (t, omega arith, short) (talk-sends e c m rest short h)

take-short : (n : ℕ) (m : Bytes) → length m ≤ n → take n m ≡ m
take-short zero [] h = refl
take-short zero (c ∷ m) h = absurd (omega arith)
take-short (suc n) [] h = refl
take-short (suc n) (c ∷ m) h = ap (λ l. c ∷ l) (take-short n m (omega arith))

pub drop-short : (n : ℕ) (m : Bytes) → length m ≤ n → drop n m ≡ []
drop-short zero [] h = refl
drop-short zero (c ∷ m) h = absurd (omega arith)
drop-short (suc n) [] h = refl
drop-short (suc n) (c ∷ m) h = drop-short n m (omega arith)

-- A message that has arrived is shown whole.
pub listen-Message :
    (m : Bytes) (e : Peer)
    → Message m
    → listen (pos (length (take buflen m))) (take buflen m) e
      ≡ record e { shown = e.shown ++ m ∷ []; place = talking }
unfolding listen
listen-Message m e (text, nonempty, short) =
    rw (take-short buflen m (omega arith), c_str-free m text) (ground arith)

pub listen-end : (e : Peer) → listen (pos 0) [] e ≡ record e { place = stopped }
unfolding listen
listen-end e = refl
