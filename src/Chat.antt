-- ===== src/Chat.antt =====
-- The chat of 20170815 over TCP: server.c, client.c, and the two of them on one connection.
pub mod Say
pub mod Turns
pub mod Phase
pub mod Delivery
pub mod Ending
pub mod Start
pub mod Errors
mod Samples
use small_project_for_life_w.Base.{
  ℕ, zero, suc, ◌+◌, ◌-◌, ◌*◌, ◌%◌, ◌^◌, Bool, true, false, ◌&&◌, ◌||◌, Option, none, some, List,
  [], ◌∷◌, ◌++◌, length, take, drop, ◌==◌, if◌then◌else◌, ltb, leb, ℤ, pos, negsuc, ◌≡◌, ◌≢◌,
}

abbrev pub Bytes : Type 0
Bytes = List ℕ

abbrev pub buflen : ℕ
buflen = 20

abbrev pub newline : ℕ
newline = 10

-- `fgets`: at most `n` bytes, and none behind a newline; what it read, and what is left
pub fgets : ℕ → Bytes → Bytes × Bytes
fgets zero input = ([], input)
fgets (suc n) [] = ([], [])
fgets (suc n) (c ∷ input) =
    let (line, rest) = fgets n input in if c == newline then (c ∷ [], input) else (c ∷ line, rest)

-- the string in a buffer that was cleared before
pub c_str : Bytes → Bytes
c_str [] = []
c_str (c ∷ s) = if c == 0 then [] else c ∷ c_str s

pub to_lower : ℕ → ℕ
to_lower c = if leb 65 c && leb c 90 then c + 32 else c

-- `!strncasecmp(s, word, strlen(word))` for a word in small letters
pub begins_as : Bytes → Bytes → Bool
unfolding to_lower
begins_as s [] = true
begins_as [] (w ∷ word) = false
begins_as (c ∷ s) (w ∷ word) = to_lower c == w && begins_as s word

-- `strchr(s, c)` as a test
pub has_byte : ℕ → Bytes → Bool
has_byte b [] = false
has_byte b (c ∷ s) = c == b || has_byte b s

abbrev pub quit_word : Bytes
quit_word = 113 ∷ 117 ∷ 105 ∷ 116 ∷ []

-- What the lines from `_retry` to `send` come to.
pub data Said : Type 0 where
  quits : Said
  again : Said
  sends : Bytes → Said

pub say_line : Bytes → Said
say_line buf =
    if begins_as buf quit_word
    then quits
    else if begins_as buf (newline ∷ [])
    then again
    else if has_byte newline buf
    then sends (take (length buf - 1) buf)
    else sends buf

-- the loop of `goto _retry`
pub say : ℕ → Bytes → Option (Said × Bytes)
say zero input = none
say (suc fuel) input =
    let (line, rest) = fgets (buflen - 1) input in
    elim (say_line (c_str line)) [
      | quits ↦ some (quits, rest)
      | again ↦ say fuel rest
      | sends m ↦ some (sends m, rest)
    ]

pub data Place : Type 0 where
  talking : Place
  listening : Place
  stopped : Place
  overrun : Place

-- One of the two programs: what its user has still to type, what it has sent and what it has shown.
pub record Peer : Type 0 where
  pub input : Bytes
  pub said : List Bytes
  pub shown : List Bytes
  pub place : Place

-- An `int` as an unsigned one: `len` holds the results of `send` and `recv` in this way.
pub to_unsigned : ℤ → ℕ
to_unsigned (pos n) = n % 2 ^ 32
to_unsigned (negsuc n) = 2 ^ 32 - 1 - n % 2 ^ 32

-- behind `send`, which returned `result`
pub after_send : ℤ → Bytes → Peer → Peer
unfolding to_unsigned
after_send result m e =
    if ltb 0 (to_unsigned result)
    then record e { said = e.said ++ m ∷ []; place = listening }
    else record e { place = stopped }

-- The turn to talk; `result` is what `send` returns for a message. What is sent comes beside.
pub talk : (Bytes → ℤ) → Peer → Peer × Bytes
unfolding after_send
talk result e = elim (say (length e.input + 1) e.input) [
  | none ↦ (e, [])
  | some (quits, rest) ↦ (record e { input = rest; place = stopped }, [])
  | some (again, rest) ↦ (e, [])
  | some (sends m, rest) ↦ (after_send (result m) m (record e { input = rest }), m)
]

-- `printf` of the buffer: 20 bytes without a NUL run over its end.
pub show_message : Bytes → Peer → Peer
unfolding has_byte c_str
show_message got e =
    if ltb (length got) buflen || has_byte 0 got
    then record e { shown = e.shown ++ c_str got ∷ []; place = talking }
    else record e { place = overrun }

-- The turn to listen; `recv` returned `result` and wrote `got`.
pub listen : ℤ → Bytes → Peer → Peer
unfolding show_message to_unsigned
listen result got e =
    if ltb 0 (to_unsigned result) then show_message got e else record e { place = stopped }

-- The connection: what each direction carries.
pub record Chat : Type 0 where
  pub server : Peer
  pub client : Peer
  pub to_client : Bytes
  pub to_server : Bytes

-- what `send` took of a message, by its result
pub sent_part : ℤ → Bytes → Bytes
sent_part (pos n) m = take n m
sent_part (negsuc _) m = []

-- What a peer does, with what has arrived for it. `send` may take a part of a message or none, and
-- `recv` may give a part of what has arrived, or fail; it waits for bytes or for the other end to
-- close. If the connection is `smooth`, each `send` takes the whole message, each `recv` gives all
-- that has arrived and the buffer holds, and neither fails.
pub data Act (smooth closed : Bool) (e : Peer) (inbox : Bytes) : Peer → Bytes → Bytes → Type 0 where
  talks :
      {f : Peer} {sent : Bytes}
      → e.place ≡ talking
      → talk (λ m. pos (length m)) e ≡ (f, sent)
      → Act smooth closed e inbox f inbox sent
  talks_part :
      {f : Peer} {m sent : Bytes} (result : Bytes → ℤ)
      → smooth ≡ false
      → e.place ≡ talking
      → talk result e ≡ (f, m)
      → sent_part (result m) m ≡ sent
      → Act smooth closed e inbox f inbox sent
  hears :
      {f : Peer} {left : Bytes}
      → e.place ≡ listening
      → inbox ≢ []
      → listen (pos (length (take buflen inbox))) (take buflen inbox) e ≡ f
      → drop buflen inbox ≡ left
      → Act smooth closed e inbox f left []
  hears_part :
      {f : Peer} {left : Bytes} (n : ℕ)
      → smooth ≡ false
      → e.place ≡ listening
      → leb n buflen ≡ true
      → take n inbox ≢ []
      → listen (pos (length (take n inbox))) (take n inbox) e ≡ f
      → drop n inbox ≡ left
      → Act smooth closed e inbox f left []
  hears_end :
      {f : Peer}
      → e.place ≡ listening
      → inbox ≡ []
      → closed ≡ true
      → listen (pos 0) [] e ≡ f
      → Act smooth closed e inbox f inbox []
  hears_error :
      {f : Peer} (k : ℕ)
      → smooth ≡ false
      → e.place ≡ listening
      → listen (negsuc k) [] e ≡ f
      → Act smooth closed e inbox f inbox []

abbrev pub is_stopped : Place → Bool
is_stopped stopped = true
is_stopped talking = false
is_stopped listening = false
is_stopped overrun = false

pub data Step (smooth : Bool) (s t : Chat) : Type 0 where
  by_server :
      (sent : Bytes)
      → Act smooth (is_stopped s.client.place) s.server s.to_server t.server t.to_server sent
      → t.client ≡ s.client
      → t.to_client ≡ s.to_client ++ sent
      → Step smooth s t
  by_client :
      (sent : Bytes)
      → Act smooth (is_stopped s.server.place) s.client s.to_client t.client t.to_client sent
      → t.server ≡ s.server
      → t.to_server ≡ s.to_server ++ sent
      → Step smooth s t

pub data Reach (smooth : Bool) (s : Chat) : Chat → Type 0 where
  here : Reach smooth s s
  next : {t u : Chat} → Reach smooth s t → Step smooth t u → Reach smooth s u

-- The connection is there: the server's user types first.
abbrev pub fresh : Bytes → Place → Peer
fresh input p = record { input = input; said = []; shown = []; place = p }

abbrev pub connected : Bytes → Bytes → Chat
connected server_types client_types = record {
  server = fresh server_types talking;
  client = fresh client_types listening;
  to_client = [];
  to_server = [];
}

-- The prompt behind a session of the server: whether it stops.
pub exit_prompt : Bytes → Bool × Bytes
unfolding fgets c_str begins_as
exit_prompt input =
    let (line, rest) = fgets (buflen - 1) input in (begins_as (c_str line) (121 ∷ []), rest)
