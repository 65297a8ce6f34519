-- ===== src/Chat/Say.antt =====
-- What a turn to talk makes of the typed bytes.
use small_project_for_life_w.Base.{
  ℕ, zero, suc, ◌+◌, ◌-◌, ◌≤◌, ◌<◌, ◌≡◌, refl, ap, ◌∙◌, true, false, Bool, Bool-cases, inl, inr,
  ◌⊎◌, ◌||◌, Option, some, [], ◌∷◌, ◌++◌, append-nil, append_assoc, arith, length, length-append,
  take, replicate, ◌==◌, if◌then◌else◌,
}
use small_project_for_life_w.Chat.{
  Bytes, buflen, newline, fgets, c_str, begins_as, has_byte, quit_word, Said, quits, again, sends,
  say_line, say,
}

pub has_byte-append : (b : ℕ) (s t : Bytes) → has_byte b (s ++ t) ≡ (has_byte b s || has_byte b t)
unfolding has_byte
has_byte-append b [] t = refl
has_byte-append b (c ∷ s) t = ground (arith, has_byte-append b s t)

-- A line is bytes without a newline, and the newline if it was read; without it, the input is over
-- or `fgets` had no room for more.
fgets-line :
    (n : ℕ) (input : Bytes)
    → let (line, rest) = fgets n input in
      (m : Bytes) × (e : Bytes) × (line ≡ m ++ e)
      × ((e ≡ []) ⊎ (e ≡ newline ∷ []))
      × (has_byte newline m ≡ false)
      × (input ≡ m ++ (e ++ rest))
      × (length m + length e ≤ n)
      × (e ≡ [] → (rest ≡ []) ⊎ (length m ≡ n))
unfolding fgets has_byte
fgets-line zero input = ([], [], refl, inl refl, refl, refl, omega arith, λ e. inr refl)
fgets-line (suc n) [] = ([], [], refl, inl refl, refl, refl, omega arith, λ e. inl refl)
fgets-line (suc n) (c ∷ input) = elim (Bool-cases (c == newline)) [
  | inl hit ↦
      let e : c ≡ newline = ground arith in
      rw hit (
        [],
        newline ∷ [],
        ap (λ b. b ∷ []) e,
        inr refl,
        refl,
        ap (λ b. b ∷ input) e,
        omega arith,
        λ f. cc,
      )
  | inr miss ↦
      let (m, e, line, ends, free, whole, short, full) = fgets-line n input in
      let full' : e ≡ [] → ((fgets n input).1 ≡ []) ⊎ (suc (length m) ≡ suc n) =
        λ f. elim (full f) [ inl over ↦ inl over | inr all ↦ inr (ap suc all) ] in
      rw miss (
        c ∷ m,
        e,
        ap (λ l. c ∷ l) line,
        ends,
        rw miss free,
        ap (λ l. c ∷ l) whole,
        omega arith,
        full',
      )
]

pub c_str-free : (s : Bytes) → has_byte 0 s ≡ false → c_str s ≡ s
unfolding c_str has_byte
c_str-free [] h = refl
c_str-free (c ∷ s) h = ground (arith, c_str-free s)

begins_as-newline :
    (m word : Bytes)
    → has_byte newline word ≡ false
    → begins_as (m ++ newline ∷ []) word ≡ begins_as m word
unfolding begins_as has_byte
begins_as-newline m [] h = refl
begins_as-newline [] (w ∷ word) h = ground arith
begins_as-newline (c ∷ m) (w ∷ word) h = ground (arith, begins_as-newline m word)

not_begins : (m : Bytes) → has_byte newline m ≡ false → begins_as m (newline ∷ []) ≡ false
unfolding begins_as has_byte
not_begins [] h = refl
not_begins (c ∷ m) h = ground arith

take-front : (m t : Bytes) → take (length m) (m ++ t) ≡ m
take-front [] t = refl
take-front (c ∷ m) t = ap (λ l. c ∷ l) (take-front m t)

take-last : (m : Bytes) (b : ℕ) → take (length (m ++ b ∷ []) - 1) (m ++ b ∷ []) ≡ m
take-last m b =
    let e : length (m ++ b ∷ []) - 1 ≡ length m = omega (arith, length-append m (b ∷ [])) in
    rw e (take-front m (b ∷ []))

say_line-open :
    (m : Bytes)
    → has_byte newline m ≡ false
    → say_line m ≡ (if begins_as m quit_word then quits else sends m)
unfolding say_line
say_line-open m h = rw (not_begins m h, h)

not_begins_line :
    (c : ℕ) (m : Bytes)
    → has_byte newline (c ∷ m) ≡ false
    → begins_as (c ∷ m ++ newline ∷ []) (newline ∷ []) ≡ false
unfolding begins_as has_byte
not_begins_line c m h = ground arith

has_last : (m : Bytes) → has_byte newline (m ++ newline ∷ []) ≡ true
unfolding has_byte
has_last [] = refl
has_last (c ∷ m) = ground (arith, has_last m)

say_line-closed :
    (c : ℕ) (m : Bytes)
    → has_byte newline (c ∷ m) ≡ false
    → say_line ((c ∷ m) ++ newline ∷ [])
      ≡ (if begins_as (c ∷ m) quit_word then quits else sends (c ∷ m))
unfolding say_line
say_line-closed c m h = rw (
  begins_as-newline (c ∷ m) quit_word (unfold has_byte in refl),
  not_begins_line c m h,
  has_last (c ∷ m),
  take-last (c ∷ m) newline,
)

say_line-empty : say_line (newline ∷ []) ≡ again
unfolding say_line begins_as
say_line-empty = refl

say_line-cases :
    (m e : Bytes)
    → (e ≡ []) ⊎ (e ≡ newline ∷ [])
    → has_byte newline m ≡ false
    → ((say_line (m ++ e) ≡ (if begins_as m quit_word then quits else sends m)) × (m ≡ [] → e ≡ []))
      ⊎ ((m ≡ []) × (e ≡ newline ∷ []))
say_line-cases m e (inl open_end) h = inl (
  ap (λ l. say_line (m ++ l)) open_end ∙ ap say_line (append-nil m) ∙ say_line-open m h,
  λ _. open_end,
)
say_line-cases [] e (inr one) h = inr (refl, one)
say_line-cases (c ∷ m) e (inr one) h =
    inl (ap (λ l. say_line ((c ∷ m) ++ l)) one ∙ say_line-closed c m h, λ n. cc)

-- a pass of the loop that ends it, and one that does not
say-ends :
    (fuel : ℕ) (input buf m : Bytes) (b : Bool)
    → c_str (fgets (buflen - 1) input).0 ≡ buf
    → say_line buf ≡ (if b then quits else sends m)
    → say (suc fuel) input ≡ some ((if b then quits else sends m), (fgets (buflen - 1) input).1)
unfolding say
say-ends fuel input buf m b e f = by_case b (ap say_line e ∙ f)
  where
    rest : Bytes
    rest = (fgets (buflen - 1) input).1

    by_case :
        (b : Bool)
        → say_line (c_str (fgets (buflen - 1) input).0) ≡ (if b then quits else sends m)
        → say (suc fuel) input ≡ some ((if b then quits else sends m), rest)
    by_case true g = ground (arith, g)
    by_case false g = ground (arith, g)

say-again :
    (fuel : ℕ) (input : Bytes)
    → c_str (fgets (buflen - 1) input).0 ≡ newline ∷ []
    → say (suc fuel) input ≡ say fuel (fgets (buflen - 1) input).1
unfolding say
say-again fuel input e =
    let g : say_line (c_str (fgets (buflen - 1) input).0) ≡ again =
      ap say_line e ∙ say_line-empty in
    ground arith

-- What a turn comes to: lines that are empty are passed over, and the next one counts up to 19
-- bytes with its newline, which it lacks only at the end of the input or behind 19 bytes; it is
-- empty only at the end of the input. What is left of it stays for the next turn.
abbrev pub Line : Bytes → Option (Said × Bytes) → Type 0
Line input r =
    (k : ℕ) × (m : Bytes) × (e : Bytes) × (rest : Bytes) × (input
      ≡ replicate k newline ++ (m ++ (e ++ rest)))
    × ((e ≡ []) ⊎ (e ≡ newline ∷ []))
    × (has_byte newline m ≡ false)
    × (length m + length e < buflen)
    × (e ≡ [] → (rest ≡ []) ⊎ (length m ≡ buflen - 1))
    × (m ≡ [] → (e ≡ []) × (rest ≡ []))
    × (r ≡ some ((if begins_as m quit_word then quits else sends m), rest))

front-free : (s t : Bytes) → has_byte 0 (s ++ t) ≡ false → has_byte 0 s ≡ false
front-free s t h = ground (arith, has_byte-append 0 s t)

rest-free : (c : ℕ) (t : Bytes) → has_byte 0 (c ∷ t) ≡ false → has_byte 0 t ≡ false
unfolding has_byte
rest-free c t h = ground arith

after_newline :
    (input rest : Bytes) (r r' : Option (Said × Bytes))
    → input ≡ newline ∷ rest
    → r' ≡ r
    → Line rest r
    → Line input r'
after_newline input rest r r' opened same
      (k, m, e, left, whole, ends, clear, short, full, over, result) =
    (
      suc k,
      m,
      e,
      left,
      opened ∙ ap (λ l. newline ∷ l) whole,
      ends,
      clear,
      short,
      full,
      over,
      same ∙ result,
    )

over_at : (m rest : Bytes) → m ≡ [] → (rest ≡ []) ⊎ (length m ≡ buflen - 1) → rest ≡ []
over_at m rest n (inl over) = over
over_at m rest n (inr all) = absurd (omega (arith, ap length n, all))

-- Enough fuel is one more than the typed bytes, if none is a NUL, and then the turn ends: lines
-- that are empty are passed over; the next one counts up to 19 bytes with its newline, which it
-- lacks only if the input is over or 19 bytes came before it, and is sent without its newline
-- unless it begins with "quit" in any case. Nothing is sent as an empty message but at the end of
-- the input. What is left of a longer line is the next turn's.
pub say-Line :
    (fuel : ℕ) (input : Bytes)
    → has_byte 0 input ≡ false
    → length input < fuel
    → Line input (say fuel input)
say-Line zero input free h = absurd (omega arith)
say-Line (suc fuel) input free h =
    let (m, e, line, ends, clear, whole, short, full) = fgets-line (buflen - 1) input in
    let rest = (fgets (buflen - 1) input).1 in
    let clean : has_byte 0 (m ++ e) ≡ false =
      front-free (m ++ e) rest (rw (append_assoc m e rest) (rw (← whole) free)) in
    let buf : c_str (fgets (buflen - 1) input).0 ≡ m ++ e =
      ap c_str line ∙ c_str-free (m ++ e) clean in
    elim (say_line-cases m e ends clear) [
      | inl (f, nothing) ↦ (
        0,
        m,
        e,
        rest,
        whole,
        ends,
        clear,
        omega arith,
        full,
        λ n. (nothing n, over_at m rest n (full (nothing n))),
        say-ends fuel input (m ++ e) m _ buf f,
      )
      | inr (empty, one) ↦
          let opened : input ≡ newline ∷ rest = rw (empty, one) at whole in
          let ih =
            say-Line fuel rest (rest-free newline rest (rw opened at free))
              (omega (arith, ap length opened)) in
          after_newline input rest (say fuel rest) (say (suc fuel) input) opened
            (say-again fuel input (rw (empty, one) at buf)) ih
    ]
