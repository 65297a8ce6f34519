-- ===== src/Address/ReadBack.antt =====
-- The text of the hardware address: the bytes can be read from it.
use small_project_for_life_w.Base.{
  ℕ, zero, suc, ◌+◌, ◌*◌, ◌-◌, ◌/◌, ◌%◌, ◌<◌, ◌≡◌, refl, sym, ap, ◌∙◌, ◌≢◌, some, [], ◌∷◌, ◌++◌,
  ◌==◌, ltb, false, if◌then◌else◌, length, take, drop, get_or, append_assoc, append-nil, arith,
  length-append,
}
use small_project_for_life_w.Address.{
  Bytes, hex_digit, hex_colon, print_at, mac_loop, text_in, address_main,
}

-- the texts of bytes from `i` on
abbrev pub mac_text : (count i : ℕ) → Bytes → Bytes
mac_text zero i sa_data = []
mac_text (suc k) i sa_data = hex_colon (get_or sa_data i 0) ++ mac_text k (i + 1) sa_data

take-append : (xs ys : Bytes) (n : ℕ) → length xs ≡ n → take n (xs ++ ys) ≡ xs
take-append [] ys zero e = refl
take-append [] ys (suc n) e = absurd (omega (arith, e))
take-append (x ∷ xs) ys zero e = absurd (omega (arith, e))
take-append (x ∷ xs) ys (suc n) e =
    ap (λ (zs : Bytes). x ∷ zs) (take-append xs ys n (omega (arith, e)))

-- The buffer begins with a text of this length.
abbrev Begun : Bytes → ℕ → Bytes → Type 0
Begun done n buf = (rest : Bytes) × (buf ≡ done ++ rest) × (length done ≡ n)

print_at-Begun :
    (done text buf : Bytes) (n : ℕ)
    → Begun done n buf
    → (rest : Bytes) × (print_at n text buf ≡ (done ++ text) ++ 0 ∷ rest)
unfolding print_at
print_at-Begun done text buf n (rest, e, size) = (
  drop (n + length text + 1) buf,
  ap (λ (front : Bytes). front ++ (text ++ 0 ∷ drop (n + length text + 1) buf))
        (ap (take n) e ∙ take-append done rest n size)
      ∙ sym (append_assoc done text (0 ∷ drop (n + length text + 1) buf)),
)

length-hex_colon : (b : ℕ) → length (hex_colon b) ≡ 3
unfolding hex_colon
length-hex_colon b = refl

-- Each round puts its text behind those that are there, and a NUL behind it.
mac_loop-Begun :
    (k i : ℕ) (sa_data done buf : Bytes)
    → Begun done (3 * i) buf
    → (rest : Bytes) × (mac_loop (suc k) i sa_data buf
        ≡ (done ++ mac_text (suc k) i sa_data) ++ 0 ∷ rest)
unfolding mac_loop
mac_loop-Begun zero i sa_data done buf begun =
    let (rest, e) = print_at-Begun done (hex_colon (get_or sa_data i 0)) buf (3 * i) begun in
    (rest, rw append-nil e)
mac_loop-Begun (suc k) i sa_data done buf begun =
    let hex = hex_colon (get_or sa_data i 0) in
    let (rest, e) = print_at-Begun done hex buf (3 * i) begun in
    let (_, _, size) = begun in
    let next : Begun (done ++ hex) (3 * (i + 1)) (print_at (3 * i) hex buf) = (
      0 ∷ rest,
      e,
      omega (arith, size, length-append done hex, length-hex_colon (get_or sa_data i 0)),
    ) in
    let (rest', e') =
      mac_loop-Begun k (i + 1) sa_data (done ++ hex) (print_at (3 * i) hex buf) next in
    (
      rest',
      e'
          ∙ ap (λ (front : Bytes). front ++ 0 ∷ rest')
              (append_assoc done hex (mac_text (suc k) (i + 1) sa_data)),
    )

-- No byte of it ends a text.
abbrev NoNul : Bytes → Type 0
NoNul [] = Unit
NoNul (c ∷ cs) = (c ≢ 0) × NoNul cs

text_in-append : (text rest : Bytes) → NoNul text → text_in (text ++ 0 ∷ rest) ≡ some text
unfolding text_in
text_in-append [] rest n = refl
text_in-append (c ∷ cs) rest (ne, n) =
    let not_nul : (c == 0) ≡ false = ground arith in rw (not_nul, text_in-append cs rest n) refl

hex_digit-ne : (n : ℕ) → hex_digit n ≢ 0
unfolding hex_digit
hex_digit-ne n = ground arith

mac_text-NoNul : (k i : ℕ) (sa_data : Bytes) → NoNul (mac_text k i sa_data)
unfolding hex_colon
mac_text-NoNul zero i sa_data = tt
mac_text-NoNul (suc k) i sa_data =
    (hex_digit-ne _, (hex_digit-ne _, ((λ e. omega (arith, e)), mac_text-NoNul k (i + 1) sa_data)))

-- the value of a digit, and the bytes of a text
abbrev pub hex_value : ℕ → ℕ
hex_value c = if ltb c 58 then c - 48 else c - 87

abbrev pub read_mac : Bytes → Bytes
read_mac [] = []
read_mac (a ∷ []) = []
read_mac (a ∷ b ∷ []) = []
read_mac (a ∷ b ∷ c ∷ rest) = (hex_value a * 16 + hex_value b) ∷ read_mac rest

abbrev pub bytes_of : (count i : ℕ) → Bytes → Bytes
bytes_of zero i sa_data = []
bytes_of (suc k) i sa_data = get_or sa_data i 0 ∷ bytes_of k (i + 1) sa_data

hex_value-hex_digit : (n : ℕ) → n < 16 → hex_value (hex_digit n) ≡ n
unfolding hex_digit
hex_value-hex_digit n h = ground arith

read_mac-mac_text :
    (k i : ℕ) (sa_data : Bytes)
    → ((j : ℕ) → get_or sa_data j 0 < 256)
    → read_mac (mac_text k i sa_data) ≡ bytes_of k i sa_data
unfolding hex_colon
read_mac-mac_text zero i sa_data small = refl
read_mac-mac_text (suc k) i sa_data small =
    let b = get_or sa_data i 0 in
    let below = small i in
    let high = hex_value-hex_digit (b / 16) (omega (arith, below)) in
    let low = hex_value-hex_digit (b % 16) (omega arith) in
    rw (read_mac-mac_text k (i + 1) sa_data small)
      (ap (λ (n : ℕ). n ∷ bytes_of k (i + 1) sa_data) (omega (arith, high, low)))

-- Whatever the buffer held, `main` prints for the hardware address, of which the bytes are below
-- 256, a text of six times two digits and a colon, from which the six bytes can be read back.
pub address_main-read_mac :
    (ip : ℕ × ℕ × ℕ × ℕ) (sa_data mac : Bytes)
    → ((j : ℕ) → get_or sa_data j 0 < 256)
    → ((address_main ip sa_data mac).1 ≡ some (mac_text 6 0 sa_data))
      × (read_mac (mac_text 6 0 sa_data) ≡ bytes_of 6 0 sa_data)
unfolding address_main
address_main-read_mac ip sa_data mac small =
    let (rest, e) = mac_loop-Begun 5 0 sa_data [] mac (mac, refl, refl) in
    (
      ap text_in e ∙ text_in-append (mac_text 6 0 sa_data) rest (mac_text-NoNul 6 0 sa_data),
      read_mac-mac_text 6 0 sa_data small,
    )
