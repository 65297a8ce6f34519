-- ===== src/Address.antt =====
-- 20170831/main.c: the addresses of a network interface as text. What `ioctl` stores, or the memory
-- has held before, is an argument: the program does not look at its result.
pub mod ReadBack
mod Samples
use small_project_for_life_w.Base.{
  ℕ, zero, suc, ◌+◌, ◌*◌, ◌/◌, ◌%◌, Option, none, some, List, [], ◌∷◌, ◌++◌, ◌==◌, ltb,
  if◌then◌else◌, length, take, drop, get_or,
}
use small_project_for_life_w.Sem.{digits}

abbrev pub Bytes : Type 0
Bytes = List ℕ

unfoldable pub hex_digit : ℕ → ℕ
hex_digit n = if ltb n 10 then 48 + n else 87 + n

-- "%02x:", of a byte
unfoldable pub hex_colon : ℕ → Bytes
unfolding hex_digit
hex_colon b = hex_digit (b / 16) ∷ hex_digit (b % 16) ∷ 58 ∷ []

-- `sprintf` to the buffer from an index on, with its NUL
unfoldable pub print_at : ℕ → Bytes → Bytes → Bytes
print_at i text buf = take i buf ++ (text ++ 0 ∷ drop (i + length text + 1) buf)

-- The loop, from byte `i` on, on the rounds that are left.
unfoldable pub mac_loop : (rounds i : ℕ) → (sa_data : Bytes) → Bytes → Bytes
unfolding print_at hex_colon
mac_loop zero i sa_data mac = mac
mac_loop (suc k) i sa_data mac =
    mac_loop k (i + 1) sa_data (print_at (3 * i) (hex_colon (get_or sa_data i 0)) mac)

-- what "%s" prints of a buffer; `none` if it has no NUL
unfoldable pub text_in : Bytes → Option Bytes
text_in [] = none
text_in (c ∷ cs) =
    let rest = text_in cs in
    if c == 0 then some [] else elim rest [ none ↦ none | some s ↦ some (c ∷ s) ]

-- `inet_ntoa` of the four bytes of an address
unfoldable pub inet_ntoa : (a b c d : ℕ) → Bytes
inet_ntoa a b c d = digits 3 a (46 ∷ digits 3 b (46 ∷ digits 3 c (46 ∷ digits 3 d [])))

-- `main`: the two texts that it prints
unfoldable pub address_main : (ip : ℕ × ℕ × ℕ × ℕ) → (sa_data mac : Bytes) → Bytes × Option Bytes
unfolding mac_loop text_in
address_main (a, b, c, d) sa_data mac = (inet_ntoa a b c d, text_in (mac_loop 6 0 sa_data mac))
