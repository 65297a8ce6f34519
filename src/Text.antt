-- ===== src/Text.antt =====
-- The functions on strings of auto_imi_db_bin/src/imi_db_mi.c: the hash of a key, and the search in
-- the factory data. A C string is the bytes before its NUL; behind the end of a list there is NUL.
pub mod Hash
pub mod Find
pub mod Value
mod Samples
use small_project_for_life_w.Base.{
  ℕ, zero, suc, ◌+◌, ◌-◌, ◌*◌, ◌/◌, ◌%◌, ◌^◌, Bool, true, false, ◌&&◌, not, Option, none, some,
  List, [], ◌∷◌, ◌==◌, ltb, if◌then◌else◌, get_or, length, bit_xor, ℤ, pos, negsuc, ◌++◌,
}

abbrev pub Bytes : Type 0
Bytes = List ℕ

-- `unsigned` arithmetic on 32 bits
abbrev pub add32 : ℕ → ℕ → ℕ
add32 a b = (a + b) % 2 ^ 32

abbrev pub shift_left : ℕ → ℕ → ℕ
shift_left h n = h * 2 ^ n % 2 ^ 32

abbrev pub shift_right : ℕ → ℕ → ℕ
shift_right h n = h / 2 ^ n

-- `(unsigned)c` of a `char`, which is signed
abbrev pub unsigned_of : ℕ → ℕ
unsigned_of c = if ltb c 128 then c else c + (2 ^ 32 - 2 ^ 8)

-- one round of the loop of `string_hash`
pub mix : ℕ → ℕ → ℕ
mix hash c =
    let h₁ = add32 hash (unsigned_of c) in
    let h₂ = add32 h₁ (shift_left h₁ 10) in bit_xor h₂ (shift_right h₂ 6)

pub hash_loop : Bytes → ℕ → ℕ → ℕ → ℕ
unfolding mix
hash_loop key zero i hash = hash
hash_loop key (suc k) i hash = hash_loop key k (i + 1) (mix hash (get_or key i 0))

-- what `string_hash` does behind its loop
pub last_mix : ℕ → ℕ
last_mix hash =
    let h₁ = add32 hash (shift_left hash 3) in
    let h₂ = bit_xor h₁ (shift_right h₁ 11) in add32 h₂ (shift_left h₂ 15)

unfoldable pub string_hash : Bytes → ℕ → ℕ
unfolding hash_loop last_mix
string_hash key len = last_mix (hash_loop key len 0 0)

-- The inner loop of `string_find` from `j` on; the fuel is the rest of `pdst`. The result is `j`.
pub match_loop : ℕ → (psrc : Bytes) → (i : ℕ) → (pdst : Bytes) → ℕ → ℕ
match_loop zero psrc i pdst j = j
match_loop (suc k) psrc i pdst j =
    let rest = match_loop k psrc i pdst (j + 1) in
    if get_or pdst j 0 == 0
    then j
    else if get_or psrc (i + j) 0 == 0
    then j
    else if get_or pdst (j + 1) 0 == get_or psrc (i + (j + 1)) 0
    then rest
    else j + 1

-- The loop of `string_find` on the rounds left; `none` is the result -1.
pub find_loop : ℕ → (psrc : Bytes) → (i : ℕ) → (pdst : Bytes) → Option ℕ
unfolding match_loop
find_loop zero psrc i pdst = none
find_loop (suc k) psrc i pdst =
    let rest = find_loop k psrc (i + 1) pdst in
    if not (get_or psrc i 0 == get_or pdst 0 0)
    then rest
    else if get_or pdst (match_loop (length pdst) psrc i pdst 0) 0 == 0
    then some i
    else rest

pub string_find : (psrc : Bytes) → (len : ℕ) → (pdst : Bytes) → Option ℕ
unfolding find_loop
string_find psrc len pdst = find_loop len psrc 0 pdst

-- The copying loop of `string_key_value_get` on the rounds left: what it copies before a NUL, and
-- whether there was one.
pub copy_loop : ℕ → (psrc : Bytes) → (index : ℕ) → Bytes × Bool
copy_loop zero psrc index = ([], false)
copy_loop (suc k) psrc index =
    let (out, ended) = copy_loop k psrc (index + 1) in
    if get_or psrc index 0 == 0 then ([], true) else (get_or psrc index 0 ∷ out, ended)

-- `string_key_value_get`: the result, and what is in `out`.
pub string_key_value_get : (psrc : Bytes) → (len : ℕ) → (pdst : Bytes) → (out_len : ℕ) → ℤ × Bytes
unfolding string_find copy_loop
string_key_value_get psrc len pdst out_len = elim (string_find psrc len pdst) [
  | none ↦ (negsuc 0, [])
  | some index ↦
      let (out, ended) = copy_loop out_len psrc (length pdst + 1 + index) in
      if ended then (pos (length out), out) else (negsuc 1, out)
]
