-- ===== src/Text/Value.antt =====
-- `string_key_value_get`: the value behind a key.
use small_project_for_life_w.Base.{
  ℕ, zero, suc, ◌+◌, ◌<◌, ◌≤◌, ◌≡◌, ◌∙◌, ap, true, false, some, [], ◌∷◌, arith, ◌==◌, get_or,
  length, pos,
}
use small_project_for_life_w.Text.{Bytes, copy_loop, string_find, string_key_value_get}
use small_project_for_life_w.Text.Find.{NoNul}

-- The string stands at this place, with its NUL.
abbrev pub StringAt : Bytes → ℕ → Bytes → Type 0
StringAt psrc index value =
    (n : ℕ) → n ≤ length value → get_or psrc (index + n) 0 ≡ get_or value n 0

copy_loop-value :
    (psrc : Bytes) (k index : ℕ) (value : Bytes)
    → NoNul value
    → StringAt psrc index value
    → length value < k
    → copy_loop k psrc index ≡ (value, true)
unfolding copy_loop
copy_loop-value psrc zero index value no_nul here h = absurd (omega arith)
copy_loop-value psrc (suc k) index [] no_nul here h =
    let at_end : get_or psrc index 0 ≡ 0 =
      ap (λ (n : ℕ). get_or psrc n 0) (omega arith) ∙ here 0 (omega arith) in
    rw at_end
copy_loop-value psrc (suc k) index (c ∷ value) (c_ne, no_nul) here h =
    let at_c : get_or psrc index 0 ≡ c =
      ap (λ (n : ℕ). get_or psrc n 0) (omega arith) ∙ here 0 (omega arith) in
    let not_nul : (c == 0) ≡ false = ground arith in
    let later : StringAt psrc (index + 1) value =
      λ n le. ap (λ (m : ℕ). get_or psrc m 0) (omega arith) ∙ here (suc n) (omega arith) in
    rw (at_c, not_nul, copy_loop-value psrc k (index + 1) value no_nul later (omega arith))

-- If the key is found, and behind it and one more byte stands a string that fits with its NUL, then
-- `string_key_value_get` copies that string and returns its length.
pub string_key_value_get-value :
    (psrc : Bytes) (len : ℕ) (pdst : Bytes) (out_len index : ℕ) (value : Bytes)
    → string_find psrc len pdst ≡ some index
    → NoNul value
    → StringAt psrc (length pdst + 1 + index) value
    → length value < out_len
    → string_key_value_get psrc len pdst out_len ≡ (pos (length value), value)
unfolding string_key_value_get
string_key_value_get-value psrc len pdst out_len index value found no_nul here h = rw (
  string_key_value_get,
  found,
  copy_loop-value psrc out_len (length pdst + 1 + index) value no_nul here h,
)
