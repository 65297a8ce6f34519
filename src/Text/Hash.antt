-- ===== src/Text/Hash.antt =====
-- `string_hash`: what it depends on.
use small_project_for_life_w.Base.{ℕ, zero, suc, ◌+◌, ◌<◌, ◌≡◌, refl, ap, arith, get_or}
use small_project_for_life_w.Text.{Bytes, mix, hash_loop, last_mix, string_hash}

hash_loop-agree :
    (key key' : Bytes) (k i hash : ℕ)
    → ((j : ℕ) → j < i + k → get_or key j 0 ≡ get_or key' j 0)
    → hash_loop key k i hash ≡ hash_loop key' k i hash
unfolding hash_loop
hash_loop-agree key key' zero i hash same = refl
hash_loop-agree key key' (suc k) i hash same =
    rw (same i (omega arith)) (
      hash_loop-agree key key' k (i + 1) (mix hash (get_or key' i 0)) (λ j h. same j (omega arith)))

-- `string_hash` looks at the first `len` bytes of its key only.
pub string_hash-agree :
    (key key' : Bytes) (len : ℕ)
    → ((j : ℕ) → j < len → get_or key j 0 ≡ get_or key' j 0)
    → string_hash key len ≡ string_hash key' len
unfolding string_hash
string_hash-agree key key' len same =
    ap last_mix (hash_loop-agree key key' len 0 0 (λ j h. same j (omega arith)))
