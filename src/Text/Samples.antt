-- ===== src/Text/Samples.antt =====
-- The theorems on the strings of imi_db_mi.c at "a=b;did=42;".
use small_project_for_life_w.Base.{some, [], ◌∷◌, arith}
use small_project_for_life_w.Text.{Bytes, string_find}
use small_project_for_life_w.Text.Find.{NoNul, First, string_find-First}

abbrev factory : Bytes
factory = 97 ∷ 61 ∷ 98 ∷ 59 ∷ 100 ∷ 105 ∷ 100 ∷ 61 ∷ 52 ∷ 50 ∷ 0 ∷ 7 ∷ []

abbrev did : Bytes
did = 100 ∷ 105 ∷ 100 ∷ []

did-NoNul : NoNul did
did-NoNul = (ground arith, (ground arith, (ground arith, tt)))

string_find-First_example : First factory 12 0 did (some 4)
unfolding string_find
string_find-First_example = string_find-First factory 12 100 (105 ∷ 100 ∷ []) did-NoNul
