-- ===== src/Utils/Tests.antt =====
-- utils/pmatch.c: the theorems at concrete inputs.
use runit.Base.{ℕ, ◌≡◌, List, [], ◌∷◌, ◌++◌, some, true, length, refl}
use runit.Utils.Pattern.{pmatch}
use runit.Utils.Matches.{Token, any, char, encode, pmatch_plus_ends}

-- `*b*`
abbrev pattern_b : List Token
pattern_b = any ∷ char b'b' ∷ any ∷ []

abbrev line : List ℕ
line = b'a' ∷ b'b' ∷ b'c' ∷ []

matching_line : pmatch (encode pattern_b) (line ++ (7 ∷ [])) (length line) ≡ some true
unfolding pmatch
matching_line = refl

pmatch_plus_ends_example : pmatch (b'+' ∷ b'a' ∷ b'b' ∷ 0 ∷ []) (b'a' ∷ b'a' ∷ []) 2 ≡ some true
pmatch_plus_ends_example = pmatch_plus_ends b'a' 1 (b'b' ∷ 0 ∷ []) []
