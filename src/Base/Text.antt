-- ===== src/Base/Text.antt =====
-- The test of two strings for equality, `strcmp` or `str_diff` against 0.
use Prim.Native.Nat.{ℕ}
use mathlib.Core.Path.{◌≡◌, refl}
use mathlib.Core.Bool.{Bool, true, false}
use mathlib.Core.List.{List, [], ◌∷◌}
use native.Mathlib.Omega.{arith}
use runit.Base.Tests.{◌==◌, if◌then◌else◌}

-- On the texts of the two strings.
unfoldable pub same : List ℕ → List ℕ → Bool
same [] [] = true
same (a ∷ s) (b ∷ t) = let rest = same s t in if a == b then rest else false
same _ _ = false

pub same_refl : (s : List ℕ) → same s s ≡ true
unfolding same
same_refl [] = refl
same_refl (a ∷ s) = ground (arith, same_refl s)

pub same-eq : (s t : List ℕ) → same s t ≡ true → s ≡ t
unfolding same
same-eq [] [] h = refl
same-eq [] (b ∷ t) h = absurd (ground (arith, h))
same-eq (a ∷ s) [] h = absurd (ground (arith, h))
same-eq (a ∷ s) (b ∷ t) h = ground (arith, same-eq s t)
