-- ===== src/Chpst/Counts.antt =====
-- libunix/pathexec_env.c: the environment after the changes, by how often a string is in it.

use runit.Base.{
  ℕ, ◌+◌, ◌-◌, ◌≡◌, Bool, true, false, List, [], ◌∷◌, ◌++◌, if◌then◌else◌, inl, inr, arith, refl,
  Bool-cases,
}
use runit.Chpst.Env.{Text, is_named, behind_first, last_first, unset}

abbrev pub count : (Text → Bool) → List Text → ℕ
count p [] = 0
count p (e ∷ es) = (if p e then 1 else 0) + count p es

count-append : (p : Text → Bool) (xs ys : List Text) → count p (xs ++ ys) ≡ count p xs + count p ys
count-append p [] ys = omega arith
count-append p (x ∷ xs) ys = omega (arith, count-append p xs ys)

count-behind :
    (p : Text → Bool) (x : Text) (es : List Text) → count p (behind_first x es) ≡ count p (x ∷ es)
count-behind p x [] = refl
count-behind p x (l ∷ es) = omega arith

count-last_first : (p : Text → Bool) (es : List Text) → count p (last_first es) ≡ count p es
unfolding last_first
count-last_first p [] = refl
count-last_first p (x ∷ []) = refl
count-last_first p (x ∷ y ∷ es) =
    omega (arith, count-behind p x (last_first (y ∷ es)), count-last_first p (y ∷ es))

-- One string of the name goes, if there is one.
pub unset_named :
    (n : Text) (env : List Text) → count (is_named n) (unset n env) ≡ count (is_named n) env - 1
unfolding unset
unset_named n [] = omega arith
unset_named n (e ∷ es) = elim (Bool-cases (is_named n e)) [
  | inl y ↦ rw y (omega (arith, count-last_first (is_named n) es))
  | inr z ↦ rw z (rw z (omega (arith, unset_named n es)))
]

-- A test that no string of the name passes counts as before.
pub unset_other :
    (p : Text → Bool) (n : Text) (env : List Text)
    → ((e : Text) → is_named n e ≡ true → p e ≡ false)
    → count p (unset n env) ≡ count p env
unfolding unset
unset_other p n [] h = refl
unset_other p n (e ∷ es) h = elim (Bool-cases (is_named n e)) [
  | inl y ↦ rw y (rw (h e y) (omega (arith, count-last_first p es)))
  | inr z ↦ rw z (omega (arith, unset_other p n es h))
]
