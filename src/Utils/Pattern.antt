-- ===== src/Utils/Pattern.antt =====
-- utils/pmatch.c: svlogd's patterns. A pointer is the list of the bytes from it to its object's end.
use runit.Base.{
  ℕ, zero, suc, Bool, true, false, List, [], ◌∷◌, Option, none, some, if◌then◌else◌, ◌==◌, deref,
  ◌||◌,
}

-- How an inner loop ends: with a `return`, or with a `break`, behind which `s` and `len` are these.
pub data Inner : Type 0 where
  return : Bool → Inner
  break : List ℕ → ℕ → Inner

-- The inner loop of `*`.
unfoldable pub seek : ℕ → List ℕ → ℕ → Option Inner
seek c s zero = some (return false)
seek c [] (suc len) = none
seek c (x ∷ s) (suc len) =
    let rest = seek c s len in if x == c then some (break (x ∷ s) (suc len)) else rest

-- The inner loop of `+`.
unfoldable pub skip : ℕ → List ℕ → ℕ → Option Inner
skip c s zero = some (return true)
skip c [] (suc len) = none
skip c (x ∷ s) (suc len) =
    let rest = skip c s len in if x == c then rest else some (break (x ∷ s) (suc len))

-- What the outer loop does with the end of an inner one.
abbrev pub go_on : Option Inner → (List ℕ → ℕ → Option Bool) → Option Bool
go_on none k = none
go_on (some (return b)) k = some b
go_on (some (break s len)) k = k s len

-- The case `default`.
abbrev pub literal : ℕ → List ℕ → ℕ → (List ℕ → ℕ → Option Bool) → Option Bool
literal c s zero k = some false
literal c s (suc len) k = deref s (λ x s'. if x == c then k s' len else some false)

-- The case `+`: `d` is the next character of the pattern, and the pattern goes on behind it.
abbrev pub plus : ℕ → List ℕ → ℕ → (List ℕ → ℕ → Option Bool) → Option Bool
plus d s len k = deref s (λ x _. if d == x then go_on (skip d s len) k else some false)

-- The case `*`: the pattern goes on at `d`.
abbrev pub star : ℕ → List ℕ → ℕ → (List ℕ → ℕ → Option Bool) → Option Bool
star d s len k = if d == 0 then some true else go_on (seek d s len) k

-- A pattern without a NUL is read past its end.
unfoldable pub pmatch : List ℕ → List ℕ → ℕ → Option Bool
unfolding seek skip
pmatch [] s len = none
pmatch (c ∷ []) s len =
    if c == 0
    then some (len == 0)
    else if (c == b'*') || (c == b'+')
    then none
    else literal c s len (λ s' len'. none)
pmatch (c ∷ d ∷ p) s len =
    let here = pmatch (d ∷ p) in
    let behind = pmatch p in
    if c == 0
    then some (len == 0)
    else if c == b'*'
    then star d s len here
    else if c == b'+'
    then plus d s len behind
    else literal c s len here
