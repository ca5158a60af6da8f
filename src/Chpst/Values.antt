-- ===== src/Chpst/Values.antt =====
-- utils/chpst.c: the values that `edir` takes from files.
use runit.Base.{
  ℕ, ◌≡◌, ◌≢◌, Bool, true, false, List, [], ◌∷◌, ◌++◌, Option, none, some, if◌then◌else◌, ◌==◌,
  ◌||◌, ◌&&◌, append-nil, append_assoc, not, arith, refl, ◌∙◌, ap, All, Bool-cases, inl, inr,
}
use runit.Chpst.Env.{Text}
use runit.Chpst.Edir.{
  File, bytes, is_dir, failed, first_line, is_blank, keep_unless_blank, strip, no_nul, file_value,
  edir,
}
use runit.Chpst.Variable.{NoNul, entry, plus_of, pathexec_env_lem}

-- A value that a file of one line can give: no NUL, no end of a line, and no blank at the end.
abbrev pub ends_solid : Text → Bool
ends_solid [] = true
ends_solid (c ∷ []) = not (is_blank c)
ends_solid (c ∷ d ∷ s) = ends_solid (d ∷ s)

first_line_lem :
    (v rest : List ℕ) → All (λ c. (c ≢ 0) × (c ≢ b'\n')) v → first_line (v ++ (b'\n' ∷ rest)) ≡ v
unfolding first_line
first_line_lem [] rest h = refl
first_line_lem (c ∷ v) rest h =
    let n : (c == b'\n') ≡ false = ground (arith, h.0) in
    rw n (ap (λ l. c ∷ l) (first_line_lem v rest h.1))

strip_lem : (v : List ℕ) → ends_solid v ≡ true → strip v ≡ v
unfolding strip
strip_lem [] h = refl
strip_lem (c ∷ []) h = ground (arith, h)
strip_lem (c ∷ d ∷ s) h = ap (keep_unless_blank c) (strip_lem (d ∷ s) h)

no_nul_lem : (v : List ℕ) → All (λ c. (c ≢ 0) × (c ≢ b'\n')) v → no_nul v ≡ v
unfolding no_nul
no_nul_lem [] h = refl
no_nul_lem (c ∷ v) h =
    let n : (c == 0) ≡ false = ground (arith, h.0) in rw n (ap (λ l. c ∷ l) (no_nul_lem v h.1))

value_lem :
    (s : List ℕ) (x : ℕ) (v rest : List ℕ)
    → s ≡ v ++ (x ∷ rest)
    → file_value s ≡ some (no_nul (strip (first_line s)))
unfolding file_value
value_lem [] x v rest e = absurd (cons_lem v e)
  where
    cons_lem : (v : List ℕ) → [] ≡ v ++ (x ∷ rest) → ⊥
    cons_lem [] e = cc
    cons_lem (c ∷ v) e = cc
value_lem (c ∷ s) x v rest e = refl

-- A line of a file is the value that the variable gets, whatever stands behind the line, if it has no
-- NUL and does not end with a blank.
pub file_value_lem :
    (v rest : List ℕ)
    → All (λ c. (c ≢ 0) × (c ≢ b'\n')) v
    → ends_solid v ≡ true
    → file_value (v ++ (b'\n' ∷ rest)) ≡ some v
file_value_lem v rest h e =
    value_lem (v ++ (b'\n' ∷ rest)) b'\n' v rest refl
    ∙ ap (λ l. some (no_nul (strip l))) (first_line_lem v rest h)
    ∙ ap (λ l. some (no_nul l)) (strip_lem v e)
    ∙ ap some (no_nul_lem v h)

no_nul-NoNul : (s : List ℕ) → NoNul (no_nul s)
unfolding no_nul
no_nul-NoNul [] = tt
no_nul-NoNul (c ∷ s) = (ground arith, no_nul-NoNul s)

-- The strings that `edir` adds: one for each file that is read, in their order.
abbrev pub strings : List (Text × File) → List Text
strings [] = []
strings (([], f) ∷ files) = strings files
strings ((c ∷ name, bytes s) ∷ files) =
    if c == b'.' then strings files else entry (c ∷ name) (file_value s) ∷ strings files
strings (_ ∷ files) = strings files

-- No file that counts fails, and none is a directory unless these are skipped.
abbrev pub readable : Bool → List (Text × File) → Bool
readable skips [] = true
readable skips (([], f) ∷ files) = readable skips files
readable skips ((c ∷ name, bytes s) ∷ files) = readable skips files
readable skips ((c ∷ name, is_dir) ∷ files) = ((c == b'.') || skips) && readable skips files
readable skips ((c ∷ name, failed) ∷ files) = (c == b'.') && readable skips files

if_none :
    (b c : Bool) (o : Option (List ℕ))
    → (if b then if c then o else none else none) ≡ (if b && c then o else none)
if_none true c o = refl
if_none false c o = refl

-- `edir` ends the program when a file cannot be read, or is a directory and `env_dir` is not set;
-- else it adds for each file that does not begin with a dot, in their order, the string `name=value`
-- for its first line, and the name alone for an empty file, behind what was added before.
pub edir_lem :
    (skips : Bool) (files : List (Text × File)) (ss : List Text)
    → edir skips files (plus_of ss)
      ≡ (if readable skips files then some (plus_of (ss ++ strings files)) else none)
unfolding edir
edir_lem skips [] ss = rw append-nil refl
edir_lem skips (([], f) ∷ files) ss = edir_lem skips files ss
edir_lem skips ((c ∷ name, bytes s) ∷ files) ss = elim (Bool-cases (c == b'.')) [
  | inl y ↦ rw y (edir_lem skips files ss)
  | inr n ↦
      let e = entry (c ∷ name) (file_value s) in
      rw n (
        ap (edir skips files) (pathexec_env_lem ss (c ∷ name) (file_value s))
        ∙ edir_lem skips files (ss ++ (e ∷ []))
        ∙ ap (λ l. if readable skips files then some (plus_of l) else none)
            (append_assoc ss (e ∷ []) (strings files)))
]
edir_lem skips ((c ∷ name, is_dir) ∷ files) ss =
    rw (edir_lem skips files ss)
      (if_none ((c == b'.') || skips) (readable skips files) (some (plus_of (ss ++ strings files))))
edir_lem skips ((c ∷ name, failed) ∷ files) ss =
    rw (edir_lem skips files ss)
      (if_none (c == b'.') (readable skips files) (some (plus_of (ss ++ strings files))))
