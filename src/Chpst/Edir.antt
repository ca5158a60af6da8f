-- ===== src/Chpst/Edir.antt =====
-- utils/chpst.c: `edir`, which makes variables from the files of a directory.
use runit.Base.{ℕ, Bool, List, [], ◌∷◌, Option, none, some, if◌then◌else◌, ◌==◌, ◌||◌}
use runit.Chpst.Env.{Text, pathexec_env}

-- What `openreadclose` gives for a file: its bytes, the error `error_isdir`, or another one.
pub data File : Type 0 where
  bytes : List ℕ → File
  is_dir failed : File

-- `sa.len =byte_chr(sa.s, sa.len, '\n')`
unfoldable pub first_line : List ℕ → List ℕ
first_line [] = []
first_line (c ∷ s) = let rest = first_line s in if c == b'\n' then [] else c ∷ rest

abbrev pub is_blank : ℕ → Bool
is_blank c = (c == b' ') || (c == b'\t')

-- A byte before the rest, once blanks at the end are gone.
abbrev pub keep_unless_blank : ℕ → List ℕ → List ℕ
keep_unless_blank c [] = if is_blank c then [] else c ∷ []
keep_unless_blank c (d ∷ s) = c ∷ d ∷ s

-- The loop on blanks and tabs at the end.
unfoldable pub strip : List ℕ → List ℕ
strip [] = []
strip (c ∷ s) = keep_unless_blank c (strip s)

-- `if (! sa.s[i]) sa.s[i] ='\n'`
unfoldable pub no_nul : List ℕ → List ℕ
no_nul [] = []
no_nul (c ∷ s) = (if c == 0 then b'\n' else c) ∷ no_nul s

-- The value that a file gives: nothing for an empty one, which unsets the variable.
unfoldable pub file_value : List ℕ → Option Text
unfolding first_line strip no_nul
file_value [] = none
file_value (c ∷ s) = some (no_nul (strip (first_line (c ∷ s))))

-- The files of the directory in the order of `readdir`, to its end: what `plus` is then, or nothing
-- where the program ends with an error. `skips` is whether `env_dir` is set, which it is for `-e` only.
unfoldable pub edir : Bool → List (Text × File) → List ℕ → Option (List ℕ)
unfolding file_value pathexec_env
edir skips [] plus = some plus
edir skips (([], f) ∷ files) plus = edir skips files plus
edir skips ((c ∷ name, bytes s) ∷ files) plus =
    let next =
      edir skips files (if c == b'.' then plus else pathexec_env (c ∷ name) (file_value s) plus) in
    next
edir skips ((c ∷ name, is_dir) ∷ files) plus =
    let next = edir skips files plus in if (c == b'.') || skips then next else none
edir skips ((c ∷ name, failed) ∷ files) plus =
    let next = edir skips files plus in if c == b'.' then next else none
