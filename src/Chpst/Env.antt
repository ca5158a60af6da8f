-- ===== src/Chpst/Env.antt =====
-- libunix/pathexec_env.c: the changes of the environment, and how they are made.
use runit.Base.{
  ℕ, suc, Bool, true, false, List, [], ◌∷◌, ◌++◌, Option, none, some, if◌then◌else◌, ◌==◌, take,
  drop,
}

-- A string of the environment, `name=value`, as its bytes without the NUL.
abbrev pub Text : Type 0
Text = List ℕ

-- `pathexec_env(s, t)` with the memory there: what is added to `plus`; nothing for a `t` of 0.
unfoldable pub pathexec_env : Text → Option Text → List ℕ → List ℕ
pathexec_env s none plus = plus ++ (s ++ (0 ∷ []))
pathexec_env s (some t) plus = plus ++ (s ++ (b'=' ∷ (t ++ (0 ∷ []))))

-- `str_chr(plus.s + j, '=')`, on one of the strings of `plus`.
unfoldable pub split_at : Text → ℕ
split_at [] = 0
split_at (c ∷ s) = let rest = split_at s in if c == b'=' then 0 else suc rest

-- `byte_equal(plus.s + j, split, e[t])`, and `e[t][split] == '='`.
unfoldable pub is_named : Text → Text → Bool
is_named [] [] = false
is_named [] (c ∷ s) = c == b'='
is_named (a ∷ n) [] = false
is_named (a ∷ n) (c ∷ s) = let rest = is_named n s in if a == c then rest else false

-- The last element comes to the front.
abbrev pub behind_first : Text → List Text → List Text
behind_first x [] = x ∷ []
behind_first x (l ∷ es) = l ∷ x ∷ es

unfoldable pub last_first : List Text → List Text
last_first [] = []
last_first (x ∷ []) = x ∷ []
last_first (x ∷ y ∷ es) = behind_first x (last_first (y ∷ es))

-- `--elen; e[t] = e[elen]; break;` at the first string of the name.
unfoldable pub unset : Text → List Text → List Text
unfolding last_first is_named
unset name [] = []
unset name (e ∷ es) =
    let rest = unset name es in if is_named name e then last_first es else e ∷ rest

abbrev pub is_empty : Text → Bool
is_empty [] = true
is_empty _ = false

-- A string of `plus`: the old one of its name goes, and it comes if it has a `=`.
unfoldable pub change : Text → List Text → List Text
unfolding split_at unset
change s env =
    let split = split_at s in
    let env₁ = unset (take split s) env in
    if is_empty (drop split s) then env₁ else env₁ ++ (s ∷ [])

-- The strings of `plus`, each up to its NUL; what stands behind the last NUL is none.
unfoldable pub strings_from : Text → List ℕ → List Text
strings_from s [] = []
strings_from s (c ∷ plus) =
    if c == 0 then s ∷ strings_from [] plus else strings_from (s ++ (c ∷ [])) plus

unfoldable pub change_all : List Text → List Text → List Text
unfolding change
change_all [] env = env
change_all (s ∷ ss) env = change_all ss (change s env)

-- The environment that `pathexec_env_run` gives to the program.
unfoldable pub pathexec_env_run : List ℕ → List Text → List Text
unfolding strings_from change_all
pathexec_env_run plus env = change_all (strings_from [] plus) env
