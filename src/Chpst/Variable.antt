-- ===== src/Chpst/Variable.antt =====
-- libunix/pathexec_env.c: a variable that is set or unset, from `pathexec_env` to the environment.
use runit.Base.{
  ℕ, ◌-◌, ◌≡◌, ◌≢◌, Bool, true, false, List, [], ◌∷◌, ◌++◌, Option, none, some, ◌==◌, take, drop,
  arith, refl, ◌∙◌, sym, ap, All, All-append, append_assoc, append-nil,
}
use runit.Chpst.Env.{
  Text, pathexec_env, split_at, is_named, unset, change, strings_from, change_all, pathexec_env_run,
  is_empty,
}
use runit.Chpst.Counts.{count, unset_named, unset_other}

-- The string that `pathexec_env` adds, and what the environment gets from it.
abbrev pub entry : Text → Option Text → Text
entry name none = name
entry name (some v) = name ++ (b'=' ∷ v)

abbrev pub added : Text → Option Text → List Text
added name none = []
added name (some v) = (name ++ (b'=' ∷ v)) ∷ []

-- `plus` when these strings were added.
abbrev pub plus_of : List Text → List ℕ
plus_of [] = []
plus_of (s ∷ ss) = s ++ (0 ∷ plus_of ss)

abbrev pub NoNul : Text → Type 0
NoNul s = All (λ c. c ≢ 0) s

string_lem :
    (acc s plus : List ℕ)
    → NoNul s
    → strings_from acc (s ++ (0 ∷ plus)) ≡ (acc ++ s) ∷ strings_from [] plus
unfolding strings_from
string_lem acc [] plus h = rw append-nil refl
string_lem acc (c ∷ s) plus h =
    let n : (c == 0) ≡ false = ground (arith, h.0) in
    rw n (
      string_lem (acc ++ (c ∷ [])) s plus h.1
      ∙ ap (λ t. t ∷ strings_from [] plus) (append_assoc acc (c ∷ []) s))

strings_lem : (ss : List Text) → All NoNul ss → strings_from [] (plus_of ss) ≡ ss
unfolding strings_from
strings_lem [] h = refl
strings_lem (s ∷ ss) h = string_lem [] s (plus_of ss) h.0 ∙ ap (λ ts. s ∷ ts) (strings_lem ss h.1)

plus_of-snoc :
    (ss : List Text) (s : Text) → plus_of ss ++ (s ++ (0 ∷ [])) ≡ plus_of (ss ++ (s ∷ []))
plus_of-snoc [] s = refl
plus_of-snoc (t ∷ ss) s =
    append_assoc t (0 ∷ plus_of ss) (s ++ (0 ∷ [])) ∙ ap (λ l. t ++ (0 ∷ l)) (plus_of-snoc ss s)

pub pathexec_env_lem :
    (ss : List Text) (name : Text) (v : Option Text)
    → pathexec_env name v (plus_of ss) ≡ plus_of (ss ++ (entry name v ∷ []))
unfolding pathexec_env
pathexec_env_lem ss name none = plus_of-snoc ss name
pathexec_env_lem ss name (some v) =
    ap (λ l. plus_of ss ++ l) (sym (append_assoc name (b'=' ∷ v) (0 ∷ [])))
    ∙ plus_of-snoc ss (name ++ (b'=' ∷ v))

change_all-snoc :
    (ss : List Text) (s : Text) (env : List Text)
    → change_all (ss ++ (s ∷ [])) env ≡ change s (change_all ss env)
unfolding change_all
change_all-snoc [] s env = refl
change_all-snoc (t ∷ ss) s env = change_all-snoc ss s (change t env)

-- The name of a variable.
abbrev pub IsName : Text → Type 0
IsName name = All (λ c. (c ≢ 0) × (c ≢ b'=')) name

-- What comes behind a name begins with a `=`, or nothing comes.
split_lem :
    (name : Text) (v : Option Text)
    → IsName name
    → (take (split_at (entry name v)) (entry name v) ≡ name)
      × (is_empty (drop (split_at (entry name v)) (entry name v))
          ≡ (elim v [ none ↦ true | some _ ↦ false ]))
unfolding split_at
split_lem [] none h = (refl, refl)
split_lem [] (some v) h = (refl, refl)
split_lem (c ∷ name) none h =
    let n : (c == b'=') ≡ false = ground (arith, h.0) in
    let k = split_lem name none h.1 in rw n (ap (λ l. c ∷ l) k.0, k.1)
split_lem (c ∷ name) (some v) h =
    let n : (c == b'=') ≡ false = ground (arith, h.0) in
    let k = split_lem name (some v) h.1 in rw n (ap (λ l. c ∷ l) k.0, k.1)

change_lem :
    (name : Text) (v : Option Text) (env : List Text)
    → IsName name
    → change (entry name v) env ≡ unset name env ++ added name v
unfolding change
change_lem name none env h =
    let k = split_lem name none h in rw (k.0, k.1) (sym (append-nil (unset name env)))
change_lem name (some v) env h = let k = split_lem name (some v) h in rw (k.0, k.1) refl

entry-NoNul :
    (name : Text) (v : Option Text) → IsName name → All NoNul (added name v) → NoNul (entry name v)
entry-NoNul [] none h k = tt
entry-NoNul (c ∷ name) none h k = (h.0.0, entry-NoNul name none h.1 tt)
entry-NoNul name (some v) h k = k.0

-- A variable is set or unset behind other changes, without a NUL or a `=` in its name and with no NUL
-- in the values: the new environment is the one before with one string of the name fewer, if there
-- was one, and with the strings of a test that no string of the name passes as often as before; at its end stands the new string, if a
-- value was given. So where the name stood at most once, it stands there just with the new value.
pub variable_lem :
    (ss : List Text) (name : Text) (v : Option Text) (env : List Text)
    → All NoNul ss
    → IsName name
    → All NoNul (added name v)
    → (p : Text → Bool) → ((e : Text) → is_named name e ≡ true → p e ≡ false)
    → (rest : List Text) × (pathexec_env_run (pathexec_env name v (plus_of ss)) env
        ≡ rest ++ added name v)
      × (count (is_named name) rest ≡ count (is_named name) (pathexec_env_run (plus_of ss) env) - 1)
      × (count p rest ≡ count p (pathexec_env_run (plus_of ss) env))
unfolding pathexec_env_run
variable_lem ss name v env hs hn hv p hp =
    let before = change_all (strings_from [] (plus_of ss)) env in
    let n = entry-NoNul name v hn hv in
    let old : before ≡ change_all ss env = ap (λ l. change_all l env) (strings_lem ss hs) in
    let new : strings_from [] (pathexec_env name v (plus_of ss)) ≡ ss ++ (entry name v ∷ []) =
      ap (strings_from []) (pathexec_env_lem ss name v)
      ∙ strings_lem (ss ++ (entry name v ∷ []))
          (All-append NoNul ss (entry name v ∷ []) hs (n, tt)) in
    (
      unset name before,
      ap (λ l. change_all l env) new
          ∙ change_all-snoc ss (entry name v) env
          ∙ ap (change (entry name v)) (sym old)
          ∙ change_lem name v before hn,
      unset_named name before,
      unset_other p name before hp,
    )
