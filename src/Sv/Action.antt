-- ===== src/Sv/Action.antt =====
-- sv/sv.c: the `switch (*action)` of `main`, which turns the command line's word into a plan.
use mathlib.Core.Path.{subst}
use runit.Base.{
  ℕ, ◌≡◌, ◌≢◌, Bool, true, false, List, [], ◌∷◌, Option, none, some, if◌then◌else◌, ◌==◌, ◌&&◌,
  ◌||◌, not, All, arith, same, refl,
}
use runit.Runsv.Control.{Command, command}

-- `act`: `control`, `status`, or none.
pub data Act : Type 0 where
  control status nothing : Act

-- `act`, `acts`, `kll`, and whether `cbk` is `check`.
pub record Plan : Type 0 where
  pub act : Act
  pub acts : List ℕ
  pub kll : Bool
  pub waits : Bool

abbrev plan : List ℕ → Bool → Bool → Option Plan
plan acts kll waits = some (record { act = control; acts = acts; kll = kll; waits = waits })

-- The letters that stand for themselves.
abbrev is_letter : ℕ → Bool
is_letter c =
    c == b'u'
    || (c == b'd'
        || (c == b'o'
            || (c == b't'
                || (c == b'p'
                    || (c == b'h'
                        || (c == b'a'
                            || (c == b'i'
                                || (c == b'k'
                                    || (c == b'q'
                                        || (c == b'1' || (c == b'2' || c == b'c')))))))))))

-- The rest of the word after an `s`: `hutdown`, `tart`, `top`.
parse_s : Bool → Bool → List ℕ → Option Plan
parse_s lsb verbose rest =
    if same rest (b'h' ∷ b'u' ∷ b't' ∷ b'd' ∷ b'o' ∷ b'w' ∷ b'n' ∷ [])
    then plan (b'x' ∷ []) false true
    else if same rest (b't' ∷ b'a' ∷ b'r' ∷ b't' ∷ [])
    then plan (b'u' ∷ []) false true
    else if same rest (b't' ∷ b'o' ∷ b'p' ∷ [])
    then plan (b'd' ∷ []) false true
    else if lsb && not (same rest (b't' ∷ b'a' ∷ b't' ∷ b'u' ∷ b's' ∷ []))
    then none
    else some (record { act = status; acts = b's' ∷ []; kll = false; waits = false })

abbrev orce : List ℕ → List ℕ
orce rest = b'o' ∷ b'r' ∷ b'c' ∷ b'e' ∷ b'-' ∷ rest

abbrev shutdown : List ℕ
shutdown = b's' ∷ b'h' ∷ b'u' ∷ b't' ∷ b'd' ∷ b'o' ∷ b'w' ∷ b'n' ∷ []

-- After an `f`: `orce-reload`, `orce-restart`, `orce-shutdown`, `orce-stop`; else the usage.
parse_f : List ℕ → Option Plan
parse_f rest =
    if same rest (orce (b'r' ∷ b'e' ∷ b'l' ∷ b'o' ∷ b'a' ∷ b'd' ∷ []))
    then plan (b't' ∷ b'c' ∷ []) true true
    else if same rest (orce (b'r' ∷ b'e' ∷ b's' ∷ b't' ∷ b'a' ∷ b'r' ∷ b't' ∷ []))
    then plan (b't' ∷ b'c' ∷ b'u' ∷ []) true true
    else if same rest (orce shutdown)
    then plan (b'x' ∷ []) true true
    else if same rest (orce (b's' ∷ b't' ∷ b'o' ∷ b'p' ∷ []))
    then plan (b'd' ∷ []) true true
    else none

-- After an `r`: `estart`.
parse_r : List ℕ → Option Plan
parse_r rest =
    if same rest (b'e' ∷ b's' ∷ b't' ∷ b'a' ∷ b'r' ∷ b't' ∷ [])
    then plan (b't' ∷ b'c' ∷ b'u' ∷ []) false true
    else none

abbrev check_only : Plan
check_only = record { act = nothing; acts = b'C' ∷ []; kll = false; waits = true }

-- The cases from the single letters on.
parse_lower : Bool → Bool → ℕ → List ℕ → Option Plan
unfolding parse_s parse_r parse_f
parse_lower lsb verbose c rest =
    if is_letter c
    then plan (c ∷ []) false verbose
    else if c == b's'
    then parse_s lsb verbose rest
    else if c == b'r'
    then parse_r rest
    else if c == b'f'
    then parse_f rest
    else none

-- `none` is a call of `usage`, which does not return. An empty word has the character 0.
unfoldable pub parse_action : Bool → Bool → List ℕ → Option Plan
unfolding parse_lower same
parse_action lsb verbose [] = none
parse_action lsb verbose (c ∷ rest) =
    if (c == b'x') || (c == b'e')
    then plan (b'x' ∷ []) false verbose
    else if (c == b'X') || (c == b'E')
    then plan (b'x' ∷ []) true true
    else if c == b'D'
    then plan (b'd' ∷ []) true true
    else if c == b'T'
    then plan (b't' ∷ b'c' ∷ []) true true
    else if (c == b'c') && same rest (b'h' ∷ b'e' ∷ b'c' ∷ b'k' ∷ [])
    then some check_only
    else parse_lower lsb verbose c rest

-- A plan that the rest of the program can carry out.
pub record IsGood (p : Plan) : Type 0 where
  -- What is sent is known to `runsv`.
  pub known : p.act ≡ control → (p.acts ≢ []) × All (λ c. command c ≢ Command.unknown) p.acts
  -- `kll` is acted on in the waiting loop only.
  pub kills : p.kll ≡ true → (p.waits ≡ true) × (p.act ≡ control)
  -- Without anything to do there is something to wait for.
  pub waits : p.act ≡ nothing → p.waits ≡ true

abbrev Good : Option Plan → Type 0
Good none = Unit
Good (some p) = IsGood p

plan-Good :
    (acts : List ℕ) (kll waits : Bool)
    → acts ≢ []
    → All (λ c. command c ≢ Command.unknown) acts
    → (kll ≡ true → waits ≡ true)
    → Good (plan acts kll waits)
plan-Good acts kll waits n a k = record {
  known = λ e. (n, a);
  kills = λ e. (k e, refl);
  waits = λ e. cc;
}

parse_s-Good : (lsb verbose : Bool) (rest : List ℕ) → Good (parse_s lsb verbose rest)
unfolding parse_s command
parse_s-Good lsb verbose rest = ground arith

parse_r-Good : (rest : List ℕ) → Good (parse_r rest)
unfolding parse_r command
parse_r-Good rest = ground arith

parse_f-Good : (rest : List ℕ) → Good (parse_f rest)
unfolding parse_f command
parse_f-Good rest = ground arith

letter_known : (c : ℕ) → is_letter c ≡ true → command c ≢ Command.unknown
unfolding command
letter_known c h = ground arith

letter-Good : (c : ℕ) (verbose : Bool) → is_letter c ≡ true → Good (plan (c ∷ []) false verbose)
letter-Good c verbose h =
    plan-Good (c ∷ []) false verbose (λ e. cc) (letter_known c h, tt) (λ e. cc)

if-Good : (b : Bool) (x y : Option Plan) → (b ≡ true → Good x) → Good y → Good (if b then x else y)
if-Good true x y h k = h refl
if-Good false x y h k = k

lower-Good : (lsb verbose : Bool) (c : ℕ) (rest : List ℕ) → Good (parse_lower lsb verbose c rest)
unfolding parse_lower
lower-Good lsb verbose c rest =
    if-Good (is_letter c) (plan (c ∷ []) false verbose) _ (letter-Good c verbose) (
      if-Good (c == b's') (parse_s lsb verbose rest) _ (λ _. parse_s-Good lsb verbose rest)
        (if-Good (c == b'r') (parse_r rest) _ (λ _. parse_r-Good rest)
          (if-Good (c == b'f') (parse_f rest) none (λ _. parse_f-Good rest) tt)))

parse_action-Good : (lsb verbose : Bool) (w : List ℕ) → Good (parse_action lsb verbose w)
unfolding parse_action command
parse_action-Good lsb verbose [] = tt
parse_action-Good lsb verbose (c ∷ rest) =
    let x : Good (plan (b'x' ∷ []) false verbose) = ground arith in
    ground (arith, x, lower-Good lsb verbose c rest)

-- Every word that is no usage error makes a plan whose commands `runsv` knows, at least one if it
-- sends any, whose `kll` comes with waiting and sending, and which waits if it sends nothing and
-- prints no status.
pub parse_action-IsGood :
    (lsb verbose : Bool) (w : List ℕ) (p : Plan) → parse_action lsb verbose w ≡ some p → IsGood p
parse_action-IsGood lsb verbose w p e = subst Good e (parse_action-Good lsb verbose w)
