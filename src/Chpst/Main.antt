-- ===== src/Chpst/Main.antt =====
-- utils/chpst.c: `main` from the options on.
use runit.Base.{
  ℕ, zero, suc, Bool, true, false, List, [], ◌∷◌, ◌++◌, Option, none, some, if◌then◌else◌, ◌==◌, ℤ,
  pos, negsuc,
}
use runit.Chpst.Env.{Text}
use runit.Chpst.Limit.{Limits, number, to_long}

-- The globals that the options set; a pointer of 0 is nothing.
pub record Options : Type 0 where
  pub set_user : Option Text
  pub env_user : Option Text
  pub argv0 : Option Text
  pub env_dir : Option Text
  pub root : Option Text
  pub lock : Option Text
  pub lockdelay : Bool
  pub verbose : Bool
  pub pgrp : Bool
  pub nostdin : Bool
  pub nostdout : Bool
  pub nostderr : Bool
  pub nicelvl : ℤ
  pub limits : Limits

-- `nicelvl =ul; nicelvl *=-1;`
abbrev negate : ℤ → ℤ
negate (pos zero) = pos 0
negate (pos (suc n)) = negsuc n
negate (negsuc n) = pos (suc n)

-- The argument of `-n`.
abbrev nice_level : Text → Option ℤ
nice_level t = elim t [
  | [] ↦ elim (number []) [ none ↦ none | some ul ↦ some (to_long ul) ]
  | c ∷ s ↦
      if c == b'-'
      then elim (number s) [ none ↦ none | some ul ↦ some (negate (to_long ul)) ]
      else elim (number (if c == b'+' then s else c ∷ s)) [
        | none ↦ none
        | some ul ↦ some (to_long ul)
      ]
]

-- A limit from the argument.
abbrev limit_option : Text → Options → (ℤ → Limits → Limits) → Option Options
limit_option t o f = elim (number t) [
  | none ↦ none
  | some ul ↦ let ls = o.limits in some (record o { limits = f (to_long ul) ls })
]

abbrev lock_option : Text → Bool → Options → Option Options
lock_option t delay o = elim o.lock [
  | none ↦ some (record o { lock = some t; lockdelay = delay })
  | some _ ↦ none
]

-- The options that set a limit.
limit_letter : ℕ → Text → Options → Option Options
unfolding number to_long
limit_letter c t o =
    if c == b'm'
    then limit_option t o (λ l ls. record ls { limits = l; limitl = l; limita = l; limitd = l })
    else if c == b'd'
    then limit_option t o (λ l ls. record ls { limitd = l })
    else if c == b'o'
    then limit_option t o (λ l ls. record ls { limito = l })
    else if c == b'p'
    then limit_option t o (λ l ls. record ls { limitp = l })
    else if c == b'f'
    then limit_option t o (λ l ls. record ls { limitf = l })
    else if c == b'c'
    then limit_option t o (λ l ls. record ls { limitc = l })
    else if c == b'r'
    then limit_option t o (λ l ls. record ls { limitr = l })
    else if c == b't'
    then limit_option t o (λ l ls. record ls { limitt = l })
    else none

-- The options without an argument.
flag_letter : ℕ → Options → Option Options
flag_letter c o =
    if c == b'v'
    then some (record o { verbose = true })
    else if c == b'P'
    then some (record o { pgrp = true })
    else if c == b'0'
    then some (record o { nostdin = true })
    else if c == b'1'
    then some (record o { nostdout = true })
    else if c == b'2'
    then some (record o { nostderr = true })
    else none

abbrev is_flag : ℕ → Bool
is_flag c =
    if c == b'v'
    then true
    else if c == b'P'
    then true
    else if c == b'0'
    then true
    else if c == b'1'
    then true
    else c == b'2'

-- A pass of the loop on `getopt`: `opt` and `optarg`; nothing is a call of `usage`.
unfoldable pub option : ℕ → Text → Options → Option Options
unfolding limit_letter flag_letter number to_long
option c t o =
    if c == b'u'
    then some (record o { set_user = some t })
    else if c == b'U'
    then some (record o { env_user = some t })
    else if c == b'b'
    then some (record o { argv0 = some t })
    else if c == b'e'
    then some (record o { env_dir = some t })
    else if c == b'/'
    then some (record o { root = some t })
    else if c == b'n'
    then elim (nice_level t) [ none ↦ none | some n ↦ some (record o { nicelvl = n }) ]
    else if c == b'l'
    then lock_option t true o
    else if c == b'L'
    then lock_option t false o
    else if is_flag c
    then flag_letter c o
    else limit_letter c t o

-- What `getopt` gives, one after the other.
unfoldable pub options : List (ℕ × Text) → Options → Option Options
unfolding option
options [] o = some o
options ((c, t) ∷ opts) o = elim (option c t o) [ none ↦ none | some o₁ ↦ options opts o₁ ]

-- What `main` does once it has its options.
pub data Step : Type 0 where
  setsid chroot limit : Step
  edir chdir : Text → Step
  nice : ℤ → Step
  euidgid suidgid : Text → Step
  slock : Text → Bool → Step
  close : ℕ → Step
  -- The file, and `argv[0]`.
  run : Text → Text → Step

abbrev pub if_some : Option Text → (Text → List Step) → List Step
if_some none f = []
if_some (some t) f = f t

abbrev pub if_set : Bool → Step → List Step
if_set b s = if b then s ∷ [] else []

abbrev pub is_zero : ℤ → Bool
is_zero (pos n) = n == 0
is_zero (negsuc n) = false

abbrev pub first_arg : Text → Option Text → Text
first_arg prog none = prog
first_arg prog (some a) = a

-- The steps before the program is run.
unfoldable pub preparations : Options → List Step
preparations o =
    if_set o.pgrp setsid
    ++ (if_some o.env_dir (λ d. edir d ∷ [])
        ++ (if_some o.root (λ d. chdir d ∷ chroot ∷ [])
            ++ ((if is_zero o.nicelvl then [] else nice o.nicelvl ∷ [])
                ++ (if_some o.env_user (λ u. euidgid u ∷ [])
                    ++ (if_some o.set_user (λ u. suidgid u ∷ [])
                        ++ (if_some o.lock (λ f. slock f o.lockdelay ∷ [])
                            ++ (if_set o.nostdin (close 0)
                                ++ (if_set o.nostdout (close 1)
                                    ++ (if_set o.nostderr (close 2) ++ (limit ∷ []))))))))))

-- Whether the program ends with an error when a step fails; `setsid` is not looked at.
abbrev pub goes_on : (Step → Bool) → Step → Bool
goes_on ok setsid = true
goes_on ok s = ok s

-- The steps up to the first one that fails, and whether there is none.
unfoldable pub perform : (Step → Bool) → List Step → List Step × Bool
perform ok [] = ([], true)
perform ok (s ∷ ss) =
    let (done, all) = perform ok ss in if goes_on ok s then (s ∷ done, all) else (s ∷ [], false)

-- The steps that `main` takes for its options and the program.
unfoldable pub main : (Step → Bool) → Options → Text → List Step
unfolding preparations perform
main ok o prog =
    let (done, all) = perform ok (preparations o) in
    if all then done ++ (run prog (first_arg prog o.argv0) ∷ []) else done
