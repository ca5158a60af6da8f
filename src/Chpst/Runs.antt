-- ===== src/Chpst/Runs.antt =====
-- utils/chpst.c: when `main` comes to run the program.
use runit.Base.{
  ℕ, ◌≡◌, ◌⊎◌, ℤ, Bool, true, false, List, [], ◌∷◌, ◌++◌, Option, none, some, if◌then◌else◌, ◌||◌,
  arith, refl, ◌∙◌, All, Bool-cases, inl, inr, ap, sym,
}
use runit.Chpst.Env.{Text}
use runit.Chpst.Main.{
  Options, Step, run, if_some, if_set, preparations, goes_on, perform, main, setsid, chroot, limit,
  edir, chdir, nice, euidgid, suidgid, slock, close, is_zero, first_arg,
}

-- Whether the program is run.
abbrev pub runs : List Step → Bool
runs [] = false
runs (run f a ∷ ss) = true
runs (_ ∷ ss) = runs ss

pub runs_or : (xs ys : List Step) → runs (xs ++ ys) ≡ (runs xs || runs ys)
runs_or [] ys = refl
runs_or (setsid ∷ xs) ys = runs_or xs ys
runs_or (chroot ∷ xs) ys = runs_or xs ys
runs_or (limit ∷ xs) ys = runs_or xs ys
runs_or (edir t ∷ xs) ys = runs_or xs ys
runs_or (chdir t ∷ xs) ys = runs_or xs ys
runs_or (nice n ∷ xs) ys = runs_or xs ys
runs_or (euidgid t ∷ xs) ys = runs_or xs ys
runs_or (suidgid t ∷ xs) ys = runs_or xs ys
runs_or (slock t d ∷ xs) ys = runs_or xs ys
runs_or (close n ∷ xs) ys = runs_or xs ys
runs_or (run f a ∷ xs) ys = refl

runs-append : (xs ys : List Step) → runs xs ≡ false → runs (xs ++ ys) ≡ runs ys
runs-append xs ys h = runs_or xs ys ∙ ap (λ b. b || runs ys) h

set_quiet : (b : Bool) (n : ℕ) → runs (if_set b (close n)) ≡ false
set_quiet true n = refl
set_quiet false n = refl

pgrp_quiet : (b : Bool) → runs (if_set b setsid) ≡ false
pgrp_quiet true = refl
pgrp_quiet false = refl

some_quiet :
    (o : Option Text) (f : Text → List Step)
    → ((t : Text) → runs (f t) ≡ false)
    → runs (if_some o f) ≡ false
some_quiet none f h = refl
some_quiet (some t) f h = h t

nice_quiet : (b : Bool) (n : ℤ) → runs (if b then [] else nice n ∷ []) ≡ false
nice_quiet true n = refl
nice_quiet false n = refl

-- The preparations run no program.
pub preparations_quiet : (o : Options) → runs (preparations o) ≡ false
unfolding preparations
preparations_quiet o =
    runs-append (if_set o.pgrp setsid) _ (pgrp_quiet o.pgrp)
    ∙ runs-append (if_some o.env_dir (λ d. edir d ∷ [])) _ (some_quiet o.env_dir _ (λ t. refl))
    ∙ runs-append (if_some o.root (λ d. chdir d ∷ chroot ∷ [])) _ (some_quiet o.root _ (λ t. refl))
    ∙ runs-append (if is_zero o.nicelvl then [] else nice o.nicelvl ∷ []) _
        (nice_quiet (is_zero o.nicelvl) o.nicelvl)
    ∙ runs-append (if_some o.env_user (λ u. euidgid u ∷ [])) _ (some_quiet o.env_user _ (λ t. refl))
    ∙ runs-append (if_some o.set_user (λ u. suidgid u ∷ [])) _ (some_quiet o.set_user _ (λ t. refl))
    ∙ runs-append (if_some o.lock (λ f. slock f o.lockdelay ∷ [])) _
        (some_quiet o.lock _ (λ t. refl))
    ∙ runs-append (if_set o.nostdin (close 0)) _ (set_quiet o.nostdin 0)
    ∙ runs-append (if_set o.nostdout (close 1)) _ (set_quiet o.nostdout 1)
    ∙ runs-append (if_set o.nostderr (close 2)) _ (set_quiet o.nostderr 2)

-- All steps succeed, or the list ends with the first one that does not.
Performs : (Step → Bool) → List Step → List Step × Bool → Type 0
Performs ok ss (done, true) = (done ≡ ss) × All (λ s. goes_on ok s ≡ true) ss
Performs ok ss (done, false) =
    (init : List Step) × (s : Step) × (rest : List Step) × (done ≡ init ++ (s ∷ []))
    × (ss ≡ init ++ (s ∷ rest))
    × All (λ s. goes_on ok s ≡ true) init
    × (goes_on ok s ≡ false)

perform_step :
    (ok : Step → Bool) (s : Step) (ss : List Step) (r : List Step × Bool)
    → goes_on ok s ≡ true
    → Performs ok ss r
    → Performs ok (s ∷ ss) (s ∷ r.0, r.1)
unfolding Performs
perform_step ok s ss (done, true) g h = (ap (λ l. s ∷ l) h.0, (g, h.1))
perform_step ok s ss (done, false) g (init, x, rest, a, b, c, d) =
    (s ∷ init, x, rest, ap (λ l. s ∷ l) a, ap (λ l. s ∷ l) b, (g, c), d)

perform-Performs : (ok : Step → Bool) (ss : List Step) → Performs ok ss (perform ok ss)
unfolding Performs perform
perform-Performs ok [] = (refl, tt)
perform-Performs ok (s ∷ ss) = elim (Bool-cases (goes_on ok s)) [
  | inl y ↦ rw y (perform_step ok s ss (perform ok ss) y (perform-Performs ok ss))
  | inr n ↦ rw n ([], s, ss, refl, refl, tt, n)
]

cut_quiet :
    (init : List Step) (s : Step) (rest : List Step)
    → runs (init ++ (s ∷ rest)) ≡ false
    → runs (init ++ (s ∷ [])) ≡ false
cut_quiet init s rest h =
    let a = runs_or init (s ∷ rest) in
    let b = runs_or init (s ∷ []) in let c = runs_or (s ∷ []) rest in ground (arith, a, b, c, h)

-- What comes of the steps that were performed.
Ends : (Step → Bool) → Options → Text → List Step × Bool → Type 0
Ends ok o prog (done, all) =
    let steps = if all then done ++ (run prog (first_arg prog o.argv0) ∷ []) else done in
    ((steps ≡ preparations o ++ (run prog (first_arg prog o.argv0) ∷ []))
      × All (λ s. goes_on ok s ≡ true) (preparations o))
    ⊎ ((runs steps ≡ false)
        × (init : List Step) × (s : Step) × (rest : List Step) × (steps ≡ init ++ (s ∷ []))
        × (preparations o ≡ init ++ (s ∷ rest))
        × (goes_on ok s ≡ false))

ends_lem :
    (ok : Step → Bool) (o : Options) (prog : Text) (r : List Step × Bool)
    → Performs ok (preparations o) r
    → Ends ok o prog r
unfolding Performs Ends
ends_lem ok o prog (done, true) h =
    inl (ap (λ l. l ++ (run prog (first_arg prog o.argv0) ∷ [])) h.0, h.1)
ends_lem ok o prog (done, false) (init, s, rest, a, b, c, d) = inr (
  ap runs a ∙ cut_quiet init s rest (ap runs (sym b) ∙ preparations_quiet o),
  init,
  s,
  rest,
  a,
  b,
  d,
)

-- `main` takes all its preparations in their order and then runs the program, and all of them but
-- `setsid` have succeeded; or it ends at the first one that fails, with none behind it, and the
-- program is not run.
pub main_ends :
    (ok : Step → Bool) (o : Options) (prog : Text)
    → ((main ok o prog ≡ preparations o ++ (run prog (first_arg prog o.argv0) ∷ []))
        × All (λ s. goes_on ok s ≡ true) (preparations o))
      ⊎ ((runs (main ok o prog) ≡ false)
          × (init : List Step) × (s : Step) × (rest : List Step) × (main ok o prog
              ≡ init ++ (s ∷ []))
          × (preparations o ≡ init ++ (s ∷ rest))
          × (goes_on ok s ≡ false))
unfolding main Ends
main_ends ok o prog =
    ends_lem ok o prog (perform ok (preparations o)) (perform-Performs ok (preparations o))
