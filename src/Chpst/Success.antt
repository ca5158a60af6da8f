-- ===== src/Chpst/Success.antt =====
-- utils/chpst.c: which steps must succeed for the program to be run.
use runit.Base.{
  ◌≡◌, ◌⊎◌, ℤ, Bool, true, false, List, [], ◌∷◌, ◌++◌, Option, none, some, if◌then◌else◌, not,
  arith, refl, ◌∙◌, All, ◌↔◌, inl, inr, ap,
}
use mathlib.Core.Path.{subst}
use runit.Chpst.Env.{Text}
use runit.Chpst.Main.{
  Options, Step, run, if_some, if_set, preparations, goes_on, main, setsid, chroot, limit, edir,
  chdir, nice, euidgid, suidgid, slock, close, is_zero, first_arg,
}
use runit.Chpst.Runs.{runs, runs_or, preparations_quiet, main_ends}

-- What holds of an option's text, if it is given.
abbrev pub Each : Option Text → (Text → Type 0) → Type 0
Each none P = Unit
Each (some t) P = P t

abbrev pub When : Bool → Type 0 → Type 0
When true A = A
When false A = Unit

-- Every step that the options ask for succeeds, except for `setsid`, whose result is not looked at.
pub record Succeeds (ok : Step → Bool) (o : Options) : Type 0 where
  pub variables : Each o.env_dir (λ d. ok (edir d) ≡ true)
  pub root_entered : Each o.root (λ d. ok (chdir d) ≡ true)
  pub root_changed : Each o.root (λ d. ok chroot ≡ true)
  pub niced : When (not (is_zero o.nicelvl)) (ok (nice o.nicelvl) ≡ true)
  pub ids_exported : Each o.env_user (λ u. ok (euidgid u) ≡ true)
  pub ids_set : Each o.set_user (λ u. ok (suidgid u) ≡ true)
  pub locked : Each o.lock (λ f. ok (slock f o.lockdelay) ≡ true)
  pub input_closed : When o.nostdin (ok (close 0) ≡ true)
  pub output_closed : When o.nostdout (ok (close 1) ≡ true)
  pub error_closed : When o.nostderr (ok (close 2) ≡ true)
  pub limited : ok limit ≡ true

abbrev Pass : (Step → Bool) → List Step → Type 0
Pass ok ss = All (λ s. goes_on ok s ≡ true) ss

split : (ok : Step → Bool) (xs ys : List Step) → Pass ok (xs ++ ys) → Pass ok xs × Pass ok ys
split ok [] ys h = (tt, h)
split ok (x ∷ xs) ys h = let k = split ok xs ys h.1 in ((h.0, k.0), k.1)

join : (ok : Step → Bool) (xs ys : List Step) → Pass ok xs → Pass ok ys → Pass ok (xs ++ ys)
join ok [] ys h k = k
join ok (x ∷ xs) ys h k = (h.0, join ok xs ys h.1 k)

each_of :
    (ok : Step → Bool) (o : Option Text) (f : Text → Step)
    → Pass ok (if_some o (λ t. f t ∷ []))
    → Each o (λ t. goes_on ok (f t) ≡ true)
each_of ok none f h = tt
each_of ok (some t) f h = h.0

each_back :
    (ok : Step → Bool) (o : Option Text) (f : Text → Step)
    → Each o (λ t. goes_on ok (f t) ≡ true)
    → Pass ok (if_some o (λ t. f t ∷ []))
each_back ok none f h = tt
each_back ok (some t) f h = (h, tt)

root_of :
    (ok : Step → Bool) (o : Option Text)
    → Pass ok (if_some o (λ d. chdir d ∷ chroot ∷ []))
    → Each o (λ d. ok (chdir d) ≡ true) × Each o (λ d. ok chroot ≡ true)
root_of ok none h = (tt, tt)
root_of ok (some d) h = (h.0, h.1.0)

root_back :
    (ok : Step → Bool) (o : Option Text)
    → Each o (λ d. ok (chdir d) ≡ true)
    → Each o (λ d. ok chroot ≡ true)
    → Pass ok (if_some o (λ d. chdir d ∷ chroot ∷ []))
root_back ok none h k = tt
root_back ok (some d) h k = (h, (k, tt))

when_of :
    (ok : Step → Bool) (b : Bool) (s : Step) → Pass ok (if_set b s) → When b (goes_on ok s ≡ true)
when_of ok true s h = h.0
when_of ok false s h = tt

when_back :
    (ok : Step → Bool) (b : Bool) (s : Step) → When b (goes_on ok s ≡ true) → Pass ok (if_set b s)
when_back ok true s h = (h, tt)
when_back ok false s h = tt

nice_of :
    (ok : Step → Bool) (b : Bool) (n : ℤ)
    → Pass ok (if b then [] else nice n ∷ [])
    → When (not b) (ok (nice n) ≡ true)
nice_of ok true n h = tt
nice_of ok false n h = h.0

nice_back :
    (ok : Step → Bool) (b : Bool) (n : ℤ)
    → When (not b) (ok (nice n) ≡ true)
    → Pass ok (if b then [] else nice n ∷ [])
nice_back ok true n h = tt
nice_back ok false n h = (h, tt)

setsid_lem : (ok : Step → Bool) (b : Bool) → Pass ok (if_set b setsid)
setsid_lem ok true = (refl, tt)
setsid_lem ok false = tt

preparations-Succeeds : (ok : Step → Bool) (o : Options) → Pass ok (preparations o) → Succeeds ok o
unfolding preparations
preparations-Succeeds ok o h =
    let h₁ = split ok (if_set o.pgrp setsid) _ h in
    let h₂ = split ok (if_some o.env_dir (λ d. edir d ∷ [])) _ h₁.1 in
    let h₃ = split ok (if_some o.root (λ d. chdir d ∷ chroot ∷ [])) _ h₂.1 in
    let h₄ = split ok (if is_zero o.nicelvl then [] else nice o.nicelvl ∷ []) _ h₃.1 in
    let h₅ = split ok (if_some o.env_user (λ u. euidgid u ∷ [])) _ h₄.1 in
    let h₆ = split ok (if_some o.set_user (λ u. suidgid u ∷ [])) _ h₅.1 in
    let h₇ = split ok (if_some o.lock (λ f. slock f o.lockdelay ∷ [])) _ h₆.1 in
    let h₈ = split ok (if_set o.nostdin (close 0)) _ h₇.1 in
    let h₉ = split ok (if_set o.nostdout (close 1)) _ h₈.1 in
    let last = split ok (if_set o.nostderr (close 2)) _ h₉.1 in
    let root = root_of ok o.root h₃.0 in
    record {
      variables = each_of ok o.env_dir edir h₂.0;
      root_entered = root.0;
      root_changed = root.1;
      niced = nice_of ok (is_zero o.nicelvl) o.nicelvl h₄.0;
      ids_exported = each_of ok o.env_user euidgid h₅.0;
      ids_set = each_of ok o.set_user suidgid h₆.0;
      locked = each_of ok o.lock (λ f. slock f o.lockdelay) h₇.0;
      input_closed = when_of ok o.nostdin (close 0) h₈.0;
      output_closed = when_of ok o.nostdout (close 1) h₉.0;
      error_closed = when_of ok o.nostderr (close 2) last.0;
      limited = last.1.0;
    }

Succeeds-preparations : (ok : Step → Bool) (o : Options) → Succeeds ok o → Pass ok (preparations o)
unfolding preparations
Succeeds-preparations ok o h = join ok (if_set o.pgrp setsid) _ (setsid_lem ok o.pgrp) (
    join ok (if_some o.env_dir (λ d. edir d ∷ [])) _ (each_back ok o.env_dir edir h.variables) (
      join ok (if_some o.root (λ d. chdir d ∷ chroot ∷ [])) _
        (root_back ok o.root h.root_entered h.root_changed)
        (join ok (if is_zero o.nicelvl then [] else nice o.nicelvl ∷ []) _
          (nice_back ok (is_zero o.nicelvl) o.nicelvl h.niced)
          (join ok (if_some o.env_user (λ u. euidgid u ∷ [])) _
            (each_back ok o.env_user euidgid h.ids_exported)
            (join ok (if_some o.set_user (λ u. suidgid u ∷ [])) _
              (each_back ok o.set_user suidgid h.ids_set)
              (join ok (if_some o.lock (λ f. slock f o.lockdelay ∷ [])) _
                (each_back ok o.lock (λ f. slock f o.lockdelay) h.locked)
                (join ok (if_set o.nostdin (close 0)) _
                  (when_back ok o.nostdin (close 0) h.input_closed)
                  (join ok (if_set o.nostdout (close 1)) _
                    (when_back ok o.nostdout (close 1) h.output_closed)
                    (join ok (if_set o.nostderr (close 2)) (limit ∷ [])
                      (when_back ok o.nostderr (close 2) h.error_closed) (h.limited, tt))))))))))

run_runs : (done : List Step) (prog arg : Text) → runs (done ++ (run prog arg ∷ [])) ≡ true
run_runs done prog arg = let e = runs_or done (run prog arg ∷ []) in ground (arith, e)

-- `main` runs its program if and only if every step succeeds that the options ask for: reading the
-- directory of variables, `chdir` and `chroot` to the root, `nice`, exporting and setting the ids,
-- taking the lock, closing the standard descriptors, and setting the limits; the result of `setsid`
-- is not looked at. If it runs it, with the right first argument, that is its only and last step of
-- this kind.
pub main_runs_iff :
    (ok : Step → Bool) (o : Options) (prog : Text)
    → ((runs (main ok o prog) ≡ true) ↔ Succeeds ok o)
      × ((runs (main ok o prog) ≡ false)
          ⊎ ((done : List Step) × (main ok o prog
                ≡ done ++ (run prog (first_arg prog o.argv0) ∷ []))
              × (runs done ≡ false)))
main_runs_iff ok o prog = elim (main_ends ok o prog) [
  | inl (e, h) ↦
      let r = ap runs e ∙ run_runs (preparations o) prog (first_arg prog o.argv0) in
      (
        ((λ q. preparations-Succeeds ok o h), (λ k. r)),
        inr (preparations o, e, preparations_quiet o),
      )
  | inr (q, init, s, rest, e, d, f) ↦ (
    (
      (λ r. absurd (ground (arith, q))),
      (λ k.
          let p : Pass ok (init ++ (s ∷ rest)) = subst (Pass ok) d (Succeeds-preparations ok o k) in
          absurd (ground (arith, f, (split ok init (s ∷ rest) p).1.0))),
    ),
    inl q,
  )
]
