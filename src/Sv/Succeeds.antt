-- ===== src/Sv/Succeeds.antt =====
-- sv/sv.c: what the exit status 0 of `main` tells of the messages.
use mathlib.Core.Path.{subst}
use runit.Base.{
  ℕ, zero, suc, ◌+◌, ◌≡◌, ◌≢◌, inl, inr, Bool, true, false, List, [], ◌∷◌, Option, none, some,
  arith, Bool-cases,
}
use runit.Sv.Action.{Act, Plan}
use runit.Sv.Loop.{
  World, Run, Next, goes, ends, Slots, leave, wait_in, pass, again, tick, waiting, acting, finish,
  wait_if, finish_if, main, from_varservice_again,
}
use runit.Sv.Counts.{bad, Counts}
use runit.Sv.Tells.{Right, after-Right, leave-Right, acting-Right, wait_in-Counts}

pass-Right :
    (w : World) (plan : Plan) (late : Bool) (slots : Slots) (m : Run)
    → Counts m.sv
    → Right (pass w plan late slots m)
unfolding pass
pass-Right w plan late [] m c = c
pass-Right w plan late (none ∷ slots) m c =
    after-Right (pass w plan late slots m) _ (pass-Right w plan late slots m c) (λ r m h. h)
pass-Right w plan late (some name ∷ slots) m c =
    let o = w.chdir m.visits (from_varservice_again name) name in
    let r = wait_in plan late o name m in
    after-Right (leave w r.0.0 r.1) _
      (leave-Right w r.0.0 r.1 (wait_in-Counts plan late o name m c))
      (λ keep m h.
        after-Right (pass w plan late slots m) _ (pass-Right w plan late slots m h) (λ s m h. h))

Results : Option (Next Slots) → Type 0
Results none = Unit
Results (some x) = Right x

again-Results :
    (x : Next (Slots × Bool)) (k : Slots → Run → Option (Next Slots))
    → Right x
    → ((s : Slots) (m : Run) → Counts m.sv → Results (k s m))
    → Results (again x k)
unfolding Results
again-Results (ends n m) k h f = h
again-Results (goes (s, false) m) k h f = h
again-Results (goes (s, true) m) k h f = f s m h

tick-Counts : (t : ℕ) (m : Run) → Counts m.sv → Counts (tick t m).sv
tick-Counts t m h = record { at_least = h.at_least; at_most = h.at_most }

waiting-Results :
    (w : World) (plan : Plan) (f n : ℕ) (slots : Slots) (m : Run)
    → Counts m.sv
    → Results (waiting w plan f n slots m)
unfolding waiting Results
waiting-Results w plan zero n slots m c = tt
waiting-Results w plan (suc f) n slots m c =
    again-Results (pass w plan (w.late n) slots m) _ (pass-Right w plan (w.late n) slots m c)
      (λ s m h.
        waiting-Results w plan f (n + 1) s (tick (w.now (n + 1)) m)
          (tick-Counts (w.now (n + 1)) m h))

wait_if-Results :
    (w : World) (plan : Plan) (f : ℕ) (x : Next Slots) → Right x → Results (wait_if w plan f x)
unfolding wait_if Results
wait_if-Results w plan f (ends n m) h = h
wait_if-Results w plan f (goes s m) h = elim (Bool-cases plan.waits) [
  | inl y ↦ rw y (waiting-Results w plan f 0 s m h)
  | inr n ↦ rw n h
]

-- What the end tells.
abbrev Told : Option (ℕ × Run) → Type 0
Told none = Unit
Told (some (code, m)) = Counts m.sv × (code ≡ 0 → m.sv.rc ≡ 0)

finish_if-Told : (o : Option (Next Slots)) → Results o → Told (finish_if o)
unfolding finish_if Results finish
finish_if-Told none h = tt
finish_if-Told (some (ends n m)) h = (h.0, λ e. absurd (omega (arith, h.1)))
finish_if-Told (some (goes s m)) h = (h, λ e. ground arith)

-- Where `main` controls or only waits: at its end, `rc` is at least the number of the messages of
-- failure and warning on the standard output, and at most that number and the number of services that
-- were given up; and with the exit status 0 there was no such message on the standard output. The
-- warnings on the standard error, of the files down and check, do not count in `rc`, so that they can
-- come with the exit status 0.
pub exit_zero :
    (w : World) (plan : Plan) (f : ℕ) (names : List (List ℕ)) (m m' : Run) (code : ℕ)
    → plan.act ≢ Act.status
    → Counts m.sv
    → main w plan f names m ≡ some (code, m')
    → Counts m'.sv × (code ≡ 0 → bad m'.sv.lines ≡ 0)
unfolding main
exit_zero w plan f names m m' code n c e =
    let t : Told (some (code, m')) = subst Told e (
      finish_if-Told (wait_if w plan f (acting w plan names m))
        (wait_if-Results w plan f (acting w plan names m) (acting-Right w plan names m n c))) in
    (t.0, λ z. omega (arith, t.0.at_least, t.1 z))
