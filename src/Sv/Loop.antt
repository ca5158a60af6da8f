-- ===== src/Sv/Loop.antt =====
-- sv/sv.c: the two loops of `main` over the services of the command line.
use runit.Base.{
  ℕ, zero, suc, ◌+◌, Bool, true, false, List, [], ◌∷◌, Option, none, some, if◌then◌else◌, ◌==◌,
  ◌&&◌, ◌||◌, not, ltb, ℤ, pos, negsuc,
}
use runit.Sv.Defs.{time_out, kill, Sv, Place, say, fail_with}
use runit.Sv.Get.{svstatus_get, first, control, control_acts, is_positive}
use runit.Sv.Check.{check}
use runit.Sv.Print.{svstatus_print, status}
use runit.Sv.Action.{Act, Plan}

-- What the system answers: `chdir` to a name, from `varservice` or from the current directory, by the
-- number of visits before; whether `fchdir` succeeds after a visit; and, by the number of rounds
-- before, whether `taia_approx(&tdiff) > wait`, and the second of `tnow` then.
pub record World : Type 0 where
  pub chdir : ℕ → Bool → List ℕ → Option Place
  pub fchdir : ℕ → Bool
  pub late : ℕ → Bool
  pub now : ℕ → ℕ

-- The program's record, the strings of the command line, with nothing for one that was set to 0, the
-- number of visits, and what was written to each service's control, the last one first.
pub record Run : Type 0 where
  pub sv : Sv
  pub visits : ℕ
  pub sent : List (List ℕ × List ℕ)

abbrev pub last_is_slash : List ℕ → Bool
last_is_slash [] = false
last_is_slash (c ∷ []) = c == b'/'
last_is_slash (c ∷ s) = last_is_slash s

abbrev pub not_path : ℕ → Bool
not_path c = not (c == b'/') && not (c == b'.')

-- The tests before `chdir(varservice)`, of the first loop and of the second one.
unfoldable pub from_varservice : List ℕ → Bool
from_varservice name = not_path (first name) && (not (first name == 0) && not (last_is_slash name))

unfoldable pub from_varservice_again : List ℕ → Bool
from_varservice_again name = not_path (first name)

-- What a step makes: it goes on with a record and something more, or the program ends.
pub data Next {ℓ} (A : Type ℓ) : Type ℓ where
  goes : A → Run → Next A
  ends : ℕ → Run → Next A

abbrev pub after {ℓ κ} : {A : Type ℓ} {B : Type κ} → Next A → (A → Run → Next B) → Next B
after (goes a m) f = f a m
after (ends n m) f = ends n m

abbrev pub with_sv : Sv → Run → Run
with_sv g m = record m { sv = g }

-- What went to a control.
abbrev pub log_sent : List ℕ → List ℕ → Run → Run
log_sent name [] m = m
log_sent name (c ∷ cs) m = record m { sent = (name, c ∷ cs) ∷ m.sent }

abbrev pub is_minus_one : ℤ → Bool
is_minus_one (negsuc zero) = true
is_minus_one _ = false

-- `act(acts)`: whether it does not return -1.
unfoldable pub act : Act → List ℕ → Place → List ℕ → Run → Next Bool
unfolding control status
act Act.nothing acts p name m = goes true m
act Act.control acts p name m =
    let (res, bytes, g) = control (p.look 0) acts m.sv in
    goes (not (is_minus_one res)) (log_sent name bytes (with_sv g m))
act Act.status acts p name m =
    let (code, g) = status p m.sv in
    elim code [ none ↦ goes true (with_sv g m) | some n ↦ ends n (with_sv g m) ]

-- `if (fchdir(curdir) == -1) fatal(…)`; a visit is over then.
unfoldable pub leave : World → Bool → Run → Next Bool
leave w keep m =
    if w.fchdir m.visits
    then goes keep (record m { visits = m.visits + 1 })
    else ends (if m.sv.lsb then 151 else 100) m

-- `fail("unable to change to service directory")`
abbrev cannot_enter : Run → Run
cannot_enter m = record m { sv = fail_with "unable to change to service directory" m.sv }

-- In a service's directory, if there is one.
unfoldable pub act_in : Plan → Option Place → List ℕ → Run → Next Bool
unfolding act
act_in plan none name m = goes false (cannot_enter m)
act_in plan (some p) name m = act plan.act plan.acts p name m

abbrev pub Slots : Type 0
Slots = List (Option (List ℕ))

-- A slot of `service`: a name, or nothing once it was set to 0.
abbrev pub slot : List ℕ → Bool → Option (List ℕ)
slot name keep = if keep then some name else none

-- The first loop.
unfoldable pub acting : World → Plan → List (List ℕ) → Run → Next Slots
unfolding act_in from_varservice leave
acting w plan [] m = goes [] m
acting w plan (name ∷ names) m =
    after (act_in plan (w.chdir m.visits (from_varservice name) name) name m) (λ keep m.
      after (leave w keep m)
        (λ keep m. after (acting w plan names m) (λ slots m. goes (slot name keep ∷ slots) m)))

-- `taia_approx(&tdiff) > wait` holds: the end of the wait for a service, with its name set to 0.
unfoldable pub give_up : Plan → Place → List ℕ → Run → Run
unfolding svstatus_get svstatus_print control_acts
give_up plan p name m =
    let g = say (if plan.kll then kill else time_out) m.sv in
    let (res, g₁) = svstatus_get (p.look 1) (first plan.acts) g in
    let g₂ =
      if is_positive res
      then (let (_, h) = svstatus_print p.down false g₁ in record h { rc = h.rc + 1 })
      else g₁ in
    let (_, bytes, g₃) = control_acts (p.look 2) (first plan.acts) (b'k' ∷ []) g₂ in
    if plan.kll then log_sent name bytes (with_sv g₃ m) else with_sv g₂ m

abbrev pub is_zero : ℤ → Bool
is_zero (pos zero) = true
is_zero _ = false

-- `cbk(acts)` and the time: whether the name is kept, and whether `done` becomes 0.
unfoldable pub wait_in : Plan → Bool → Option Place → List ℕ → Run → (Bool × Bool) × Run
unfolding check give_up
wait_in plan late none name m = ((false, false), cannot_enter m)
wait_in plan late (some p) name m =
    let (res, g) = check (p.look 0) plan.acts m.sv in
    let m₁ = with_sv g m in
    if is_zero res
    then if late then ((false, true), give_up plan p name m₁) else ((true, true), m₁)
    else ((false, false), m₁)

-- A pass of the second loop over the slots, and whether `done` is 0 after it.
unfoldable pub pass : World → Plan → Bool → Slots → Run → Next (Slots × Bool)
unfolding wait_in from_varservice_again leave
pass w plan late [] m = goes ([], false) m
pass w plan late (none ∷ slots) m =
    after (pass w plan late slots m) (λ r m. goes (none ∷ r.0, r.1) m)
pass w plan late (some name ∷ slots) m =
    let ((keep, pending), m₁) =
      wait_in plan late (w.chdir m.visits (from_varservice_again name) name) name m in
    after (leave w keep m₁) (λ keep m.
      after (pass w plan late slots m) (λ r m. goes (slot name keep ∷ r.0, pending || r.1) m))

-- `if (done) break`, or what comes after the pause.
abbrev pub again : Next (Slots × Bool) → (Slots → Run → Option (Next Slots)) → Option (Next Slots)
again (ends code m) k = some (ends code m)
again (goes (slots, false) m) k = some (goes slots m)
again (goes (slots, true) m) k = k slots m

-- `taia_now(&tnow)`
abbrev pub tick : ℕ → Run → Run
tick t m = let g = m.sv in record m { sv = record g { tnow = t } }

-- `for (;;)`, with `n` rounds behind, for at most `f` rounds; nothing if these are not enough.
unfoldable pub waiting : World → Plan → ℕ → ℕ → Slots → Run → Option (Next Slots)
unfolding pass
waiting w plan zero n slots m = none
waiting w plan (suc f) n slots m =
    again (pass w plan (w.late n) slots m)
      (λ slots m. waiting w plan f (n + 1) slots (tick (w.now (n + 1)) m))

-- The program from the first loop on, for a plan: the exit status, and the record at the end.
unfoldable pub finish : Next Slots → ℕ × Run
finish (ends code m) = (code, m)
finish (goes slots m) = (if ltb 99 m.sv.rc then 99 else m.sv.rc, m)

unfoldable pub wait_if : World → Plan → ℕ → Next Slots → Option (Next Slots)
unfolding waiting
wait_if w plan f (ends code m) = some (ends code m)
wait_if w plan f (goes slots m) =
    if plan.waits then waiting w plan f 0 slots m else some (goes slots m)

unfoldable pub finish_if : Option (Next Slots) → Option (ℕ × Run)
unfolding finish
finish_if none = none
finish_if (some r) = some (finish r)

unfoldable pub main : World → Plan → ℕ → List (List ℕ) → Run → Option (ℕ × Run)
unfolding acting wait_if finish_if
main w plan f names m = finish_if (wait_if w plan f (acting w plan names m))
