-- ===== src/Sv/Slash.antt =====
-- sv/sv.c: the two loops of `main` look for a name with a slash at its end in two places.
use runit.Base.{
  ℕ, ◌+◌, ◌≡◌, Bool, true, false, List, [], ◌∷◌, none, some, if◌then◌else◌, arith, refl, ltb,
}
use runit.Sv.Defs.{Place, fail_with}
use runit.Sv.Get.{control, first}
use runit.Sv.Action.{Act, Plan}
use runit.Sv.Loop.{
  World, Run, goes, leave, wait_in, pass, waiting, acting, finish, wait_if, finish_if, main, act,
  act_in, from_varservice, from_varservice_again, not_path, last_is_slash, log_sent, with_sv,
  is_minus_one,
}

from_here : (name : List ℕ) → last_is_slash name ≡ true → from_varservice name ≡ false
unfolding from_varservice
from_here name l = ground (arith, l)

from_there : (name : List ℕ) → not_path (first name) ≡ true → from_varservice_again name ≡ true
unfolding from_varservice_again
from_there name n = n

leaves :
    (w : World) (keep : Bool) (m : Run)
    → w.fchdir m.visits ≡ true
    → leave w keep m ≡ goes keep (record m { visits = m.visits + 1 })
unfolding leave
leaves w keep m h = rw h refl

-- The record after `control` in the one directory, and after the other could not be entered.
abbrev pub controlled : Plan → Place → List ℕ → Run → Run
controlled plan p name m =
    let (res, bytes, g) = control (p.look 0) plan.acts m.sv in
    let m₁ = log_sent name bytes (with_sv g m) in record m₁ { visits = m₁.visits + 1 }

acts_once :
    (w : World) (plan : Plan) (p : Place) (name : List ℕ) (m : Run)
    → plan.act ≡ Act.control
    → from_varservice name ≡ false
    → w.chdir m.visits false name ≡ some p
    → ((t : ℕ) → w.fchdir t ≡ true)
    → is_minus_one (control (p.look 0) plan.acts m.sv).0 ≡ false
    → acting w plan (name ∷ []) m ≡ goes (some name ∷ []) (controlled plan p name m)
unfolding acting act_in act
acts_once w plan p name m a v c f h =
    let m₁ =
      log_sent name (control (p.look 0) plan.acts m.sv).1
        (with_sv (control (p.look 0) plan.acts m.sv).2 m) in
    rw (v, c, a, h, leaves w true m₁ (f m₁.visits)) refl

fails_once :
    (w : World) (plan : Plan) (name : List ℕ) (m : Run)
    → from_varservice_again name ≡ true
    → w.chdir m.visits true name ≡ none
    → ((t : ℕ) → w.fchdir t ≡ true)
    → pass w plan (w.late 0) (some name ∷ []) m
      ≡ goes
          (none ∷ [], false)
          (record m {
            sv = fail_with "unable to change to service directory" m.sv;
            visits = m.visits + 1;
          })
unfolding pass wait_in
fails_once w plan name m v c f =
    let m₁ : Run = record m { sv = fail_with "unable to change to service directory" m.sv } in
    rw (v, c, leaves w false m₁ (f m.visits)) refl

-- A plan that controls and waits, and a name with a slash at its end that begins with neither a
-- slash nor a dot: the first loop takes it from the current directory and controls the service
-- there, and the second one from `varservice`. Where it is not there, the program fails although
-- `control` has not, and nothing was waited for.
pub trailing_slash :
    (w : World) (plan : Plan) (p : Place) (name : List ℕ) (m : Run)
    → plan.act ≡ Act.control
    → plan.waits ≡ true
    → not_path (first name) ≡ true
    → last_is_slash name ≡ true
    → ((t : ℕ) → w.chdir t false name ≡ some p)
    → ((t : ℕ) → w.chdir t true name ≡ none)
    → ((t : ℕ) → w.fchdir t ≡ true)
    → is_minus_one (control (p.look 0) plan.acts m.sv).0 ≡ false
    → (let m₁ = controlled plan p name m in
        main w plan 1 (name ∷ []) m
        ≡ some (
          (if ltb 99 (m₁.sv.rc + 1) then 99 else m₁.sv.rc + 1),
          record m₁ {
            sv = fail_with "unable to change to service directory" m₁.sv;
            visits = m₁.visits + 1;
          },
        ))
unfolding main wait_if waiting finish_if finish
trailing_slash w plan p name m a b n l here there f h =
    let m₁ = controlled plan p name m in
    let v : from_varservice name ≡ false = from_here name l in
    let u : from_varservice_again name ≡ true = from_there name n in
    rw
      (
        acts_once w plan p name m a v (here m.visits) f h,
        b,
        fails_once w plan name m₁ u (there m₁.visits) f,
      )
      refl
