-- ===== src/Runsv/Exit.antt =====
-- runsv/runsv.c: when the loop in `main` ends.

use runit.Base.{
  ℕ, ◌≡◌, refl, Bool, true, false, List, [], ◌∷◌, Option, none, some, if◌then◌else◌, arith, ◌||◌,
  ap, ◌∙◌,
}
use runit.Runsv.Defs.{State, Want, Svdir, Os, Proc, tick}
use runit.Runsv.Control.{command}
use runit.Runsv.Loop.{
  Runsv, start_log, start_main, settle, down_or_done, gone, give_up, finish_or_down, reap_main,
  reap_first, reap_second, reap,
}
use runit.Runsv.Round.{
  Input, reap_all, ctrl_main, ctrl_log, read_main, read_log, obey_term, try_exit, round, round_body,
}
use runit.Runsv.Commands.{startservice-SameAim, ctrl_wants}
use runit.Runsv.Reach.{end}

-- What a step carries over: that the service proper is no log service, and the flag `sigterm`.
record Carries (r r' : Runsv) : Type 0 where
  islog : r'.main.islog ≡ r.main.islog
  sigterm : r'.sigterm ≡ r.sigterm

Carries-trans : (r s t : Runsv) → Carries r s → Carries s t → Carries r t
Carries-trans r s t h k = record { islog = k.islog ∙ h.islog; sigterm = k.sigterm ∙ h.sigterm }

start_log-Carries : (os : Os) (r : Runsv) → Carries r (start_log os r)
unfolding start_log
start_log-Carries os r = ground arith

start_main-Carries : (os : Os) (r : Runsv) → Carries r (start_main os r)
unfolding start_main
start_main-Carries os r = ground (arith, startservice-SameAim os r.main r.proc)

settle_islog : (os : Os) (s : Svdir) (g : Proc) → (settle os s g).0.islog ≡ s.islog
unfolding settle
settle_islog os s g = refl

down_or_done_islog : (os : Os) (s : Svdir) (g : Proc) → (down_or_done os s g).0.islog ≡ s.islog
unfolding down_or_done
down_or_done_islog os s g =
    ground (arith, settle_islog os s g, settle_islog os (record s { state = State.down }) (tick g))

finish_or_down_islog : (os : Os) (s : Svdir) (g : Proc) → (finish_or_down os s g).0.islog ≡ s.islog
unfolding finish_or_down
finish_or_down_islog os s g =
    ground (arith, down_or_done_islog os s g, down_or_done_islog os s (tick g))

give_up_islog : (os : Os) (s : Svdir) (g : Proc) → (give_up os s g).0.islog ≡ s.islog
unfolding give_up
give_up_islog os s g = ground arith

reap_main_islog : (os : Os) (w : ℕ) (s : Svdir) (g : Proc) → (reap_main os w s g).0.islog ≡ s.islog
unfolding reap_main gone
reap_main_islog os w s g =
    let g₁ : Proc = record g { pidchanged = true } in
    let (s₂, g₂) = give_up os (gone os w s) g₁ in
    finish_or_down_islog os s₂ g₂ ∙ give_up_islog os (gone os w s) g₁

reap_first-Carries : (os : Os) (c w : ℕ) (r : Runsv) → Carries r (reap_first os c w r).0
unfolding reap_first
reap_first-Carries os c w r = ground (arith, reap_main_islog os w r.main r.proc)

reap_second-Carries : (os : Os) (c : ℕ) (r : Runsv) → Carries r (reap_second os c r)
unfolding reap_second
reap_second-Carries os c r = ground arith

if-Carries : (b : Bool) (r s t : Runsv) → Carries r s → Carries r t → Carries r (if b then s else t)
if-Carries true r s t h k = h
if-Carries false r s t h k = k

reap-Carries : (os : Os) (c w : ℕ) (r : Runsv) → Carries r (reap os c w r)
unfolding reap
reap-Carries os c w r =
    let s = (reap_first os c w r).0 in
    let h = reap_first-Carries os c w r in
    if-Carries (reap_first os c w r).1 r s (reap_second os c s) h
      (Carries-trans r s (reap_second os c s) h (reap_second-Carries os c s))

reap_all-Carries : (os : Os) (l : List (ℕ × ℕ)) (r : Runsv) → Carries r (reap_all os l r)
unfolding reap_all
reap_all-Carries os [] r = record { islog = refl; sigterm = refl }
reap_all-Carries os ((c, w) ∷ l) r =
    Carries-trans r (reap os c w r) (reap_all os l (reap os c w r)) (reap-Carries os c w r)
      (reap_all-Carries os l (reap os c w r))

read_main-Carries : (os : Os) (c : Option ℕ) (r : Runsv) → Carries r (read_main os c r)
unfolding read_main ctrl_main
read_main-Carries os none r = record { islog = refl; sigterm = refl }
read_main-Carries os (some c) r = record {
  islog = (ctrl_wants os r.main c r.proc).1;
  sigterm = refl;
}

read_log-Carries : (os : Os) (c : Option ℕ) (r : Runsv) → Carries r (read_log os c r)
unfolding read_log ctrl_log
read_log-Carries os none r = record { islog = refl; sigterm = refl }
read_log-Carries os (some c) r = ground arith

obey_term_exits :
    (os : Os) (r : Runsv)
    → r.main.islog ≡ false
    → r.sigterm ≡ true
    → (obey_term os r).main.want ≡ Want.exit
unfolding obey_term ctrl_main command
obey_term_exits os r l t = ground (arith, ctrl_wants os r.main b'x' r.proc)

try_exit_main : (os : Os) (r : Runsv) → (end (try_exit os r)).main ≡ r.main
unfolding try_exit
try_exit_main os r = ground arith

-- When a terminate or interrupt signal has come in a round, the service is wanted out at its end,
-- whatever commands and children came too.
pub round_signalled :
    (os : Os) (i : Input) (r : Runsv)
    → r.main.islog ≡ false
    → i.signalled ≡ true
    → (end (round os i r)).main.want ≡ Want.exit
unfolding round round_body
round_signalled os i r l t =
    let r₁ = start_main os (start_log os r) in
    let r₂ : Runsv = record r₁ { sigterm = r₁.sigterm || i.signalled } in
    let r₃ = reap_all os i.children r₂ in
    let r₄ = read_main os i.main_char r₃ in
    let r₅ = read_log os i.log_char r₄ in
    let c₁ =
      Carries-trans r (start_log os r) r₁ (start_log-Carries os r)
        (start_main-Carries os (start_log os r)) in
    let c₂ =
      Carries-trans r₂ r₃ r₄ (reap_all-Carries os i.children r₂)
        (read_main-Carries os i.main_char r₃) in
    let c₃ = Carries-trans r₂ r₄ r₅ c₂ (read_log-Carries os i.log_char r₄) in
    ap (λ s. s.want) (try_exit_main os (obey_term os r₅))
    ∙ obey_term_exits os r₅ (c₃.islog ∙ c₁.islog ∙ l) (c₃.sigterm ∙ ground arith)
