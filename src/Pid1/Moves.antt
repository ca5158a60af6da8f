-- ===== src/Pid1/Moves.antt =====
-- pid1/runit.c: the moves from stage to stage, round by round.
use mathlib.Core.Path.{subst}
use runit.Base.{
  ℕ, suc, ◌+◌, ◌≡◌, ◌<◌, Bool, true, false, List, [], ◌∷◌, if◌then◌else◌, ◌==◌, ◌&&◌, ◌||◌, not,
  ltb, arith, refl, inr, ◌∙◌, sym, ap, String,
}
use runit.Pid1.Defs.{
  File, wake, warn, info, sleep, terminate, clear_stopit, wait_crashed, wait_exitcode, Os, IsOs,
  Init, emit, start,
}
use runit.Pid1.Stage.{
  enter, Next, stay, leave, stage_ended, early_ended, warn_ended, skip_next, run_again,
}
use runit.Pid1.Signals.{
  Answer, stop_stage, ctrl_alt_del, obey_int, obey_cont, on_signals, no_signals,
}
use runit.Pid1.Machine.{
  Input, Child, collect, on_child, react, finish, Phase, running, finished, advance, after, step,
  run, boot, fresh,
}
use runit.Pid1.Path.{
  entered, skip, again, IsPath, IsOnPath, Same, retries-Same, wait-Same, runner-Same,
  enter-IsOnPath, IsNext, Same-IsOnPath, forward-IsBefore, IsPhase,
}

if-IsNext :
    (b : Bool) (x y : Next)
    → (b ≡ true → IsNext x)
    → (b ≡ false → IsNext y)
    → IsNext (if b then x else y)
if-IsNext true x y h k = h refl
if-IsNext false x y h k = k refl

emit-Same : (g : Init) (m : String) → Same g (emit (info m) g)
emit-Same g m = record { stage_kept = refl; early_kept = refl; entered_kept = refl }

skip_next-IsBefore : (g : Init) → g.curstage ≡ 0 → IsOnPath g → IsNext (skip_next g)
skip_next-IsBefore g z h = record {
  stage_below = omega arith;
  next_path = rw (h.current, z) (skip refl refl, h.path);
  early = λ e. absurd (omega arith);
}

run_again-IsBefore : (g : Init) → g.curstage ≡ 2 → IsOnPath g → IsNext (run_again g)
run_again-IsBefore g z h = record {
  stage_below = omega arith;
  next_path = rw (h.current, z) (again refl refl, h.path);
  early = λ e. absurd (omega arith);
}

warn_ended-IsOnPath : (w : ℕ) (g : Init) → IsOnPath g → IsOnPath (warn_ended w g)
warn_ended-IsOnPath w g h = record {
  below = h.below;
  before = h.before;
  current = h.current;
  path = h.path;
  has_early = h.has_early;
}

stage_ended-IsNext : (w : ℕ) (g : Init) → IsOnPath g → IsNext (stage_ended w g)
unfolding stage_ended
stage_ended-IsNext w g h =
    let g₁ = warn_ended w g in
    let h₁ = warn_ended-IsOnPath w g h in
    let first = (g.curstage == 0) && (wait_crashed w || (wait_exitcode w == 100)) in
    let third = (g.curstage == 2) && (wait_crashed w || (wait_exitcode w == 111)) in
    let left = leave (emit (info "leave stage") g₁) in
    if-IsNext (wait_exitcode w == 0) _
      (if first then skip_next g₁ else if third then run_again g₁ else left)
      (λ _. forward-IsBefore g (emit (info "leave stage") g) (emit-Same g "leave stage") h)
      (λ _.
        if-IsNext first (skip_next g₁) (if third then run_again g₁ else left)
          (λ e. skip_next-IsBefore g₁ (ground arith) h₁)
          (λ _.
            if-IsNext third (run_again g₁) left (λ e. run_again-IsBefore g₁ (ground arith) h₁)
              (λ _.
                forward-IsBefore g₁ (emit (info "leave stage") g₁) (emit-Same g₁ "leave stage")
                  h₁)))

ctrl_alt_del-Same : (os : Os) (g : Init) → Same g (ctrl_alt_del os g)
unfolding ctrl_alt_del start
ctrl_alt_del-Same os g =
    let g₁ = emit (info "ctrl-alt-del request...") g in
    let k = retries-Same (os.fork_failures g₁.calls) g₁ in
    record {
      stage_kept = ground (arith, k);
      early_kept = ground (arith, k);
      entered_kept = ground (arith, k);
    }

pub stop_stage-Same : (answers : List Answer) (g : Init) → Same g (stop_stage answers g)
unfolding stop_stage
stop_stage-Same answers g =
    let k = wait-Same g.pid 5 answers (emit (terminate g.pid) (emit clear_stopit g)) in
    record {
      stage_kept = ground (arith, k);
      early_kept = ground (arith, k);
      entered_kept = ground (arith, k);
    }

pub obey_int-Same : (os : Os) (g : Init) → Same g (obey_int os g)
unfolding obey_int
obey_int-Same os g = ground (arith, ctrl_alt_del-Same os g)

no_signals-IsOnPath : (g : Init) → IsOnPath g → IsOnPath (no_signals g)
no_signals-IsOnPath g h = record {
  below = h.below;
  before = h.before;
  current = h.current;
  path = h.path;
  has_early = h.has_early;
}

obey_cont-IsNext :
    (os : Os) (answers : List Answer) (g : Init) → IsOnPath g → IsNext (obey_cont os answers g)
unfolding obey_cont
obey_cont-IsNext os answers g h =
    if-IsNext (ltb 0 g.sigc && os.executable File.stopit g.calls) (leave (stop_stage answers g))
      (stay (no_signals g))
      (λ _. forward-IsBefore g (stop_stage answers g) (stop_stage-Same answers g) h)
      (λ _. no_signals-IsOnPath g h)

on_signals-IsNext :
    (os : Os) (answers : List Answer) (g : Init) → IsOnPath g → IsNext (on_signals os answers g)
unfolding on_signals
on_signals-IsNext os answers g h =
    let g₁ = obey_int os g in
    let early = emit (warn "signals only work in stage 3.") g in
    let h₂ : IsOnPath early = record {
      below = h.below;
      before = h.before;
      current = h.current;
      path = h.path;
      has_early = h.has_early;
    } in
    if-IsNext ((g.sigc == 0) && (g.sigi == 0)) (stay g)
      (if not (g.curstage == 2) then stay (no_signals early) else obey_cont os answers g₁) (λ _. h)
      (λ _.
        if-IsNext (not (g.curstage == 2)) (stay (no_signals early)) (obey_cont os answers g₁)
          (λ _. no_signals-IsOnPath early h₂)
          (λ _. obey_cont-IsNext os answers g₁ (Same-IsOnPath g g₁ (obey_int-Same os g) h)))

early_ended-IsNext :
    (os : Os) (w : ℕ) (g : Init) → IsOs os → IsOnPath g → IsNext (early_ended os w g)
unfolding early_ended
early_ended-IsNext os w g o h =
    let g₁ = if wait_exitcode w == 0 then g else warn_ended w g in
    let g₂ : Init = record g₁ { earlysvcpid = 0 } in
    let r = runner-Same os g₂ o in
    let s : g₁.curstage ≡ g.curstage = ground arith in
    let t : entered g₁.trace ≡ entered g.trace = ground arith in
    record {
      below = omega (arith, r.0, s, h.below);
      before = h.before;
      current = r.1 ∙ t ∙ h.current ∙ ap (λ s. s ∷ h.before) (sym (r.0 ∙ s));
      path = subst (λ s. IsPath (s ∷ h.before)) (sym (r.0 ∙ s)) h.path;
      has_early = inr r.2;
    }

on_child-IsNext : (os : Os) (c w : ℕ) (g : Init) → IsOs os → IsOnPath g → IsNext (on_child os c w g)
unfolding on_child
on_child-IsNext os c w g o h =
    let early = (c == g.earlysvcpid) && (ltb 0 g.curstage && not (g.curstage == 3)) in
    if-IsNext (c == g.pid) (stage_ended w g)
      (if early then early_ended os w g else stay (emit wake g)) (λ _. stage_ended-IsNext w g h)
      (λ _.
        if-IsNext early (early_ended os w g) (stay (emit wake g))
          (λ _. early_ended-IsNext os w g o h)
          (λ _. record {
            below = h.below;
            before = h.before;
            current = h.current;
            path = h.path;
            has_early = h.has_early;
          }))

react-IsNext : (os : Os) (i : Input) (g : Init) → IsOs os → IsOnPath g → IsNext (react os i g)
unfolding react
react-IsNext os i g o h =
    let g₁ : Init = record g { sigc = g.sigc + i.conts; sigi = g.sigi + i.ints } in
    let h₁ : IsOnPath g₁ = record {
      below = h.below;
      before = h.before;
      current = h.current;
      path = h.path;
      has_early = h.has_early;
    } in
    go g₁ h₁ (collect g.pid g.earlysvcpid i.children i.fails)
  where
    go :
        (g₁ : Init)
        → IsOnPath g₁
        → (k : Child)
        → IsNext (elim k [
          | Child.ended c w ↦ on_child os c w g₁
          | Child.error ↦ stay (emit wake (emit (sleep 5) (emit (warn "wait_nohang, pausing") g₁)))
          | Child.nothing ↦ on_signals os i.stopping g₁
        ])
    go g₁ h₁ (Child.ended c w) = on_child-IsNext os c w g₁ o h₁
    go g₁ h₁ Child.error = record {
      below = h₁.below;
      before = h₁.before;
      current = h₁.current;
      path = h₁.path;
      has_early = h₁.has_early;
    }
    go g₁ h₁ Child.nothing = on_signals-IsNext os i.stopping g₁ h₁

entered-finish : (os : Os) (g : Init) → entered (finish os g).trace ≡ entered g.trace
unfolding finish
entered-finish os g = ground arith

if-IsPhase :
    (b : Bool) (x y : Phase)
    → (b ≡ true → IsPhase x)
    → (b ≡ false → IsPhase y)
    → IsPhase (if b then x else y)
if-IsPhase true x y h k = h refl
if-IsPhase false x y h k = k refl

after-IsPhase : (os : Os) (n : Next) → IsOs os → IsNext n → IsPhase (after os n)
unfolding after advance
after-IsPhase os (stay g) o h = h
after-IsPhase os (leave g) o h =
    let g₁ : Init = record g { curstage = g.curstage + 1 } in
    let e : suc g.curstage ≡ g.curstage + 1 = omega arith in
    let p : IsPath (g₁.curstage ∷ entered g.trace) =
      subst (λ s. IsPath (s ∷ entered g.trace)) e h.next_path in
    if-IsPhase (ltb g₁.curstage 4) (running (enter os g₁)) (finished (finish os g₁))
      (λ b. enter-IsOnPath os g₁ o (ground arith) p (λ t. h.early (omega arith)))
      (λ b.
        let four : g₁.curstage ≡ 4 = ground (arith, h.stage_below) in
        subst (λ l. IsPath (4 ∷ l)) (sym (entered-finish os g₁))
          (subst (λ s. IsPath (s ∷ entered g.trace)) four p))

pub step-IsPhase : (os : Os) (i : Input) (g : Init) → IsOs os → IsOnPath g → IsPhase (step os i g)
unfolding step
step-IsPhase os i g o h = after-IsPhase os (react os i g) o (react-IsNext os i g o h)

run-IsPhase : (os : Os) (l : List Input) (p : Phase) → IsOs os → IsPhase p → IsPhase (run os l p)
unfolding run
run-IsPhase os l (finished g) o h = h
run-IsPhase os [] (running g) o h = h
run-IsPhase os (i ∷ l) (running g) o h = run-IsPhase os l (step os i g) o (step-IsPhase os i g o h)

pub run-boot-IsPhase : (os : Os) (l : List Input) → IsOs os → IsPhase (run os l (boot os))
unfolding boot
run-boot-IsPhase os l o =
    run-IsPhase os l (boot os) o (enter-IsOnPath os fresh o (omega arith) refl no_third)
  where
    no_third : fresh.curstage ≡ 3 → 0 < fresh.earlysvcpid
    no_third e = absurd (omega arith)
