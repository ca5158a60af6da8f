-- ===== src/Pid1/Machine.antt =====
-- pid1/runit.c: rounds of the inner loop, the loop over the stages, and the end.
use runit.Base.{ℕ, ◌+◌, Bool, List, [], ◌∷◌, if◌then◌else◌, ◌==◌, ◌&&◌, ◌||◌, not, ltb}
use runit.Pid1.Defs.{
  File, Reboot, warn, info, sleep, kill_all, sync, wake, reboot_system, Os, Init, emit,
}
use runit.Pid1.Stage.{enter, Next, stay, leave, stage_ended, early_ended}
use runit.Pid1.Signals.{Answer, on_signals}

-- What comes in the pause of a round: how often CONT and INT, the children that `wait_nohang` gives
-- one after the other with their statuses, whether it then fails, and what it gives while stage 3 is
-- being stopped. Children behind the one that ends the inner `while` come again in a later round.
pub record Input : Type 0 where
  pub conts : ℕ
  pub ints : ℕ
  pub children : List (ℕ × ℕ)
  pub fails : Bool
  pub stopping : List Answer

pub data Child : Type 0 where
  nothing error : Child
  ended : ℕ → ℕ → Child

-- `while ((child =wait_nohang(&wstat)) > 0) if (child == pid || child == earlysvcpid) break;`
unfoldable pub collect : ℕ → ℕ → List (ℕ × ℕ) → Bool → Child
collect pid early [] fails = if fails then error else nothing
collect pid early ((c, w) ∷ rest) fails =
    let later = collect pid early rest fails in
    if (c == pid) || (c == early) then ended c w else later

-- A child that ended the `while`.
unfoldable pub on_child : Os → ℕ → ℕ → Init → Next
unfolding stage_ended early_ended
on_child os c w g =
    if c == g.pid
    then stage_ended w g
    else if (c == g.earlysvcpid) && (ltb 0 g.curstage && not (g.curstage == 3))
    then early_ended os w g
    else stay (emit wake g)

-- A round of the inner loop.
unfoldable pub react : Os → Input → Init → Next
unfolding collect on_child on_signals
react os i g =
    let g₁ : Init = record g { sigc = g.sigc + i.conts; sigi = g.sigi + i.ints } in
    elim (collect g.pid g.earlysvcpid i.children i.fails) [
      | ended c w ↦ on_child os c w g₁
      | error ↦ stay (emit wake (emit (sleep 5) (emit (warn "wait_nohang, pausing") g₁)))
      | nothing ↦ on_signals os i.stopping g₁
    ]

-- The kernel's names RB_AUTOBOOT, RB_POWER_OFF and RB_HALT_SYSTEM, which Linux has.
unfoldable pub switch_off : Os → Init → Init
switch_off os g =
    if os.executable File.reboot g.calls
    then emit (reboot_system Reboot.autoboot) (emit sync (emit (info "system reboot.") g))
    else (let g₁ =
          emit (sleep 2)
            (emit (reboot_system Reboot.power_off) (emit sync (emit (info "power off...") g))) in
        emit (reboot_system Reboot.halt_system) (emit sync (emit (info "system halt.") g₁)))

-- After the last stage: the process or, if `fork` succeeds, its child, asks for the end.
unfoldable pub finish : Os → Init → Init
unfolding switch_off
finish os g =
    switch_off os (emit kill_all (emit (info "sending KILL signal to all processes...") g))

pub data Phase : Type 0 where
  running finished : Init → Phase

-- `curstage++`, and the test of the loop.
unfoldable pub advance : Os → Init → Phase
unfolding enter finish
advance os g =
    let g₁ : Init = record g { curstage = g.curstage + 1 } in
    if ltb g₁.curstage 4 then running (enter os g₁) else finished (finish os g₁)

unfoldable pub after : Os → Next → Phase
unfolding advance
after os (stay g) = running g
after os (leave g) = advance os g

unfoldable pub step : Os → Input → Init → Phase
unfolding react after
step os i g = after os (react os i g)

unfoldable pub run : Os → List Input → Phase → Phase
unfolding step
run os inputs (finished g) = finished g
run os [] (running g) = running g
run os (i ∷ rest) (running g) = run os rest (step os i g)

-- The zeroed globals.
abbrev pub fresh : Init
fresh = record { curstage = 0; pid = 0; earlysvcpid = 0; sigc = 0; sigi = 0; calls = 0; trace = [] }

unfoldable pub boot : Os → Phase
unfolding enter
boot os = running (enter os fresh)
