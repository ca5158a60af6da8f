-- ===== src/Runsv/Tracked.antt =====
-- runsv/runsv.c: the state and the process number of a service, under every command.
use runit.Base.{ℕ, ◌≡◌, ◌≢◌, ◌<◌, refl, Bool, List, arith}
use runit.Runsv.Defs.{State, Want, Svdir, Signal, Arg, Os, IsOs, Proc, tick, emit, spawn}
use runit.Runsv.Hooks.{kill_target, group_wanted}
use runit.Runsv.Status.{update_status}
use runit.Runsv.Service.{
  stopservice, stoponeshotservice, oneshot_down, stop_stale, clip_firstrun, start_args, child,
  fork_retries, started, fork, launch, startservice,
}
use runit.Runsv.Control.{
  Command, dispatch, ctrl, pass_signal, stop_either, want_now, ctrl_up, command,
}
use runit.Runsv.Quiet.{
  IsQuiet, update_status-IsQuiet, custom-IsQuiet, kill_target-IsAimed, stopservice_keeps,
  stopservice-IsQuiet, stoponeshotservice-IsQuiet, startservice-IsQuiet,
}

-- A running service has a process, a finished oneshot has none, and S_STARTING is never seen.
pub record IsTracked (s : Svdir) : Type 0 where
  pub run_pid : s.state ≡ State.run → 0 < s.pid
  pub done_pid : s.state ≡ State.done → s.pid ≡ 0
  pub settled : s.state ≢ State.starting

-- What every operation keeps: the service is tracked, and the signals were aimed.
abbrev pub IsSound : Svdir × Proc → Type 0
IsSound (s, g) = IsTracked s × IsQuiet g

started-IsTracked :
    (os : Os) (p : ℕ) (s : Svdir) (g : Proc) → 0 < p → IsTracked (started os p s g).0
unfolding started
started-IsTracked os p s g h = ground arith

launch-IsTracked :
    (os : Os) (newsid : Bool) (args : List Arg) (s : Svdir) (g : Proc)
    → IsOs os
    → IsTracked (launch os newsid args s g).0
unfolding launch fork
launch-IsTracked os newsid args s g o =
    let (p, g₁) = fork os g in
    started-IsTracked os p s (emit (spawn p (child os s g.haslog newsid args)) g₁)
      (o (fork_retries os (os.fork_failures g.calls) g).calls)

launch_pid :
    (os : Os) (newsid : Bool) (args : List Arg) (s : Svdir) (g : Proc)
    → (t : ℕ) × ((launch os newsid args s g).0.pid ≡ os.fork_pid t)
unfolding launch started fork
launch_pid os newsid args s g = ((fork_retries os (os.fork_failures g.calls) g).calls, refl)

-- The process number that `startservice` keeps is one that `fork` returned.
pub startservice_forked :
    (os : Os) (s : Svdir) (g : Proc) → (t : ℕ) × ((startservice os s g).0.pid ≡ os.fork_pid t)
unfolding startservice
startservice_forked os s g =
    let s₁ = clip_firstrun os s in
    let (args, g₁) = start_args os s₁ (tick g) in
    let (s₂, g₂) = stop_stale os s₁ g₁ in launch_pid os (group_wanted os g) args s₂ g₂

pub startservice_pid : (os : Os) (s : Svdir) (g : Proc) → IsOs os → 0 < (startservice os s g).0.pid
startservice_pid os s g o = let (t, e) = startservice_forked os s g in rw e (o t)

-- `startservice` leaves a service with a process, whatever it was before.
pub startservice-IsTracked :
    (os : Os) (s : Svdir) (g : Proc) → IsOs os → IsTracked (startservice os s g).0
unfolding startservice
startservice-IsTracked os s g o =
    let s₁ = clip_firstrun os s in
    let (args, g₁) = start_args os s₁ (tick g) in
    let (s₂, g₂) = stop_stale os s₁ g₁ in launch-IsTracked os (group_wanted os g) args s₂ g₂ o

stopservice-IsTracked :
    (os : Os) (s : Svdir) (g : Proc) → IsTracked s → IsTracked (stopservice os s g).0
stopservice-IsTracked os s g h = ground (arith, stopservice_keeps os s g)

stoponeshotservice-IsTracked :
    (os : Os) (s : Svdir) (g : Proc) → IsTracked (stoponeshotservice os s g).0
unfolding stoponeshotservice oneshot_down
stoponeshotservice-IsTracked os s g = ground arith

pass_signal-IsQuiet :
    (os : Os) (c : ℕ) (sig : Signal) (s : Svdir) (g : Proc)
    → IsTracked s
    → IsQuiet g
    → IsQuiet (pass_signal os (kill_target os s g) c sig s (tick g))
unfolding pass_signal
pass_signal-IsQuiet os c sig s g v h =
    ground
      (arith, custom-IsQuiet os s c (tick g) h, λ (p : 0 < s.pid). kill_target-IsAimed os s g sig p)

start-IsSound :
    (os : Os) (s : Svdir) (g : Proc) → IsOs os → IsQuiet g → IsSound (startservice os s g)
start-IsSound os s g o h = (startservice-IsTracked os s g o, startservice-IsQuiet os s g h)

stop-IsSound :
    (os : Os) (s : Svdir) (g : Proc)
    → IsTracked s
    → 0 < s.pid
    → IsQuiet g
    → IsSound (stopservice os s g)
stop-IsSound os s g v p h = (stopservice-IsTracked os s g v, stopservice-IsQuiet os s g p h)

stop_either-IsSound :
    (os : Os) (s : Svdir) (g : Proc) → IsTracked s → IsQuiet g → IsSound (stop_either os s g)
unfolding stop_either
stop_either-IsSound os s g v h = ground (
  arith,
  λ (p : 0 < s.pid). stop-IsSound os s g v p h,
  stoponeshotservice-IsTracked os s g,
  stoponeshotservice-IsQuiet os s g h,
)

ctrl_up-IsSound :
    (os : Os) (s : Svdir) (g : Proc) → IsOs os → IsTracked s → IsQuiet g → IsSound (ctrl_up os s g)
unfolding ctrl_up want_now
ctrl_up-IsSound os s g o v h =
    let s₁ : Svdir = record s { want = Want.up } in
    let g₁ = update_status os s₁ g in
    let q = update_status-IsQuiet os s₁ g h in
    ground
      (arith, q, start-IsSound os (record s₁ { firstrun = 1 }) g₁ o q, start-IsSound os s₁ g₁ o q)

once-IsSound :
    (os : Os) (s : Svdir) (g : Proc)
    → IsOs os
    → IsTracked s
    → IsQuiet g
    → IsSound (dispatch os Command.once (kill_target os s g) b'o' s g)
unfolding dispatch want_now
once-IsSound os s g o v h =
    let s₁ : Svdir = record s { want = Want.down } in
    let q = update_status-IsQuiet os s₁ g h in
    ground (arith, q, start-IsSound os s₁ (update_status os s₁ g) o q)

-- One case of the `switch`.
Keeps : Command → Type 0
Keeps k =
    (os : Os) (c : ℕ) (s : Svdir) (g : Proc)
    → IsOs os
    → IsTracked s
    → IsQuiet g
    → IsSound (dispatch os k (kill_target os s g) c s (tick g))

stop_wanted_either :
    (os : Os) (w : Want) (s : Svdir) (g : Proc)
    → IsTracked s
    → IsQuiet g
    → IsSound (stop_either os (want_now os w s g).0 (want_now os w s g).1)
unfolding want_now
stop_wanted_either os w s g v h =
    stop_either-IsSound os (record s { want = w }) (update_status os (record s { want = w }) g)
      (ground arith) (update_status-IsQuiet os (record s { want = w }) g h)

dispatch-IsSound : (k : Command) → Keeps k
unfolding Keeps dispatch
dispatch-IsSound Command.down os c s g o v h = stop_wanted_either os Want.down s (tick g) v h
dispatch-IsSound Command.up os c s g o v h = ctrl_up-IsSound os s (tick g) o v h
dispatch-IsSound Command.exit os c s g o v h =
    ground (arith, stop_wanted_either os Want.exit s (tick g) v h)
dispatch-IsSound Command.term os c s g o v h =
    ground (arith, λ (p : 0 < s.pid). stop-IsSound os s (tick g) v p h)
dispatch-IsSound Command.kill os c s g o v h =
    (ground arith, pass_signal-IsQuiet os c Signal.kill s g v h)
dispatch-IsSound Command.pause os c s g o v h =
    (ground arith, update_status-IsQuiet os _ _ (pass_signal-IsQuiet os c Signal.stop s g v h))
dispatch-IsSound Command.cont os c s g o v h =
    (ground arith, update_status-IsQuiet os _ _ (pass_signal-IsQuiet os c Signal.cont s g v h))
dispatch-IsSound Command.once os c s g o v h = once-IsSound os s (tick g) o v h
dispatch-IsSound Command.alarm os c s g o v h = (v, pass_signal-IsQuiet os c Signal.alrm s g v h)
dispatch-IsSound Command.hup os c s g o v h = (v, pass_signal-IsQuiet os c Signal.hup s g v h)
dispatch-IsSound Command.int os c s g o v h = (v, pass_signal-IsQuiet os c Signal.int s g v h)
dispatch-IsSound Command.quit os c s g o v h = (v, pass_signal-IsQuiet os c Signal.quit s g v h)
dispatch-IsSound Command.usr1 os c s g o v h = (v, pass_signal-IsQuiet os c Signal.usr1 s g v h)
dispatch-IsSound Command.usr2 os c s g o v h = (v, pass_signal-IsQuiet os c Signal.usr2 s g v h)
dispatch-IsSound Command.unknown os c s g o v h = (v, h)

-- Every command keeps the service tracked, and sends no signal to process 0 or to its group, if the
-- service was tracked and no such signal was sent before.
pub ctrl-IsSound :
    (os : Os) (s : Svdir) (c : ℕ) (g : Proc)
    → IsOs os
    → IsTracked s
    → IsQuiet g
    → IsSound (ctrl os s c g)
unfolding ctrl Keeps
ctrl-IsSound os s c g o v h = dispatch-IsSound (command c) os c s g o v h
