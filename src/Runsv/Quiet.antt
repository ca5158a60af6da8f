-- ===== src/Runsv/Quiet.antt =====
-- runsv/runsv.c: where the signals go that `update_status`, `custom`, `stopservice`,
-- `stoponeshotservice` and `startservice` send.
use runit.Base.{ℕ, zero, suc, ◌≡◌, ◌<◌, Bool, List, All, arith, ◌⊎◌}
use runit.Runsv.Defs.{
  State, Svdir, Signal, Target, process, group, Effect, signal, Arg, Os, Proc, tick, emit, spawn,
}
use runit.Runsv.Status.{update_status, update_pid, update_stat, update_bytes}
use runit.Runsv.Hooks.{custom, kill_target, group_wanted}
use runit.Runsv.Service.{
  send_term, oneshot_term, oneshot_down, cont_and_hook, stop_wanted, set_term, stopservice,
  stoponeshotservice, run_args, fork_retries, fork, child, started, start_args, stop_stale,
  clip_firstrun, launch, startservice,
}

-- No signal goes to process 0 or group 0, which is the supervisor's own group.
abbrev pub IsAimed : Effect → Type 0
IsAimed (signal (process p) sig) = 0 < p
IsAimed (signal (group p) sig) = 0 < p
IsAimed _ = Unit

abbrev pub IsQuiet : Proc → Type 0
IsQuiet g = All IsAimed g.trace

update_pid-IsQuiet : (os : Os) (s : Svdir) (g : Proc) → IsQuiet g → IsQuiet (update_pid os s g).0
unfolding update_pid
update_pid-IsQuiet os s g h = ground arith

update_stat-IsQuiet : (os : Os) (s : Svdir) (g : Proc) → IsQuiet g → IsQuiet (update_stat os s g).0
unfolding update_stat
update_stat-IsQuiet os s g h = ground arith

update_bytes-IsQuiet : (os : Os) (s : Svdir) (g : Proc) → IsQuiet g → IsQuiet (update_bytes os s g)
unfolding update_bytes
update_bytes-IsQuiet os s g h = ground arith

pub update_status-IsQuiet :
    (os : Os) (s : Svdir) (g : Proc) → IsQuiet g → IsQuiet (update_status os s g)
unfolding update_status
update_status-IsQuiet os s g h = ground (
  arith,
  update_pid-IsQuiet os s g,
  update_stat-IsQuiet os s g,
  update_stat-IsQuiet os s (update_pid os s g).0,
  update_bytes-IsQuiet os s (update_stat os s g).0,
  update_bytes-IsQuiet os s (update_stat os s (update_pid os s g).0).0,
)

pub custom-IsQuiet :
    (os : Os) (s : Svdir) (c : ℕ) (g : Proc) → IsQuiet g → IsQuiet (custom os s c g).1
unfolding custom
custom-IsQuiet os s c g h = ground arith

-- Signals to the service or its group are aimed while it has a process.
pub kill_target-IsAimed :
    (os : Os) (s : Svdir) (g : Proc) (sig : Signal)
    → 0 < s.pid
    → IsAimed (signal (kill_target os s g) sig)
kill_target-IsAimed os s g sig h = ground arith

send_term-IsQuiet :
    (os : Os) (t : Target) (s : Svdir) (g : Proc)
    → IsAimed (signal t Signal.term)
    → IsQuiet g
    → IsQuiet (send_term os t s g).1
unfolding send_term
send_term-IsQuiet os t s g a h =
    update_status-IsQuiet os (set_term s) (emit (signal t Signal.term) g) (a, h)

stop_wanted-IsQuiet :
    (os : Os) (t : Target) (s : Svdir) (g : Proc)
    → IsAimed (signal t Signal.cont)
    → IsQuiet g
    → IsQuiet (stop_wanted os t s g)
unfolding stop_wanted cont_and_hook
stop_wanted-IsQuiet os t s g a h = ground (
  arith,
  custom-IsQuiet os s b'd' (emit (signal t Signal.cont) g) (a, h),
  custom-IsQuiet os s b'x' (emit (signal t Signal.cont) g) (a, h),
)

-- `stopservice` changes the bit C_TERM at most.
pub stopservice_keeps :
    (os : Os) (s : Svdir) (g : Proc)
    → ((stopservice os s g).0 ≡ s) ⊎ ((stopservice os s g).0 ≡ set_term s)
unfolding stopservice send_term
stopservice_keeps os s g = ground arith

pub stopservice-IsQuiet :
    (os : Os) (s : Svdir) (g : Proc) → 0 < s.pid → IsQuiet g → IsQuiet (stopservice os s g).1
unfolding stopservice
stopservice-IsQuiet os s g p h =
    let t = kill_target os s g in
    let q = custom-IsQuiet os s b't' (tick g) h in
    ground (
      arith,
      q,
      stop_wanted-IsQuiet os t s (custom os s b't' (tick g)).1
          (kill_target-IsAimed os s g Signal.cont p) q,
      send_term-IsQuiet os t s (custom os s b't' (tick g)).1
          (kill_target-IsAimed os s g Signal.term p) q,
      stop_wanted-IsQuiet os t (send_term os t s (custom os s b't' (tick g)).1).0
          (send_term os t s (custom os s b't' (tick g)).1).1
          (kill_target-IsAimed os s g Signal.cont p),
    )

oneshot_term-IsQuiet :
    (os : Os) (t : Target) (s : Svdir) (g : Proc)
    → (0 < s.pid → IsAimed (signal t Signal.term))
    → IsQuiet g
    → IsQuiet (oneshot_term os t s g).1
unfolding oneshot_term
oneshot_term-IsQuiet os t s g a h = ground arith

oneshot_down-IsQuiet :
    (os : Os) (s : Svdir) (g : Proc) → IsQuiet g → IsQuiet (oneshot_down os s g).1
unfolding oneshot_down
oneshot_down-IsQuiet os s g h =
    let s₁ : Svdir = record s { state = State.down } in
    let q = update_status-IsQuiet os s₁ g h in
    ground (arith, q, custom-IsQuiet os s₁ b'x' (update_status os s₁ g) q)

pub stoponeshotservice-IsQuiet :
    (os : Os) (s : Svdir) (g : Proc) → IsQuiet g → IsQuiet (stoponeshotservice os s g).1
unfolding stoponeshotservice
stoponeshotservice-IsQuiet os s g h =
    let t = kill_target os s g in
    let q =
      oneshot_term-IsQuiet os t s (tick g) (λ p. kill_target-IsAimed os s g Signal.term p) h in
    oneshot_down-IsQuiet os (oneshot_term os t s (tick g)).0
      (custom os (oneshot_term os t s (tick g)).0 b'd' (oneshot_term os t s (tick g)).1).1
      (custom-IsQuiet os (oneshot_term os t s (tick g)).0 b'd' (oneshot_term os t s (tick g)).1 q)

run_args-IsQuiet : (os : Os) (s : Svdir) (g : Proc) → IsQuiet g → IsQuiet (run_args os s g).1
unfolding run_args
run_args-IsQuiet os s g h =
    custom-IsQuiet os (record s { state = State.starting }) b's' (custom os s b'u' g).1
      (custom-IsQuiet os s b'u' g h)

fork_retries-IsQuiet : (os : Os) (n : ℕ) (g : Proc) → IsQuiet g → IsQuiet (fork_retries os n g)
unfolding fork_retries
fork_retries-IsQuiet os zero g h = h
fork_retries-IsQuiet os (suc n) g h = fork_retries-IsQuiet os n _ (tt, (tt, h))

fork-IsQuiet : (os : Os) (g : Proc) → IsQuiet g → IsQuiet (fork os g).1
unfolding fork
fork-IsQuiet os g h = fork_retries-IsQuiet os (os.fork_failures g.calls) g h

started-IsQuiet :
    (os : Os) (p : ℕ) (s : Svdir) (g : Proc) → IsQuiet g → IsQuiet (started os p s g).1
unfolding started
started-IsQuiet os p s g h = update_status-IsQuiet os _ _ h

start_args-IsQuiet : (os : Os) (s : Svdir) (g : Proc) → IsQuiet g → IsQuiet (start_args os s g).1
unfolding start_args
start_args-IsQuiet os s g h = ground (arith, run_args-IsQuiet os s g h)

stop_stale-IsQuiet : (os : Os) (s : Svdir) (g : Proc) → IsQuiet g → IsQuiet (stop_stale os s g).1
unfolding stop_stale
stop_stale-IsQuiet os s g h = ground (arith, λ (p : 0 < s.pid). stopservice-IsQuiet os s g p h)

launch-IsQuiet :
    (os : Os) (newsid : Bool) (args : List Arg) (s : Svdir) (g : Proc)
    → IsQuiet g
    → IsQuiet (launch os newsid args s g).1
unfolding launch
launch-IsQuiet os newsid args s g h =
    let (p, g₁) = fork os g in
    started-IsQuiet os p s (emit (spawn p (child os s g.haslog newsid args)) g₁)
      (tt, fork-IsQuiet os g h)

pub startservice-IsQuiet :
    (os : Os) (s : Svdir) (g : Proc) → IsQuiet g → IsQuiet (startservice os s g).1
unfolding startservice
startservice-IsQuiet os s g h =
    let s₁ = clip_firstrun os s in
    let (args, g₁) = start_args os s₁ (tick g) in
    let (s₂, g₂) = stop_stale os s₁ g₁ in
    launch-IsQuiet os (group_wanted os g) args s₂ g₂
      (stop_stale-IsQuiet os s₁ g₁ (start_args-IsQuiet os s₁ (tick g) h))
