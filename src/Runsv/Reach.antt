-- ===== src/Runsv/Reach.antt =====
-- runsv/runsv.c: the rounds of the loop in `main`, from its first state on.
use runit.Base.{ℕ, true, List, [], ◌∷◌, Option, none, some, arith, ◌||◌}
use runit.Runsv.Defs.{Want, Os, IsOs, Proc}
use runit.Runsv.Status.{update_status}
use runit.Runsv.Loop.{Runsv, Found, init, init_main, init_log, start_log, start_main}
use runit.Runsv.Round.{
  Input, Outcome, running, exited, reap_all, ctrl_main, ctrl_log, read_main, read_log, obey_term,
  try_exit, round, rounds,
}
use runit.Runsv.Quiet.{update_status-IsQuiet}
use runit.Runsv.Tracked.{ctrl-IsSound}
use runit.Runsv.Reap.{IsOrderly, start_log-IsOrderly, start_main-IsOrderly, reap_all-IsOrderly}

ctrl_main-IsOrderly :
    (os : Os) (c : ℕ) (r : Runsv) → IsOs os → IsOrderly r → IsOrderly (ctrl_main os c r)
unfolding ctrl_main
ctrl_main-IsOrderly os c r o h =
    ground (arith, ctrl-IsSound os r.main c r.proc o h.main_tracked h.quiet)

ctrl_log-IsOrderly :
    (os : Os) (c : ℕ) (r : Runsv) → IsOs os → IsOrderly r → IsOrderly (ctrl_log os c r)
unfolding ctrl_log
ctrl_log-IsOrderly os c r o h =
    ground (arith, ctrl-IsSound os r.log c r.proc o h.log_tracked h.quiet)

read_main-IsOrderly :
    (os : Os) (c : Option ℕ) (r : Runsv) → IsOs os → IsOrderly r → IsOrderly (read_main os c r)
unfolding read_main
read_main-IsOrderly os none r o h = h
read_main-IsOrderly os (some c) r o h = ctrl_main-IsOrderly os c r o h

read_log-IsOrderly :
    (os : Os) (c : Option ℕ) (r : Runsv) → IsOs os → IsOrderly r → IsOrderly (read_log os c r)
unfolding read_log
read_log-IsOrderly os none r o h = h
read_log-IsOrderly os (some c) r o h = ground (arith, ctrl_log-IsOrderly os c r o h)

obey_term-IsOrderly : (os : Os) (r : Runsv) → IsOs os → IsOrderly r → IsOrderly (obey_term os r)
unfolding obey_term
obey_term-IsOrderly os r o h = ground (arith, ctrl_main-IsOrderly os b'x' r o h)

-- The state inside an outcome.
abbrev pub end : Outcome → Runsv
end (running r) = r
end (exited r) = r

try_exit-IsOrderly : (os : Os) (r : Runsv) → IsOrderly r → IsOrderly (end (try_exit os r))
unfolding try_exit
try_exit-IsOrderly os r h =
    ground (arith, update_status-IsQuiet os (record r.log { want = Want.exit }) r.proc h.quiet)

round-IsOrderly :
    (os : Os) (i : Input) (r : Runsv) → IsOs os → IsOrderly r → IsOrderly (end (round os i r))
unfolding round
round-IsOrderly os i r o h =
    let h₁ = start_main-IsOrderly os (start_log os r) o (start_log-IsOrderly os r o h) in
    let r₁ = start_main os (start_log os r) in
    let r₂ : Runsv = record r₁ { sigterm = r₁.sigterm || i.signalled } in
    let h₂ : IsOrderly r₂ = record {
      main_tracked = h₁.main_tracked;
      log_tracked = h₁.log_tracked;
      quiet = h₁.quiet;
    } in
    let r₃ = reap_all os i.children r₂ in
    let h₃ = reap_all-IsOrderly os i.children r₂ h₂ in
    let r₄ = read_main os i.main_char r₃ in
    let h₄ = read_main-IsOrderly os i.main_char r₃ o h₃ in
    let r₅ = read_log os i.log_char r₄ in
    let h₅ = read_log-IsOrderly os i.log_char r₄ o h₄ in
    try_exit-IsOrderly os (obey_term os r₅) (obey_term-IsOrderly os r₅ o h₅)

next_round :
    (os : Os) (l : List Input) (out : Outcome)
    → ((r : Runsv) → IsOrderly r → IsOrderly (end (rounds os l r)))
    → IsOrderly (end out)
    → IsOrderly (end (elim out [ running r' ↦ rounds os l r' | exited r' ↦ exited r' ]))
next_round os l (running r) later h = later r h
next_round os l (exited r) later h = h

rounds-IsOrderly :
    (os : Os) (l : List Input) (r : Runsv) → IsOs os → IsOrderly r → IsOrderly (end (rounds os l r))
unfolding rounds
rounds-IsOrderly os [] r o h = h
rounds-IsOrderly os (i ∷ l) r o h =
    next_round os l (round os i r) (λ r' h'. rounds-IsOrderly os l r' o h')
      (round-IsOrderly os i r o h)

init-IsOrderly : (os : Os) (f : Found) → IsOrderly (init os f)
unfolding init
init-IsOrderly os f =
    let main = init_main f (os.now 0) in
    let log = init_log f (os.now 1) in
    let g₀ : Proc = record { pidchanged = true; haslog = f.has_log; calls = 2; trace = [] } in
    let q = update_status-IsQuiet os main g₀ tt in
    record {
      main_tracked = ground arith;
      log_tracked = ground arith;
      quiet = ground (arith, q, update_status-IsQuiet os log (update_status os main g₀) q);
    }

-- From its start, after any number of rounds, with any commands, signals and children in any order
-- and any answers of the system, a running service has a process, a finished oneshot has none, no
-- service is in S_STARTING, and no signal has gone to process 0 or to its group.
pub rounds-init-IsOrderly :
    (os : Os) (f : Found) (l : List Input) → IsOs os → IsOrderly (end (rounds os l (init os f)))
rounds-init-IsOrderly os f l o = rounds-IsOrderly os l (init os f) o (init-IsOrderly os f)
