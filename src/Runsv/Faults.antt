-- ===== src/Runsv/Faults.antt =====
-- runsv/runsv.c: two sequences of commands for a running service.
use runit.Runsv.Commands.{ctrl_wants}
use runit.Base.{ℕ, ◌≡◌, ◌≢◌, refl, true, false, ◌==◌, arith, ◌∙◌, sym}
use runit.Runsv.Defs.{State, Want, Svdir, Os, Proc, tick}
use runit.Runsv.Status.{update_status}
use runit.Runsv.Service.{stoponeshotservice, oneshot_term, oneshot_down}
use runit.Runsv.Control.{ctrl, dispatch, command, ctrl_up, want_now, stop_either}
use runit.Runsv.Loop.{Runsv, reap_first, reap_second, reap}
use runit.Runsv.Round.{exited, ctrl_main, try_exit}
use runit.Runsv.Tracked.{startservice_forked}
use runit.Runsv.Life.{startservice_state}

-- After `k`.
killed : (os : Os) (s : Svdir) (g : Proc) → (ctrl os s b'k' g).0 ≡ record s { state = State.down }
unfolding ctrl dispatch command
killed os s g = refl

-- `u` starts a service in S_DOWN, whether it has a process or not.
up_starts :
    (os : Os) (s : Svdir) (g : Proc)
    → s.state ≡ State.down
    → ((ctrl os s b'u' g).0.state ≡ State.run)
      × ((t : ℕ) × ((ctrl os s b'u' g).0.pid ≡ os.fork_pid t))
unfolding ctrl dispatch command ctrl_up want_now
up_starts os s g d =
    let s₁ : Svdir = record s { want = Want.up } in
    let g₁ = update_status os s₁ (tick g) in
    let s₂ : Svdir = record s₁ { firstrun = 1 } in
    let (t, e) = startservice_forked os s₂ g₁ in
    (ground (arith, startservice_state os s₂ g₁), (t, ground (arith, e)))

reap_first_other :
    (os : Os) (c w : ℕ) (r : Runsv) → c ≢ r.main.pid → reap_first os c w r ≡ (r, false)
unfolding reap_first
reap_first_other os c w r n = let e : (c == r.main.pid) ≡ false = ground arith in rw e

reap_second_other : (os : Os) (c : ℕ) (r : Runsv) → c ≢ r.log.pid → reap_second os c r ≡ r
unfolding reap_second
reap_second_other os c r n = ground arith

-- A child that is neither service's process changes nothing.
pub reap_other :
    (os : Os) (c w : ℕ) (r : Runsv) → c ≢ r.main.pid → c ≢ r.log.pid → reap os c w r ≡ r
unfolding reap
reap_other os c w r m l = rw (reap_first_other os c w r m) (reap_second_other os c r l)

-- `k` puts a running service in S_DOWN before its process has ended, so that `u` starts a second
-- process: the end of the first one, if `fork` gives no number twice and the log service has another
-- one, is then passed over.
pub kill_up_forgets :
    (os : Os) (r : Runsv) (w : ℕ)
    → r.main.state ≡ State.run
    → ((t : ℕ) → os.fork_pid t ≢ r.main.pid)
    → r.log.pid ≢ r.main.pid
    → let r' = ctrl_main os b'u' (ctrl_main os b'k' r) in
      (r'.main.state ≡ State.run) × (r'.main.pid ≢ r.main.pid) × (reap os r.main.pid w r' ≡ r')
unfolding ctrl_main
kill_up_forgets os r w run fresh other =
    let k = killed os r.main r.proc in
    let s = (ctrl os r.main b'k' r.proc).0 in
    let g = (ctrl os r.main b'k' r.proc).1 in
    let (up, (t, forked)) = up_starts os s g (rw k) in
    let new : (ctrl os s b'u' g).0.pid ≢ r.main.pid = λ e. fresh t (sym forked ∙ e) in
    (
      up,
      new,
      reap_other os r.main.pid w (ctrl_main os b'u' (ctrl_main os b'k' r)) (λ e. new (sym e))
          (λ e. other (sym e)),
    )

oneshot_keeps_pid :
    (os : Os) (s : Svdir) (g : Proc)
    → ((stoponeshotservice os s g).0.pid ≡ s.pid)
      × ((stoponeshotservice os s g).0.state ≡ State.down)
unfolding stoponeshotservice oneshot_term oneshot_down
oneshot_keeps_pid os s g = ground arith

-- `x` to a running oneshot.
exit_oneshot :
    (os : Os) (s : Svdir) (g : Proc)
    → s.state ≡ State.run
    → s.oneshot ≡ true
    → s.islog ≡ false
    → ((ctrl os s b'x' g).0.pid ≡ s.pid) × ((ctrl os s b'x' g).0.state ≡ State.down)
unfolding ctrl dispatch command want_now stop_either
exit_oneshot os s g run one log =
    let s₁ : Svdir = record s { want = Want.exit } in
    ground (arith, oneshot_keeps_pid os s₁ (update_status os s₁ (tick g)))

-- `x` to a running oneshot with no live log service makes the process exit in the same round, while
-- the oneshot's process has not ended.
pub exit_leaves_oneshot :
    (os : Os) (r : Runsv)
    → r.main.state ≡ State.run
    → r.main.oneshot ≡ true
    → r.main.islog ≡ false
    → r.log.pid ≡ 0
    → (try_exit os (ctrl_main os b'x' r) ≡ exited (ctrl_main os b'x' r))
      × ((ctrl_main os b'x' r).main.pid ≡ r.main.pid)
unfolding try_exit ctrl_main command
exit_leaves_oneshot os r run one log none_left =
    let (p, d) = exit_oneshot os r.main r.proc run one log in
    (ground (arith, d, ctrl_wants os r.main b'x' r.proc), p)
