-- ===== src/Runsv/Tests.antt =====
-- runsv/runsv.c: the theorems at concrete inputs.
use runit.Base.{◌+◌, ◌≡◌, ◌≢◌, true, false, [], ◌∷◌, none, some, arith, refl, ltb}
use runit.Time.Taia.{Taia}
use runit.Runsv.Defs.{State, Want, noop, Svdir, Signal, Stat, Written, Os, IsOs, Proc}
use runit.Runsv.Hooks.{custom, kill_target}
use runit.Runsv.Control.{ctrl}
use runit.Runsv.Loop.{Runsv, Found, init, reap, reap_main}
use runit.Runsv.Round.{Input, exited, rounds, try_exit, ctrl_main}
use runit.Runsv.Tracked.{IsTracked, IsSound, ctrl-IsSound}
use runit.Runsv.Reap.{IsOrderly}
use runit.Runsv.Reach.{end, rounds-init-IsOrderly}
use runit.Runsv.Commands.{ctrl_wants}
use runit.Runsv.Signals.{signals, paused, ctrl_signals}
use runit.Runsv.Life.{HasFiles, after_end, reap_main_lem, after_end_lem}
use runit.Runsv.Faults.{kill_up_forgets, exit_leaves_oneshot}

abbrev clock : Taia
clock = record { sec = 4611686018427387914; nano = 0; atto = 0 }

-- No hooks, no `finish`, no `oneshot`, and a new process number at each call.
abbrev system : Os
system = record {
  stat = λ f t. Stat.missing;
  open_read = λ f t. false;
  open_trunc = λ f t. true;
  rename = λ f t. true;
  write_status = λ t. Written.count 20;
  fork_failures = λ t. 0;
  fork_pid = λ t. t + 10;
  wait_pid = λ t. none;
  now = λ t. clock;
  signo = λ s. 33;
  wifsignaled = λ w. false;
  wtermsig = λ w. Signal.other 33;
  wexitstatus = λ w. w;
}

system-IsOs : IsOs system
system-IsOs t = omega arith

system-HasFiles : HasFiles system false false
system-HasFiles = record { finish_opens = λ t. refl; oneshot_opens = λ t. refl }

abbrev idle : Proc
idle = record { pidchanged = true; haslog = false; calls = 0; trace = [] }

abbrev service : Svdir
service = record {
  pid = 7;
  oldpid = 0;
  firstrun = 1;
  oneshot = false;
  state = State.run;
  ctrl = noop;
  want = Want.up;
  start = clock;
  wstat = 0;
  islog = false;
}

service-IsTracked : IsTracked service
service-IsTracked = record { run_pid = λ e. omega arith; done_pid = λ e. cc; settled = λ e. cc }

abbrev no_log : Svdir
no_log = record service { pid = 0; state = State.down; firstrun = 0 }

abbrev supervisor : Runsv
supervisor = record { main = service; log = no_log; sigterm = false; proc = idle }

abbrev found : Found
found = record { noauto = false; oneshot = false; has_log = false; log_down = false }

-- A round in which nothing comes.
abbrev nothing : Input
nothing = record { signalled = false; children = []; main_char = none; log_char = none }

abbrev child_ends : Input
child_ends = record nothing { children = (16, 0) ∷ [] }

abbrev told_to_exit : Input
told_to_exit = record nothing { main_char = some b'x' }

rounds-init-IsOrderly_example :
    IsOrderly (end (rounds system (nothing ∷ child_ends ∷ told_to_exit ∷ []) (init system found)))
rounds-init-IsOrderly_example =
    rounds-init-IsOrderly system found (nothing ∷ child_ends ∷ told_to_exit ∷ []) system-IsOs

ctrl-IsSound_example : IsSound (ctrl system service b'd' idle)
ctrl-IsSound_example = ctrl-IsSound system service b'd' idle system-IsOs service-IsTracked tt

after_end_lem_example :
    ((after_end system 256 supervisor).state ≡ State.run)
    × (ltb 0 (after_end system 256 supervisor).pid ≡ true)
after_end_lem_example =
    after_end_lem system false 256 supervisor system-IsOs system-HasFiles refl tt

reap_main_lem_example :
    ((reap_main system 256 service idle).0.state ≡ State.down)
    × ((reap_main system 256 service idle).0.want ≡ Want.up)
    × ((reap_main system 256 service idle).0.wstat ≡ 256)
reap_main_lem_example = reap_main_lem system false false 256 service idle system-HasFiles

ctrl_wants_example :
    ((ctrl system service b'd' idle).0.want ≡ Want.down)
    × ((ctrl system service b'd' idle).0.islog ≡ false)
    × ((ctrl system service b'd' idle).0.oneshot ≡ false)
ctrl_wants_example = ctrl_wants system service b'd' idle

ctrl_signals_example :
    ((ctrl system service b'p' idle).0 ≡ paused true service)
    × (signals (ctrl system service b'p' idle).1.trace
        ≡ (kill_target system service idle, Signal.stop) ∷ [])
unfolding custom
ctrl_signals_example = ctrl_signals system service b'p' idle Signal.stop refl

-- A supervisor of a service that is down.
abbrev resting : Runsv
resting = record supervisor {
  main = record service { pid = 0; state = State.down; want = Want.down };
}

kill_up_forgets_example :
    let r' = ctrl_main system b'u' (ctrl_main system b'k' supervisor) in
    (r'.main.state ≡ State.run) × (r'.main.pid ≢ 7) × (reap system 7 0 r' ≡ r')
kill_up_forgets_example =
    kill_up_forgets system supervisor 0 refl (λ t e. absurd (omega arith)) (λ e. cc)

abbrev oneshot : Runsv
oneshot = record supervisor { main = record service { oneshot = true } }

exit_leaves_oneshot_example :
    (try_exit system (ctrl_main system b'x' oneshot) ≡ exited (ctrl_main system b'x' oneshot))
    × ((ctrl_main system b'x' oneshot).main.pid ≡ 7)
exit_leaves_oneshot_example = exit_leaves_oneshot system oneshot refl refl refl refl
