-- ===== src/Runsv/Hooks.antt =====
-- runsv/runsv.c: `classify_signal`, `signame`, `stat_exists` and `custom`.
use runit.Base.{ℕ, ◌+◌, ◌/◌, ◌^◌, Bool, true, false, none, some, String, if◌then◌else◌, ◌==◌}
use runit.Runsv.Defs.{
  Svdir, Signal, File, no_setsid, start_hook, stop_hook, control_hook, Arg, word, number, Target,
  process, group, found, missing, failed, Os, Proc, tick, emit, warn, hook,
}

unfoldable pub classify_signal : Signal → String
classify_signal Signal.kill = "kill"
classify_signal Signal.term = "term"
classify_signal Signal.int = "term"
classify_signal Signal.hup = "term"
classify_signal Signal.pipe = "term"
classify_signal Signal.abrt = "abort"
classify_signal Signal.alrm = "abort"
classify_signal Signal.quit = "abort"
classify_signal _ = "crash"

-- `h/wait.h`: the status shifted right by eight.
abbrev pub wait_exitcode : ℕ → ℕ
wait_exitcode w = w / 2 ^ 8

-- The path that `custom` makes of the character.
unfoldable pub hook_file : ℕ → File
hook_file c = if c == b's' then start_hook else if c == b'd' then stop_hook else control_hook c

module _ (os : Os) where
  unfoldable pub signame : Signal → Arg
  signame Signal.kill = word "KILL"
  signame Signal.term = word "TERM"
  signame Signal.int = word "INT"
  signame Signal.hup = word "HUP"
  signame Signal.pipe = word "PIPE"
  signame Signal.abrt = word "ABRT"
  signame Signal.alrm = word "ALRM"
  signame Signal.quit = word "QUIT"
  signame Signal.segv = word "SEGV"
  signame Signal.fpe = word "FPE"
  signame s = number (os.signo s)

  -- `stat_exists("no-setsid") == 0`
  abbrev pub group_wanted : Proc → Bool
  group_wanted g = elim (os.stat no_setsid g.calls) [ missing ↦ true | _ ↦ false ]

  -- `killpid`: the service's process, or its group.
  abbrev pub kill_target : Svdir → Proc → Target
  kill_target s g = if group_wanted g then group s.pid else process s.pid

  -- An executable file: run it, and wait for it. The child's own part is the effect `hook`.
  unfoldable pub run_hook : File → Proc → Bool × Proc
  run_hook a g =
      if os.fork_failures g.calls == 0
      then elim (os.wait_pid (g.calls + 1)) [
        | none ↦ (false, emit (warn "unable to wait for child") (emit (hook a) g))
        | some w ↦ (wait_exitcode w == 0, tick (emit (hook a) g))
      ]
      else (false, emit (warn "unable to fork for the hook") g)

  unfoldable pub custom : Svdir → ℕ → Proc → Bool × Proc
  unfolding hook_file run_hook
  custom s c g = if s.islog then (false, g) else elim (os.stat (hook_file c) g.calls) [
    | missing ↦ (false, tick g)
    | failed ↦ (false, emit (warn "unable to stat the hook") g)
    | found x ↦ if x then run_hook (hook_file c) (tick g) else (false, tick g)
  ]
