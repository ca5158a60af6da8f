-- ===== src/Runsv/Service.antt =====
-- runsv/runsv.c: `stopservice`, `stoponeshotservice` and `startservice`.
use runit.Base.{ℕ, zero, suc, Bool, true, false, List, [], ◌∷◌, ◌&&◌, not, if◌then◌else◌, ◌==◌, ltb}
use runit.Runsv.Defs.{
  State, Want, noop, Svdir, Signal, Target, Arg, word, number, Child, Os, Proc, tick, emit, warn,
  sleep, signal, spawn,
}
use runit.Runsv.Status.{update_status}
use runit.Runsv.Hooks.{classify_signal, signame, group_wanted, kill_target, custom}

abbrev pub is_exit : Want → Bool
is_exit Want.exit = true
is_exit _ = false

abbrev pub is_finish : State → Bool
is_finish State.finish = true
is_finish _ = false

abbrev pub set_term : Svdir → Svdir
set_term s = record s { ctrl = record { term = true; pause = s.ctrl.pause } }

module _ (os : Os) where
  -- `kill(killpid, SIGTERM); s->ctrl |= C_TERM; update_status(s);`
  unfoldable pub send_term : Target → Svdir → Proc → Svdir × Proc
  send_term t s g = (set_term s, update_status os (set_term s) (emit (signal t Signal.term) g))

  -- `kill(killpid, SIGCONT); custom(s, c);`
  unfoldable pub cont_and_hook : Target → ℕ → Svdir → Proc → Proc
  cont_and_hook t c s g = (custom os s c (emit (signal t Signal.cont) g)).1

  -- The part after the first `if`.
  unfoldable pub stop_wanted : Target → Svdir → Proc → Proc
  unfolding cont_and_hook
  stop_wanted t s g = elim s.want [
    | Want.down ↦ cont_and_hook t b'd' s g
    | Want.exit ↦ cont_and_hook t b'x' s g
    | _ ↦ g
  ]

  unfoldable pub stopservice : Svdir → Proc → Svdir × Proc
  unfolding send_term stop_wanted
  stopservice s g =
      let t = kill_target os s g in
      let g₁ = tick g in
      let (done, g₂) = if s.pid == 0 then (true, g₁) else custom os s b't' g₁ in
      let (s₃, g₃) = if done then (s, g₂) else send_term t s g₂ in (s₃, stop_wanted t s₃ g₃)

  -- `if (s->pid) { kill(killpid, SIGTERM); s->ctrl |= C_TERM; }`
  unfoldable pub oneshot_term : Target → Svdir → Proc → Svdir × Proc
  oneshot_term t s g = if s.pid == 0 then (s, g) else (set_term s, emit (signal t Signal.term) g)

  -- What follows the hook `d`.
  unfoldable pub oneshot_down : Svdir → Proc → Svdir × Proc
  oneshot_down s g =
      let s₁ = record s { state = State.down } in
      let g₁ = update_status os s₁ g in
      (s₁, if is_exit s₁.want then (custom os s₁ b'x' g₁).1 else g₁)

  unfoldable pub stoponeshotservice : Svdir → Proc → Svdir × Proc
  unfolding oneshot_term oneshot_down
  stoponeshotservice s g =
      let (s₁, g₁) = oneshot_term (kill_target os s g) s (tick g) in
      oneshot_down s₁ (custom os s₁ b'd' g₁).1

  -- `./finish` and how the last run ended.
  unfoldable pub finish_args : Svdir → List Arg
  unfolding classify_signal signame
  finish_args s =
      if os.wifsignaled s.wstat
      then word "./finish"
        ∷ word (classify_signal (os.wtermsig s.wstat))
        ∷ signame os (os.wtermsig s.wstat)
        ∷ []
      else word "./finish" ∷ word "exit" ∷ number (os.wexitstatus s.wstat) ∷ []

  -- `./run`, after the hooks `u` and `s`. The test is of the array `firstrun`, so it always holds;
  -- for the hook's time the state is S_STARTING, which the hook does not read.
  unfoldable pub run_args : Svdir → Proc → List Arg × Proc
  run_args s g =
      let g₁ = (custom os s b'u' g).1 in
      let g₂ = (custom os (record s { state = State.starting }) b's' g₁).1 in
      (word "./run" ∷ number s.firstrun ∷ [], g₂)

  -- `while ((p = fork()) == -1) { warn; sleep(5); }`
  unfoldable pub fork_retries : ℕ → Proc → Proc
  fork_retries zero g = g
  fork_retries (suc n) g =
      fork_retries n (emit (sleep 5) (emit (warn "unable to fork, sleeping") g))

  unfoldable pub fork : Proc → ℕ × Proc
  unfolding fork_retries
  fork g = let g₁ = fork_retries (os.fork_failures g.calls) g in (os.fork_pid g₁.calls, tick g₁)

  -- What the child sets up.
  unfoldable pub child : Svdir → Bool → Bool → List Arg → Child
  child s haslog newsid args = record {
    args = args;
    in_log = haslog && s.islog;
    stdin_pipe = haslog && s.islog;
    stdout_pipe = haslog && not s.islog;
    newsid = newsid;
  }

  -- What the parent does after the fork.
  unfoldable pub started : ℕ → Svdir → Proc → Svdir × Proc
  started p s g =
      let s₁ =
        if is_finish s.state then s else record s { start = os.now g.calls; state = State.run } in
      let s₂ = record s₁ { pid = p; ctrl = noop } in
      (s₂, update_status os s₂ (record (tick g) { pidchanged = true }))

  -- `if (s->firstrun != 0 && s->firstrun != 1) s->firstrun = 1;`
  unfoldable pub clip_firstrun : Svdir → Svdir
  clip_firstrun s = record s { firstrun = if ltb 1 s.firstrun then 1 else s.firstrun }

  -- `run[]`
  unfoldable pub start_args : Svdir → Proc → List Arg × Proc
  unfolding finish_args run_args
  start_args s g = if is_finish s.state then (finish_args s, g) else run_args s g

  -- `if (s->pid != 0) stopservice(s);`
  unfoldable pub stop_stale : Svdir → Proc → Svdir × Proc
  stop_stale s g = if s.pid == 0 then (s, g) else stopservice s g

  -- From the fork on.
  unfoldable pub launch : Bool → List Arg → Svdir → Proc → Svdir × Proc
  unfolding fork child started
  launch newsid args s g =
      let (p, g₁) = fork g in started p s (emit (spawn p (child s g.haslog newsid args)) g₁)

  unfoldable pub startservice : Svdir → Proc → Svdir × Proc
  unfolding clip_firstrun start_args stop_stale launch
  startservice s g =
      let s₁ = clip_firstrun s in
      let (args, g₁) = start_args s₁ (tick g) in
      let (s₂, g₂) = stop_stale s₁ g₁ in launch (group_wanted os g) args s₂ g₂
