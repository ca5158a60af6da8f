-- ===== src/Runsv/Control.antt =====
-- runsv/runsv.c: `ctrl`, the commands that come through supervise/control.
use runit.Base.{ℕ, Bool, true, false, ◌&&◌, ◌||◌, not, if◌then◌else◌, ◌==◌}
use runit.Runsv.Defs.{State, Want, Svdir, Signal, Target, Os, Proc, tick, emit, signal}
use runit.Runsv.Status.{update_status}
use runit.Runsv.Hooks.{kill_target, custom}
use runit.Runsv.Service.{stopservice, stoponeshotservice, startservice}

-- The cases of the `switch`.
pub data Command : Type 0 where
  down up exit term kill pause cont once : Command
  -- Those that only send a signal.
  alarm hup int quit usr1 usr2 : Command
  unknown : Command

unfoldable pub command : ℕ → Command
command c =
    if c == b'd'
    then Command.down
    else if c == b'u'
    then Command.up
    else if c == b'x'
    then Command.exit
    else if c == b't'
    then Command.term
    else if c == b'k'
    then Command.kill
    else if c == b'p'
    then Command.pause
    else if c == b'c'
    then Command.cont
    else if c == b'o'
    then Command.once
    else if c == b'a'
    then Command.alarm
    else if c == b'h'
    then Command.hup
    else if c == b'i'
    then Command.int
    else if c == b'q'
    then Command.quit
    else if c == b'1'
    then Command.usr1
    else if c == b'2'
    then Command.usr2
    else Command.unknown

abbrev pub is_run : State → Bool
is_run State.run = true
is_run _ = false

abbrev pub is_down : State → Bool
is_down State.down = true
is_down _ = false

abbrev pub is_done : State → Bool
is_done State.done = true
is_done _ = false

module _ (os : Os) where
  -- `if ((s->state == S_RUN) && ! custom(s, c)) kill(killpid, sig);`
  unfoldable pub pass_signal : Target → ℕ → Signal → Svdir → Proc → Proc
  pass_signal t c sig s g =
      if is_run s.state
      then (let (done, g₁) = custom os s c g in if done then g₁ else emit (signal t sig) g₁)
      else g

  -- The same tests in the cases `d` and `x`.
  unfoldable pub stop_either : Svdir → Proc → Svdir × Proc
  stop_either s g =
      if is_run s.state && not s.oneshot
      then stopservice os s g
      else if (is_run s.state && s.oneshot) || is_done s.state
      then stoponeshotservice os s g
      else (s, g)

  -- `s->want = w; update_status(s);`
  unfoldable pub want_now : Want → Svdir → Proc → Svdir × Proc
  want_now w s g = (record s { want = w }, update_status os (record s { want = w }) g)

  unfoldable pub ctrl_up : Svdir → Proc → Svdir × Proc
  ctrl_up s g =
      let (s₁, g₁) = want_now Want.up s g in
      elim s₁.state [
        | State.down ↦ startservice os (record s₁ { firstrun = 1 }) g₁
        | State.done ↦ startservice os s₁ g₁
        | _ ↦ (s₁, g₁)
      ]

  -- A case of the `switch`, with `killpid`; `c` is the character, which the hooks are named after.
  unfoldable pub dispatch : Command → Target → ℕ → Svdir → Proc → Svdir × Proc
  unfolding pass_signal stop_either want_now ctrl_up
  dispatch Command.down t c s g = let (s₁, g₁) = want_now Want.down s g in stop_either s₁ g₁
  dispatch Command.up t c s g = ctrl_up s g
  dispatch Command.exit t c s g =
      if s.islog then (s, g) else (let (s₁, g₁) = want_now Want.exit s g in stop_either s₁ g₁)
  dispatch Command.term t c s g = if is_run s.state then stopservice os s g else (s, g)
  dispatch Command.kill t c s g = (record s { state = State.down }, pass_signal t c Signal.kill s g)
  dispatch Command.pause t c s g =
      let s₁ = record s { ctrl = record { term = s.ctrl.term; pause = true } } in
      (s₁, update_status os s₁ (pass_signal t c Signal.stop s g))
  dispatch Command.cont t c s g =
      let s₁ = record s { ctrl = record { term = s.ctrl.term; pause = false } } in
      (s₁, update_status os s₁ (pass_signal t c Signal.cont s g))
  dispatch Command.once t c s g =
      let (s₁, g₁) = want_now Want.down s g in
      if is_down s₁.state then startservice os s₁ g₁ else (s₁, g₁)
  dispatch Command.alarm t c s g = (s, pass_signal t c Signal.alrm s g)
  dispatch Command.hup t c s g = (s, pass_signal t c Signal.hup s g)
  dispatch Command.int t c s g = (s, pass_signal t c Signal.int s g)
  dispatch Command.quit t c s g = (s, pass_signal t c Signal.quit s g)
  dispatch Command.usr1 t c s g = (s, pass_signal t c Signal.usr1 s g)
  dispatch Command.usr2 t c s g = (s, pass_signal t c Signal.usr2 s g)
  dispatch Command.unknown t c s g = (s, g)

  unfoldable pub ctrl : Svdir → ℕ → Proc → Svdir × Proc
  unfolding dispatch
  ctrl s c g = dispatch (command c) (kill_target os s g) c s (tick g)
