-- ===== src/Runsv/Signals.antt =====
-- runsv/runsv.c: the commands of `ctrl` that send a signal.
use runit.Base.{
  ℕ, ◌≡◌, refl, Bool, true, false, List, [], ◌∷◌, if◌then◌else◌, arith, Option, none, some, ◌==◌,
  ◌&&◌, ◌||◌, not, ◌∙◌,
}
use runit.Runsv.Defs.{State, Svdir, Signal, Target, Effect, Os, Proc, tick, signal}
use runit.Runsv.Status.{update_status, update_pid, update_stat, update_bytes}
use runit.Runsv.Hooks.{custom, kill_target}
use runit.Runsv.Control.{is_run, Command, dispatch, ctrl, pass_signal, command}

-- The signals that were sent, the last one first.
abbrev pub signals : List Effect → List (Target × Signal)
signals [] = []
signals (signal t sig ∷ es) = (t, sig) ∷ signals es
signals (_ ∷ es) = signals es

custom-signals :
    (os : Os) (s : Svdir) (c : ℕ) (g : Proc) → signals (custom os s c g).1.trace ≡ signals g.trace
unfolding custom
custom-signals os s c g = ground arith

update_pid-signals :
    (os : Os) (s : Svdir) (g : Proc) → signals (update_pid os s g).0.trace ≡ signals g.trace
unfolding update_pid
update_pid-signals os s g = ground arith

update_stat-signals :
    (os : Os) (s : Svdir) (g : Proc) → signals (update_stat os s g).0.trace ≡ signals g.trace
unfolding update_stat
update_stat-signals os s g = ground arith

update_bytes-signals :
    (os : Os) (s : Svdir) (g : Proc) → signals (update_bytes os s g).trace ≡ signals g.trace
unfolding update_bytes
update_bytes-signals os s g = ground arith

update_status-signals :
    (os : Os) (s : Svdir) (g : Proc) → signals (update_status os s g).trace ≡ signals g.trace
unfolding update_status
update_status-signals os s g = ground (
  arith,
  update_pid-signals os s g,
  update_stat-signals os s g,
  update_stat-signals os s (update_pid os s g).0,
  update_bytes-signals os s (update_stat os s g).0,
  update_bytes-signals os s (update_stat os s (update_pid os s g).0).0,
)

-- A signal goes out to a running service if its hook has not succeeded.
abbrev sends : Os → Target → ℕ → Signal → Svdir → Proc → List (Target × Signal)
sends os t c sig s g =
    if is_run s.state && not (custom os s c g).0
    then (t, sig) ∷ signals g.trace
    else signals g.trace

pass_signal-signals :
    (os : Os) (t : Target) (c : ℕ) (sig : Signal) (s : Svdir) (g : Proc)
    → signals (pass_signal os t c sig s g).trace ≡ sends os t c sig s g
unfolding pass_signal
pass_signal-signals os t c sig s g = ground (arith, custom-signals os s c g)

unfoldable signal_of : Command → Option Signal
signal_of Command.kill = some Signal.kill
signal_of Command.pause = some Signal.stop
signal_of Command.cont = some Signal.cont
signal_of Command.alarm = some Signal.alrm
signal_of Command.hup = some Signal.hup
signal_of Command.int = some Signal.int
signal_of Command.quit = some Signal.quit
signal_of Command.usr1 = some Signal.usr1
signal_of Command.usr2 = some Signal.usr2
signal_of _ = none

-- The service's record with another state or another mark of a pause.
abbrev pub paused : Bool → Svdir → Svdir
paused b s = record s { ctrl = record { term = s.ctrl.term; pause = b } }

unfoldable changed_by : Command → Svdir → Svdir
changed_by Command.kill s = record s { state = State.down }
changed_by Command.pause s = paused true s
changed_by Command.cont s = paused false s
changed_by _ s = s

abbrev Sent : Command → Type 0
Sent k =
    (os : Os) (t : Target) (c : ℕ) (sig : Signal) (s : Svdir) (g : Proc)
    → signal_of k ≡ some sig
    → ((dispatch os k t c s g).0 ≡ changed_by k s)
      × (signals (dispatch os k t c s g).1.trace ≡ sends os t c sig s g)

-- The option holds the signal that is sent.
sent_same :
    (os : Os) (t : Target) (c : ℕ) (a sig : Signal) (s : Svdir) (g : Proc)
    → Path (Option Signal) (some a) (some sig)
    → signals (pass_signal os t c a s g).trace ≡ sends os t c sig s g
sent_same os t c a sig s g e = let k : a ≡ sig = cc in rw k (pass_signal-signals os t c sig s g)

dispatch-sends : (k : Command) → Sent k
unfolding dispatch signal_of changed_by
dispatch-sends Command.kill os t c sig s g e = (refl, sent_same os t c Signal.kill sig s g e)
dispatch-sends Command.pause os t c sig s g e = (
  refl,
  update_status-signals os (paused true s) (pass_signal os t c Signal.stop s g)
      ∙ sent_same os t c Signal.stop sig s g e,
)
dispatch-sends Command.cont os t c sig s g e = (
  refl,
  update_status-signals os (paused false s) (pass_signal os t c Signal.cont s g)
      ∙ sent_same os t c Signal.cont sig s g e,
)
dispatch-sends Command.alarm os t c sig s g e = (refl, sent_same os t c Signal.alrm sig s g e)
dispatch-sends Command.hup os t c sig s g e = (refl, sent_same os t c Signal.hup sig s g e)
dispatch-sends Command.int os t c sig s g e = (refl, sent_same os t c Signal.int sig s g e)
dispatch-sends Command.quit os t c sig s g e = (refl, sent_same os t c Signal.quit sig s g e)
dispatch-sends Command.usr1 os t c sig s g e = (refl, sent_same os t c Signal.usr1 sig s g e)
dispatch-sends Command.usr2 os t c sig s g e = (refl, sent_same os t c Signal.usr2 sig s g e)
dispatch-sends _ os t c sig s g e = absurd cc

-- The signals by their characters, and what the commands for them change in the service's record.
abbrev pub signal_for : ℕ → Option Signal
signal_for c =
    if c == b'k'
    then some Signal.kill
    else if c == b'p'
    then some Signal.stop
    else if c == b'c'
    then some Signal.cont
    else if c == b'a'
    then some Signal.alrm
    else if c == b'h'
    then some Signal.hup
    else if c == b'i'
    then some Signal.int
    else if c == b'q'
    then some Signal.quit
    else if c == b'1'
    then some Signal.usr1
    else if c == b'2'
    then some Signal.usr2
    else none

abbrev pub changed_for : ℕ → Svdir → Svdir
changed_for c s =
    if c == b'k'
    then record s { state = State.down }
    else if (c == b'p') || (c == b'c')
    then paused (c == b'p') s
    else s

signal_lem : (c : ℕ) → signal_of (command c) ≡ signal_for c
unfolding command signal_of
signal_lem c = ground arith

changed_lem : (c : ℕ) (s : Svdir) → changed_by (command c) s ≡ changed_for c s
unfolding command changed_by
changed_lem c s = ground arith

-- The commands `k`, `p`, `c`, `a`, `h`, `i`, `q`, `1` and `2` send one signal each, KILL, STOP, CONT,
-- ALRM, HUP, INT, QUIT, USR1 and USR2: to the service's process or group if the service is running
-- and its hook has not succeeded, and none else. Of the service's record, `k` sets the state to down,
-- `p` and `c` set and take back the mark of a pause, and the others leave it.
pub ctrl_signals :
    (os : Os) (s : Svdir) (c : ℕ) (g : Proc) (sig : Signal)
    → signal_for c ≡ some sig
    → ((ctrl os s c g).0 ≡ changed_for c s)
      × (signals (ctrl os s c g).1.trace ≡ (
          if is_run s.state && not (custom os s c (tick g)).0
          then (kill_target os s g, sig) ∷ signals g.trace
          else signals g.trace))
unfolding ctrl
ctrl_signals os s c g sig e =
    let k =
      dispatch-sends (command c) os (kill_target os s g) c sig s (tick g) (signal_lem c ∙ e) in
    (k.0 ∙ changed_lem c s, k.1)
