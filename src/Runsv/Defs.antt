-- ===== src/Runsv/Defs.antt =====
-- runsv/runsv.c: the state of a supervised service, the rest of the process, and what the process
-- asks of the system and does to it.
use runit.Base.{ℕ, ◌+◌, ◌<◌, Bool, false, List, ◌∷◌, Option, String}
use runit.Time.Taia.{Taia}

-- `S_DOWN`, `S_RUN`, `S_FINISH`, `S_DONE`, `S_STARTING`
pub data State : Type 0 where
  down run finish done starting : State

-- The numbers that the macros stand for.
abbrev pub state_code : State → ℕ
state_code State.down = 0
state_code State.run = 1
state_code State.finish = 2
state_code State.done = 3
state_code State.starting = 4

-- `W_UP`, `W_DOWN`, `W_EXIT`, `W_DONE`
pub data Want : Type 0 where
  up down exit done : Want

-- The bits `C_TERM` and `C_PAUSE`; `C_NOOP` is neither.
pub record Ctrl : Type 0 where
  pub term : Bool
  pub pause : Bool

abbrev pub noop : Ctrl
noop = record { term = false; pause = false }

-- `struct svdir`, without its file descriptors.
pub record Svdir : Type 0 where
  pub pid : ℕ
  pub oldpid : ℕ
  pub firstrun : ℕ
  pub oneshot : Bool
  pub state : State
  pub ctrl : Ctrl
  pub want : Want
  pub start : Taia
  pub wstat : ℕ
  pub islog : Bool

-- The signals that the source names; any other has only its number.
pub data Signal : Type 0 where
  kill term int hup pipe abrt alrm quit segv fpe cont stop usr1 usr2 : Signal
  other : ℕ → Signal

-- A service's files that decide what runsv does.
pub data File : Type 0 where
  no_setsid start_hook stop_hook finish oneshot : File
  control_hook : ℕ → File

-- The files that `update_status` writes, under the service's supervise directory.
pub data StatusFile : Type 0 where
  pid stat status : StatusFile

-- A program's argument: a word, or a number in decimal.
pub data Arg : Type 0 where
  word : String → Arg
  number : ℕ → Arg

-- What `kill` addresses: a process, or the negative number of its group.
pub data Target : Type 0 where
  process group : ℕ → Target

-- What a child does before it becomes its program.
pub record Child : Type 0 where
  pub args : List Arg
  pub in_log : Bool
  pub stdin_pipe : Bool
  pub stdout_pipe : Bool
  pub newsid : Bool

pub data Content : Type 0 where
  pid_line : ℕ → Content
  empty : Content
  words : List String → Content
  bytes : List ℕ → Content

-- What the process does that others can see.
pub data Effect : Type 0 where
  warn : String → Effect
  sleep : ℕ → Effect
  signal : Target → Signal → Effect
  spawn : ℕ → Child → Effect
  hook : File → Effect
  publish : Bool → StatusFile → Content → Effect
  close_logpipe : Effect

-- `stat`: a file and whether its owner may execute it, no such file, or another error.
pub data Stat : Type 0 where
  found : Bool → Stat
  missing failed : Stat

-- `write`: an error, or the bytes written.
pub data Written : Type 0 where
  error : Written
  count : ℕ → Written

-- What the system answers at each call, by the number of calls before it. A call of `fork` fails
-- `fork_failures` times in a row before it returns `fork_pid`. `wait_pid` is the status of the child,
-- or an error that is no interruption. The last three are the macros of sys/wait.h.
pub record Os : Type 0 where
  pub stat : File → ℕ → Stat
  pub open_read : File → ℕ → Bool
  pub open_trunc : StatusFile → ℕ → Bool
  pub rename : StatusFile → ℕ → Bool
  pub write_status : ℕ → Written
  pub fork_failures : ℕ → ℕ
  pub fork_pid : ℕ → ℕ
  pub wait_pid : ℕ → Option ℕ
  pub now : ℕ → Taia
  pub signo : Signal → ℕ
  pub wifsignaled : ℕ → Bool
  pub wtermsig : ℕ → Signal
  pub wexitstatus : ℕ → ℕ

-- `fork` returns a positive number in the parent.
abbrev pub IsOs : Os → Type 0
IsOs os = (t : ℕ) → 0 < os.fork_pid t

-- The globals, the number of system calls so far, and the effects so far, the last one first.
pub record Proc : Type 0 where
  pub pidchanged : Bool
  pub haslog : Bool
  pub calls : ℕ
  pub trace : List Effect

-- A call that only asks.
abbrev pub tick : Proc → Proc
tick g = record g { calls = g.calls + 1 }

abbrev pub emit : Effect → Proc → Proc
emit e g = record g { calls = g.calls + 1; trace = e ∷ g.trace }
