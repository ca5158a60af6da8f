-- ===== src/Restartd/Defs.antt =====
-- svc.restartd/svc.h: `struct Service`, and what the daemon asks the system for.
use runit.Base.{ℕ, ◌+◌, Bool, true, false, List, ◌∷◌, Option}

-- The values of `Type`.
pub data Kind : Type 0 where
  simple forking oneshot : Kind

-- The values of `State`, `AuxState`, `Want` and `AuxWant` that the code uses.
pub data State : Type 0 where
  inactive exited start_pre start start_post online stop_post unset : State

pub data Effect : Type 0 where
  -- A new process that runs a command, and a watch for its forks and its exit.
  spawn : ℕ → List (List ℕ) → Effect
  attach detach : ℕ → Effect
  terminate : ℕ → Effect
  remove_pidfile reap : Effect

-- The file of `PIDFile`: `stat` says ENOENT, it cannot be opened, or its bytes. `stat_exists` is
-- not 0 for the other errors of `stat` too.
pub data PidFile : Type 0 where
  missing unreadable : PidFile
  holds : List ℕ → PidFile

-- What the system answers, by the number of calls before: `fork`, nothing for -1, and the file.
pub record Os : Type 0 where
  pub fork : ℕ → Option ℕ
  pub pid_file : ℕ → PidFile

-- The struct, less fields that are only written, with the number of calls so far and the effects,
-- the last one first. Strings are lists of bytes, and null pointers nothing.
pub record Service : Type 0 where
  pub kind : Kind
  pub pid_file : Option (List ℕ)
  pub exec_start_pre : Option (List ℕ)
  pub exec_start : Option (List ℕ)
  pub exec_start_post : Option (List ℕ)
  pub exec_stop_post : Option (List ℕ)
  pub state : State
  pub aux_state : State
  pub want : State
  pub aux_want : State
  pub main_pid_exited : ℕ
  pub aux_main_pid_exited : ℕ
  pub pid_file_read : Bool
  pub main_pid : ℕ
  pub pids_purged : Bool
  pub aux_main_pid : ℕ
  pub aux_pids_purged : Bool
  pub pl : List ℕ
  pub aux_pl : List ℕ
  pub calls : ℕ
  pub trace : List Effect

abbrev pub emit : Effect → Service → Service
emit e s = record s { calls = s.calls + 1; trace = e ∷ s.trace }

-- The tests of `State` and the like.
abbrev pub is_inactive : State → Bool
is_inactive inactive = true
is_inactive _ = false

abbrev pub is_exited : State → Bool
is_exited exited = true
is_exited _ = false

abbrev pub is_start_pre : State → Bool
is_start_pre start_pre = true
is_start_pre _ = false

abbrev pub is_start : State → Bool
is_start start = true
is_start _ = false

abbrev pub is_start_post : State → Bool
is_start_post start_post = true
is_start_post _ = false

abbrev pub is_online : State → Bool
is_online online = true
is_online _ = false

abbrev pub is_stop_post : State → Bool
is_stop_post stop_post = true
is_stop_post _ = false

abbrev pub is_forking : Kind → Bool
is_forking forking = true
is_forking _ = false

abbrev pub is_oneshot : Kind → Bool
is_oneshot oneshot = true
is_oneshot _ = false

abbrev pub is_simple : Kind → Bool
is_simple simple = true
is_simple _ = false
