-- ===== src/Sv/Defs.antt =====
-- sv/sv.c: the globals, and what the program finds in a service's directory.
use runit.Base.{ℕ, ◌+◌, ◌*◌, ◌%◌, ◌^◌, Bool, List, ◌∷◌, Option, String, get_or, ℤ}

-- The first word of a report: `OFFLINEWANTUP`, `ONLINEWANTDOWN`, `RUN` or `DOWN`.
pub data Word : Type 0 where
  offline_want_up online_want_down run down : Word

-- What `svstatus_print` prints, in the order of the line; the name is the service's or its log's.
pub record Report : Type 0 where
  pub word : Option Word
  pub seconds : ℕ
  pub of_log : Bool
  pub pid : Option ℕ
  pub paused : Bool
  pub got_term : Bool

-- A line that goes to the standard output, by its kind.
pub data Line : Type 0 where
  ok fail warn : String → Line
  report : Report → Line
  -- The prefixes of a report when the time is over, and a log's directory that cannot be entered.
  time_out kill log_unknown : Line

-- `rc`, `r`, `svstatus`, `lsb`, `tstart.sec`, `tnow.sec`, and the lines printed, the last one first.
pub record Sv : Type 0 where
  pub rc : ℕ
  pub r : ℤ
  pub svstatus : List ℕ
  pub lsb : Bool
  pub tstart : ℕ
  pub tnow : ℕ
  pub lines : List Line
  -- What went to the standard error.
  pub errors : List String

-- Opening a named pipe for writing: done, no reader (`error_nodevice`), or another error.
pub data Opened : Type 0 where
  opened no_device failed : Opened

-- `read` of supervise/status: an error, or the bytes.
pub data Read : Type 0 where
  error : Read
  got : List ℕ → Read

-- The file `check`: missing, another error of `stat`, or there.
pub data Script : Type 0 where
  missing unknown there : Script

-- What the system answers in a service's directory.
pub record Service : Type 0 where
  pub ok_pipe : Opened
  pub status_opens : Bool
  pub status_read : Read
  pub control_pipe : Opened
  -- How many bytes the control pipe takes, if `write` is no error.
  pub control_takes : Option ℕ
  pub script : Script
  -- Whether `fork` succeeds, and the status of the script, if `wait_pid` is no error.
  pub forks : Bool
  pub script_status : Option ℕ

-- The directory of a service: what it answers to each function that looks at it, by the number of
-- those before, the file `down`, and the service `log`, if `chdir` finds it.
pub data Log : Type 0 where
  no_log log_error : Log
  log : Service → Script → Log

pub record Place : Type 0 where
  pub look : ℕ → Service
  pub down : Script
  pub log : Log

-- `svstatus[i]`; the array is static, so it begins as zeros.
abbrev pub at : Sv → ℕ → ℕ
at g i = get_or g.svstatus i 0

-- The process number, from `svstatus[15]` down to `svstatus[12]`.
unfoldable pub status_pid : Sv → ℕ
status_pid g =
    (((at g 15 * 2 ^ 8 + at g 14) * 2 ^ 8 % 2 ^ 32 + at g 13) * 2 ^ 8 % 2 ^ 32 + at g 12) % 2 ^ 32

abbrev pub say : Line → Sv → Sv
say l g = record g { lines = l ∷ g.lines }

-- `fail` and `warn` count into `rc`.
abbrev pub fail_with : String → Sv → Sv
fail_with m g = record g { rc = g.rc + 1; lines = fail m ∷ g.lines }

abbrev pub warn_with : String → Sv → Sv
warn_with m g = record g { rc = g.rc + 1; lines = warn m ∷ g.lines }
