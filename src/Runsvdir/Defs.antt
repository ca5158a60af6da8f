-- ===== src/Runsvdir/Defs.antt =====
-- runsvdir/runsvdir.c: the table of services, and what the program asks and does.
use runit.Base.{ℕ, ◌+◌, Bool, List, ◌∷◌, Option, String}

-- An element of `sv[]`.
pub record Entry : Type 0 where
  pub dev : ℕ
  pub ino : ℕ
  pub pid : ℕ
  pub isgone : Bool

-- A name that `readdir` returns: whether it begins with a dot, and what `stat` says of it.
pub data Stat : Type 0 where
  failed : Stat
  -- Device, inode, and whether it is a directory.
  found : ℕ → ℕ → Bool → Stat

pub record Name : Type 0 where
  pub hidden : Bool
  pub stat : Stat

pub data Effect : Type 0 where
  warn : String → Effect
  -- A new process that becomes `/sbin/runsv` in this directory.
  start : ℕ → ℕ → ℕ → Effect
  terminate : ℕ → Effect
  sleep : ℕ → Effect
  -- A dot that goes into the pipe of the log.
  log_mark : Effect

-- `sv[0 .. svnum)`, `check`, the number of system calls so far, and the effects, the last one first.
pub record Dir : Type 0 where
  pub sv : List Entry
  pub check : Bool
  pub calls : ℕ
  pub trace : List Effect

-- What `fork` answers, by the number of calls before: nothing for -1.
abbrev pub Fork : Type 0
Fork = ℕ → Option ℕ

abbrev pub max_services : ℕ
max_services = 1000

abbrev pub emit : Effect → Dir → Dir
emit e g = record g { calls = g.calls + 1; trace = e ∷ g.trace }
