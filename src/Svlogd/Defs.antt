-- ===== src/Svlogd/Defs.antt =====
-- utils/svlogd.c: `struct logdir`, and what the system answers.
use runit.Base.{ℕ, ◌+◌, Bool, List}
use runit.Time.Taia.{Taia}

-- A file of a log directory, by its name.
pub record File : Type 0 where
  pub name : List ℕ
  pub content : List ℕ

-- `struct logdir`, with what stands in the directory for its descriptors: the bytes of `current`, and
-- the other files in the order of `readdir`. The buffer is not here: it is empty whenever its bytes
-- are written, since `buffer_flush` empties it first. `ip` and `port` are `udpaddr`.
pub record Logdir : Type 0 where
  pub is_open : Bool
  pub size : ℕ
  pub sizemax : ℕ
  pub nmax : ℕ
  pub nmin : ℕ
  pub tmax : ℕ
  pub trotate : Taia
  pub processor : List ℕ
  pub ppid : ℕ
  pub fnsave : List ℕ
  pub match : ℕ
  pub matcherr : ℕ
  pub ip : List ℕ
  pub port : ℕ
  pub udponly : Bool
  pub prefix : List ℕ
  pub inst : List ℕ
  pub current : List ℕ
  pub files : List File

-- `write`: ENOSPC, another error, or how much it took, at most the length that was given.
pub data Answer : Type 0 where
  full failed : Answer
  took : ℕ → Answer

-- What the system answers, by the number of calls before: the time at which a name for a log file was
-- found that no file has; whether a file can be unlinked; the number of a new process; how often in a
-- row a processor fails before it succeeds; and what it has written then. All other calls are tried again until they succeed.
pub record Os : Type 0 where
  pub free_stamp : ℕ → Taia
  pub unlinks : List ℕ → ℕ → Bool
  pub fork_pid : ℕ → ℕ
  pub processor_fails : ℕ → ℕ
  pub processed : ℕ → List ℕ

-- The number of calls so far, and the global `trotate`.
pub record Glob : Type 0 where
  pub calls : ℕ
  pub next_rotate : Taia

abbrev pub tick : Glob → Glob
tick g = record g { calls = g.calls + 1 }
