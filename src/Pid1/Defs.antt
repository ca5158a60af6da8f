-- ===== src/Pid1/Defs.antt =====
-- pid1/runit.c: the state of process number 1, and what it asks of the system and does to it.
use runit.Base.{
  ℕ, zero, suc, ◌+◌, ◌/◌, ◌%◌, ◌^◌, ◌<◌, Bool, true, false, List, ◌∷◌, String, ◌==◌, if◌then◌else◌,
}

-- `/etc/runit/1` to `/etc/runit/4`, by their index in `stage`; the early service runner; and the
-- program of the ctrl-alt-del request.
pub data Program : Type 0 where
  stage : ℕ → Program
  early_runner ctrlaltdel : Program

-- The files whose mode is looked at.
pub data File : Type 0 where
  ctrlaltdel stopit reboot : File

-- What is asked of the kernel at the end.
pub data Reboot : Type 0 where
  autoboot power_off halt_system : Reboot

pub data Effect : Type 0 where
  warn info : String → Effect
  sleep : ℕ → Effect
  -- A new process that runs a program.
  spawn : ℕ → Program → Effect
  terminate kill kill_group : ℕ → Effect
  kill_all sync : Effect
  -- `chmod(STOPIT, 0)`, and a byte into the self-pipe.
  clear_stopit wake : Effect
  reboot_system : Reboot → Effect

-- What the system answers, by the number of calls before: whether a file exists and its owner may
-- execute it; how often `fork` fails before it returns a number; and the status that
-- `wait_pid` gives.
pub record Os : Type 0 where
  pub executable : File → ℕ → Bool
  pub fork_failures : ℕ → ℕ
  pub fork_pid : ℕ → ℕ
  pub wait_status : ℕ → ℕ

-- `fork` returns a positive number in the parent.
abbrev pub IsOs : Os → Type 0
IsOs os = (t : ℕ) → 0 < os.fork_pid t

-- `curstage`, `pid`, `earlysvcpid`, `sigc`, `sigi`, the number of calls so far, and the effects, the
-- last one first.
pub record Init : Type 0 where
  pub curstage : ℕ
  pub pid : ℕ
  pub earlysvcpid : ℕ
  pub sigc : ℕ
  pub sigi : ℕ
  pub calls : ℕ
  pub trace : List Effect

abbrev pub emit : Effect → Init → Init
emit e g = record g { calls = g.calls + 1; trace = e ∷ g.trace }

-- The macros of h/wait.h.
abbrev pub wait_crashed : ℕ → Bool
wait_crashed w = if w % 128 == 0 then false else true

abbrev pub wait_exitcode : ℕ → ℕ
wait_exitcode w = w / 2 ^ 8

-- `while ((pid =fork()) == -1) { warn; sleep(5); }`
unfoldable pub fork_retries : ℕ → Init → Init
fork_retries zero g = g
fork_retries (suc n) g = fork_retries n (emit (sleep 5) (emit (warn "unable to fork, pausing") g))

-- A process that runs a program, and its number.
unfoldable pub start : Os → Program → Init → ℕ × Init
unfolding fork_retries
start os p g =
    let g₁ = fork_retries (os.fork_failures g.calls) g in
    (os.fork_pid g₁.calls, emit (spawn (os.fork_pid g₁.calls) p) g₁)
