-- ===== src/Restartd/Tests.antt =====
-- The theorems on svc.restartd at concrete services.
use runit.Base.{true, ℕ, suc, ◌+◌, ◌≡◌, ◌⊎◌, inl, false, List, [], ◌∷◌, some, arith, refl, ◌<◌}
use runit.Restartd.Defs.{Effect, spawn, attach, Kind, State, reap, detach, Os, Service, missing}
use runit.Restartd.Start.{words, svc_start_pre, forkexecve, forked, in_start_pre}
use runit.Restartd.Machine.{
  Event, process_proc_kevents, round, run, clearsvc, again_if_exited, transition,
}
use runit.Restartd.Stuck.{commands, IsStuck, stuck_forever}
use runit.Restartd.Clean.{IsOs}
use runit.Restartd.OneRun.{one_run}
use runit.Restartd.Oneshot.{IsBareOneshot}
use runit.Restartd.Cycle.{Commands, with_process, exit_of, Forks, Stands, started_again}
use runit.Restartd.Config.{Key, key_name, service_section}
use runit.Restartd.Settings.{Setting}

-- A system where each process gets the number of calls before it and 100 more.
abbrev os : Os
os = record { fork = λ t. some (suc (t + 99)); pid_file = λ t. missing }

os-Forks : Forks os
os-Forks t = (t + 99, refl)

os-IsOs : IsOs os
os-IsOs t p h = ground (arith, h)

abbrev cmds : Commands
cmds = record { before = b'a' ∷ []; body = b'b' ∷ b' ' ∷ b'x' ∷ []; after = b'c' ∷ [] }

abbrev timeout : Event
timeout = record { ident = 0; child = false; exit = false }

-- A service of the type simple without ExecStartPre.
abbrev incomplete : Service
incomplete = record clearsvc { exec_start = some (b'b' ∷ []) }

incomplete-IsStuck : IsStuck incomplete
incomplete-IsStuck = record { stands = inl (refl, refl); nothing_beside = refl }

stuck_forever_example :
    (s' : Service) × (run os (timeout ∷ timeout ∷ []) (some incomplete) ≡ some s')
    × (s'.state ≡ State.inactive)
    × (commands s'.trace ≡ [])
stuck_forever_example = stuck_forever os (timeout ∷ timeout ∷ []) incomplete incomplete-IsStuck

started_again_example :
    (s₁ : Service) × (s₂ : Service) × (s₃ : Service) × (q₁ : ℕ) × (q₂ : ℕ) × (q₃ : ℕ) × (run os
        (exit_of 7 ∷ [])
        (some (with_process clearsvc cmds State.online 7))
      ≡ some s₁)
    × Stands s₁ State.stop_post (suc q₁) (words cmds.after ∷ [])
    × (run os (exit_of (suc q₁) ∷ []) (some s₁) ≡ some s₂)
    × Stands s₂ State.start_pre (suc q₂) (words cmds.before ∷ words cmds.after ∷ [])
    × (run os (exit_of (suc q₂) ∷ []) (some s₂) ≡ some s₃)
    × Stands s₃ State.online (suc q₃) (words cmds.body ∷ words cmds.before ∷ words cmds.after ∷ [])
started_again_example = started_again os clearsvc cmds 7 os-Forks

-- The process of ExecStopPost exits, and ExecStartPre begins.
abbrev stopping : Service
stopping = with_process clearsvc cmds State.stop_post 7

abbrev preparing : Service
preparing = record (with_process clearsvc cmds State.start_pre 102) {
  pids_purged = true;
  aux_pids_purged = true;
  calls = 4;
  trace = attach 102 ∷ spawn 102 (words cmds.before) ∷ reap ∷ detach 7 ∷ [];
}

one_run_example :
    (preparing.pl ≡ (process_proc_kevents (exit_of 7) stopping).pl)
    ⊎ (((process_proc_kevents (exit_of 7) stopping).pl ≡ [])
        × (pid : ℕ) × (command : List ℕ) × (rest : List Effect) × (0 < pid)
        × (preparing.pl ≡ pid ∷ [])
        × (preparing.trace ≡ attach pid ∷ spawn pid (words command) ∷ rest))
unfolding round again_if_exited transition svc_start_pre forkexecve forked in_start_pre
one_run_example = one_run os (exit_of 7) stopping preparing os-IsOs refl refl

abbrev mount : Service
mount = record (with_process clearsvc cmds State.start 7) { kind = Kind.oneshot }

mount-IsBareOneshot : IsBareOneshot mount
mount-IsBareOneshot = record { kind = refl; state = refl; file = refl; post = refl; beside = refl }

abbrev setting : Key → List ℕ → Setting
setting k v = record { section = service_section; name = key_name k; value = v }

abbrev settings : List Setting
settings = setting Key.exec_start (b'b' ∷ []) ∷ setting Key.exec_start (b'c' ∷ []) ∷ []
