-- ===== src/Restartd/Cycle.antt =====
-- svc.restartd/main.c: a service of the type simple is started again when its process exits.
use runit.Base.{
  ℕ, suc, ◌+◌, ◌≡◌, Bool, true, false, List, [], ◌∷◌, none, some, ◌==◌, ◌&&◌, not, arith, refl, ◌∙◌,
  ap,
}
use runit.Restartd.Defs.{
  simple, State, exited, start_pre, online, stop_post, unset, Os, Service, spawn, attach, detach,
  reap,
}
use runit.Restartd.Pids.{pid_list_addpid, pid_list_delpid}
use runit.Restartd.Start.{
  words, enter, forked, forkexecve, in_start_pre, svc_start_pre, started, svc_start, in_stop_post,
  svc_stop_post,
}
use runit.Restartd.Machine.{
  step_exited, step_pidfile, transition, Event, on_exit, process_proc_kevents, purge, note_purged,
  again_if_exited, round, run,
}
use runit.Restartd.Stuck.{commands}

-- The commands of a service.
pub record Commands : Type 0 where
  pub before : List ℕ
  pub body : List ℕ
  pub after : List ℕ

-- A simple service with these commands and one process, its main one, in a state.
abbrev pub with_process : Service → Commands → State → ℕ → Service
with_process c cmds st pid = record c {
  kind = simple;
  pid_file = none;
  exec_start_pre = some cmds.before;
  exec_start = some cmds.body;
  exec_stop_post = some cmds.after;
  state = st;
  want = online;
  aux_want = unset;
  main_pid_exited = 0;
  main_pid = pid;
  pl = pid ∷ [];
  aux_pl = [];
}

abbrev pub exit_of : ℕ → Event
exit_of pid = record { ident = pid; child = false; exit = true }

same : (p : ℕ) → (p == p) ≡ true
same p = ground arith

-- The same service when the process has exited and the end was noted.
abbrev ended : Service → Commands → State → ℕ → Service
ended c cmds st pid = record (with_process c cmds st pid) {
  main_pid_exited = 1;
  pl = [];
  pids_purged = true;
  aux_pids_purged = true;
  calls = c.calls + 1 + 1;
  trace = reap ∷ detach pid ∷ c.trace;
}

abbrev noted : Service → Commands → State → ℕ → Service
noted c cmds st pid = record (with_process c cmds st pid) {
  main_pid_exited = 1;
  pl = [];
  calls = c.calls + 1 + 1;
  trace = reap ∷ detach pid ∷ c.trace;
}

exit_lem :
    (c : Service) (cmds : Commands) (st : State) (p : ℕ)
    → on_exit p (with_process c cmds st p) ≡ noted c cmds st p
unfolding on_exit pid_list_delpid
exit_lem c cmds st p = rw (same p) refl

and_false : (b : Bool) → (b && false) ≡ false
and_false b = ground arith

purge_lem :
    (c : Service) (cmds : Commands) (st : State) (p : ℕ)
    → purge (ended c cmds st p) ≡ ended c cmds st p
unfolding purge
purge_lem c cmds st p = rw (and_false (not (c.aux_main_pid_exited == 0))) refl

prepared :
    (c : Service) (cmds : Commands) (st : State) (p : ℕ)
    → purge (note_purged (process_proc_kevents (exit_of p) (with_process c cmds st p)))
      ≡ ended c cmds st p
unfolding process_proc_kevents
prepared c cmds st p =
    ap (λ s. purge (note_purged s)) (exit_lem c cmds st p) ∙ purge_lem c cmds st p

positive : (q : ℕ) → (suc q == 0) ≡ false
positive q = ground arith

-- The effects of a new process, and the number of calls then.
abbrev spawned : List ℕ → ℕ → Service → Service
spawned cmd pid c = record c {
  calls = c.calls + 1 + 1;
  trace = attach pid ∷ spawn pid (words cmd) ∷ c.trace;
}

-- The daemon's record between two of these states, with fields of no further use.
abbrev between : Service → ℕ → Service
between c pid = record c {
  pids_purged = true;
  aux_pids_purged = true;
  calls = c.calls + 1 + 1;
  trace = reap ∷ detach pid ∷ c.trace;
}

-- A command of a service that has ended, for a number that `fork` gives.
forked_lem :
    (os : Os) (cmd : List ℕ) (f : ℕ → Service → Service) (s : Service) (q : ℕ)
    → os.fork s.calls ≡ some (suc q)
    → s.pl ≡ []
    → enter f (forkexecve os cmd false s)
      ≡ f (suc q) (record s {
        pl = suc q ∷ [];
        calls = s.calls + 1 + 1;
        trace = attach (suc q) ∷ spawn (suc q) (words cmd) ∷ s.trace;
      })
unfolding forkexecve forked pid_list_addpid
forked_lem os cmd f s q h e = rw (h, positive q, e) refl

pre_ended :
    (os : Os) (c : Service) (cmds : Commands) (p q : ℕ)
    → os.fork (c.calls + 1 + 1) ≡ some (suc q)
    → transition os (ended c cmds start_pre p)
      ≡ some (with_process (spawned cmds.body (suc q) (between c p)) cmds online (suc q))
unfolding transition svc_start started
pre_ended os c cmds p q h =
    ap some (forked_lem os cmds.body started (ended c cmds start_pre p) q h refl)

after_pre :
    (os : Os) (c : Service) (cmds : Commands) (p q : ℕ)
    → os.fork (c.calls + 1 + 1) ≡ some (suc q)
    → round os (exit_of p) (with_process c cmds start_pre p)
      ≡ some (with_process (spawned cmds.body (suc q) (between c p)) cmds online (suc q))
unfolding round again_if_exited
after_pre os c cmds p q h =
    ap (λ s. again_if_exited os (transition os s)) (prepared c cmds start_pre p)
    ∙ ap (again_if_exited os) (pre_ended os c cmds p q h)

stop_ended :
    (os : Os) (c : Service) (cmds : Commands) (p q : ℕ)
    → os.fork (c.calls + 1 + 1) ≡ some (suc q)
    → transition os (ended c cmds stop_post p)
      ≡ some (with_process (spawned cmds.before (suc q) (between c p)) cmds start_pre (suc q))
unfolding transition svc_start_pre in_start_pre
stop_ended os c cmds p q h =
    ap some (forked_lem os cmds.before in_start_pre (ended c cmds stop_post p) q h refl)

after_stop :
    (os : Os) (c : Service) (cmds : Commands) (p q : ℕ)
    → os.fork (c.calls + 1 + 1) ≡ some (suc q)
    → round os (exit_of p) (with_process c cmds stop_post p)
      ≡ some (with_process (spawned cmds.before (suc q) (between c p)) cmds start_pre (suc q))
unfolding round again_if_exited
after_stop os c cmds p q h =
    ap (λ s. again_if_exited os (transition os s)) (prepared c cmds stop_post p)
    ∙ ap (again_if_exited os) (stop_ended os c cmds p q h)

-- The state between the two transitions of this round.
abbrev gone : Service → Commands → ℕ → Service
gone c cmds pid = record (ended c cmds online pid) { state = exited; main_pid = 0 }

-- The record when the command of ExecStopPost begins.
abbrev unread : Service → Service
unread c = record c { pid_file_read = false }

goes :
    (os : Os) (c : Service) (cmds : Commands) (p : ℕ)
    → transition os (ended c cmds online p) ≡ some (gone c cmds p)
unfolding transition step_pidfile step_exited
goes os c cmds p = rw (and_false (not c.pid_file_read)) refl

stops :
    (os : Os) (c : Service) (cmds : Commands) (p q : ℕ)
    → os.fork (c.calls + 1 + 1) ≡ some (suc q)
    → transition os (gone c cmds p)
      ≡ some
          (with_process (spawned cmds.after (suc q) (between (unread c) p)) cmds stop_post (suc q))
unfolding transition svc_stop_post in_stop_post
stops os c cmds p q h =
    ap some (forked_lem os cmds.after in_stop_post (unread (gone c cmds p)) q h refl)

after_online :
    (os : Os) (c : Service) (cmds : Commands) (p q : ℕ)
    → os.fork (c.calls + 1 + 1) ≡ some (suc q)
    → round os (exit_of p) (with_process c cmds online p)
      ≡ some
          (with_process (spawned cmds.after (suc q) (between (unread c) p)) cmds stop_post (suc q))
unfolding round again_if_exited
after_online os c cmds p q h =
    ap (λ s. again_if_exited os (transition os s)) (prepared c cmds online p)
    ∙ ap (again_if_exited os) (goes os c cmds p)
    ∙ stops os c cmds p q h

-- `fork` gives a process whenever it is called.
abbrev pub Forks : Os → Type 0
Forks os = (t : ℕ) → (q : ℕ) × (os.fork t ≡ some (suc q))

-- The service is in a state, with one process, its main one, and these commands were started.
abbrev pub Stands : Service → State → ℕ → List (List (List ℕ)) → Type 0
Stands s st pid started =
    (s.state ≡ st) × (s.main_pid ≡ pid) × (s.pl ≡ pid ∷ []) × (commands s.trace ≡ started)

-- Where `fork` never fails: an online service of the type simple with all of ExecStartPre, ExecStart
-- and ExecStopPost, without PIDFile, auxiliary processes and wish for one. When its process exits, the
-- daemon starts ExecStopPost in the same round; when that process exits, ExecStartPre; and when that
-- one exits, ExecStart, and the service is online again with this process as its only one. No other
-- command is started in between.
pub started_again :
    (os : Os) (c : Service) (cmds : Commands) (p : ℕ)
    → Forks os
    → (s₁ : Service) × (s₂ : Service) × (s₃ : Service) × (q₁ : ℕ) × (q₂ : ℕ) × (q₃ : ℕ) × (run os
          (exit_of p ∷ [])
          (some (with_process c cmds online p))
        ≡ some s₁)
      × Stands s₁ stop_post (suc q₁) (words cmds.after ∷ commands c.trace)
      × (run os (exit_of (suc q₁) ∷ []) (some s₁) ≡ some s₂)
      × Stands s₂ start_pre (suc q₂) (words cmds.before ∷ words cmds.after ∷ commands c.trace)
      × (run os (exit_of (suc q₂) ∷ []) (some s₂) ≡ some s₃)
      × Stands s₃ online
          (suc q₃)
          (words cmds.body ∷ words cmds.before ∷ words cmds.after ∷ commands c.trace)
unfolding run
started_again os c cmds p h =
    let (q₁, e₁) = h (c.calls + 1 + 1) in
    let c₁ = spawned cmds.after (suc q₁) (between (unread c) p) in
    let (q₂, e₂) = h (c₁.calls + 1 + 1) in
    let c₂ = spawned cmds.before (suc q₂) (between c₁ (suc q₁)) in
    let (q₃, e₃) = h (c₂.calls + 1 + 1) in
    let c₃ = spawned cmds.body (suc q₃) (between c₂ (suc q₂)) in
    (
      with_process c₁ cmds stop_post (suc q₁),
      with_process c₂ cmds start_pre (suc q₂),
      with_process c₃ cmds online (suc q₃),
      q₁,
      q₂,
      q₃,
      ap (run os []) (after_online os c cmds p q₁ e₁),
      (refl, refl, refl, refl),
      ap (run os []) (after_stop os c₁ cmds (suc q₁) q₂ e₂),
      (refl, refl, refl, refl),
      ap (run os []) (after_pre os c₂ cmds (suc q₂) q₃ e₃),
      (refl, refl, refl, refl),
    )
