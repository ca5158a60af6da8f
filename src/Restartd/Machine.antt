-- ===== src/Restartd/Machine.antt =====
-- svc.restartd/main.c: the transitions of a service, the events of its processes, and the loop.
use runit.Base.{
  ℕ, Bool, true, false, List, [], ◌∷◌, Option, none, some, if◌then◌else◌, ◌==◌, ◌&&◌, ◌||◌, not,
}
use runit.Restartd.Defs.{
  simple, inactive, exited, start_post, online, unset, attach, detach, remove_pidfile, reap, Os,
  Service, emit, is_inactive, is_exited, is_start_pre, is_start, is_start_post, is_online,
  is_stop_post, is_oneshot,
}
use runit.Restartd.Pids.{pid_list_addpid, pid_list_delpid, purgepids}
use runit.Restartd.Start.{
  svc_start_pre, svc_start, svc_start_post, svc_start_post_oneshot, svc_stop_post,
}
use runit.Restartd.PidFile.{check_pidfile}

abbrev pub is_some : Option (List ℕ) → Bool
is_some none = false
is_some (some _) = true

-- `if (svc->AuxWant == S_START_POST)`
unfoldable pub start_wanted : Os → Service → Service
start_wanted os s = if is_start_post s.aux_want then svc_start_post os s else s

-- `if(svc->Type == T_ONESHOT)`, and what follows it.
unfoldable pub step_oneshot : Os → Service → Service
step_oneshot os s =
    if is_oneshot s.kind && is_start s.state
    then start_wanted os (svc_start_post_oneshot os s)
    else if is_oneshot s.kind && is_start_post s.state
    then record s { state = online }
    else start_wanted os s

-- The block that ends in S_EXITED, and what follows it.
unfoldable pub step_exited : Os → Service → Service
step_exited os s =
    let s₁ = if is_some s.pid_file then emit remove_pidfile s else s in
    if (is_start s.state || is_online s.state) && (s.pids_purged && not (is_oneshot s.kind))
    then record s₁ { state = exited; main_pid = 0 }
    else step_oneshot os s

-- What follows `check_pidfile`.
unfoldable pub after_pidfile : Os → Option (Bool × Service) → Option Service
after_pidfile os none = none
after_pidfile os (some (ok, s)) =
    if not (s.main_pid == 0) && ok
    then some (record s { state = online; aux_want = start_post })
    else some (step_exited os s)

-- The block on the file, and what follows it.
unfoldable pub step_pidfile : Os → Service → Option Service
step_pidfile os s =
    if not s.pid_file_read && (is_some s.pid_file && is_start s.state)
    then after_pidfile os (check_pidfile os s)
    else some (step_exited os s)

-- The tests before `svc_stop_post`, `svc_start_pre` and `svc_start`, in the block of `PIDsPurged`.
abbrev pub calls_stop_post : Service → Bool
calls_stop_post s = is_online s.want && is_exited s.state

abbrev pub calls_start_pre : Service → Bool
calls_start_pre s =
    is_online s.want
    && ((is_stop_post s.state && not (s.main_pid_exited == 0)) || is_inactive s.state)

abbrev pub calls_start : Service → Bool
calls_start s = is_online s.want && (is_start_pre s.state && not (s.main_pid_exited == 0))

-- `svc_transition_if_necessary`; nothing where the code reads a null pointer or is not defined. What
-- the function returns is not used.
unfoldable pub transition : Os → Service → Option Service
transition os s =
    if s.pids_purged && calls_stop_post s
    then some (svc_stop_post os s)
    else if s.pids_purged && calls_start_pre s
    then some (svc_start_pre os s)
    else if s.pids_purged && calls_start s
    then svc_start os s
    else step_pidfile os s

-- What `kevent` gives, by the flags that the code looks at; a timeout is an event without any.
pub record Event : Type 0 where
  pub ident : ℕ
  pub child : Bool
  pub exit : Bool

unfoldable pub on_child : ℕ → Service → Service
unfolding pid_list_addpid
on_child pid s = let s₁ = emit (attach pid) s in record s₁ { pl = pid_list_addpid s.pl pid }

unfoldable pub on_exit : ℕ → Service → Service
unfolding pid_list_delpid
on_exit pid s =
    let s₁ = emit reap (emit (detach pid) s) in
    let s₂ : Service = record s₁ {
      pl = pid_list_delpid s.pl pid;
      aux_pl = pid_list_delpid s.aux_pl pid;
    } in
    if pid == s.main_pid
    then record s₂ { main_pid_exited = 1 }
    else if pid == s.aux_main_pid
    then record s₂ { aux_main_pid_exited = 1 }
    else s₂

unfoldable pub process_proc_kevents : Event → Service → Service
unfolding on_child on_exit
process_proc_kevents e s =
    let s₁ = if e.child then on_child e.ident s else s in if e.exit then on_exit e.ident s₁ else s₁

abbrev pub is_empty : List ℕ → Bool
is_empty [] = true
is_empty _ = false

-- The two tests that end the remaining processes.
unfoldable pub purge : Service → Service
unfolding purgepids
purge s =
    let s₁ =
      if not (s.main_pid_exited == 0) && (not (is_empty s.pl) && not (is_oneshot s.kind))
      then purgepids s.pl s
      else s in
    if not (s.aux_main_pid_exited == 0) && not (is_empty s.aux_pl)
    then purgepids s.aux_pl s₁
    else s₁

abbrev pub note_purged : Service → Service
note_purged s = record s { pids_purged = is_empty s.pl; aux_pids_purged = is_empty s.aux_pl }

-- The second call in a round.
unfoldable pub again_if_exited : Os → Option Service → Option Service
again_if_exited os none = none
again_if_exited os (some s) = if s.main_pid_exited == 0 then some s else transition os s

-- A round of the loop.
unfoldable pub round : Os → Event → Service → Option Service
unfolding process_proc_kevents purge
round os e s = again_if_exited os (transition os (purge (note_purged (process_proc_kevents e s))))

unfoldable pub run : Os → List Event → Option Service → Option Service
run os events none = none
run os [] (some s) = some s
run os (e ∷ events) (some s) = run os events (round os e s)

-- `main` for a service that was read from its file: the first call, and the loop.
unfoldable pub main : Os → List Event → Service → Option Service
unfolding run
main os events s =
    run os events (transition os (if is_some s.pid_file then emit remove_pidfile s else s))

-- `clearsvc`.
abbrev pub clearsvc : Service
clearsvc = record {
  kind = simple;
  pid_file = none;
  exec_start_pre = none;
  exec_start = none;
  exec_start_post = none;
  exec_stop_post = none;
  state = inactive;
  aux_state = unset;
  want = online;
  aux_want = unset;
  main_pid_exited = 0;
  aux_main_pid_exited = 0;
  pid_file_read = false;
  main_pid = 0;
  pids_purged = true;
  aux_main_pid = 0;
  aux_pids_purged = true;
  pl = [];
  aux_pl = [];
  calls = 0;
  trace = [];
}
