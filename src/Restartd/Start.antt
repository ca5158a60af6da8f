-- ===== src/Restartd/Start.antt =====
-- svc.restartd/util.c: `forkexecve`, and the functions of main.c that start a service's commands.
use runit.Base.{ℕ, ◌+◌, Bool, true, false, List, [], ◌∷◌, Option, none, some, if◌then◌else◌, ◌==◌}
use runit.Restartd.Defs.{
  start_pre, start, start_post, online, stop_post, unset, spawn, attach, Os, Service, emit,
  is_forking, is_simple,
}
use runit.Restartd.Pids.{pid_list_addpid}

abbrev push : List ℕ → List (List ℕ) → List (List ℕ)
push [] ws = ws
push (c ∷ w) ws = (c ∷ w) ∷ ws

-- The word that begins here, and those behind.
split_words : List ℕ → List ℕ × List (List ℕ)
split_words [] = ([], [])
split_words (c ∷ s) =
    let (w, ws) = split_words s in if c == b' ' then ([], push w ws) else (c ∷ w, ws)

-- `strtok(…, " ")` up to its end.
unfoldable pub words : List ℕ → List (List ℕ)
unfolding split_words
words s = let (w, ws) = split_words s in push w ws

-- The parent's part, for what `fork` gives: the number of the process, or 0 where it fails.
unfoldable pub forked : Option ℕ → List ℕ → Bool → Service → ℕ × Service
unfolding words
forked none cmd aux s = (0, record s { calls = s.calls + 1 })
forked (some pid) cmd aux s =
    let s₁ = emit (spawn pid (words cmd)) s in
    let s₂ : Service =
      if aux
      then record s₁ { aux_pl = pid_list_addpid s.aux_pl pid }
      else record s₁ { pl = pid_list_addpid s.pl pid } in
    (pid, emit (attach pid) s₂)

unfoldable pub forkexecve : Os → List ℕ → Bool → Service → ℕ × Service
forkexecve os cmd aux s = forked (os.fork s.calls) cmd aux s

-- A state for a process of the service, if there is one.
abbrev pub enter : (ℕ → Service → Service) → ℕ × Service → Service
enter f (pid, s) = if pid == 0 then s else f pid s

-- A test of a pointer to a command.
abbrev pub with_command {ℓ} : {A : Type ℓ} → Option (List ℕ) → A → (List ℕ → A) → A
with_command none d f = d
with_command (some cmd) d f = f cmd

-- The state S_START_PRE, and likewise below.
unfoldable pub in_start_pre : ℕ → Service → Service
in_start_pre pid s = record s { state = start_pre; main_pid_exited = 0; main_pid = pid }

unfoldable pub svc_start_pre : Os → Service → Service
svc_start_pre os s =
    with_command s.exec_start_pre s (λ cmd. enter in_start_pre (forkexecve os cmd false s))

-- What `svc_start` does with the new process.
unfoldable pub started : ℕ → Service → Service
started pid s = record s {
  state = if is_simple s.kind then online else start;
  main_pid_exited = 0;
  main_pid = if is_forking s.kind then s.main_pid else pid;
}

-- Nothing if there is no command: a null pointer is then read.
unfoldable pub svc_start : Os → Service → Option Service
svc_start os s =
    with_command s.exec_start none (λ cmd. some (enter started (forkexecve os cmd false s)))

unfoldable pub in_aux_post : ℕ → Service → Service
in_aux_post pid s = record s {
  aux_state = start_post;
  aux_main_pid_exited = 0;
  aux_main_pid = pid;
  aux_want = unset;
}

unfoldable pub svc_start_post : Os → Service → Service
svc_start_post os s =
    with_command s.exec_start_post
      (record s { aux_state = start_post; aux_main_pid_exited = 2; aux_want = unset })
      (λ cmd. enter in_aux_post (forkexecve os cmd true s))

unfoldable pub in_start_post : ℕ → Service → Service
in_start_post pid s = record s { state = start_post; main_pid_exited = 0; main_pid = pid }

unfoldable pub svc_start_post_oneshot : Os → Service → Service
svc_start_post_oneshot os s =
    with_command s.exec_start_post (record s { state = start_post; main_pid_exited = 2 })
      (λ cmd. enter in_start_post (forkexecve os cmd false s))

unfoldable pub in_stop_post : ℕ → Service → Service
in_stop_post pid s = record s { state = stop_post; main_pid_exited = 0; main_pid = pid }

unfoldable pub svc_stop_post : Os → Service → Service
svc_stop_post os s =
    let s₁ : Service = record s { pid_file_read = false } in
    with_command s.exec_stop_post s₁ (λ cmd. enter in_stop_post (forkexecve os cmd false s₁))
