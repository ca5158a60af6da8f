-- ===== src/Restartd/Clean.antt =====
-- svc.restartd: a command of the service is started only when its earlier processes are gone.
use runit.Base.{
  ℕ, zero, suc, ◌+◌, ◌≡◌, ◌<◌, ◌⊎◌, inl, inr, Bool, true, false, List, ◌∷◌, Option, none, some,
  if◌then◌else◌, ◌==◌, ◌&&◌, not, arith, refl, ◌∙◌, ap, Bool-cases,
}
use runit.Restartd.Defs.{
  Effect, spawn, attach, Os, Service, emit, is_oneshot, is_start_post, exited, remove_pidfile,
  is_start,
}
use runit.Restartd.Pids.{pid_list_addpid}
use runit.Restartd.Start.{
  words, forked, forkexecve, enter, with_command, in_start_pre, started, in_aux_post, in_stop_post,
  svc_start_pre, svc_start, svc_start_post, svc_stop_post,
}
use runit.Restartd.PidFile.{set_main_pid, check_pidfile, exists, read_pid_file}
use runit.Restartd.Machine.{
  start_wanted, step_oneshot, step_exited, after_pidfile, step_pidfile, transition, is_some,
  calls_stop_post, calls_start_pre, calls_start,
}

-- `fork` gives a positive number in the parent.
abbrev pub IsOs : Os → Type 0
IsOs os = (t p : ℕ) → os.fork t ≡ some p → 0 < p

-- The processes are the same ones.
pub record IsQuiet (s s' : Service) : Type 0 where
  pub kind : s'.kind ≡ s.kind
  pub purged : s'.pids_purged ≡ s.pids_purged
  pub pl : s'.pl ≡ s.pl

-- There is a new process for a command, and the main process has not exited.
pub record IsStarted (s s' : Service) : Type 0 where
  pub pid : ℕ
  pub positive : 0 < pid
  pub pl : s'.pl ≡ pid_list_addpid s.pl pid
  pub runs : s'.main_pid_exited ≡ 0
  pub command : List ℕ
  pub rest : List Effect
  pub trace : s'.trace ≡ attach pid ∷ spawn pid (words command) ∷ rest

-- What a command's start keeps of the record behind `forkexecve`.
abbrev IsEntry : (ℕ → Service → Service) → Type 0
IsEntry f =
    (pid : ℕ) (s : Service)
    → ((f pid s).pl ≡ s.pl) × ((f pid s).main_pid_exited ≡ 0) × ((f pid s).trace ≡ s.trace)

entered :
    (o : Option ℕ) (cmd : List ℕ) (f : ℕ → Service → Service) (s : Service)
    → ((p : ℕ) → o ≡ some p → 0 < p)
    → IsEntry f
    → IsQuiet s (enter f (forked o cmd false s)) ⊎ IsStarted s (enter f (forked o cmd false s))
unfolding forked
entered none cmd f s h k = inl (record { kind = refl; purged = refl; pl = refl })
entered (some zero) cmd f s h k = absurd (omega (arith, h 0 refl))
entered (some (suc p)) cmd f s h k =
    let z : (suc p == 0) ≡ false = ground arith in
    let fields = k (suc p) (forked (some (suc p)) cmd false s).1 in
    rw z (
      inr (record {
        pid = suc p;
        positive = omega arith;
        pl = fields.0;
        runs = fields.1;
        command = cmd;
        rest = s.trace;
        trace = fields.2;
      }))

-- A command of the service, if there is one.
command_runs :
    (os : Os) (c : Option (List ℕ)) (f : ℕ → Service → Service) (s : Service)
    → IsOs os
    → IsEntry f
    → (let s' = with_command c s (λ cmd. enter f (forkexecve os cmd false s)) in
        IsQuiet s s' ⊎ IsStarted s s')
unfolding forkexecve
command_runs os none f s h k = inl (record { kind = refl; purged = refl; pl = refl })
command_runs os (some cmd) f s h k = entered (os.fork s.calls) cmd f s (h s.calls) k

started-IsEntry : IsEntry started
unfolding started
started-IsEntry pid s = (refl, refl, refl)

pub if-IsQuiet :
    (b : Bool) (s x y : Service) → IsQuiet s x → IsQuiet s y → IsQuiet s (if b then x else y)
if-IsQuiet true s x y h k = h
if-IsQuiet false s x y h k = k

pub IsQuiet-refl : (s : Service) → IsQuiet s s
IsQuiet-refl s = record { kind = refl; purged = refl; pl = refl }

pub IsQuiet-trans : (a b c : Service) → IsQuiet a b → IsQuiet b c → IsQuiet a c
IsQuiet-trans a b c h k = record {
  kind = k.kind ∙ h.kind;
  purged = k.purged ∙ h.purged;
  pl = k.pl ∙ h.pl;
}

aux_entered :
    (o : Option ℕ) (cmd : List ℕ) (s : Service)
    → IsQuiet s (enter in_aux_post (forked o cmd true s))
unfolding forked in_aux_post
aux_entered none cmd s = record { kind = refl; purged = refl; pl = refl }
aux_entered (some p) cmd s =
    if-IsQuiet (p == 0) s _ _ (record { kind = refl; purged = refl; pl = refl })
      (record { kind = refl; purged = refl; pl = refl })

aux_runs :
    (os : Os) (c : Option (List ℕ)) (s d : Service)
    → IsQuiet s d
    → IsQuiet s (with_command c d (λ cmd. enter in_aux_post (forkexecve os cmd true s)))
unfolding forkexecve
aux_runs os none s d h = h
aux_runs os (some cmd) s d h = aux_entered (os.fork s.calls) cmd s

start_wanted-IsQuiet : (os : Os) (s : Service) → IsQuiet s (start_wanted os s)
unfolding start_wanted svc_start_post
start_wanted-IsQuiet os s =
    if-IsQuiet (is_start_post s.aux_want) s (svc_start_post os s) s
      (aux_runs os s.exec_start_post s _ (record { kind = refl; purged = refl; pl = refl }))
      (IsQuiet-refl s)

step_oneshot-IsQuiet :
    (os : Os) (s : Service) → is_oneshot s.kind ≡ false → IsQuiet s (step_oneshot os s)
unfolding step_oneshot
step_oneshot-IsQuiet os s h = rw h (start_wanted-IsQuiet os s)

step_exited-IsQuiet :
    (os : Os) (s : Service) → is_oneshot s.kind ≡ false → IsQuiet s (step_exited os s)
unfolding step_exited
step_exited-IsQuiet os s h =
    let s₁ = if is_some s.pid_file then emit remove_pidfile s else s in
    let q =
      if-IsQuiet (is_some s.pid_file) s (emit remove_pidfile s) s
        (record { kind = refl; purged = refl; pl = refl }) (IsQuiet-refl s) in
    if-IsQuiet _ s (record s₁ { state = exited; main_pid = 0 }) (step_oneshot os s)
      (record { kind = q.kind; purged = q.purged; pl = q.pl }) (step_oneshot-IsQuiet os s h)

-- What the file's part may give.
abbrev pub Quietly : Service → Option Service → Type 0
Quietly s none = Unit
Quietly s (some s') = IsQuiet s s'

after_lem :
    (os : Os) (ok : Bool) (s s₁ : Service)
    → is_oneshot s.kind ≡ false
    → IsQuiet s s₁
    → Quietly s (after_pidfile os (some (ok, s₁)))
unfolding after_pidfile
after_lem os ok s s₁ h q = elim (Bool-cases (not (s₁.main_pid == 0) && ok)) [
  | inl y ↦ rw y (record { kind = q.kind; purged = q.purged; pl = q.pl })
  | inr z ↦ rw z (
      IsQuiet-trans s s₁ (step_exited os s₁) q
        (step_exited-IsQuiet os s₁ (ap is_oneshot q.kind ∙ h)))
]

set_main_pid_lem :
    (os : Os) (o : Option ℕ) (s s₁ : Service)
    → is_oneshot s.kind ≡ false
    → IsQuiet s s₁
    → Quietly s (after_pidfile os (set_main_pid o s₁))
unfolding set_main_pid after_pidfile
set_main_pid_lem os none s s₁ h q = tt
set_main_pid_lem os (some n) s s₁ h q = elim (Bool-cases (n == 0)) [
  | inl y ↦ rw y (after_lem os false s s₁ h q)
  | inr z ↦ rw z (
      after_lem os true s (record s₁ { pid_file_read = true; main_pid = n }) h
        (record { kind = q.kind; purged = q.purged; pl = q.pl }))
]

step_pidfile-Quietly :
    (os : Os) (s : Service) → is_oneshot s.kind ≡ false → Quietly s (step_pidfile os s)
unfolding step_pidfile check_pidfile
step_pidfile-Quietly os s h =
    let s₁ : Service = record s { calls = s.calls + 2 } in
    let q : IsQuiet s s₁ = record { kind = refl; purged = refl; pl = refl } in
    elim (Bool-cases (not s.pid_file_read && (is_some s.pid_file && is_start s.state))) [
      | inl y ↦ elim (Bool-cases (exists (os.pid_file s.calls) && is_start s.state)) [
        | inl z ↦
            rw (y, z) (set_main_pid_lem os (read_pid_file (os.pid_file (s.calls + 1))) s s₁ h q)
        | inr z ↦ rw (y, z) (after_lem os false s s₁ h q)
      ]
      | inr z ↦ rw z (step_exited-IsQuiet os s h)
    ]

-- What a transition may do with the processes of a service that is no oneshot.
abbrev pub Cleanly : Service → Option Service → Type 0
Cleanly s none = Unit
Cleanly s (some s') = IsQuiet s s' ⊎ ((s.pids_purged ≡ true) × IsStarted s s')

Quietly-Cleanly : (s : Service) (o : Option Service) → Quietly s o → Cleanly s o
Quietly-Cleanly s none h = tt
Quietly-Cleanly s (some s') h = inl h

-- A command that is started when no process is left.
purged-Cleanly :
    (s s₁ s' : Service)
    → s.pids_purged ≡ true
    → IsQuiet s s₁
    → IsQuiet s₁ s' ⊎ IsStarted s₁ s'
    → Cleanly s (some s')
purged-Cleanly s s₁ s' p q (inl h) = inl (IsQuiet-trans s s₁ s' q h)
purged-Cleanly s s₁ s' p q (inr h) = inr (
  p,
  record {
    pid = h.pid;
    positive = h.positive;
    pl = h.pl ∙ ap (λ l. pid_list_addpid l h.pid) q.pl;
    runs = h.runs;
    command = h.command;
    rest = h.rest;
    trace = h.trace;
  },
)

start_Cleanly :
    (os : Os) (c : Option (List ℕ)) (s : Service)
    → IsOs os
    → s.pids_purged ≡ true
    → Cleanly s (with_command c none (λ cmd. some (enter started (forkexecve os cmd false s))))
unfolding forkexecve
start_Cleanly os none s h p = tt
start_Cleanly os (some cmd) s h p =
    purged-Cleanly s s (enter started (forked (os.fork s.calls) cmd false s)) p (IsQuiet-refl s)
      (entered (os.fork s.calls) cmd started s (h s.calls) started-IsEntry)

in_start_pre-IsEntry : IsEntry in_start_pre
unfolding in_start_pre
in_start_pre-IsEntry pid s = (refl, refl, refl)

in_stop_post-IsEntry : IsEntry in_stop_post
unfolding in_stop_post
in_stop_post-IsEntry pid s = (refl, refl, refl)

stop_Cleanly :
    (os : Os) (s : Service) → IsOs os → s.pids_purged ≡ true → Cleanly s (some (svc_stop_post os s))
unfolding svc_stop_post
stop_Cleanly os s h p =
    let s₁ : Service = record s { pid_file_read = false } in
    purged-Cleanly s s₁ (svc_stop_post os s) p (record { kind = refl; purged = refl; pl = refl })
      (command_runs os s.exec_stop_post in_stop_post s₁ h in_stop_post-IsEntry)

pre_Cleanly :
    (os : Os) (s : Service) → IsOs os → s.pids_purged ≡ true → Cleanly s (some (svc_start_pre os s))
unfolding svc_start_pre
pre_Cleanly os s h p =
    purged-Cleanly s s (svc_start_pre os s) p (IsQuiet-refl s)
      (command_runs os s.exec_start_pre in_start_pre s h in_start_pre-IsEntry)

if-Cleanly :
    (b c : Bool) (s : Service) (x y : Option Service)
    → (b ≡ true → Cleanly s x)
    → Cleanly s y
    → Cleanly s (if b && c then x else y)
if-Cleanly true true s x y h k = h refl
if-Cleanly true false s x y h k = k
if-Cleanly false c s x y h k = k

-- One pass of `svc_transition_if_necessary`.
pub transition-Cleanly :
    (os : Os) (s : Service) → IsOs os → is_oneshot s.kind ≡ false → Cleanly s (transition os s)
unfolding transition svc_start
transition-Cleanly os s h k =
    let p = s.pids_purged in
    let z = step_pidfile os s in
    let y = if p && calls_start s then svc_start os s else z in
    let x = if p && calls_start_pre s then some (svc_start_pre os s) else y in
    if-Cleanly p (calls_stop_post s) s (some (svc_stop_post os s)) x (stop_Cleanly os s h) (
      if-Cleanly p (calls_start_pre s) s (some (svc_start_pre os s)) y (pre_Cleanly os s h) (
        if-Cleanly p (calls_start s) s (svc_start os s) z (start_Cleanly os s.exec_start s h)
          (Quietly-Cleanly s z (step_pidfile-Quietly os s k))))
