-- ===== src/Restartd/Stuck.antt =====
-- svc.restartd: a service without ExecStartPre is never started, and one without ExecStopPost never again.
use runit.Base.{
  ℕ, ◌≡◌, ◌⊎◌, inl, inr, Bool, true, false, List, [], ◌∷◌, Option, none, some, if◌then◌else◌, ◌==◌,
  ◌&&◌, not, arith, refl, ◌∙◌, Bool-cases, ltb, ap,
}
use runit.Restartd.Defs.{
  inactive, exited, unset, Effect, spawn, terminate, Os, Service, emit, is_oneshot, is_online,
}
use runit.Restartd.Pids.{purgepids}
use runit.Restartd.Start.{svc_start_pre, svc_stop_post}
use runit.Restartd.Machine.{
  start_wanted, step_oneshot, step_exited, step_pidfile, transition, Event, on_child, on_exit,
  process_proc_kevents, purge, note_purged, again_if_exited, round, run, is_empty,
}

-- The commands that were started, the last one first.
abbrev pub commands : List Effect → List (List (List ℕ))
commands [] = []
commands (spawn pid cmd ∷ es) = cmd ∷ commands es
commands (_ ∷ es) = commands es

-- Nothing was started and no command is there to start it, or it has ended and no command is there for
-- what comes then; and nothing is to be started beside it.
pub record IsStuck (s : Service) : Type 0 where
  pub stands :
      ((s.state ≡ inactive) × (s.exec_start_pre ≡ none))
      ⊎ ((s.state ≡ exited) × (s.exec_stop_post ≡ none))
  pub nothing_beside : s.aux_want ≡ unset

-- What a step keeps.
pub record Keeps (s s' : Service) : Type 0 where
  pub state : s'.state ≡ s.state
  pub kind : s'.kind ≡ s.kind
  pub file : s'.pid_file ≡ s.pid_file
  pub start_post : s'.exec_start_post ≡ s.exec_start_post
  pub pre : s'.exec_start_pre ≡ s.exec_start_pre
  pub post : s'.exec_stop_post ≡ s.exec_stop_post
  pub beside : s'.aux_want ≡ s.aux_want
  pub started : commands s'.trace ≡ commands s.trace

pub Keeps-refl : (s : Service) → Keeps s s
Keeps-refl s = record {
  state = refl;
  kind = refl;
  file = refl;
  start_post = refl;
  pre = refl;
  post = refl;
  beside = refl;
  started = refl;
}

Keeps-trans : (a b c : Service) → Keeps a b → Keeps b c → Keeps a c
Keeps-trans a b c h k = record {
  state = k.state ∙ h.state;
  kind = k.kind ∙ h.kind;
  file = k.file ∙ h.file;
  start_post = k.start_post ∙ h.start_post;
  pre = k.pre ∙ h.pre;
  post = k.post ∙ h.post;
  beside = k.beside ∙ h.beside;
  started = k.started ∙ h.started;
}

Keeps-IsStuck : (s s' : Service) → Keeps s s' → IsStuck s → IsStuck s'
Keeps-IsStuck s s' k h = record {
  stands = elim h.stands [
    | inl (a, b) ↦ inl (k.state ∙ a, k.pre ∙ b)
    | inr (a, b) ↦ inr (k.state ∙ a, k.post ∙ b)
  ];
  nothing_beside = k.beside ∙ h.nothing_beside;
}

purgepids-Keeps : (l : List ℕ) (s : Service) → Keeps s (purgepids l s)
unfolding purgepids
purgepids-Keeps [] s = Keeps-refl s
purgepids-Keeps (p ∷ l) s = elim (Bool-cases (ltb 0 p)) [
  | inl y ↦ rw y (
      let k = purgepids-Keeps l (emit (terminate p) s) in
      record {
        state = k.state;
        kind = k.kind;
        file = k.file;
        start_post = k.start_post;
        pre = k.pre;
        post = k.post;
        beside = k.beside;
        started = k.started;
      })
  | inr n ↦ rw n (Keeps-refl s)
]

if-Keeps : (b : Bool) (s x y : Service) → Keeps s x → Keeps s y → Keeps s (if b then x else y)
if-Keeps true s x y h k = h
if-Keeps false s x y h k = k

on_child-Keeps : (pid : ℕ) (s : Service) → Keeps s (on_child pid s)
unfolding on_child
on_child-Keeps pid s = record {
  state = refl;
  kind = refl;
  file = refl;
  start_post = refl;
  pre = refl;
  post = refl;
  beside = refl;
  started = refl;
}

on_exit-Keeps : (pid : ℕ) (s : Service) → Keeps s (on_exit pid s)
unfolding on_exit
on_exit-Keeps pid s =
    if-Keeps (pid == s.main_pid) s _ _
      (record {
        state = refl;
        kind = refl;
        file = refl;
        start_post = refl;
        pre = refl;
        post = refl;
        beside = refl;
        started = refl;
      })
      (if-Keeps (pid == s.aux_main_pid) s _ _
        (record {
          state = refl;
          kind = refl;
          file = refl;
          start_post = refl;
          pre = refl;
          post = refl;
          beside = refl;
          started = refl;
        })
        (record {
          state = refl;
          kind = refl;
          file = refl;
          start_post = refl;
          pre = refl;
          post = refl;
          beside = refl;
          started = refl;
        }))

pub event-Keeps : (e : Event) (s : Service) → Keeps s (process_proc_kevents e s)
unfolding process_proc_kevents
event-Keeps e s =
    let s₁ = if e.child then on_child e.ident s else s in
    let k = if-Keeps e.child s (on_child e.ident s) s (on_child-Keeps e.ident s) (Keeps-refl s) in
    if-Keeps e.exit s (on_exit e.ident s₁) s₁
      (Keeps-trans s s₁ (on_exit e.ident s₁) k (on_exit-Keeps e.ident s₁)) k

purge-Keeps : (s : Service) → Keeps s (purge s)
unfolding purge
purge-Keeps s =
    let s₁ =
      if not (s.main_pid_exited == 0) && (not (is_empty s.pl) && not (is_oneshot s.kind))
      then purgepids s.pl s
      else s in
    let k = if-Keeps _ s (purgepids s.pl s) s (purgepids-Keeps s.pl s) (Keeps-refl s) in
    if-Keeps _ s (purgepids s.aux_pl s₁) s₁
      (Keeps-trans s s₁ (purgepids s.aux_pl s₁) k (purgepids-Keeps s.aux_pl s₁)) k

pub prepared-Keeps :
    (e : Event) (s : Service) → Keeps s (purge (note_purged (process_proc_kevents e s)))
prepared-Keeps e s =
    let s₁ = process_proc_kevents e s in
    let k = event-Keeps e s in
    Keeps-trans s (note_purged s₁) (purge (note_purged s₁))
      (record {
        state = k.state;
        kind = k.kind;
        file = k.file;
        start_post = k.start_post;
        pre = k.pre;
        post = k.post;
        beside = k.beside;
        started = k.started;
      })
      (purge-Keeps (note_purged s₁))

rest_idles :
    (os : Os) (s : Service)
    → (s.state ≡ inactive) ⊎ (s.state ≡ exited)
    → s.aux_want ≡ unset
    → step_pidfile os s ≡ some s
unfolding step_pidfile step_exited step_oneshot start_wanted
rest_idles os s h w = ground arith

-- A transition of such a service starts nothing.
Idles : Service → Option Service → Type 0
Idles s o = (s' : Service) × (o ≡ some s') × Keeps s s'

inactive_idles :
    (os : Os) (s : Service)
    → s.state ≡ inactive
    → s.exec_start_pre ≡ none
    → s.aux_want ≡ unset
    → transition os s ≡ some s
unfolding transition svc_start_pre
inactive_idles os s a b w = ground (arith, rest_idles os s (inl a) w)

exited-Idles :
    (os : Os) (s : Service)
    → s.state ≡ exited
    → s.exec_stop_post ≡ none
    → s.aux_want ≡ unset
    → Idles s (transition os s)
unfolding Idles transition svc_stop_post
exited-Idles os s a b w = elim (Bool-cases (s.pids_purged && is_online s.want)) [
  | inl y ↦ (
    record s { pid_file_read = false },
    ground arith,
    record {
      state = refl;
      kind = refl;
      file = refl;
      start_post = refl;
      pre = refl;
      post = refl;
      beside = refl;
      started = refl;
    },
  )
  | inr n ↦ (s, ground (arith, rest_idles os s (inr a) w), Keeps-refl s)
]

transition-Idles : (os : Os) (s : Service) → IsStuck s → Idles s (transition os s)
unfolding Idles
transition-Idles os s h = elim h.stands [
  | inl (a, b) ↦ (s, inactive_idles os s a b h.nothing_beside, Keeps-refl s)
  | inr (a, b) ↦ exited-Idles os s a b h.nothing_beside
]

again-Idles : (os : Os) (s : Service) → IsStuck s → Idles s (again_if_exited os (some s))
unfolding again_if_exited Idles
again-Idles os s h = elim (Bool-cases (s.main_pid_exited == 0)) [
  | inl y ↦ (s, rw y refl, Keeps-refl s)
  | inr n ↦ let (s', e, k) = transition-Idles os s h in (s', rw n e, k)
]

round-Idles : (os : Os) (e : Event) (s : Service) → IsStuck s → Idles s (round os e s)
unfolding round Idles
round-Idles os e s h =
    let s₁ = purge (note_purged (process_proc_kevents e s)) in
    let k₁ = prepared-Keeps e s in
    let h₁ = Keeps-IsStuck s s₁ k₁ h in
    let (s₂, p, k₂) = transition-Idles os s₁ h₁ in
    let (s₃, q, k₃) = again-Idles os s₂ (Keeps-IsStuck s₁ s₂ k₂ h₁) in
    (s₃, ap (again_if_exited os) p ∙ q, Keeps-trans s s₁ s₃ k₁ (Keeps-trans s₁ s₂ s₃ k₂ k₃))

-- A service that has not started and has no ExecStartPre, or that has ended and has no
-- ExecStopPost, and for which no ExecStartPost is to be started (AuxWant is unset), stays in its state
-- for ever, whatever events come and whatever the system answers: the daemon goes on, and no command
-- is started.
pub stuck_forever :
    (os : Os) (events : List Event) (s : Service)
    → IsStuck s
    → (s' : Service) × (run os events (some s) ≡ some s')
      × (s'.state ≡ s.state)
      × (commands s'.trace ≡ commands s.trace)
unfolding run Idles
stuck_forever os [] s h = (s, refl, refl, refl)
stuck_forever os (e ∷ events) s h =
    let (s₁, p, k) = round-Idles os e s h in
    let (s₂, q, a, b) = stuck_forever os events s₁ (Keeps-IsStuck s s₁ k h) in
    (s₂, ap (run os events) p ∙ q, a ∙ k.state, b ∙ k.started)
