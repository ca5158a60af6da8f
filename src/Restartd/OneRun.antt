-- ===== src/Restartd/OneRun.antt =====
-- svc.restartd/main.c: the processes of a service over a round of the loop.
use mathlib.Core.Path.{subst}
use runit.Base.{
  ℕ, ◌≡◌, ◌<◌, ◌⊎◌, inl, inr, true, false, List, [], ◌∷◌, Option, none, some, if◌then◌else◌, ◌==◌,
  ◌&&◌, not, arith, refl, ◌∙◌, sym, ap, Bool-cases, ltb,
}
use runit.Restartd.Defs.{Effect, spawn, attach, Os, Service, emit, terminate, is_oneshot}
use runit.Restartd.Pids.{pid_list_addpid, purgepids}
use runit.Restartd.Start.{words}
use runit.Restartd.Machine.{
  transition, Event, process_proc_kevents, purge, note_purged, again_if_exited, round, is_empty,
}
use runit.Restartd.Stuck.{event-Keeps}
use runit.Restartd.Clean.{
  IsOs, IsQuiet, IsStarted, Cleanly, IsQuiet-refl, IsQuiet-trans, if-IsQuiet, transition-Cleanly,
}

purgepids-IsQuiet : (l : List ℕ) (s : Service) → IsQuiet s (purgepids l s)
unfolding purgepids
purgepids-IsQuiet [] s = IsQuiet-refl s
purgepids-IsQuiet (p ∷ l) s =
    let k = purgepids-IsQuiet l (emit (terminate p) s) in
    if-IsQuiet (ltb 0 p) s _ s (record { kind = k.kind; purged = k.purged; pl = k.pl })
      (IsQuiet-refl s)

pub purge-IsQuiet : (s : Service) → IsQuiet s (purge s)
unfolding purge
purge-IsQuiet s =
    let s₁ =
      if not (s.main_pid_exited == 0) && (not (is_empty s.pl) && not (is_oneshot s.kind))
      then purgepids s.pl s
      else s in
    let k = if-IsQuiet _ s (purgepids s.pl s) s (purgepids-IsQuiet s.pl s) (IsQuiet-refl s) in
    if-IsQuiet _ s (purgepids s.aux_pl s₁) s₁
      (IsQuiet-trans s s₁ (purgepids s.aux_pl s₁) k (purgepids-IsQuiet s.aux_pl s₁)) k

empty : (l : List ℕ) → is_empty l ≡ true → l ≡ []
empty [] h = refl
empty (x ∷ l) h = absurd (ground (arith, h))

-- The list of a service is as before, or it was empty and has one process now.
abbrev AtMostOne : List ℕ → Option Service → Type 0
AtMostOne l none = Unit
AtMostOne l (some s) =
    (s.pl ≡ l)
    ⊎ ((l ≡ [])
        × (pid : ℕ) × (command : List ℕ) × (rest : List Effect) × (0 < pid)
        × (s.pl ≡ pid ∷ [])
        × (s.trace ≡ attach pid ∷ spawn pid (words command) ∷ rest))

began :
    (l : List ℕ) (s s' : Service)
    → s.pl ≡ l
    → s.pids_purged ≡ is_empty l
    → s.pids_purged ≡ true
    → IsStarted s s'
    → AtMostOne l (some s')
unfolding pid_list_addpid
began l s s' e m p h =
    let z = empty l (sym m ∙ p) in
    inr (
      z,
      h.pid,
      h.command,
      h.rest,
      h.positive,
      h.pl ∙ ap (λ k. pid_list_addpid k h.pid) (e ∙ z),
      h.trace,
    )

cleanly_lem :
    (l : List ℕ) (s : Service) (o : Option Service)
    → s.pl ≡ l
    → s.pids_purged ≡ is_empty l
    → Cleanly s o
    → AtMostOne l o
cleanly_lem l s none e m h = tt
cleanly_lem l s (some s') e m (inl h) = inl (h.pl ∙ e)
cleanly_lem l s (some s') e m (inr (p, h)) = began l s s' e m p h

again_quiet :
    (os : Os) (l : List ℕ) (s : Service)
    → IsOs os
    → is_oneshot s.kind ≡ false
    → s.pl ≡ l
    → s.pids_purged ≡ is_empty l
    → AtMostOne l (again_if_exited os (some s))
unfolding again_if_exited
again_quiet os l s h k e m = elim (Bool-cases (s.main_pid_exited == 0)) [
  | inl y ↦ rw y (inl e)
  | inr n ↦ rw n (cleanly_lem l s (transition os s) e m (transition-Cleanly os s h k))
]

again_lem :
    (os : Os) (l : List ℕ) (s : Service) (o : Option Service)
    → IsOs os
    → is_oneshot s.kind ≡ false
    → s.pl ≡ l
    → s.pids_purged ≡ is_empty l
    → Cleanly s o
    → AtMostOne l (again_if_exited os o)
unfolding again_if_exited
again_lem os l s none h k e m c = tt
again_lem os l s (some s') h k e m (inl q) =
    again_quiet os l s' h (ap is_oneshot q.kind ∙ k) (q.pl ∙ e) (q.purged ∙ m)
again_lem os l s (some s') h k e m (inr (p, q)) =
    let z : (s'.main_pid_exited == 0) ≡ true = ground (arith, q.runs) in rw z (began l s s' e m p q)

-- Where `fork` gives positive numbers: in a round, the list `pl` of a service that is no oneshot, which
-- holds the processes of its commands other than ExecStartPost, is as the event of the round leaves
-- it, or it was empty then and has one process now, which the daemon has just started for a command
-- and attached to.
pub one_run :
    (os : Os) (e : Event) (s s' : Service)
    → IsOs os
    → is_oneshot s.kind ≡ false
    → round os e s ≡ some s'
    → (s'.pl ≡ (process_proc_kevents e s).pl)
      ⊎ (((process_proc_kevents e s).pl ≡ [])
          × (pid : ℕ) × (command : List ℕ) × (rest : List Effect) × (0 < pid)
          × (s'.pl ≡ pid ∷ [])
          × (s'.trace ≡ attach pid ∷ spawn pid (words command) ∷ rest))
unfolding round
one_run os e s s' h k r =
    let a = process_proc_kevents e s in
    let b = note_purged a in
    let q = purge-IsQuiet b in
    let simple = ap is_oneshot (q.kind ∙ (event-Keeps e s).kind) ∙ k in
    subst (AtMostOne a.pl) r (
      again_lem os a.pl (purge b) (transition os (purge b)) h simple q.pl q.purged
        (transition-Cleanly os (purge b) h simple))
