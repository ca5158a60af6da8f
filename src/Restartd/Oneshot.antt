-- ===== src/Restartd/Oneshot.antt =====
-- svc.restartd/main.c: a service of the type oneshot.
use runit.Base.{◌≡◌, none, some, arith, refl, ◌∙◌, ap}
use runit.Restartd.Defs.{oneshot, start, start_post, online, unset, Os, Service}
use runit.Restartd.Start.{svc_start_post_oneshot}
use runit.Restartd.Machine.{
  start_wanted, step_oneshot, step_exited, step_pidfile, transition, Event, process_proc_kevents,
  purge, note_purged, again_if_exited, round,
}
use runit.Restartd.Stuck.{prepared-Keeps}
use runit.Restartd.OneRun.{purge-IsQuiet}

-- A oneshot that has been started, and has no PIDFile and no ExecStartPost.
pub record IsBareOneshot (s : Service) : Type 0 where
  pub kind : s.kind ≡ oneshot
  pub state : s.state ≡ start
  pub file : s.pid_file ≡ none
  pub post : s.exec_start_post ≡ none
  pub beside : s.aux_want ≡ unset

passes_on :
    (os : Os) (s : Service)
    → s.kind ≡ oneshot
    → s.state ≡ start
    → s.pid_file ≡ none
    → s.exec_start_post ≡ none
    → s.aux_want ≡ unset
    → transition os s ≡ some (record s { state = start_post; main_pid_exited = 2 })
unfolding transition step_pidfile step_exited step_oneshot start_wanted svc_start_post_oneshot
passes_on os s k st f p w = ground arith

goes_online :
    (os : Os) (s : Service)
    → s.kind ≡ oneshot
    → s.pid_file ≡ none
    → transition os (record s { state = start_post; main_pid_exited = 2 })
      ≡ some (record s { state = online; main_pid_exited = 2 })
unfolding transition step_pidfile step_exited step_oneshot start_wanted svc_start_post_oneshot
goes_online os s h f = ground arith

-- A service of the type oneshot that has been started, with neither PIDFile nor ExecStartPost, is in the
-- state online at the end of the next round whatever the event of that round is: its process need
-- not have exited, and stays in the list if the event does not say so.
pub online_before_exit :
    (os : Os) (e : Event) (s : Service)
    → IsBareOneshot s
    → (s' : Service) × (round os e s ≡ some s')
      × (s'.state ≡ online)
      × (s'.pl ≡ (process_proc_kevents e s).pl)
unfolding round again_if_exited
online_before_exit os e s h =
    let a = note_purged (process_proc_kevents e s) in
    let b = purge a in
    let k = prepared-Keeps e s in
    let kind = k.kind ∙ h.kind in
    let file = k.file ∙ h.file in
    let first =
      passes_on os b kind (k.state ∙ h.state) file (k.start_post ∙ h.post) (k.beside ∙ h.beside) in
    (
      record b { state = online; main_pid_exited = 2 },
      ap (again_if_exited os) first ∙ goes_online os b kind file,
      refl,
      (purge-IsQuiet a).pl,
    )
