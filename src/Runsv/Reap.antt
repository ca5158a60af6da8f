-- ===== src/Runsv/Reap.antt =====
-- runsv/runsv.c: the starts at the head of the loop in `main`, and the ends of children.
use runit.Base.{ℕ, ◌≡◌, ◌≢◌, Bool, true, false, List, [], ◌∷◌, if◌then◌else◌, arith}
use runit.Runsv.Defs.{State, Want, Svdir, Os, IsOs, Proc, tick}
use runit.Runsv.Loop.{
  Runsv, start_log, start_main, settle, down_or_done, gone, give_up, finish_or_down, reap_main,
  reap_log, reap_first, reap_second, reap,
}
use runit.Runsv.Round.{reap_all}
use runit.Runsv.Quiet.{IsQuiet, update_status-IsQuiet, startservice-IsQuiet}
use runit.Runsv.Tracked.{IsTracked, startservice-IsTracked}

-- Both services are tracked, and all signals so far were aimed.
pub record IsOrderly (r : Runsv) : Type 0 where
  pub main_tracked : IsTracked r.main
  pub log_tracked : IsTracked r.log
  pub quiet : IsQuiet r.proc

pub start_log-IsOrderly : (os : Os) (r : Runsv) → IsOs os → IsOrderly r → IsOrderly (start_log os r)
unfolding start_log
start_log-IsOrderly os r o h =
    ground (
      arith,
      startservice-IsTracked os r.log r.proc o,
      startservice-IsQuiet os r.log r.proc h.quiet,
    )

pub start_main-IsOrderly :
    (os : Os) (r : Runsv) → IsOs os → IsOrderly r → IsOrderly (start_main os r)
unfolding start_main
start_main-IsOrderly os r o h = ground (
  arith,
  startservice-IsTracked os r.main r.proc o,
  startservice-IsQuiet os r.main r.proc h.quiet,
)

-- What a block of the reaper leaves.
IsSettled : Svdir → Svdir × Proc → Type 0
IsSettled s (s', g') = (s'.state ≡ s.state) × (s'.pid ≡ s.pid) × (s'.want ≡ s.want) × IsQuiet g'

settle-IsSettled : (os : Os) (s : Svdir) (g : Proc) → IsQuiet g → IsSettled s (settle os s g)
unfolding settle IsSettled
settle-IsSettled os s g h =
    ground (arith, update_status-IsQuiet os (record s { start = os.now g.calls }) (tick g) h)

-- A service that is gone: no process, and neither S_RUN nor S_STARTING.
pub record IsGone (s : Svdir) (g : Proc) : Type 0 where
  pub no_pid : s.pid ≡ 0
  pub not_running : s.state ≢ State.run
  pub not_starting : s.state ≢ State.starting
  pub quiet : IsQuiet g

down_or_done-IsGone :
    (os : Os) (s : Svdir) (g : Proc)
    → IsQuiet g
    → s.pid ≡ 0
    → IsGone (down_or_done os s g).0 (down_or_done os s g).1
unfolding down_or_done IsSettled
down_or_done-IsGone os s g h p = ground (
  arith,
  settle-IsSettled os s g h,
  settle-IsSettled os (record s { state = State.down }) (tick g) h,
  update_status-IsQuiet os (record s { state = State.done; want = Want.done }) (tick g) h,
)

finish_or_down-IsGone :
    (os : Os) (s : Svdir) (g : Proc)
    → IsQuiet g
    → s.pid ≡ 0
    → IsGone (finish_or_down os s g).0 (finish_or_down os s g).1
unfolding finish_or_down
finish_or_down-IsGone os s g h p = ground (
  arith,
  down_or_done-IsGone os s g h p,
  down_or_done-IsGone os s (tick g) h p,
  update_status-IsQuiet os (record s { state = State.finish }) (tick g) h,
)

give_up_lem :
    (os : Os) (s : Svdir) (g : Proc)
    → IsQuiet g
    → ((give_up os s g).0.pid ≡ s.pid) × IsQuiet (give_up os s g).1
unfolding give_up
give_up_lem os s g h = ground (arith, update_status-IsQuiet os (record s { want = Want.down }) g h)

-- When the service's process has ended, the service has no process and is not running, whatever the
-- status, the files `finish` and `oneshot` and the clock are.
pub reap_main-IsGone :
    (os : Os) (wstat : ℕ) (s : Svdir) (g : Proc)
    → IsQuiet g
    → IsGone (reap_main os wstat s g).0 (reap_main os wstat s g).1
unfolding reap_main gone
reap_main-IsGone os wstat s g h =
    let g₁ : Proc = record g { pidchanged = true } in
    let (p, q) = give_up_lem os (gone os wstat s) g₁ h in
    finish_or_down-IsGone os (give_up os (gone os wstat s) g₁).0 (give_up os (gone os wstat s) g₁).1
      q p

reap_log-IsGone :
    (os : Os) (s : Svdir) (g : Proc) → IsQuiet g → IsGone (reap_log os s g).0 (reap_log os s g).1
unfolding reap_log IsSettled
reap_log-IsGone os s g h = ground (
  arith,
  settle-IsSettled os
      (record s {
        pid = 0;
        state = State.down;
        ctrl = record { term = false; pause = s.ctrl.pause };
      })
      (record g { pidchanged = true }) h,
)

IsGone-IsTracked : (s : Svdir) (g : Proc) → IsGone s g → IsTracked s
IsGone-IsTracked s g h = ground arith

reap_first-IsOrderly :
    (os : Os) (c w : ℕ) (r : Runsv) → IsOrderly r → IsOrderly (reap_first os c w r).0
unfolding reap_first
reap_first-IsOrderly os c w r h =
    let d = reap_main-IsGone os w r.main r.proc h.quiet in
    ground (
      arith,
      d,
      IsGone-IsTracked (reap_main os w r.main r.proc).0 (reap_main os w r.main r.proc).1 d,
    )

reap_second-IsOrderly : (os : Os) (c : ℕ) (r : Runsv) → IsOrderly r → IsOrderly (reap_second os c r)
unfolding reap_second
reap_second-IsOrderly os c r h =
    let d = reap_log-IsGone os r.log r.proc h.quiet in
    ground (arith, d, IsGone-IsTracked (reap_log os r.log r.proc).0 (reap_log os r.log r.proc).1 d)

if-IsOrderly :
    (b : Bool) (r r' : Runsv) → IsOrderly r → IsOrderly r' → IsOrderly (if b then r else r')
if-IsOrderly true r r' h h' = h
if-IsOrderly false r r' h h' = h'

reap-IsOrderly : (os : Os) (c w : ℕ) (r : Runsv) → IsOrderly r → IsOrderly (reap os c w r)
unfolding reap
reap-IsOrderly os c w r h =
    let f = reap_first-IsOrderly os c w r h in
    if-IsOrderly (reap_first os c w r).1 (reap_first os c w r).0
      (reap_second os c (reap_first os c w r).0) f
      (reap_second-IsOrderly os c (reap_first os c w r).0 f)

pub reap_all-IsOrderly :
    (os : Os) (l : List (ℕ × ℕ)) (r : Runsv) → IsOrderly r → IsOrderly (reap_all os l r)
unfolding reap_all
reap_all-IsOrderly os [] r h = h
reap_all-IsOrderly os ((c, w) ∷ l) r h =
    reap_all-IsOrderly os l (reap os c w r) (reap-IsOrderly os c w r h)
