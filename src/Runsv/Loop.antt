-- ===== src/Runsv/Loop.antt =====
-- runsv/runsv.c: `main`, from the state it begins with to its exit.
use runit.Base.{ℕ, Bool, true, false, [], ◌&&◌, ◌||◌, if◌then◌else◌, ◌==◌}
use runit.Time.Taia.{Taia, taia_add, taia_uint, taia_less}
use runit.Runsv.Defs.{State, Want, noop, Svdir, File, Os, Proc, tick, emit, sleep}
use runit.Runsv.Status.{update_status}
use runit.Runsv.Hooks.{wait_exitcode}
use runit.Runsv.Service.{startservice, is_finish}
use runit.Runsv.Control.{is_done}

-- `svd[0]`, `svd[1]`, `sigterm`, and the rest.
pub record Runsv : Type 0 where
  pub main : Svdir
  pub log : Svdir
  pub sigterm : Bool
  pub proc : Proc

-- What `main` finds in the service's directory: `noauto`, `oneshot`, a directory `log`, `log/down`.
pub record Found : Type 0 where
  pub noauto : Bool
  pub oneshot : Bool
  pub has_log : Bool
  pub log_down : Bool

-- The fields of the zeroed `svd` that `main` sets, and the two first calls of `update_status`.
unfoldable pub init_main : Found → Taia → Svdir
init_main f now = record {
  pid = 0;
  oldpid = 0;
  firstrun = 1;
  oneshot = f.oneshot;
  state = State.down;
  ctrl = noop;
  want = if f.noauto then Want.down else Want.up;
  start = now;
  wstat = 0;
  islog = false;
}

-- Without a log directory this one keeps its zeros, of which W_UP is one.
unfoldable pub init_log : Found → Taia → Svdir
init_log f now = record {
  pid = 0;
  oldpid = 0;
  firstrun = 0;
  oneshot = false;
  state = State.down;
  ctrl = noop;
  want = if f.has_log && f.log_down then Want.down else Want.up;
  start = if f.has_log then now else taia_uint 0;
  wstat = 0;
  islog = f.has_log;
}

abbrev pub is_up : Want → Bool
is_up Want.up = true
is_up _ = false

module _ (os : Os) where
  unfoldable pub init : Found → Runsv
  unfolding init_main init_log
  init f =
      let main = init_main f (os.now 0) in
      let log = init_log f (os.now 1) in
      let g₀ : Proc = record { pidchanged = true; haslog = f.has_log; calls = 2; trace = [] } in
      let g₁ = update_status os main g₀ in
      let g₂ = if f.has_log then update_status os log g₁ else g₁ in
      record { main = main; log = log; sigterm = false; proc = g₂ }

  -- The two `startservice` calls at the head of the loop.
  unfoldable pub start_log : Runsv → Runsv
  start_log r =
      if r.proc.haslog && (r.log.pid == 0) && is_up r.log.want
      then (let (s, g) = startservice os r.log r.proc in record r { log = s; proc = g })
      else r

  unfoldable pub start_main : Runsv → Runsv
  start_main r =
      if (r.main.pid == 0) && (is_up r.main.want || is_finish r.main.state)
      then (let (s, g) = startservice os r.main r.proc in record r { main = s; proc = g })
      else r

  -- `taia_uint(&deadline, 1); …; if (taia_less(&s.start, &deadline)) sleep(1);`
  unfoldable pub settle : Svdir → Proc → Svdir × Proc
  unfolding taia_add taia_uint taia_less
  settle s g =
      let deadline = taia_add s.start (taia_uint 1) in
      let s₁ = record s { start = os.now g.calls } in
      let g₁ = update_status os s₁ (tick g) in
      (s₁, if taia_less s₁.start deadline then emit (sleep 1) g₁ else g₁)

  -- From the test of the file `oneshot` on, and whether the code says `continue`.
  unfoldable pub down_or_done : Svdir → Proc → Svdir × Proc × Bool
  unfolding settle
  down_or_done s g =
      if is_done s.state
      then ((settle s g).0, (settle s g).1, false)
      else if os.open_read File.oneshot g.calls
      then (let s₁ = record s { state = State.done; want = Want.done } in
          (s₁, update_status os s₁ (tick g), true))
      else (let (s₁, g₁) = settle (record s { state = State.down }) (tick g) in (s₁, g₁, false))

  -- The first statements for a gone service.
  unfoldable pub gone : ℕ → Svdir → Svdir
  gone wstat s = record s {
    oldpid = s.pid;
    pid = 0;
    firstrun = 0;
    wstat = wstat;
    ctrl = record { term = false; pause = s.ctrl.pause };
  }

  -- The test of `./finish` having returned 111.
  unfoldable pub give_up : Svdir → Proc → Svdir × Proc
  give_up s g =
      if (wait_exitcode s.wstat == 111) && is_finish s.state
      then (record s { want = Want.down }, update_status os (record s { want = Want.down }) g)
      else (s, g)

  -- The test of the file `finish`, and what follows.
  unfoldable pub finish_or_down : Svdir → Proc → Svdir × Proc × Bool
  unfolding down_or_done
  finish_or_down s g =
      if is_finish s.state
      then down_or_done s g
      else if os.open_read File.finish g.calls
      then (let s₁ = record s { state = State.finish } in (s₁, update_status os s₁ (tick g), true))
      else down_or_done s (tick g)

  -- The block of `child == svd[0].pid`.
  unfoldable pub reap_main : ℕ → Svdir → Proc → Svdir × Proc × Bool
  unfolding gone give_up finish_or_down
  reap_main wstat s g =
      let (s₁, g₁) = give_up (gone wstat s) (record g { pidchanged = true }) in finish_or_down s₁ g₁

  -- The block of `child == svd[1].pid`.
  unfoldable pub reap_log : Svdir → Proc → Svdir × Proc
  unfolding settle
  reap_log s g =
      settle
        (record s {
          pid = 0;
          state = State.down;
          ctrl = record { term = false; pause = s.ctrl.pause };
        })
        (record g { pidchanged = true })

  -- The first `if` over a child, and whether the code says `continue`.
  unfoldable pub reap_first : ℕ → ℕ → Runsv → Runsv × Bool
  unfolding reap_main
  reap_first child wstat r =
      let (s, g, next) = reap_main wstat r.main r.proc in
      if child == r.main.pid then (record r { main = s; proc = g }, next) else (r, false)

  unfoldable pub reap_second : ℕ → Runsv → Runsv
  unfolding reap_log
  reap_second child r =
      let (s, g) = reap_log r.log r.proc in
      if r.proc.haslog && (child == r.log.pid) then record r { log = s; proc = g } else r

  unfoldable pub reap : ℕ → ℕ → Runsv → Runsv
  unfolding reap_first reap_second
  reap child wstat r =
      let (r₁, next) = reap_first child wstat r in if next then r₁ else reap_second child r₁
