-- ===== src/Runsv/Life.antt =====
-- runsv/runsv.c: how a service goes on when its process ends.
use runit.Runsv.Reap.{reap_main-IsGone}
use runit.Runsv.Tracked.{startservice_pid}
use runit.Runsv.Quiet.{IsQuiet, stopservice_keeps}
use runit.Base.{
  ℕ, ◌≡◌, refl, Bool, true, false, List, if◌then◌else◌, ◌==◌, arith, ap, ◌∙◌, ltb, ◌||◌,
}
use runit.Runsv.Defs.{State, Want, Svdir, File, Os, IsOs, Proc, tick, Arg}
use runit.Runsv.Status.{update_status}
use runit.Runsv.Hooks.{wait_exitcode, group_wanted}
use runit.Runsv.Service.{
  startservice, is_finish, launch, started, fork, stop_stale, clip_firstrun, start_args,
}
use runit.Runsv.Loop.{
  Runsv, start_main, settle, down_or_done, gone, give_up, finish_or_down, reap_main, is_up,
}

-- Whether the files `finish` and `oneshot` can be opened, at all times.
pub record HasFiles (os : Os) (finish oneshot : Bool) : Type 0 where
  pub finish_opens : (t : ℕ) → os.open_read File.finish t ≡ finish
  pub oneshot_opens : (t : ℕ) → os.open_read File.oneshot t ≡ oneshot

-- The state after the process of a service in a state has ended.
abbrev pub next_state : Bool → Bool → State → State
next_state finish oneshot State.finish = if oneshot then State.done else State.down
next_state true oneshot State.done = State.finish
next_state false oneshot State.done = State.done
next_state true oneshot _ = State.finish
next_state false oneshot _ = if oneshot then State.done else State.down

-- The wanted state, with the exit code; 111 from `./finish` gives up.
abbrev pub next_want : Bool → Bool → State → Bool → Want → Want
next_want finish oneshot State.finish true w = if oneshot then Want.done else Want.down
next_want finish oneshot State.finish false w = if oneshot then Want.done else w
next_want true oneshot _ gave_up w = w
next_want false oneshot State.done gave_up w = w
next_want false oneshot _ gave_up w = if oneshot then Want.done else w

settle_keeps :
    (os : Os) (s : Svdir) (g : Proc)
    → ((settle os s g).0.state ≡ s.state)
      × ((settle os s g).0.want ≡ s.want)
      × ((settle os s g).0.wstat ≡ s.wstat)
unfolding settle
settle_keeps os s g = (refl, refl, refl)

-- The two from the test of the file `oneshot` on.
abbrev down_state : Bool → State → State
down_state oneshot State.done = State.done
down_state oneshot _ = if oneshot then State.done else State.down

abbrev down_want : Bool → State → Want → Want
down_want oneshot State.done w = w
down_want oneshot _ w = if oneshot then Want.done else w

down_or_done_lem :
    (os : Os) (finish oneshot : Bool) (s : Svdir) (g : Proc)
    → HasFiles os finish oneshot
    → ((down_or_done os s g).0.state ≡ down_state oneshot s.state)
      × ((down_or_done os s g).0.want ≡ down_want oneshot s.state s.want)
      × ((down_or_done os s g).0.wstat ≡ s.wstat)
unfolding down_or_done
down_or_done_lem os finish oneshot s g h =
    let o = h.oneshot_opens g.calls in
    ground
      (arith, o, settle_keeps os s g, settle_keeps os (record s { state = State.down }) (tick g))

finish_or_down_lem :
    (os : Os) (finish oneshot : Bool) (s : Svdir) (g : Proc)
    → HasFiles os finish oneshot
    → ((finish_or_down os s g).0.state ≡ next_state finish oneshot s.state)
      × ((finish_or_down os s g).0.want ≡ next_want finish oneshot s.state false s.want)
      × ((finish_or_down os s g).0.wstat ≡ s.wstat)
unfolding finish_or_down
finish_or_down_lem os finish oneshot s g h =
    let o = h.finish_opens g.calls in
    ground (
      arith,
      o,
      down_or_done_lem os finish oneshot s g h,
      down_or_done_lem os finish oneshot s (tick g) h,
    )

-- When the process of a service ends: after `./run` the state is S_FINISH if there is a file
-- `finish`; otherwise, and after `./finish`, it is S_DONE with the oneshot done if there is a file
-- `oneshot`, and else S_DOWN. The wanted state becomes W_DONE with S_DONE, W_DOWN when `./finish` has
-- returned 111, and stays in all other cases. The exit status is kept, for `./finish`.
pub reap_main_lem :
    (os : Os) (finish oneshot : Bool) (wstat : ℕ) (s : Svdir) (g : Proc)
    → HasFiles os finish oneshot
    → ((reap_main os wstat s g).0.state ≡ next_state finish oneshot s.state)
      × ((reap_main os wstat s g).0.want
          ≡ next_want finish oneshot s.state (wait_exitcode wstat == 111) s.want)
      × ((reap_main os wstat s g).0.wstat ≡ wstat)
unfolding reap_main gone give_up
reap_main_lem os finish oneshot wstat s g h =
    let g₁ : Proc = record g { pidchanged = true } in
    let s₁ = gone os wstat s in
    let s₂ : Svdir = record s₁ { want = Want.down } in
    ground (
      arith,
      finish_or_down_lem os finish oneshot s₁ g₁ h,
      finish_or_down_lem os finish oneshot s₂ (update_status os s₂ g₁) h,
    )

stop_stale_state : (os : Os) (s : Svdir) (g : Proc) → (stop_stale os s g).0.state ≡ s.state
unfolding stop_stale
stop_stale_state os s g = ground (arith, stopservice_keeps os s g)

launch_state :
    (os : Os) (newsid : Bool) (args : List Arg) (s : Svdir) (g : Proc)
    → (launch os newsid args s g).0.state ≡ (if is_finish s.state then State.finish else State.run)
unfolding launch started fork
launch_state os newsid args s g = ground arith

pub startservice_state :
    (os : Os) (s : Svdir) (g : Proc)
    → (startservice os s g).0.state ≡ (if is_finish s.state then State.finish else State.run)
unfolding startservice
startservice_state os s g =
    let s₁ = clip_firstrun os s in
    let (args, g₁) = start_args os s₁ (tick g) in
    let (s₂, g₂) = stop_stale os s₁ g₁ in
    launch_state os (group_wanted os g) args s₂ g₂
    ∙ ap (λ st. if is_finish st then State.finish else State.run) (stop_stale_state os s₁ g₁)

-- The service's record after the end of its process and the head of the next round.
abbrev pub after_end : Os → ℕ → Runsv → Svdir
after_end os wstat r =
    (start_main os (record r {
      main = (reap_main os wstat r.main r.proc).0;
      proc = (reap_main os wstat r.main r.proc).1;
    })).main

-- A service without a file `oneshot` whose `./run` has ended in any way is next in S_FINISH if it has
-- a file `finish`, else in S_RUN if it is wanted up, and else in S_DOWN. It has a process exactly when
-- it has a file `finish` or is wanted up: so a service that is wanted up runs again.
pub after_end_lem :
    (os : Os) (finish : Bool) (wstat : ℕ) (r : Runsv)
    → IsOs os
    → HasFiles os finish false
    → r.main.state ≡ State.run
    → IsQuiet r.proc
    → ((after_end os wstat r).state
        ≡ (if finish then State.finish else if is_up r.main.want then State.run else State.down))
      × (ltb 0 (after_end os wstat r).pid ≡ finish || is_up r.main.want)
unfolding start_main
after_end_lem os finish wstat r o h run q =
    let (st, w, _) = reap_main_lem os finish false wstat r.main r.proc h in
    let s = (reap_main os wstat r.main r.proc).0 in
    let g = (reap_main os wstat r.main r.proc).1 in
    let d = reap_main-IsGone os wstat r.main r.proc q in
    let v = startservice_state os s g in
    let p = startservice_pid os s g o in
    (ground (arith, st, w, d, v, p), ground (arith, st, w, d, v, p))
