-- ===== src/Runsv/Commands.antt =====
-- runsv/runsv.c: the wanted state and the signals of each command.
use runit.Base.{
  ℕ, ◌≡◌, refl, Bool, true, false, List, if◌then◌else◌, arith, ◌==◌, ◌&&◌, ◌||◌, not, ◌∙◌,
}
use runit.Runsv.Defs.{Want, Svdir, Target, Os, Proc, tick, Arg}
use runit.Runsv.Status.{update_status}
use runit.Runsv.Hooks.{kill_target, group_wanted}
use runit.Runsv.Service.{
  stopservice, stoponeshotservice, stop_stale, clip_firstrun, start_args, launch, startservice,
}
use runit.Runsv.Control.{Command, dispatch, ctrl, stop_either, want_now, ctrl_up, command}
use runit.Runsv.Quiet.{stopservice_keeps}

-- The fields that only the wanted state and the service's directory decide.
pub record SameAim (s s' : Svdir) : Type 0 where
  pub want : s'.want ≡ s.want
  pub islog : s'.islog ≡ s.islog
  pub oneshot : s'.oneshot ≡ s.oneshot

stopservice-SameAim : (os : Os) (s : Svdir) (g : Proc) → SameAim s (stopservice os s g).0
stopservice-SameAim os s g = ground (arith, stopservice_keeps os s g)

stoponeshotservice-SameAim :
    (os : Os) (s : Svdir) (g : Proc) → SameAim s (stoponeshotservice os s g).0
unfolding stoponeshotservice
stoponeshotservice-SameAim os s g = ground arith

launch-SameAim :
    (os : Os) (newsid : Bool) (args : List Arg) (s : Svdir) (g : Proc)
    → SameAim s (launch os newsid args s g).0
unfolding launch
launch-SameAim os newsid args s g = ground arith

stop_stale-SameAim : (os : Os) (s : Svdir) (g : Proc) → SameAim s (stop_stale os s g).0
unfolding stop_stale
stop_stale-SameAim os s g = ground (arith, stopservice-SameAim os s g)

SameAim-trans : (s t u : Svdir) → SameAim s t → SameAim t u → SameAim s u
SameAim-trans s t u h k = ground arith

pub startservice-SameAim : (os : Os) (s : Svdir) (g : Proc) → SameAim s (startservice os s g).0
unfolding startservice
startservice-SameAim os s g =
    let s₁ = clip_firstrun os s in
    let (args, g₁) = start_args os s₁ (tick g) in
    let (s₂, g₂) = stop_stale os s₁ g₁ in
    SameAim-trans s s₂ (launch os (group_wanted os g) args s₂ g₂).0
      (SameAim-trans s s₁ s₂ (record { want = refl; islog = refl; oneshot = refl })
        (stop_stale-SameAim os s₁ g₁))
      (launch-SameAim os (group_wanted os g) args s₂ g₂)

stop_either-SameAim : (os : Os) (s : Svdir) (g : Proc) → SameAim s (stop_either os s g).0
unfolding stop_either
stop_either-SameAim os s g =
    ground (arith, stopservice-SameAim os s g, stoponeshotservice-SameAim os s g)

-- What the documentation says of `d`, `u`, `x` and `o`; a log service ignores `x`.
abbrev pub wanted_by : Command → Bool → Want → Want
wanted_by Command.down islog w = Want.down
wanted_by Command.up islog w = Want.up
wanted_by Command.exit true w = w
wanted_by Command.exit false w = Want.exit
wanted_by Command.once islog w = Want.down
wanted_by _ islog w = w

abbrev Aims : Command → Type 0
Aims k =
    (os : Os) (t : Target) (c : ℕ) (s : Svdir) (g : Proc)
    → ((dispatch os k t c s g).0.want ≡ wanted_by k s.islog s.want)
      × ((dispatch os k t c s g).0.islog ≡ s.islog)
      × ((dispatch os k t c s g).0.oneshot ≡ s.oneshot)

dispatch-Aims : (k : Command) → Aims k
unfolding dispatch want_now ctrl_up
dispatch-Aims Command.down os t c s g =
    let s₁ : Svdir = record s { want = Want.down } in
    ground (arith, stop_either-SameAim os s₁ (update_status os s₁ g))
dispatch-Aims Command.up os t c s g =
    let s₁ : Svdir = record s { want = Want.up } in
    ground (
      arith,
      startservice-SameAim os (record s₁ { firstrun = 1 }) (update_status os s₁ g),
      startservice-SameAim os s₁ (update_status os s₁ g),
    )
dispatch-Aims Command.exit os t c s g =
    let s₁ : Svdir = record s { want = Want.exit } in
    ground (arith, stop_either-SameAim os s₁ (update_status os s₁ g))
dispatch-Aims Command.once os t c s g =
    let s₁ : Svdir = record s { want = Want.down } in
    ground (arith, startservice-SameAim os s₁ (update_status os s₁ g))
dispatch-Aims Command.term os t c s g = ground (arith, stopservice-SameAim os s g)
dispatch-Aims _ os t c s g = (refl, refl, refl)

-- The wanted state that a character asks for: `d` and `o` for down, `u` for up, and `x`, unless the
-- service is a log service, for exit.
abbrev pub wanted_after : ℕ → Bool → Want → Want
wanted_after c islog w =
    if (c == b'd') || (c == b'o')
    then Want.down
    else if c == b'u'
    then Want.up
    else if (c == b'x') && not islog
    then Want.exit
    else w

wanted_lem :
    (c : ℕ) (islog : Bool) (w : Want) → wanted_by (command c) islog w ≡ wanted_after c islog w
unfolding command
wanted_lem c true w = ground arith
wanted_lem c false w = ground arith

-- Every command sets the wanted state as the manual says: `d` and `o` to down, `u` to up, `x` to exit
-- unless the service is a log service; every other character leaves it. None changes whether the
-- service is a log service or a oneshot.
pub ctrl_wants :
    (os : Os) (s : Svdir) (c : ℕ) (g : Proc)
    → ((ctrl os s c g).0.want ≡ wanted_after c s.islog s.want)
      × ((ctrl os s c g).0.islog ≡ s.islog)
      × ((ctrl os s c g).0.oneshot ≡ s.oneshot)
unfolding ctrl
ctrl_wants os s c g =
    let k = dispatch-Aims (command c) os (kill_target os s g) c s (tick g) in
    (k.0 ∙ wanted_lem c s.islog s.want, k.1, k.2)
