-- ===== src/Sv/Tests.antt =====
-- sv/sv.c: the theorems at concrete inputs.
use runit.Base.{
  ℕ, ◌≡◌, ◌≢◌, ◌<◌, ◌↔◌, ◌⊎◌, true, false, List, [], ◌∷◌, none, some, arith, refl, length, pos,
}
use runit.Runsv.Defs.{State, Want, noop, Svdir}
use runit.Runsv.Status.{status_bytes, want_byte}
use runit.Sv.Defs.{Sv, Service, opened, no_device, Read, Script}
use runit.Sv.Get.{Answers, with_status, control, status_begins, print, status_stale}
use runit.Sv.Check.{check, checkscript}
use runit.Sv.Agrees.{Shows, status_bytes-Shows, check_up_down_iff, control_silent_iff}
use runit.Sv.Action.{Plan, Act, IsGood, parse_action, parse_action-IsGood}
use runit.Base.{if◌then◌else◌, ◌==◌, ◌+◌}
use runit.Sv.Defs.{Place, no_log, fail_with, report, status_pid}
use runit.Sv.Get.{control_acts, control_got, control_running, svstatus_get, read_status}
use runit.Sv.Check.{check_got, check_all, check_char}
use runit.Sv.Print.{status}
use runit.Sv.Loop.{
  World, Run, main, acting, act_in, act, leave, from_varservice, wait_if, waiting, pass, wait_in,
  finish_if, finish, from_varservice_again,
}
use runit.Sv.Ends.{main_returns}
use runit.Sv.Counts.{Counts, bad}
use runit.Sv.Succeeds.{exit_zero}
use runit.Sv.Slash.{controlled, trailing_slash}
use runit.Sv.Lsb.{report_for, lsb_status}

-- A running service that is wanted up, as `runsv` holds it.
abbrev running : Svdir
running = record {
  pid = 4242;
  oldpid = 0;
  firstrun = 1;
  oneshot = false;
  state = State.run;
  ctrl = noop;
  want = Want.up;
  start = record { sec = 4611686018427387914; nano = 0; atto = 0 };
  wstat = 0;
  islog = false;
}

abbrev program : Sv
program = record {
  rc = 0;
  r = pos 0;
  svstatus = [];
  lsb = false;
  tstart = 0;
  tnow = 0;
  lines = [];
  errors = [];
}

abbrev directory : Service
directory = record {
  ok_pipe = opened;
  status_opens = true;
  status_read = Read.got (status_bytes running);
  control_pipe = opened;
  control_takes = some 1;
  script = Script.missing;
  forks = true;
  script_status = none;
}

abbrev place : Place
place = record { look = λ n. directory; down = Script.missing; log = no_log }

directory-Answers : Answers directory (status_bytes running)
unfolding status_bytes
directory-Answers = record { alive = refl; opens = refl; reads = refl; whole = refl }

status_bytes-Shows_example :
    (length (status_bytes running) ≡ 20)
    × Shows running (with_status program (status_bytes running))
status_bytes-Shows_example = status_bytes-Shows running program (omega arith) (omega arith)

check_up_down_iff_example :
    (((check directory (b'u' ∷ []) program).0 ≡ pos 1)
      ↔ ((0 < running.pid) × (running.state ≡ State.run) × (checkscript directory ≡ true)))
    × (((check directory (b'd' ∷ []) program).0 ≡ pos 1)
        ↔ ((running.pid ≡ 0) × (running.state ≡ State.down)))
check_up_down_iff_example =
    check_up_down_iff directory running program directory-Answers (omega arith) (omega arith)

abbrev letter : ℕ
letter = b'u'

control_silent_iff_example :
    ((control directory (b'u' ∷ []) program).1 ≡ [])
    ↔ ((want_byte Want.up ≡ b'u') × ((letter ≢ b'd') ⊎ (false ≡ true)))
control_silent_iff_example =
    control_silent_iff directory running b'u' program directory-Answers refl refl (omega arith)
      (omega arith)

abbrev restart : List ℕ
restart = b'r' ∷ b'e' ∷ b's' ∷ b't' ∷ b'a' ∷ b'r' ∷ b't' ∷ []

abbrev restarting : Plan
restarting = record { act = Act.control; acts = b't' ∷ b'c' ∷ b'u' ∷ []; kll = false; waits = true }

parse_action-IsGood_example : IsGood restarting
unfolding parse_action
parse_action-IsGood_example = parse_action-IsGood false false restart restarting refl

status_stale_example :
    ((status_begins
        (record directory { ok_pipe = no_device })
        b's'
        (record program { r = pos 20 })).0
      ≡ print)
    × ((status_begins
          (record directory { ok_pipe = no_device })
          b's'
          (record program { r = pos 20 })).1.svstatus
        ≡ [])
status_stale_example =
    status_stale (record directory { ok_pipe = no_device }) b's' (record program { r = pos 20 })
      refl refl

-- A world where each name leads to the directory, and the time is over from the second round on.
abbrev world : World
world = record {
  chdir = λ t far name. some place;
  fchdir = λ t. true;
  late = λ n. if n == 0 then false else true;
  now = λ n. n;
}

abbrev begun : Run
begun = record { sv = program; visits = 0; sent = [] }

abbrev names : List (List ℕ)
names = (b'f' ∷ []) ∷ []

main_returns_example :
    (code : ℕ) × (m : Run) × (main world restarting (1 + 2) names begun ≡ some (code, m))
main_returns_example = main_returns world restarting 1 names begun refl

begun-Counts : Counts program
begun-Counts = record { at_least = omega arith; at_most = omega arith }

-- The service is up already, and `start` says so.
abbrev starting : Plan
starting = record { act = Act.control; acts = b'u' ∷ []; kll = false; waits = true }

abbrev up : Run
up = record {
  sv = record (with_status program (status_bytes running)) { r = pos 1 };
  visits = 2;
  sent = [];
}

up_at_once : main world starting 1 names begun ≡ some (0, up)
unfolding main acting act_in act control control_acts control_got control_running svstatus_get
    read_status leave from_varservice wait_if waiting pass wait_in check check_got check_all
    check_char finish_if finish checkscript status_pid status_bytes from_varservice_again
up_at_once = refl

exit_zero_example : Counts up.sv × (◌≡◌ {A = ℕ} 0 0 → bad up.sv.lines ≡ 0)
exit_zero_example = exit_zero world starting 1 names begun up 0 (λ e. cc) begun-Counts up_at_once

-- A name with a slash at its end, found from the current directory only.
abbrev near : World
near = record world { chdir = λ t far name. if far then none else some place }

abbrev slashed : List ℕ
slashed = b'f' ∷ b'/' ∷ []

trailing_slash_example :
    main near starting 1 (slashed ∷ []) begun
    ≡ some (
      1,
      record (controlled starting place slashed begun) {
        sv =
            fail_with "unable to change to service directory"
              (controlled starting place slashed begun).sv;
        visits = 2;
      },
    )
unfolding control control_acts control_got control_running svstatus_get read_status status_bytes
trailing_slash_example =
    trailing_slash near starting place slashed begun refl refl refl refl (λ t. refl) (λ t. refl)
      (λ t. refl) refl

abbrev lsb_program : Sv
lsb_program = record program { lsb = true; tnow = 4611686018427387920 }

lsb_status_example :
    ((status place lsb_program).0 ≡ some 0)
    × ((status place lsb_program).1.lines ≡ report (report_for running 4611686018427387920) ∷ [])
lsb_status_example =
    lsb_status place running lsb_program directory-Answers refl (omega arith) (omega arith)
