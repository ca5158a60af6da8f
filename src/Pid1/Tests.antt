-- ===== src/Pid1/Tests.antt =====
-- pid1/runit.c and telinit/telinit.c: the theorems at concrete inputs.
use runit.Base.{◌+◌, ◌≡◌, ◌⊎◌, ◌≤◌, true, false, List, [], ◌∷◌, arith, refl}
use runit.Pid1.Defs.{stage, early_runner, Reboot, spawn, Os, IsOs, Init, wait_crashed}
use runit.Pid1.Signals.{Answer, nothing, ended, stop_stage}
use runit.Pid1.Machine.{Input, finish, running, step, run, boot}
use runit.Pid1.Ends.{
  AreOthers, stage_of, Ending, IsCalm, end_each, IsFinished, stage_end_lem, run-IsFinished,
  killed_stage_goes_on,
}
use runit.Pid1.Waits.{slept, terminated, killed, Reports, before, stop_stage_bounds}
use runit.Pid1.Stop.{HasModes, discarded, signals_lem}
use runit.Pid1.Telinit.{
  Tools, Modes, IsPossible, asked, telinit, runit_reboot, sent_cont, telinit_obeyed,
}

-- A system where each new process has a new number, and the three files may be executed.
abbrev system : Os
system = record {
  executable = λ f t. true;
  fork_failures = λ t. 0;
  fork_pid = λ t. t + 2;
  wait_status = λ t. 0;
}

system-IsOs : IsOs system
system-IsOs t = omega arith

-- The third stage, with its process and the early service runner.
abbrev third : Init
third = record {
  curstage = 2;
  pid = 7;
  earlysvcpid = 5;
  sigc = 0;
  sigi = 0;
  calls = 9;
  trace = spawn 7 (stage 2) ∷ spawn 5 early_runner ∷ spawn 4 (stage 1) ∷ spawn 2 (stage 0) ∷ [];
}

abbrev quiet : Input
quiet = record { conts = 0; ints = 0; children = []; fails = false; stopping = [] }

-- The first stage's process, whose number is 2, exits 100 while another child ends.
abbrev exits_100 : Input
exits_100 = record quiet { children = (30, 0) ∷ (2, 25600) ∷ [] }

skipped : stage_of (run system (quiet ∷ exits_100 ∷ quiet ∷ []) (boot system)) ≡ 2
unfolding run boot
skipped = refl

others_of_third : AreOthers third ((30, 0) ∷ [])
others_of_third = (((λ e. absurd (omega arith)), (λ e. absurd (omega arith))), tt)

abbrev exits_111 : Input
exits_111 = record quiet { children = (30, 0) ∷ (7, 28416) ∷ [] }

stage_end_lem_example : stage_of (step system exits_111 third) ≡ 2
stage_end_lem_example =
    stage_end_lem system exits_111 third 28416 ((30, 0) ∷ []) [] refl others_of_third

zero-IsCalm : IsCalm 0
zero-IsCalm = record {
  no_crash = refl;
  not_100 = λ e. absurd (omega arith);
  not_111 = λ e. absurd (omega arith);
}

one-IsCalm : IsCalm 256
one-IsCalm = record {
  no_crash = refl;
  not_100 = λ e. absurd (omega arith);
  not_111 = λ e. absurd (omega arith);
}

-- The exit statuses 0 and 1; CONT comes and another child ends besides.
abbrev success : Ending
success = record { status = 0; input = quiet }

abbrev failure : Ending
failure = record { status = 256; input = record quiet { conts = 1; children = (30, 0) ∷ [] } }

run-IsFinished_example : IsFinished (
    end_each
      (success ∷ failure ∷ success ∷ success ∷ [])
      system
      (run system (exits_100 ∷ []) (boot system)))
run-IsFinished_example =
    run-IsFinished success failure success success system (exits_100 ∷ []) system-IsOs zero-IsCalm
      one-IsCalm zero-IsCalm zero-IsCalm

-- A segmentation fault, with a core dump.
abbrev dumped_core : Input
dumped_core = record quiet { children = (7, 139) ∷ [] }

killed_stage_goes_on_example :
    (wait_crashed 139 ≡ true) × (stage_of (step system dumped_core third) ≡ 3)
killed_stage_goes_on_example =
    killed_stage_goes_on system dumped_core third 139 [] [] refl tt (λ e. absurd (omega arith))
      (omega arith)

-- Another child ends, and after two seconds the stage's process.
abbrev slow_end : List Answer
slow_end = ended 30 ∷ nothing ∷ nothing ∷ ended 7 ∷ []

stop_stage_bounds_example :
    (terminated 7 (stop_stage slow_end third).trace ≡ 1)
    × (slept (stop_stage slow_end third).trace ≤ 5)
    × ((Reports 7 (before 5 slow_end)
          × ((stop_stage slow_end third).pid ≡ 0)
          × (killed 7 (stop_stage slow_end third).trace ≡ 0))
        ⊎ (¬ Reports 7 (before 5 slow_end)
            × (slept (stop_stage slow_end third).trace ≡ 5)
            × (killed 7 (stop_stage slow_end third).trace ≡ 1)))
stop_stage_bounds_example = stop_stage_bounds slow_end third

system-HasModes : HasModes system true true
system-HasModes = record { stopit_mode = λ t. refl; cad_mode = λ t. refl }

-- Ctrl-alt-del.
abbrev one_int : Input
one_int = record quiet { ints = 1; children = (30, 0) ∷ [] }

signals_lem_example :
    (stage_of (step system one_int third) ≡ 3)
    × ((third.curstage ≡ 2) ⊎ (step system one_int third ≡ running (discarded 0 1 third)))
signals_lem_example =
    signals_lem system one_int third true true system-HasModes others_of_third refl

abbrev tools : Tools
tools = record {
  creates_stopit = true;
  modes_stopit = true;
  creates_reboot = true;
  modes_reboot = true;
  reboot_missing = false;
}

abbrev modes : Modes
modes = record { stopit = false; reboot = false; reboot_exists = false }

abbrev new_modes : Modes
new_modes = record { stopit = true; reboot = true; reboot_exists = true }

modes-IsPossible : IsPossible tools modes
modes-IsPossible = record { exists = λ e. cc; missing = λ e. cc }

abbrev one_cont : Input
one_cont = record quiet { conts = 1; children = (30, 0) ∷ [] }

reboot_sent : telinit true tools modes ≡ sent_cont new_modes
unfolding runit_reboot
reboot_sent = refl

telinit_obeyed_example :
    (stage_of (step system one_cont third) ≡ 3)
    × (asked (finish system third).trace ≡ Reboot.autoboot ∷ [])
telinit_obeyed_example =
    telinit_obeyed system system one_cont third third tools modes new_modes true true
      modes-IsPossible reboot_sent system-HasModes (λ n. refl) others_of_third refl refl
      (omega arith)
