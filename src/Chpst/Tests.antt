-- ===== src/Chpst/Tests.antt =====
-- utils/chpst.c and libunix/pathexec_env.c: the theorems at concrete inputs.
use runit.Base.{
  ℕ, ◌-◌, ◌≡◌, ◌≢◌, ◌⊎◌, Bool, true, false, List, [], ◌∷◌, ◌++◌, none, some, arith, refl, All, ◌↔◌,
  pos, negsuc, ◌==◌,
}
use runit.Chpst.Env.{Text, pathexec_env, is_named, pathexec_env_run}
use runit.Chpst.Counts.{count}
use runit.Chpst.Variable.{variable_lem}
use runit.Chpst.Edir.{File}
use runit.Chpst.Limit.{Os, Resource, Limits}
use runit.Chpst.Main.{Options, Step, main, run, option, options}
use runit.Chpst.Runs.{runs}
use runit.Chpst.Success.{Succeeds, main_runs_iff}

abbrev name : Text
name = b'A' ∷ []

abbrev env : List Text
env = (b'A' ∷ b'=' ∷ b'1' ∷ []) ∷ (b'B' ∷ b'=' ∷ b'2' ∷ []) ∷ []

abbrev is_b : Text → Bool
is_b [] = false
is_b (c ∷ s) = c == b'B'

is_b-apart : (e : Text) → is_named name e ≡ true → is_b e ≡ false
unfolding is_named
is_b-apart [] h = refl
is_b-apart (c ∷ s) h = ground (arith, h)

name-IsName : All (λ c. (c ≢ 0) × (c ≢ b'=')) name
name-IsName = ((ground arith, ground arith), tt)

variable_lem_example :
    (rest : List Text) × (pathexec_env_run (pathexec_env name (some (b'9' ∷ [])) []) env
      ≡ rest ++ ((b'A' ∷ b'=' ∷ b'9' ∷ []) ∷ []))
    × (count (is_named name) rest ≡ count (is_named name) (pathexec_env_run [] env) - 1)
    × (count is_b rest ≡ count is_b (pathexec_env_run [] env))
variable_lem_example =
    variable_lem [] name (some (b'9' ∷ [])) env tt name-IsName
      ((ground arith, (ground arith, (ground arith, tt))), tt) is_b is_b-apart

-- The variable is replaced, and B stays.
replaced :
    pathexec_env_run (pathexec_env name (some (b'9' ∷ [])) []) env
    ≡ (b'B' ∷ b'=' ∷ b'2' ∷ []) ∷ (b'A' ∷ b'=' ∷ b'9' ∷ []) ∷ []
unfolding pathexec_env_run pathexec_env
replaced = refl

abbrev files : List (Text × File)
files =
    (b'.' ∷ b'x' ∷ [], File.failed) ∷ (name, File.bytes (b'1' ∷ [])) ∷ (b'D' ∷ [], File.is_dir) ∷ []

abbrev os : Os
os = record { hard = λ r. some 1024; sets = λ r n. true }

abbrev asked : Limits
asked = record {
  limitd = negsuc 1;
  limits = negsuc 1;
  limitl = negsuc 1;
  limita = negsuc 1;
  limito = pos 2000;
  limitp = negsuc 0;
  limitf = pos 10;
  limitc = negsuc 1;
  limitr = negsuc 1;
  limitt = negsuc 1;
}

abbrev reached : List (Resource × ℕ)
reached = (Resource.fsize, 10) ∷ (Resource.nproc, 1024) ∷ (Resource.nofile, 1024) ∷ []

abbrev unset : Limits
unset = record asked { limito = negsuc 1; limitp = negsuc 1; limitf = negsuc 1 }

abbrev given : Options
given = record {
  set_user = some (b'u' ∷ []);
  env_user = none;
  argv0 = none;
  env_dir = none;
  root = some (b'/' ∷ []);
  lock = none;
  lockdelay = false;
  verbose = false;
  pgrp = true;
  nostdin = false;
  nostdout = false;
  nostderr = false;
  nicelvl = pos 0;
  limits = unset;
}

abbrev cannot : Step → Bool
cannot (Step.suidgid u) = false
cannot _ = true

main_runs_iff_example :
    ((runs (main cannot given name) ≡ true) ↔ Succeeds cannot given)
    × ((runs (main cannot given name) ≡ false)
        ⊎ ((done : List Step) × (main cannot given name ≡ done ++ (run name name ∷ []))
            × (runs done ≡ false)))
main_runs_iff_example = main_runs_iff cannot given name

-- `-o 5 -0` as `getopt` gives them.
two_options :
    options ((b'o', b'5' ∷ []) ∷ (b'0', []) ∷ []) given
    ≡ some (record given { limits = record unset { limito = pos 5 }; nostdin = true })
unfolding options option
two_options = refl
