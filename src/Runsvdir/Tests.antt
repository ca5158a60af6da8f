-- ===== src/Runsvdir/Tests.antt =====
-- runsvdir/runsvdir.c: the theorems at concrete inputs.
use runit.Base.{◌+◌, ◌≡◌, Bool, true, false, not, List, [], ◌∷◌, some, arith, refl}
use runit.Base.{ℕ, none, length}
use runit.Time.Taia.{Taia}
use runit.Runsvdir.Loop.{Main, Turn, rounds}
use runit.Runsvdir.Rounds.{rounds-IsTable}
use runit.Runsvdir.Defs.{Entry, Stat, Name, Dir, Fork}
use runit.Runsvdir.Table.{IsTable}
use runit.Runsvdir.Prune.{runsvdir, prune, prune_skips}

abbrev forks : Fork
forks t = some (t + 100)

abbrev empty : Dir
empty = record { sv = []; check = false; calls = 0; trace = [] }

empty-IsTable : IsTable empty
empty-IsTable = record { fits = omega arith; distinct = tt }

-- Two names of one directory, a hidden one, and one that is gone.
abbrev names : List Name
names =
    record { hidden = false; stat = Stat.found 1 5 true }
    ∷ record { hidden = false; stat = Stat.found 1 5 true }
    ∷ record { hidden = true; stat = Stat.failed }
    ∷ record { hidden = false; stat = Stat.failed }
    ∷ []

-- Two scans: the first finds one service, the second finds none and takes it out.
scans : (runsvdir forks (some ([], false)) (runsvdir forks (some (names, false)) empty)).sv ≡ []
unfolding runsvdir
scans = refl

abbrev gone : Entry
gone = record { dev = 1; ino = 5; pid = 100; isgone = true }

abbrev kept : Entry
kept = record { dev = 1; ino = 6; pid = 101; isgone = false }

abbrev full : Dir
full = record empty { sv = kept ∷ gone ∷ kept ∷ gone ∷ [] }

abbrev is_kept : Entry → Bool
is_kept e = not e.isgone

prune_skips_example : (rest : List Entry) × ((prune full).sv ≡ kept ∷ gone ∷ rest)
prune_skips_example = prune_skips (kept ∷ []) gone gone (kept ∷ []) full (refl, tt) refl refl

abbrev stamp : Taia
stamp = record { sec = 4611686018427387914; nano = 0; atto = 0 }

abbrev main : Main
main = record {
  dir = empty;
  seen = record { mtime = 0; ino = 0; dev = 0 };
  stampcheck = stamp;
  stamplog = stamp;
  rplog = none;
}

-- The directory was modified and is read.
abbrev turn : Turn
turn = record {
  ended = 7 ∷ [];
  now = stamp;
  reset = (stamp, stamp, stamp);
  stat = some (record { mtime = 5; ino = 6; dev = 7 });
  chdir = true;
  names = some (names, false);
  stuck = 1;
  written = [];
  exitsoon = 0;
}

rounds-IsTable_example : IsTable (rounds forks (turn ∷ turn ∷ []) main).1.dir
rounds-IsTable_example = rounds-IsTable forks (turn ∷ turn ∷ []) main empty-IsTable

-- The service is started in the first round.
two_rounds : length (rounds forks (turn ∷ turn ∷ []) main).1.dir.sv ≡ 1
unfolding rounds
two_rounds = refl

abbrev with_services : Main
with_services = record main { dir = full }

abbrev log : List ℕ
log = b'l' ∷ b'o' ∷ b'g' ∷ b':' ∷ b' ' ∷ b'.' ∷ b'.' ∷ []
