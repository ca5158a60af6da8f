-- ===== src/Runsvdir/Loop.antt =====
-- runsvdir/runsvdir.c: `setup_log` as far as the log's length goes, and the loop of `main`.
use runit.Base.{
  ℕ, zero, suc, ◌+◌, ◌-◌, ◌%◌, ◌^◌, Bool, false, List, [], ◌∷◌, ◌++◌, Option, none, some,
  if◌then◌else◌, ◌==◌, ◌||◌, not, ltb, leb, length, take, drop,
}
use runit.Time.Taia.{Taia, taia_uint, taia_add, taia_less}
use runit.Runsvdir.Defs.{Entry, Name, warn, terminate, sleep, log_mark, Dir, Fork, emit}
use runit.Runsvdir.Prune.{runsvdir, collect}

-- What `stat` says of the directory.
pub record Found : Type 0 where
  pub mtime : ℕ
  pub ino : ℕ
  pub dev : ℕ

-- The variables of the loop; `rplog` is nothing while there is no log.
pub record Main : Type 0 where
  pub dir : Dir
  pub seen : Found
  pub stampcheck : Taia
  pub stamplog : Taia
  pub rplog : Option (List ℕ)

-- What a round of the loop is given: the ended processes that `wait_nohang` finds; the times that
-- `taia_now` gives; `stat`, whether `chdir` succeeds, what `runsvdir` reads, how often `fchdir`
-- fails; the bytes that the pipe of the log gives, and `exitsoon` at the end.
pub record Turn : Type 0 where
  pub ended : List ℕ
  pub now : Taia
  pub reset : Taia × Taia × Taia
  pub stat : Option Found
  pub chdir : Bool
  pub names : Option (List Name × Bool)
  pub stuck : ℕ
  pub written : List ℕ
  pub exitsoon : ℕ

-- `setup_log` accepts a log of this length; its system calls are taken to succeed.
unfoldable pub setup_log : List ℕ → Option (List ℕ)
setup_log log = if ltb (length log) 7 then none else some log

unfoldable pub collect_all : List ℕ → Dir → Dir
unfolding collect
collect_all [] g = g
collect_all (pid ∷ pids) g = collect_all pids (collect pid g)

-- The stamps when the time has gone back by more than three seconds, and the time.
unfoldable pub check_warp : Turn → Main → Taia × Main
check_warp t m =
    if ltb t.now.sec ((m.stampcheck.sec + (2 ^ 64 - 3)) % 2 ^ 64)
    then (
      t.reset.1,
      record m {
        dir = emit (warn "time warp: resetting time stamp.") m.dir;
        stampcheck = t.reset.0;
        stamplog = elim m.rplog [ none ↦ m.stamplog | some _ ↦ t.reset.2 ];
      },
    )
    else (t.now, m)

-- `while (fchdir(curdir) == -1)`
unfoldable pub back : ℕ → Dir → Dir
back zero g = g
back (suc n) g = back n (emit (sleep 5) (emit (warn "unable to change directory, pausing") g))

-- `check || s.st_mtime != mtime || s.st_ino != ino || s.st_dev != dev`
abbrev pub is_modified : Found → Main → Bool
is_modified s m =
    m.dir.check
    || (not (s.mtime == m.seen.mtime) || (not (s.ino == m.seen.ino) || not (s.dev == m.seen.dev)))

-- The scan of a directory that was modified.
unfoldable pub scan : Fork → Turn → Taia → Found → Main → Main
unfolding runsvdir back
scan fork t now s m =
    let g = m.dir in
    let g₀ : Dir = record g { check = false } in
    let g₁ =
      if leb now.sec ((4611686018427387914 + s.mtime) % 2 ^ 64) then emit (sleep 1) g₀ else g₀ in
    record m { seen = s; dir = back t.stuck (runsvdir fork t.names g₁) }

-- What `stat` gives decides on the scan.
unfoldable pub look : Fork → Turn → Taia → Option Found → Main → Main
unfolding scan
look fork t now none m = record m { dir = emit (warn "unable to stat") m.dir }
look fork t now (some s) m =
    if is_modified s m
    then if t.chdir
      then scan fork t now s m
      else record m { dir = emit (warn "unable to change directory to") m.dir }
    else m

-- At most once a second.
unfoldable pub check_dir : Fork → Turn → Taia → Main → Main
unfolding look taia_less taia_add taia_uint
check_dir fork t now m =
    if taia_less now m.stampcheck
    then m
    else look fork t now t.stat (record m { stampcheck = taia_add now (taia_uint 1) })

-- A dot for the log, at most every 900 seconds.
unfoldable pub mark : Option (List ℕ) → Taia → Main → Main
unfolding taia_less taia_add taia_uint
mark none now m = m
mark (some log) now m =
    if taia_less now m.stamplog
    then m
    else record m { dir = emit log_mark m.dir; stamplog = taia_add now (taia_uint 900) }

unfoldable pub mark_log : Taia → Main → Main
unfolding mark
mark_log now m = mark m.rplog now m

-- The part of the log that `for (i =6; i < rploglen; i++) rplog[i -1] =rplog[i];` moves, and the last
-- byte.
unfoldable pub shift_tail : ℕ → List ℕ → List ℕ
shift_tail ch [] = []
shift_tail ch (c ∷ cs) = cs ++ (ch ∷ [])

-- The log has at least seven bytes.
unfoldable pub shift : ℕ → List ℕ → List ℕ
unfolding shift_tail
shift ch log = take 5 log ++ shift_tail ch (drop 5 log)

-- The bytes that the pipe gives until it is empty.
unfoldable pub read_log : List ℕ → List ℕ → List ℕ
unfolding shift
read_log [] log = log
read_log (ch ∷ chs) log = read_log chs (if ch == 0 then log else shift ch log)

unfoldable pub read_pipe : Option (List ℕ) → List ℕ → Option (List ℕ)
unfolding read_log
read_pipe none bytes = none
read_pipe (some log) bytes = some (read_log bytes log)

-- `for (i =0; i < svnum; i++) if (sv[i].pid) kill(sv[i].pid, SIGTERM);`
unfoldable pub terminate_all : List Entry → Dir → Dir
terminate_all [] g = g
terminate_all (e ∷ es) g = terminate_all es (if e.pid == 0 then g else emit (terminate e.pid) g)

-- `switch(exitsoon)`: the exit status, if the program ends.
unfoldable pub check_exit : ℕ → Main → Option ℕ × Main
unfolding terminate_all
check_exit exitsoon m =
    if exitsoon == 1
    then (some 0, m)
    else if exitsoon == 2
    then (some 111, record m { dir = terminate_all m.dir.sv m.dir })
    else (none, m)

-- A round of the loop.
unfoldable pub round : Fork → Turn → Main → Option ℕ × Main
unfolding collect_all check_warp check_dir mark_log read_pipe check_exit
round fork t m =
    let (now, m₁) = check_warp t (record m { dir = collect_all t.ended m.dir }) in
    let m₂ = mark_log now (check_dir fork t now m₁) in
    check_exit t.exitsoon (record m₂ { rplog = read_pipe m₂.rplog t.written })

-- Rounds up to an end of the program.
abbrev pub go_on : Option ℕ × Main → (Main → Option ℕ × Main) → Option ℕ × Main
go_on (none, m) k = k m
go_on (some n, m) k = (some n, m)

unfoldable pub rounds : Fork → List Turn → Main → Option ℕ × Main
unfolding round
rounds fork [] m = (none, m)
rounds fork (t ∷ ts) m = go_on (round fork t m) (λ m. rounds fork ts m)
