-- ===== src/Sv/Print.antt =====
-- sv/sv.c: `svstatus_print` and `status`.
use runit.Base.{
  ◌∷◌, ℕ, ◌+◌, ◌-◌, ◌^◌, Bool, true, false, Option, none, some, if◌then◌else◌, ◌==◌, ◌&&◌, ◌||◌,
  not, ltb, ℤ, pos, zero,
}
use runit.Sv.Defs.{
  Word, offline_want_up, online_want_down, run, down, Report, report, log_unknown, Sv, Script,
  unknown, missing, there, Log, no_log, log_error, log, Place, at, status_pid, say,
}
use runit.Sv.Get.{svstatus_get, Ahead, print, exit, return, status_begins}
use runit.Sv.Check.{status_time}

-- The first word; there is none for a state above 3.
unfoldable pub word_of : ℕ → ℕ → Option Word
word_of state want =
    if (state == 0) && (want == b'u')
    then some offline_want_up
    else if ((state == 1) && (want == b'd')) || (state == 2)
    then some online_want_down
    else if (state == 1) || (state == 3)
    then some run
    else if state == 0
    then some down
    else none

-- `fmt_ulong(sulong, pid)`, where `pid` is an `int`.
unfoldable pub printed_pid : ℕ → ℕ
printed_pid p = if ltb p (2 ^ 31) then p else p + (2 ^ 64 - 2 ^ 32)

-- The line for a process number, `svstatus[16]` to `svstatus[19]`, and the time in the status.
unfoldable pub report_by : ℕ → ℕ → ℕ → ℕ → ℕ → ℕ → ℕ → Bool → Report
unfolding word_of printed_pid
report_by pid pause want term state time now of_log = record {
  word = word_of state want;
  seconds = if ltb now time then 0 else now - time;
  of_log = of_log;
  pid = if state == 0 then none else some (printed_pid pid);
  paused = not (pid == 0) && not (pause == 0);
  got_term = not (pid == 0) && not (term == 0);
}

unfoldable pub report_of : Bool → Sv → Report
unfolding report_by
report_of of_log g =
    report_by (status_pid g) (at g 16) (at g 17) (at g 18) (at g 19) (status_time g) g.tnow of_log

-- 1 with a process, 2 without, and 0 with no line where `stat` of `down` fails otherwise than by ENOENT;
-- that message goes to the standard error, and does not count in `rc`.
unfoldable pub svstatus_print : Script → Bool → Sv → ℕ × Sv
unfolding report_of
svstatus_print unknown of_log g =
    (0, record g { errors = "warning: unable to stat down" ∷ g.errors })
svstatus_print missing of_log g =
    (if status_pid g == 0 then 2 else 1, say (report (report_of of_log g)) g)
svstatus_print there of_log g =
    (if status_pid g == 0 then 2 else 1, say (report (report_of of_log g)) g)

-- `else if (svstatus_get())`
abbrev pub is_not_zero : ℤ → Bool
is_not_zero (pos zero) = false
is_not_zero _ = true

-- The part on the service `log`.
unfoldable pub status_log : Log → Sv → Sv
unfolding svstatus_get svstatus_print
status_log no_log g = g
status_log log_error g = say log_unknown g
status_log (log d s) g =
    let (res, g₁) = svstatus_get d b's' g in
    if is_not_zero res then (svstatus_print s true g₁).1 else g₁

-- `if (lsb) switch(rc)`
abbrev pub status_exit : Bool → ℕ → Option ℕ
status_exit lsb rc =
    if lsb
    then if rc == 1 then some 0 else if rc == 2 then some 3 else if rc == 0 then some 4 else none
    else none

-- `status`, from `svstatus_print` on.
unfoldable pub after_begins : Ahead → Place → Sv → Option ℕ × Sv
unfolding svstatus_print status_log
after_begins return p g = (none, g)
after_begins (exit n) p g = (some n, g)
after_begins print p g =
    let (rc, g₁) = svstatus_print p.down false g in (status_exit g.lsb rc, status_log p.log g₁)

-- `status`: the code that the program ends with, if it does. It never returns -1.
unfoldable pub status : Place → Sv → Option ℕ × Sv
unfolding status_begins after_begins
status p g = let (ahead, g₁) = status_begins (p.look 0) b's' g in after_begins ahead p g₁
