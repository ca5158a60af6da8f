-- ===== src/Sv/Lsb.antt =====
-- sv/sv.c: what `status` prints and returns for a service that `runsv` looks after.
use runit.Base.{
  ℕ, ◌-◌, ◌≡◌, ◌<◌, ◌^◌, Bool, true, false, List, ◌∷◌, Option, none, some, if◌then◌else◌, ◌==◌,
  ◌&&◌, not, ltb, arith, refl, ◌∙◌, ap,
}
use runit.Runsv.Defs.{State, Svdir, Want, state_code}
use runit.Runsv.Status.{status_bytes, flag, want_byte}
use runit.Sv.Defs.{
  Word, offline_want_up, online_want_down, run, down, Report, report, Line, Sv, Script, missing,
  unknown, there, Service, Place, no_log,
}
use runit.Sv.Get.{Answers, with_status, svstatus_get-Answers, status_begins, print, Ahead}
use runit.Sv.Agrees.{Shows, status_bytes-Shows}
use runit.Sv.Print.{
  word_of, printed_pid, report_by, report_of, svstatus_print, status_log, after_begins, status,
  status_exit,
}

-- The word for a service: online while its `run` stands or its work is done, and with a star where it
-- is wanted otherwise or its `finish` runs; there is none while the service is starting.
abbrev pub word_for : State → Want → Option Word
word_for State.down Want.up = some offline_want_up
word_for State.down _ = some down
word_for State.run Want.up = some run
word_for State.run _ = some online_want_down
word_for State.finish _ = some online_want_down
word_for State.done _ = some run
word_for State.starting _ = none

word_lem : (s : State) (w : Want) → word_of (state_code s) (want_byte w) ≡ word_for s w
unfolding word_of
word_lem State.down Want.up = refl
word_lem State.down Want.down = refl
word_lem State.down Want.exit = refl
word_lem State.down Want.done = refl
word_lem State.run Want.up = refl
word_lem State.run Want.down = refl
word_lem State.run Want.exit = refl
word_lem State.run Want.done = refl
word_lem State.finish w = refl
word_lem State.done w = refl
word_lem State.starting w = refl

abbrev is_down : State → Bool
is_down State.down = true
is_down _ = false

-- The line of a service.
abbrev pub report_for : Svdir → ℕ → Report
report_for s now = record {
  word = word_for s.state s.want;
  seconds = now - s.start.sec;
  of_log = false;
  pid = if is_down s.state then none else some (printed_pid s.pid);
  paused = not (s.pid == 0) && s.ctrl.pause;
  got_term = not (s.pid == 0) && s.ctrl.term;
}

flag_lem : (b : Bool) → not (flag b == 0) ≡ b
flag_lem true = refl
flag_lem false = refl

down_lem : (s : State) → (state_code s == 0) ≡ is_down s
down_lem s = ground arith

minus : (a b : ℕ) → (if ltb a b then 0 else a - b) ≡ a - b
minus a b = ground arith

report_lem :
    (s : Svdir) (now : ℕ)
    → report_by s.pid
        (flag s.ctrl.pause)
        (want_byte s.want)
        (flag s.ctrl.term)
        (state_code s.state)
        s.start.sec
        now
        false
      ≡ report_for s now
unfolding report_by
report_lem s now =
    rw
      (
        word_lem s.state s.want,
        flag_lem s.ctrl.pause,
        flag_lem s.ctrl.term,
        down_lem s.state,
        minus now s.start.sec,
      )
      refl

reported : (s : Svdir) (g : Sv) → Shows s g → report_of false g ≡ report_for s g.tnow
unfolding report_of
reported s g h = rw (h.pid, h.pause, h.want, h.term, h.state, h.time) (report_lem s g.tnow)

abbrev is_unknown : Script → Bool
is_unknown unknown = true
is_unknown _ = false

-- The report's line, or none.
abbrev printed_lines : Script → Report → List Line → List Line
printed_lines unknown r ls = ls
printed_lines _ r ls = report r ∷ ls

printed_lem :
    (d : Script) (s : Svdir) (g : Sv)
    → Shows s g
    → ((svstatus_print d false g).0 ≡ (if is_unknown d then 0 else if s.pid == 0 then 2 else 1))
      × ((svstatus_print d false g).1.lines ≡ printed_lines d (report_for s g.tnow) g.lines)
unfolding svstatus_print
printed_lem unknown s g h = (refl, refl)
printed_lem missing s g h = (rw h.pid refl, ap (λ r. report r ∷ g.lines) (reported s g h))
printed_lem there s g h = (rw h.pid refl, ap (λ r. report r ∷ g.lines) (reported s g h))

begins :
    (d : Service) (bytes : List ℕ) (g : Sv)
    → Answers d bytes
    → status_begins d b's' g ≡ (print, with_status g bytes)
unfolding status_begins
begins d bytes g h = rw (svstatus_get-Answers d bytes b's' g h) refl

exit_lem :
    (d : Script) (n : ℕ)
    → status_exit true (if is_unknown d then 0 else if n == 0 then 2 else 1)
      ≡ some (if is_unknown d then 4 else if n == 0 then 3 else 0)
exit_lem d n = ground arith

-- In LSB mode, for numbers that fit 32 and 64 bits, the status of a service whose supervisor writes its
-- status file is the exit status 0 with a process, 3 without one, and 4 where the file `down` cannot be looked for. Where it can, and
-- there is no log service, `status` prints one line, which has the word for the state and the wanted
-- state, the seconds since the last change, the process number, and the marks of a pause and of a
-- sent TERM; where it cannot, none.
pub lsb_status :
    (p : Place) (s : Svdir) (g : Sv)
    → Answers (p.look 0) (status_bytes s)
    → g.lsb ≡ true
    → s.pid < 2 ^ 32
    → s.start.sec < 2 ^ 64
    → ((status p g).0 ≡ some (if is_unknown p.down then 4 else if s.pid == 0 then 3 else 0))
      × ((status (record p { log = no_log }) g).1.lines
          ≡ printed_lines p.down (report_for s g.tnow) g.lines)
unfolding status after_begins status_log
lsb_status p s g h l hp ht =
    let g₁ = with_status g (status_bytes s) in
    let k = printed_lem p.down s g₁ ((status_bytes-Shows s g hp ht).1) in
    let begun = begins (p.look 0) (status_bytes s) g h in
    (
      ap (λ (x : Ahead × Sv). (after_begins x.0 p x.1).0) begun
          ∙ ap (λ b. status_exit b (svstatus_print p.down false g₁).0) l
          ∙ ap (status_exit true) k.0
          ∙ exit_lem p.down s.pid,
      ap (λ (x : Ahead × Sv). (after_begins x.0 (record p { log = no_log }) x.1).1.lines) begun
          ∙ k.1,
    )
