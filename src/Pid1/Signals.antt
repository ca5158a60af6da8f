-- ===== src/Pid1/Signals.antt =====
-- pid1/runit.c: the signals CONT and INT, and the end of stage 3 on request.
use runit.Base.{
  ℕ, zero, suc, ◌+◌, Bool, true, false, List, [], ◌∷◌, if◌then◌else◌, ◌==◌, ◌&&◌, not, ltb,
}
use runit.Pid1.Defs.{
  Program, File, warn, info, sleep, terminate, kill, clear_stopit, Os, Init, emit, wait_crashed,
  start,
}
use runit.Pid1.Stage.{Next, stay, leave}

-- `wait_nohang` while stage 3 is to end: nothing, an error, or a child.
pub data Answer : Type 0 where
  nothing error : Answer
  ended : ℕ → Answer

-- `while (i < 5)`, by the rounds that are left: whether the stage's process was seen to end. Behind
-- the list nothing more ends. The test `if (child) continue;` holds for -1 too, so that an error is
-- passed over.
unfoldable pub stop_wait : ℕ → ℕ → List Answer → Init → Bool × Init
stop_wait pid zero answers g = (false, g)
stop_wait pid (suc n) [] g = stop_wait pid n [] (emit (sleep 1) g)
stop_wait pid (suc n) (nothing ∷ rest) g = stop_wait pid n rest (emit (sleep 1) g)
stop_wait pid (suc n) (error ∷ rest) g = stop_wait pid (suc n) rest g
stop_wait pid (suc n) (ended c ∷ rest) g =
    let later = stop_wait pid (suc n) rest g in if c == pid then (true, g) else later

-- The block under the test of STOPIT.
unfoldable pub stop_stage : List Answer → Init → Init
unfolding stop_wait
stop_stage answers g =
    let g₁ = emit (terminate g.pid) (emit clear_stopit g) in
    let (seen, g₂) = stop_wait g.pid 5 answers g₁ in
    let g₃ : Init =
      if seen
      then record g₂ { pid = 0 }
      else emit (kill g.pid) (emit (warn "stage 3 not terminated, sending sigkill...") g₂) in
    emit (info "leave stage") (record g₃ { sigc = 0 })

-- The block of the ctrl-alt-del request.
unfoldable pub ctrl_alt_del : Os → Init → Init
unfolding start
ctrl_alt_del os g =
    let (p, g₁) = start os Program.ctrlaltdel (emit (info "ctrl-alt-del request...") g) in
    let g₂ =
      if wait_crashed (os.wait_status g₁.calls)
      then emit (warn "child crashed") g₁
      else record g₁ { calls = g₁.calls + 1 } in
    let g₃ = emit (info "leave stage") g₂ in record g₃ { sigi = 0; sigc = g₃.sigc + 1 }

abbrev pub no_signals : Init → Init
no_signals g = record g { sigc = 0; sigi = 0 }

-- The test for ctrl-alt-del, in stage 3.
unfoldable pub obey_int : Os → Init → Init
unfolding ctrl_alt_del
obey_int os g =
    if ltb 0 g.sigi && os.executable File.ctrlaltdel g.calls then ctrl_alt_del os g else g

-- The test for the request to stop.
unfoldable pub obey_cont : Os → List Answer → Init → Next
unfolding stop_stage
obey_cont os answers g =
    if ltb 0 g.sigc && os.executable File.stopit g.calls
    then leave (stop_stage answers g)
    else stay (no_signals g)

-- From `if (!sigc && !sigi)` on.
unfoldable pub on_signals : Os → List Answer → Init → Next
unfolding obey_int obey_cont
on_signals os answers g =
    if (g.sigc == 0) && (g.sigi == 0)
    then stay g
    else if not (g.curstage == 2)
    then stay (no_signals (emit (warn "signals only work in stage 3.") g))
    else obey_cont os answers (obey_int os g)
