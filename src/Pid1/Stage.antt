-- ===== src/Pid1/Stage.antt =====
-- pid1/runit.c: how a stage begins, and what its end or the early service runner's end leads to.
use runit.Base.{ℕ, ◌+◌, ◌-◌, if◌then◌else◌, ◌==◌, ◌&&◌, ◌||◌, not, ltb}
use runit.Pid1.Defs.{
  stage, early_runner, warn, info, sleep, kill_group, Os, Init, emit, wait_crashed, wait_exitcode,
  start,
}

-- `startearlysvcrunner`
unfoldable pub startearlysvcrunner : Os → Init → Init
unfolding start
startearlysvcrunner os g = let (p, g₁) = start os early_runner g in record g₁ { earlysvcpid = p }

-- The head of the loop over the stages.
unfoldable pub enter : Os → Init → Init
unfolding start startearlysvcrunner
enter os g =
    let (p, g₁) = start os (stage g.curstage) g in
    let g₂ : Init = record g₁ { pid = p } in
    if ltb 0 g.curstage && (not (g.curstage == 3) && (g₂.earlysvcpid == 0))
    then startearlysvcrunner os g₂
    else g₂

-- How a round of the inner loop ends: with `continue`, or with `break`.
pub data Next : Type 0 where
  stay leave : Init → Next

-- The warning for an exit status other than 0.
abbrev pub warn_ended : ℕ → Init → Init
warn_ended w g = emit (warn (if wait_crashed w then "child crashed" else "child failed")) g

-- The block of stage 1, which skips the next one.
abbrev pub skip_next : Init → Next
skip_next g =
    let g₁ = emit (warn "skipping stage 2...") (emit (info "leave stage") g) in
    leave (record g₁ { curstage = g.curstage + 1 })

-- The block of stage 3, which is run again.
abbrev pub run_again : Init → Next
run_again g =
    let g₁ = emit (kill_group g.pid) (emit (warn "killing all processes in stage 3...") g) in
    let g₂ = emit (warn "restarting.") (emit (sleep 5) g₁) in
    leave (record g₂ { curstage = g.curstage - 1 })

-- `child == pid`
unfoldable pub stage_ended : ℕ → Init → Next
stage_ended w g =
    let g₁ = warn_ended w g in
    if wait_exitcode w == 0
    then leave (emit (info "leave stage") g)
    else if (g.curstage == 0) && (wait_crashed w || (wait_exitcode w == 100))
    then skip_next g₁
    else if (g.curstage == 2) && (wait_crashed w || (wait_exitcode w == 111))
    then run_again g₁
    else leave (emit (info "leave stage") g₁)

-- `child == earlysvcpid`, in the stages that have it.
unfoldable pub early_ended : Os → ℕ → Init → Next
unfolding startearlysvcrunner
early_ended os w g =
    let g₁ = if wait_exitcode w == 0 then g else warn_ended w g in
    stay (startearlysvcrunner os (record g₁ { earlysvcpid = 0 }))
