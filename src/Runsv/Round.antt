-- ===== src/Runsv/Round.antt =====
-- runsv/runsv.c: one round of the endless loop in `main`, and runs of it.
use runit.Base.{ℕ, Bool, false, List, [], ◌∷◌, Option, none, some, ◌&&◌, ◌||◌, if◌then◌else◌, ◌==◌}
use runit.Runsv.Defs.{Want, Os, emit, close_logpipe}
use runit.Runsv.Status.{update_status}
use runit.Runsv.Service.{is_exit}
use runit.Runsv.Control.{ctrl, is_down, is_done}
use runit.Runsv.Loop.{Runsv, start_log, start_main, reap}

-- What comes in a round: whether a terminate or interrupt signal ran `s_term` in the pause, the
-- children and statuses of `wait_nohang`, and a character from each control pipe.
pub record Input : Type 0 where
  pub signalled : Bool
  pub children : List (ℕ × ℕ)
  pub main_char : Option ℕ
  pub log_char : Option ℕ

pub data Outcome : Type 0 where
  running : Runsv → Outcome
  exited : Runsv → Outcome

module _ (os : Os) where
  unfoldable pub reap_all : List (ℕ × ℕ) → Runsv → Runsv
  unfolding reap
  reap_all [] r = r
  reap_all ((child, wstat) ∷ rest) r = reap_all rest (reap os child wstat r)

  unfoldable pub ctrl_main : ℕ → Runsv → Runsv
  ctrl_main c r = let (s, g) = ctrl os r.main c r.proc in record r { main = s; proc = g }

  unfoldable pub ctrl_log : ℕ → Runsv → Runsv
  ctrl_log c r = let (s, g) = ctrl os r.log c r.proc in record r { log = s; proc = g }

  -- `if (read(…) == 1) ctrl(…)`, twice.
  unfoldable pub read_main : Option ℕ → Runsv → Runsv
  unfolding ctrl_main
  read_main none r = r
  read_main (some c) r = ctrl_main c r

  unfoldable pub read_log : Option ℕ → Runsv → Runsv
  unfolding ctrl_log
  read_log none r = r
  read_log (some c) r = if r.proc.haslog then ctrl_log c r else r

  -- `if (sigterm) …`
  unfoldable pub obey_term : Runsv → Runsv
  unfolding ctrl_main
  obey_term r = if r.sigterm then record (ctrl_main b'x' r) { sigterm = false } else r

  -- The test at the end of the loop.
  unfoldable pub try_exit : Runsv → Outcome
  try_exit r =
      if is_exit r.main.want && (is_down r.main.state || is_done r.main.state)
      then if r.log.pid == 0
        then exited r
        else if is_exit r.log.want
        then running r
        else (let s = record r.log { want = Want.exit } in
            running (record r {
              log = s;
              proc = emit close_logpipe (emit close_logpipe (update_status os s r.proc));
            }))
      else running r

  -- A round up to the test at its end.
  unfoldable pub round_body : Input → Runsv → Runsv
  unfolding start_log start_main reap_all read_main read_log obey_term
  round_body i r =
      let r₁ = start_main os (start_log os r) in
      let r₂ : Runsv = record r₁ { sigterm = r₁.sigterm || i.signalled } in
      obey_term (read_log i.log_char (read_main i.main_char (reap_all i.children r₂)))

  unfoldable pub round : Input → Runsv → Outcome
  unfolding round_body try_exit
  round i r = try_exit (round_body i r)

  -- Rounds until the process exits.
  unfoldable pub rounds : List Input → Runsv → Outcome
  unfolding round
  rounds [] r = running r
  rounds (i ∷ rest) r = elim (round i r) [ running r' ↦ rounds rest r' | exited r' ↦ exited r' ]
