-- ===== src/Sv/Counts.antt =====
-- sv/sv.c: `rc` counts the messages of failure.
use runit.Base.{
  ℕ, zero, suc, ◌+◌, ◌≡◌, ◌≤◌, inl, inr, Bool, true, false, List, [], ◌∷◌, ◌==◌, arith, refl, ◌∙◌,
  Bool-cases, ℤ, pos, negsuc,
}
use runit.Sv.Defs.{
  Line, fail, warn, time_out, kill, Sv, Service, Place, Script, missing, unknown, there, Log, log,
  no_log, log_error,
}
use runit.Sv.Get.{
  Ahead, print, exit, return, svstatus_get, read_status, not_running, status_begins, send,
  control_running, control_got, control, control_acts, is_positive, first,
}
use runit.Sv.Check.{check, check_got}
use runit.Sv.Print.{svstatus_print, status_log, status, is_not_zero, after_begins}

-- The lines that tell of a failure, and those that say that a service was given up.
abbrev pub bad : List Line → ℕ
bad [] = 0
bad (fail m ∷ ls) = suc (bad ls)
bad (warn m ∷ ls) = suc (bad ls)
bad (_ ∷ ls) = bad ls

abbrev pub given_up : List Line → ℕ
given_up [] = 0
given_up (time_out ∷ ls) = suc (given_up ls)
given_up (kill ∷ ls) = suc (given_up ls)
given_up (_ ∷ ls) = given_up ls

-- A function counts what it tells, and gives nothing up.
pub record IsEven (g g' : Sv) : Type 0 where
  pub counts : g'.rc + bad g.lines ≡ g.rc + bad g'.lines
  pub keeps : given_up g'.lines ≡ given_up g.lines

not_running-IsEven : (c : ℕ) (g : Sv) → IsEven g (not_running c g)
not_running-IsEven c g = elim (Bool-cases (c == b'x')) [
  | inl y ↦ rw y (record { counts = refl; keeps = refl })
  | inr n ↦ rw n (record { counts = omega arith; keeps = refl })
]

read-IsEven : (d : Service) (g : Sv) → IsEven g (read_status d g).1
unfolding read_status
read-IsEven d g = record { counts = ground arith; keeps = ground arith }

pub get-IsEven : (d : Service) (c : ℕ) (g : Sv) → IsEven g (svstatus_get d c g).1
unfolding svstatus_get
get-IsEven d c g =
    let r = read-IsEven d g in
    let n = not_running-IsEven c g in
    record { counts = ground (arith, r, n); keeps = ground (arith, r, n) }

pub IsEven-trans : (a b c : Sv) → IsEven a b → IsEven b c → IsEven a c
IsEven-trans a b c h k = record {
  counts = omega (arith, h.counts, k.counts);
  keeps = k.keeps ∙ h.keeps;
}

send-IsEven : (d : Service) (a : List ℕ) (g : Sv) → IsEven g (send d a g).2
unfolding send
send-IsEven d a g = record { counts = ground arith; keeps = ground arith }

running-IsEven : (d : Service) (a : List ℕ) (c : ℕ) (g : Sv) → IsEven g (control_running d a c g).2
unfolding control_running
running-IsEven d a c g =
    let s = send-IsEven d a g in
    let n = not_running-IsEven c g in
    record { counts = ground (arith, s, n); keeps = ground (arith, s, n) }

got-IsEven : (d : Service) (a : List ℕ) (r : ℤ) (g : Sv) → IsEven g (control_got d a r g).2
unfolding control_got
got-IsEven d a r g = elim (Bool-cases (is_positive r)) [
  | inl y ↦ rw y (running-IsEven d a (first a) g)
  | inr n ↦ rw n (record { counts = refl; keeps = refl })
]

pub control_acts-IsEven :
    (d : Service) (c : ℕ) (a : List ℕ) (g : Sv) → IsEven g (control_acts d c a g).2
unfolding control_acts
control_acts-IsEven d c a g =
    let x = svstatus_get d c g in
    IsEven-trans g x.1 (control_acts d c a g).2 (get-IsEven d c g) (got-IsEven d a x.0 x.1)

pub control-IsEven : (d : Service) (a : List ℕ) (g : Sv) → IsEven g (control d a g).2
unfolding control
control-IsEven d a g = control_acts-IsEven d (first a) a g

check_got-IsEven : (d : Service) (a : List ℕ) (r : ℤ) (g : Sv) → IsEven g (check_got d a r g).1
unfolding check_got
check_got-IsEven d a (negsuc n) g = record { counts = refl; keeps = refl }
check_got-IsEven d [] (pos zero) g = record { counts = refl; keeps = refl }
check_got-IsEven d (c ∷ a) (pos zero) g = record { counts = refl; keeps = refl }
check_got-IsEven d a (pos (suc n)) g = record { counts = refl; keeps = refl }

pub check-IsEven : (d : Service) (a : List ℕ) (g : Sv) → IsEven g (check d a g).1
unfolding check
check-IsEven d a g =
    let x = svstatus_get d (first a) g in
    IsEven-trans g x.1 (check d a g).1 (get-IsEven d (first a) g) (check_got-IsEven d a x.0 x.1)

pub print-IsEven : (s : Script) (of_log : Bool) (g : Sv) → IsEven g (svstatus_print s of_log g).1
unfolding svstatus_print
print-IsEven missing of_log g = record { counts = refl; keeps = refl }
print-IsEven unknown of_log g = record { counts = refl; keeps = refl }
print-IsEven there of_log g = record { counts = refl; keeps = refl }

log-IsEven : (l : Log) (g : Sv) → IsEven g (status_log l g)
unfolding status_log
log-IsEven no_log g = record { counts = refl; keeps = refl }
log-IsEven log_error g = record { counts = refl; keeps = refl }
log-IsEven (log d s) g =
    let x = svstatus_get d b's' g in
    let h = get-IsEven d b's' g in
    elim (Bool-cases (is_not_zero x.0)) [
      | inl y ↦ rw y (IsEven-trans g x.1 _ h (print-IsEven s true x.1))
      | inr n ↦ rw n h
    ]

begins-IsEven : (d : Service) (c : ℕ) (g : Sv) → IsEven g (status_begins d c g).1
unfolding status_begins
begins-IsEven d c g = get-IsEven d c g

ahead-IsEven : (a : Ahead) (p : Place) (g : Sv) → IsEven g (after_begins a p g).1
unfolding after_begins
ahead-IsEven return p g = record { counts = refl; keeps = refl }
ahead-IsEven (exit n) p g = record { counts = refl; keeps = refl }
ahead-IsEven print p g =
    IsEven-trans g (svstatus_print p.down false g).1 _ (print-IsEven p.down false g)
      (log-IsEven p.log (svstatus_print p.down false g).1)

pub status-IsEven : (p : Place) (g : Sv) → IsEven g (status p g).1
unfolding status
status-IsEven p g =
    let x = status_begins (p.look 0) b's' g in
    IsEven-trans g x.1 _ (begins-IsEven (p.look 0) b's' g) (ahead-IsEven x.0 p x.1)

-- What is kept up by all of the program.
pub record Counts (g : Sv) : Type 0 where
  pub at_least : bad g.lines ≤ g.rc
  pub at_most : g.rc ≤ bad g.lines + given_up g.lines

pub IsEven-Counts : (g g' : Sv) → IsEven g g' → Counts g → Counts g'
IsEven-Counts g g' e h = record {
  at_least = omega (arith, e.counts, h.at_least);
  at_most = omega (arith, e.counts, e.keeps, h.at_most);
}
