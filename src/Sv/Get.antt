-- ===== src/Sv/Get.antt =====
-- sv/sv.c: `svstatus_get`, `status` and `control`.
use runit.Base.{
  ℕ, ◌≡◌, Bool, true, false, List, [], ◌∷◌, none, some, if◌then◌else◌, ◌==◌, ◌&&◌, ◌||◌, not,
  length, ℤ, pos, negsuc, arith, drop, ◌++◌, ltb, take, zero,
}
use runit.Sv.Defs.{
  Sv, ok, opened, no_device, failed, error, got, Service, at, say, fail_with, warn_with,
}

-- `*acts == 'x' ? ok(…) : failx(…)`
abbrev pub not_running : ℕ → Sv → Sv
not_running c g =
    if c == b'x' then say (ok "runsv not running") g else fail_with "runsv not running" g

-- `r = read(fd, svstatus, 20)`: what is read replaces the first bytes of `svstatus`.
unfoldable pub read_status : Service → Sv → ℤ × Sv
read_status d g = elim d.status_read [
  | error ↦ (negsuc 0, warn_with "unable to read supervise/status" (record g { r = negsuc 0 }))
  | got bytes ↦
      let g₁ = record g {
        r = pos (length bytes);
        svstatus = bytes ++ drop (length bytes) g.svstatus;
      } in
      if length bytes == 20
      then (pos 1, g₁)
      else (negsuc 0, warn_with "unable to read supervise/status: bad format" g₁)
]

-- The result is 1, 0 or -1; `c` is the first character of `acts`.
unfoldable pub svstatus_get : Service → ℕ → Sv → ℤ × Sv
unfolding read_status
svstatus_get d c g = elim d.ok_pipe [
  | no_device ↦ (pos 0, not_running c g)
  | failed ↦ (negsuc 0, warn_with "unable to open supervise/ok" g)
  | opened ↦
      if d.status_opens
      then read_status d g
      else (negsuc 0, warn_with "unable to open supervise/status" g)
]

-- The first part of `status`: whether it goes on to print, ends the program, or returns 0.
pub data Ahead : Type 0 where
  print : Ahead
  exit : ℕ → Ahead
  return : Ahead

-- The test is of the global `r`, not of what `svstatus_get` returned.
unfoldable pub status_begins : Service → ℕ → Sv → Ahead × Sv
unfolding svstatus_get
status_begins d c g =
    let g₁ = (svstatus_get d c g).1 in
    (
      elim g₁.r [ negsuc zero ↦ if g₁.lsb then exit 4 else return | pos zero ↦ return | _ ↦ print ],
      g₁,
    )

-- `write` to supervise/control, with what `r` becomes.
unfoldable pub send : Service → List ℕ → Sv → ℤ × List ℕ × Sv
send d a g = elim d.control_takes [
  | none ↦
      (negsuc 0, [], warn_with "unable to write to supervise/control" (record g { r = negsuc 0 }))
  | some n ↦
      let g₁ = record g { r = pos n } in
      if n == length a
      then (pos 1, a, g₁)
      else (negsuc 0, take n a, warn_with "unable to write to supervise/control" g₁)
]

-- The part of `control` after a status was read.
unfoldable pub control_running : Service → List ℕ → ℕ → Sv → ℤ × List ℕ × Sv
unfolding send
control_running d a c g =
    if (at g 17 == c) && (not (c == b'd') || (at g 18 == 1))
    then (pos 0, [], g)
    else elim d.control_pipe [
      | failed ↦ (negsuc 0, [], warn_with "unable to open supervise/control" g)
      | no_device ↦ (negsuc 0, [], not_running c g)
      | opened ↦ send d a g
    ]

abbrev pub is_positive : ℤ → Bool
is_positive (pos n) = ltb 0 n
is_positive (negsuc n) = false

-- `*a`, where `a` is the text of a string.
abbrev pub first : List ℕ → ℕ
first [] = 0
first (c ∷ _) = c

-- `control`, from what `svstatus_get` has returned on.
unfoldable pub control_got : Service → List ℕ → ℤ → Sv → ℤ × List ℕ × Sv
unfolding control_running
control_got d a res g =
    if is_positive res then control_running d a (first a) g else (negsuc 0, [], g)

-- The result of `control`, and the bytes that go into supervise/control; `c` is the first character
-- of the global `acts`, which `svstatus_get` looks at, and `a` the argument.
unfoldable pub control_acts : Service → ℕ → List ℕ → Sv → ℤ × List ℕ × Sv
unfolding svstatus_get control_got
control_acts d c a g = let (res, g₁) = svstatus_get d c g in control_got d a res g₁

-- The call `act(acts)`, where they are the same.
unfoldable pub control : Service → List ℕ → Sv → ℤ × List ℕ × Sv
unfolding control_acts
control d a g = control_acts d (first a) a g

-- What a status of twenty bytes behind a live pipe reads as.
pub record Answers (d : Service) (bytes : List ℕ) : Type 0 where
  pub alive : d.ok_pipe ≡ opened
  pub opens : d.status_opens ≡ true
  pub reads : d.status_read ≡ got bytes
  pub whole : length bytes ≡ 20

-- The program's record after such a status was read.
abbrev pub with_status : Sv → List ℕ → Sv
with_status g bytes = record g { r = pos 20; svstatus = bytes ++ drop 20 g.svstatus }

pub svstatus_get-Answers :
    (d : Service) (bytes : List ℕ) (c : ℕ) (g : Sv)
    → Answers d bytes
    → svstatus_get d c g ≡ (pos 1, with_status g bytes)
unfolding svstatus_get
svstatus_get-Answers d bytes c g h = ground (arith, h)

-- A service whose supervisor does not run is reported again with the status that was read last: after
-- a good read for an earlier service, `status` goes on to print for one that it could not read.
pub status_stale :
    (d : Service) (c : ℕ) (g : Sv)
    → g.r ≡ pos 20
    → d.ok_pipe ≡ no_device
    → ((status_begins d c g).0 ≡ print) × ((status_begins d c g).1.svstatus ≡ g.svstatus)
unfolding status_begins
status_stale d c g r e = ground arith
