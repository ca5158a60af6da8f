-- ===== src/Sv/Agrees.antt =====
-- sv/sv.c and runsv/runsv.c: the status bytes, written by the one and read by the other.
use runit.Base.{
  ℕ, ◌≡◌, ◌≢◌, ◌<◌, ◌^◌, ◌↔◌, true, List, [], ◌∷◌, some, if◌then◌else◌, length, ℤ, pos, arith, refl,
  ◌++◌, drop, ap, ◌⊎◌, ◌∙◌, sym,
}
use runit.Time.Tai.{Tai, tai_unpack, tai_unpack-tai_pack}
use runit.Runsv.Defs.{State, Svdir, state_code}
use runit.Runsv.Status.{status_bytes, flag, want_byte}
use runit.Sv.Defs.{Sv, Service, opened, at, status_pid}
use runit.Sv.Get.{
  Answers, with_status, svstatus_get-Answers, control, control_running, send, control_acts,
  control_got,
}
use runit.Sv.Check.{checkscript, status_time, check_char, check, time_of, check_all, check_got}

-- What `sv` makes of its record, field by field.
pub record Shows (s : Svdir) (g : Sv) : Type 0 where
  pub pid : status_pid g ≡ s.pid
  pub time : status_time g ≡ s.start.sec
  pub pause : at g 16 ≡ flag s.ctrl.pause
  pub want : at g 17 ≡ want_byte s.want
  pub term : at g 18 ≡ flag s.ctrl.term
  pub state : at g 19 ≡ state_code s.state

time_shown :
    (s : Svdir) (rest : List ℕ)
    → s.start.sec < 2 ^ 64
    → time_of (tai_unpack (status_bytes s ++ rest)) ≡ s.start.sec
unfolding status_bytes
time_shown s rest h =
    let t : Tai = record { x = s.start.sec } in
    ap time_of (tai_unpack-tai_pack t (drop 8 (status_bytes s) ++ rest) h)

pid_shown :
    (s : Svdir) (g : Sv) (rest : List ℕ)
    → s.pid < 2 ^ 32
    → g.svstatus ≡ status_bytes s ++ rest
    → status_pid g ≡ s.pid
unfolding status_bytes status_pid
pid_shown s g rest h e = rw e (ground arith)

shown :
    (s : Svdir) (g : Sv) (rest : List ℕ)
    → s.pid < 2 ^ 32
    → s.start.sec < 2 ^ 64
    → g.svstatus ≡ status_bytes s ++ rest
    → Shows s g
unfolding status_bytes status_time
shown s g rest hp ht e = record {
  pid = pid_shown s g rest hp e;
  time = rw e (time_shown s rest ht);
  pause = rw e;
  want = rw e;
  term = rw e;
  state = rw e;
}

-- `runsv` writes twenty bytes, and after `sv` has read them it holds the service's process number,
-- start second, pause and terminate bits, wanted state and state, for numbers that fit 32 and 64 bits.
pub status_bytes-Shows :
    (s : Svdir) (g : Sv)
    → s.pid < 2 ^ 32
    → s.start.sec < 2 ^ 64
    → (length (status_bytes s) ≡ 20) × Shows s (with_status g (status_bytes s))
unfolding status_bytes
status_bytes-Shows s g hp ht =
    (refl, shown s (with_status g (status_bytes s)) (drop 20 g.svstatus) hp ht refl)

one_char :
    (d : Service) (c : ℕ) (g : Sv)
    → (check_got d (c ∷ []) (pos 1) g).0
      ≡ (if check_char d c (record g { r = pos 1 }) then pos 1 else pos 0)
unfolding check_got check_all
one_char d c g = ground arith

-- One command is looked at after the status was read.
check_one :
    (d : Service) (bytes : List ℕ) (c : ℕ) (g : Sv)
    → Answers d bytes
    → (check d (c ∷ []) g).0
      ≡ (if check_char d c (record (with_status g bytes) { r = pos 1 }) then pos 1 else pos 0)
unfolding check
check_one d bytes c g h =
    ap (λ (p : ℤ × Sv). (check_got d (c ∷ []) p.0 p.1).0) (svstatus_get-Answers d bytes c g h)
    ∙ one_char d c (with_status g bytes)

-- `sv` waits for `u` until the service has a process, runs `./run` and its check script agrees, and
-- for `d` until it has no process and is in S_DOWN, as `runsv` has written it.
pub check_up_down_iff :
    (d : Service) (s : Svdir) (g : Sv)
    → Answers d (status_bytes s)
    → s.pid < 2 ^ 32
    → s.start.sec < 2 ^ 64
    → (((check d (b'u' ∷ []) g).0 ≡ pos 1)
        ↔ ((0 < s.pid) × (s.state ≡ State.run) × (checkscript d ≡ true)))
      × (((check d (b'd' ∷ []) g).0 ≡ pos 1) ↔ ((s.pid ≡ 0) × (s.state ≡ State.down)))
unfolding check_char
check_up_down_iff d s g h hp ht =
    let g' : Sv = record (with_status g (status_bytes s)) { r = pos 1 } in
    let v = shown s g' (drop 20 g.svstatus) hp ht refl in
    let u = check_one d (status_bytes s) b'u' g h in
    let e = check_one d (status_bytes s) b'd' g h in
    (
      (λ k. ground (arith, u, v), λ k. ground (arith, u, v)),
      (λ k. ground (arith, e, v), λ k. ground (arith, e, v)),
    )

send_one :
    (d : Service) (s : Svdir) (c : ℕ) (g : Sv)
    → d.control_pipe ≡ opened
    → d.control_takes ≡ some 1
    → Shows s g
    → ((control_running d (c ∷ []) c g).1 ≡ [])
      ↔ ((want_byte s.want ≡ c) × ((c ≢ b'd') ⊎ (s.ctrl.term ≡ true)))
unfolding control_running send
send_one d s c g o t v = (λ k. ground (arith, v), λ k. ground (arith, v))

-- `sv` sends nothing for a command of one character to a live supervisor exactly when the status says
-- that it is wanted already, and for `d` also that the service has got TERM.
pub control_silent_iff :
    (d : Service) (s : Svdir) (c : ℕ) (g : Sv)
    → Answers d (status_bytes s)
    → d.control_pipe ≡ opened
    → d.control_takes ≡ some 1
    → s.pid < 2 ^ 32
    → s.start.sec < 2 ^ 64
    → ((control d (c ∷ []) g).1 ≡ [])
      ↔ ((want_byte s.want ≡ c) × ((c ≢ b'd') ⊎ (s.ctrl.term ≡ true)))
unfolding control control_acts control_got
control_silent_iff d s c g h o t hp ht =
    let g' = with_status g (status_bytes s) in
    let v = shown s g' (drop 20 g.svstatus) hp ht refl in
    let (there, back) = send_one d s c g' o t v in
    let e =
      ap (λ (p : ℤ × Sv). (control_got d (c ∷ []) p.0 p.1).1)
        (svstatus_get-Answers d (status_bytes s) c g h) in
    (λ k. there (sym e ∙ k), λ k. e ∙ back k)
