-- ===== src/Pid1/Waits.antt =====
-- pid1/runit.c: the end of a stage 3 that is asked to stop.
use runit.Base.{
  ℕ, zero, suc, ◌+◌, ◌≡◌, ◌≤◌, Bool, true, false, List, [], ◌∷◌, if◌then◌else◌, ◌==◌, arith, refl,
  ◌⊎◌, inl, inr, Bool-cases,
}
use runit.Pid1.Defs.{Effect, sleep, terminate, kill, clear_stopit, Init, emit}
use runit.Pid1.Signals.{Answer, nothing, error, ended, stop_wait, stop_stage}

-- The seconds slept, and how often a process has got SIGTERM or SIGKILL.
abbrev pub slept : List Effect → ℕ
slept [] = 0
slept (sleep n ∷ es) = n + slept es
slept (_ ∷ es) = slept es

abbrev pub terminated : ℕ → List Effect → ℕ
terminated pid [] = 0
terminated pid (terminate p ∷ es) =
    let rest = terminated pid es in if p == pid then suc rest else rest
terminated pid (_ ∷ es) = terminated pid es

abbrev pub killed : ℕ → List Effect → ℕ
killed pid [] = 0
killed pid (kill p ∷ es) = let rest = killed pid es in if p == pid then suc rest else rest
killed pid (_ ∷ es) = killed pid es

-- The answers tell of the end of this process.
abbrev pub Reports : ℕ → List Answer → Type 0
Reports pid [] = ⊥
Reports pid (ended c ∷ rest) = (c ≡ pid) ⊎ Reports pid rest
Reports pid (_ ∷ rest) = Reports pid rest

-- What the answers tell in the first seconds: those before so many of `nothing`, each of which is
-- followed by a second of sleep.
abbrev pub before : ℕ → List Answer → List Answer
before n [] = []
before zero (a ∷ l) = []
before (suc n) (nothing ∷ l) = nothing ∷ before n l
before (suc n) (error ∷ l) = error ∷ before (suc n) l
before (suc n) (ended c ∷ l) = ended c ∷ before (suc n) l

no_time : (pid : ℕ) (l : List Answer) → ¬ Reports pid (before zero l)
no_time pid [] h = h
no_time pid (a ∷ l) h = h

-- What the wait has done: the process was seen to end, or all its rounds have been slept through.
record Waited (pid n : ℕ) (answers : List Answer) (g g' : Init) (seen : Bool) : Type 0 where
  slept_more : slept g'.trace ≤ slept g.trace + n
  no_term : (p : ℕ) → terminated p g'.trace ≡ terminated p g.trace
  no_kill : (p : ℕ) → killed p g'.trace ≡ killed p g.trace
  outcome :
      ((seen ≡ true) × Reports pid (before n answers))
      ⊎ ((seen ≡ false) × ¬ Reports pid (before n answers) × (slept g'.trace ≡ slept g.trace + n))

nobody : (pid n : ℕ) → ¬ Reports pid (before n [])
nobody pid n h = h

wait-Waited :
    (pid n : ℕ) (answers : List Answer) (g : Init)
    → let r = stop_wait pid n answers g in Waited pid n answers g r.1 r.0
unfolding stop_wait
wait-Waited pid zero answers g = record {
  slept_more = omega arith;
  no_term = λ p. refl;
  no_kill = λ p. refl;
  outcome = inr (refl, no_time pid answers, omega arith);
}
wait-Waited pid (suc n) [] g =
    let k = wait-Waited pid n [] (emit (sleep 1) g) in
    record {
      slept_more = omega (arith, k.slept_more);
      no_term = k.no_term;
      no_kill = k.no_kill;
      outcome = elim k.outcome [
        | inl (s, r) ↦ absurd (nobody pid n r)
        | inr (s, r, e) ↦ inr (s, (λ h. h), ground (arith, e))
      ];
    }
wait-Waited pid (suc n) (nothing ∷ rest) g =
    let k = wait-Waited pid n rest (emit (sleep 1) g) in
    record {
      slept_more = omega (arith, k.slept_more);
      no_term = k.no_term;
      no_kill = k.no_kill;
      outcome = elim k.outcome [ inl o ↦ inl o | inr (s, r, e) ↦ inr (s, r, ground (arith, e)) ];
    }
wait-Waited pid (suc n) (error ∷ rest) g =
    let k = wait-Waited pid (suc n) rest g in
    record {
      slept_more = k.slept_more;
      no_term = k.no_term;
      no_kill = k.no_kill;
      outcome = k.outcome;
    }
wait-Waited pid (suc n) (ended c ∷ rest) g = elim (Bool-cases (c == pid)) [
  | inl y ↦ rw y (record {
    slept_more = omega arith;
    no_term = λ p. refl;
    no_kill = λ p. refl;
    outcome = inl (refl, inl (ground arith));
  })
  | inr y ↦
      let k = wait-Waited pid (suc n) rest g in
      rw y (record {
        slept_more = k.slept_more;
        no_term = k.no_term;
        no_kill = k.no_kill;
        outcome = elim k.outcome [
          | inl (s, r) ↦ inl (s, inr r)
          | inr (s, r, e) ↦ inr (s, (λ h. elim h [ inl q ↦ ground (arith, q) | inr q ↦ r q ]), e)
        ];
      })
]

-- The third stage's process, which is asked to stop, gets SIGTERM once, and at most five seconds are
-- slept. If its end is reported before five answers of `wait_nohang` that nothing has ended, it gets
-- no SIGKILL and its number is dropped; otherwise five seconds are slept and it gets SIGKILL once.
pub stop_stage_bounds :
    (answers : List Answer) (g : Init)
    → (terminated g.pid (stop_stage answers g).trace ≡ suc (terminated g.pid g.trace))
      × (slept (stop_stage answers g).trace ≤ slept g.trace + 5)
      × ((Reports g.pid (before 5 answers)
            × ((stop_stage answers g).pid ≡ 0)
            × (killed g.pid (stop_stage answers g).trace ≡ killed g.pid g.trace))
          ⊎ (¬ Reports g.pid (before 5 answers)
              × (slept (stop_stage answers g).trace ≡ slept g.trace + 5)
              × (killed g.pid (stop_stage answers g).trace ≡ suc (killed g.pid g.trace))))
unfolding stop_stage
stop_stage_bounds answers g =
    let g₁ = emit (terminate g.pid) (emit clear_stopit g) in
    let k = wait-Waited g.pid 5 answers g₁ in
    let self : (g.pid == g.pid) ≡ true = ground arith in
    let t : terminated g.pid g₁.trace ≡ suc (terminated g.pid g.trace) = rw self refl in
    let kt = k.no_term g.pid in
    let kk = k.no_kill g.pid in
    elim k.outcome [
      | inl (s, r) ↦ (
        ground (arith, s, kt, t),
        ground (arith, s, k.slept_more),
        inl (r, ground (arith, s), ground (arith, s, kk)),
      )
      | inr (s, n, e) ↦ (
        ground (arith, s, kt, t),
        ground (arith, s, k.slept_more),
        inr (n, ground (arith, s, e), ground (arith, s, kk, self)),
      )
    ]
