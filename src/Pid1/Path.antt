-- ===== src/Pid1/Path.antt =====
-- pid1/runit.c: the stages, in the order in which they are entered.
use mathlib.Core.Path.{subst}
use runit.Base.{
  ℕ, zero, suc, ◌+◌, ◌≡◌, ◌<◌, List, [], ◌∷◌, ◌==◌, ◌&&◌, not, ltb, arith, refl, ◌⊎◌, inl, inr, ◌∙◌,
  sym, ap, Bool-cases,
}
use runit.Pid1.Defs.{stage, Effect, spawn, warn, sleep, Os, IsOs, Init, emit, fork_retries, start}
use runit.Pid1.Stage.{startearlysvcrunner, enter, Next, stay, leave}
use runit.Pid1.Signals.{Answer, nothing, error, ended, stop_wait}
use runit.Pid1.Machine.{Phase, running, finished}

-- The stages entered, the last one first.
abbrev pub entered : List Effect → List ℕ
entered [] = []
entered (spawn p (stage n) ∷ es) = n ∷ entered es
entered (_ ∷ es) = entered es

-- From one stage to the next: forward by one, over the second, or the third again.
pub data Move (s t : ℕ) : Type 0 where
  forward : t ≡ s + 1 → Move s t
  skip : s ≡ 0 → t ≡ 2 → Move s t
  again : s ≡ 2 → t ≡ 2 → Move s t

abbrev pub IsPath : List ℕ → Type 0
IsPath [] = Unit
IsPath (s ∷ []) = s ≡ 0
IsPath (t ∷ s ∷ rest) = Move s t × IsPath (s ∷ rest)

-- The current stage is the last one entered, the stages were entered along the moves, and from the
-- second stage on there is an early service runner.
pub record IsOnPath (g : Init) : Type 0 where
  pub below : g.curstage < 4
  pub before : List ℕ
  pub current : entered g.trace ≡ g.curstage ∷ before
  pub path : IsPath (g.curstage ∷ before)
  pub has_early : (g.curstage ≡ 0) ⊎ (0 < g.earlysvcpid)

-- What a round does not touch.
pub record Same (g g' : Init) : Type 0 where
  pub stage_kept : g'.curstage ≡ g.curstage
  pub early_kept : g'.earlysvcpid ≡ g.earlysvcpid
  pub entered_kept : entered g'.trace ≡ entered g.trace

pub Same-refl : (g : Init) → Same g g
Same-refl g = record { stage_kept = refl; early_kept = refl; entered_kept = refl }

Same-trans : (g g' g'' : Init) → Same g g' → Same g' g'' → Same g g''
Same-trans g g' g'' h k = ground (arith, h, k)

pub retries-Same : (n : ℕ) (g : Init) → Same g (fork_retries n g)
unfolding fork_retries
retries-Same zero g = Same-refl g
retries-Same (suc n) g =
    let k = retries-Same n (emit (sleep 5) (emit (warn "unable to fork, pausing") g)) in
    record { stage_kept = k.stage_kept; early_kept = k.early_kept; entered_kept = k.entered_kept }

pub wait-Same :
    (pid n : ℕ) (answers : List Answer) (g : Init) → Same g (stop_wait pid n answers g).1
unfolding stop_wait
wait-Same pid zero answers g = Same-refl g
wait-Same pid (suc n) [] g =
    let k = wait-Same pid n [] (emit (sleep 1) g) in
    record { stage_kept = k.stage_kept; early_kept = k.early_kept; entered_kept = k.entered_kept }
wait-Same pid (suc n) (nothing ∷ rest) g =
    let k = wait-Same pid n rest (emit (sleep 1) g) in
    record { stage_kept = k.stage_kept; early_kept = k.early_kept; entered_kept = k.entered_kept }
wait-Same pid (suc n) (error ∷ rest) g = wait-Same pid (suc n) rest g
wait-Same pid (suc n) (ended c ∷ rest) g = elim (Bool-cases (c == pid)) [
  | inl y ↦ rw y (Same-refl g)
  | inr y ↦ rw y (wait-Same pid (suc n) rest g)
]

pub runner-Same :
    (os : Os) (g : Init)
    → IsOs os
    → ((startearlysvcrunner os g).curstage ≡ g.curstage)
      × (entered (startearlysvcrunner os g).trace ≡ entered g.trace)
      × (0 < (startearlysvcrunner os g).earlysvcpid)
unfolding startearlysvcrunner start
runner-Same os g o =
    let n = os.fork_failures g.calls in ground (arith, retries-Same n g, o (fork_retries n g).calls)

pub enter_stage : (os : Os) (g : Init) → (enter os g).curstage ≡ g.curstage
unfolding enter startearlysvcrunner start
enter_stage os g =
    let n = os.fork_failures g.calls in
    let c = (fork_retries n g).calls in
    let g₁ : Init = record (emit (spawn (os.fork_pid c) (stage g.curstage)) (fork_retries n g)) {
      pid = os.fork_pid c;
    } in
    ground (arith, retries-Same n g, retries-Same (os.fork_failures g₁.calls) g₁)

-- A record that has entered the stage, with the runner or without it.
at_stage :
    (g g₂ : Init)
    → g.curstage < 4
    → IsPath (g.curstage ∷ entered g.trace)
    → g₂.curstage ≡ g.curstage
    → entered g₂.trace ≡ g.curstage ∷ entered g.trace
    → (g.curstage ≡ 0) ⊎ (0 < g₂.earlysvcpid)
    → IsOnPath g₂
at_stage g g₂ b p s t e = record {
  below = omega arith;
  before = entered g.trace;
  current = cc;
  path = rw s p;
  has_early = rw s e;
}

-- A stage entered along a move.
pub enter-IsOnPath :
    (os : Os) (g : Init)
    → IsOs os
    → g.curstage < 4
    → IsPath (g.curstage ∷ entered g.trace)
    → (g.curstage ≡ 3 → 0 < g.earlysvcpid)
    → IsOnPath (enter os g)
unfolding enter start
enter-IsOnPath os g o b p e =
    let n = os.fork_failures g.calls in
    let k = retries-Same n g in
    let c = (fork_retries n g).calls in
    let g₁ : Init = record (emit (spawn (os.fork_pid c) (stage g.curstage)) (fork_retries n g)) {
      pid = os.fork_pid c;
    } in
    let r = runner-Same os g₁ o in
    elim (Bool-cases (ltb 0 g.curstage && (not (g.curstage == 3) && (g₁.earlysvcpid == 0)))) [
      | inl y ↦ rw y (
          at_stage g (startearlysvcrunner os g₁) b p (r.0 ∙ k.stage_kept)
            (r.1 ∙ ap (λ l. g.curstage ∷ l) k.entered_kept) (inr r.2))
      | inr y ↦ rw y (
          at_stage g g₁ b p k.stage_kept (ap (λ l. g.curstage ∷ l) k.entered_kept)
            (ground (arith, k.early_kept)))
    ]

-- A round that stays is on the path; one that leaves stands before a move to the next stage.
pub record IsBefore (g : Init) : Type 0 where
  pub stage_below : g.curstage < 4
  pub next_path : IsPath (suc g.curstage ∷ entered g.trace)
  pub early : g.curstage ≡ 2 → 0 < g.earlysvcpid

abbrev pub IsNext : Next → Type 0
IsNext (stay g) = IsOnPath g
IsNext (leave g) = IsBefore g

pub Same-IsOnPath : (g g' : Init) → Same g g' → IsOnPath g → IsOnPath g'
Same-IsOnPath g g' k h = record {
  below = rw k.stage_kept h.below;
  before = h.before;
  current = k.entered_kept ∙ h.current ∙ ap (λ s. s ∷ h.before) (sym k.stage_kept);
  path = subst (λ s. IsPath (s ∷ h.before)) (sym k.stage_kept) h.path;
  has_early = rw (k.stage_kept, k.early_kept) h.has_early;
}

pub forward-IsBefore : (g g' : Init) → Same g g' → IsOnPath g → IsBefore g'
forward-IsBefore g g' k h = record {
  stage_below = rw k.stage_kept h.below;
  next_path = rw (k.stage_kept, k.entered_kept, h.current) (forward (omega arith), h.path);
  early = rw (k.stage_kept, k.early_kept) (λ e. ground (arith, h.has_early));
}

-- The stages entered so far lie on a path, and at the end this path leads out of the last stage.
abbrev pub IsPhase : Phase → Type 0
IsPhase (running g) = IsOnPath g
IsPhase (finished g) = IsPath (4 ∷ entered g.trace)
