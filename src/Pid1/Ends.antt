-- ===== src/Pid1/Ends.antt =====
-- pid1/runit.c: what the end of a stage's process leads to.
use runit.Base.{
  ℕ, ◌+◌, ◌≡◌, ◌≢◌, ◌≤◌, ◌<◌, Bool, true, false, List, [], ◌∷◌, ◌++◌, if◌then◌else◌, ◌==◌, ◌&&◌,
  ◌||◌, arith, refl, ◌∙◌, ap, All, length, ◌%◌,
}
use runit.Pid1.Defs.{Os, IsOs, Init, wait_crashed, wait_exitcode}
use runit.Pid1.Stage.{Next, stay, leave, stage_ended}
use runit.Pid1.Machine.{
  Input, Child, collect, on_child, react, finish, Phase, running, finished, advance, after, step,
  run, boot,
}
use runit.Pid1.Path.{enter_stage, IsPhase}
use runit.Pid1.Moves.{step-IsPhase, run-boot-IsPhase}

-- The stage that follows the end of a stage's process with this status.
abbrev pub next_stage : ℕ → ℕ → ℕ
next_stage s w =
    if wait_exitcode w == 0
    then s + 1
    else if (s == 0) && (wait_crashed w || (wait_exitcode w == 100))
    then 2
    else if (s == 2) && (wait_crashed w || (wait_exitcode w == 111))
    then 2
    else s + 1

-- The current stage of a phase; 4 at the end.
abbrev pub stage_of : Phase → ℕ
stage_of (running g) = g.curstage
stage_of (finished g) = g.curstage

-- None of these children is the stage's process or the early service runner.
abbrev pub AreOthers : Init → List (ℕ × ℕ) → Type 0
AreOthers g l = All (λ (c : ℕ × ℕ). (c.0 ≢ g.pid) × (c.0 ≢ g.earlysvcpid)) l

collect_others :
    (pid early w : ℕ) (others rest : List (ℕ × ℕ)) (fails : Bool)
    → All (λ (c : ℕ × ℕ). (c.0 ≢ pid) × (c.0 ≢ early)) others
    → collect pid early (others ++ ((pid, w) ∷ rest)) fails ≡ Child.ended pid w
unfolding collect
collect_others pid early w [] rest fails h = ground arith
collect_others pid early w ((c, v) ∷ others) rest fails h =
    ground (arith, h.0, collect_others pid early w others rest fails h.1)

finish_stage : (os : Os) (g : Init) → (finish os g).curstage ≡ g.curstage
unfolding finish
finish_stage os g = ground arith

advance_stage : (os : Os) (g : Init) → stage_of (advance os g) ≡ g.curstage + 1
unfolding advance
advance_stage os g =
    let g₁ : Init = record g { curstage = g.curstage + 1 } in
    ground (arith, enter_stage os g₁, finish_stage os g₁)

-- The stage behind a round.
abbrev pub left_of : Next → ℕ
left_of (stay g) = g.curstage
left_of (leave g) = g.curstage + 1

pub after_stage : (os : Os) (n : Next) → stage_of (after os n) ≡ left_of n
unfolding after
after_stage os (stay g) = refl
after_stage os (leave g) = advance_stage os g

stage_ended_left : (w : ℕ) (g : Init) → left_of (stage_ended w g) ≡ next_stage g.curstage w
unfolding stage_ended
stage_ended_left w g = ground arith

on_child_left :
    (os : Os) (w : ℕ) (g : Init) → left_of (on_child os g.pid w g) ≡ next_stage g.curstage w
unfolding on_child
on_child_left os w g = let e : (g.pid == g.pid) ≡ true = ground arith in rw e (stage_ended_left w g)

react_ended :
    (os : Os) (i : Input) (g : Init) (c w : ℕ)
    → collect g.pid g.earlysvcpid i.children i.fails ≡ Child.ended c w
    → react os i g ≡ on_child os c w (record g { sigc = g.sigc + i.conts; sigi = g.sigi + i.ints })
unfolding react
react_ended os i g c w e = rw (react, e) refl

-- When the process of the current stage ends, whatever children but the early service runner have
-- ended before it in the same round, the machine enters the next stage, with two exceptions, both for an exit status other
-- than 0: the first stage is followed by the third if it exits 100 or has crashed, and the third by
-- itself if it exits 111 or has crashed.
pub stage_end_lem :
    (os : Os) (i : Input) (g : Init) (w : ℕ) (others rest : List (ℕ × ℕ))
    → i.children ≡ others ++ ((g.pid, w) ∷ rest)
    → AreOthers g others
    → stage_of (step os i g) ≡ next_stage g.curstage w
unfolding step
stage_end_lem os i g w others rest e h =
    let g₁ : Init = record g { sigc = g.sigc + i.conts; sigi = g.sigi + i.ints } in
    let c : collect g.pid g.earlysvcpid i.children i.fails ≡ Child.ended g.pid w =
      rw e (collect_others g.pid g.earlysvcpid w others rest i.fails h) in
    after_stage os (react os i g)
    ∙ ap left_of (react_ended os i g g.pid w c)
    ∙ on_child_left os w g₁

-- A status that is no reason to skip a stage or to run one again.
pub record IsCalm (w : ℕ) : Type 0 where
  pub no_crash : wait_crashed w ≡ false
  pub not_100 : wait_exitcode w ≢ 100
  pub not_111 : wait_exitcode w ≢ 111

-- What comes in a round besides the end of the stage's process, and the status of that.
pub record Ending : Type 0 where
  pub status : ℕ
  pub input : Input

-- The process of the stage is the first child that `wait_nohang` gives.
abbrev pub ends_with : Ending → Init → Input
ends_with e g = let i = e.input in record i { children = (g.pid, e.status) ∷ i.children }

-- Rounds in each of which the process of the current stage ends.
abbrev pub end_each : List Ending → Os → Phase → Phase
end_each [] os p = p
end_each (e ∷ es) os (running g) = end_each es os (step os (ends_with e g) g)
end_each (e ∷ es) os (finished g) = finished g

calm_next : (s w : ℕ) → IsCalm w → next_stage s w ≡ s + 1
calm_next s w h = ground (arith, h)

-- A phase is finished exactly when its stage is the fifth.
abbrev pub IsFinished : Phase → Type 0
IsFinished (running g) = ⊥
IsFinished (finished g) = Unit

end_each-IsFinished :
    (es : List Ending) (os : Os) (p : Phase)
    → IsOs os
    → All (λ (e : Ending). IsCalm e.status) es
    → IsPhase p
    → 4 ≤ stage_of p + length es
    → IsFinished (end_each es os p)
end_each-IsFinished [] os (running g) o h k b = absurd (omega (arith, k.below))
end_each-IsFinished [] os (finished g) o h k b = tt
end_each-IsFinished (e ∷ es) os (finished g) o h k b = tt
end_each-IsFinished (e ∷ es) os (running g) o h k b =
    let i = ends_with e g in
    let q =
      stage_end_lem os i g e.status [] e.input.children refl tt
      ∙ calm_next g.curstage e.status h.0 in
    end_each-IsFinished es os (step os i g) o h.1 (step-IsPhase os i g o k) (omega (arith, q))

-- From whatever the machine has come to since boot, four rounds bring it to its end, in each of which
-- the first child that is collected is the current stage's process, with a status that gives no
-- reason to skip a stage or to run one again; the statuses may differ, and signals and other children
-- may come too.
pub run-IsFinished :
    (a b c d : Ending) (os : Os) (l : List Input)
    → IsOs os
    → IsCalm a.status
    → IsCalm b.status
    → IsCalm c.status
    → IsCalm d.status
    → IsFinished (end_each (a ∷ b ∷ c ∷ d ∷ []) os (run os l (boot os)))
run-IsFinished a b c d os l o ha hb hc hd =
    let p = run os l (boot os) in
    end_each-IsFinished (a ∷ b ∷ c ∷ d ∷ []) os p o (ha, (hb, (hc, (hd, tt))))
      (run-boot-IsPhase os l o) (omega arith)

-- The status of a process that a signal has killed is below 256, with or without a core dump, and its
-- last seven bits are not all 0. The code asks for a crash only if the exit status, the next byte, is not 0,
-- so that the machine goes on as after a success; no early service runner has ended before the
-- stage's process in the round.
pub killed_stage_goes_on :
    (os : Os) (i : Input) (g : Init) (w : ℕ) (others rest : List (ℕ × ℕ))
    → i.children ≡ others ++ ((g.pid, w) ∷ rest)
    → AreOthers g others
    → w % 128 ≢ 0
    → w < 256
    → (wait_crashed w ≡ true) × (stage_of (step os i g) ≡ g.curstage + 1)
killed_stage_goes_on os i g w others rest e h p b =
    let exits : wait_exitcode w ≡ 0 = omega (arith, b) in
    (ground (arith, p), stage_end_lem os i g w others rest e h ∙ ground (arith, exits))
