-- ===== src/Pid1/Stop.antt =====
-- pid1/runit.c: how stage 3 is brought to its end, and who may ask for it.
use runit.Base.{
  ℕ, ◌+◌, ◌≡◌, ◌≢◌, ◌<◌, Bool, true, false, List, [], ◌∷◌, if◌then◌else◌, ◌==◌, ◌&&◌, ◌||◌, ltb,
  arith, refl, ◌⊎◌, inl, inr, ◌∙◌, ap, Bool-cases, All,
}
use runit.Pid1.Defs.{File, warn, Os, Init}
use runit.Pid1.Signals.{Answer, stop_stage, ctrl_alt_del, obey_int, obey_cont, on_signals}
use runit.Pid1.Machine.{Input, Child, collect, react, after, running, step}
use runit.Pid1.Stage.{Next, stay}
use runit.Pid1.Moves.{obey_int-Same, stop_stage-Same}
use runit.Pid1.Ends.{stage_of, after_stage, left_of, AreOthers}

-- Which of the two files of the signals may be executed, at all times.
pub record HasModes (os : Os) (stopit cad : Bool) : Type 0 where
  pub stopit_mode : (t : ℕ) → os.executable File.stopit t ≡ stopit
  pub cad_mode : (t : ℕ) → os.executable File.ctrlaltdel t ≡ cad

-- CONT has come, or INT that is turned into it, and it may be obeyed.
abbrev pub stop_wanted : Bool → Bool → ℕ → ℕ → Bool
stop_wanted stopit cad conts ints = stopit && (ltb 0 conts || (ltb 0 ints && cad))

ctrl_alt_del_counts : (os : Os) (g : Init) → 0 < (ctrl_alt_del os g).sigc
unfolding ctrl_alt_del
ctrl_alt_del_counts os g = omega arith

obey_int_counts :
    (os : Os) (stopit cad : Bool) (g : Init)
    → HasModes os stopit cad
    → ltb 0 (obey_int os g).sigc ≡ (ltb 0 g.sigc || (ltb 0 g.sigi && cad))
unfolding obey_int
obey_int_counts os stopit cad g h = ground (arith, h.cad_mode g.calls, ctrl_alt_del_counts os g)

stop_stage_stage : (answers : List Answer) (g : Init) → (stop_stage answers g).curstage ≡ g.curstage
stop_stage_stage answers g = (stop_stage-Same answers g).stage_kept

obey_cont_left :
    (os : Os) (answers : List Answer) (stopit cad : Bool) (g : Init)
    → HasModes os stopit cad
    → left_of (obey_cont os answers g)
      ≡ (if ltb 0 g.sigc && stopit then g.curstage + 1 else g.curstage)
unfolding obey_cont
obey_cont_left os answers stopit cad g h =
    ground (arith, h.stopit_mode g.calls, stop_stage_stage answers g)

on_signals_left :
    (os : Os) (answers : List Answer) (stopit cad : Bool) (g : Init)
    → HasModes os stopit cad
    → left_of (on_signals os answers g)
      ≡ (if (g.curstage == 2) && stop_wanted stopit cad g.sigc g.sigi then 3 else g.curstage)
unfolding on_signals
on_signals_left os answers stopit cad g h =
    let g₁ = obey_int os g in
    let a = obey_cont_left os answers stopit cad g₁ h in
    let b = obey_int_counts os stopit cad g h in
    let c = (obey_int-Same os g).stage_kept in ground (arith, a, b, c)

react_signals :
    (os : Os) (i : Input) (g : Init)
    → collect g.pid g.earlysvcpid i.children i.fails ≡ Child.nothing
    → react os i g
      ≡ on_signals os i.stopping (record g { sigc = g.sigc + i.conts; sigi = g.sigi + i.ints })
unfolding react on_signals
react_signals os i g e = rw (react, e) refl

no_child :
    (pid early : ℕ) (l : List (ℕ × ℕ))
    → All (λ (c : ℕ × ℕ). (c.0 ≢ pid) × (c.0 ≢ early)) l
    → collect pid early l false ≡ Child.nothing
unfolding collect
no_child pid early [] h = refl
no_child pid early ((c, w) ∷ l) h = ground (arith, h.0, no_child pid early l h.1)

signals_left :
    (os : Os) (i : Input) (g : Init) (stopit cad : Bool)
    → HasModes os stopit cad
    → collect g.pid g.earlysvcpid i.children i.fails ≡ Child.nothing
    → stage_of (step os i g) ≡ (
        if (g.curstage == 2) && stop_wanted stopit cad (g.sigc + i.conts) (g.sigi + i.ints)
        then 3
        else g.curstage)
unfolding step
signals_left os i g stopit cad h c =
    let g₁ : Init = record g { sigc = g.sigc + i.conts; sigi = g.sigi + i.ints } in
    after_stage os (react os i g)
    ∙ ap left_of (react_signals os i g c)
    ∙ on_signals_left os i.stopping stopit cad g₁ h

-- The record behind a round whose signals, so many of each kind, are thrown away.
abbrev pub discarded : ℕ → ℕ → Init → Init
discarded conts ints g = record g {
  sigc = 0;
  sigi = 0;
  calls = if (conts == 0) && (ints == 0) then g.calls else g.calls + 1;
  trace =
      if (conts == 0) && (ints == 0)
      then g.trace
      else warn "signals only work in stage 3." ∷ g.trace;
}

if-stay :
    (b : Bool) (g : Init) (x : Next)
    → b ≡ true
    → g.sigc ≡ 0
    → g.sigi ≡ 0
    → (if b then stay g else x)
      ≡ stay (record g {
        sigc = 0;
        sigi = 0;
        calls = if b then g.calls else g.calls + 1;
        trace = if b then g.trace else warn "signals only work in stage 3." ∷ g.trace;
      })
if-stay true g x y c d =
    ap (λ n. stay (record g { sigc = n })) c ∙ ap (λ n. stay (record g { sigc = 0; sigi = n })) d
if-stay false g x y c d = absurd (ground (arith, y))

on_signals-discarded :
    (os : Os) (answers : List Answer) (g : Init)
    → (g.curstage == 2) ≡ false
    → on_signals os answers g ≡ stay (discarded g.sigc g.sigi g)
unfolding on_signals
on_signals-discarded os answers g n = elim (Bool-cases ((g.sigc == 0) && (g.sigi == 0))) [
  | inl y ↦
      let c : g.sigc ≡ 0 = ground arith in
      let d : g.sigi ≡ 0 = ground arith in if-stay ((g.sigc == 0) && (g.sigi == 0)) g _ y c d
  | inr z ↦ rw (z, n) refl
]

signals_discarded :
    (os : Os) (i : Input) (g : Init)
    → collect g.pid g.earlysvcpid i.children i.fails ≡ Child.nothing
    → (g.curstage == 2) ≡ false
    → step os i g ≡ running (discarded (g.sigc + i.conts) (g.sigi + i.ints) g)
unfolding step
signals_discarded os i g c n =
    let g₁ : Init = record g { sigc = g.sigc + i.conts; sigi = g.sigi + i.ints } in
    ap (after os) (react_signals os i g c ∙ on_signals-discarded os i.stopping g₁ n)

-- In a round in which neither the stage's process nor the early service runner has ended and
-- `wait_nohang` does not fail, the machine goes on to the fourth stage exactly if it is in the third,
-- CONT has come, or INT with a program for ctrl-alt-del, and the owner may execute the file stopit. In
-- every other stage the round does nothing but to take back the signals, with one warning if there
-- was any: no process is started or signalled, and no file is looked at.
pub signals_lem :
    (os : Os) (i : Input) (g : Init) (stopit cad : Bool)
    → HasModes os stopit cad
    → AreOthers g i.children
    → i.fails ≡ false
    → (stage_of (step os i g) ≡ (
        if (g.curstage == 2) && stop_wanted stopit cad (g.sigc + i.conts) (g.sigi + i.ints)
        then 3
        else g.curstage))
      × ((g.curstage ≡ 2)
          ⊎ (step os i g ≡ running (discarded (g.sigc + i.conts) (g.sigi + i.ints) g)))
signals_lem os i g stopit cad h o f =
    let c : collect g.pid g.earlysvcpid i.children i.fails ≡ Child.nothing =
      rw f (no_child g.pid g.earlysvcpid i.children o) in
    (
      signals_left os i g stopit cad h c,
      elim (Bool-cases (g.curstage == 2)) [
        | inl y ↦ inl (ground arith)
        | inr n ↦ inr (signals_discarded os i g c n)
      ],
    )
