-- ===== src/Pid1/Telinit.antt =====
-- telinit/telinit.c: `runit_halt` and `runit_reboot`, and what process number 1 then does.
use runit.Base.{
  ℕ, ◌+◌, ◌≡◌, ◌<◌, Bool, true, false, List, [], ◌∷◌, ◌++◌, if◌then◌else◌, ◌==◌, arith, ◌&&◌, ◌∙◌,
}
use runit.Pid1.Defs.{File, Reboot, Effect, reboot_system, Os, Init}
use runit.Pid1.Machine.{Input, finish, step}
use runit.Pid1.Ends.{AreOthers, stage_of}
use runit.Pid1.Stop.{HasModes, signals_lem, stop_wanted}

-- Whether the owner may execute the files, and whether they exist.
pub record Modes : Type 0 where
  pub stopit : Bool
  pub reboot : Bool
  pub reboot_exists : Bool

-- Whether `open_trunc` and `chmod` succeed on the files, and for a failing `chmod(REBOOT, 0)`, whether
-- it is because the file is missing.
pub record Tools : Type 0 where
  pub creates_stopit : Bool
  pub modes_stopit : Bool
  pub creates_reboot : Bool
  pub modes_reboot : Bool
  pub reboot_missing : Bool

-- The program dies, or sends CONT to process number 1.
pub data Result : Type 0 where
  died sent_cont : Modes → Result

-- The two first statements of both.
unfoldable pub allow_stop : Tools → Modes → (Modes → Result) → Result
allow_stop t m next =
    if t.creates_stopit
    then (if t.modes_stopit then next (record m { stopit = true }) else died m)
    else died m

unfoldable pub runit_halt : Tools → Modes → Result
unfolding allow_stop
runit_halt t m = allow_stop t m (λ m₁.
    if t.modes_reboot
    then sent_cont (record m₁ { reboot = false })
    else if t.reboot_missing
    then sent_cont m₁
    else died m₁)

unfoldable pub runit_reboot : Tools → Modes → Result
unfolding allow_stop
runit_reboot t m = allow_stop t m (λ m₁.
    if t.creates_reboot
    then (let m₂ : Modes = record m₁ { reboot_exists = true } in
        if t.modes_reboot then sent_cont (record m₂ { reboot = true }) else died m₂)
    else died m₁)

-- `main`, when it is not process number 1: the first character of its argument.
pub data Command : Type 0 where
  halt reboot : Command
  usage : Command

unfoldable pub parse : List ℕ → Command
parse [] = usage
parse (c ∷ _) = if c == b'0' then halt else if c == b'6' then reboot else usage

-- The requests to the kernel, the last one first.
abbrev pub asked : List Effect → List Reboot
asked [] = []
asked (reboot_system r ∷ es) = r ∷ asked es
asked (_ ∷ es) = asked es

finish_asks :
    (os : Os) (reboot : Bool) (g : Init)
    → ((t : ℕ) → os.executable File.reboot t ≡ reboot)
    → asked (finish os g).trace
      ≡ (if reboot then Reboot.autoboot ∷ [] else Reboot.halt_system ∷ Reboot.power_off ∷ [])
        ++ asked g.trace
unfolding finish
finish_asks os true g h = ground (arith, h (g.calls + 1 + 1))
finish_asks os false g h = ground (arith, h (g.calls + 1 + 1))

-- The modes are possible: a file that may be executed exists, and `chmod` finds a file missing only if
-- it is.
pub record IsPossible (t : Tools) (m : Modes) : Type 0 where
  pub exists : m.reboot ≡ true → m.reboot_exists ≡ true
  pub missing : t.reboot_missing ≡ true → m.reboot_exists ≡ false

abbrev pub telinit : Bool → Tools → Modes → Result
telinit again t m = if again then runit_reboot t m else runit_halt t m

sent_modes :
    (again : Bool) (t : Tools) (m m' : Modes)
    → IsPossible t m
    → telinit again t m ≡ sent_cont m'
    → (m'.stopit ≡ true) × (m'.reboot ≡ again)
unfolding runit_reboot runit_halt
sent_modes true t m m' h e = ground (arith, h)
sent_modes false t m m' h e = ground (arith, h)

-- What telinit has asked for is done. After its CONT, the third stage is left for the fourth in the
-- round in which it comes, if the file stopit then has the mode that telinit gave it, neither the
-- stage's process nor the early service runner has ended in this round, and `wait_nohang` does not
-- fail. If the file
-- reboot has that mode at the end, the kernel is asked for a reboot after `runit_reboot`, and to
-- switch off and, if that returns, to halt after `runit_halt`.
pub telinit_obeyed :
    (os os' : Os) (i : Input) (g g' : Init) (t : Tools) (m m' : Modes) (again cad : Bool)
    → IsPossible t m
    → telinit again t m ≡ sent_cont m'
    → HasModes os m'.stopit cad
    → ((n : ℕ) → os'.executable File.reboot n ≡ m'.reboot)
    → AreOthers g i.children
    → i.fails ≡ false
    → g.curstage ≡ 2
    → 0 < i.conts
    → (stage_of (step os i g) ≡ 3)
      × (asked (finish os' g').trace
          ≡ (if again then Reboot.autoboot ∷ [] else Reboot.halt_system ∷ Reboot.power_off ∷ [])
            ++ asked g'.trace)
telinit_obeyed os os' i g g' t m m' again cad h e s r o f c n =
    let (p, q) = sent_modes again t m m' h e in
    let w : (if (g.curstage == 2) && stop_wanted m'.stopit cad (g.sigc + i.conts) (g.sigi + i.ints)
          then 3
          else g.curstage)
        ≡ 3 =
      ground (arith, p) in
    ((signals_lem os i g m'.stopit cad s o f).0 ∙ w, finish_asks os' again g' (λ k. r k ∙ q))
