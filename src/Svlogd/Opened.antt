-- ===== src/Svlogd/Opened.antt =====
-- utils/svlogd.c: the state in which `logdir_open` leaves a directory.
use runit.Base.{
  ℕ, ◌≡◌, Bool, true, false, List, [], ◌∷◌, if◌then◌else◌, ◌==◌, ◌&&◌, ◌||◌, not, length, refl, ◌∙◌,
  ap, Bool-cases, inl, inr, arith,
}
use runit.Time.Taia.{Taia}
use runit.Svlogd.Defs.{Logdir, Os}
use runit.Svlogd.Files.{rmoldest}
use runit.Svlogd.Config.{
  Conf, size_line, time_line, udp_line, config_line, split_lines, config_loop, reset, read_config,
  Letter, selection, size, nmax, nmin, time, processor, only_udp, udp, prefix, other, letter,
  obey_letter, set_tmax, set_udp, ip4_scan,
}
use runit.Svlogd.Open.{
  ConfigFile, missing, unreadable, readable, Stat, absent, fails, present, Opening, logdir_close,
  configure, open_current, logdir_open,
}

-- A property of both branches is one of the choice.
if-keeps {ℓ κ} :
    {A : Type ℓ} {B : Type κ} (f : A → B) (t : Bool) {x y : A} {r : B}
    → f x ≡ r
    → f y ≡ r
    → f (if t then x else y) ≡ r
if-keeps f true h k = h
if-keeps f false h k = k

-- What no line of the file changes.
abbrev base : Logdir → Bool × ℕ × ℕ × List ℕ
base ld = (ld.is_open, ld.ppid, ld.size, ld.current)

kept : Conf → Bool × ℕ × ℕ × List ℕ
kept conf = base conf.dir

set_tmax-kept : (now : Taia) (tmax : ℕ) (conf : Conf) → kept (set_tmax now tmax conf) ≡ kept conf
unfolding set_tmax kept
set_tmax-kept now tmax conf = if-keeps (λ (x : Conf). base x.dir) (tmax == 0) refl refl

time_line-kept : (now : Taia) (s : List ℕ) (conf : Conf) → kept (time_line now s conf) ≡ kept conf
unfolding time_line
time_line-kept now s conf = set_tmax-kept now _ conf

set_udp-base :
    (c : ℕ) (ip : List ℕ) (port : ℕ) (ld : Logdir) → base (set_udp c ip port ld) ≡ base ld
unfolding set_udp
set_udp-base c ip port ld = if-keeps base ((c == 0) || (port == 0)) refl refl

size_line-base : (s : List ℕ) (ld : Logdir) → base (size_line s ld) ≡ base ld
unfolding size_line
size_line-base s ld = refl

udp_line-base : (s : List ℕ) (ld : Logdir) → base (udp_line s ld) ≡ base ld
unfolding udp_line
udp_line-base s ld = set_udp-base (ip4_scan s ld.ip).0 (ip4_scan s ld.ip).1 _ ld

obey_letter-kept :
    (k : Letter) (now : Taia) (c : ℕ) (s : List ℕ) (conf : Conf)
    → kept (obey_letter k now c s conf) ≡ kept conf
unfolding obey_letter kept
obey_letter-kept selection now c s conf = refl
obey_letter-kept size now c s conf = size_line-base s conf.dir
obey_letter-kept nmax now c s conf = refl
obey_letter-kept nmin now c s conf = refl
obey_letter-kept time now c s conf = time_line-kept now s conf
obey_letter-kept processor now c s conf =
    if-keeps (λ (x : Conf). base x.dir) (length s == 0) refl refl
obey_letter-kept only_udp now c s conf = udp_line-base s (record conf.dir { udponly = true })
obey_letter-kept udp now c s conf = udp_line-base s conf.dir
obey_letter-kept prefix now c s conf = if-keeps (λ (x : Conf). base x.dir) (length s == 0) refl refl
obey_letter-kept other now c s conf = refl

config_line-kept :
    (now : Taia) (l : List ℕ) (conf : Conf) → kept (config_line now l conf) ≡ kept conf
unfolding config_line
config_line-kept now [] conf = refl
config_line-kept now (c ∷ s) conf = obey_letter-kept (letter c) now c s conf

config_loop-kept :
    (now : Taia) (l : List ℕ) (later : List (List ℕ)) (conf : Conf)
    → kept (config_loop now l later conf) ≡ kept conf
unfolding config_loop
config_loop-kept now l [] conf = if-keeps kept (length l == 1) refl (config_line-kept now l conf)
config_loop-kept now l (next ∷ later) conf =
    config_loop-kept now next later (config_line now l conf) ∙ config_line-kept now l conf

-- What the reset and the file leave.
abbrev fresh : Conf → Bool × ℕ × ℕ × List ℕ
fresh conf = (conf.dir.is_open, 0, 0, conf.dir.current)

configure-kept :
    (now : Taia) (file : ConfigFile) (conf : Conf) → kept (configure now file conf) ≡ fresh conf
unfolding configure read_config reset kept
configure-kept now missing conf = refl
configure-kept now (unreadable sa) conf =
    config_loop-kept now (split_lines sa).0 (split_lines sa).1
      (record conf { dir = reset conf.dir })
configure-kept now (readable sa) conf =
    config_loop-kept now (split_lines sa).0 (split_lines sa).1
      (record conf { dir = reset conf.dir })

configure_fields :
    (now : Taia) (file : ConfigFile) (conf : Conf)
    → let ld = (configure now file conf).dir in
      (ld.is_open ≡ conf.dir.is_open) × (ld.ppid ≡ 0) × (ld.size ≡ 0)
unfolding kept
configure_fields now file conf =
    let e = configure-kept now file conf in (ap (λ x. x.0) e, ap (λ x. x.1) e, ap (λ x. x.2) e)

-- Closed, or open with no processor that runs and the size that `current` has.
abbrev pub IsOpened : Bool → Logdir → Type 0
IsOpened false ld = ld.is_open ≡ false
IsOpened true ld = (ld.is_open ≡ true) × (ld.ppid ≡ 0) × (ld.size ≡ length ld.current)

closed_lem : (b : Bool) (ld : Logdir) → (logdir_close b ld).is_open ≡ false
unfolding logdir_close
closed_lem b ld = ground arith

open_current-IsOpened :
    (os : Os) (t : ℕ) (answer : Stat) (ld : Logdir)
    → ld.is_open ≡ true
    → ld.ppid ≡ 0
    → ld.size ≡ 0
    → let r = open_current os t answer ld in IsOpened r.0 r.1
unfolding open_current rmoldest
open_current-IsOpened os t fails ld o p z = closed_lem false ld
open_current-IsOpened os t absent ld o p z = (o, p, z)
open_current-IsOpened os t (present executable) ld o p z =
    elim (Bool-cases (not (length ld.current == 0) && not executable)) [
      | inl y ↦ rw y (o, p, z)
      | inr n ↦ rw n (o, p, refl)
    ]

-- `logdir_open` returns 0 and the directory is closed, or it returns 1, the directory is
-- open, no processor is recorded, and the recorded size is that of `current`: for all
-- answers of the system, all contents of `config`, and any earlier state of the directory.
pub logdir_open-IsOpened :
    (os : Os) (t : ℕ) (now : Taia) (answers : Opening) (conf : Conf)
    → let r = logdir_open os t now answers conf in IsOpened r.0 r.1.dir
unfolding logdir_open
logdir_open-IsOpened os t now answers conf =
    let opened : Conf = record conf { dir = record conf.dir { is_open = true } } in
    let k = configure_fields now answers.config opened in
    let done =
      open_current-IsOpened os t answers.current (configure now answers.config opened).dir k.0 k.1
        k.2 in
    elim (Bool-cases answers.opens) [
      | inl o ↦ elim (Bool-cases (not answers.enters || not answers.locks)) [
        | inl y ↦ rw (o, y) (closed_lem false opened.dir)
        | inr q ↦ rw (o, q) done
      ]
      | inr q ↦ rw q refl
    ]
