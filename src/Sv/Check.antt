-- ===== src/Sv/Check.antt =====
-- sv/sv.c: `checkscript` and `check`.
use runit.Base.{
  zero, suc, ℕ, Bool, true, false, List, [], ◌∷◌, Option, none, some, if◌then◌else◌, ◌==◌, ◌&&◌,
  ◌||◌, not, ℤ, pos, negsuc, ltb, ◌/◌, ◌^◌,
}
use runit.Time.Tai.{Tai, tai_unpack}
use runit.Sv.Defs.{Sv, missing, unknown, there, Service, at, status_pid}
use runit.Sv.Get.{svstatus_get, first}

-- The messages of `checkscript` go to the standard error and are left out.
unfoldable pub checkscript : Service → Bool
checkscript d = elim d.script [
  | missing ↦ true
  | unknown ↦ false
  | there ↦
      if d.forks then elim d.script_status [ none ↦ false | some w ↦ w / 2 ^ 8 == 0 ] else false
]

-- `tai_unpack(svstatus, &tstatus)`, then `tstatus.x`.
abbrev pub time_of : Option Tai → ℕ
time_of none = 0
time_of (some t) = t.x

unfoldable pub status_time : Sv → ℕ
unfolding tai_unpack
status_time g = time_of (tai_unpack g.svstatus)

-- Whether a case of the `switch` reaches its `break`; any other character does.
unfoldable pub check_char : Service → ℕ → Sv → Bool
unfolding checkscript status_pid status_time
check_char d c g =
    if c == b'x'
    then false
    else if c == b'u'
    then not ((status_pid g == 0) || not (at g 19 == 1)) && checkscript d
    else if c == b'd'
    then not (not (status_pid g == 0) || not (at g 19 == 0))
    else if c == b'C'
    then (if status_pid g == 0 then true else checkscript d)
    else if (c == b't') || (c == b'k')
    then if (status_pid g == 0) && (at g 17 == b'd')
      then true
      else not (
          ltb (status_time g) g.tstart
          || ((status_pid g == 0) || (not (at g 18 == 0) || not (checkscript d))))
    else if c == b'o'
    then not (
        ((status_pid g == 0) && ltb (status_time g) g.tstart)
        || (not (status_pid g == 0) && not (at g 17 == b'd')))
    else if c == b'p'
    then not (not (status_pid g == 0) && (at g 16 == 0))
    else if c == b'c'
    then not (not (status_pid g == 0) && not (at g 16 == 0))
    else true

-- `while (*a)`, after a status was read.
unfoldable pub check_all : Service → List ℕ → Sv → Bool
check_all d [] g = true
check_all d (c ∷ a) g = check_char d c g && check_all d a g

-- `check`, from what `svstatus_get` has returned on.
unfoldable pub check_got : Service → List ℕ → ℤ → Sv → ℤ × Sv
unfolding check_all
check_got d a (negsuc n) g = (negsuc 0, record g { r = negsuc n })
check_got d a (pos zero) g =
    let g₁ : Sv = record g { r = pos 0 } in
    elim a [ [] ↦ (pos 1, g₁) | c ∷ _ ↦ (if c == b'x' then pos 1 else negsuc 0, g₁) ]
check_got d a (pos (suc n)) g =
    let g₁ : Sv = record g { r = pos (suc n) } in (if check_all d a g₁ then pos 1 else pos 0, g₁)

-- 1 when all of `acts` has come about, 0 when not yet, -1 when it cannot be told. The printing of the
-- status before 1 is returned is left out.
unfoldable pub check : Service → List ℕ → Sv → ℤ × Sv
unfolding svstatus_get check_got
check d a g = let (res, g₁) = svstatus_get d (first a) g in check_got d a res g₁
