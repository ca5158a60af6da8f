-- ===== src/Chpst/Limit.antt =====
-- utils/chpst.c: the soft limits.
use mathlib.Core.Path.{subst}
use runit.Base.{
  ℕ, ◌-◌, ◌≡◌, ◌≤◌, ◌<◌, ◌^◌, Bool, true, List, [], ◌∷◌, ◌++◌, Option, none, some, if◌then◌else◌,
  ◌==◌, ltb, length, arith, refl, All, ℤ, pos, negsuc, inl, inr, Bool-cases,
}
use runit.Byte.Decimal.{scan_ulong}
use runit.Chpst.Env.{Text}

-- RLIMIT_DATA, RLIMIT_STACK, RLIMIT_MEMLOCK, RLIMIT_AS (or RLIMIT_VMEM), RLIMIT_NOFILE (or RLIMIT_OFILE),
-- RLIMIT_NPROC, RLIMIT_FSIZE, RLIMIT_CORE, RLIMIT_RSS and RLIMIT_CPU; the system has all of them.
pub data Resource : Type 0 where
  data_size stack memlock address_space nofile nproc fsize core rss cpu : Resource

-- The hard limit that `getrlimit` gives, if it succeeds, and whether `setrlimit` does.
pub record Os : Type 0 where
  pub hard : Resource → Option ℕ
  pub sets : Resource → ℕ → Bool

-- `limitd` and the others.
pub record Limits : Type 0 where
  pub limitd : ℤ
  pub limits : ℤ
  pub limitl : ℤ
  pub limita : ℤ
  pub limito : ℤ
  pub limitp : ℤ
  pub limitf : ℤ
  pub limitc : ℤ
  pub limitr : ℤ
  pub limitt : ℤ

-- `(l < 0) || (l > r.rlim_max)`
unfoldable pub soft : ℤ → ℕ → ℕ
soft (negsuc n) hard = hard
soft (pos l) hard = if ltb hard l then hard else l

-- The soft limits that were set, the last one first; nothing where the program ends with an error.
abbrev pub Set : Type 0
Set = List (Resource × ℕ)

unfoldable pub limit_to : Os → Resource → ℕ → Set → Option Set
limit_to os what cur set = if os.sets what cur then some ((what, cur) ∷ set) else none

unfoldable pub limit_by : Os → Resource → ℤ → Option ℕ → Set → Option Set
unfolding soft limit_to
limit_by os what l none set = none
limit_by os what l (some hard) set = limit_to os what (soft l hard) set

unfoldable pub limit : Os → Resource → ℤ → Set → Option Set
unfolding limit_by
limit os what l set = limit_by os what l (os.hard what) set

-- `limitd >= -1`
abbrev pub is_given : ℤ → Bool
is_given (pos n) = true
is_given (negsuc n) = n == 0

-- `slimit` looks at these in this order.
unfoldable pub order : Limits → List (Resource × ℤ)
order ls =
    (data_size, ls.limitd)
    ∷ (stack, ls.limits)
    ∷ (memlock, ls.limitl)
    ∷ (address_space, ls.limita)
    ∷ (nofile, ls.limito)
    ∷ (nproc, ls.limitp)
    ∷ (fsize, ls.limitf)
    ∷ (core, ls.limitc)
    ∷ (rss, ls.limitr)
    ∷ (cpu, ls.limitt)
    ∷ []

unfoldable pub limit_if : Os → Resource → ℤ → Set → Option Set
unfolding limit
limit_if os what l set = if is_given l then limit os what l set else some set

unfoldable pub limit_each : Os → List (Resource × ℤ) → Option Set → Option Set
unfolding limit_if
limit_each os asks none = none
limit_each os [] (some set) = some set
limit_each os ((what, l) ∷ asks) (some set) = limit_each os asks (limit_if os what l set)

unfoldable pub slimit : Os → Limits → Option Set
unfolding order limit_each
slimit os ls = limit_each os (order ls) (some [])

-- A decimal number that is all of the argument, as an `unsigned long`; `usage` otherwise.
number_at : Text → Option (ℕ × ℕ) → Option ℕ
number_at t none = none
number_at t (some (n, ul)) = if n == length t then some ul else none

unfoldable pub number : Text → Option ℕ
unfolding number_at scan_ulong
number t = number_at t (scan_ulong (t ++ (0 ∷ [])))

-- The `long` that an `unsigned long` becomes.
unfoldable pub to_long : ℕ → ℤ
to_long ul = if ltb ul (2 ^ 63) then pos ul else negsuc (2 ^ 64 - 1 - ul)

-- What holds of a soft limit that was set: it is not above the hard one.
abbrev pub Fits : Os → Resource × ℕ → Type 0
Fits os (what, cur) = (hard : ℕ) × (os.hard what ≡ some hard) × (cur ≤ hard)

abbrev AllFit : Os → Option Set → Type 0
AllFit os none = Unit
AllFit os (some set) = All (Fits os) set

soft_lem : (l : ℤ) (hard : ℕ) → soft l hard ≤ hard
unfolding soft
soft_lem (negsuc n) hard = omega arith
soft_lem (pos l) hard = ground arith

limit_to-AllFit :
    (os : Os) (what : Resource) (cur hard : ℕ) (set : Set)
    → os.hard what ≡ some hard
    → cur ≤ hard
    → All (Fits os) set
    → AllFit os (limit_to os what cur set)
unfolding limit_to
limit_to-AllFit os what cur hard set e h k = elim (Bool-cases (os.sets what cur)) [
  | inl y ↦ rw y ((hard, e, h), k)
  | inr n ↦ rw n tt
]

limit_by-AllFit :
    (os : Os) (what : Resource) (l : ℤ) (o : Option ℕ) (set : Set)
    → os.hard what ≡ o
    → All (Fits os) set
    → AllFit os (limit_by os what l o set)
unfolding limit_by
limit_by-AllFit os what l none set e k = tt
limit_by-AllFit os what l (some hard) set e k =
    limit_to-AllFit os what (soft l hard) hard set e (soft_lem l hard) k

limit_if-AllFit :
    (os : Os) (what : Resource) (l : ℤ) (set : Set)
    → All (Fits os) set
    → AllFit os (limit_if os what l set)
unfolding limit_if limit
limit_if-AllFit os what l set k = elim (Bool-cases (is_given l)) [
  | inl y ↦ rw y (limit_by-AllFit os what l (os.hard what) set refl k)
  | inr n ↦ rw n k
]

each-AllFit :
    (os : Os) (asks : List (Resource × ℤ)) (o : Option Set)
    → AllFit os o
    → AllFit os (limit_each os asks o)
unfolding limit_each
each-AllFit os asks none h = tt
each-AllFit os [] (some set) h = h
each-AllFit os ((what, l) ∷ asks) (some set) h =
    each-AllFit os asks (limit_if os what l set) (limit_if-AllFit os what l set h)

-- No soft limit that `slimit` sets is above the hard limit of its resource, whatever the options ask for.
pub slimit-Fits : (os : Os) (ls : Limits) (set : Set) → slimit os ls ≡ some set → All (Fits os) set
unfolding slimit
slimit-Fits os ls set e = subst (AllFit os) e (each-AllFit os (order ls) (some []) tt)

-- An option asks for a limit of `ul`: below 2 ^ 63 the soft limit becomes the smaller of it and the
-- hard one, 2 ^ 64 - 1 makes it the hard one, and for all numbers between these nothing is done.
pub limit_of_option :
    (os : Os) (what : Resource) (ul hard : ℕ) (set : Set)
    → ul < 2 ^ 64
    → os.hard what ≡ some hard
    → limit_if os what (to_long ul) set ≡ (
        if ltb ul (2 ^ 63)
        then limit_to os what (if ltb hard ul then hard else ul) set
        else if ul == 2 ^ 64 - 1
        then limit_to os what hard set
        else some set)
unfolding limit_if limit limit_by soft to_long
limit_of_option os what ul hard set h e = ground arith
