-- ===== src/Runsvdir/Rounds.antt =====
-- runsvdir/runsvdir.c: the table, the end and the log over the rounds of the loop of `main`.

use runit.Base.{
  ℕ, zero, suc, ◌+◌, ◌-◌, ◌%◌, ◌^◌, ◌≡◌, inl, inr, Bool, true, false, List, [], ◌∷◌, Option, none,
  some, if◌then◌else◌, ◌==◌, map, refl, ap, Bool-cases, ltb,
}
use runit.Runsvdir.Defs.{Entry, Effect, terminate, Dir, Fork, emit, sleep, log_mark}
use runit.Runsvdir.Table.{key, IsTable}
use runit.Runsvdir.Rescan.{rekeyed-IsTable, runsvdir-IsTable}
use runit.Runsvdir.Prune.{forget, collect}
use runit.Time.Taia.{Taia, taia_less}
use runit.Runsvdir.Loop.{
  Found, Main, Turn, collect_all, check_warp, back, is_modified, scan, look, check_dir, mark_log,
  read_pipe, mark, go_on, terminate_all, check_exit, round, rounds,
}

-- The directories stay the same when an entry loses its process.
abbrev Keyed : List Entry → Option (List Entry) → Type 0
Keyed es none = Unit
Keyed es (some es₁) = map key es₁ ≡ map key es

Keyed-cons :
    (e : Entry) (es : List Entry) (o : Option (List Entry))
    → Keyed es o
    → Keyed (e ∷ es) (elim o [ none ↦ none | some es₁ ↦ some (e ∷ es₁) ])
Keyed-cons e es none h = tt
Keyed-cons e es (some es₁) h = ap (λ ks. key e ∷ ks) h

forget-Keyed : (pid : ℕ) (es : List Entry) → Keyed es (forget pid es)
unfolding forget
forget-Keyed pid [] = tt
forget-Keyed pid (e ∷ es) = elim (Bool-cases (pid == e.pid)) [
  | inl y ↦ rw y refl
  | inr n ↦ rw n (Keyed-cons e es (forget pid es) (forget-Keyed pid es))
]

collected :
    (g : Dir) (o : Option (List Entry))
    → Keyed g.sv o
    → IsTable g
    → IsTable (elim o [ none ↦ g | some es ↦ record g { sv = es; check = true } ])
collected g none k h = h
collected g (some es) k h = rekeyed-IsTable g (record g { sv = es; check = true }) k h

collect_all-IsTable : (pids : List ℕ) (g : Dir) → IsTable g → IsTable (collect_all pids g)
unfolding collect_all collect
collect_all-IsTable [] g h = h
collect_all-IsTable (pid ∷ pids) g h =
    collect_all-IsTable pids (collect pid g)
      (collected g (forget pid g.sv) (forget-Keyed pid g.sv) h)

-- The same table.
emit-IsTable : (e : Effect) (g : Dir) → IsTable g → IsTable (emit e g)
emit-IsTable e g h = record { fits = h.fits; distinct = h.distinct }

back-IsTable : (n : ℕ) (g : Dir) → IsTable g → IsTable (back n g)
unfolding back
back-IsTable zero g h = h
back-IsTable (suc n) g h = back-IsTable n _ (record { fits = h.fits; distinct = h.distinct })

if-IsTable : (b : Bool) (g k : Dir) → IsTable g → IsTable k → IsTable (if b then g else k)
if-IsTable true g k x y = x
if-IsTable false g k x y = y

if_main : (b : Bool) (m n : Main) → IsTable m.dir → IsTable n.dir → IsTable (if b then m else n).dir
if_main true m n x y = x
if_main false m n x y = y

scan-IsTable :
    (fork : Fork) (t : Turn) (now : Taia) (s : Found) (m : Main)
    → IsTable m.dir
    → IsTable (scan fork t now s m).dir
unfolding scan
scan-IsTable fork t now s m h =
    let g = m.dir in
    let g₀ : Dir = record g { check = false } in
    let k : IsTable g₀ = record { fits = h.fits; distinct = h.distinct } in
    back-IsTable t.stuck _ (
      runsvdir-IsTable fork t.names _
        (if-IsTable _ (emit (sleep 1) g₀) g₀ (emit-IsTable (sleep 1) g₀ k) k))

look-IsTable :
    (fork : Fork) (t : Turn) (now : Taia) (o : Option Found) (m : Main)
    → IsTable m.dir
    → IsTable (look fork t now o m).dir
unfolding look
look-IsTable fork t now none m h = emit-IsTable _ m.dir h
look-IsTable fork t now (some s) m h =
    if_main (is_modified s m) _ m
      (if_main t.chdir (scan fork t now s m) _ (scan-IsTable fork t now s m h)
        (emit-IsTable _ m.dir h))
      h

check_dir-IsTable :
    (fork : Fork) (t : Turn) (now : Taia) (m : Main)
    → IsTable m.dir
    → IsTable (check_dir fork t now m).dir
unfolding check_dir
check_dir-IsTable fork t now m h =
    if_main (taia_less now m.stampcheck) m _ h (look-IsTable fork t now t.stat _ h)

mark-IsTable :
    (o : Option (List ℕ)) (now : Taia) (m : Main) → IsTable m.dir → IsTable (mark o now m).dir
unfolding mark
mark-IsTable none now m h = h
mark-IsTable (some log) now m h =
    if_main (taia_less now m.stamplog) m _ h (emit-IsTable log_mark m.dir h)

terminate_all-IsTable : (es : List Entry) (g : Dir) → IsTable g → IsTable (terminate_all es g)
unfolding terminate_all
terminate_all-IsTable [] g h = h
terminate_all-IsTable (e ∷ es) g h =
    terminate_all-IsTable es _ (if-IsTable (e.pid == 0) g _ h (emit-IsTable (terminate e.pid) g h))

check_exit-IsTable : (n : ℕ) (m : Main) → IsTable m.dir → IsTable (check_exit n m).1.dir
unfolding check_exit
check_exit-IsTable n m h = elim (Bool-cases (n == 1)) [
  | inl y ↦ rw y h
  | inr z ↦ elim (Bool-cases (n == 2)) [
    | inl y ↦ rw (z, y) (terminate_all-IsTable m.dir.sv m.dir h)
    | inr k ↦ rw (z, k) h
  ]
]

warp-IsTable : (t : Turn) (m : Main) → IsTable m.dir → IsTable (check_warp t m).1.dir
unfolding check_warp
warp-IsTable t m h =
    elim (Bool-cases (ltb t.now.sec ((m.stampcheck.sec + (2 ^ 64 - 3)) % 2 ^ 64))) [
      | inl y ↦ rw y (emit-IsTable _ m.dir h)
      | inr n ↦ rw n h
    ]

round-IsTable : (fork : Fork) (t : Turn) (m : Main) → IsTable m.dir → IsTable (round fork t m).1.dir
unfolding round mark_log
round-IsTable fork t m h =
    let a : Main = record m { dir = collect_all t.ended m.dir } in
    let x = check_warp t a in
    let y = check_dir fork t x.0 x.1 in
    let z = mark_log x.0 y in
    let k =
      mark-IsTable y.rplog x.0 y (
        check_dir-IsTable fork t x.0 x.1
          (warp-IsTable t a (collect_all-IsTable t.ended m.dir h))) in
    check_exit-IsTable t.exitsoon (record z { rplog = read_pipe z.rplog t.written }) k

go_on-IsTable :
    (r : Option ℕ × Main) (k : Main → Option ℕ × Main)
    → IsTable r.1.dir
    → ((m : Main) → IsTable m.dir → IsTable (k m).1.dir)
    → IsTable (go_on r k).1.dir
go_on-IsTable (none, m) k h f = f m h
go_on-IsTable (some n, m) k h f = h

-- Over all rounds of the loop of `main`, whatever the system gives in them, the table keeps at most
-- one entry for a directory and at most MAXSERVICES entries.
pub rounds-IsTable :
    (fork : Fork) (ts : List Turn) (m : Main) → IsTable m.dir → IsTable (rounds fork ts m).1.dir
unfolding rounds
rounds-IsTable fork [] m h = h
rounds-IsTable fork (t ∷ ts) m h =
    go_on-IsTable (round fork t m) (λ m. rounds fork ts m) (round-IsTable fork t m h)
      (λ m k. rounds-IsTable fork ts m k)
