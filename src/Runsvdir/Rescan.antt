-- ===== src/Runsvdir/Rescan.antt =====
-- runsvdir/runsvdir.c: the keys and the length of the table, over the whole of `runsvdir`.
use mathlib.Core.Path.{subst}
use runit.Base.{
  ℕ, zero, suc, ◌≡◌, ◌≤◌, Bool, true, false, List, [], ◌∷◌, ◌++◌, Option, none, some, length, arith,
  map, refl, inl, inr, Bool-cases, length-append, ap, sym, map-append,
}
use runit.Runsvdir.Defs.{Entry, Name, Dir, Fork}
use runit.Runsvdir.Scan.{read_names}
use runit.Runsvdir.Table.{
  key, same_key, same_key_sym, Absent, Distinct, IsTable, read_names-IsTable, length-key,
}
use runit.Runsvdir.Prune.{
  View, view, dismiss, prune_loop, prune_loop-last, prune_loop-swap, prune_loop-keep, prune,
  mark_gone, runsvdir,
}

-- The second list has no keys but those of the first, distinct if those were, and is no longer.
record Shrinks (es rs : List Entry) : Type 0 where
  absent : (k : ℕ × ℕ) → Absent k (map key es) → Absent k (map key rs)
  distinct : Distinct (map key es) → Distinct (map key rs)
  shorter : length rs ≤ length es

Absent-snoc :
    (j k : ℕ × ℕ) (ks : List (ℕ × ℕ))
    → Absent j (ks ++ (k ∷ []))
    → Absent j ks × (same_key k j ≡ false)
Absent-snoc j k [] a = (tt, a.0)
Absent-snoc j k (i ∷ ks) a = let (b, c) = Absent-snoc j k ks a.1 in ((a.0, b), c)

Distinct-snoc :
    (k : ℕ × ℕ) (ks : List (ℕ × ℕ)) → Distinct (ks ++ (k ∷ [])) → Absent k ks × Distinct ks
Distinct-snoc k [] d = (tt, tt)
Distinct-snoc k (j ∷ ks) d =
    let (a, s) = Absent-snoc j k ks d.0 in
    let (b, e) = Distinct-snoc k ks d.1 in ((same_key_sym k j s, b), (a, e))

map-snoc :
    (init : List Entry) (l : Entry) → map key (init ++ (l ∷ [])) ≡ map key init ++ (key l ∷ [])
map-snoc init l = rw map-append refl

swap-Shrinks :
    (e l : Entry) (init rs : List Entry)
    → Shrinks init rs
    → Shrinks (e ∷ (init ++ (l ∷ []))) (l ∷ rs)
swap-Shrinks e l init rs h = record {
  absent = λ k a.
      let p : Absent k (map key init ++ (key l ∷ [])) = subst (Absent k) (map-snoc init l) a.1 in
      let (b, c) = Absent-snoc k (key l) (map key init) p in (c, h.absent k b);
  distinct = λ d.
      let p : Distinct (map key init ++ (key l ∷ [])) = subst Distinct (map-snoc init l) d.1 in
      let (a, c) = Distinct-snoc (key l) (map key init) p in (h.absent (key l) a, h.distinct c);
  shorter = omega (arith, h.shorter, length-append init (l ∷ []));
}

prune_loop-Shrinks : (f : ℕ) (es : List Entry) (g : Dir) → Shrinks es (prune_loop f es g).0
unfolding prune_loop View
prune_loop-Shrinks zero es g = record {
  absent = λ k a. a;
  distinct = λ d. d;
  shorter = omega arith;
}
prune_loop-Shrinks (suc f) [] g = record {
  absent = λ k a. a;
  distinct = λ d. d;
  shorter = omega arith;
}
prune_loop-Shrinks (suc f) (e ∷ es) g = elim (Bool-cases e.isgone) [
  | inl y ↦ elim (view es) [
    | inl (n, u) ↦
        subst (Shrinks (e ∷ es)) (sym (prune_loop-last f e g y es u))
          (record { absent = λ k a. tt; distinct = λ d. tt; shorter = omega arith })
    | inr (init, l, q, u) ↦ subst (Shrinks (e ∷ es)) (sym (prune_loop-swap f e l es init g y u)) (
        subst (λ xs. Shrinks (e ∷ xs) (l ∷ (prune_loop f init (dismiss e g)).0)) (sym q)
          (swap-Shrinks e l init (prune_loop f init (dismiss e g)).0
            (prune_loop-Shrinks f init (dismiss e g))))
  ]
  | inr n ↦
      let h = prune_loop-Shrinks f es g in
      subst (Shrinks (e ∷ es)) (sym (prune_loop-keep f e es g n)) (record {
        absent = λ k a. (a.0, h.absent k a.1);
        distinct = λ d. (h.absent (key e) d.0, h.distinct d.1);
        shorter = omega (arith, h.shorter);
      })
]

prune-IsTable : (g : Dir) → IsTable g → IsTable (prune g)
unfolding prune
prune-IsTable g h =
    let s = prune_loop-Shrinks (length g.sv) g.sv g in
    record { fits = omega (arith, s.shorter, h.fits); distinct = s.distinct h.distinct }

key-mark_gone : (es : List Entry) → map key (mark_gone es) ≡ map key es
key-mark_gone [] = refl
key-mark_gone (e ∷ es) = ap (λ ks. key e ∷ ks) (key-mark_gone es)

-- The same keys, so a table as before.
pub rekeyed-IsTable : (g g' : Dir) → map key g'.sv ≡ map key g.sv → IsTable g → IsTable g'
rekeyed-IsTable g g' e h = record {
  fits = omega (arith, length-key g.sv, length-key g'.sv, ap length e, h.fits);
  distinct = subst Distinct (sym e) h.distinct;
}

-- A whole `runsvdir` keeps at most one entry for each directory and at most MAXSERVICES entries:
-- whatever is in the directory and in whatever order, whether it can be opened and read to its end,
-- and whether `fork` succeeds or not.
pub runsvdir-IsTable :
    (fork : Fork) (names : Option (List Name × Bool)) (g : Dir)
    → IsTable g
    → IsTable (runsvdir fork names g)
unfolding runsvdir
runsvdir-IsTable fork none g h = record { fits = h.fits; distinct = h.distinct }
runsvdir-IsTable fork (some (names, broken)) g h = go broken
  where
    g₀ : Dir
    g₀ = record g { sv = mark_gone g.sv }

    all : IsTable (read_names fork names g₀)
    all = read_names-IsTable fork names g₀ (rekeyed-IsTable g g₀ (key-mark_gone g.sv) h)

    go : (broken : Bool) → IsTable (runsvdir fork (some (names, broken)) g)
    go true = record { fits = all.fits; distinct = all.distinct }
    go false = prune-IsTable (read_names fork names g₀) all
