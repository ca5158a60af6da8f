-- ===== src/Runsvdir/Prune.antt =====
-- runsvdir/runsvdir.c: the loop that takes gone services out of the table, the loop that collects ended
-- supervisors, and the whole of `runsvdir`.
use runit.Base.{
  ℕ, zero, suc, ◌+◌, ◌≡◌, Bool, true, false, List, [], ◌∷◌, ◌++◌, Option, none, some, if◌then◌else◌,
  ◌==◌, length, arith, refl, ◌∙◌, ap, inl, inr, Bool-cases, ◌⊎◌, sym, All,
}
use runit.Runsvdir.Defs.{Entry, Name, Dir, Fork, emit, warn, terminate}
use runit.Runsvdir.Scan.{read_names}

-- The list without its last element, and that element.
unfoldable pub unsnoc : List Entry → Option (List Entry × Entry)
unsnoc [] = none
unsnoc (e ∷ es) = elim (unsnoc es) [ none ↦ some ([], e) | some (init, l) ↦ some (e ∷ init, l) ]

-- `if (sv[i].pid) kill(sv[i].pid, SIGTERM); …; check = 1;`
unfoldable pub dismiss : Entry → Dir → Dir
dismiss e g =
    let g₁ = if e.pid == 0 then g else emit (terminate e.pid) g in record g₁ { check = true }

-- The loop from an index on: the list is the rest of the table. A gone entry is overwritten by the
-- last one, and the index goes on behind that.
unfoldable pub prune_loop : ℕ → List Entry → Dir → List Entry × Dir
unfolding unsnoc dismiss
prune_loop zero es g = (es, g)
prune_loop (suc f) [] g = ([], g)
prune_loop (suc f) (e ∷ es) g =
    let kept = prune_loop f es g in
    let swapped : List Entry × Dir = elim (unsnoc es) [
      | none ↦ ([], dismiss e g)
      | some (init, l) ↦
          (l ∷ (prune_loop f init (dismiss e g)).0, (prune_loop f init (dismiss e g)).1)
    ] in
    if e.isgone then swapped else (e ∷ kept.0, kept.1)

unfoldable pub prune : Dir → Dir
unfolding prune_loop
prune g = let (es, g₁) = prune_loop (length g.sv) g.sv g in record g₁ { sv = es }

abbrev pub mark_gone : List Entry → List Entry
mark_gone [] = []
mark_gone (e ∷ es) = record e { isgone = true } ∷ mark_gone es

-- `runsvdir`, with what `opendir` and `readdir` give: the names, and whether `errno` is set at the end.
unfoldable pub runsvdir : Fork → Option (List Name × Bool) → Dir → Dir
unfolding prune read_names
runsvdir fork none g = emit (warn "unable to open directory") g
runsvdir fork (some (names, broken)) g =
    let g₁ = read_names fork names (record g { sv = mark_gone g.sv }) in
    if broken
    then (let g₂ = emit (warn "unable to read directory") g₁ in record g₂ { check = true })
    else prune g₁

-- The loop over the table for an ended process: the first entry with its number loses it.
unfoldable pub forget : ℕ → List Entry → Option (List Entry)
forget pid [] = none
forget pid (e ∷ es) =
    let later = forget pid es in
    if pid == e.pid
    then some (record e { pid = 0 } ∷ es)
    else elim later [ none ↦ none | some es₁ ↦ some (e ∷ es₁) ]

unfoldable pub collect : ℕ → Dir → Dir
unfolding forget
collect pid g = elim (forget pid g.sv) [ none ↦ g | some es ↦ record g { sv = es; check = true } ]

-- The list is empty, or it is what `unsnoc` gives.
unfoldable pub View : List Entry → Type 0
View es =
    ((es ≡ []) × (unsnoc es ≡ none))
    ⊎ ((init : List Entry) × (l : Entry) × (es ≡ init ++ (l ∷ [])) × (unsnoc es ≡ some (init, l)))

pub view : (es : List Entry) → View es
unfolding View unsnoc
view [] = inl (refl, refl)
view (e ∷ es) = elim (view es) [
  | inl (n, u) ↦ inr ([], e, ap (λ r. e ∷ r) n, rw u)
  | inr (init, l, p, u) ↦ inr (e ∷ init, l, ap (λ r. e ∷ r) p, rw u)
]

-- How many entries satisfy a test.
abbrev pub count : (Entry → Bool) → List Entry → ℕ
count p [] = 0
count p (e ∷ es) = let rest = count p es in if p e then suc rest else rest

count-append :
    (p : Entry → Bool) (xs ys : List Entry) → count p (xs ++ ys) ≡ count p xs + count p ys
count-append p [] ys = omega arith
count-append p (x ∷ xs) ys = ground (arith, count-append p xs ys)

-- One step at a gone entry.
pub prune_loop-last :
    (f : ℕ) (e : Entry) (g : Dir)
    → e.isgone ≡ true
    → (es : List Entry) → unsnoc es ≡ none
    → (prune_loop (suc f) (e ∷ es) g).0 ≡ []
unfolding prune_loop
prune_loop-last f e g y es u = rw y (rw u)

pub prune_loop-swap :
    (f : ℕ) (e l : Entry) (es init : List Entry) (g : Dir)
    → e.isgone ≡ true
    → unsnoc es ≡ some (init, l)
    → (prune_loop (suc f) (e ∷ es) g).0 ≡ l ∷ (prune_loop f init (dismiss e g)).0
unfolding prune_loop
prune_loop-swap f e l es init g y u = rw y (rw u)

pub prune_loop-keep :
    (f : ℕ) (e : Entry) (es : List Entry) (g : Dir)
    → e.isgone ≡ false
    → (prune_loop (suc f) (e ∷ es) g).0 ≡ e ∷ (prune_loop f es g).0
unfolding prune_loop
prune_loop-keep f e es g n = rw n

swap_counts :
    (p : Entry → Bool) (e l : Entry) (init kept : List Entry)
    → p e ≡ false
    → count p kept ≡ count p init
    → count p (l ∷ kept) ≡ count p (e ∷ (init ++ (l ∷ [])))
swap_counts p e l init kept n k = ground (arith, count-append p init (l ∷ []))

keep_counts :
    (p : Entry → Bool) (e : Entry) (kept es : List Entry)
    → count p kept ≡ count p es
    → count p (e ∷ kept) ≡ count p (e ∷ es)
keep_counts p e kept es k = ground arith

unsnoc-snoc : (init : List Entry) (l : Entry) → unsnoc (init ++ (l ∷ [])) ≡ some (init, l)
unfolding unsnoc
unsnoc-snoc [] l = refl
unsnoc-snoc (e ∷ init) l = rw (unsnoc-snoc init l)

-- A test that no gone entry satisfies counts the same after the loop.
prune_loop_counts :
    (p : Entry → Bool)
    → ((e : Entry) → e.isgone ≡ true → p e ≡ false)
    → (f : ℕ) (es : List Entry) (g : Dir) → count p (prune_loop f es g).0 ≡ count p es
unfolding prune_loop View
prune_loop_counts p h zero es g = refl
prune_loop_counts p h (suc f) [] g = refl
prune_loop_counts p h (suc f) (e ∷ es) g = elim (Bool-cases e.isgone) [
  | inl y ↦ elim (view es) [
    | inl (n, u) ↦ ap (count p) (prune_loop-last f e g y es u) ∙ (rw n (ground (arith, h e y)))
    | inr (init, l, q, u) ↦
        ap (count p) (prune_loop-swap f e l es init g y u)
        ∙ swap_counts p e l init (prune_loop f init (dismiss e g)).0 (h e y)
            (prune_loop_counts p h f init (dismiss e g))
        ∙ ap (λ r. count p (e ∷ r)) (sym q)
  ]
  | inr n ↦
      ap (count p) (prune_loop-keep f e es g n)
      ∙ keep_counts p e (prune_loop f es g).0 es (prune_loop_counts p h f es g)
]

-- Taking the gone services out of the table takes out no other: for every test of entries that none
-- of the gone ones satisfies, as many entries satisfy it after the loop as before.
pub prune_counts :
    (p : Entry → Bool) (g : Dir)
    → ((e : Entry) → e.isgone ≡ true → p e ≡ false)
    → count p (prune g).sv ≡ count p g.sv
unfolding prune
prune_counts p g h = prune_loop_counts p h (length g.sv) g.sv g

-- The loop keeps the entries in front of the first gone one, and goes on behind the one that takes its
-- place.
prune_loop_skips :
    (pre : List Entry) (e l : Entry) (init : List Entry) (g : Dir)
    → All (λ (k : Entry). k.isgone ≡ false) pre
    → e.isgone ≡ true
    → (let es = pre ++ (e ∷ (init ++ (l ∷ []))) in
        (prune_loop (length es) es g).0
        ≡ pre ++ (l ∷ (prune_loop (length (init ++ (l ∷ []))) init (dismiss e g)).0))
prune_loop_skips [] e l init g h y =
    prune_loop-swap (length (init ++ (l ∷ []))) e l (init ++ (l ∷ [])) init g y (unsnoc-snoc init l)
prune_loop_skips (k ∷ pre) e l init g h y =
    let es = pre ++ (e ∷ (init ++ (l ∷ []))) in
    prune_loop-keep (length es) k es g h.0 ∙ ap (λ r. k ∷ r) (prune_loop_skips pre e l init g h.1 y)

-- Of the first gone entry of the table, which is not its last one: the last entry takes its place and
-- is not looked at, so that it stays in the table, behind the entries in front, even if it is gone
-- too.
pub prune_skips :
    (pre : List Entry) (e l : Entry) (init : List Entry) (g : Dir)
    → All (λ (k : Entry). k.isgone ≡ false) pre
    → e.isgone ≡ true
    → g.sv ≡ pre ++ (e ∷ (init ++ (l ∷ [])))
    → (rest : List Entry) × ((prune g).sv ≡ pre ++ (l ∷ rest))
unfolding prune
prune_skips pre e l init g h y q = (
  (prune_loop (length (init ++ (l ∷ []))) init (dismiss e g)).0,
  ap (λ es. (prune_loop (length es) es g).0) q ∙ prune_loop_skips pre e l init g h y,
)
