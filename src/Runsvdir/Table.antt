-- ===== src/Runsvdir/Table.antt =====
-- runsvdir/runsvdir.c: the keys and the length of the table, while the directory is read.
use runit.Base.{
  ℕ, ◌≡◌, ◌≤◌, Bool, true, false, List, [], ◌∷◌, ◌++◌, Option, none, some, if◌then◌else◌, ◌==◌,
  ◌&&◌, leb, length, All, arith, map, refl, inl, inr, Bool-cases, length-append, ap, All-append,
  map-append, suc,
}
use runit.Runsvdir.Defs.{Entry, Stat, failed, found, Name, Dir, Fork, max_services, emit, warn}
use runit.Runsvdir.Scan.{is_same, runsv, refresh, find, add, visit, read_name, read_names}

-- The inode and the device of a service's directory.
abbrev pub key : Entry → ℕ × ℕ
key e = (e.ino, e.dev)

abbrev pub same_key : ℕ × ℕ → ℕ × ℕ → Bool
same_key (i, d) (j, e) = (i == j) && (d == e)

abbrev pub Absent : ℕ × ℕ → List (ℕ × ℕ) → Type 0
Absent k ks = All (λ j. same_key j k ≡ false) ks

abbrev pub Distinct : List (ℕ × ℕ) → Type 0
Distinct [] = Unit
Distinct (k ∷ ks) = Absent k ks × Distinct ks

-- No two entries are of one directory, and they are not too many.
pub record IsTable (g : Dir) : Type 0 where
  pub fits : length g.sv ≤ max_services
  pub distinct : Distinct (map key g.sv)

-- What the first loop finds in a table with these keys.
abbrev Finds : ℕ × ℕ → Option (List Entry × Dir) → List (ℕ × ℕ) → Type 0
Finds k none ks = Absent k ks
Finds k (some (es, g)) ks = map key es ≡ ks

Finds-cons :
    (k : ℕ × ℕ) (e : Entry) (later : Option (List Entry × Dir)) (ks : List (ℕ × ℕ))
    → same_key (key e) k ≡ false
    → Finds k later ks
    → Finds k (elim later [ none ↦ none | some (es, g) ↦ some (e ∷ es, g) ]) (key e ∷ ks)
Finds-cons k e none ks n h = (n, h)
Finds-cons k e (some (es, g)) ks n h = ap (λ l. key e ∷ l) h

key-refresh : (fork : Fork) (e : Entry) (g : Dir) → key (refresh fork e g).0 ≡ key e
unfolding refresh
key-refresh fork e g = ground arith

find-Finds :
    (fork : Fork) (dev ino : ℕ) (es : List Entry) (g : Dir)
    → Finds (ino, dev) (find fork dev ino es g) (map key es)
unfolding find
find-Finds fork dev ino [] g = tt
find-Finds fork dev ino (e ∷ es) g = elim (Bool-cases (is_same dev ino e)) [
  | inl y ↦ rw y (ap (λ k. k ∷ map key es) (key-refresh fork e g))
  | inr n ↦ rw n (
      Finds-cons (ino, dev) e (find fork dev ino es g) (map key es) n
        (find-Finds fork dev ino es g))
]

pub same_key_sym : (j k : ℕ × ℕ) → same_key j k ≡ false → same_key k j ≡ false
same_key_sym j k h = ground arith

Distinct-append :
    (k : ℕ × ℕ) (ks : List (ℕ × ℕ)) → Absent k ks → Distinct ks → Distinct (ks ++ (k ∷ []))
Distinct-append k [] a d = (tt, tt)
Distinct-append k (j ∷ ks) a d = (
  All-append (λ i. same_key i j ≡ false) ks (k ∷ []) d.0 (same_key_sym j k a.0, tt),
  Distinct-append k ks a.1 d.1,
)

key-runsv :
    (fork : Fork) (e : Entry) (g : Dir)
    → (key (runsv fork e g).0 ≡ key e) × ((runsv fork e g).1.sv ≡ g.sv)
unfolding runsv
key-runsv fork e g = ground arith

pub length-key : (es : List Entry) → length (map key es) ≡ length es
length-key [] = refl
length-key (e ∷ es) = ap suc (length-key es)

add-IsTable :
    (fork : Fork) (dev ino : ℕ) (g : Dir)
    → Absent (ino, dev) (map key g.sv)
    → IsTable g
    → IsTable (add fork dev ino g)
unfolding add
add-IsTable fork dev ino g a h = elim (Bool-cases (leb max_services (length g.sv))) [
  | inl full ↦ rw full (record { fits = h.fits; distinct = h.distinct })
  | inr room ↦
      let e : Entry = record { dev = dev; ino = ino; pid = 0; isgone = false } in
      let (k, t) = key-runsv fork e g in
      rw room (added (runsv fork e g).0 (runsv fork e g).1 k t room)
]
  where
    added :
        (e : Entry) (g₁ : Dir)
        → key e ≡ (ino, dev)
        → g₁.sv ≡ g.sv
        → leb max_services (length g.sv) ≡ false
        → IsTable (record g₁ { sv = g₁.sv ++ (e ∷ []); check = true })
    added e g₁ k t room = record {
      fits = rw t (ground (arith, length-append g.sv (e ∷ [])));
      distinct = rw (t, map-append, k) (Distinct-append (ino, dev) (map key g.sv) a h.distinct);
    }

visit-IsTable : (fork : Fork) (dev ino : ℕ) (g : Dir) → IsTable g → IsTable (visit fork dev ino g)
unfolding visit
visit-IsTable fork dev ino g h = go (find fork dev ino g.sv g) (find-Finds fork dev ino g.sv g)
  where
    go :
        (o : Option (List Entry × Dir))
        → Finds (ino, dev) o (map key g.sv)
        → IsTable (elim o [ none ↦ add fork dev ino g | some (es, g₁) ↦ record g₁ { sv = es } ])
    go none a = add-IsTable fork dev ino g a h
    go (some (es, g₁)) e = record {
      fits = omega (arith, length-key es, length-key g.sv, ap length e, h.fits);
      distinct = rw e h.distinct;
    }

read_name-IsTable : (fork : Fork) (n : Name) (g : Dir) → IsTable g → IsTable (read_name fork n g)
unfolding read_name
read_name-IsTable fork n g h = elim (Bool-cases n.hidden) [
  | inl y ↦ rw y h
  | inr k ↦ rw k (go n.stat)
]
  where
    go :
        (s : Stat)
        → IsTable (elim s [
          | failed ↦ emit (warn "unable to stat") g
          | found dev ino is_dir ↦ if is_dir then visit fork dev ino g else g
        ])
    go failed = record { fits = h.fits; distinct = h.distinct }
    go (found dev ino true) = visit-IsTable fork dev ino g h
    go (found dev ino false) = h

-- Reading the directory keeps at most one entry for each directory, and at most MAXSERVICES entries,
-- whatever names come, in any order and as often, and whether `fork` succeeds or not.
pub read_names-IsTable :
    (fork : Fork) (ns : List Name) (g : Dir) → IsTable g → IsTable (read_names fork ns g)
unfolding read_names
read_names-IsTable fork [] g h = h
read_names-IsTable fork (n ∷ ns) g h =
    read_names-IsTable fork ns (read_name fork n g) (read_name-IsTable fork n g h)
