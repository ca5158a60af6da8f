-- ===== src/Svlogd/Equations.antt =====
-- utils/svlogd.c: `rmoldest` counted, and `rotate` without a processor as equations.

use mathlib.Core.Path.{subst}
use runit.Base.{
  ℕ, suc, ◌+◌, ◌≡◌, ◌≤◌, ◌<◌, inl, inr, Bool, true, false, List, [], ◌∷◌, ◌++◌, ◌==◌, ◌&&◌, ltb,
  get_or, arith, refl, Bool-cases,
}
use runit.Svlogd.Write.{make_room}
use runit.Svlogd.Files.{
  is_log, is_leftover, is_counted, no_file, oldest, count_files, rm_leftovers, rm_over, rmoldest,
  processorstart, processorstop, set_trotate, save_current, new_name, rotate,
}
use runit.Svlogd.Defs.{File, Logdir, Os, Glob, tick}
use runit.Svlogd.Oldest.{HasName, oldest_exists, unlink_fewer}

-- Every file can be unlinked.
abbrev pub CanUnlink : Os → Type 0
CanUnlink os = (name : List ℕ) (t : ℕ) → os.unlinks name t ≡ true

pub rm_leftovers_at_most :
    (os : Os) (t : ℕ) (fs : List File)
    → count_files is_counted (rm_leftovers os t fs) ≤ count_files is_counted fs
unfolding count_files rm_leftovers
rm_leftovers_at_most os t [] = ground arith
rm_leftovers_at_most os t (f ∷ fs) =
    let ih = rm_leftovers_at_most os t fs in
    elim (Bool-cases (is_log f.name && (is_leftover f.name && os.unlinks f.name t))) [
      | inl y ↦ rw y (ground arith)
      | inr n ↦ rw n (ground arith)
    ]

pub found_at :
    (test : List ℕ → Bool) (o : List ℕ) (fs : List File) → HasName test o fs → test o ≡ true
found_at test o [] m = absurd m
found_at test o (f ∷ fs) (inl (t, e)) = subst (λ x. test x ≡ true) e t
found_at test o (f ∷ fs) (inr m) = found_at test o fs m

pub counted_begins : (a : List ℕ) → is_counted a ≡ true → (get_or a 0 0 == b'@') ≡ true
unfolding is_log
counted_begins a h = ground arith

-- One file too many is one file less.
pub rm_over_bound :
    (os : Os) (t nmax : ℕ) (fs : List File)
    → CanUnlink os
    → 0 < nmax
    → count_files is_counted fs ≤ suc nmax
    → count_files is_counted (rm_over os t nmax fs) ≤ nmax
unfolding rm_over
rm_over_bound os t nmax fs can pos le =
    elim (Bool-cases (ltb 0 nmax && ltb nmax (count_files is_counted fs))) [
      | inl y ↦
          let m = oldest_exists fs (ground arith) in
          let c = found_at is_counted (oldest is_counted no_file fs) fs m in
          let b = counted_begins (oldest is_counted no_file fs) c in
          let u = can (oldest is_counted no_file fs) t in
          let k = unlink_fewer is_counted (oldest is_counted no_file fs) fs m in
          rw (y, b, u) (ground arith)
      | inr n ↦ rw n (ground arith)
    ]

pub count-++ :
    (fs gs : List File)
    → count_files is_counted (fs ++ gs) ≡ count_files is_counted fs + count_files is_counted gs
unfolding count_files
count-++ [] gs = omega arith
count-++ (f ∷ fs) gs = ground (arith, count-++ fs gs)

pub count_one : (f : File) → count_files is_counted (f ∷ []) ≤ 1
unfolding count_files
count_one f = ground arith

pub processorstart_none :
    (os : Os) (ld : Logdir) (g : Glob) → ld.processor ≡ [] → processorstart os ld g ≡ (ld, g)
unfolding processorstart
processorstart_none os ld g h = rw h refl

-- The directory with `current` saved and a new one.
abbrev pub saved : Logdir → Logdir
saved ld = record ld {
  files = ld.files ++ (record { name = ld.fnsave; content = ld.current } ∷ []);
  current = [];
  size = 0;
}

pub save_current_due :
    (os : Os) (ld : Logdir) (g : Glob)
    → ltb 0 ld.size ≡ true
    → ld.processor ≡ []
    → save_current os ld g ≡ (rmoldest os g.calls (saved ld), tick g)
unfolding save_current rmoldest
save_current_due os ld g h p =
    rw h (processorstart_none os (rmoldest os g.calls (saved ld)) (tick g) p)

pub save_current_none :
    (os : Os) (ld : Logdir) (g : Glob) → ltb 0 ld.size ≡ false → save_current os ld g ≡ (ld, g)
unfolding save_current
save_current_none os ld g h = rw h refl

pub rmoldest-size : (os : Os) (t : ℕ) (ld : Logdir) → (rmoldest os t ld).size ≡ ld.size
unfolding rmoldest
rmoldest-size os t ld = refl

pub processorstop_idle :
    (os : Os) (ld : Logdir) (g : Glob) → ld.ppid ≡ 0 → processorstop os ld g ≡ (ld, g)
unfolding processorstop
processorstop_idle os ld g h = rw h refl

-- The directory with the new name, and its next time of rotation.
abbrev pub renamed : Os → Logdir → Glob → Logdir × Glob
renamed os ld g =
    let now = os.free_stamp g.calls in
    set_trotate now (record ld { fnsave = new_name now ld.processor }) (tick g)

pub rotate_idle :
    (os : Os) (ld : Logdir) (g : Glob)
    → ld.is_open ≡ true
    → ld.ppid ≡ 0
    → rotate os ld g ≡ save_current os (renamed os ld g).0 (renamed os ld g).1
unfolding rotate
rotate_idle os ld g h i = rw (processorstop_idle os ld g i, h) refl

pub make_room-size : (os : Os) (t : ℕ) (ld : Logdir) → (make_room os t ld).size ≡ ld.size
unfolding make_room
make_room-size os t ld = ground arith
