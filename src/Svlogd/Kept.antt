-- ===== src/Svlogd/Kept.antt =====
-- utils/svlogd.c: which files go, and that rotation loses nothing where no file goes.
use runit.Base.{
  ℕ, ◌≡◌, ◌<◌, ◌⊎◌, inl, inr, true, false, List, [], ◌∷◌, ◌++◌, ◌==◌, ◌&&◌, ltb, length, get_or,
  arith, refl, Bool-cases, sym, ◌∙◌, ap, All, All-append, append_assoc, append-nil,
}
use runit.Time.Taia.{Taia, taia_less, taia_pack}
use runit.Time.Label.{fmt_taia}
use runit.Svlogd.Defs.{File, Logdir, Os, Glob}
use runit.Svlogd.Files.{
  is_log, is_leftover, is_counted, no_file, oldest, count_files, unlink, rm_leftovers, rm_over,
  rmoldest, set_trotate, save_current, new_name, rotate,
}
use runit.Svlogd.Oldest.{HasName, NoneBefore, oldest_exists, oldest-NoneBefore}
use runit.Svlogd.Equations.{saved, save_current_due, save_current_none, renamed, rotate_idle}

-- The second part of `rmoldest` leaves all files, or there are more than the limit, which is not 0, and
-- the name is taken out of a log file that is not a processor's output and before which no such file comes.
pub rm_over_oldest :
    (os : Os) (t nmax : ℕ) (fs : List File)
    → (rm_over os t nmax fs ≡ fs)
      ⊎ ((o : List ℕ) × (rm_over os t nmax fs ≡ unlink o fs)
          × HasName is_counted o fs
          × NoneBefore is_counted o fs
          × (0 < nmax)
          × (nmax < count_files is_counted fs))
unfolding rm_over
rm_over_oldest os t nmax fs =
    let o = oldest is_counted no_file fs in
    elim (Bool-cases (ltb 0 nmax && ltb nmax (count_files is_counted fs))) [
      | inl y ↦ elim (Bool-cases ((get_or o 0 0 == b'@') && os.unlinks o t)) [
        | inl u ↦
            rw (y, u)
              (inr (
                o,
                refl,
                oldest_exists fs (ground arith),
                oldest-NoneBefore is_counted no_file fs,
                ground arith,
                ground arith,
              ))
        | inr u ↦ rw (y, u) (inl refl)
      ]
      | inr q ↦ rw q (inl refl)
    ]

-- All that the files hold, in the order of the directory.
abbrev pub contents : List File → List ℕ
contents [] = []
contents (f ∷ fs) = f.content ++ contents fs

-- All that a directory holds.
abbrev pub text : Logdir → List ℕ
text ld = contents ld.files ++ ld.current

-- An open directory without a limit of files, without a processor and without leftovers of one.
pub record IsWhole (ld : Logdir) : Type 0 where
  pub opened : ld.is_open ≡ true
  pub unprocessed : ld.processor ≡ []
  pub idle : ld.ppid ≡ 0
  pub unlimited : ld.nmax ≡ 0
  pub clean : All (λ (f : File). is_leftover f.name ≡ false) ld.files
  pub sized : ld.size ≡ length ld.current

empty_of : (l : List ℕ) → length l ≡ 0 → l ≡ []
empty_of [] h = refl
empty_of (x ∷ l) h = absurd (omega arith)

IsWhole-but :
    {ld : Logdir} {name : List ℕ} {t : Taia}
    → IsWhole ld
    → IsWhole (record ld { fnsave = name; trotate = t })
IsWhole-but h = record {
  opened = h.opened;
  unprocessed = h.unprocessed;
  idle = h.idle;
  unlimited = h.unlimited;
  clean = h.clean;
  sized = h.sized;
}

contents-append : (fs gs : List File) → contents (fs ++ gs) ≡ contents fs ++ contents gs
contents-append [] gs = refl
contents-append (f ∷ fs) gs =
    ap (λ x. f.content ++ x) (contents-append fs gs)
    ∙ sym (append_assoc f.content (contents fs) (contents gs))

rm_leftovers_none :
    (os : Os) (t : ℕ) (fs : List File)
    → All (λ (f : File). is_leftover f.name ≡ false) fs
    → rm_leftovers os t fs ≡ fs
unfolding rm_leftovers
rm_leftovers_none os t [] h = refl
rm_leftovers_none os t (f ∷ fs) (h, hs) = elim (Bool-cases (is_log f.name)) [
  | inl l ↦ rw (l, h, rm_leftovers_none os t fs hs) refl
  | inr l ↦ rw (l, rm_leftovers_none os t fs hs) refl
]

rmoldest_whole :
    (os : Os) (t : ℕ) (ld : Logdir)
    → ld.nmax ≡ 0
    → All (λ (f : File). is_leftover f.name ≡ false) ld.files
    → rmoldest os t ld ≡ ld
unfolding rmoldest rm_over
rmoldest_whole os t ld n h = rw (n, rm_leftovers_none os t ld.files h) refl

new_name_kept : (t : Taia) (p : List ℕ) → p ≡ [] → is_leftover (new_name t p) ≡ false
unfolding is_leftover fmt_taia taia_pack
new_name_kept t p e = rw e refl

text-saved : (ld : Logdir) → text (saved ld) ≡ text ld
text-saved ld =
    let one : List File = record { name = ld.fnsave; content = ld.current } ∷ [] in
    append-nil (contents (ld.files ++ one))
    ∙ contents-append ld.files one
    ∙ ap (λ x. contents ld.files ++ x) (append-nil ld.current)

-- Nothing but the name for the file and the time of rotation is new.
renamed-IsWhole :
    (os : Os) (ld : Logdir) (g : Glob)
    → IsWhole ld
    → IsWhole (renamed os ld g).0
      × (text (renamed os ld g).0 ≡ text ld)
      × (is_leftover (renamed os ld g).0.fnsave ≡ false)
unfolding set_trotate
renamed-IsWhole os ld g h =
    let now = os.free_stamp g.calls in
    let k = new_name_kept now ld.processor h.unprocessed in
    elim (Bool-cases (ltb 0 ld.tmax && taia_less ld.trotate now)) [
      | inl y ↦ rw y (IsWhole-but h, refl, k)
      | inr q ↦ rw q (IsWhole-but h, refl, k)
    ]

save_current-IsWhole :
    (os : Os) (ld : Logdir) (g : Glob)
    → IsWhole ld
    → is_leftover ld.fnsave ≡ false
    → IsWhole (save_current os ld g).0
      × (text (save_current os ld g).0 ≡ text ld)
      × ((save_current os ld g).0.current ≡ [])
save_current-IsWhole os ld g h k = elim (Bool-cases (ltb 0 ld.size)) [
  | inl y ↦
      let one : List File = record { name = ld.fnsave; content = ld.current } ∷ [] in
      let c = All-append (λ (f : File). is_leftover f.name ≡ false) ld.files one h.clean (k, tt) in
      rw
        (
          save_current_due os ld g y h.unprocessed,
          rmoldest_whole os g.calls (saved ld) h.unlimited c,
        )
        (
          record {
            opened = h.opened;
            unprocessed = h.unprocessed;
            idle = h.idle;
            unlimited = h.unlimited;
            clean = c;
            sized = refl;
          },
          text-saved ld,
          refl,
        )
  | inr q ↦
      let z = h.sized in
      rw (save_current_none os ld g q) (h, refl, empty_of ld.current (ground arith))
]

-- `rotate` on a directory that is open, has no processor, no limit of files (`n0`) and no leftover of
-- a processor loses nothing: what the files hold together with `current` is the same as before, in
-- the same order, `current` is empty if it was not, and the directory is such a one again.
pub rotate-IsWhole :
    (os : Os) (ld : Logdir) (g : Glob)
    → IsWhole ld
    → IsWhole (rotate os ld g).0
      × (text (rotate os ld g).0 ≡ text ld)
      × ((rotate os ld g).0.current ≡ [])
rotate-IsWhole os ld g h =
    let (w, e, k) = renamed-IsWhole os ld g h in
    let (w', e', c) = save_current-IsWhole os (renamed os ld g).0 (renamed os ld g).1 w k in
    rw (rotate_idle os ld g h.opened h.idle) (w', e' ∙ e, c)
