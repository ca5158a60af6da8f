-- ===== src/Svlogd/Tidy.antt =====
-- utils/svlogd.c: what `rotate` and `buffer_pwrite` keep of a log directory without a processor.
use runit.Svlogd.Equations.{
  CanUnlink, rm_leftovers_at_most, rm_over_bound, count-++, count_one, saved, save_current_due,
  save_current_none, rmoldest-size, renamed, rotate_idle,
}
use runit.Time.Taia.{Taia, taia_less}
use runit.Base.{
  ℕ, ◌≡◌, ◌≤◌, ◌<◌, inl, inr, true, List, [], ◌∷◌, ◌++◌, ◌==◌, ◌&&◌, ltb, length, get_or, arith,
  refl, Bool-cases,
}
use runit.Svlogd.Write.{make_room}
use runit.Svlogd.Files.{
  is_log, is_counted, no_file, oldest, count_files, rm_leftovers, rmoldest, set_trotate,
  save_current, new_name, rotate,
}
use runit.Svlogd.Defs.{File, Logdir, Os, Glob, tick}
use runit.Svlogd.Oldest.{unlink_at_most}

-- A directory without a processor, whose files are within the limits `n` and `m`.
pub record IsTidy (n m : ℕ) (ld : Logdir) : Type 0 where
  pub has_nmax : ld.nmax ≡ n
  pub has_sizemax : ld.sizemax ≡ m
  pub opened : ld.is_open ≡ true
  pub unprocessed : ld.processor ≡ []
  pub idle : ld.ppid ≡ 0
  pub has_limit : 0 < ld.nmax
  pub within_limit : count_files is_counted ld.files ≤ ld.nmax
  pub has_max : 0 < ld.sizemax
  pub sized : ld.size ≡ length ld.current

module _ {n m : ℕ} where
  -- Fewer files are as good.
  with_files :
      {ld : Logdir} {fs : List File}
      → IsTidy n m ld
      → count_files is_counted fs ≤ ld.nmax
      → IsTidy n m (record ld { files = fs })
  with_files h k = record {
    has_nmax = h.has_nmax;
    has_sizemax = h.has_sizemax;
    opened = h.opened;
    unprocessed = h.unprocessed;
    idle = h.idle;
    has_limit = h.has_limit;
    within_limit = k;
    has_max = h.has_max;
    sized = h.sized;
  }

  rmoldest-IsTidy :
      (os : Os) (t : ℕ) (ld : Logdir)
      → CanUnlink os
      → IsTidy n m ld
      → IsTidy n m (rmoldest os t (saved ld))
  unfolding rmoldest
  rmoldest-IsTidy os t ld can h =
      let one : List File = record { name = ld.fnsave; content = ld.current } ∷ [] in
      let fs = ld.files ++ one in
      let a = count-++ ld.files one in
      let b = count_one (record { name = ld.fnsave; content = ld.current }) in
      let l = rm_leftovers_at_most os t fs in
      record {
        has_nmax = h.has_nmax;
        has_sizemax = h.has_sizemax;
        opened = h.opened;
        unprocessed = h.unprocessed;
        idle = h.idle;
        has_limit = h.has_limit;
        within_limit =
            rm_over_bound os t ld.nmax (rm_leftovers os t fs) can h.has_limit
              (let w = h.within_limit in omega arith);
        has_max = h.has_max;
        sized = refl;
      }

  save_current-IsTidy :
      (os : Os) (ld : Logdir) (g : Glob)
      → CanUnlink os
      → IsTidy n m ld
      → IsTidy n m (save_current os ld g).0 × ((save_current os ld g).0.size ≡ 0)
  save_current-IsTidy os ld g can h = elim (Bool-cases (ltb 0 ld.size)) [
    | inl y ↦
        rw (save_current_due os ld g y h.unprocessed)
          (rmoldest-IsTidy os g.calls ld can h, rmoldest-size os g.calls (saved ld))
    | inr n ↦ rw (save_current_none os ld g n) (h, ground arith)
  ]

  set_trotate-IsTidy :
      (now : Taia) (ld : Logdir) (g : Glob) → IsTidy n m ld → IsTidy n m (set_trotate now ld g).0
  unfolding set_trotate
  set_trotate-IsTidy now ld g h = elim (Bool-cases (ltb 0 ld.tmax && taia_less ld.trotate now)) [
    | inl y ↦ rw y (record {
      has_nmax = h.has_nmax;
      has_sizemax = h.has_sizemax;
      opened = h.opened;
      unprocessed = h.unprocessed;
      idle = h.idle;
      has_limit = h.has_limit;
      within_limit = h.within_limit;
      has_max = h.has_max;
      sized = h.sized;
    })
    | inr n ↦ rw n h
  ]

  with_name :
      {ld : Logdir} (name : List ℕ) → IsTidy n m ld → IsTidy n m (record ld { fnsave = name })
  with_name name h = record {
    has_nmax = h.has_nmax;
    has_sizemax = h.has_sizemax;
    opened = h.opened;
    unprocessed = h.unprocessed;
    idle = h.idle;
    has_limit = h.has_limit;
    within_limit = h.within_limit;
    has_max = h.has_max;
    sized = h.sized;
  }

  pub rotate-IsTidy :
      (os : Os) (ld : Logdir) (g : Glob)
      → CanUnlink os
      → IsTidy n m ld
      → IsTidy n m (rotate os ld g).0 × ((rotate os ld g).0.size ≡ 0)
  rotate-IsTidy os ld g can h =
      let now = os.free_stamp g.calls in
      let name = new_name now ld.processor in
      rw (rotate_idle os ld g h.opened h.idle) (
        save_current-IsTidy os (renamed os ld g).0 (renamed os ld g).1 can
          (set_trotate-IsTidy now (record ld { fnsave = name }) (tick g) (with_name name h)))

  -- More in `current` is as good.
  pub with_current :
      {ld : Logdir} {size : ℕ} {current : List ℕ}
      → IsTidy n m ld
      → size ≡ length current
      → IsTidy n m (record ld { size = size; current = current })
  with_current h e = record {
    has_nmax = h.has_nmax;
    has_sizemax = h.has_sizemax;
    opened = h.opened;
    unprocessed = h.unprocessed;
    idle = h.idle;
    has_limit = h.has_limit;
    within_limit = h.within_limit;
    has_max = h.has_max;
    sized = e;
  }

  pub make_room-IsTidy :
      (os : Os) (t : ℕ) (ld : Logdir) → IsTidy n m ld → IsTidy n m (make_room os t ld)
  unfolding make_room
  make_room-IsTidy os t ld h =
      let o = oldest is_log no_file ld.files in
      let k = unlink_at_most is_counted o ld.files in
      elim (Bool-cases (
        ltb ld.nmin ld.nmax
        && (ltb ld.nmin (count_files is_log ld.files)
            && ((get_or o 0 0 == b'@') && os.unlinks o t)))) [
              | inl y ↦ rw y (with_files h (omega arith))
              | inr n ↦ rw n h
            ]
