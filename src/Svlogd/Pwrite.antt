-- ===== src/Svlogd/Pwrite.antt =====
-- utils/svlogd.c: what `buffer_pwrite` promises.
use runit.Svlogd.Equations.{CanUnlink, make_room-size}
use runit.Base.{
  ℕ, zero, suc, ◌+◌, ◌-◌, ◌^◌, ◌%◌, ◌≡◌, ◌≤◌, ◌<◌, inl, inr, false, List, [], ◌∷◌, ◌++◌, some, ◌==◌,
  ◌&&◌, not, leb, length, get_or, take, min, arith, refl, Bool-cases, ◌∙◌, length-append,
}
use runit.Svlogd.Defs.{Logdir, Answer, full, failed, took, Os, Glob}
use runit.Svlogd.Files.{rotate}
use runit.Svlogd.Tidy.{IsTidy, rotate-IsTidy, make_room-IsTidy, with_current}
use runit.Svlogd.Write.{make_room, write_loop, fit, line_ends, wrote, after_write, buffer_pwrite}

-- At least one answer says that the system took at least one byte, and none that it took nothing.
abbrev pub Takes : List Answer → Type 0
Takes [] = ⊥
Takes (took i ∷ rest) = 0 < i
Takes (_ ∷ rest) = Takes rest

-- The directory is tidy, and `current` is not longer than the limit.
abbrev pub Fits : ℕ → ℕ → Logdir → Type 0
Fits n m ld = IsTidy n m ld × (ld.size ≤ m)

length-take_at_most : (i : ℕ) (s : List ℕ) → length (take i s) ≤ i
length-take_at_most zero s = omega arith
length-take_at_most (suc i) [] = omega arith
length-take_at_most (suc i) (x ∷ s) = omega (arith, length-take_at_most i s)

-- A call whose two parts are known.
buffer_pwrite_runs :
    (os : Os) (linemax : ℕ) (answers : List Answer) (s : List ℕ) (ld : Logdir) (g : Glob)
    {rest : List Answer} {ld₁ ld₂ : Logdir} {g₁ : Glob} {len i : ℕ}
    → fit os (length s) ld g ≡ (len, ld₁, g₁)
    → write_loop os answers g₁.calls len ld₁ ≡ some (i, ld₂, rest)
    → buffer_pwrite os linemax answers s ld g
      ≡ some
          (i, (wrote os linemax (take i s) ld₂ g₁).0, (wrote os linemax (take i s) ld₂ g₁).1, rest)
unfolding buffer_pwrite after_write
buffer_pwrite_runs os linemax answers s ld g e₁ e₂ = rw (e₁, e₂) refl

module _ {n m : ℕ} where
  -- What is written is not empty, and fits.
  fit_lem :
      (os : Os) (len : ℕ) (ld : Logdir) (g : Glob)
      → CanUnlink os
      → Fits n m ld
      → 0 < len
      → (x : ℕ) × (ld' : Logdir) × (g' : Glob) × (fit os len ld g ≡ (x, ld', g'))
        × IsTidy n m ld'
        × (0 < x)
        × (x ≤ len)
        × (ld'.size + x ≤ m)
  unfolding fit
  fit_lem os len ld g can (h, le) p =
      let sm = h.has_sizemax in
      let hm = h.has_max in
      let z : (ld.sizemax == 0) ≡ false = ground arith in
      elim (Bool-cases (leb ld.sizemax ld.size)) [
        | inl y ↦
            let (t, e) = rotate-IsTidy os ld g can h in
            let ld' = (rotate os ld g).0 in
            let tm = t.has_sizemax in
            (
              min len (ld'.sizemax - ld'.size),
              ld',
              (rotate os ld g).1,
              rw (y, z) refl,
              t,
              omega arith,
              omega arith,
              omega arith,
            )
        | inr q ↦ (
          min len (ld.sizemax - ld.size),
          ld,
          g,
          rw (q, z) refl,
          h,
          ground arith,
          omega arith,
          ground arith,
        )
      ]

  write_loop_lem :
      (os : Os) (answers : List Answer) (t len : ℕ) (ld : Logdir)
      → Takes answers
      → IsTidy n m ld
      → 0 < len
      → (i : ℕ) × (ld' : Logdir) × (rest : List Answer) × (write_loop os answers t len ld
          ≡ some (i, ld', rest))
        × IsTidy n m ld'
        × (0 < i)
        × (i ≤ len)
        × (ld'.size ≡ ld.size)
  unfolding write_loop
  write_loop_lem os [] t len ld ans h p = absurd ans
  write_loop_lem os (took i ∷ rest) t len ld ans h p =
      (min i len, ld, rest, refl, h, omega arith, omega arith, refl)
  write_loop_lem os (failed ∷ rest) t len ld ans h p = write_loop_lem os rest (t + 1) len ld ans h p
  write_loop_lem os (full ∷ rest) t len ld ans h p =
      let (i, ld', left, e, h', pos, le, s) =
        write_loop_lem os rest (t + 1) len (make_room os t ld) ans (make_room-IsTidy os t ld h) p in
      (i, ld', left, e, h', pos, le, s ∙ make_room-size os t ld)

  line_ends_lem :
      (os : Os) (linemax : ℕ) (written : List ℕ) (ld : Logdir) (g : Glob)
      → CanUnlink os
      → Fits n m ld
      → Fits n m (line_ends os linemax written ld g).0
  unfolding line_ends
  line_ends_lem os linemax written ld g can (h, le) =
      elim (Bool-cases (
        not (ld.sizemax == 0)
        && ((get_or written (length written - 1) 0 == b'\n')
            && leb ((ld.sizemax + 2 ^ 64 - linemax) % 2 ^ 64) ld.size))) [
              | inl y ↦ rw y (let (t, e) = rotate-IsTidy os ld g can h in (t, omega arith))
              | inr q ↦ rw q (h, le)
            ]

  wrote_lem :
      (os : Os) (linemax : ℕ) (written : List ℕ) (ld : Logdir) (g : Glob)
      → CanUnlink os
      → IsTidy n m ld
      → ld.size + length written ≤ m
      → Fits n m (wrote os linemax written ld g).0
  unfolding wrote
  wrote_lem os linemax written ld g can h le =
      line_ends_lem os linemax written
        (record ld { size = ld.size + length written; current = ld.current ++ written }) g can
        (
          with_current h
              (let a = length-append ld.current written in let s = h.sized in omega arith),
          le,
        )

-- A directory is open, has no processor, its limits are `n` old files and `m` bytes, both not 0, and
-- its files are within them. A text that is not empty is written. The system can unlink every file
-- and takes some bytes after any number of errors, also errors of a full disk. Then the call returns,
-- has written at least one byte and no more than the text has, and the directory is within the same
-- limits again, with the recorded size that of `current`.
pub buffer_pwrite-Fits :
    (n m : ℕ) (os : Os) (linemax : ℕ) (answers : List Answer) (s : List ℕ) (ld : Logdir) (g : Glob)
    → CanUnlink os
    → Fits n m ld
    → Takes answers
    → 0 < length s
    → (i : ℕ) × (ld' : Logdir) × (g' : Glob) × (rest : List Answer) × (buffer_pwrite os linemax
          answers s ld g
        ≡ some (i, ld', g', rest))
      × Fits n m ld'
      × (0 < i)
      × (i ≤ length s)
buffer_pwrite-Fits n m os linemax answers s ld g can h ans p =
    let (len, ld₁, g₁, e₁, h₁, pos, le, room) = fit_lem os (length s) ld g can h p in
    let (i, ld₂, rest, e₂, h₂, ipos, ile, same_size) =
      write_loop_lem os answers g₁.calls len ld₁ ans h₁ pos in
    let k = length-take_at_most i s in
    let w = wrote os linemax (take i s) ld₂ g₁ in
    (
      i,
      w.0,
      w.1,
      rest,
      buffer_pwrite_runs os linemax answers s ld g e₁ e₂,
      wrote_lem os linemax (take i s) ld₂ g₁ can h₂ (omega arith),
      ipos,
      omega arith,
    )
