-- ===== src/Svlogd/Write.antt =====
-- utils/svlogd.c: `buffer_pwrite`, through which the log directories' buffers are written.
use runit.Base.{
  ℕ, ◌+◌, ◌-◌, ◌^◌, ◌%◌, List, [], ◌∷◌, ◌++◌, Option, none, some, if◌then◌else◌, ◌==◌, ◌&&◌, not,
  ltb, leb, length, get_or, take, min,
}
use runit.Svlogd.Defs.{Logdir, Answer, full, failed, took, Os, Glob}
use runit.Svlogd.Files.{is_log, no_file, oldest, count_files, unlink, rotate}

-- The block for ENOSPC: the oldest file goes, if there are more than `nmin`.
unfoldable pub make_room : Os → ℕ → Logdir → Logdir
make_room os t ld =
    let o = oldest is_log no_file ld.files in
    if ltb ld.nmin ld.nmax
      && (ltb ld.nmin (count_files is_log ld.files) && ((get_or o 0 0 == b'@') && os.unlinks o t))
    then record ld { files = unlink o ld.files }
    else ld

-- `while ((i =write(…)) == -1)`: how much was written, and the answers left; nothing as long as there
-- is no further answer.
unfoldable pub write_loop : Os → List Answer → ℕ → ℕ → Logdir → Option (ℕ × Logdir × List Answer)
write_loop os [] t len ld = none
write_loop os (took i ∷ rest) t len ld = some (min i len, ld, rest)
write_loop os (failed ∷ rest) t len ld = write_loop os rest (t + 1) len ld
write_loop os (full ∷ rest) t len ld = write_loop os rest (t + 1) len (make_room os t ld)

-- The first `if`: a full file is rotated, and `len` is cut to what fits.
unfoldable pub fit : Os → ℕ → Logdir → Glob → ℕ × Logdir × Glob
fit os len ld g =
    let (ld₁, g₁) = if leb ld.sizemax ld.size then rotate os ld g else (ld, g) in
    if ld.sizemax == 0 then (len, ld, g) else (min len (ld₁.sizemax - ld₁.size), ld₁, g₁)

-- The last `if`: at the end of a line, a file that is nearly full is rotated. The difference is of two
-- numbers without sign, of 64 bits.
unfoldable pub line_ends : Os → ℕ → List ℕ → Logdir → Glob → Logdir × Glob
line_ends os linemax written ld g =
    if not (ld.sizemax == 0)
      && ((get_or written (length written - 1) 0 == b'\n')
          && leb ((ld.sizemax + 2 ^ 64 - linemax) % 2 ^ 64) ld.size)
    then rotate os ld g
    else (ld, g)

-- What was written is counted, and stands in `current`.
unfoldable pub wrote : Os → ℕ → List ℕ → Logdir → Glob → Logdir × Glob
wrote os linemax written ld g =
    line_ends os linemax written
      (record ld { size = ld.size + length written; current = ld.current ++ written }) g

-- What follows the loop, and what is returned.
unfoldable pub after_write :
    Os
    → ℕ
    → List ℕ
    → Glob
    → Option (ℕ × Logdir × List Answer)
    → Option (ℕ × Logdir × Glob × List Answer)
after_write os linemax s g none = none
after_write os linemax s g (some (i, ld, rest)) =
    let (ld₁, g₁) = wrote os linemax (take i s) ld g in some (i, ld₁, g₁, rest)

-- The number of bytes written, the directory, and the answers left.
unfoldable pub buffer_pwrite :
    Os → ℕ → List Answer → List ℕ → Logdir → Glob → Option (ℕ × Logdir × Glob × List Answer)
buffer_pwrite os linemax answers s ld g =
    let (len, ld₁, g₁) = fit os (length s) ld g in
    after_write os linemax s g₁ (write_loop os answers g₁.calls len ld₁)
