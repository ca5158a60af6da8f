-- ===== src/Svlogd/Open.antt =====
-- utils/svlogd.c: `logdir_close`, `logdir_open`, and the times in `buffer_pread`.
use runit.Base.{
  ℕ, Bool, true, false, List, [], ◌∷◌, ◌++◌, if◌then◌else◌, ◌==◌, ◌&&◌, ◌||◌, not, ltb, length,
}
use runit.Time.Taia.{Taia, taia_less}
use runit.Time.Label.{fmt_taia}
use runit.Svlogd.Defs.{File, Logdir, Os, Glob}
use runit.Svlogd.Files.{rmoldest, rotate}
use runit.Svlogd.Config.{Conf, reset, read_config}

-- What `openreadclose` gives for `config`, with the bytes that `sa` holds behind an error.
pub data ConfigFile : Type 0 where
  missing : ConfigFile
  unreadable readable : List ℕ → ConfigFile

-- What `stat` says of `current`, and whether it is executable.
pub data Stat : Type 0 where
  absent fails : Stat
  present : Bool → Stat

-- What the system answers: the directory is opened, entered and locked, and the rest.
pub record Opening : Type 0 where
  pub opens : Bool
  pub enters : Bool
  pub locks : Bool
  pub config : ConfigFile
  pub current : Stat

-- Whether the file `current` is open, without which the function returns early; the lock is open then
-- too.
unfoldable pub logdir_close : Bool → Logdir → Logdir
logdir_close has_current ld =
    if ld.is_open
    then if has_current
      then record ld { is_open = false; processor = [] }
      else record ld { is_open = false }
    else ld

-- The part on `config`.
unfoldable pub configure : Taia → ConfigFile → Conf → Conf
configure now missing conf = record conf { dir = reset conf.dir }
configure now (unreadable sa) conf = read_config now sa conf
configure now (readable sa) conf = read_config now sa conf

-- The part on `current`: one that holds bytes and was not closed in order is renamed, for the
-- processor; `t` is the number of calls of the system before.
unfoldable pub open_current : Os → ℕ → Stat → Logdir → Bool × Logdir
open_current os t fails ld = (false, logdir_close false ld)
open_current os t absent ld = (true, record ld { current = [] })
open_current os t (present executable) ld =
    let name = fmt_taia (os.free_stamp t) ++ (b'.' ∷ b'u' ∷ []) in
    let old : File = record { name = name; content = ld.current } in
    if not (length ld.current == 0) && not executable
    then (
      true,
      rmoldest os t (record ld { fnsave = name; files = ld.files ++ (old ∷ []); current = [] }),
    )
    else (true, record ld { size = length ld.current })

unfoldable pub logdir_open : Os → ℕ → Taia → Opening → Conf → Bool × Conf
logdir_open os t now answers conf =
    let opened : Conf = record conf { dir = record conf.dir { is_open = true } } in
    let closed : Conf = record conf { dir = logdir_close false opened.dir } in
    let conf' = configure now answers.config opened in
    let (ok, ld) = open_current os t answers.current conf'.dir in
    if not answers.opens
    then (false, record conf { dir = record conf.dir { is_open = false } })
    else if not answers.enters || not answers.locks
    then (false, closed)
    else (ok, record conf' { dir = ld })

-- The loop over the directories in `buffer_pread`: those whose time has come are rotated, and the
-- global `trotate`, before which it waits for input, is the first of the times.
unfoldable pub rotate_due : Os → Taia → List Logdir → Glob → List Logdir × Glob
rotate_due os now [] g = ([], g)
rotate_due os now (ld ∷ rest) g =
    let (ld₁, g₁) = if taia_less ld.trotate now then rotate os ld g else (ld, g) in
    let g₂ : Glob =
      if taia_less ld₁.trotate g₁.next_rotate
      then record g₁ { next_rotate = ld₁.trotate }
      else g₁ in
    let (ld', g') = if ltb 0 ld.tmax then (ld₁, g₂) else (ld, g) in
    let (rest', g'') = rotate_due os now rest g' in (ld' ∷ rest', g'')
