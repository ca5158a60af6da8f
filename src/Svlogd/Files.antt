-- ===== src/Svlogd/Files.antt =====
-- utils/svlogd.c: `rmoldest`, the processor, and `rotate`.
use runit.Base.{
  ℕ, suc, ◌+◌, Bool, true, false, List, [], ◌∷◌, ◌++◌, if◌then◌else◌, ◌==◌, ◌&&◌, ◌||◌, not, ltb,
  length, get_or, ℤ, pos, negsuc, take, ◌^◌, ◌%◌,
}
use runit.Time.Taia.{Taia, taia_add, taia_uint, taia_less}
use runit.Time.Label.{fmt_taia}
use runit.Byte.Compare.{lex}
use runit.Svlogd.Defs.{File, Logdir, Os, Glob, tick}

-- `str_diff(a, b) < 0`, for the texts of two strings.
abbrev pub is_negative : ℤ → Bool
is_negative (pos n) = false
is_negative (negsuc n) = true

unfoldable pub is_before : List ℕ → List ℕ → Bool
is_before a b = is_negative (lex a b)

-- `(f->d_name[0] == '@') && (str_len(f->d_name) == 27)`
unfoldable pub is_log : List ℕ → Bool
is_log name = (get_or name 0 0 == b'@') && (length name == 27)

-- `f->d_name[26] == 't'`
unfoldable pub is_leftover : List ℕ → Bool
is_leftover name = get_or name 26 0 == b't'

-- A file that is counted.
abbrev pub is_counted : List ℕ → Bool
is_counted name = is_log name && not (is_leftover name)

abbrev pub no_file : List ℕ
no_file = b'A' ∷ []

-- `oldest` after the loop over the directory, from its value before; `test` says which files count.
unfoldable pub oldest : (List ℕ → Bool) → List ℕ → List File → List ℕ
unfolding is_before
oldest test o [] = o
oldest test o (f ∷ fs) = oldest test (if test f.name && is_before f.name o then f.name else o) fs

unfoldable pub count_files : (List ℕ → Bool) → List File → ℕ
count_files test [] = 0
count_files test (f ∷ fs) = let rest = count_files test fs in if test f.name then suc rest else rest

-- The names are equal.
abbrev pub same : List ℕ → List ℕ → Bool
same [] [] = true
same (a ∷ s) (b ∷ t) = let rest = same s t in if a == b then rest else false
same _ _ = false

-- `unlink(name)`, where it succeeds.
unfoldable pub unlink : List ℕ → List File → List File
unlink name [] = []
unlink name (f ∷ fs) = let rest = unlink name fs in if same f.name name then rest else f ∷ rest

-- The leftovers of a processor, unlinked where that succeeds.
unfoldable pub rm_leftovers : Os → ℕ → List File → List File
rm_leftovers os t [] = []
rm_leftovers os t (f ∷ fs) =
    let rest = rm_leftovers os t fs in
    if is_log f.name && (is_leftover f.name && os.unlinks f.name t) then rest else f ∷ rest

-- `ld->nmax && (n > ld->nmax)`, and the unlinking of the oldest.
unfoldable pub rm_over : Os → ℕ → ℕ → List File → List File
rm_over os t nmax fs =
    let o = oldest is_counted no_file fs in
    if ltb 0 nmax && ltb nmax (count_files is_counted fs)
    then (if (get_or o 0 0 == b'@') && os.unlinks o t then unlink o fs else fs)
    else fs

unfoldable pub rmoldest : Os → ℕ → Logdir → Logdir
rmoldest os t ld = record ld { files = rm_over os t ld.nmax (rm_leftovers os t ld.files) }

-- The name of the file that is being processed, with another last character.
abbrev pub with_kind : List ℕ → ℕ → List ℕ
with_kind name k = take 26 name ++ (k ∷ [])

-- A file that is made empty or created.
abbrev pub create : List ℕ → List File → List File
create name fs = unlink name fs ++ (record { name = name; content = [] } ∷ [])

-- `processorstart`: nothing without a processor or with one that runs. The child creates its output.
unfoldable pub processorstart : Os → Logdir → Glob → Logdir × Glob
processorstart os ld g = if (length ld.processor == 0) || not (ld.ppid == 0) then (ld, g) else (
  record ld { ppid = os.fork_pid g.calls; files = create (with_kind ld.fnsave b't') ld.files },
  tick g,
)

-- The processor's output gets the name of a saved file.
unfoldable pub rename_output : List ℕ → List ℕ → List ℕ → List File → List File
rename_output from to bytes [] = []
rename_output from to bytes (f ∷ fs) =
    let rest = rename_output from to bytes fs in
    if same f.name from then record { name = to; content = bytes } ∷ rest else f ∷ rest

-- `while (! processorstop(ld));`: a failing processor is started again, with its output unlinked
-- before, until it succeeds; then its output is saved, and its input unlinked where that succeeds.
unfoldable pub processorstop : Os → Logdir → Glob → Logdir × Glob
processorstop os ld g =
    let t = g.calls + os.processor_fails g.calls in
    let fs =
      rename_output (with_kind ld.fnsave b't') (with_kind ld.fnsave b's') (os.processed t)
        ld.files in
    let input = with_kind ld.fnsave b'u' in
    if ld.ppid == 0
    then (ld, g)
    else if ld.is_open
    then (
      record ld { ppid = 0; files = if os.unlinks input t then unlink input fs else fs },
      record g { calls = t + 1 },
    )
    else (record ld { ppid = 0 }, tick g)

-- `taia_uint(&ld->trotate, ld->tmax); taia_add(&ld->trotate, &now, &ld->trotate);`, and the same for
-- the global, if the directory's time has come.
unfoldable pub set_trotate : Taia → Logdir → Glob → Logdir × Glob
set_trotate now ld g =
    let next = taia_add now (taia_uint (ld.tmax % 2 ^ 32)) in
    if ltb 0 ld.tmax && taia_less ld.trotate now
    then (
      record ld { trotate = next },
      if taia_less next g.next_rotate then record g { next_rotate = next } else g,
    )
    else (ld, g)

-- `if (ld->size > 0)`: `current` is renamed, and a new one begins.
unfoldable pub save_current : Os → Logdir → Glob → Logdir × Glob
save_current os ld g =
    let ld₁ : Logdir = record ld {
      files = ld.files ++ (record { name = ld.fnsave; content = ld.current } ∷ []);
      current = [];
      size = 0;
    } in
    if ltb 0 ld.size then processorstart os (rmoldest os g.calls ld₁) (tick g) else (ld, g)

-- The new name: the label of a time, and `.s`, or `.u` for a file to be processed.
abbrev pub new_name : Taia → List ℕ → List ℕ
new_name now processor =
    fmt_taia now ++ (b'.' ∷ (if length processor == 0 then b's' else b'u') ∷ [])

unfoldable pub rotate : Os → Logdir → Glob → Logdir × Glob
rotate os ld g =
    if ld.is_open
    then (let (ld₁, g₁) = processorstop os ld g in
        let now = os.free_stamp g₁.calls in
        let ld₂ : Logdir = record ld₁ { fnsave = new_name now ld₁.processor } in
        let (ld₃, g₃) = set_trotate now ld₂ (tick g₁) in save_current os ld₃ g₃)
    else (record ld { tmax = 0 }, g)
