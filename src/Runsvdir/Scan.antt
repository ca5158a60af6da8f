-- ===== src/Runsvdir/Scan.antt =====
-- runsvdir/runsvdir.c: `runsv` and the loop over the directory in `runsvdir`.
use runit.Base.{
  ℕ, Bool, true, false, List, [], ◌∷◌, ◌++◌, Option, none, some, if◌then◌else◌, ◌==◌, ◌&&◌, leb,
  length,
}
use runit.Runsvdir.Defs.{Entry, failed, found, Name, warn, start, Dir, Fork, max_services, emit}

-- `(sv[i].ino == s.st_ino) && (sv[i].dev == s.st_dev)`
abbrev pub is_same : ℕ → ℕ → Entry → Bool
is_same dev ino e = (e.ino == ino) && (e.dev == dev)

module _ (fork : Fork) where
  -- `runsv(no, name)`: the new process number, if there is one, with the effects.
  unfoldable pub runsv : Entry → Dir → Entry × Dir
  runsv e g = elim (fork g.calls) [
    | none ↦ (e, emit (warn "unable to fork for") g)
    | some p ↦ (record e { pid = p }, emit (start p e.dev e.ino) g)
  ]

  -- A known service: it is not gone, and gets a process if it has none.
  unfoldable pub refresh : Entry → Dir → Entry × Dir
  unfolding runsv
  refresh e g =
      let e₁ : Entry = record e { isgone = false } in if e.pid == 0 then runsv e₁ g else (e₁, g)

  -- The first loop over the table: the table, if the service was found.
  unfoldable pub find : ℕ → ℕ → List Entry → Dir → Option (List Entry × Dir)
  unfolding refresh
  find dev ino [] g = none
  find dev ino (e ∷ es) g =
      let later = find dev ino es g in
      if is_same dev ino e
      then (let (e₁, g₁) = refresh e g in some (e₁ ∷ es, g₁))
      else elim later [ none ↦ none | some (es₁, g₁) ↦ some (e ∷ es₁, g₁) ]

  -- A new service.
  unfoldable pub add : ℕ → ℕ → Dir → Dir
  unfolding runsv
  add dev ino g =
      if leb max_services (length g.sv)
      then emit (warn "too many services") g
      else (let (e, g₁) = runsv (record { dev = dev; ino = ino; pid = 0; isgone = false }) g in
          record g₁ { sv = g₁.sv ++ (e ∷ []); check = true })

  -- A directory.
  unfoldable pub visit : ℕ → ℕ → Dir → Dir
  unfolding find add
  visit dev ino g = elim (find dev ino g.sv g) [
    | none ↦ add dev ino g
    | some (es, g₁) ↦ record g₁ { sv = es }
  ]

  unfoldable pub read_name : Name → Dir → Dir
  unfolding visit
  read_name n g = if n.hidden then g else elim n.stat [
    | failed ↦ emit (warn "unable to stat") g
    | found dev ino is_dir ↦ if is_dir then visit dev ino g else g
  ]

  -- `while ((d = readdir(dir)))`
  unfoldable pub read_names : List Name → Dir → Dir
  unfolding read_name
  read_names [] g = g
  read_names (n ∷ ns) g = read_names ns (read_name n g)
