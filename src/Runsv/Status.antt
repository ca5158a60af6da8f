-- ===== src/Runsv/Status.antt =====
-- runsv/runsv.c: `update_status`, and the bytes of supervise/status.
use runit.Base.{ℕ, ◌+◌, Bool, true, false, List, [], ◌∷◌, ◌++◌, String, if◌then◌else◌, ltb, take}
use runit.Time.Tai.{octet}
use runit.Time.Taia.{taia_pack}
use runit.Runsv.Defs.{
  State, Want, state_code, Svdir, StatusFile, pid_line, empty, words, bytes, error, count, Os, Proc,
  tick, emit, warn, publish,
}

abbrev pub flag : Bool → ℕ
flag true = 1
flag false = 0

abbrev pub want_byte : Want → ℕ
want_byte Want.up = b'u'
want_byte _ = b'd'

-- `status[0..19]`: the packed start time, of which the process number takes the last four bytes.
unfoldable pub status_bytes : Svdir → List ℕ
unfolding taia_pack
status_bytes s =
    take 12 (taia_pack s.start)
    ++ (octet s.pid 0
        ∷ octet s.pid 1
        ∷ octet s.pid 2
        ∷ octet s.pid 3
        ∷ flag s.ctrl.pause
        ∷ want_byte s.want
        ∷ flag s.ctrl.term
        ∷ state_code s.state
        ∷ [])

abbrev state_words : State → List String
state_words State.down = "down" ∷ []
state_words State.run = "run" ∷ []
state_words State.finish = "finish" ∷ []
state_words State.done = "done" ∷ []
state_words State.starting = []

abbrev want_words : State → Want → List String
want_words State.down Want.down = []
want_words _ Want.down = ", want down" ∷ []
want_words State.down Want.exit = []
want_words _ Want.exit = ", want exit" ∷ []
want_words State.done Want.done = []
want_words _ Want.done = ", want done" ∷ []
want_words _ Want.up = []

-- What is put into supervise/stat.
unfoldable pub stat_words : Svdir → List String
stat_words s =
    state_words s.state
    ++ ((if s.ctrl.pause then ", paused" ∷ [] else [])
        ++ ((if s.ctrl.term then ", got TERM" ∷ [] else [])
            ++ (want_words s.state s.want ++ ("\n" ∷ []))))

module _ (os : Os) where
  -- The part under `if (pidchanged)`, and whether the function goes on.
  unfoldable pub update_pid : Svdir → Proc → Proc × Bool
  update_pid s g =
      let content = if ltb 0 s.pid then pid_line s.pid else empty in
      if os.open_trunc StatusFile.pid g.calls
      then if os.rename StatusFile.pid (g.calls + 1)
        then (
          record (emit (publish s.islog StatusFile.pid content) (tick g)) { pidchanged = false },
          true,
        )
        else (emit (warn "unable to rename pid.new") (tick g), false)
      else (emit (warn "unable to open pid.new") g, false)

  -- supervise/stat, and whether the function goes on.
  unfoldable pub update_stat : Svdir → Proc → Proc × Bool
  unfolding stat_words
  update_stat s g =
      if os.open_trunc StatusFile.stat g.calls
      then if os.rename StatusFile.stat (g.calls + 1)
        then (emit (publish s.islog StatusFile.stat (words (stat_words s))) (tick g), true)
        else (emit (warn "unable to rename stat.new") (tick g), true)
      else (emit (warn "unable to open stat.new") g, false)

  -- What follows a full write of status.new.
  unfoldable pub rename_status : Svdir → Proc → Proc
  unfolding status_bytes
  rename_status s g =
      if os.rename StatusFile.status g.calls
      then emit (publish s.islog StatusFile.status (bytes (status_bytes s))) g
      else emit (warn "unable to rename status.new") g

  unfoldable pub update_bytes : Svdir → Proc → Proc
  unfolding rename_status
  update_bytes s g =
      if os.open_trunc StatusFile.status g.calls
      then elim (os.write_status (g.calls + 1)) [
        | error ↦ emit (warn "unable to write status.new") (tick g)
        | count l ↦
            if ltb l 20
            then emit (warn "partial write of status.new") (tick g)
            else rename_status s (tick (tick g))
      ]
      else emit (warn "unable to open status.new") g

  unfoldable pub update_status : Svdir → Proc → Proc
  unfolding update_pid update_stat update_bytes
  update_status s g =
      let (g₁, go₁) = if g.pidchanged then update_pid s g else (g, true) in
      if go₁
      then (let (g₂, go₂) = update_stat s g₁ in if go₂ then update_bytes s g₂ else g₂)
      else g₁
