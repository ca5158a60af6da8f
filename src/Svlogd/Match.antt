-- ===== src/Svlogd/Match.antt =====
-- utils/svlogd.c: `logmatch`, which lines a log directory takes.
use runit.Base.{ℕ, Bool, true, false, List, [], ◌∷◌, Option, none, some, if◌then◌else◌, ◌==◌, ◌||◌}
use runit.Utils.Pattern.{pmatch}

-- What an entry sets, if its pattern matches: `match` or `matcherr`.
unfoldable pub obey : ℕ → Option Bool → ℕ × ℕ → Option (ℕ × ℕ)
obey c none m = none
obey c (some false) m = some m
obey c (some true) (match, matcherr) =
    some (if (c == b'+') || (c == b'-') then (c, matcherr) else (match, c))

-- The `switch` at the first byte of an entry, with the pattern behind it.
unfoldable pub entry : ℕ → List ℕ → List ℕ → ℕ → Option (ℕ × ℕ) → Option (ℕ × ℕ)
unfolding obey
entry c pattern line linelen none = none
entry c pattern line linelen (some m) =
    if ((c == b'+') || (c == b'-')) || ((c == b'e') || (c == b'E'))
    then obey c (pmatch pattern line linelen) m
    else some m

-- The loop over `inst`. `begins` says that the byte is the first one of an entry; the others up to the
-- NUL are passed over by `byte_chr`.
unfoldable pub match_loop : List ℕ → Bool → List ℕ → ℕ → Option (ℕ × ℕ) → Option (ℕ × ℕ)
unfolding entry
match_loop [] begins line linelen m = m
match_loop (c ∷ rest) begins line linelen m =
    match_loop rest (c == 0) line linelen (if begins then entry c rest line linelen m else m)

-- `match` and `matcherr`; nothing if a pattern or the line is read past its end.
unfoldable pub logmatch : List ℕ → List ℕ → ℕ → Option (ℕ × ℕ)
unfolding match_loop
logmatch inst line linelen = match_loop inst true line linelen (some (b'+', b'E'))
