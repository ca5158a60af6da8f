-- ===== src/Restartd/PidFile.antt =====
-- svc.restartd/util.c: `ReadPIDFile`, `stat_exists` and `check_pidfile`.
use runit.Base.{
  ℕ, ◌+◌, ◌-◌, ◌*◌, ◌^◌, Bool, true, false, List, [], ◌∷◌, Option, none, some, if◌then◌else◌, ◌==◌,
  ◌||◌, ◌&&◌, ltb, leb, take,
}
use runit.Restartd.Defs.{PidFile, missing, unreadable, holds, Os, Service, is_start}

abbrev pub is_blank : ℕ → Bool
is_blank c = (c == b'\n') || ((c == b'\t') || (c == b' '))

-- The loop that moves `TW`; the buffer ends with a NUL, as the list ends here.
unfoldable pub skip_blanks : List ℕ → List ℕ
skip_blanks [] = []
skip_blanks (c ∷ s) = let rest = skip_blanks s in if is_blank c then rest else c ∷ s

-- The loop that moves `TW2`, and the NUL there.
unfoldable pub first_word : List ℕ → List ℕ
first_word [] = []
first_word (c ∷ s) =
    let rest = first_word s in if (c == 0) || ((c == b'%') || is_blank c) then [] else c ∷ rest

-- The digits at the front of a text, from the number before them.
unfoldable pub digits_from : ℕ → List ℕ → ℕ
digits_from u [] = u
digits_from u (c ∷ s) =
    let rest = digits_from (u * 10 + (c - b'0')) s in if leb b'0' c && leb c b'9' then rest else u

-- `atoi` of a text without white space, where it is positive; 0 stands for what is not. It is not
-- defined for a number that is no `int`.
unfoldable pub atoi : List ℕ → Option ℕ
unfolding digits_from
atoi [] = some 0
atoi (c ∷ s) =
    let u = digits_from 0 (if c == b'+' then s else c ∷ s) in
    if c == b'-' then some 0 else if ltb u (2 ^ 31) then some u else none

-- The number in the file, or 0 where it is negative or missing.
unfoldable pub read_pid_file : PidFile → Option ℕ
unfolding skip_blanks first_word atoi
read_pid_file missing = some 0
read_pid_file unreadable = some 0
read_pid_file (holds bytes) = atoi (first_word (skip_blanks (take 199 bytes)))

-- What `check_pidfile` does with the number.
unfoldable pub set_main_pid : Option ℕ → Service → Option (Bool × Service)
set_main_pid none s = none
set_main_pid (some n) s =
    if n == 0 then some (false, s) else some (true, record s { pid_file_read = true; main_pid = n })

abbrev pub exists : PidFile → Bool
exists missing = false
exists _ = true

-- `!check_pidfile`: whether a number was found. The file is looked at twice.
unfoldable pub check_pidfile : Os → Service → Option (Bool × Service)
unfolding read_pid_file set_main_pid
check_pidfile os s =
    let s₁ : Service = record s { calls = s.calls + 2 } in
    if exists (os.pid_file s.calls) && is_start s.state
    then set_main_pid (read_pid_file (os.pid_file (s.calls + 1))) s₁
    else some (false, s₁)
