-- ===== src/Svlogd/Tests.antt =====
-- utils/svlogd.c: the theorems at concrete inputs.
use runit.Base.{ℕ, ◌+◌, ◌^◌, ◌≡◌, ◌≤◌, ◌<◌, true, false, List, [], ◌∷◌, some, arith, refl}
use runit.Time.Taia.{Taia, taia_pack}
use runit.Time.Label.{fmt_taia}
use runit.Utils.Matches.{any, char}
use runit.Svlogd.Defs.{File, Logdir, Answer, full, failed, took, Os, Glob}
use runit.Svlogd.Files.{is_log, is_leftover, count_files, unlink, oldest, rm_over, new_name, rotate}
use runit.Svlogd.Write.{buffer_pwrite}
use runit.Svlogd.Tidy.{IsTidy}
use runit.Svlogd.Pwrite.{Fits, buffer_pwrite-Fits}
use runit.Svlogd.Kept.{text, IsWhole, rotate-IsWhole}
use runit.Svlogd.Match.{logmatch}
use runit.Svlogd.Select.{Entry, is_choice, is_error_choice, Last}
use runit.Svlogd.Input.{Wake, again, bytes, input}
use runit.Svlogd.Line.{Options, Net, Event, main_loop}
use runit.Svlogd.Rendered.{TakesAll, buffered, kept_lines}
use runit.Svlogd.Term.{got_line, svlogd_keeps, term_loses_line}
use runit.Svlogd.Config.{Conf, read_config}
use runit.Svlogd.Configured.{file_of, configured-Last}
use runit.Svlogd.Open.{readable, present, Opening, logdir_open}
use runit.Svlogd.Opened.{IsOpened, logdir_open-IsOpened}

abbrev at : ℕ → Taia
at t = record { sec = 2 ^ 62 + t; nano = 0; atto = 0 }

-- A system on which everything succeeds, with a new time at each call.
abbrev system : Os
system = record {
  free_stamp = λ t. at (10 + t);
  unlinks = λ name t. true;
  fork_pid = λ t. 100 + t;
  processor_fails = λ t. 0;
  processed = λ t. [];
}

abbrev saved_at : ℕ → File
saved_at t = record { name = new_name (at t) []; content = b'x' ∷ b'\n' ∷ [] }

-- A directory whose `current` has its full size, and which has as many old files as it may.
abbrev full_dir : Logdir
full_dir = record {
  is_open = true;
  size = 4;
  sizemax = 4;
  nmax = 2;
  nmin = 1;
  tmax = 0;
  trotate = at 0;
  processor = [];
  ppid = 0;
  fnsave = [];
  match = b'+';
  matcherr = b'E';
  ip = 0 ∷ 0 ∷ 0 ∷ 0 ∷ [];
  port = 0;
  udponly = false;
  prefix = b'p' ∷ [];
  inst = [];
  current = b'a' ∷ b'b' ∷ b'c' ∷ b'\n' ∷ [];
  files = saved_at 2 ∷ saved_at 1 ∷ [];
}

abbrev start : Glob
start = record { calls = 0; next_rotate = at 2744 }

full_dir-IsTidy : IsTidy 2 4 full_dir
unfolding count_files is_log is_leftover fmt_taia taia_pack
full_dir-IsTidy = record {
  has_nmax = refl;
  has_sizemax = refl;
  opened = refl;
  unprocessed = refl;
  idle = refl;
  has_limit = omega arith;
  within_limit = omega arith;
  has_max = omega arith;
  sized = refl;
}

-- Six bytes, for which the disk is full first.
buffer_pwrite-Fits_example :
    (i : ℕ) × (ld' : Logdir) × (g' : Glob) × (rest : List Answer) × (buffer_pwrite system 1000
        (full ∷ failed ∷ took 3 ∷ [])
        (b'q' ∷ b'r' ∷ b's' ∷ b't' ∷ b'u' ∷ b'\n' ∷ [])
        full_dir
        start
      ≡ some (i, ld', g', rest))
    × Fits 2 4 ld'
    × (0 < i)
    × (i ≤ 6)
buffer_pwrite-Fits_example =
    buffer_pwrite-Fits 2 4 system 1000 (full ∷ failed ∷ took 3 ∷ [])
      (b'q' ∷ b'r' ∷ b's' ∷ b't' ∷ b'u' ∷ b'\n' ∷ []) full_dir start (λ name t. refl)
      (full_dir-IsTidy, omega arith) (omega arith) (omega arith)

-- With one old file allowed.
-- It is the second one that goes.
older_goes : rm_over system 0 1 full_dir.files ≡ saved_at 2 ∷ []
unfolding rm_over oldest unlink count_files is_log is_leftover fmt_taia taia_pack
older_goes = refl

abbrev whole_dir : Logdir
whole_dir = record full_dir { nmax = 0 }

whole_dir-IsWhole : IsWhole whole_dir
unfolding is_leftover fmt_taia taia_pack
whole_dir-IsWhole = record {
  opened = refl;
  unprocessed = refl;
  idle = refl;
  unlimited = refl;
  clean = (refl, (refl, tt));
  sized = refl;
}

rotate-IsWhole_example :
    IsWhole (rotate system whole_dir start).0
    × (text (rotate system whole_dir start).0 ≡ text whole_dir)
    × ((rotate system whole_dir start).0.current ≡ [])
rotate-IsWhole_example = rotate-IsWhole system whole_dir start whole_dir-IsWhole

abbrev conf : Conf
conf = record { dir = full_dir; next_rotate = at 2744; tmaxflag = false }

-- Nothing, but what begins with `a`; and what ends there to the standard error.
abbrev entries : List Entry
entries =
    record { kind = b'-'; pattern = any ∷ [] }
    ∷ record { kind = b'+'; pattern = char b'a' ∷ any ∷ [] }
    ∷ record { kind = b'e'; pattern = char b'a' ∷ [] }
    ∷ []

configured-Last_example :
    (r : ℕ × ℕ) × (logmatch
        (read_config (at 0) (file_of entries) conf).dir.inst
        (b'a' ∷ b'b' ∷ b'?' ∷ [])
        2
      ≡ some r)
    × Last is_choice b'+' (b'a' ∷ b'b' ∷ []) entries r.0
    × Last is_error_choice b'E' (b'a' ∷ b'b' ∷ []) entries r.1
configured-Last_example = configured-Last (at 0) entries conf (b'a' ∷ b'b' ∷ []) (b'?' ∷ []) (
  ((refl, (tt, tt)), (refl, tt)),
  (
    ((refl, (omega arith, (tt, tt))), (refl, (refl, tt))),
    (((refl, (omega arith, tt)), (refl, tt)), tt),
  ),
)

-- At most three bytes of a line are replaced, and only a tab and a colon.
abbrev options : Options
options = record {
  linemax = 3;
  repl = b'_';
  replace = b':' ∷ [];
  stamp = λ k. (b'0' + k) ∷ b' ' ∷ [];
  junk = 0 ∷ 0 ∷ 0 ∷ [];
}

abbrev net : Net
net = record { has_socket = true; sends = true }

-- Two lines and the beginning of a third one, in two pieces.
abbrev lines : List (List ℕ)
lines = (b'a' ∷ b':' ∷ []) ∷ (b':' ∷ b'b' ∷ b'c' ∷ b':' ∷ []) ∷ []

abbrev wakes : List Wake
wakes =
    record { term = false; got = bytes b'a' (b':' ∷ b'\n' ∷ b':' ∷ b'b' ∷ []) }
    ∷ record { term = false; got = again }
    ∷ record { term = false; got = bytes b'c' (b':' ∷ b'\n' ∷ b'd' ∷ []) }
    ∷ []

full_dir-TakesAll : TakesAll full_dir
full_dir-TakesAll = record {
  opened = refl;
  unselected = refl;
  chosen = refl;
  no_errors = refl;
  no_udp = refl;
  not_only = refl;
}

svlogd_keeps_example :
    (es : List Event) × (main_loop options net 3 0 (input wakes false true) full_dir
      ≡ some (full_dir, es))
    × (buffered es ≡ kept_lines options (b'p' ∷ []) 0 lines)
svlogd_keeps_example =
    svlogd_keeps options net 3 0 wakes lines (b'd' ∷ []) full_dir
      ((refl, λ e. cc), ((refl, λ e. cc), ((refl, λ e. cc), tt))) refl full_dir-TakesAll
      ((refl, (refl, tt)), ((refl, (refl, (refl, (refl, tt)))), tt)) (refl, tt) (omega arith)
      (omega arith)

term_loses_line_example :
    main_loop options net 5 0
      (input (record { term = true; got = got_line (b'a' ∷ b'b' ∷ []) } ∷ wakes) false true)
      full_dir
    ≡ some (full_dir, [])
term_loses_line_example =
    term_loses_line options net 4 0 (b'a' ∷ b'b' ∷ []) wakes true full_dir (refl, (refl, tt))
      (omega arith)

-- A directory whose `current` was not closed in order.
abbrev answers : Opening
answers = record {
  opens = true;
  enters = true;
  locks = true;
  config = readable (b'n' ∷ b'5' ∷ b'\n' ∷ b's' ∷ b'2' ∷ b'k' ∷ b'\n' ∷ []);
  current = present false;
}

logdir_open-IsOpened_example :
    IsOpened
      (logdir_open system 0 (at 0) answers conf).0
      (logdir_open system 0 (at 0) answers conf).1.dir
logdir_open-IsOpened_example = logdir_open-IsOpened system 0 (at 0) answers conf
