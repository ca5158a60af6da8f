-- ===== src/Svlogd/Config.antt =====
-- utils/svlogd.c: `ip4_scan`, and the file `config` in `logdir_open`.
use runit.Base.{
  ℕ, zero, suc, ◌+◌, ◌*◌, ◌^◌, ◌%◌, Bool, true, false, List, [], ◌∷◌, ◌++◌, Option, none, some,
  if◌then◌else◌, ◌==◌, ◌||◌, not, length, get_or, set, drop,
}
use runit.Byte.Decimal.{scan_ulong}
use runit.Time.Taia.{Taia, taia_add, taia_uint, taia_less}
use runit.Svlogd.Defs.{Logdir}

abbrev pub found : Option (ℕ × ℕ) → ℕ × ℕ
found none = (0, 0)
found (some x) = x

-- `scan_ulong` of a text with a NUL behind, which ends it.
abbrev pub number : List ℕ → ℕ × ℕ
number s = found (scan_ulong (s ++ (0 ∷ [])))

-- `ip4_scan` from its `k`th number, with `left` further ones behind it: the length, or 0, and the
-- address as far as it is written.
unfoldable pub ip4_from : ℕ → ℕ → List ℕ → List ℕ → ℕ → ℕ × List ℕ
unfolding scan_ulong
ip4_from zero k s ip len =
    let (i, u) = number s in if i == 0 then (0, ip) else (len + i, set ip k (u % 2 ^ 8))
ip4_from (suc left) k s ip len =
    let (i, u) = number s in
    let ip' = set ip k (u % 2 ^ 8) in
    let more = ip4_from left (suc k) (drop (i + 1) s) ip' (len + i + 1) in
    if i == 0 then (0, ip) else if get_or s i 0 == b'.' then more else (0, ip')

unfoldable pub ip4_scan : List ℕ → List ℕ → ℕ × List ℕ
unfolding ip4_from
ip4_scan s ip = ip4_from 3 0 s ip 0

-- What a line changes: the directory, the global `trotate`, and `tmaxflag`.
pub record Conf : Type 0 where
  pub dir : Logdir
  pub next_rotate : Taia
  pub tmaxflag : Bool

abbrev pub until_nul : List ℕ → List ℕ
until_nul [] = []
until_nul (c ∷ s) = let rest = until_nul s in if c == 0 then [] else c ∷ rest

-- `case 's'`, for the text behind the letter.
unfoldable pub size_line : List ℕ → Logdir → Logdir
unfolding scan_ulong
size_line s ld =
    let (i, u) = number s in
    let c = get_or s i 0 in
    let factor = if c == b'm' then 1024 * 1024 else if c == b'k' then 1024 else 1 in
    record ld { sizemax = u * factor % 2 ^ 64 }

-- What `case 't'` does with the value, at the time `now`.
unfoldable pub set_tmax : Taia → ℕ → Conf → Conf
unfolding taia_add taia_uint taia_less
set_tmax now tmax conf =
    let next = taia_add now (taia_uint (tmax % 2 ^ 32)) in
    let dir : Logdir = record conf.dir { tmax = tmax } in
    if tmax == 0 then record conf { dir = dir } else record {
      dir = record dir { trotate = next };
      next_rotate =
          if not conf.tmaxflag || taia_less next conf.next_rotate then next else conf.next_rotate;
      tmaxflag = true;
    }

-- `case 't'`.
unfoldable pub time_line : Taia → List ℕ → Conf → Conf
unfolding scan_ulong set_tmax
time_line now s conf =
    let (i, u) = number s in
    let c = get_or s i 0 in
    let factor = if c == b'h' then 60 * 60 else if c == b'm' then 60 else 1 in
    set_tmax now (u * factor % 2 ^ 64) conf

-- What `case 'u'` does with the length of the address, which is 0 if there is none, and the port.
unfoldable pub set_udp : ℕ → List ℕ → ℕ → Logdir → Logdir
set_udp c ip port ld =
    if (c == 0) || (port == 0)
    then record ld { ip = ip }
    else record ld { ip = ip; port = port % 2 ^ 16 }

-- `case 'u'`: the address stays as far as it is written, also where the line is refused.
unfoldable pub udp_line : List ℕ → Logdir → Logdir
unfolding scan_ulong ip4_scan set_udp
udp_line s ld =
    let (c, ip) = ip4_scan s ld.ip in
    set_udp c ip (if get_or s c 0 == b':' then (number (drop (c + 1) s)).1 else 514) ld

-- The cases of the `switch`.
pub data Letter : Type 0 where
  selection size nmax nmin time processor only_udp udp prefix other : Letter

unfoldable pub letter : ℕ → Letter
letter c =
    if ((c == b'+') || (c == b'-')) || ((c == b'e') || (c == b'E'))
    then selection
    else if c == b's'
    then size
    else if c == b'n'
    then nmax
    else if c == b'N'
    then nmin
    else if c == b't'
    then time
    else if c == b'!'
    then processor
    else if c == b'U'
    then only_udp
    else if c == b'u'
    then udp
    else if c == b'p'
    then prefix
    else other

-- A case, with the letter and the rest of the line.
unfoldable pub obey_letter : Letter → Taia → ℕ → List ℕ → Conf → Conf
unfolding size_line time_line udp_line scan_ulong
obey_letter selection now c s conf = record conf {
  dir = record conf.dir { inst = conf.dir.inst ++ (c ∷ (s ++ (0 ∷ []))) };
}
obey_letter size now c s conf = record conf { dir = size_line s conf.dir }
obey_letter nmax now c s conf = record conf { dir = record conf.dir { nmax = (number s).1 } }
obey_letter nmin now c s conf = record conf { dir = record conf.dir { nmin = (number s).1 } }
obey_letter time now c s conf = time_line now s conf
obey_letter processor now c s conf =
    if length s == 0
    then conf
    else record conf { dir = record conf.dir { processor = until_nul s ++ (0 ∷ []) } }
obey_letter only_udp now c s conf = record conf {
  dir = udp_line s (record conf.dir { udponly = true });
}
obey_letter udp now c s conf = record conf { dir = udp_line s conf.dir }
obey_letter prefix now c s conf =
    if length s == 0 then conf else record conf { dir = record conf.dir { prefix = until_nul s } }
obey_letter other now c s conf = conf

-- A line.
unfoldable pub config_line : Taia → List ℕ → Conf → Conf
unfolding letter obey_letter
config_line now [] conf = conf
config_line now (c ∷ s) conf = obey_letter (letter c) now c s conf

-- The bytes up to the first newline, and the lines behind; the last one is what no newline ends.
unfoldable pub split_lines : List ℕ → List ℕ × List (List ℕ)
split_lines [] = ([], [])
split_lines (c ∷ s) =
    let (line, later) = split_lines s in
    if c == b'\n' then ([], line ∷ later) else (c ∷ line, later)

-- The loop over the file, which ends one byte before its end.
unfoldable pub config_loop : Taia → List ℕ → List (List ℕ) → Conf → Conf
unfolding config_line
config_loop now line [] conf = if length line == 1 then conf else config_line now line conf
config_loop now line (next ∷ later) conf = config_loop now next later (config_line now line conf)

-- What is set before the file is read.
unfoldable pub reset : Logdir → Logdir
reset ld = record ld {
  size = 0;
  sizemax = 1000000;
  nmax = 10;
  nmin = 10;
  tmax = 0;
  ppid = 0;
  match = b'+';
  port = 0;
  udponly = false;
  prefix = [];
  inst = [];
  processor = [];
}

unfoldable pub read_config : Taia → List ℕ → Conf → Conf
unfolding config_loop split_lines reset
read_config now file conf =
    let (line, later) = split_lines file in
    config_loop now line later (record conf { dir = reset conf.dir })
