-- ===== src/Svlogd/Configured.antt =====
-- utils/svlogd.c: what the lines of `config` set.
use runit.Base.{
  ℕ, ◌*◌, ◌^◌, ◌%◌, ◌≡◌, ◌<◌, true, false, List, [], ◌∷◌, ◌++◌, some, if◌then◌else◌, ◌==◌, length,
  get_or, map, arith, refl, sym, ◌∙◌, ap, All, append_assoc, append-nil,
}
use runit.Byte.Decimal.{fmt_ulong, scan_ulong, IsStop, IsDecimal, decimal}
use runit.Time.Taia.{Taia}
use runit.Utils.Matches.{Token, byte, encode}
use runit.Svlogd.Defs.{Logdir}
use runit.Svlogd.Match.{logmatch}
use runit.Svlogd.Select.{Entry, inst_of, is_choice, is_error_choice, IsEntry, Last, logmatch-Last}
use runit.Svlogd.Rendered.{IsText}
use runit.Svlogd.Term.{text_of}
use runit.Svlogd.Config.{
  number, Conf, size_line, config_line, split_lines, config_loop, reset, read_config, found, letter,
  obey_letter,
}

get_or-append : (s : List ℕ) (c : ℕ) (t : List ℕ) → get_or (s ++ (c ∷ t)) (length s) 0 ≡ c
get_or-append [] c t = refl
get_or-append (x ∷ s) c t = get_or-append s c t

get_or-length : (s : List ℕ) → get_or s (length s) 0 ≡ 0
get_or-length [] = refl
get_or-length (x ∷ s) = get_or-length s

scan-digits :
    (u : ℕ) (ds : List ℕ) (c : ℕ) (t : List ℕ)
    → IsDecimal u ds
    → IsStop c
    → scan_ulong (ds ++ (c ∷ t)) ≡ some (length ds, u)
unfolding scan_ulong
scan-digits u ds c t h stop = h.read c t 0 stop ∙ ap (λ x. some (x, u)) (omega arith)

number-digits :
    (u : ℕ) (ds : List ℕ) (c : ℕ) (t : List ℕ)
    → IsDecimal u ds
    → IsStop c
    → number (ds ++ (c ∷ t)) ≡ (length ds, u)
number-digits u ds c t h stop =
    ap (λ x. found (scan_ulong x)) (append_assoc ds (c ∷ t) (0 ∷ []))
    ∙ ap found (scan-digits u ds c (t ++ (0 ∷ [])) h stop)

number-bare : (u : ℕ) (ds : List ℕ) → IsDecimal u ds → number ds ≡ (length ds, u)
number-bare u ds h = ap found (scan-digits u ds 0 [] h refl)

size-unit :
    (u : ℕ) (ds : List ℕ) (c : ℕ) (ld : Logdir)
    → IsDecimal u ds
    → IsStop c
    → (size_line (ds ++ (c ∷ [])) ld).sizemax
      ≡ u * (if c == b'm' then 1024 * 1024 else if c == b'k' then 1024 else 1) % 2 ^ 64
unfolding size_line
size-unit u ds c ld h stop = rw (number-digits u ds c [] h stop, get_or-append ds c []) refl

size-bare :
    (u : ℕ) (ds : List ℕ) (ld : Logdir)
    → IsDecimal u ds
    → (size_line ds ld).sizemax ≡ u * 1 % 2 ^ 64
unfolding size_line
size-bare u ds ld h = rw (number-bare u ds h, get_or-length ds) refl

-- A line `s` of the file `config` with the digits that `fmt_ulong` writes for a 64-bit number sets the
-- size limit to that number, with a `k` behind to 1024 times it and with an `m` to 1024 * 1024 times it,
-- both modulo 2 ^ 64.
pub config_size :
    (u : ℕ) (now : Taia) (conf : Conf)
    → u < 2 ^ 64
    → (ds : List ℕ) × (fmt_ulong true u ≡ some (length ds, ds))
      × ((config_line now (b's' ∷ ds) conf).dir.sizemax ≡ u)
      × ((config_line now (b's' ∷ (ds ++ (b'k' ∷ []))) conf).dir.sizemax ≡ u * 1024 % 2 ^ 64)
      × ((config_line now (b's' ∷ (ds ++ (b'm' ∷ []))) conf).dir.sizemax
          ≡ u * (1024 * 1024) % 2 ^ 64)
unfolding config_line
config_size u now conf hu =
    let (ds, d) = decimal u hu in
    (
      ds,
      d.printed,
      size-bare u ds conf.dir d ∙ omega arith,
      size-unit u ds b'k' conf.dir d refl,
      size-unit u ds b'm' conf.dir d refl,
    )

-- The text of an entry in the file.
abbrev pub line_of : Entry → List ℕ
line_of e = e.kind ∷ map byte e.pattern

abbrev pub file_of : List Entry → List ℕ
file_of es = text_of (map line_of es) []

-- The entry is in one line.
abbrev pub IsLine : Entry → Type 0
IsLine e = IsEntry e × IsText (map byte e.pattern)

split_line :
    (l rest : List ℕ)
    → IsText l
    → split_lines (l ++ (b'\n' ∷ rest)) ≡ (l, (split_lines rest).0 ∷ (split_lines rest).1)
unfolding split_lines
split_line [] rest h = refl
split_line (c ∷ l) rest (h, hs) = rw (h, split_line l rest hs) refl

encode-map : (p : List Token) → encode p ≡ map byte p ++ (0 ∷ [])
encode-map [] = refl
encode-map (t ∷ p) = ap (λ x. byte t ∷ x) (encode-map p)

config_line-entry :
    (now : Taia) (e : Entry) (conf : Conf)
    → IsEntry e
    → (config_line now (line_of e) conf).dir.inst ≡ conf.dir.inst ++ (e.kind ∷ encode e.pattern)
unfolding config_line letter obey_letter
config_line-entry now e conf h =
    let k = h.0 in rw k (ap (λ x. conf.dir.inst ++ (e.kind ∷ x)) (sym (encode-map e.pattern)))

kind_in_line : (e : Entry) → IsEntry e → (e.kind == b'\n') ≡ false
kind_in_line e h = let k = h.0 in ground arith

entries : (es : List Entry) → All IsLine es → All IsEntry es
entries [] h = tt
entries (e ∷ es) (h, hs) = (h.0, entries es hs)

-- The entries' lines put them behind what `inst` has.
config_loop-entries :
    (now : Taia) (es : List Entry) (conf : Conf)
    → All IsLine es
    → (config_loop now (split_lines (file_of es)).0 (split_lines (file_of es)).1 conf).dir.inst
      ≡ conf.dir.inst ++ inst_of es
unfolding config_loop split_lines config_line
config_loop-entries now [] conf h = sym (append-nil conf.dir.inst)
config_loop-entries now (e ∷ es) conf (h, hs) =
    let next = config_line now (line_of e) conf in
    ap (λ p. (config_loop now p.0 p.1 conf).dir.inst)
      (split_line (line_of e) (file_of es) (kind_in_line e h.0, h.1))
    ∙ config_loop-entries now es next hs
    ∙ ap (λ x. x ++ inst_of es) (config_line-entry now e conf h.0)
    ∙ append_assoc conf.dir.inst (e.kind ∷ encode e.pattern) (inst_of es)

-- The file `config` holds entries of the four kinds, one in each line, whose patterns have no plus. On the
-- directory as the file sets it, and for a line in a buffer, `logmatch` reads no byte behind
-- either and sets `match` to the kind of the last of the entries + and - whose pattern
-- matches the line as the manual page says, and to + if there is none, and `matcherr` to that
-- of the last of the entries e and E that matches, and to E if there is none.
pub configured-Last :
    (now : Taia) (es : List Entry) (conf : Conf) (s rest : List ℕ)
    → All IsLine es
    → (r : ℕ × ℕ) × (logmatch (read_config now (file_of es) conf).dir.inst (s ++ rest) (length s)
        ≡ some r)
      × Last is_choice b'+' s es r.0
      × Last is_error_choice b'E' s es r.1
unfolding read_config reset
configured-Last now es conf s rest h =
    let (r, e, a, b) = logmatch-Last es s rest (entries es h) in
    let i = config_loop-entries now es (record conf { dir = reset conf.dir }) h in
    (r, ap (λ x. logmatch x (s ++ rest) (length s)) i ∙ e, a, b)
