-- ===== src/Svlogd/Line.antt =====
-- utils/svlogd.c: the loop of `main`, for one of the log directories.
use runit.Base.{
  ℕ, zero, suc, Bool, true, false, List, [], ◌∷◌, ◌++◌, Option, none, some, if◌then◌else◌, ◌==◌,
  ◌&&◌, ◌||◌, not, ltb, length, map,
}
use runit.Svlogd.Defs.{Logdir}
use runit.Svlogd.Input.{Item}
use runit.Svlogd.Match.{logmatch}

-- The options: `linemax`, `repl` and `replace`, and the stamp of each line (nothing without -t) by the
-- number of lines before. `junk` is what the rest of the buffer `line` holds.
pub record Options : Type 0 where
  pub linemax : ℕ
  pub repl : ℕ
  pub replace : List ℕ
  pub stamp : ℕ → List ℕ
  pub junk : List ℕ

-- Whether there is a socket without blocking, and whether `sendto` takes the whole datagram.
pub record Net : Type 0 where
  pub has_socket : Bool
  pub sends : Bool

-- What goes to the standard error, into the directory's buffer, and out as a datagram; and the two
-- warnings in the buffer, that there is no socket and that sending failed, each with its text behind.
pub data Event : Type 0 where
  on_stderr into_buffer sent warned_socket warned_sending : List ℕ → Event

abbrev pub is_member : ℕ → List ℕ → Bool
is_member c [] = false
is_member c (d ∷ l) = (c == d) || is_member c l

-- The block under `if (repl)`. A `char` above 127 is negative, so less than 32.
unfoldable pub replaced : Options → ℕ → ℕ
replaced o c =
    if not (o.repl == 0) && (ltb c 32 || (ltb 126 c || is_member c o.replace)) then o.repl else c

-- How the first inner loop ends: at the limit or at the end of a line, with `exitasap && ! data.p`
-- then, or at the end of the input, where this always holds.
pub data Stop : Type 0 where
  at_limit at_newline : Bool → Stop
  at_end : Stop

-- The first inner loop with `linemax - linelen` rounds left: the bytes for `line`, how it ends, and
-- the input left. `drained` is the test behind the last byte.
unfoldable pub read_line : Options → ℕ → Bool → List Item → List ℕ × Stop × List Item
unfolding replaced
read_line o zero drained items = ([], at_limit drained, items)
read_line o (suc k) drained [] = ([], at_end, [])
read_line o (suc k) drained (x ∷ items) =
    let (line, stop, rest) = read_line o k x.drained items in
    if x.value == b'\n'
    then ([], at_newline x.drained, items)
    else (replaced o x.value ∷ line, stop, rest)

-- The loop under `linelen == linemax`: the bytes up to the end of the line or of the input.
unfoldable pub rest_of_line : List Item → List ℕ × List Item
rest_of_line [] = ([], [])
rest_of_line (x ∷ items) =
    let (more, rest) = rest_of_line items in
    if x.value == b'\n' then ([], items) else (x.value ∷ more, rest)

abbrev pub set_match : Logdir → Option (ℕ × ℕ) → Option Logdir
set_match ld none = none
set_match ld (some (match, matcherr)) = some (record ld { match = match; matcherr = matcherr })

-- The directory with what it has written, and then the events of the next rounds behind.
abbrev pub with_events : Option Logdir → (Logdir → List Event) → Option (Logdir × List Event)
with_events none f = none
with_events (some ld) f = some (ld, f ld)

abbrev pub before_events : List Event → Option (Logdir × List Event) → Option (Logdir × List Event)
before_events es none = none
before_events es (some (ld, rest)) = some (ld, es ++ rest)

abbrev pub then_events :
    Option (Logdir × List Event)
    → (Logdir → Option (Logdir × List Event))
    → Option (Logdir × List Event)
then_events none f = none
then_events (some (ld, es)) f = before_events es (f ld)

-- The text with its stamp and its prefix.
abbrev pub labelled : List ℕ → Logdir → List ℕ → List ℕ
labelled stamp ld line = stamp ++ (ld.prefix ++ line)

abbrev pub dots : Bool → List ℕ
dots full = if full then b'.' ∷ b'.' ∷ b'.' ∷ [] else []

-- The block under `sin_port != 0`.
unfoldable pub by_udp : Net → List ℕ → Bool → List Event
by_udp net text full =
    let datagram = text ++ (dots full ++ (b'\n' ∷ [])) in
    if net.has_socket
    then sent datagram ∷ (if net.sends then [] else warned_sending datagram ∷ [])
    else warned_socket (text ++ (b'\n' ∷ [])) ∷ []

-- `match` and `matcherr` of the line; nothing if something is read past its end.
unfoldable pub classified : Options → List ℕ → Logdir → Option Logdir
classified o line ld =
    if length ld.inst == 0
    then some ld
    else set_match ld (logmatch ld.inst (line ++ o.junk) (length line))

-- The directory's turn in the first loop over the directories, behind `logmatch`.
unfoldable pub first_part : Net → List ℕ → List ℕ → Bool → Logdir → List Event
unfolding by_udp
first_part net stamp line full ld =
    let text = labelled stamp ld line in
    let error =
      if ld.matcherr == b'e' then on_stderr (text ++ (dots full ++ (b'\n' ∷ []))) ∷ [] else [] in
    let datagram = if ld.port == 0 then [] else by_udp net text full in
    let buffered = if ld.udponly then [] else into_buffer text ∷ [] in
    error ++ (if ld.match == b'+' then datagram ++ buffered else [])

-- The directory's turns in the other two: the bytes behind the limit, and the end of the line.
unfoldable pub other_parts : List ℕ → Logdir → List Event
other_parts more ld =
    if not (ld.match == b'+') || ld.udponly
    then []
    else map (λ c. into_buffer (c ∷ [])) more ++ (into_buffer (b'\n' ∷ []) ∷ [])

-- The three of them.
unfoldable pub turn :
    Options → Net → ℕ → List ℕ → Bool → List ℕ → Logdir → Option (Logdir × List Event)
unfolding classified first_part other_parts
turn o net k line full more ld =
    if ld.is_open
    then with_events (classified o line ld)
        (λ ld'. first_part net (o.stamp k) line full ld' ++ other_parts more ld')
    else some (ld, [])

-- What follows the first inner loop; `next` is the rounds that follow.
unfoldable pub round :
    Options
    → Net
    → ℕ
    → List ℕ × Stop × List Item
    → Logdir
    → (List Item → Logdir → Option (Logdir × List Event))
    → Option (Logdir × List Event)
round o net k (line, at_end, items) ld next = some (ld, [])
round o net k (line, at_newline true, items) ld next = some (ld, [])
round o net k (line, at_limit true, items) ld next = some (ld, [])
round o net k (line, at_newline false, items) ld next =
    then_events (turn o net k line false [] ld) (next items)
round o net k (line, at_limit false, items) ld next =
    let (more, rest) = rest_of_line items in
    then_events (turn o net k line true more ld) (next rest)

-- The endless loop, with the number of lines before; `fuel` bounds the number of rounds.
unfoldable pub main_loop : Options → Net → ℕ → ℕ → List Item → Logdir → Option (Logdir × List Event)
main_loop o net zero k items ld = none
main_loop o net (suc fuel) k items ld =
    round o net k (read_line o o.linemax false items) ld (main_loop o net fuel (suc k))
