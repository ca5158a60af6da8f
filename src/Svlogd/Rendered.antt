-- ===== src/Svlogd/Rendered.antt =====
-- utils/svlogd.c: what a log directory without a selection gets of a sequence of lines.
use runit.Base.{
  ℕ, zero, suc, ◌≡◌, ◌≤◌, ◌<◌, inl, inr, Bool, true, false, List, [], ◌∷◌, ◌++◌, Option, some, ◌==◌,
  ltb, length, map, take, drop, arith, refl, sym, ◌∙◌, ap, All, append_assoc, Bool-cases,
}
use runit.Svlogd.Defs.{Logdir}
use runit.Svlogd.Input.{Item}
use runit.Svlogd.Line.{
  Options, Net, Event, into_buffer, on_stderr, sent, warned_socket, warned_sending, replaced, Stop,
  at_limit, at_newline, at_end, read_line, rest_of_line, labelled, classified, first_part,
  other_parts, turn, round, main_loop, before_events,
}

-- A byte of input, with others behind it or without SIGTERM before.
abbrev pub item : ℕ → Item
item c = record { value = c; drained = false }

abbrev pub IsText : List ℕ → Type 0
IsText l = All (λ c. (c == b'\n') ≡ false) l

-- Lines, each with its newline, and text behind the last newline.
abbrev pub items_of : List (List ℕ) → List ℕ → List Item
items_of [] t = map item t
items_of (l ∷ ls) t = map item l ++ (item b'\n' ∷ items_of ls t)

-- A directory that takes all lines into its buffer.
pub record TakesAll (ld : Logdir) : Type 0 where
  pub opened : ld.is_open ≡ true
  pub unselected : ld.inst ≡ []
  pub chosen : ld.match ≡ b'+'
  pub no_errors : (ld.matcherr == b'e') ≡ false
  pub no_udp : ld.port ≡ 0
  pub not_only : ld.udponly ≡ false

-- What went into the buffer.
abbrev pub buffered : List Event → List ℕ
buffered [] = []
buffered (into_buffer l ∷ es) = l ++ buffered es
buffered (_ ∷ es) = buffered es

-- A line as it is kept: the stamp, the prefix, and the line, of which only the first `linemax` bytes
-- have been replaced.
abbrev pub kept_line : Options → List ℕ → ℕ → List ℕ → List ℕ
kept_line o prefix k l =
    o.stamp k
    ++ (prefix ++ (map (replaced o) (take o.linemax l) ++ (drop o.linemax l ++ (b'\n' ∷ []))))

abbrev pub kept_lines : Options → List ℕ → ℕ → List (List ℕ) → List ℕ
kept_lines o prefix k [] = []
kept_lines o prefix k (l ∷ ls) = kept_line o prefix k l ++ kept_lines o prefix (suc k) ls

read_line_short :
    (o : Options) (k : ℕ) (l : List ℕ) (d : Bool) (rest : List Item)
    → IsText l
    → length l < k
    → read_line o k d (map item l ++ (item b'\n' ∷ rest))
      ≡ (map (replaced o) l, at_newline false, rest)
unfolding read_line
read_line_short o zero l d rest h lt = absurd (omega arith)
read_line_short o (suc k) [] d rest h lt = refl
read_line_short o (suc k) (c ∷ l) d rest (h, hs) lt =
    rw (h, read_line_short o k l false rest hs (omega arith)) refl

read_line_long :
    (o : Options) (k : ℕ) (l : List ℕ) (rest : List Item)
    → IsText l
    → k ≤ length l
    → read_line o k false (map item l ++ (item b'\n' ∷ rest))
      ≡ (map (replaced o) (take k l), at_limit false, map item (drop k l) ++ (item b'\n' ∷ rest))
unfolding read_line
read_line_long o zero l rest h le = refl
read_line_long o (suc k) [] rest h le = absurd (omega arith)
read_line_long o (suc k) (c ∷ l) rest (h, hs) le =
    rw (h, read_line_long o k l rest hs (omega arith)) refl

read_line_tail :
    (o : Options) (k : ℕ) (t : List ℕ) (d : Bool)
    → IsText t
    → length t < k
    → (read_line o k d (map item t)).1 ≡ at_end
unfolding read_line
read_line_tail o zero t d h lt = absurd (omega arith)
read_line_tail o (suc k) [] d h lt = refl
read_line_tail o (suc k) (c ∷ t) d (h, hs) lt = rw h (read_line_tail o k t false hs (omega arith))

IsText-drop : (k : ℕ) (l : List ℕ) → IsText l → IsText (drop k l)
IsText-drop zero l h = h
IsText-drop (suc k) [] h = h
IsText-drop (suc k) (c ∷ l) (h, hs) = IsText-drop k l hs

rest_of_line_lem :
    (l : List ℕ) (rest : List Item)
    → IsText l
    → rest_of_line (map item l ++ (item b'\n' ∷ rest)) ≡ (l, rest)
unfolding rest_of_line
rest_of_line_lem [] rest h = refl
rest_of_line_lem (c ∷ l) rest (h, hs) = rw (h, rest_of_line_lem l rest hs) refl

-- What a turn gives such a directory.
abbrev turn_events : List ℕ → List ℕ → List ℕ → Logdir → List Event
turn_events stamp line more ld =
    into_buffer (labelled stamp ld line)
    ∷ (map (λ c. into_buffer (c ∷ [])) more ++ (into_buffer (b'\n' ∷ []) ∷ []))

turn_all :
    (o : Options) (net : Net) (k : ℕ) (line : List ℕ) (full : Bool) (more : List ℕ) (ld : Logdir)
    → TakesAll ld
    → turn o net k line full more ld ≡ some (ld, turn_events (o.stamp k) line more ld)
unfolding turn classified first_part other_parts
turn_all o net k line full more ld h =
    rw (h.opened, h.unselected, h.chosen, h.no_errors, h.no_udp, h.not_only) refl

-- The bytes of a turn.
buffered-bytes :
    (more : List ℕ) (es : List Event)
    → buffered (map (λ c. into_buffer (c ∷ [])) more ++ es) ≡ more ++ buffered es
buffered-bytes [] es = refl
buffered-bytes (c ∷ more) es = ap (λ x. c ∷ x) (buffered-bytes more es)

buffered-append : (es fs : List Event) → buffered (es ++ fs) ≡ buffered es ++ buffered fs
buffered-append [] fs = refl
buffered-append (into_buffer l ∷ es) fs =
    ap (λ x. l ++ x) (buffered-append es fs) ∙ sym (append_assoc l (buffered es) (buffered fs))
buffered-append (on_stderr l ∷ es) fs = buffered-append es fs
buffered-append (sent l ∷ es) fs = buffered-append es fs
buffered-append (warned_socket l ∷ es) fs = buffered-append es fs
buffered-append (warned_sending l ∷ es) fs = buffered-append es fs

buffered-turn :
    (stamp line more : List ℕ) (ld : Logdir)
    → buffered (turn_events stamp line more ld)
      ≡ stamp ++ (ld.prefix ++ (line ++ (more ++ (b'\n' ∷ []))))
buffered-turn stamp line more ld =
    ap (λ x. labelled stamp ld line ++ x) (buffered-bytes more (into_buffer (b'\n' ∷ []) ∷ []))
    ∙ append_assoc stamp (ld.prefix ++ line) (more ++ (b'\n' ∷ []))
    ∙ ap (λ x. stamp ++ x) (append_assoc ld.prefix line (more ++ (b'\n' ∷ [])))

take-all : (k : ℕ) (l : List ℕ) → length l ≤ k → take k l ≡ l
take-all zero [] h = refl
take-all zero (c ∷ l) h = absurd (omega arith)
take-all (suc k) [] h = refl
take-all (suc k) (c ∷ l) h = ap (λ x. c ∷ x) (take-all k l (omega arith))

drop-all : (k : ℕ) (l : List ℕ) → length l ≤ k → drop k l ≡ []
drop-all zero [] h = refl
drop-all zero (c ∷ l) h = absurd (omega arith)
drop-all (suc k) [] h = refl
drop-all (suc k) (c ∷ l) h = drop-all k l (omega arith)

-- One round on one line: the events, of which the buffer's are the line as it is kept.
round_line :
    (o : Options) (net : Net) (k : ℕ) (l : List ℕ) (rest : List Item) (ld : Logdir)
    (next : List Item → Logdir → Option (Logdir × List Event))
    → IsText l
    → TakesAll ld
    → (es : List Event) × (round o net k
          (read_line o o.linemax false (map item l ++ (item b'\n' ∷ rest)))
          ld
          next
        ≡ before_events es (next rest ld))
      × (buffered es ≡ kept_line o ld.prefix k l)
unfolding round
round_line o net k l rest ld next h t = elim (Bool-cases (ltb (length l) o.linemax)) [
  | inl y ↦
      let le : length l ≤ o.linemax = ground arith in
      (
        turn_events (o.stamp k) (map (replaced o) l) [] ld,
        rw
            (
              read_line_short o o.linemax l false rest h (ground arith),
              turn_all o net k (map (replaced o) l) false [] ld t,
            )
            refl,
        buffered-turn (o.stamp k) (map (replaced o) l) [] ld
            ∙ rw (take-all o.linemax l le, drop-all o.linemax l le) refl,
      )
  | inr q ↦
      let line = map (replaced o) (take o.linemax l) in
      let more = drop o.linemax l in
      (
        turn_events (o.stamp k) line more ld,
        rw
            (
              read_line_long o o.linemax l rest h (ground arith),
              rest_of_line_lem more rest (IsText-drop o.linemax l h),
              turn_all o net k line true more ld t,
            )
            refl,
        buffered-turn (o.stamp k) line more ld,
      )
]

round_end :
    (o : Options) (net : Net) (k : ℕ) (r : List ℕ × Stop × List Item) (ld : Logdir)
    (next : List Item → Logdir → Option (Logdir × List Event))
    → r.1 ≡ at_end
    → round o net k r ld next ≡ some (ld, [])
unfolding round
round_end o net k (line, stop, items) ld next e = rw e refl

-- A directory without a selection, which writes nothing to the standard error and uses no udp, gets lines, and
-- text behind the last newline that is shorter than `linemax`; SIGTERM does not come. With more fuel
-- than there are lines the loop ends, the directory's settings are the same, and what went into its
-- buffer is, line by line, the stamp, the prefix, and the line with its newline, of which
-- the first `linemax` bytes are replaced as -r and -R say, and the others are as they came; of
-- the text behind the last newline nothing.
pub main_loop_keeps :
    (o : Options) (net : Net) (fuel k : ℕ) (ls : List (List ℕ)) (t : List ℕ) (ld : Logdir)
    → TakesAll ld
    → All IsText ls
    → IsText t
    → length t < o.linemax
    → length ls < fuel
    → (es : List Event) × (main_loop o net fuel k (items_of ls t) ld ≡ some (ld, es))
      × (buffered es ≡ kept_lines o ld.prefix k ls)
unfolding main_loop
main_loop_keeps o net zero k ls t ld h hs ht lt f = absurd (omega arith)
main_loop_keeps o net (suc fuel) k [] t ld h hs ht lt f = (
  [],
  round_end o net k (read_line o o.linemax false (map item t)) ld (main_loop o net fuel (suc k))
      (read_line_tail o o.linemax t false ht lt),
  refl,
)
main_loop_keeps o net (suc fuel) k (l ∷ ls) t ld h (hl, hs) ht lt f =
    let (es, e, b) = main_loop_keeps o net fuel (suc k) ls t ld h hs ht lt (omega arith) in
    let (fs, e', b') =
      round_line o net k l (items_of ls t) ld (main_loop o net fuel (suc k)) hl h in
    (
      fs ++ es,
      e' ∙ ap (before_events fs) e,
      buffered-append fs es
          ∙ ap (λ x. x ++ buffered es) b'
          ∙ ap (λ x. kept_line o ld.prefix k l ++ x) b,
    )
