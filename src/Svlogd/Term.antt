-- ===== src/Svlogd/Term.antt =====
-- utils/svlogd.c: how input arrives, and what SIGTERM does to a line.

use runit.Base.{
  ℕ, zero, suc, ◌≡◌, ◌<◌, Bool, true, false, List, [], ◌∷◌, ◌++◌, Option, some, length, map, arith,
  refl, sym, ◌∙◌, ap, All, map-append, ◌≢◌, append-nil,
}
use runit.Svlogd.Defs.{Logdir}
use runit.Svlogd.Input.{Got, again, ended, bytes, Wake, Item, chunk, complete, input, input_wake}
use runit.Svlogd.Line.{Options, Net, Event, Stop, at_newline, read_line, round, main_loop}
use runit.Svlogd.Rendered.{item, IsText, items_of, TakesAll, buffered, kept_lines, main_loop_keeps}

-- Bytes or an interrupted wait, without SIGTERM.
abbrev pub IsCalm : Wake → Type 0
IsCalm w = (w.term ≡ false) × (w.got ≢ ended)

abbrev got_bytes : Got → List ℕ
got_bytes again = []
got_bytes ended = []
got_bytes (bytes c l) = c ∷ l

abbrev pub arriving : List Wake → List ℕ
arriving [] = []
arriving (w ∷ ws) = got_bytes w.got ++ arriving ws

chunk_calm : (c : ℕ) (l : List ℕ) → chunk false c l ≡ map item (c ∷ l)
unfolding chunk
chunk_calm c [] = refl
chunk_calm c (d ∷ l) = ap (λ x. item c ∷ x) (chunk_calm d l)

input_wake_calm :
    (g : Got) (next : Bool → Bool → List Item) (bs : List ℕ) (lc : Bool)
    → g ≢ ended
    → ((lc : Bool) → next false lc ≡ map item bs)
    → input_wake g false next false lc ≡ map item (got_bytes g ++ bs)
unfolding input_wake
input_wake_calm again next bs lc ne h = h lc
input_wake_calm ended next bs lc ne h = absurd (ne refl)
input_wake_calm (bytes c l) next bs lc ne h =
    ap (λ x. x ++ next false (complete c l)) (chunk_calm c l)
    ∙ ap (λ x. map item (c ∷ l) ++ x) (h (complete c l))
    ∙ sym (map-append item (c ∷ l) bs)

input_calm :
    (ws : List Wake) (lc : Bool) → All IsCalm ws → input ws false lc ≡ map item (arriving ws)
unfolding input
input_calm [] lc h = refl
input_calm (w ∷ ws) lc ((t, g), hs) =
    ap (λ b. input_wake w.got b (input ws) false lc) t
    ∙ input_wake_calm w.got (input ws) (arriving ws) lc g (λ lc'. input_calm ws lc' hs)

-- Lines, each with its newline, and text behind.
abbrev pub text_of : List (List ℕ) → List ℕ → List ℕ
text_of [] t = t
text_of (l ∷ ls) t = l ++ (b'\n' ∷ text_of ls t)

items-text_of : (ls : List (List ℕ)) (t : List ℕ) → map item (text_of ls t) ≡ items_of ls t
items-text_of [] t = refl
items-text_of (l ∷ ls) t =
    map-append item l (b'\n' ∷ text_of ls t)
    ∙ ap (λ x. map item l ++ (item b'\n' ∷ x)) (items-text_of ls t)

-- Without SIGTERM it does not matter in what pieces the input arrives, nor how often the wait for it
-- is interrupted. A directory without a selection, which writes nothing to the
-- standard error and uses no udp, gets lines, and text behind the last newline that is shorter than `linemax`. With more
-- fuel than there are lines the loop ends, and the directory's buffer has got, line by line, the
-- stamp, the prefix, and the line with its newline, of which the first `linemax` bytes are replaced as
-- -r and -R say, and the others are as they came; of the text behind the last newline nothing.
pub svlogd_keeps :
    (o : Options) (net : Net) (fuel k : ℕ) (ws : List Wake) (ls : List (List ℕ)) (t : List ℕ)
    (ld : Logdir)
    → All IsCalm ws
    → arriving ws ≡ text_of ls t
    → TakesAll ld
    → All IsText ls
    → IsText t
    → length t < o.linemax
    → length ls < fuel
    → (es : List Event) × (main_loop o net fuel k (input ws false true) ld ≡ some (ld, es))
      × (buffered es ≡ kept_lines o ld.prefix k ls)
svlogd_keeps o net fuel k ws ls t ld calm e h hs ht lt f =
    let (es, p, b) = main_loop_keeps o net fuel k ls t ld h hs ht lt f in
    let i = input_calm ws true calm ∙ ap (map item) e ∙ items-text_of ls t in
    (es, ap (λ x. main_loop o net fuel k x ld) i ∙ p, b)

input_wake_stops :
    (g : Got) (t : Bool) (next : Bool → Bool → List Item) → input_wake g t next true true ≡ []
unfolding input_wake
input_wake_stops again t next = refl
input_wake_stops ended t next = refl
input_wake_stops (bytes c l) t next = refl

-- Behind a complete line SIGTERM ends the input.
input_stops : (ws : List Wake) → input ws true true ≡ []
unfolding input
input_stops [] = refl
input_stops (w ∷ ws) = input_wake_stops w.got w.term (input ws)

-- A line with its newline, as `read` returns it.
abbrev pub got_line : List ℕ → Got
got_line [] = bytes b'\n' []
got_line (c ∷ l) = bytes c (l ++ (b'\n' ∷ []))

-- A newline behind which the buffer is empty, with `exitasap`.
abbrev last_newline : List Item
last_newline = record { value = b'\n'; drained = true } ∷ []

chunk-line :
    (c : ℕ) (l : List ℕ) → chunk true c (l ++ (b'\n' ∷ [])) ≡ map item (c ∷ l) ++ last_newline
unfolding chunk
chunk-line c [] = refl
chunk-line c (d ∷ l) = ap (λ x. item c ∷ x) (chunk-line d l)

complete-line : (c : ℕ) (l : List ℕ) → complete c (l ++ (b'\n' ∷ [])) ≡ true
unfolding complete
complete-line c [] = refl
complete-line c (d ∷ l) = complete-line d l

input-line :
    (l : List ℕ) (ws : List Wake) (lc : Bool)
    → input (record { term = true; got = got_line l } ∷ ws) false lc ≡ map item l ++ last_newline
unfolding input input_wake chunk complete
input-line [] ws lc = ap (λ x. last_newline ++ x) (input_stops ws)
input-line (c ∷ l) ws lc =
    ap (λ b. chunk true c (l ++ (b'\n' ∷ [])) ++ input ws true b) (complete-line c l)
    ∙ ap (λ x. chunk true c (l ++ (b'\n' ∷ [])) ++ x) (input_stops ws)
    ∙ append-nil (chunk true c (l ++ (b'\n' ∷ [])))
    ∙ chunk-line c l

read_line_drained :
    (o : Options) (k : ℕ) (l : List ℕ) (d : Bool)
    → IsText l
    → length l < k
    → (read_line o k d (map item l ++ last_newline)).1 ≡ at_newline true
unfolding read_line
read_line_drained o zero l d h lt = absurd (omega arith)
read_line_drained o (suc k) [] d h lt = refl
read_line_drained o (suc k) (c ∷ l) d (h, hs) lt =
    rw h (read_line_drained o k l false hs (omega arith))

round_drained :
    (o : Options) (net : Net) (k : ℕ) (r : List ℕ × Stop × List Item) (ld : Logdir)
    (next : List Item → Logdir → Option (Logdir × List Event))
    → r.1 ≡ at_newline true
    → round o net k r ld next ≡ some (ld, [])
unfolding round
round_drained o net k (line, stop, items) ld next e = rw e refl

-- A line shorter than `linemax` arrives with its newline in one read, and SIGTERM comes during the wait
-- before. Then the loop ends, whatever would come later, and no directory, whatever its settings,
-- gets anything of the line.
pub term_loses_line :
    (o : Options) (net : Net) (fuel k : ℕ) (l : List ℕ) (ws : List Wake) (lc : Bool) (ld : Logdir)
    → IsText l
    → length l < o.linemax
    → main_loop o net
        (suc fuel)
        k
        (input (record { term = true; got = got_line l } ∷ ws) false lc)
        ld
      ≡ some (ld, [])
unfolding main_loop
term_loses_line o net fuel k l ws lc ld h lt =
    ap (λ x. main_loop o net (suc fuel) k x ld) (input-line l ws lc)
    ∙ round_drained o net k (read_line o o.linemax false (map item l ++ last_newline)) ld
        (main_loop o net fuel (suc k)) (read_line_drained o o.linemax l false h lt)
