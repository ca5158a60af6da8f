-- ===== src/Unix/Input.antt =====
-- libunix/buffer.h, buffer_get.c: input through a buffer.
use runit.Base.{ℕ, ◌+◌, ◌-◌, List, [], ◌∷◌, if◌then◌else◌, ltb, leb, length, take, drop, min}
use runit.Unix.Output.{Answer, interrupted, failed, took}

-- `s->x[s->n .. s->n + s->p)`, `s->n`, the bytes behind the descriptor, and the answers to come:
-- `took n` gives at most `n` of these bytes.
pub record Reader : Type 0 where
  pub held : List ℕ
  pub n : ℕ
  pub source : List ℕ
  pub answers : List Answer

-- What a call returns: the bytes, of which there are none at the end, or -1, or it has no end yet.
pub data Got : Type 0 where
  bytes : List ℕ → Got
  error waiting : Got

-- `oneread`, with the answers left.
unfoldable pub oneread : List Answer → ℕ → List ℕ → Got × List Answer
oneread [] len source = (waiting, [])
oneread (interrupted ∷ rest) len source = oneread rest len source
oneread (failed ∷ rest) len source = (error, rest)
oneread (took k ∷ rest) len source = (bytes (take (min k len) source), rest)

-- The bytes of a result.
abbrev pub content : Got → List ℕ
content (bytes b) = b
content _ = []

-- `oneread(s->op, s->fd, …, len)` on the buffer's descriptor.
unfoldable pub read_in : ℕ → Reader → Got × Reader
unfolding oneread
read_in len s =
    let (r, left) = oneread s.answers len s.source in
    (r, record s { source = drop (length (content r)) s.source; answers = left })

unfoldable pub getthis : ℕ → Reader → Got × Reader
getthis len s =
    let m = min len (length s.held) in
    (bytes (take m s.held), record s { held = drop m s.held; n = s.n + m })

-- `buffer_feed` of an empty buffer. Nothing is stored at the end of the file or on an error.
unfoldable pub buffer_feed : Reader → Got × Reader
unfolding read_in
buffer_feed s =
    let (r, s₁) = read_in s.n s in (r, record s₁ { held = content r; n = s.n - length (content r) })

-- `if (r <= 0) return r; return getthis(s,buf,len);`
unfoldable pub get_fed : ℕ → Got × Reader → Got × Reader
unfolding getthis
get_fed len (bytes (b ∷ bs), s) = getthis len s
get_fed len (r, s) = (r, s)

unfoldable pub buffer_get : ℕ → Reader → Got × Reader
unfolding getthis read_in buffer_feed get_fed
buffer_get len s =
    if ltb 0 (length s.held)
    then getthis len s
    else if leb s.n len
    then read_in len s
    else get_fed len (buffer_feed s)

-- As `buffer_get`, but a direct read asks for `s->n` bytes only.
unfoldable pub buffer_bget : ℕ → Reader → Got × Reader
unfolding getthis read_in buffer_feed get_fed
buffer_bget len s =
    if ltb 0 (length s.held)
    then getthis len s
    else if leb s.n len
    then read_in s.n s
    else get_fed len (buffer_feed s)
