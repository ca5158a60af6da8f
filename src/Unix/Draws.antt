-- ===== src/Unix/Draws.antt =====
-- libunix/buffer_get.c: what an input buffer hands out.
use runit.Base.{
  ℕ, zero, suc, ◌+◌, ◌-◌, ◌≡◌, ◌≤◌, Bool, true, false, List, [], ◌∷◌, ◌++◌, if◌then◌else◌, ltb, leb,
  length, take, drop, min, arith, refl, sym, ap, ◌∙◌, append_assoc,
}
use runit.Unix.Output.{Answer, interrupted, failed, took}
use runit.Unix.Stream.{take-drop, length-drop}
use runit.Unix.Input.{
  Reader, Got, bytes, error, waiting, content, oneread, read_in, getthis, buffer_feed, get_fed,
  buffer_get, buffer_bget,
}

-- The bytes returned, those held, and those behind the descriptor are these, no more are returned
-- than were asked for, and the buffer keeps its size.
pub record Draws (all : List ℕ) (len size : ℕ) (r : Got) (s : Reader) : Type 0 where
  pub split : content r ++ (s.held ++ s.source) ≡ all
  pub bounded : length (content r) ≤ len
  pub same_size : s.n + length s.held ≡ size

oneread_takes :
    (answers : List Answer) (len : ℕ) (source : List ℕ)
    → (k : ℕ) × (k ≤ len) × (content (oneread answers len source).0 ≡ take k source)
unfolding oneread
oneread_takes [] len source = (0, omega arith, refl)
oneread_takes (interrupted ∷ rest) len source = oneread_takes rest len source
oneread_takes (failed ∷ rest) len source = (0, omega arith, refl)
oneread_takes (took k ∷ rest) len source = (min k len, omega arith, refl)

drop-length-take : (k : ℕ) (xs : List ℕ) → drop (length (take k xs)) xs ≡ drop k xs
drop-length-take zero xs = refl
drop-length-take (suc k) [] = refl
drop-length-take (suc k) (x ∷ xs) = drop-length-take k xs

length-take_bound : (k : ℕ) (xs : List ℕ) → length (take k xs) ≤ k
length-take_bound zero xs = omega arith
length-take_bound (suc k) [] = omega arith
length-take_bound (suc k) (x ∷ xs) = omega (arith, length-take_bound k xs)

-- The bytes that a read takes are the first ones, and not too many.
taken :
    (source got : List ℕ) (k len : ℕ)
    → k ≤ len
    → got ≡ take k source
    → (got ++ drop (length got) source ≡ source) × (length got ≤ len)
taken source got k len h e = (
  rw e (ap (λ r. take k source ++ r) (drop-length-take k source) ∙ take-drop k source),
  rw e (omega (arith, length-take_bound k source)),
)

read_in_takes :
    (len : ℕ) (s : Reader)
    → (content (read_in len s).0 ++ (read_in len s).1.source ≡ s.source)
      × (length (content (read_in len s).0) ≤ len)
unfolding read_in
read_in_takes len s =
    let (k, h, e) = oneread_takes s.answers len s.source in
    taken s.source (content (oneread s.answers len s.source).0) k len h e

read_in-Draws :
    (len bound : ℕ) (s : Reader)
    → s.held ≡ []
    → len ≤ bound
    → Draws s.source bound s.n (read_in len s).0 (read_in len s).1
unfolding read_in
read_in-Draws len bound s h le =
    let (e, b) = read_in_takes len s in
    record { split = rw h e; bounded = omega (arith, b); same_size = rw h (omega arith) }

getthis-Draws :
    (len : ℕ) (s : Reader)
    → Draws (s.held ++ s.source) len (s.n + length s.held) (getthis len s).0 (getthis len s).1
unfolding getthis
getthis-Draws len s =
    let m = min len (length s.held) in
    record {
      split =
          sym (append_assoc (take m s.held) (drop m s.held) s.source)
          ∙ ap (λ r. r ++ s.source) (take-drop m s.held);
      bounded = omega (arith, length-take_bound m s.held);
      same_size = omega (arith, length-drop m s.held);
    }

get_fed-Draws :
    (len : ℕ) (r : Got) (s : Reader) (all : List ℕ) (size : ℕ)
    → s.held ≡ content r
    → s.held ++ s.source ≡ all
    → s.n + length s.held ≡ size
    → Draws all len size (get_fed len (r, s)).0 (get_fed len (r, s)).1
unfolding get_fed
get_fed-Draws len (bytes (b ∷ bs)) s all size h e z =
    let d = getthis-Draws len s in
    record { split = d.split ∙ e; bounded = d.bounded; same_size = d.same_size ∙ z }
get_fed-Draws len (bytes []) s all size h e z = record {
  split = e;
  bounded = omega arith;
  same_size = z;
}
get_fed-Draws len error s all size h e z = record {
  split = e;
  bounded = omega arith;
  same_size = z;
}
get_fed-Draws len waiting s all size h e z = record {
  split = e;
  bounded = omega arith;
  same_size = z;
}

fed-Draws :
    (len : ℕ) (s : Reader)
    → Draws s.source len s.n (get_fed len (buffer_feed s)).0 (get_fed len (buffer_feed s)).1
unfolding buffer_feed
fed-Draws len s =
    let (e, b) = read_in_takes s.n s in
    let r = (read_in s.n s).0 in
    let s₁ : Reader = record (read_in s.n s).1 { held = content r; n = s.n - length (content r) } in
    get_fed-Draws len r s₁ s.source s.n refl e (omega (arith, b))

-- A choice that draws on both branches.
if-Draws :
    (b : Bool) (x y : Got × Reader) (all : List ℕ) (len size : ℕ)
    → (b ≡ true → Draws all len size x.0 x.1)
    → (b ≡ false → Draws all len size y.0 y.1)
    → let p = if b then x else y in Draws all len size p.0 p.1
if-Draws true x y all len size h k = h refl
if-Draws false x y all len size h k = k refl

-- From an empty buffer.
empty-Draws :
    (len : ℕ) (s : Reader) (r : Got) (s' : Reader)
    → ltb 0 (length s.held) ≡ false
    → Draws s.source len s.n r s'
    → Draws (s.held ++ s.source) len (s.n + length s.held) r s'
empty-Draws len s r s' n d =
    let e : s.held ≡ [] = ground arith in
    record {
      split = rw e d.split;
      bounded = d.bounded;
      same_size = rw e (d.same_size ∙ omega arith);
    }

-- However `op` answers, the bytes that `buffer_get` returns, then those that it keeps, then those
-- still behind the descriptor, are those that were kept and those that were behind the descriptor. It
-- returns at most `len` bytes, and keeps no more than fit into the buffer. The same holds of
-- `buffer_bget`.
pub buffer_get-Draws :
    (len : ℕ) (s : Reader)
    → Draws (s.held ++ s.source) len (s.n + length s.held) (buffer_get len s).0 (buffer_get len s).1
      × Draws
          (s.held ++ s.source)
          len
          (s.n + length s.held)
          (buffer_bget len s).0
          (buffer_bget len s).1
unfolding buffer_get buffer_bget
buffer_get-Draws len s =
    let all = s.held ++ s.source in
    let size = s.n + length s.held in
    let fed = get_fed len (buffer_feed s) in
    let no_held : ltb 0 (length s.held) ≡ false → s.held ≡ [] = λ n. ground arith in
    (
      if-Draws (ltb 0 (length s.held)) (getthis len s) _ all len size (λ _. getthis-Draws len s)
          (λ n.
            if-Draws (leb s.n len) (read_in len s) fed all len size
              (λ y. empty-Draws len s _ _ n (read_in-Draws len len s (no_held n) (omega arith)))
              (λ y. empty-Draws len s _ _ n (fed-Draws len s))),
      if-Draws (ltb 0 (length s.held)) (getthis len s) _ all len size (λ _. getthis-Draws len s)
          (λ n.
            if-Draws (leb s.n len) (read_in s.n s) fed all len size
              (λ y. empty-Draws len s _ _ n (read_in-Draws s.n len s (no_held n) (ground arith)))
              (λ y. empty-Draws len s _ _ n (fed-Draws len s))),
    )
