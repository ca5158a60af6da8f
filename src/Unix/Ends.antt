-- ===== src/Unix/Ends.antt =====
-- libunix/buffer_put.c: when an output operation returns.
use runit.Base.{
  ℕ, zero, suc, ◌+◌, ◌-◌, ◌≡◌, ◌≢◌, ◌≤◌, List, [], ◌∷◌, ltb, length, take, drop, min, max, arith,
  refl, Bool-cases, inl, inr,
}
use runit.Unix.Output.{
  Answer, interrupted, failed, took, Buffer, Status, done, error, waiting, if_done, buffer_outsize,
  allwrite, send_out, buffer_flush, put_large, hold, put_flushed, buffer_put,
}
use runit.Unix.Stream.{length-drop}

-- How many of the answers take something.
abbrev pub progress : List Answer → ℕ
progress [] = 0
progress (took (suc w) ∷ rest) = suc (progress rest)
progress (_ ∷ rest) = progress rest

-- An end, and if it is a good one, at most `n` of the answers that take something are used up.
abbrev Ends : Status → ℕ → ℕ → ℕ → Type 0
Ends done before n after = before ≤ after + n
Ends error before n after = Unit
Ends waiting before n after = ⊥

Ends-took : (r : Status) (b n m a : ℕ) → Ends r b n a → n + 1 ≤ m → Ends r (suc b) m a
Ends-took done b n m a h k = omega arith
Ends-took error b n m a h k = tt
Ends-took waiting b n m a h k = absurd h

allwrite-Ends :
    (answers : List Answer) (buf : List ℕ)
    → length buf ≤ progress answers
    → Ends
        (allwrite answers buf).0
        (progress answers)
        (length buf)
        (progress (allwrite answers buf).2)
unfolding allwrite
allwrite-Ends answers [] h = omega arith
allwrite-Ends [] (b ∷ buf) h = absurd (omega arith)
allwrite-Ends (interrupted ∷ rest) (b ∷ buf) h = allwrite-Ends rest (b ∷ buf) h
allwrite-Ends (failed ∷ rest) (b ∷ buf) h = tt
allwrite-Ends (took zero ∷ rest) (b ∷ buf) h = allwrite-Ends rest (b ∷ buf) h
allwrite-Ends (took (suc w) ∷ rest) (b ∷ buf) h =
    let l = length-drop w buf in
    let k = allwrite-Ends rest (drop w buf) (omega arith) in
    Ends-took (allwrite rest (drop w buf)).0 (progress rest) (length (drop w buf))
      (length (b ∷ buf)) (progress (allwrite rest (drop w buf)).2) k (omega arith)

send_out-Ends :
    (buf : List ℕ) (s : Buffer)
    → length buf ≤ progress s.answers
    → Ends
        (send_out buf s).0
        (progress s.answers)
        (length buf)
        (progress (send_out buf s).1.answers)
unfolding send_out
send_out-Ends buf s h = allwrite-Ends s.answers buf h

-- A part that ended, and then the rest.
then-Ends :
    {A : Type 0} (r : Status) (status : A → Status) (x y : A) (b n : ℕ) (a m : ℕ)
    → Ends r b n a
    → (r ≡ done → status x ≢ waiting)
    → status y ≡ r
    → status (if_done r x y) ≢ waiting
then-Ends done status x y b n a m h k e = k refl
then-Ends error status x y b n a m h k e = λ w. cc
then-Ends waiting status x y b n a m h k e = absurd h

length-take : (n : ℕ) (xs : List ℕ) → length (take n xs) ≡ min n (length xs)
length-take zero xs = omega arith
length-take (suc n) [] = omega arith
length-take (suc n) (x ∷ xs) = omega (arith, length-take n xs)

put_large_ends :
    (f n : ℕ) (buf : List ℕ) (s : Buffer)
    → length buf ≤ progress s.answers
    → (put_large f n buf s).0 ≢ waiting
unfolding put_large
put_large_ends zero n buf s h = λ w. cc
put_large_ends (suc f) n buf s h =
    let m = min n (length buf) in
    let t = length-take m buf in
    let d = length-drop m buf in
    let s₁ = (send_out (take m buf) s).1 in
    let e = send_out-Ends (take m buf) s (omega arith) in
    elim (Bool-cases (ltb s.size (length buf))) [
      | inl y ↦ rw y (
          then-Ends (send_out (take m buf) s).0 (λ (p : Status × List ℕ × Buffer). p.0)
            (put_large f m (drop m buf) s₁) ((send_out (take m buf) s).0, drop m buf, s₁)
            (progress s.answers) (length (take m buf)) (progress s₁.answers) 0 e
            (λ k. put_large_ends f m (drop m buf) s₁ (ground (arith, e, k, t, d))) refl)
      | inr y ↦ rw y (λ w. cc)
    ]

put_flushed_ends :
    (buf : List ℕ) (s : Buffer) → length buf ≤ progress s.answers → (put_flushed buf s).0 ≢ waiting
unfolding put_flushed
put_flushed_ends buf s h =
    let n = max s.size buffer_outsize in
    let p = put_large (length buf) n buf s in
    good p.0 p.1 p.2 (put_large_ends (length buf) n buf s h)
  where
    good :
        (r : Status) (rest : List ℕ) (s₁ : Buffer)
        → r ≢ waiting
        → let p : Status × Buffer = if_done r (done, hold rest s₁) (r, s₁) in p.0 ≢ waiting
    good done rest s₁ k = λ w. cc
    good error rest s₁ k = k
    good waiting rest s₁ k = k

-- `buffer_put` returns, with 0 or with -1, when at least as many of the answers take something as
-- there are bytes held and put, whatever number of interruptions and of empty answers come between.
pub buffer_put_ends :
    (buf : List ℕ) (s : Buffer)
    → length s.held + length buf ≤ progress s.answers
    → (buffer_put buf s).0 ≢ waiting
unfolding buffer_put buffer_flush
buffer_put_ends buf s h =
    let s₀ : Buffer = record s { held = [] } in
    let s₁ = (send_out s.held s₀).1 in
    let e = send_out-Ends s.held s₀ (omega arith) in
    elim (Bool-cases (ltb (s.size - length s.held) (length buf))) [
      | inl y ↦ rw y (
          then-Ends (send_out s.held s₀).0 (λ (p : Status × Buffer). p.0) (put_flushed buf s₁)
            ((send_out s.held s₀).0, s₁) (progress s.answers) (length s.held) (progress s₁.answers)
            0 e (λ k. put_flushed_ends buf s₁ (ground (arith, e, k))) refl)
      | inr n ↦ rw n (λ w. cc)
    ]
