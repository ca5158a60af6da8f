-- ===== src/Unix/Stream.antt =====
-- libunix/buffer_put.c: the bytes that go out, and those that are left.
use runit.Base.{
  ℕ, zero, suc, ◌-◌, ◌≡◌, ◌≤◌, ◌<◌, List, [], ◌∷◌, ◌++◌, ltb, length, take, drop, min, arith, refl,
  sym, ap, ◌∙◌, append_assoc, Bool-cases, inl, inr,
}
use runit.Unix.Output.{
  Answer, interrupted, failed, took, Buffer, Status, done, error, waiting, if_done, allwrite,
  send_out, put_large,
}

-- Nothing is lost when all is done.
abbrev pub NoneLost : Status → List ℕ → Type 0
NoneLost done lost = lost ≡ []
NoneLost _ lost = Unit

pub take-drop : (n : ℕ) (xs : List ℕ) → take n xs ++ drop n xs ≡ xs
take-drop zero xs = refl
take-drop (suc n) [] = refl
take-drop (suc n) (x ∷ xs) = ap (λ r. x ∷ r) (take-drop n xs)

-- The bytes that were taken are the first ones.
allwrite_sends :
    (answers : List Answer) (buf : List ℕ)
    → (lost : List ℕ) × ((allwrite answers buf).1 ++ lost ≡ buf)
      × NoneLost (allwrite answers buf).0 lost
unfolding allwrite
allwrite_sends answers [] = ([], refl, refl)
allwrite_sends [] (b ∷ buf) = (b ∷ buf, refl, tt)
allwrite_sends (interrupted ∷ rest) (b ∷ buf) = allwrite_sends rest (b ∷ buf)
allwrite_sends (failed ∷ rest) (b ∷ buf) = (b ∷ buf, refl, tt)
allwrite_sends (took w ∷ rest) (b ∷ buf) =
    let (lost, e, n) = allwrite_sends rest (drop w (b ∷ buf)) in
    (
      lost,
      append_assoc (take w (b ∷ buf)) (allwrite rest (drop w (b ∷ buf))).1 lost
          ∙ ap (λ r. take w (b ∷ buf) ++ r) e
          ∙ take-drop w (b ∷ buf),
      n,
    )

-- The bytes that are out, those that are held, and some that are lost, are these.
pub record Delivers (bytes : List ℕ) (size : ℕ) (r : Status) (s : Buffer) : Type 0 where
  pub lost : List ℕ
  pub split : s.out ++ (s.held ++ lost) ≡ bytes
  pub none_lost : NoneLost r lost
  pub fits : length s.held ≤ size
  pub same_size : s.size ≡ size

pub send_out-Delivers :
    (buf : List ℕ) (s : Buffer)
    → s.held ≡ []
    → Delivers (s.out ++ buf) s.size (send_out buf s).0 (send_out buf s).1
unfolding send_out
send_out-Delivers buf s h =
    let (lost, e, n) = allwrite_sends s.answers buf in
    record {
      lost = lost;
      split = rw h (append_assoc s.out (allwrite s.answers buf).1 lost ∙ ap (λ r. s.out ++ r) e);
      none_lost = n;
      fits = rw h (omega arith);
      same_size = refl;
    }

pub send_out_held : (buf : List ℕ) (s : Buffer) → (send_out buf s).1.held ≡ s.held
unfolding send_out
send_out_held buf s = refl

-- What is not out yet is what `put_large` leaves, and fits into the buffer, when all went well.
abbrev pub Left : Status → List ℕ → List ℕ → ℕ → Type 0
Left done ahead rest size = (ahead ≡ rest) × (length rest ≤ size)
Left _ ahead rest size = Unit

pub record Large (bytes : List ℕ) (size : ℕ) (r : Status) (rest : List ℕ) (s : Buffer)
    : Type 0 where
  pub ahead : List ℕ
  pub split : s.out ++ ahead ≡ bytes
  pub left : Left r ahead rest size
  pub empty : s.held ≡ []
  pub same_size : s.size ≡ size

-- The part that was sent, and then a round more.
sent_first :
    (m : ℕ) (buf lost : List ℕ) (s : Buffer)
    → (send_out (take m buf) s).1.out ++ lost ≡ s.out ++ take m buf
    → (send_out (take m buf) s).1.out ++ (lost ++ drop m buf) ≡ s.out ++ buf
sent_first m buf lost s e =
    sym (append_assoc (send_out (take m buf) s).1.out lost (drop m buf))
    ∙ ap (λ r. r ++ drop m buf) e
    ∙ append_assoc s.out (take m buf) (drop m buf)
    ∙ ap (λ r. s.out ++ r) (take-drop m buf)

pub length-drop : (n : ℕ) (xs : List ℕ) → length (drop n xs) ≡ length xs - n
length-drop zero xs = omega arith
length-drop (suc n) [] = omega arith
length-drop (suc n) (x ∷ xs) = omega (arith, length-drop n xs)

Large-round :
    (f m : ℕ) (buf : List ℕ) (s : Buffer) (r : Status) (lost : List ℕ)
    → (send_out (take m buf) s).0 ≡ r
    → s.held ≡ []
    → (send_out (take m buf) s).1.out ++ lost ≡ s.out ++ take m buf
    → NoneLost r lost
    → let s₁ = (send_out (take m buf) s).1 in
      let next = put_large f m (drop m buf) s₁ in
      Large (s₁.out ++ drop m buf) s.size next.0 next.1 next.2
      → let all = if_done r next (r, drop m buf, s₁) in
        Large (s.out ++ buf) s.size all.0 all.1 all.2
unfolding send_out
Large-round f m buf s done lost x h e n k = record {
  ahead = k.ahead;
  split =
      k.split
      ∙ ap (λ r. (send_out (take m buf) s).1.out ++ (r ++ drop m buf)) (sym n)
      ∙ sent_first m buf lost s e;
  left = k.left;
  empty = k.empty;
  same_size = k.same_size;
}
Large-round f m buf s error lost x h e n k = record {
  ahead = lost ++ drop m buf;
  split = sent_first m buf lost s e;
  left = tt;
  empty = h;
  same_size = refl;
}
Large-round f m buf s waiting lost x h e n k = record {
  ahead = lost ++ drop m buf;
  split = sent_first m buf lost s e;
  left = tt;
  empty = h;
  same_size = refl;
}

pub put_large-Large :
    (f n : ℕ) (buf : List ℕ) (s : Buffer)
    → 0 < n
    → length buf ≤ f
    → s.held ≡ []
    → let p = put_large f n buf s in Large (s.out ++ buf) s.size p.0 p.1 p.2
unfolding put_large
put_large-Large zero n buf s hn hf h = record {
  ahead = buf;
  split = refl;
  left = (refl, omega arith);
  empty = h;
  same_size = refl;
}
put_large-Large (suc f) n buf s hn hf h = elim (Bool-cases (ltb s.size (length buf))) [
  | inl y ↦
      let m = min n (length buf) in
      let d = send_out-Delivers (take m buf) s h in
      let r = (send_out (take m buf) s).0 in
      let e : (send_out (take m buf) s).1.out ++ d.lost ≡ s.out ++ take m buf =
        ap (λ x. (send_out (take m buf) s).1.out ++ (x ++ d.lost))
          (sym (send_out_held (take m buf) s ∙ h))
        ∙ d.split in
      let more =
        put_large-Large f m (drop m buf) (send_out (take m buf) s).1 (ground arith)
          (ground (arith, length-drop m buf)) (send_out_held (take m buf) s ∙ h) in
      rw y (Large-round f m buf s r d.lost refl h e d.none_lost more)
  | inr y ↦ rw y (record {
    ahead = buf;
    split = refl;
    left = (refl, ground arith);
    empty = h;
    same_size = refl;
  })
]
