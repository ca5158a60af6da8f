-- ===== src/Unix/Deliver.antt =====
-- libunix/buffer_put.c: what each operation of an output buffer delivers.
use runit.Base.{
  ℕ, ◌-◌, ◌≡◌, ◌≤◌, List, [], ◌++◌, ltb, length, max, arith, refl, sym, ap, ◌∙◌, append_assoc,
  append-nil, Bool-cases, inl, inr, length-append,
}
use runit.Unix.Output.{
  Buffer, Status, done, error, waiting, if_done, buffer_outsize, send_out, buffer_flush, put_large,
  hold, put_flushed, buffer_put, buffer_putflush,
}
use runit.Unix.Stream.{Delivers, Large, put_large-Large, send_out-Delivers, send_out_held}

-- The rest of `buf` is held after the large part.
Large-Delivers :
    (bytes : List ℕ) (size : ℕ) (r : Status) (rest : List ℕ) (s : Buffer)
    → Large bytes size r rest s
    → let p : Status × Buffer = if_done r (done, hold rest s) (r, s) in Delivers bytes size p.0 p.1
Large-Delivers bytes size done rest s k = record {
  lost = [];
  split =
      ap (λ x. s.out ++ x)
        (append-nil (s.held ++ rest) ∙ ap (λ h. h ++ rest) k.empty ∙ sym k.left.0)
      ∙ k.split;
  none_lost = refl;
  fits = rw k.empty k.left.1;
  same_size = k.same_size;
}
Large-Delivers bytes size error rest s k = record {
  lost = k.ahead;
  split = ap (λ h. s.out ++ (h ++ k.ahead)) k.empty ∙ k.split;
  none_lost = tt;
  fits = rw k.empty (omega arith);
  same_size = k.same_size;
}
Large-Delivers bytes size waiting rest s k = record {
  lost = k.ahead;
  split = ap (λ h. s.out ++ (h ++ k.ahead)) k.empty ∙ k.split;
  none_lost = tt;
  fits = rw k.empty (omega arith);
  same_size = k.same_size;
}

put_flushed-Delivers :
    (buf : List ℕ) (s : Buffer)
    → s.held ≡ []
    → Delivers (s.out ++ buf) s.size (put_flushed buf s).0 (put_flushed buf s).1
unfolding put_flushed
put_flushed-Delivers buf s h =
    let n = max s.size buffer_outsize in
    let p = put_large (length buf) n buf s in
    Large-Delivers (s.out ++ buf) s.size p.0 p.1 p.2
      (put_large-Large (length buf) n buf s (omega arith) (omega arith) h)

buffer_flush-Delivers :
    (s : Buffer) → Delivers (s.out ++ s.held) s.size (buffer_flush s).0 (buffer_flush s).1
unfolding buffer_flush
buffer_flush-Delivers s = send_out-Delivers s.held (record s { held = [] }) refl

buffer_flush_held : (s : Buffer) → (buffer_flush s).1.held ≡ []
unfolding buffer_flush
buffer_flush_held s = send_out_held s.held (record s { held = [] })

-- More after a flush, when it went well.
then-Delivers :
    (buf first : List ℕ) (size : ℕ) (r : Status) (s : Buffer) (next : Status × Buffer)
    → s.held ≡ []
    → Delivers first size r s
    → Delivers (s.out ++ buf) s.size next.0 next.1
    → let p : Status × Buffer = if_done r next (r, s) in Delivers (first ++ buf) size p.0 p.1
then-Delivers buf first size done s next h d k = record {
  lost = k.lost;
  split =
      k.split
      ∙ ap (λ x. x ++ buf)
          (sym (append-nil s.out) ∙ ap (λ x. s.out ++ x) (rw (h, d.none_lost)) ∙ d.split);
  none_lost = k.none_lost;
  fits = omega (arith, k.fits, d.same_size);
  same_size = k.same_size ∙ d.same_size;
}
then-Delivers buf first size error s next h d k = record {
  lost = d.lost ++ buf;
  split =
      ap (λ x. s.out ++ x) (sym (append_assoc s.held d.lost buf))
      ∙ sym (append_assoc s.out (s.held ++ d.lost) buf)
      ∙ ap (λ x. x ++ buf) d.split;
  none_lost = tt;
  fits = d.fits;
  same_size = d.same_size;
}
then-Delivers buf first size waiting s next h d k = record {
  lost = d.lost ++ buf;
  split =
      ap (λ x. s.out ++ x) (sym (append_assoc s.held d.lost buf))
      ∙ sym (append_assoc s.out (s.held ++ d.lost) buf)
      ∙ ap (λ x. x ++ buf) d.split;
  none_lost = tt;
  fits = d.fits;
  same_size = d.same_size;
}

-- However `op` answers, what has gone out after `buffer_put`, then what is held, then what a failure
-- has lost, are the bytes that had gone out, those that were held, and those that were put, in this
-- order. Nothing is lost when it returns 0, and the buffer is never overrun.
pub buffer_put-Delivers :
    (buf : List ℕ) (s : Buffer)
    → length s.held ≤ s.size
    → Delivers ((s.out ++ s.held) ++ buf) s.size (buffer_put buf s).0 (buffer_put buf s).1
unfolding buffer_put
buffer_put-Delivers buf s h =
    let (r, s₁) = buffer_flush s in
    let e = buffer_flush_held s in
    let d = buffer_flush-Delivers s in
    let all =
      then-Delivers buf (s.out ++ s.held) s.size r s₁ (put_flushed buf s₁) e d
        (put_flushed-Delivers buf s₁ e) in
    elim (Bool-cases (ltb (s.size - length s.held) (length buf))) [
      | inl y ↦ rw y all
      | inr n ↦ rw n (record {
        lost = [];
        split =
            ap (λ x. s.out ++ x) (append-nil (s.held ++ buf)) ∙ sym (append_assoc s.out s.held buf);
        none_lost = refl;
        fits = ground (arith, length-append s.held buf);
        same_size = refl;
      })
    ]

-- The same holds of `buffer_putflush`, which holds nothing back.
pub buffer_putflush-Delivers :
    (buf : List ℕ) (s : Buffer)
    → Delivers ((s.out ++ s.held) ++ buf) s.size (buffer_putflush buf s).0 (buffer_putflush buf s).1
      × ((buffer_putflush buf s).1.held ≡ [])
unfolding buffer_putflush
buffer_putflush-Delivers buf s =
    let (r, s₁) = buffer_flush s in
    let e = buffer_flush_held s in
    (
      then-Delivers buf (s.out ++ s.held) s.size r s₁ (send_out buf s₁) e (buffer_flush-Delivers s)
          (send_out-Delivers buf s₁ e),
      ground (arith, e, send_out_held buf s₁),
    )
