-- ===== src/Unix/Output.antt =====
-- libunix/buffer.h, buffer_put.c: output through a buffer.
use runit.Base.{
  ℕ, zero, suc, ◌-◌, List, [], ◌∷◌, ◌++◌, if◌then◌else◌, ltb, length, take, drop, min, max,
}

-- What `op` answers to a call: -1 with `errno` EINTR, -1 with another, or how much it took, at most
-- the length that was given.
pub data Answer : Type 0 where
  interrupted failed : Answer
  took : ℕ → Answer

-- `s->x[0 .. s->p)`, `s->n`, the bytes that went out through `op`, and its answers to come.
pub record Buffer : Type 0 where
  pub held : List ℕ
  pub size : ℕ
  pub out : List ℕ
  pub answers : List Answer

-- 0, -1, or no end as long as there is no further answer.
pub data Status : Type 0 where
  done error waiting : Status

-- `if (… == -1) return -1;`
abbrev pub if_done {ℓ} : {A : Type ℓ} → Status → A → A → A
if_done done x y = x
if_done _ x y = y

abbrev pub buffer_outsize : ℕ
buffer_outsize = 8192

-- `allwrite`: how it ends, the bytes that were taken, and the answers left.
unfoldable pub allwrite : List Answer → List ℕ → Status × List ℕ × List Answer
allwrite answers [] = (done, [], answers)
allwrite [] (b ∷ buf) = (waiting, [], [])
allwrite (interrupted ∷ rest) (b ∷ buf) = allwrite rest (b ∷ buf)
allwrite (failed ∷ rest) (b ∷ buf) = (error, [], rest)
allwrite (took w ∷ rest) (b ∷ buf) =
    let (r, sent, left) = allwrite rest (drop w (b ∷ buf)) in (r, take w (b ∷ buf) ++ sent, left)

-- `allwrite(s->op, s->fd, buf, …)` on the buffer's descriptor.
unfoldable pub send_out : List ℕ → Buffer → Status × Buffer
unfolding allwrite
send_out buf s =
    let (r, sent, left) = allwrite s.answers buf in
    (r, record s { out = s.out ++ sent; answers = left })

unfoldable pub buffer_flush : Buffer → Status × Buffer
unfolding send_out
buffer_flush s = send_out s.held (record s { held = [] })

-- `while (len > s->n)` of `buffer_put`: how it ends, what is left of `buf`, and the buffer. Each round
-- sends at least one byte, so that the length of `buf` is enough fuel.
unfoldable pub put_large : ℕ → ℕ → List ℕ → Buffer → Status × List ℕ × Buffer
unfolding send_out
put_large zero n buf s = (done, buf, s)
put_large (suc f) n buf s =
    let m = min n (length buf) in
    let (r, s₁) = send_out (take m buf) s in
    let rest = put_large f m (drop m buf) s₁ in
    if ltb s.size (length buf) then if_done r rest (r, drop m buf, s₁) else (done, buf, s)

-- `byte_copy(s->x + s->p, len, buf); s->p += len;`
abbrev pub hold : List ℕ → Buffer → Buffer
hold buf s = record s { held = s.held ++ buf }

-- What follows the flush in `buffer_put`.
unfoldable pub put_flushed : List ℕ → Buffer → Status × Buffer
unfolding put_large
put_flushed buf s =
    let (r, rest, s₁) = put_large (length buf) (max s.size buffer_outsize) buf s in
    if_done r (done, hold rest s₁) (r, s₁)

unfoldable pub buffer_put : List ℕ → Buffer → Status × Buffer
unfolding buffer_flush put_flushed
buffer_put buf s =
    if ltb (s.size - length s.held) (length buf)
    then (let (r, s₁) = buffer_flush s in if_done r (put_flushed buf s₁) (r, s₁))
    else (done, hold buf s)

unfoldable pub buffer_putflush : List ℕ → Buffer → Status × Buffer
unfolding buffer_flush send_out
buffer_putflush buf s = let (r, s₁) = buffer_flush s in if_done r (send_out buf s₁) (r, s₁)
