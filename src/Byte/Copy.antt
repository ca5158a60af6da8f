-- ===== src/Byte/Copy.antt =====
-- libbyte/byte_copy.c, byte_cr.c: copies inside one memory, where the two blocks may overlap.
use runit.Base.{
  ℕ, zero, suc, ◌+◌, ◌-◌, ◌≤◌, ◌<◌, ◌≡◌, refl, ◌∙◌, ◌⊎◌, inl, inr, ◌&&◌, Option, none, some, ◌==◌,
  leb, ltb, if◌then◌else◌, arith, unroll, unroll_inv,
}

-- The byte at each address.
abbrev pub Memory : Type 0
Memory = ℕ → ℕ

abbrev pub store : Memory → ℕ → ℕ → Memory
store mem a v = λ b. if b == a then v else mem b

abbrev Copy : Type 0
Copy = Memory → ℕ → ℕ → ℕ → Option Memory

byte_copy_body : Copy → Copy
byte_copy_body k mem to n from =
    if n == 0 then some mem else k (store mem to (mem from)) (to + 1) (n - 1) (from + 1)

unfoldable pub byte_copy : Memory → ℕ → ℕ → ℕ → Option Memory
unfolding unroll byte_copy_body
byte_copy mem to n from = unroll byte_copy_body (n + 1) (λ mem to n from. none) mem to n from

byte_copyr_body : Copy → Copy
byte_copyr_body k mem to n from =
    if n == 0 then some mem else k (store mem (to - 1) (mem (from - 1))) (to - 1) (n - 1) (from - 1)

unfoldable pub byte_copyr : Memory → ℕ → ℕ → ℕ → Option Memory
unfolding unroll byte_copyr_body
byte_copyr mem to n from =
    unroll byte_copyr_body (n + 1) (λ mem to n from. none) mem (to + n) n (from + n)

-- The memory after a copy: the `n` bytes that stood at `from` stand at `to`.
abbrev pub moved : Memory → ℕ → ℕ → ℕ → Memory
moved mem to n from = λ a. if leb to a && ltb a (to + n) then mem (from + (a - to)) else mem a

abbrev pub Agree : Option Memory → Memory → Type 0
Agree o mem = (m : Memory) × (o ≡ some m) × ((a : ℕ) → m a ≡ mem a)

abbrev Copies : ℕ → Copy → Type 0
Copies m k =
    (mem : Memory) (to n from : ℕ)
    → (to ≤ from) ⊎ (from + n ≤ to)
    → n < m
    → Agree (k mem to n from) (moved mem to n from)

-- One byte copied forwards, then the rest.
moved_next :
    (mem : Memory) (to n from a : ℕ)
    → (to ≤ from) ⊎ (from + suc n ≤ to)
    → moved (store mem to (mem from)) (to + 1) n (from + 1) a ≡ moved mem to (suc n) from a
moved_next mem to n from a d = elim d [ inl p ↦ ground arith | inr p ↦ ground arith ]

byte_copy_body-Copies : (m : ℕ) (k : Copy) → Copies m k → Copies (suc m) (byte_copy_body k)
unfolding byte_copy_body
byte_copy_body-Copies m k h mem to zero from d hm = (mem, refl, λ a. ground arith)
byte_copy_body-Copies m k h mem to (suc n) from d hm =
    go (h (store mem to (mem from)) (to + 1) n (from + 1) (omega arith) (omega arith))
  where
    go :
        Agree
          (k (store mem to (mem from)) (to + 1) n (from + 1))
          (moved (store mem to (mem from)) (to + 1) n (from + 1))
        → Agree (byte_copy_body k mem to (suc n) from) (moved mem to (suc n) from)
    go (mem', e, p) = (mem', ground arith, λ a. p a ∙ moved_next mem to n from a d)

-- On two blocks of which the target does not begin inside the source, `byte_copy` leaves a memory in
-- which the target holds the `n` bytes of the source and nothing else has changed.
pub byte_copy_moves :
    (mem : Memory) (to n from : ℕ)
    → (to ≤ from) ⊎ (from + n ≤ to)
    → Agree (byte_copy mem to n from) (moved mem to n from)
unfolding byte_copy
byte_copy_moves mem to n from d =
    unroll_inv Copies byte_copy_body (λ mem to n from. none)
      (λ mem to n from d hm. absurd (omega arith)) byte_copy_body-Copies (n + 1) mem to n from d
      (omega arith)

-- The last byte copied, then the rest.
moved_last :
    (mem : Memory) (to n from a : ℕ)
    → (from ≤ to) ⊎ (to + suc n ≤ from)
    → moved (store mem (to + n) (mem (from + n))) to n from a ≡ moved mem to (suc n) from a
moved_last mem to n from a d = elim d [ inl p ↦ ground arith | inr p ↦ ground arith ]

abbrev CopiesBack : ℕ → Copy → Type 0
CopiesBack m k =
    (mem : Memory) (to n from e s : ℕ)
    → e ≡ to + n
    → s ≡ from + n
    → (from ≤ to) ⊎ (to + n ≤ from)
    → n < m
    → Agree (k mem e n s) (moved mem to n from)

-- One body, where the pointers stand behind the last bytes.
byte_copyr_body_step :
    (k : Copy) (mem : Memory) (to n from : ℕ)
    → byte_copyr_body k mem (to + suc n) (suc n) (from + suc n)
      ≡ k (store mem (to + n) (mem (from + n))) (to + n) n (from + n)
unfolding byte_copyr_body
byte_copyr_body_step k mem to n from =
    let e₁ : to + suc n - 1 ≡ to + n = omega arith in
    let e₂ : from + suc n - 1 ≡ from + n = omega arith in
    let e₃ : suc n - 1 ≡ n = omega arith in rw (e₁, e₂, e₃) (ground arith)

byte_copyr_body-CopiesBack :
    (m : ℕ) (k : Copy) → CopiesBack m k → CopiesBack (suc m) (byte_copyr_body k)
unfolding byte_copyr_body
byte_copyr_body-CopiesBack m k h mem to zero from e s he hs d hm = (mem, refl, λ a. ground arith)
byte_copyr_body-CopiesBack m k h mem to (suc n) from e s he hs d hm = go (
    h (store mem (to + n) (mem (from + n))) to n from (to + n) (from + n) refl refl (omega arith)
      (omega arith))
  where
    body :
        byte_copyr_body k mem e (suc n) s
        ≡ k (store mem (to + n) (mem (from + n))) (to + n) n (from + n)
    body = rw (he, hs) (byte_copyr_body_step k mem to n from)

    go :
        Agree
          (k (store mem (to + n) (mem (from + n))) (to + n) n (from + n))
          (moved (store mem (to + n) (mem (from + n))) to n from)
        → Agree (byte_copyr_body k mem e (suc n) s) (moved mem to (suc n) from)
    go (mem', q, p) = (mem', body ∙ q, λ a. p a ∙ moved_last mem to n from a d)

-- On two blocks of which the source does not begin inside the target, `byte_copyr` leaves a memory
-- in which the target holds the `n` bytes of the source and nothing else has changed.
pub byte_copyr_moves :
    (mem : Memory) (to n from : ℕ)
    → (from ≤ to) ⊎ (to + n ≤ from)
    → Agree (byte_copyr mem to n from) (moved mem to n from)
unfolding byte_copyr
byte_copyr_moves mem to n from d =
    unroll_inv CopiesBack byte_copyr_body (λ mem to n from. none)
      (λ mem to n from e s he hs d hm. absurd (omega arith)) byte_copyr_body-CopiesBack (n + 1) mem
      to n from (to + n) (from + n) refl refl d (omega arith)
