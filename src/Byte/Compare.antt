-- ===== src/Byte/Compare.antt =====
-- libbyte/byte_diff.c, str_diff.c, str_start.c: comparisons of two objects, byte by byte.
use runit.Base.{
  ℕ, zero, suc, ◌+◌, ◌-◌, ◌≤◌, ◌<◌, ◌≡◌, refl, ◌∙◌, ◌↔◌, List, [], ◌∷◌, ◌++◌, Option, none, some,
  ◌==◌, if◌then◌else◌, length, take, arith, unroll, unroll_inv, deref, ℤ, pos, sub_ℕ, sub_ℕ_zero,
}
use runit.Byte.Search.{IsString, text}

abbrev Diff : Type 0
Diff = List ℕ → ℕ → List ℕ → Option ℤ

byte_diff_body : Diff → Diff
byte_diff_body k s n t =
    if n == 0
    then some (pos 0)
    else deref s (λ a s'. deref t (λ b t'. if a == b then k s' (n - 1) t' else some (sub_ℕ a b)))

unfoldable pub byte_diff : List ℕ → ℕ → List ℕ → Option ℤ
unfolding unroll byte_diff_body
byte_diff s n t = unroll byte_diff_body (n + 1) (λ s n t. none) s n t

-- The difference at the first place where the lists differ; the end counts as 0.
abbrev pub lex : List ℕ → List ℕ → ℤ
lex [] [] = pos 0
lex [] (b ∷ t) = sub_ℕ 0 b
lex (a ∷ s) [] = sub_ℕ a 0
lex (a ∷ s) (b ∷ t) = let later = lex s t in if a == b then later else sub_ℕ a b

abbrev Diffs : ℕ → Diff → Type 0
Diffs m k =
    (s : List ℕ) (n : ℕ) (t : List ℕ)
    → n ≤ length s
    → n ≤ length t
    → n < m
    → k s n t ≡ some (lex (take n s) (take n t))

byte_diff_body-Diffs : (m : ℕ) (k : Diff) → Diffs m k → Diffs (suc m) (byte_diff_body k)
unfolding byte_diff_body
byte_diff_body-Diffs m k h s zero t hs ht hm = ground arith
byte_diff_body-Diffs m k h [] (suc n) t hs ht hm = absurd (omega arith)
byte_diff_body-Diffs m k h (a ∷ s) (suc n) [] hs ht hm = absurd (omega arith)
byte_diff_body-Diffs m k h (a ∷ s) (suc n) (b ∷ t) hs ht hm = ground (arith, h s n t)

byte_diff-eq-lex :
    (s : List ℕ) (n : ℕ) (t : List ℕ)
    → n ≤ length s
    → n ≤ length t
    → byte_diff s n t ≡ some (lex (take n s) (take n t))
unfolding byte_diff
byte_diff-eq-lex s n t hs ht =
    unroll_inv Diffs byte_diff_body (λ s n t. none) (λ s n t hs ht hm. absurd (omega arith))
      byte_diff_body-Diffs (n + 1) s n t hs ht (omega arith)

lex_self : (s : List ℕ) → lex s s ≡ pos 0
lex_self [] = refl
lex_self (a ∷ s) = ground (arith, lex_self s)

-- Equal lengths leave only equal lists at the difference 0.
lex_zero :
    (n : ℕ) (s t : List ℕ)
    → n ≤ length s
    → n ≤ length t
    → lex (take n s) (take n t) ≡ pos 0
    → take n s ≡ take n t
lex_zero zero s t hs ht e = refl
lex_zero (suc n) [] t hs ht e = absurd (omega arith)
lex_zero (suc n) (a ∷ s) [] hs ht e = absurd (omega arith)
lex_zero (suc n) (a ∷ s) (b ∷ t) hs ht e = ground (arith, lex_zero n s t, sub_ℕ_zero a b)

-- On two objects of at least `n` bytes, `byte_diff` returns a value, and it is 0 exactly when their
-- first `n` bytes are the same.
pub byte_diff_zero_iff :
    (s : List ℕ) (n : ℕ) (t : List ℕ)
    → n ≤ length s
    → n ≤ length t
    → (r : ℤ) × (byte_diff s n t ≡ some r) × ((r ≡ pos 0) ↔ (take n s ≡ take n t))
byte_diff_zero_iff s n t hs ht = (
  lex (take n s) (take n t),
  byte_diff-eq-lex s n t hs ht,
  (lex_zero n s t hs ht, λ e. rw e (lex_self (take n t))),
)

abbrev StrDiff : Type 0
StrDiff = List ℕ → List ℕ → Option ℤ

str_diff_body : StrDiff → StrDiff
str_diff_body k s t = deref s (λ x s'.
    deref t
      (λ b t'. if x == b then if x == 0 then some (sub_ℕ x b) else k s' t' else some (sub_ℕ x b)))

unfoldable pub str_diff : List ℕ → List ℕ → Option ℤ
unfolding unroll str_diff_body
str_diff s t = unroll str_diff_body (length s + 1) (λ s t. none) s t

abbrev StrDiffs : ℕ → StrDiff → Type 0
StrDiffs m k =
    (s t : List ℕ) → IsString s → IsString t → length s < m → k s t ≡ some (lex (text s) (text t))

str_diff_body-StrDiffs : (m : ℕ) (k : StrDiff) → StrDiffs m k → StrDiffs (suc m) (str_diff_body k)
unfolding str_diff_body
str_diff_body-StrDiffs m k h [] t hs ht hm = elim hs [ ]
str_diff_body-StrDiffs m k h (a ∷ s) [] hs ht hm = elim ht [ ]
str_diff_body-StrDiffs m k h (a ∷ s) (b ∷ t) hs ht hm = ground (arith, h s t)

-- No byte of a text is 0, so a text and a longer one differ.
lex-text_zero : (s t : List ℕ) → lex (text s) (text t) ≡ pos 0 → text s ≡ text t
lex-text_zero [] [] e = refl
lex-text_zero [] (b ∷ t) e = ground (arith, sub_ℕ_zero 0 b)
lex-text_zero (a ∷ s) [] e = ground (arith, sub_ℕ_zero a 0)
lex-text_zero (a ∷ s) (b ∷ t) e =
    ground (arith, lex-text_zero s t, sub_ℕ_zero a b, sub_ℕ_zero 0 b, sub_ℕ_zero a 0)

-- On two strings, `str_diff` returns a value: the difference of the bytes at the first place where
-- they differ, with the NUL as 0. It is 0 exactly when the strings have the same bytes.
pub str_diff_zero_iff :
    (s t : List ℕ)
    → IsString s
    → IsString t
    → (str_diff s t ≡ some (lex (text s) (text t)))
      × ((lex (text s) (text t) ≡ pos 0) ↔ (text s ≡ text t))
unfolding str_diff
str_diff_zero_iff s t hs ht = (
  unroll_inv StrDiffs str_diff_body (λ s t. none) (λ s t hs ht hm. absurd (omega arith))
      str_diff_body-StrDiffs (length s + 1) s t hs ht (omega arith),
  (lex-text_zero s t, λ e. rw e (lex_self (text t))),
)

abbrev Start : Type 0
Start = List ℕ → List ℕ → Option ℕ

str_start_body : Start → Start
str_start_body k s t =
    deref t
      (λ x t'. if x == 0 then some 1 else deref s (λ a s'. if x == a then k s' t' else some 0))

unfoldable pub str_start : List ℕ → List ℕ → Option ℕ
unfolding unroll str_start_body
str_start s t = unroll str_start_body (length t + 1) (λ s t. none) s t

-- The second list begins the first.
abbrev pub starts : List ℕ → List ℕ → ℕ
starts s [] = 1
starts [] (b ∷ t) = 0
starts (a ∷ s) (b ∷ t) = let later = starts s t in if b == a then later else 0

abbrev Starts : ℕ → Start → Type 0
Starts m k =
    (s t : List ℕ)
    → IsString s
    → IsString t
    → length t < m
    → k s t ≡ some (starts (text s) (text t))

str_start_body-Starts : (m : ℕ) (k : Start) → Starts m k → Starts (suc m) (str_start_body k)
unfolding str_start_body
str_start_body-Starts m k h s [] hs ht hm = elim ht [ ]
str_start_body-Starts m k h [] (b ∷ t) hs ht hm = elim hs [ ]
str_start_body-Starts m k h (a ∷ s) (b ∷ t) hs ht hm = ground (arith, h s t)

str_start-eq-starts :
    (s t : List ℕ) → IsString s → IsString t → str_start s t ≡ some (starts (text s) (text t))
unfolding str_start
str_start-eq-starts s t hs ht =
    unroll_inv Starts str_start_body (λ s t. none) (λ s t hs ht hm. absurd (omega arith))
      str_start_body-Starts (length t + 1) s t hs ht (omega arith)

starts_append : (t r : List ℕ) → starts (t ++ r) t ≡ 1
starts_append [] r = refl
starts_append (b ∷ t) r = ground (arith, starts_append t r)

starts_prefix : (s t : List ℕ) → starts s t ≡ 1 → (r : List ℕ) × (s ≡ t ++ r)
starts_prefix s [] e = (s, refl)
starts_prefix [] (b ∷ t) e = absurd (omega arith)
starts_prefix (a ∷ s) (b ∷ t) e = go (starts_prefix s t (ground arith))
  where
    go : (r : List ℕ) × (s ≡ t ++ r) → (r : List ℕ) × (a ∷ s ≡ b ∷ (t ++ r))
    go (r, p) = (r, ground arith)

-- On two strings, `str_start` returns 1 exactly when the second is a prefix of the first.
pub str_start_iff :
    (s t : List ℕ)
    → IsString s
    → IsString t
    → (str_start s t ≡ some 1) ↔ ((r : List ℕ) × (text s ≡ text t ++ r))
str_start_iff s t hs ht = (
  λ e. starts_prefix (text s) (text t) (cc (str_start-eq-starts s t hs ht)),
  λ p. str_start-eq-starts s t hs ht ∙ rw p.1 (rw (starts_append (text t) p.0)),
)
