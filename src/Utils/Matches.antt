-- ===== src/Utils/Matches.antt =====
-- utils/pmatch.c: what a pattern matches.
use runit.Base.{
  ℕ, zero, suc, ◌≡◌, ◌≢◌, ◌↔◌, Bool, true, false, List, [], ◌∷◌, ◌++◌, Option, none, some, ◌==◌,
  length, All, arith, refl, Bool-cases, ◌⊎◌, inl, inr,
}
use runit.Utils.Pattern.{return, seek, skip, go_on, literal, pmatch}

-- A pattern without `+`, and its characters.
pub data Token : Type 0 where
  any : Token
  char : ℕ → Token

abbrev pub byte : Token → ℕ
byte any = b'*'
byte (char c) = c

abbrev pub encode : List Token → List ℕ
encode [] = 0 ∷ []
encode (t ∷ p) = byte t ∷ encode p

abbrev pub IsPlain : Token → Type 0
IsPlain any = Unit
IsPlain (char c) = (c ≢ 0) × (c ≢ b'*') × (c ≢ b'+')

-- What the manual page says: a star before the end matches any string without the next character of
-- the pattern, one at the end any string, and any other character itself.
abbrev pub Before : ℕ → (List ℕ → Type 0) → List ℕ → Type 0
Before d Q [] = ⊥
Before d Q (x ∷ s) = ((x ≡ d) × Q (x ∷ s)) ⊎ ((x ≢ d) × Before d Q s)

abbrev pub Matches : List Token → List ℕ → Type 0
Matches [] s = s ≡ []
Matches (any ∷ []) s = Unit
Matches (any ∷ t ∷ p) s = Before (byte t) (Matches (t ∷ p)) s
Matches (char c ∷ p) [] = ⊥
Matches (char c ∷ p) (x ∷ s) = (x ≡ c) × Matches p s

-- `n` times the same.
abbrev pub repeat : ℕ → ℕ → List ℕ
repeat zero c = []
repeat (suc n) c = c ∷ repeat n c

-- The inner loop of `*`, and then a match that is right from there on.
seek-Before :
    (d : ℕ) (Q : List ℕ → Type 0) (k : List ℕ → ℕ → Option Bool) (rest s : List ℕ)
    → ((r : List ℕ) → (k (r ++ rest) (length r) ≡ some true) ↔ Q r)
    → (go_on (seek d (s ++ rest) (length s)) k ≡ some true) ↔ Before d Q s
unfolding seek
seek-Before d Q k rest [] h = (λ e. cc, λ b. absurd b)
seek-Before d Q k rest (x ∷ s) h = elim (Bool-cases (x == d)) [
  | inl y ↦ rw y (
    λ e. inl (ground arith, (h (x ∷ s)).0 e),
    λ b. elim b [ inl (_, q) ↦ (h (x ∷ s)).1 q | inr (n, _) ↦ absurd (n (ground arith)) ],
  )
  | inr n ↦
      let later = seek-Before d Q k rest s h in
      rw n (
        λ e. inr (ground arith, later.0 e),
        λ b. elim b [ inl (y, _) ↦ absurd (ground arith) | inr (_, q) ↦ later.1 q ],
      )
]

byte_nonzero : (t : Token) → IsPlain t → (byte t == 0) ≡ false
byte_nonzero any h = refl
byte_nonzero (char c) h = ground arith

pmatch-star :
    (t : Token) (p : List Token) (s : List ℕ) (len : ℕ)
    → IsPlain t
    → pmatch (encode (any ∷ t ∷ p)) s len ≡ go_on (seek (byte t) s len) (pmatch (encode (t ∷ p)))
unfolding pmatch
pmatch-star t p s len h = rw (byte_nonzero t h) refl

pmatch-char :
    (c : ℕ) (p : List Token) (s : List ℕ) (len : ℕ)
    → IsPlain (char c)
    → pmatch (encode (char c ∷ p)) s len ≡ literal c s len (pmatch (encode p))
unfolding pmatch
pmatch-char c p s len h =
    let e₁ : (c == 0) ≡ false = ground arith in
    let e₂ : (c == b'*') ≡ false = ground arith in
    let e₃ : (c == b'+') ≡ false = ground arith in go p e₁ e₂ e₃
  where
    go :
        (p : List Token)
        → (c == 0) ≡ false
        → (c == b'*') ≡ false
        → (c == b'+') ≡ false
        → pmatch (encode (char c ∷ p)) s len ≡ literal c s len (pmatch (encode p))
    go [] e₁ e₂ e₃ = rw (e₁, e₂, e₃) refl
    go (t ∷ p) e₁ e₂ e₃ = rw (e₁, e₂, e₃) refl

literal_iff :
    (c : ℕ) (Q : List ℕ → Type 0) (k : List ℕ → ℕ → Option Bool) (rest s : List ℕ) (x : ℕ)
    → (k (s ++ rest) (length s) ≡ some true) ↔ Q s
    → (literal c (x ∷ (s ++ rest)) (suc (length s)) k ≡ some true) ↔ ((x ≡ c) × Q s)
literal_iff c Q k rest s x h = elim (Bool-cases (x == c)) [
  | inl y ↦ rw y (λ e. (ground arith, h.0 e), λ q. h.1 q.1)
  | inr n ↦ rw n (λ e. cc, λ q. absurd (ground arith))
]

pmatch_one_iff :
    (p : List Token) (s rest : List ℕ)
    → All IsPlain p
    → (pmatch (encode p) (s ++ rest) (length s) ≡ some true) ↔ Matches p s
unfolding pmatch
pmatch_one_iff [] [] rest h = (λ e. refl, λ e. refl)
pmatch_one_iff [] (x ∷ s) rest h = (λ e. ground arith, λ e. cc)
pmatch_one_iff (any ∷ []) s rest h = (λ e. tt, λ e. refl)
pmatch_one_iff (any ∷ t ∷ p) s rest h = rw (pmatch-star t p (s ++ rest) (length s) h.1.0) (
    seek-Before (byte t) (Matches (t ∷ p)) (pmatch (encode (t ∷ p))) rest s
      (λ r. pmatch_one_iff (t ∷ p) r rest h.1))
pmatch_one_iff (char c ∷ p) [] rest h = rw (pmatch-char c p rest 0 h.0) (λ e. cc, λ b. absurd b)
pmatch_one_iff (char c ∷ p) (x ∷ s) rest h =
    rw (pmatch-char c p (x ∷ (s ++ rest)) (suc (length s)) h.0)
      (literal_iff c (Matches p) (pmatch (encode p)) rest s x (pmatch_one_iff p s rest h.1))

seek_returns :
    (d : ℕ) (k : List ℕ → ℕ → Option Bool) (rest s : List ℕ)
    → ((r : List ℕ) → k (r ++ rest) (length r) ≢ none)
    → go_on (seek d (s ++ rest) (length s)) k ≢ none
unfolding seek
seek_returns d k rest [] h = λ e. cc
seek_returns d k rest (x ∷ s) h = elim (Bool-cases (x == d)) [
  | inl y ↦ rw y (h (x ∷ s))
  | inr n ↦ rw n (seek_returns d k rest s h)
]

literal_returns :
    (c : ℕ) (k : List ℕ → ℕ → Option Bool) (rest s : List ℕ) (x : ℕ)
    → k (s ++ rest) (length s) ≢ none
    → literal c (x ∷ (s ++ rest)) (suc (length s)) k ≢ none
literal_returns c k rest s x h = elim (Bool-cases (x == c)) [
  | inl y ↦ rw y h
  | inr n ↦ rw n (λ e. cc)
]

pmatch_returns :
    (p : List Token) (s rest : List ℕ)
    → All IsPlain p
    → pmatch (encode p) (s ++ rest) (length s) ≢ none
unfolding pmatch
pmatch_returns [] s rest h = λ e. cc
pmatch_returns (any ∷ []) s rest h = λ e. cc
pmatch_returns (any ∷ t ∷ p) s rest h = rw (pmatch-star t p (s ++ rest) (length s) h.1.0) (
    seek_returns (byte t) (pmatch (encode (t ∷ p))) rest s (λ r. pmatch_returns (t ∷ p) r rest h.1))
pmatch_returns (char c ∷ p) [] rest h = rw (pmatch-char c p rest 0 h.0) (λ e. cc)
pmatch_returns (char c ∷ p) (x ∷ s) rest h =
    rw (pmatch-char c p (x ∷ (s ++ rest)) (suc (length s)) h.0)
      (literal_returns c (pmatch (encode p)) rest s x (pmatch_returns p s rest h.1))

-- For a pattern without `+`, and a line in a buffer, `pmatch` reads no byte behind either, and it
-- returns 1 exactly when the line matches the pattern as the manual page says.
pub pmatch_iff :
    (p : List Token) (s rest : List ℕ)
    → All IsPlain p
    → (pmatch (encode p) (s ++ rest) (length s) ≢ none)
      × ((pmatch (encode p) (s ++ rest) (length s) ≡ some true) ↔ Matches p s)
pmatch_iff p s rest h = (pmatch_returns p s rest h, pmatch_one_iff p s rest h)

skip_repeated : (c n : ℕ) (rest : List ℕ) → skip c (repeat n c ++ rest) n ≡ some (return true)
unfolding skip
skip_repeated c zero rest = refl
skip_repeated c (suc n) rest = ground (arith, skip_repeated c n rest)

-- A plus at the end of the line matches whatever the pattern goes on with: on a line of one or more
-- of the character that follows the plus, `pmatch` returns 1 for every rest of the pattern.
pub pmatch_plus_ends :
    (c n : ℕ) (p rest : List ℕ)
    → pmatch (b'+' ∷ c ∷ p) (repeat (suc n) c ++ rest) (suc n) ≡ some true
unfolding pmatch
pmatch_plus_ends c n p rest = ground (arith, skip_repeated c n rest)
