-- ===== src/Svlogd/Select.antt =====
-- utils/svlogd.c: `logmatch` against the rule of the manual page, that the last match decides.
use runit.Base.{
  ℕ, ◌≡◌, ◌⊎◌, inl, inr, Bool, true, false, List, [], ◌∷◌, ◌++◌, Option, some, ◌==◌, ◌||◌, length,
  arith, refl, ◌∙◌, ap, All, Bool-cases, Option-cases,
}
use runit.Utils.Pattern.{pmatch}
use runit.Utils.Matches.{Token, any, char, byte, encode, IsPlain, Matches, pmatch_iff}
use runit.Utils.Further.{pmatch-Extends}
use runit.Svlogd.Match.{obey, entry, match_loop, logmatch}

-- An entry of the configuration: its first character, and its pattern.
pub record Entry : Type 0 where
  pub kind : ℕ
  pub pattern : List Token

-- `inst`: the entries one behind the other, each with a NUL behind.
abbrev pub inst_of : List Entry → List ℕ
inst_of [] = []
inst_of (e ∷ es) = e.kind ∷ (encode e.pattern ++ inst_of es)

-- Those for `match` and those for `matcherr`.
abbrev pub is_choice : ℕ → Bool
is_choice c = (c == b'+') || (c == b'-')

abbrev pub is_error_choice : ℕ → Bool
is_error_choice c = (c == b'e') || (c == b'E')

abbrev pub IsEntry : Entry → Type 0
IsEntry e = ((is_choice e.kind || is_error_choice e.kind) ≡ true) × All IsPlain e.pattern

abbrev pub Hits : (ℕ → Bool) → List ℕ → Entry → Type 0
Hits own s e = (own e.kind ≡ true) × Matches e.pattern s

-- The kind of the last entry of its own that matches, or `d` if none does.
abbrev pub Last : (ℕ → Bool) → ℕ → List ℕ → List Entry → ℕ → Type 0
Last own d s es r =
    (All (λ e. Hits own s e → ⊥) es × (r ≡ d))
    ⊎ ((before : List Entry) × (e : Entry) × (after : List Entry) × (es ≡ before ++ (e ∷ after))
        × Hits own s e
        × All (λ e. Hits own s e → ⊥) after
        × (r ≡ e.kind))

Last-hit :
    (own : ℕ → Bool) (d r : ℕ) (s : List ℕ) (e : Entry) (es : List Entry)
    → Hits own s e
    → Last own e.kind s es r
    → Last own d s (e ∷ es) r
Last-hit own d r s e es h (inl (no_hit, q)) = inr ([], e, es, refl, h, no_hit, q)
Last-hit own d r s e es h (inr (b, e', a, q, g, no_hit, k)) =
    inr (e ∷ b, e', a, ap (λ x. e ∷ x) q, g, no_hit, k)

Last-pass :
    (own : ℕ → Bool) (d r : ℕ) (s : List ℕ) (e : Entry) (es : List Entry)
    → (Hits own s e → ⊥)
    → Last own d s es r
    → Last own d s (e ∷ es) r
Last-pass own d r s e es h (inl (no_hit, q)) = inl ((h, no_hit), q)
Last-pass own d r s e es h (inr (b, e', a, q, g, no_hit, k)) =
    inr (e ∷ b, e', a, ap (λ x. e ∷ x) q, g, no_hit, k)

byte_not_nul : (t : Token) → IsPlain t → (byte t == 0) ≡ false
byte_not_nul any h = refl
byte_not_nul (char c) h = let z = h.0 in ground arith

skip_pattern :
    (p : List Token) (more line : List ℕ) (n : ℕ) (m : Option (ℕ × ℕ))
    → All IsPlain p
    → match_loop (encode p ++ more) false line n m ≡ match_loop more true line n m
unfolding match_loop
skip_pattern [] more line n m h = refl
skip_pattern (t ∷ p) more line n m (h, hs) =
    ap (λ b. match_loop (encode p ++ more) b line n m) (byte_not_nul t h)
    ∙ skip_pattern p more line n m hs

kind_not_nul : (e : Entry) → IsEntry e → (e.kind == 0) ≡ false
kind_not_nul e h = let z = h.0 in ground arith

match_loop-entry :
    (e : Entry) (more line : List ℕ) (n : ℕ) (m : ℕ × ℕ)
    → IsEntry e
    → match_loop (e.kind ∷ (encode e.pattern ++ more)) true line n (some m)
      ≡ match_loop more true line n (obey e.kind (pmatch (encode e.pattern ++ more) line n) m)
unfolding match_loop entry
match_loop-entry e more line n m h =
    let o = obey e.kind (pmatch (encode e.pattern ++ more) line n) m in
    let c : entry e.kind (encode e.pattern ++ more) line n (some m) ≡ o = rw (h.0) refl in
    ap
      (λ b.
        match_loop (encode e.pattern ++ more) b line n
          (entry e.kind (encode e.pattern ++ more) line n (some m)))
      (kind_not_nul e h)
    ∙ ap (λ x. match_loop (encode e.pattern ++ more) false line n x) c
    ∙ skip_pattern e.pattern more line n o h.1

-- What `pmatch` says of a line in a buffer, with other entries behind the pattern.
pmatch_decides :
    (p : List Token) (more s rest : List ℕ)
    → All IsPlain p
    → ((pmatch (encode p ++ more) (s ++ rest) (length s) ≡ some true) × Matches p s)
      ⊎ ((pmatch (encode p ++ more) (s ++ rest) (length s) ≡ some false) × (Matches p s → ⊥))
pmatch_decides p more s rest h =
    let (returns, (to, from)) = pmatch_iff p s rest h in
    elim (Option-cases (pmatch (encode p) (s ++ rest) (length s))) [
      | inl e ↦ absurd (returns e)
      | inr (true, e) ↦ inl (pmatch-Extends (encode p) more (s ++ rest) (length s) true e, to e)
      | inr (false, e) ↦
          inr (
            pmatch-Extends (encode p) more (s ++ rest) (length s) false e,
            λ m. let q = from m in cc,
          )
    ]

obey_choice : (c : ℕ) (m : ℕ × ℕ) → is_choice c ≡ true → obey c (some true) m ≡ some (c, m.1)
unfolding obey
obey_choice c m h = rw h refl

obey_error_choice : (c : ℕ) (m : ℕ × ℕ) → is_choice c ≡ false → obey c (some true) m ≡ some (m.0, c)
unfolding obey
obey_error_choice c m h = rw h refl

obey_miss : (c : ℕ) (m : ℕ × ℕ) → obey c (some false) m ≡ some m
unfolding obey
obey_miss c m = refl

not_both : (c : ℕ) → is_choice c ≡ true → is_error_choice c ≡ true → ⊥
not_both c h k = ground arith

-- The loop ends with the last of each sort, or with what was set before.
Ends : ℕ × ℕ → List ℕ → List Entry → Option (ℕ × ℕ) → Type 0
Ends m s es o =
    (r : ℕ × ℕ) × (o ≡ some r) × Last is_choice m.0 s es r.0 × Last is_error_choice m.1 s es r.1

-- The loop behind an entry, for what `pmatch` says and what the entry sets then.
match_loop_step :
    (e : Entry) (more line : List ℕ) (n : ℕ) (m m' : ℕ × ℕ) (b : Bool)
    → IsEntry e
    → pmatch (encode e.pattern ++ more) line n ≡ some b
    → obey e.kind (some b) m ≡ some m'
    → match_loop (e.kind ∷ (encode e.pattern ++ more)) true line n (some m)
      ≡ match_loop more true line n (some m')
match_loop_step e more line n m m' b h p o =
    match_loop-entry e more line n m h
    ∙ ap (λ x. match_loop more true line n (obey e.kind x m)) p
    ∙ ap (match_loop more true line n) o

match_loop-Ends :
    (es : List Entry) (s rest : List ℕ) (m : ℕ × ℕ)
    → All IsEntry es
    → Ends m s es (match_loop (inst_of es) true (s ++ rest) (length s) (some m))
unfolding Ends match_loop
match_loop-Ends [] s rest m h = (m, refl, inl (tt, refl), inl (tt, refl))
match_loop-Ends (e ∷ es) s rest m (h, hs) =
    let step = match_loop_step e (inst_of es) (s ++ rest) (length s) m in
    elim (pmatch_decides e.pattern (inst_of es) s rest h.1) [
      | inl (p, hit) ↦ elim (Bool-cases (is_choice e.kind)) [
        | inl c ↦
            let (r, q, a, b) = match_loop-Ends es s rest (e.kind, m.1) hs in
            (
              r,
              step (e.kind, m.1) true h p (obey_choice e.kind m c) ∙ q,
              Last-hit is_choice m.0 r.0 s e es (c, hit) a,
              Last-pass is_error_choice m.1 r.1 s e es (λ k. not_both e.kind c k.0) b,
            )
        | inr c ↦
            let (r, q, a, b) = match_loop-Ends es s rest (m.0, e.kind) hs in
            let k = h.0 in
            (
              r,
              step (m.0, e.kind) true h p (obey_error_choice e.kind m c) ∙ q,
              Last-pass is_choice m.0 r.0 s e es (λ x. let y = x.0 in cc) a,
              Last-hit is_error_choice m.1 r.1 s e es (ground arith, hit) b,
            )
      ]
      | inr (p, miss) ↦
          let (r, q, a, b) = match_loop-Ends es s rest m hs in
          (
            r,
            step m false h p (obey_miss e.kind m) ∙ q,
            Last-pass is_choice m.0 r.0 s e es (λ x. miss x.1) a,
            Last-pass is_error_choice m.1 r.1 s e es (λ x. miss x.1) b,
          )
    ]

-- For entries of the four kinds, whose patterns have no plus, and a line in a buffer, `logmatch` reads
-- no byte behind either and sets `match` to the kind of the last of the entries + and - whose
-- pattern matches the line as the manual page says, and to + if there is none, and `matcherr` to that
-- of the last of the entries e and E that matches, and to E if there is none.
pub logmatch-Last :
    (es : List Entry) (s rest : List ℕ)
    → All IsEntry es
    → (r : ℕ × ℕ) × (logmatch (inst_of es) (s ++ rest) (length s) ≡ some r)
      × Last is_choice b'+' s es r.0
      × Last is_error_choice b'E' s es r.1
unfolding logmatch Ends
logmatch-Last es s rest h = match_loop-Ends es s rest (b'+', b'E') h
