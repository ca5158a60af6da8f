-- ===== src/Utils/Further.antt =====
-- utils/pmatch.c: bytes behind the end of a pattern are not read.
use runit.Base.{
  ℕ, zero, suc, ◌≡◌, Bool, true, false, List, [], ◌∷◌, ◌++◌, Option, none, some, if◌then◌else◌,
  ◌==◌, ◌||◌,
}
use runit.Utils.Pattern.{Inner, return, break, seek, skip, go_on, literal, plus, star, pmatch}

-- The second goes on as the first does, where the first returns.
abbrev Extends : (List ℕ → ℕ → Option Bool) → (List ℕ → ℕ → Option Bool) → Type 0
Extends k k' = (s : List ℕ) (len : ℕ) (b : Bool) → k s len ≡ some b → k' s len ≡ some b

go_on-Extends :
    (o : Option Inner) {k k' : List ℕ → ℕ → Option Bool}
    → Extends k k'
    → (b : Bool) → go_on o k ≡ some b
    → go_on o k' ≡ some b
go_on-Extends none h b e = e
go_on-Extends (some (return r)) h b e = e
go_on-Extends (some (break s len)) h b e = h s len b e

-- The same for a choice, of which both branches are so.
if-Extends :
    (t : Bool) {a b a' b' : Option Bool} {r : Bool}
    → (a ≡ some r → a' ≡ some r)
    → (b ≡ some r → b' ≡ some r)
    → (if t then a else b) ≡ some r
    → (if t then a' else b') ≡ some r
if-Extends true f g e = f e
if-Extends false f g e = g e

neither :
    (t u : Bool) (x y : Option Bool) {l l' : Option Bool} {r : Bool}
    → (l ≡ some r → l' ≡ some r)
    → (if t || u then none else l) ≡ some r
    → (if t then x else if u then y else l') ≡ some r
neither true u x y f e = absurd (cc)
neither false true x y f e = absurd (cc)
neither false false x y f e = f e

literal-Extends :
    (c : ℕ) {k k' : List ℕ → ℕ → Option Bool}
    → Extends k k'
    → Extends (λ s len. literal c s len k) (λ s len. literal c s len k')
literal-Extends c h s zero b e = e
literal-Extends c h [] (suc len) b e = absurd (cc)
literal-Extends c h (x ∷ s) (suc len) b e = if-Extends (x == c) (h s len b) (λ q. q) e

plus-Extends :
    (d : ℕ) {k k' : List ℕ → ℕ → Option Bool}
    → Extends k k'
    → Extends (λ s len. plus d s len k) (λ s len. plus d s len k')
plus-Extends d h [] len b e = absurd (cc)
plus-Extends d h (x ∷ s) len b e =
    if-Extends (d == x) (go_on-Extends (skip d (x ∷ s) len) h b) (λ q. q) e

star-Extends :
    (d : ℕ) {k k' : List ℕ → ℕ → Option Bool}
    → Extends k k'
    → Extends (λ s len. star d s len k) (λ s len. star d s len k')
star-Extends d h s len b e = if-Extends (d == 0) (λ q. q) (go_on-Extends (seek d s len) h b) e

-- Where `pmatch` returns, it returns the same with more behind the pattern's object.
pub pmatch-Extends : (p more : List ℕ) → Extends (pmatch p) (pmatch (p ++ more))
unfolding pmatch
pmatch-Extends [] more s len b e = absurd (cc)
pmatch-Extends (c ∷ []) [] s len b e = e
pmatch-Extends (c ∷ []) (d ∷ more) s len b e =
    if-Extends (c == 0) (λ q. q)
      (neither (c == b'*') (c == b'+') _ _ (literal-Extends c (λ s len b q. absurd (cc)) s len b)) e
pmatch-Extends (c ∷ d ∷ p) more s len b e =
    if-Extends (c == 0) (λ q. q)
      (if-Extends (c == b'*') (star-Extends d (pmatch-Extends (d ∷ p) more) s len b) (
        if-Extends (c == b'+') (plus-Extends d (pmatch-Extends p more) s len b)
          (literal-Extends c (pmatch-Extends (d ∷ p) more) s len b)))
      e
