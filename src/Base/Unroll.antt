-- ===== src/Base/Unroll.antt =====
-- Loops whose body the source repeats four times, and reads of an object's bytes.
use Prim.Native.Nat.{ℕ, zero, suc, ◌*◌}
use mathlib.Core.Path.{subst}
use mathlib.Core.Option.{Option, none}
use mathlib.Core.List.{List, [], ◌∷◌}
use native.Mathlib.Omega.{arith}

-- `for (;;) { body body body body }`: at most `f` rounds, then `last`. A body takes what the code
-- goes on with.
unfoldable pub unroll {ℓ} : {K : Type ℓ} → (K → K) → ℕ → K → K
unroll body zero last = last
unroll body (suc f) last = body (body (body (body (unroll body f last))))

-- A property that counts the bodies left holds of the whole loop.
pub unroll_inv {ℓ κ} :
    {K : Type ℓ} (P : ℕ → K → Type κ) (body : K → K) (last : K)
    → P 0 last
    → ((m : ℕ) (k : K) → P m k → P (suc m) (body k))
    → (f : ℕ) → P (4 * f) (unroll body f last)
unfolding unroll
unroll_inv P body last base keep zero = base
unroll_inv P body last base keep (suc f) =
    let four : (m : ℕ) (k : _) → P m k → P (suc (suc (suc (suc m)))) (body (body (body (body k)))) =
      λ m k h. keep _ _ (keep _ _ (keep _ _ (keep m k h))) in
    subst (λ m. P m (body (body (body (body (unroll body f last)))))) (omega arith)
      (four (4 * f) (unroll body f last) (unroll_inv P body last base keep f))

-- `*p`, with the bytes behind it, where `p` is the list of the bytes from `p` to the end of its
-- object. A read past the end is the fault `none`.
abbrev pub deref {ℓ κ} : {A : Type ℓ} {B : Type κ} → List A → (A → List A → Option B) → Option B
deref [] f = none
deref (c ∷ rest) f = f c rest
