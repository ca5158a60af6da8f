-- ===== src/Sv/Ends.antt =====
-- sv/sv.c: the waiting loop ends once the time is over.
use runit.Base.{
  ℕ, zero, suc, ◌+◌, ◌≡◌, inl, inr, Bool, true, false, List, [], ◌∷◌, Option, none, some,
  if◌then◌else◌, arith, refl, ◌∙◌, ap, All, Bool-cases,
}
use runit.Sv.Defs.{Place}
use runit.Sv.Action.{Plan}
use runit.Sv.Check.{check}
use runit.Sv.Loop.{
  is_zero, World, Run, Next, goes, ends, after, Slots, slot, leave, wait_in, pass, again, tick,
  waiting, acting, finish, wait_if, finish_if, main, from_varservice_again,
}

-- What holds of a step's result when the program goes on.
abbrev pub Goes {ℓ κ} : {A : Type ℓ} → (A → Run → Type κ) → Next A → Type κ
Goes P (goes a m) = P a m
Goes P (ends n m) = Unit

pub after-Goes {ℓ ℓ' κ κ'} :
    {A : Type ℓ} {B : Type ℓ'} (Q : A → Run → Type κ) (P : B → Run → Type κ') (x : Next A)
    (f : A → Run → Next B)
    → Goes Q x
    → ((a : A) (m : Run) → Q a m → Goes P (f a m))
    → Goes P (after x f)
after-Goes Q P (goes a m) f h k = k a m h
after-Goes Q P (ends n m) f h k = tt

pub leave-Goes : (w : World) (keep : Bool) (m : Run) → Goes (λ k _. k ≡ keep) (leave w keep m)
unfolding leave
leave-Goes w keep m = elim (Bool-cases (w.fchdir m.visits)) [ inl y ↦ rw y refl | inr n ↦ rw n tt ]

-- No service is waited for.
abbrev AllNone : Slots → Type 0
AllNone slots = All (λ s. s ≡ none) slots

if-dropped :
    (b : Bool) (x y : (Bool × Bool) × Run)
    → x.0.0 ≡ false
    → y.0.0 ≡ false
    → (if b then x else y).0.0 ≡ false
if-dropped true x y h k = h
if-dropped false x y h k = k

wait_in_late :
    (plan : Plan) (o : Option Place) (name : List ℕ) (m : Run)
    → (wait_in plan true o name m).0.0 ≡ false
unfolding wait_in
wait_in_late plan none name m = refl
wait_in_late plan (some p) name m =
    if-dropped (is_zero (check (p.look 0) plan.acts m.sv).0) _ _ refl refl

pass_late :
    (w : World) (plan : Plan) (slots : Slots) (m : Run)
    → Goes (λ r _. AllNone r.0) (pass w plan true slots m)
unfolding pass
pass_late w plan [] m = tt
pass_late w plan (none ∷ slots) m =
    after-Goes (λ r _. AllNone r.0) (λ r _. AllNone r.0) (pass w plan true slots m) _
      (pass_late w plan slots m) (λ r m h. (refl, h))
pass_late w plan (some name ∷ slots) m =
    let o = w.chdir m.visits (from_varservice_again name) name in
    let r = wait_in plan true o name m in
    let e = wait_in_late plan o name m in
    after-Goes (λ k _. k ≡ r.0.0) (λ r _. AllNone r.0) (leave w r.0.0 r.1) _
      (leave-Goes w r.0.0 r.1)
      (λ keep m' h.
        after-Goes (λ r _. AllNone r.0) (λ r _. AllNone r.0) (pass w plan true slots m') _
          (pass_late w plan slots m') (λ s m'' a. (ap (slot name) (h ∙ e), a)))

pass_none :
    (w : World) (plan : Plan) (late : Bool) (slots : Slots) (m : Run)
    → AllNone slots
    → Goes (λ r _. r.1 ≡ false) (pass w plan late slots m)
unfolding pass
pass_none w plan late [] m h = refl
pass_none w plan late (none ∷ slots) m h =
    after-Goes (λ r _. r.1 ≡ false) (λ r _. r.1 ≡ false) (pass w plan late slots m) _
      (pass_none w plan late slots m h.1) (λ r m e. e)
pass_none w plan late (some name ∷ slots) m h = absurd (ground (arith, h.0))

Ends : Option (Next Slots) → Type 0
Ends o = (r : Next Slots) × (o ≡ some r)

again_stops :
    (x : Next (Slots × Bool)) (k : Slots → Run → Option (Next Slots))
    → Goes (λ r _. r.1 ≡ false) x
    → Ends (again x k)
unfolding Ends
again_stops (ends n m) k h = (ends n m, refl)
again_stops (goes (s, false) m) k h = (goes s m, refl)
again_stops (goes (s, true) m) k h = absurd (ground (arith, h))

again-Ends :
    (x : Next (Slots × Bool)) (k : Slots → Run → Option (Next Slots)) (P : Slots → Type 0)
    → Goes (λ r _. P r.0) x
    → ((s : Slots) (m : Run) → P s → Ends (k s m))
    → Ends (again x k)
unfolding Ends
again-Ends (ends n m) k P h f = (ends n m, refl)
again-Ends (goes (s, false) m) k P h f = (goes s m, refl)
again-Ends (goes (s, true) m) k P h f = f s m h

any :
    (w : World) (plan : Plan) (late : Bool) (slots : Slots) (m : Run)
    → Goes (λ r _. Unit {0}) (pass w plan late slots m)
any w plan late slots m = all (pass w plan late slots m)
  where
    all : (x : Next (Slots × Bool)) → Goes (λ r _. Unit {0}) x
    all (goes a m) = tt
    all (ends n m) = tt

-- Enough rounds: one more than those before the time is over, and one to see that nothing is left.
waiting-Ends :
    (w : World) (plan : Plan) (k n : ℕ) (slots : Slots) (m : Run)
    → w.late (n + k) ≡ true
    → Ends (waiting w plan (suc (suc k)) n slots m)
unfolding waiting
waiting-Ends w plan zero n slots m h =
    let late : w.late n ≡ true = ap w.late (omega arith) ∙ h in
    rw late (
      again-Ends (pass w plan true slots m) _ AllNone (pass_late w plan slots m) (λ s m' a.
        again_stops (pass w plan (w.late (n + 1)) s _) _ (pass_none w plan (w.late (n + 1)) s _ a)))
waiting-Ends w plan (suc k) n slots m h =
    let later : w.late (n + 1 + k) ≡ true = ap w.late (omega arith) ∙ h in
    again-Ends (pass w plan (w.late n) slots m) _ (λ _. Unit {0}) (any w plan (w.late n) slots m)
      (λ s m' a. waiting-Ends w plan k (n + 1) s (tick (w.now (n + 1)) m') later)

wait_if-Ends :
    (w : World) (plan : Plan) (k : ℕ) (x : Next Slots)
    → w.late k ≡ true
    → Ends (wait_if w plan (suc (suc k)) x)
unfolding wait_if Ends
wait_if-Ends w plan k (ends n m) h = (ends n m, refl)
wait_if-Ends w plan k (goes s m) h = elim (Bool-cases plan.waits) [
  | inl y ↦ rw y (waiting-Ends w plan k 0 s m (ap w.late (omega arith) ∙ h))
  | inr n ↦ rw n (goes s m, refl)
]

-- Once the time is over by some round, `main` returns after at most two rounds more, whatever the supervisors answer.
pub main_returns :
    (w : World) (plan : Plan) (k : ℕ) (names : List (List ℕ)) (m : Run)
    → w.late k ≡ true
    → (code : ℕ) × (m' : Run) × (main w plan (k + 2) names m ≡ some (code, m'))
unfolding main finish_if Ends
main_returns w plan k names m h =
    let fuel : k + 2 ≡ suc (suc k) = omega arith in
    let (r, e) = wait_if-Ends w plan k (acting w plan names m) h in
    ((finish r).0, (finish r).1, rw fuel (ap finish_if e))
