-- ===== src/Sv/Tells.antt =====
-- sv/sv.c: the counts of the messages over the steps of the two loops.
use mathlib.Core.Path.{subst, sym}
use runit.Base.{
  ℕ, ◌+◌, ◌≡◌, ◌≢◌, ◌≤◌, inl, inr, Bool, true, false, List, [], ◌∷◌, Option, none, some,
  if◌then◌else◌, arith, refl, Bool-cases, String,
}
use runit.Sv.Defs.{time_out, kill, Sv, Place, say, fail_with}
use runit.Sv.Get.{svstatus_get, control, control_acts, is_positive, first}
use runit.Sv.Check.{check}
use runit.Sv.Print.{svstatus_print}
use runit.Sv.Action.{Act, Plan}
use runit.Sv.Loop.{
  World, Run, Next, goes, ends, after, leave, wait_in, acting, act, act_in, give_up,
  from_varservice, log_sent, with_sv, is_zero,
}
use runit.Sv.Counts.{
  IsEven, Counts, control-IsEven, control_acts-IsEven, check-IsEven, get-IsEven, print-IsEven,
  IsEven-trans, IsEven-Counts,
}

-- The counts are right, and an early end is no success.
abbrev pub Right {ℓ} : {A : Type ℓ} → Next A → Type 0
Right (goes a m) = Counts m.sv
Right (ends n m) = Counts m.sv × (1 ≤ n)

pub after-Right {ℓ κ} :
    {A : Type ℓ} {B : Type κ} (x : Next A) (f : A → Run → Next B)
    → Right x
    → ((a : A) (m : Run) → Counts m.sv → Right (f a m))
    → Right (after x f)
after-Right (goes a m) f h k = k a m h
after-Right (ends n m) f h k = h

pub leave-Right : (w : World) (keep : Bool) (m : Run) → Counts m.sv → Right (leave w keep m)
unfolding leave
leave-Right w keep m h = elim (Bool-cases (w.fchdir m.visits)) [
  | inl y ↦ rw y h
  | inr n ↦ rw n (h, ground arith)
]

fail-Counts : (g : Sv) (s : String) → Counts g → Counts (fail_with s g)
fail-Counts g s h = record {
  at_least = omega (arith, h.at_least);
  at_most = omega (arith, h.at_most);
}

log_sent-sv : (name bytes : List ℕ) (m : Run) → (log_sent name bytes m).sv ≡ m.sv
log_sent-sv name [] m = refl
log_sent-sv name (c ∷ cs) m = refl

act-Right :
    (a : Act) (acts : List ℕ) (p : Place) (name : List ℕ) (m : Run)
    → a ≢ Act.status
    → Counts m.sv
    → Right (act a acts p name m)
unfolding act
act-Right Act.nothing acts p name m n h = h
act-Right Act.status acts p name m n h = absurd (n refl)
act-Right Act.control acts p name m n h =
    let r = control (p.look 0) acts m.sv in
    subst Counts (sym (log_sent-sv name r.1 (with_sv r.2 m)))
      (IsEven-Counts m.sv r.2 (control-IsEven (p.look 0) acts m.sv) h)

act_in-Right :
    (plan : Plan) (o : Option Place) (name : List ℕ) (m : Run)
    → plan.act ≢ Act.status
    → Counts m.sv
    → Right (act_in plan o name m)
unfolding act_in
act_in-Right plan none name m n h = fail-Counts m.sv _ h
act_in-Right plan (some p) name m n h = act-Right plan.act plan.acts p name m n h

pub acting-Right :
    (w : World) (plan : Plan) (names : List (List ℕ)) (m : Run)
    → plan.act ≢ Act.status
    → Counts m.sv
    → Right (acting w plan names m)
unfolding acting
acting-Right w plan [] m n h = h
acting-Right w plan (name ∷ names) m n h =
    after-Right (act_in plan (w.chdir m.visits (from_varservice name) name) name m) _
      (act_in-Right plan (w.chdir m.visits (from_varservice name) name) name m n h)
      (λ keep m h. after-Right (leave w keep m) _ (leave-Right w keep m h) (λ keep m h.
        after-Right (acting w plan names m) _ (acting-Right w plan names m n h) (λ s m h. h)))

-- The service is given up with one message and at most one count.
given-Counts :
    (b : Bool) (g h : Sv)
    → IsEven (say (if b then kill else time_out) g) h
    → Counts g
    → Counts h × Counts (record h { rc = h.rc + 1 })
given-Counts true g h v c = (
  record {
    at_least = omega (arith, v.counts, c.at_least);
    at_most = omega (arith, v.counts, v.keeps, c.at_most);
  },
  record {
    at_least = omega (arith, v.counts, c.at_least);
    at_most = omega (arith, v.counts, v.keeps, c.at_most);
  },
)
given-Counts false g h v c = (
  record {
    at_least = omega (arith, v.counts, c.at_least);
    at_most = omega (arith, v.counts, v.keeps, c.at_most);
  },
  record {
    at_least = omega (arith, v.counts, c.at_least);
    at_most = omega (arith, v.counts, v.keeps, c.at_most);
  },
)

if-Counts : (b : Bool) (g h : Sv) → Counts g → Counts h → Counts (if b then g else h)
if-Counts true g h x y = x
if-Counts false g h x y = y

if_run : (b : Bool) (m n : Run) → Counts m.sv → Counts n.sv → Counts (if b then m else n).sv
if_run true m n x y = x
if_run false m n x y = y

give_up-Counts :
    (plan : Plan) (p : Place) (name : List ℕ) (m : Run)
    → Counts m.sv
    → Counts (give_up plan p name m).sv
unfolding give_up
give_up-Counts plan p name m c =
    let g = say (if plan.kll then kill else time_out) m.sv in
    let x = svstatus_get (p.look 1) (first plan.acts) g in
    let v = get-IsEven (p.look 1) (first plan.acts) g in
    let y = svstatus_print p.down false x.1 in
    let u = IsEven-trans g x.1 y.1 v (print-IsEven p.down false x.1) in
    let h = record (y.1) { rc = y.1.rc + 1 } in
    let g₂ = if is_positive x.0 then h else x.1 in
    let k =
      if-Counts (is_positive x.0) h x.1 ((given-Counts plan.kll m.sv y.1 u c).1)
        ((given-Counts plan.kll m.sv x.1 v c).0) in
    let z = control_acts (p.look 2) (first plan.acts) (b'k' ∷ []) g₂ in
    let e =
      IsEven-Counts g₂ z.2 (control_acts-IsEven (p.look 2) (first plan.acts) (b'k' ∷ []) g₂) k in
    if_run plan.kll (log_sent name z.1 (with_sv z.2 m)) (with_sv g₂ m)
      (subst Counts (sym (log_sent-sv name z.1 (with_sv z.2 m))) e) k

if_pair :
    (b : Bool) (x y : (Bool × Bool) × Run)
    → Counts x.1.sv
    → Counts y.1.sv
    → Counts (if b then x else y).1.sv
if_pair true x y h k = h
if_pair false x y h k = k

pub wait_in-Counts :
    (plan : Plan) (late : Bool) (o : Option Place) (name : List ℕ) (m : Run)
    → Counts m.sv
    → Counts (wait_in plan late o name m).1.sv
unfolding wait_in
wait_in-Counts plan late none name m c = fail-Counts m.sv _ c
wait_in-Counts plan late (some p) name m c =
    let r = check (p.look 0) plan.acts m.sv in
    let m₁ = with_sv r.1 m in
    let k = IsEven-Counts m.sv r.1 (check-IsEven (p.look 0) plan.acts m.sv) c in
    if_pair (is_zero r.0) _ _ (if_pair late _ _ (give_up-Counts plan p name m₁ k) k) k
