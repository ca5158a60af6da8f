-- ===== src/Svlogd/Oldest.antt =====
-- utils/svlogd.c: which file `rmoldest` takes, and how many it leaves.
use mathlib.Core.Path.{subst}
use runit.Base.{
  ℕ, ◌≡◌, ◌≤◌, ◌<◌, ◌⊎◌, inl, inr, Bool, true, false, List, [], ◌∷◌, if◌then◌else◌, ◌&&◌, ltb, All,
  arith, refl, Bool-cases, sym, ◌∙◌, sub_ℕ,
}
use runit.Svlogd.Defs.{File}
use runit.Svlogd.Files.{
  is_negative, is_before, is_log, is_counted, no_file, oldest, count_files, same, unlink,
}

sub_negative : (a b : ℕ) → is_negative (sub_ℕ a b) ≡ ltb a b
sub_negative a b = ground arith

is_before_trans :
    (a b c : List ℕ) → is_before a b ≡ true → is_before b c ≡ true → is_before a c ≡ true
unfolding is_before
is_before_trans [] [] c h k = k
is_before_trans [] (y ∷ b) [] h k = ground (arith, sub_negative y 0)
is_before_trans [] (y ∷ b) (z ∷ c) h k =
    ground (arith, sub_negative 0 y, sub_negative 0 z, sub_negative y z)
is_before_trans (x ∷ a) [] c h k = ground (arith, sub_negative x 0)
is_before_trans (x ∷ a) (y ∷ b) [] h k = ground (arith, sub_negative y 0)
is_before_trans (x ∷ a) (y ∷ b) (z ∷ c) h k =
    ground (arith, sub_negative x y, sub_negative y z, sub_negative x z, is_before_trans a b c)

-- Some file that counts has the name.
abbrev pub HasName : (List ℕ → Bool) → List ℕ → List File → Type 0
HasName test o [] = ⊥
HasName test o (f ∷ fs) = ((test f.name ≡ true) × (f.name ≡ o)) ⊎ HasName test o fs

-- No file that counts comes before the name.
abbrev pub NoneBefore : (List ℕ → Bool) → List ℕ → List File → Type 0
NoneBefore test o fs = All (λ (f : File). (test f.name ≡ true) → is_before f.name o ≡ false) fs

-- The value after one file.
abbrev older : (List ℕ → Bool) → List ℕ → File → List ℕ
older test o f = if test f.name && is_before f.name o then f.name else o

older_or :
    (test : List ℕ → Bool) (o : List ℕ) (f : File)
    → (older test o f ≡ o)
      ⊎ ((older test o f ≡ f.name) × (test f.name ≡ true) × (is_before f.name o ≡ true))
older_or test o f = elim (Bool-cases (test f.name && is_before f.name o)) [
  | inl y ↦ rw y (inr (refl, ground arith, ground arith))
  | inr n ↦ rw n (inl refl)
]

-- `oldest` is the value before, or the name of a file and before that value.
abbrev Found : (List ℕ → Bool) → List ℕ → List ℕ → List File → Type 0
Found test r o fs = (r ≡ o) ⊎ (HasName test r fs × (is_before r o ≡ true))

Found-cons :
    (test : List ℕ → Bool) (r o : List ℕ) (f : File) (fs : List File)
    → Found test r (older test o f) fs
    → Found test r o (f ∷ fs)
Found-cons test r o f fs h = elim (older_or test o f) [
  | inl e ↦ elim h [
    | inl q ↦ inl (q ∙ e)
    | inr (m, b) ↦ inr (inr m, subst (λ x. is_before r x ≡ true) e b)
  ]
  | inr (e, t, b) ↦ elim h [
    | inl q ↦ inr (inl (t, sym (q ∙ e)), subst (λ x. is_before x o ≡ true) (sym (q ∙ e)) b)
    | inr (m, c) ↦ inr (inr m, is_before_trans r f.name o (subst (λ x. is_before r x ≡ true) e c) b)
  ]
]

oldest-Found :
    (test : List ℕ → Bool) (o : List ℕ) (fs : List File) → Found test (oldest test o fs) o fs
unfolding oldest
oldest-Found test o [] = inl refl
oldest-Found test o (f ∷ fs) =
    Found-cons test (oldest test (older test o f) fs) o f fs (oldest-Found test (older test o f) fs)

-- What is not before the value before is not before `oldest` either.
not_before :
    (test : List ℕ → Bool) (a r o : List ℕ) (fs : List File)
    → Found test r o fs
    → is_before a o ≡ false
    → is_before a r ≡ false
not_before test a r o fs f h = elim f [
  | inl e ↦ rw e h
  | inr (_, l) ↦ elim (Bool-cases (is_before a r)) [
    | inl y ↦ let b = is_before_trans a r o y l in absurd (cc)
    | inr n ↦ n
  ]
]

is_before_irrefl : (a : List ℕ) → is_before a a ≡ false
unfolding is_before
is_before_irrefl [] = refl
is_before_irrefl (x ∷ a) = ground (arith, is_before_irrefl a)

not_before_older :
    (test : List ℕ → Bool) (o : List ℕ) (f : File)
    → test f.name ≡ true
    → is_before f.name (older test o f) ≡ false
not_before_older test o f t = elim (Bool-cases (is_before f.name o)) [
  | inl y ↦ rw (t, y) (is_before_irrefl f.name)
  | inr n ↦ rw (t, n) n
]

-- Nothing that counts is before the file that is found.
pub oldest-NoneBefore :
    (test : List ℕ → Bool) (o : List ℕ) (fs : List File) → NoneBefore test (oldest test o fs) fs
unfolding oldest
oldest-NoneBefore test o [] = tt
oldest-NoneBefore test o (f ∷ fs) = (
  λ t.
      not_before test f.name (oldest test (older test o f) fs) (older test o f) fs
        (oldest-Found test (older test o f) fs) (not_before_older test o f t),
  oldest-NoneBefore test (older test o f) fs,
)

-- A name that begins with an at sign is before the first value.
log_before : (a : List ℕ) → is_log a ≡ true → is_before a no_file ≡ true
unfolding is_log is_before
log_before [] h = cc
log_before (x ∷ a) h = ground (arith, sub_negative x b'A')

counted_log : (a : List ℕ) → is_counted a ≡ true → is_log a ≡ true
counted_log a h = ground arith

none_counted : (fs : List File) → NoneBefore is_counted no_file fs → count_files is_counted fs ≡ 0
unfolding count_files
none_counted [] h = refl
none_counted (f ∷ fs) (h, hs) = elim (Bool-cases (is_counted f.name)) [
  | inl y ↦ let b = log_before f.name (counted_log f.name y) in let c = h y in absurd (cc)
  | inr n ↦ rw n (none_counted fs hs)
]

-- If some file counts, the oldest is the name of one.
pub oldest_exists :
    (fs : List File)
    → 0 < count_files is_counted fs
    → HasName is_counted (oldest is_counted no_file fs) fs
oldest_exists fs h = elim (oldest-Found is_counted no_file fs) [
  | inl e ↦
      let z =
        none_counted fs
          (subst (λ r. NoneBefore is_counted r fs) e (oldest-NoneBefore is_counted no_file fs)) in
      absurd (ground arith)
  | inr (m, _) ↦ m
]

same_refl : (o : List ℕ) → same o o ≡ true
same_refl [] = refl
same_refl (x ∷ o) = ground (arith, same_refl o)

pub unlink_at_most :
    (test : List ℕ → Bool) (o : List ℕ) (fs : List File)
    → count_files test (unlink o fs) ≤ count_files test fs
unfolding count_files unlink
unlink_at_most test o [] = ground arith
unlink_at_most test o (f ∷ fs) = ground (arith, unlink_at_most test o fs)

-- One name is taken out.
pub unlink_fewer :
    (test : List ℕ → Bool) (o : List ℕ) (fs : List File)
    → HasName test o fs
    → count_files test (unlink o fs) < count_files test fs
unfolding count_files unlink
unlink_fewer test o [] m = absurd m
unlink_fewer test o (f ∷ fs) (inl (t, e)) =
    let r = same_refl o in
    let q = subst (λ x. same x o ≡ true) (sym e) r in
    let m = unlink_at_most test o fs in rw (t, q) (ground arith)
unlink_fewer test o (f ∷ fs) (inr m) =
    let k = unlink_fewer test o fs m in
    elim (Bool-cases (same f.name o)) [
      | inl y ↦ rw y (elim (Bool-cases (test f.name)) [
        | inl t ↦ rw t (ground arith)
        | inr t ↦ rw t (ground arith)
      ])
      | inr n ↦ rw n (elim (Bool-cases (test f.name)) [
        | inl t ↦ rw t (ground arith)
        | inr t ↦ rw t (ground arith)
      ])
    ]
