-- ===== src/Time/Taia.antt =====
-- libtime/taia.h, taia_add.c, taia_sub.c, taia_less.c, taia_uint.c, taia_now.c, taia_pack.c.
use runit.Base.{
  ℕ, ◌+◌, ◌-◌, ◌*◌, ◌%◌, ◌^◌, ◌<◌, ◌≡◌, ◌↔◌, Bool, true, false, List, [], ◌∷◌, ◌++◌, ltb,
  if◌then◌else◌, arith,
}
use runit.Time.Tai.{tai_unix, tai_pack, octet}

-- `struct taia`; `unsigned long` has 64 bits.
pub record Taia : Type 0 where
  pub sec : ℕ
  pub nano : ℕ
  pub atto : ℕ

-- The comments in taia.h: both fractions lie in 0...999999999.
pub record IsNormal (t : Taia) : Type 0 where
  pub sec_fits : t.sec < 2 ^ 64
  pub nano_fits : t.nano < 1000000000
  pub atto_fits : t.atto < 1000000000

abbrev u64 : ℕ → ℕ
u64 n = n % 2 ^ 64

abbrev sub64 : ℕ → ℕ → ℕ
sub64 a b = (a + 2 ^ 64 - b) % 2 ^ 64

-- The first test of `taia_add`, then the second.
add_carry_nano : Taia → Taia
add_carry_nano t =
    if ltb 999999999 t.nano
    then record t { nano = sub64 t.nano 1000000000; sec = u64 (t.sec + 1) }
    else t

add_carry_atto : Taia → Taia
add_carry_atto t =
    if ltb 999999999 t.atto
    then record t { atto = sub64 t.atto 1000000000; nano = u64 (t.nano + 1) }
    else t

unfoldable pub taia_add : Taia → Taia → Taia
unfolding add_carry_nano add_carry_atto
taia_add u v = add_carry_nano (
    add_carry_atto (record {
      sec = u64 (u.sec + v.sec);
      nano = u64 (u.nano + v.nano);
      atto = u64 (u.atto + v.atto);
    }))

sub_borrow_atto : ℕ → Taia → Taia
sub_borrow_atto uatto t =
    if ltb uatto t.atto
    then record t { atto = u64 (t.atto + 1000000000); nano = sub64 t.nano 1 }
    else t

sub_borrow_nano : ℕ → Taia → Taia
sub_borrow_nano unano t =
    if ltb unano t.nano
    then record t { nano = u64 (t.nano + 1000000000); sec = sub64 t.sec 1 }
    else t

unfoldable pub taia_sub : Taia → Taia → Taia
unfolding sub_borrow_nano sub_borrow_atto
taia_sub u v = sub_borrow_nano u.nano (
    sub_borrow_atto u.atto
      (record { sec = sub64 u.sec v.sec; nano = sub64 u.nano v.nano; atto = sub64 u.atto v.atto }))

unfoldable pub taia_less : Taia → Taia → Bool
taia_less t u =
    if ltb t.sec u.sec
    then true
    else if ltb u.sec t.sec
    then false
    else if ltb t.nano u.nano
    then true
    else if ltb u.nano t.nano
    then false
    else ltb t.atto u.atto

unfoldable pub taia_uint : ℕ → Taia
taia_uint s = record { sec = s; nano = 0; atto = 0 }

-- With the answer of `gettimeofday`.
unfoldable pub taia_now : ℕ → ℕ → Taia
unfolding tai_unix
taia_now tv_sec tv_usec = record {
  sec = (tai_unix tv_sec).x;
  nano = u64 (1000 * tv_usec + 500);
  atto = 0;
}

-- The second, the nanoseconds, the attoseconds; the fractions' first byte is `x`, as a `char`.
unfoldable pub taia_pack : Taia → List ℕ
unfolding tai_pack
taia_pack t =
    tai_pack (record { x = t.sec })
    ++ (octet t.nano 3
        ∷ octet t.nano 2
        ∷ octet t.nano 1
        ∷ octet t.nano 0
        ∷ octet t.atto 3
        ∷ octet t.atto 2
        ∷ octet t.atto 1
        ∷ octet t.atto 0
        ∷ [])

-- The time stamp as one number of attoseconds.
abbrev pub attos : Taia → ℕ
attos t = (t.sec * 1000000000 + t.nano) * 1000000000 + t.atto

-- `taia_add` keeps normal stamps normal, and adds the time they stand for, modulo 2 ^ 64 seconds.
pub taia_add_exact :
    (u v : Taia)
    → IsNormal u
    → IsNormal v
    → IsNormal (taia_add u v)
      × (attos (taia_add u v) ≡ (attos u + attos v) % (2 ^ 64 * 1000000000 * 1000000000))
unfolding taia_add
taia_add_exact u v hu hv = (ground arith, ground arith)

-- `taia_sub` takes back what `taia_add` added.
pub taia_sub-taia_add : (u v : Taia) → IsNormal u → IsNormal v → taia_sub (taia_add u v) v ≡ u
unfolding taia_sub taia_add
taia_sub-taia_add u v hu hv = ground arith

-- On normal stamps, `taia_less` is the order of the times that they stand for.
pub taia_less_iff :
    (t u : Taia) → IsNormal t → IsNormal u → (taia_less t u ≡ true) ↔ (attos t < attos u)
unfolding taia_less
taia_less_iff t u ht hu = (λ h. ground arith, λ h. ground arith)

-- The clock's answer makes a normal stamp.
pub taia_now-IsNormal : (s us : ℕ) → us < 1000000 → IsNormal (taia_now s us)
unfolding taia_now
taia_now-IsNormal s us h = ground arith
