-- ===== src/Byte/Decimal.antt =====
-- libbyte/fmt_ulong.c, scan_ulong.c: decimal numbers. `unsigned long` has 64 bits.
use runit.Base.{
  ℕ, zero, suc, ◌+◌, ◌-◌, ◌*◌, ◌/◌, ◌%◌, ◌^◌, ◌<◌, ◌≡◌, ◌∙◌, Bool, true, false, List, [], ◌∷◌, ◌++◌,
  Option, none, some, ◌==◌, ltb, if◌then◌else◌, length, arith, Bool-cases, ap₂, inl, inr,
}

-- `while (q > 9) { ++len; q /= 10; }`
count_digits : ℕ → ℕ → ℕ → Option ℕ
count_digits zero q len = none
count_digits (suc f) q len =
    let rest = count_digits f (q / 10) (len + 1) in if ltb 9 q then rest else some len

-- `do { *--s = '0' + (u % 10); u /= 10; } while (u);`, where `acc` stands from `s` on.
write_digits : ℕ → ℕ → List ℕ → Option (List ℕ)
write_digits zero u acc = none
write_digits (suc f) u acc =
    let acc' = (b'0' + u % 10) ∷ acc in
    let rest = write_digits f (u / 10) acc' in if u / 10 == 0 then some acc' else rest

-- The length, and the bytes that the second loop writes down from `s + len`; none are written if
-- `s` is null.
unfoldable pub fmt_ulong : Bool → ℕ → Option (ℕ × List ℕ)
unfolding count_digits write_digits
fmt_ulong s u = elim (count_digits (u + 1) u 1) [
  | none ↦ none
  | some len ↦
      if s
      then elim (write_digits (u + 1) u []) [ none ↦ none | some ds ↦ some (len, ds) ]
      else some (len, [])
]

-- `(unsigned char) (s[pos] - '0')`
abbrev pub digit : ℕ → ℕ
digit c = (c + 256 - b'0') % 256

pub scan_from : List ℕ → ℕ → ℕ → Option (ℕ × ℕ)
scan_from [] result pos = none
scan_from (b ∷ rest) result pos =
    let more = scan_from rest ((result * 10 + digit b) % 2 ^ 64) (pos + 1) in
    if ltb (digit b) 10 then more else some (pos, result)

-- The position after the digits, and the number.
unfoldable pub scan_ulong : List ℕ → Option (ℕ × ℕ)
unfolding scan_from
scan_ulong s = scan_from s 0 0

-- What the loops do at a number: they write the digits `ds`, one more than `more`, in front of `acc`.
record Printed (f u : ℕ) (acc : List ℕ) : Type 0 where
  ds : List ℕ
  more : ℕ
  written : write_digits f u acc ≡ some ds
  longer : length ds ≡ more + 1 + length acc
  pub counted : (len : ℕ) → count_digits f u len ≡ some (len + more)
  scanned :
      (tail : List ℕ) (pos : ℕ)
      → scan_from (ds ++ tail) 0 pos ≡ scan_from (acc ++ tail) u (pos + (more + 1))

pub scan_digit :
    (q d : ℕ) (rest : List ℕ) (pos : ℕ)
    → d < 10
    → q * 10 + d < 2 ^ 64
    → scan_from ((b'0' + d) ∷ rest) q pos ≡ scan_from rest (q * 10 + d) (pos + 1)
unfolding scan_from
scan_digit q d rest pos hd hq =
    let e : digit (b'0' + d) ≡ d = omega arith in
    let t : ltb d 10 ≡ true = ground arith in
    let m : (q * 10 + d) % 2 ^ 64 ≡ q * 10 + d = omega arith in rw (e, t, m)

-- One more digit in front of what is written.
print_step :
    (f u : ℕ) (acc : List ℕ)
    → u < 2 ^ 64
    → (u / 10 == 0) ≡ false
    → Printed f (u / 10) ((b'0' + u % 10) ∷ acc)
    → Printed (suc f) u acc
unfolding count_digits write_digits
print_step f u acc hu e p = record {
  ds = p.ds;
  more = p.more + 1;
  written = rw e p.written;
  longer = omega (arith, p.longer);
  counted = λ len. ground (arith, p.counted (len + 1));
  scanned = λ tail pos.
      p.scanned tail pos
      ∙ scan_digit (u / 10) (u % 10) (acc ++ tail) (pos + (p.more + 1)) (omega arith) (omega arith)
      ∙ ap₂ (scan_from (acc ++ tail)) (omega arith) (omega arith);
}

print_last : (f u : ℕ) (acc : List ℕ) → u < 2 ^ 64 → (u / 10 == 0) ≡ true → Printed (suc f) u acc
unfolding count_digits write_digits
print_last f u acc hu e = record {
  ds = (b'0' + u % 10) ∷ acc;
  more = 0;
  written = rw e;
  longer = omega arith;
  counted = λ len. ground arith;
  scanned = λ tail pos.
      scan_digit 0 (u % 10) (acc ++ tail) pos (omega arith) (omega arith)
      ∙ ap₂ (scan_from (acc ++ tail)) (ground arith) (omega arith);
}

print : (f u : ℕ) (acc : List ℕ) → u < f → u < 2 ^ 64 → Printed f u acc
print zero u acc hf hu = elim hf [ ]
print (suc f) u acc hf hu = elim (Bool-cases (u / 10 == 0)) [
  | inl e ↦ print_last f u acc hu e
  | inr e ↦
      print_step f u acc hu e
        (print f (u / 10) ((b'0' + u % 10) ∷ acc) (ground arith) (omega arith))
]

-- Not a digit.
abbrev pub IsStop : ℕ → Type 0
IsStop b = ltb (digit b) 10 ≡ false

scan_stop :
    (b : ℕ) (tail : List ℕ) (result pos : ℕ)
    → IsStop b
    → scan_from (b ∷ tail) result pos ≡ some (pos, result)
unfolding scan_from
scan_stop b tail result pos h = rw h

-- `fmt_ulong` writes `ds` for `u`, counts as many, and `scan_ulong` reads them from any position.
pub record IsDecimal (u : ℕ) (ds : List ℕ) : Type 0 where
  pub printed : fmt_ulong true u ≡ some (length ds, ds)
  pub counted : fmt_ulong false u ≡ some (length ds, [])
  pub read :
      (b : ℕ) (tail : List ℕ) (pos : ℕ)
      → IsStop b
      → scan_from (ds ++ (b ∷ tail)) 0 pos ≡ some (pos + length ds, u)

Printed-IsDecimal : (u : ℕ) (p : Printed (u + 1) u []) → IsDecimal u p.ds
unfolding fmt_ulong
Printed-IsDecimal u p = record {
  printed = ground (arith, p.counted 1, p.written, len);
  counted = ground (arith, p.counted 1, len);
  read = λ b tail pos h.
      p.scanned (b ∷ tail) pos ∙ scan_stop b tail u (pos + (p.more + 1)) h ∙ ground (arith, len);
}
  where
    len : length p.ds ≡ 1 + p.more
    len = omega (arith, p.longer)

pub decimal : (u : ℕ) → u < 2 ^ 64 → (ds : List ℕ) × IsDecimal u ds
decimal u hu = let p = print (u + 1) u [] (omega arith) hu in (p.ds, Printed-IsDecimal u p)

-- `fmt_ulong` of a 64-bit number returns: the bytes that it writes are as many as the length that it
-- counts, with no buffer it returns the same length, and `scan_ulong` reads the number back from
-- those bytes and stops behind them, if what follows them begins with no digit.
pub scan_ulong-fmt_ulong :
    (u b : ℕ) (tail : List ℕ)
    → u < 2 ^ 64
    → IsStop b
    → (ds : List ℕ) × (fmt_ulong true u ≡ some (length ds, ds))
      × (fmt_ulong false u ≡ some (length ds, []))
      × (scan_ulong (ds ++ (b ∷ tail)) ≡ some (length ds, u))
unfolding scan_ulong
scan_ulong-fmt_ulong u b tail hu h =
    let (ds, d) = decimal u hu in (ds, d.printed, d.counted, d.read b tail 0 h ∙ ground arith)
