-- ===== src/Byte/Padded.antt =====
-- libbyte/fmt_uint0.c: decimal numbers with zeros before them.
use runit.Base.{
  ℕ, zero, suc, ◌+◌, ◌-◌, ◌^◌, ◌≤◌, ◌<◌, max, ◌≡◌, ◌∙◌, true, false, List, [], ◌∷◌, ◌++◌, Option,
  none, some, ltb, if◌then◌else◌, length, arith, Bool-cases, ap, inl, inr, length-append,
  append_assoc,
}
use runit.Byte.Decimal.{fmt_ulong, scan_ulong, scan_from, scan_digit, IsStop, IsDecimal, decimal}

-- `while (len < n) { *s++ = '0'; ++len; }`: the length, and the zeros.
pad : ℕ → ℕ → ℕ → ℕ × List ℕ
pad zero len n = (len, [])
pad (suc f) len n =
    let (len', zs) = pad f (len + 1) n in if ltb len n then (len', b'0' ∷ zs) else (len, [])

-- `fmt_uint` is `fmt_ulong`; the buffer is not null.
unfoldable pub fmt_uint0 : ℕ → ℕ → Option (ℕ × List ℕ)
unfolding fmt_ulong pad
fmt_uint0 u n = elim (fmt_ulong false u) [
  | none ↦ none
  | some (len, _) ↦ elim (fmt_ulong true u) [
    | none ↦ none
    | some (_, ds) ↦ some ((pad n len n).0, (pad n len n).1 ++ ds)
  ]
]

pad_lem :
    (f len n : ℕ) → n ≤ f + len → ((pad f len n).0 ≡ max len n) × (length (pad f len n).1 ≡ n - len)
unfolding pad
pad_lem zero len n h = omega arith
pad_lem (suc f) len n h = ground (arith, pad_lem f (len + 1) n)

scan-pad :
    (f len n : ℕ) (s : List ℕ) (pos : ℕ)
    → scan_from ((pad f len n).1 ++ s) 0 pos ≡ scan_from s 0 (pos + length (pad f len n).1)
unfolding pad
scan-pad zero len n s pos = ap (scan_from s 0) (omega arith)
scan-pad (suc f) len n s pos = elim (Bool-cases (ltb len n)) [
  | inl e ↦ rw e (
      scan_digit 0 0 ((pad f (len + 1) n).1 ++ s) pos (omega arith) (omega arith)
      ∙ scan-pad f (len + 1) n s (pos + 1)
      ∙ ap (scan_from s 0) (omega arith))
  | inr e ↦ rw e (ap (scan_from s 0) (omega arith))
]

-- `fmt_uint0` of a 32-bit number returns: it writes as many bytes as the length that it returns,
-- which is at least `n`, and `scan_ulong` reads the number back from them and stops behind them, if
-- what follows begins with no digit.
pub scan_ulong-fmt_uint0 :
    (u n b : ℕ) (tail : List ℕ)
    → u < 2 ^ 32
    → IsStop b
    → (ds : List ℕ) × (fmt_uint0 u n ≡ some (length ds, ds))
      × (n ≤ length ds)
      × (scan_ulong (ds ++ (b ∷ tail)) ≡ some (length ds, u))
unfolding fmt_uint0 scan_ulong
scan_ulong-fmt_uint0 u n b tail hu h = go (decimal u (omega arith))
  where
    go :
        (ds : List ℕ) × IsDecimal u ds
        → (ds : List ℕ) × (fmt_uint0 u n ≡ some (length ds, ds))
          × (n ≤ length ds)
          × (scan_ulong (ds ++ (b ∷ tail)) ≡ some (length ds, u))
    go (ds, d) =
        let zs = (pad n (length ds) n).1 in
        let fits = pad_lem n (length ds) n (omega arith) in
        let whole = length-append zs ds in
        (
          zs ++ ds,
          ground (arith, d.printed, d.counted, fits, whole),
          omega (arith, fits, whole),
          ap (λ (l : List ℕ). scan_from l 0 0) (append_assoc zs ds (b ∷ tail))
              ∙ scan-pad n (length ds) n (ds ++ (b ∷ tail)) 0
              ∙ d.read b tail (0 + length zs) h
              ∙ ground (arith, whole),
        )
