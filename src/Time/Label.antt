-- ===== src/Time/Label.antt =====
-- libtime/fmt_ptime.c: `fmt_taia`, the label of a time stamp. Bytes are ASCII codes.
use runit.Base.{
  ℕ, ◌+◌, ◌-◌, ◌*◌, ◌/◌, ◌%◌, ◌^◌, ◌<◌, ◌≡◌, refl, List, [], ◌∷◌, ltb, if◌then◌else◌, arith, take,
  length, All,
}
use runit.Time.Taia.{Taia, taia_pack}

-- `hex[n]`, for `n` below 16.
hex : ℕ → ℕ
hex n = if ltb n 10 then b'0' + n else b'a' + (n - 10)

-- The loop over the packed bytes, with what is written from `s + 1`.
hex_pairs : List ℕ → List ℕ
hex_pairs [] = []
hex_pairs (c ∷ rest) = hex (c / 2 ^ 4 % 16) ∷ hex (c % 16) ∷ hex_pairs rest

-- The bytes written; the function returns 25.
unfoldable pub fmt_taia : Taia → List ℕ
unfolding hex_pairs hex
fmt_taia t = b'@' ∷ hex_pairs (take 12 (taia_pack t))

-- The value of a lower-case hexadecimal digit.
abbrev unhex : ℕ → ℕ
unhex c = if ltb c b'a' then c - b'0' else c - b'a' + 10

abbrev pub unhex_pairs : List ℕ → List ℕ
unhex_pairs [] = []
unhex_pairs (a ∷ []) = []
unhex_pairs (a ∷ b ∷ rest) = (unhex a * 16 + unhex b) ∷ unhex_pairs rest

unhex-hex : (n : ℕ) → n < 16 → unhex (hex n) ≡ n
unfolding hex
unhex-hex n h = ground arith

unhex_pairs-hex_pairs : (l : List ℕ) → All (λ c. c < 256) l → unhex_pairs (hex_pairs l) ≡ l
unfolding hex_pairs
unhex_pairs-hex_pairs [] h = refl
unhex_pairs-hex_pairs (c ∷ l) h = ground (
  arith,
  unhex-hex (c / 2 ^ 4 % 16) (omega arith),
  unhex-hex (c % 16) (omega arith),
  unhex_pairs-hex_pairs l h.1,
)

-- The label of every time stamp has 25 bytes: an `@`, and pairs of lower-case hexadecimal digits that
-- stand for the twelve packed bytes of the second and the nanoseconds.
pub fmt_taia_reads :
    (t : Taia)
    → (l : List ℕ) × (fmt_taia t ≡ b'@' ∷ l)
      × (length (fmt_taia t) ≡ 25)
      × (unhex_pairs l ≡ take 12 (taia_pack t))
unfolding fmt_taia taia_pack
fmt_taia_reads t = (
  hex_pairs (take 12 (taia_pack t)),
  refl,
  refl,
  unhex_pairs-hex_pairs (take 12 (taia_pack t)) (omega arith),
)
