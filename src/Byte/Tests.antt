-- ===== src/Byte/Tests.antt =====
-- libbyte: the theorems at concrete inputs.
use runit.Base.{ℕ, ◌+◌, ◌≡◌, List, [], ◌∷◌, some, true, refl}
use runit.Byte.Copy.{Memory}
use runit.Byte.Decimal.{fmt_ulong}
use runit.Byte.Padded.{fmt_uint0}

abbrev word : List ℕ
word = b'a' ∷ b'b' ∷ b'a' ∷ 0 ∷ []

abbrev other_word : List ℕ
other_word = b'a' ∷ b'b' ∷ 0 ∷ b'x' ∷ []

abbrev memory : Memory
memory a = a + 100

-- `fmt_ulong` writes the digits in order, and `fmt_uint0` puts zeros before them.
fmt_ulong_digits : fmt_ulong true 305 ≡ some (3, b'3' ∷ b'0' ∷ b'5' ∷ [])
unfolding fmt_ulong
fmt_ulong_digits = refl

fmt_uint0_pads : fmt_uint0 7 2 ≡ some (2, b'0' ∷ b'7' ∷ [])
unfolding fmt_uint0
fmt_uint0_pads = refl
