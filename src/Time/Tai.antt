-- ===== src/Time/Tai.antt =====
-- libtime/tai.h, tai_sub.c, tai_pack.c, tai_unpack.c, tai_now.c: seconds as 64-bit numbers.
use runit.Base.{
  ℕ, ◌+◌, ◌-◌, ◌*◌, ◌/◌, ◌%◌, ◌^◌, ◌<◌, ◌≡◌, List, [], ◌∷◌, ◌++◌, Option, none, some, arith,
}

-- `struct tai`: the second, below 2 ^ 64.
pub record Tai : Type 0 where
  pub x : ℕ

-- `tai_unix(t, u)`, and `tai_now` with the clock's answer `u`.
unfoldable pub tai_unix : ℕ → Tai
tai_unix u = record { x = (4611686018427387914 + u) % 2 ^ 64 }

unfoldable pub tai_sub : Tai → Tai → Tai
tai_sub u v = record { x = (u.x + 2 ^ 64 - v.x) % 2 ^ 64 }

-- `x & 255` for `x` shifted right by eight `k` times; a `char` keeps as many bits.
abbrev pub octet : ℕ → ℕ → ℕ
octet x k = x / 256 ^ k % 256

unfoldable pub tai_pack : Tai → List ℕ
tai_pack t =
    octet t.x 7
    ∷ octet t.x 6
    ∷ octet t.x 5
    ∷ octet t.x 4
    ∷ octet t.x 3
    ∷ octet t.x 2
    ∷ octet t.x 1
    ∷ octet t.x 0
    ∷ []

-- `x <<= 8; x += (unsigned char) c;`
abbrev pub shift_in : ℕ → ℕ → ℕ
shift_in x c = (x * 256 % 2 ^ 64 + c) % 2 ^ 64

-- From the first eight bytes at `s`; a shorter object is a fault.
unfoldable pub tai_unpack : List ℕ → Option Tai
tai_unpack (a ∷ b ∷ c ∷ d ∷ e ∷ f ∷ g ∷ h ∷ rest) = some (record {
  x = shift_in (shift_in (shift_in (shift_in (shift_in (shift_in (shift_in a b) c) d) e) f) g) h;
})
tai_unpack _ = none

-- A 64-bit second is read back from its packed bytes.
pub tai_unpack-tai_pack :
    (t : Tai) (rest : List ℕ) → t.x < 2 ^ 64 → tai_unpack (tai_pack t ++ rest) ≡ some t
unfolding tai_pack tai_unpack
tai_unpack-tai_pack t rest h = ground arith
