-- ===== src/Byte/Search.antt =====
-- libbyte/byte_chr.c, byte_rchr.c, str_chr.c, str_len.c: the unrolled search loops.
use runit.Base.{
  ℕ, zero, suc, ◌+◌, ◌-◌, ◌%◌, ◌≤◌, ◌<◌, ◌≡◌, ◌⊎◌, List, [], ◌∷◌, Option, none, some, ◌==◌,
  if◌then◌else◌, length, take, arith, unroll, unroll_inv, deref, Option-cases, ap, ◌∙◌,
}

-- What is left of a search: from the pointer `t`, with `n` and `t - s`.
abbrev Scan : Type 0
Scan = List ℕ → ℕ → ℕ → Option ℕ

byte_chr_body : ℕ → Scan → Scan
byte_chr_body ch k t n i =
    if n == 0
    then some i
    else deref t (λ c rest. if c == ch then some i else k rest (n - 1) (i + 1))

unfoldable pub byte_chr : List ℕ → ℕ → ℕ → Option ℕ
unfolding unroll byte_chr_body
byte_chr s n c = unroll (byte_chr_body (c % 256)) (n + 1) (λ t n i. none) s n 0

-- The index of the first `ch`, or the length.
abbrev pub index_of : ℕ → List ℕ → ℕ
index_of ch [] = 0
index_of ch (x ∷ xs) = let later = index_of ch xs in if x == ch then 0 else suc later

abbrev Finds : ℕ → ℕ → Scan → Type 0
Finds ch m k =
    (t : List ℕ) (n i : ℕ) → n ≤ length t → n < m → k t n i ≡ some (i + index_of ch (take n t))

byte_chr_body-Finds : (ch m : ℕ) (k : Scan) → Finds ch m k → Finds ch (suc m) (byte_chr_body ch k)
unfolding byte_chr_body
byte_chr_body-Finds ch m k h [] n i hn hm = ground arith
byte_chr_body-Finds ch m k h (x ∷ xs) zero i hn hm = ground arith
byte_chr_body-Finds ch m k h (x ∷ xs) (suc n) i hn hm = ground (arith, h xs n (i + 1))

-- On an object that holds at least `n` bytes, `byte_chr` returns the index of the first of these
-- `n` bytes that equals `c` as a `char`, or `n` if none does.
pub byte_chr_finds :
    (s : List ℕ) (n c : ℕ) → n ≤ length s → byte_chr s n c ≡ some (index_of (c % 256) (take n s))
unfolding byte_chr
byte_chr_finds s n c h =
    unroll_inv (Finds (c % 256)) (byte_chr_body (c % 256)) (λ t n i. none)
      (λ t n i hn hm. absurd (omega arith)) (byte_chr_body-Finds (c % 256)) (n + 1) s n 0 h
      (omega arith)
    ∙ ap some (omega arith)

-- The same with `u - s`, if `u` is set.
abbrev RScan : Type 0
RScan = List ℕ → ℕ → ℕ → Option ℕ → Option ℕ

-- What `if (!u) u = t; return u - s` returns.
abbrev or_end : Option ℕ → ℕ → ℕ
or_end none i = i
or_end (some u) i = u

byte_rchr_body : ℕ → RScan → RScan
byte_rchr_body ch k t n i u =
    if n == 0
    then some (or_end u i)
    else deref t (λ c rest. k rest (n - 1) (i + 1) (if c == ch then some i else u))

unfoldable pub byte_rchr : List ℕ → ℕ → ℕ → Option ℕ
unfolding unroll byte_rchr_body
byte_rchr s n c = unroll (byte_rchr_body (c % 256)) (n + 1) (λ t n i u. none) s n 0 none

-- The index of the last `ch`, if there is one.
abbrev pub last_index_of : ℕ → List ℕ → Option ℕ
last_index_of ch [] = none
last_index_of ch (x ∷ xs) =
    let later = last_index_of ch xs in
    elim later [ some j ↦ some (suc j) | none ↦ if x == ch then some 0 else none ]

-- The last index counted from `i`, else what was found before it, else the end.
abbrev rfound : Option ℕ → Option ℕ → ℕ → ℕ → ℕ
rfound (some j) u i n = i + j
rfound none u i n = or_end u (i + n)

abbrev RFinds : ℕ → ℕ → RScan → Type 0
RFinds ch m k =
    (t : List ℕ) (n i : ℕ) (u : Option ℕ)
    → n ≤ length t
    → n < m
    → k t n i u ≡ some (rfound (last_index_of ch (take n t)) u i n)

byte_rchr_body-RFinds :
    (ch m : ℕ) (k : RScan) → RFinds ch m k → RFinds ch (suc m) (byte_rchr_body ch k)
unfolding byte_rchr_body
byte_rchr_body-RFinds ch m k h [] n i u hn hm = ground arith
byte_rchr_body-RFinds ch m k h (x ∷ xs) zero i u hn hm = ground arith
byte_rchr_body-RFinds ch m k h (x ∷ xs) (suc n) i u hn hm = ground (
  arith,
  h xs n (i + 1) (if x == ch then some i else u),
  Option-cases (last_index_of ch (take n xs)),
)

-- On an object that holds at least `n` bytes, `byte_rchr` returns the index of the last of these
-- `n` bytes that equals `c` as a `char`, or `n` if none does.
pub byte_rchr_finds :
    (s : List ℕ) (n c : ℕ)
    → n ≤ length s
    → byte_rchr s n c ≡ some (rfound (last_index_of (c % 256) (take n s)) none 0 n)
unfolding byte_rchr
byte_rchr_finds s n c h =
    unroll_inv (RFinds (c % 256)) (byte_rchr_body (c % 256)) (λ t n i u. none)
      (λ t n i u hn hm. absurd (omega arith)) (byte_rchr_body-RFinds (c % 256)) (n + 1) s n 0 none h
      (omega arith)

-- The object holds a string: a NUL stands in it.
abbrev pub IsString : List ℕ → Type 0
IsString [] = ⊥
IsString (c ∷ rest) = (c ≡ 0) ⊎ IsString rest

-- The bytes before the NUL.
abbrev pub text : List ℕ → List ℕ
text [] = []
text (c ∷ rest) = let more = text rest in if c == 0 then [] else c ∷ more

abbrev StrScan : Type 0
StrScan = List ℕ → ℕ → Option ℕ

str_chr_body : ℕ → StrScan → StrScan
str_chr_body ch k t i =
    deref t (λ c rest. if c == 0 then some i else if c == ch then some i else k rest (i + 1))

unfoldable pub str_chr : List ℕ → ℕ → Option ℕ
unfolding unroll str_chr_body
str_chr s c = unroll (str_chr_body (c % 256)) (length s + 1) (λ t i. none) s 0

str_len_body : StrScan → StrScan
str_len_body k t i = deref t (λ c rest. if c == 0 then some i else k rest (i + 1))

unfoldable pub str_len : List ℕ → Option ℕ
unfolding unroll str_len_body
str_len s = unroll str_len_body (length s + 1) (λ t i. none) s 0

-- A string search gives `i` more than `f` of the text.
abbrev StrFinds : (List ℕ → ℕ) → ℕ → StrScan → Type 0
StrFinds f m k = (t : List ℕ) (i : ℕ) → IsString t → length t < m → k t i ≡ some (i + f (text t))

str_chr_body-StrFinds :
    (ch m : ℕ) (k : StrScan)
    → StrFinds (index_of ch) m k
    → StrFinds (index_of ch) (suc m) (str_chr_body ch k)
unfolding str_chr_body
str_chr_body-StrFinds ch m k h [] i hs hm = elim hs [ ]
str_chr_body-StrFinds ch m k h (x ∷ xs) i hs hm = ground (arith, h xs (i + 1))

str_len_body-StrFinds :
    (m : ℕ) (k : StrScan) → StrFinds length m k → StrFinds length (suc m) (str_len_body k)
unfolding str_len_body
str_len_body-StrFinds m k h [] i hs hm = elim hs [ ]
str_len_body-StrFinds m k h (x ∷ xs) i hs hm = ground (arith, h xs (i + 1))

-- On a string, `str_chr` returns the index of the first byte that equals `c` as a `char`, or the
-- string's length if none does.
pub str_chr_finds :
    (s : List ℕ) (c : ℕ) → IsString s → str_chr s c ≡ some (index_of (c % 256) (text s))
unfolding str_chr
str_chr_finds s c h =
    unroll_inv (StrFinds (index_of (c % 256))) (str_chr_body (c % 256)) (λ t i. none)
      (λ t i hs hm. absurd (omega arith)) (str_chr_body-StrFinds (c % 256)) (length s + 1) s 0 h
      (omega arith)
    ∙ ap some (omega arith)

-- On a string, `str_len` returns the number of bytes before the NUL.
pub str_len-eq-length : (s : List ℕ) → IsString s → str_len s ≡ some (length (text s))
unfolding str_len
str_len-eq-length s h =
    unroll_inv (StrFinds length) str_len_body (λ t i. none) (λ t i hs hm. absurd (omega arith))
      str_len_body-StrFinds (length s + 1) s 0 h (omega arith)
    ∙ ap some (omega arith)
