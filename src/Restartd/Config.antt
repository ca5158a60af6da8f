-- ===== src/Restartd/Config.antt =====
-- svc.restartd/config.c: `parseconfig`, the handler of a setting; util.c: `stricmp`.
use runit.Base.{
  ℕ, ◌-◌, ◌≡◌, ◌≢◌, ◌↔◌, Bool, false, List, [], ◌∷◌, some, if◌then◌else◌, ◌==◌, ◌&&◌, leb, arith,
  refl, All, map, ℤ, pos, sub_ℕ, sub_ℕ_zero, same,
}
use runit.Restartd.Defs.{Kind, simple, forking, oneshot, Service}

-- The strings of the file, as their bytes without the NUL.
abbrev pub Text : Type 0
Text = List ℕ

-- `toupper` in the locale that the program begins with.
abbrev pub upper : ℕ → ℕ
upper c = if leb b'a' c && leb c b'z' then c - 32 else c

-- The end of a text counts as 0.
unfoldable pub stricmp : Text → Text → ℤ
stricmp [] [] = sub_ℕ 0 0
stricmp [] (b ∷ t) = sub_ℕ 0 (upper b)
stricmp (a ∷ s) [] = sub_ℕ (upper a) 0
stricmp (a ∷ s) (b ∷ t) =
    let rest = stricmp s t in if upper a == upper b then rest else sub_ℕ (upper a) (upper b)

upper_zero : (c : ℕ) → c ≢ 0 → upper c ≢ 0
upper_zero c h = ground (arith, h)

-- On texts, which hold no NUL, `stricmp` gives 0 exactly when they are the same up to the case of
-- their letters.
pub stricmp_zero_iff :
    (s t : Text)
    → All (λ c. c ≢ 0) s
    → All (λ c. c ≢ 0) t
    → (stricmp s t ≡ pos 0) ↔ (map upper s ≡ map upper t)
unfolding stricmp
stricmp_zero_iff [] [] hs ht = (λ e. refl, λ e. refl)
stricmp_zero_iff [] (b ∷ t) hs ht =
    let n = upper_zero b ht.0 in (λ e. absurd (ground (arith, n, sub_ℕ_zero 0 (upper b))), λ e. cc)
stricmp_zero_iff (a ∷ s) [] hs ht =
    let n = upper_zero a hs.0 in (λ e. absurd (ground (arith, n, sub_ℕ_zero (upper a) 0)), λ e. cc)
stricmp_zero_iff (a ∷ s) (b ∷ t) hs ht =
    let r = stricmp_zero_iff s t hs.1 ht.1 in
    let z = sub_ℕ_zero (upper a) (upper b) in (λ e. ground (arith, r, z), λ e. ground (arith, r, z))

-- The settings of the section `Service`.
pub data Key : Type 0 where
  type pid_file exec_start_pre exec_start exec_start_post exec_stop_post : Key

abbrev exec : Text → Text
exec s = b'E' ∷ b'x' ∷ b'e' ∷ b'c' ∷ b'S' ∷ b't' ∷ s

abbrev art : Text → Text
art s = b'a' ∷ b'r' ∷ b't' ∷ s

abbrev p_re : Text
p_re = b'P' ∷ b'r' ∷ b'e' ∷ []

abbrev p_ost : Text
p_ost = b'P' ∷ b'o' ∷ b's' ∷ b't' ∷ []

abbrev pub service_section : Text
service_section = b'S' ∷ b'e' ∷ b'r' ∷ b'v' ∷ b'i' ∷ b'c' ∷ b'e' ∷ []

-- The names that `MATCH` compares with.
unfoldable pub key_name : Key → Text
key_name Key.type = b'T' ∷ b'y' ∷ b'p' ∷ b'e' ∷ []
key_name Key.pid_file = b'P' ∷ b'I' ∷ b'D' ∷ b'F' ∷ b'i' ∷ b'l' ∷ b'e' ∷ []
key_name Key.exec_start_pre = exec (art p_re)
key_name Key.exec_start = exec (art [])
key_name Key.exec_start_post = exec (art p_ost)
key_name Key.exec_stop_post = exec (b'o' ∷ b'p' ∷ p_ost)

-- `MATCH("Service", n)`
abbrev pub matches : Text → Text → Key → Bool
matches section name k = same section service_section && same name (key_name k)

abbrev is_zero : ℤ → Bool
is_zero (pos n) = n == 0
is_zero _ = false

-- The types' names, as `stricmp` is given them.
abbrev simple_name : Text
simple_name = b'S' ∷ b'i' ∷ b'm' ∷ b'p' ∷ b'l' ∷ b'e' ∷ []

abbrev forking_name : Text
forking_name = b'F' ∷ b'o' ∷ b'r' ∷ b'k' ∷ b'i' ∷ b'n' ∷ b'g' ∷ []

abbrev oneshot_name : Text
oneshot_name = b'O' ∷ b'n' ∷ b'e' ∷ b's' ∷ b'h' ∷ b'o' ∷ b't' ∷ []

-- `svc->Type`; another value leaves it.
unfoldable pub type_of : Text → Kind → Kind
type_of value k =
    if is_zero (stricmp simple_name value)
    then simple
    else if is_zero (stricmp forking_name value)
    then forking
    else if is_zero (stricmp oneshot_name value)
    then oneshot
    else k

-- What the handler returns, and the record; `strdup` is taken to succeed.
unfoldable pub parseconfig : Text → Text → Text → Service → ℕ × Service
parseconfig section name value s =
    if matches section name Key.type
    then (1, record s { kind = type_of value s.kind })
    else if matches section name Key.pid_file
    then (1, record s { pid_file = some value })
    else if matches section name Key.exec_start_pre
    then (1, record s { exec_start_pre = some value })
    else if matches section name Key.exec_start
    then (1, record s { exec_start = some value })
    else if matches section name Key.exec_start_post
    then (1, record s { exec_start_post = some value })
    else if matches section name Key.exec_stop_post
    then (1, record s { exec_stop_post = some value })
    else (0, s)
