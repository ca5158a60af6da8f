-- ===== src/Runsvdir/Hangup.antt =====
-- runsvdir/runsvdir.c: the end by SIGTERM or SIGHUP, and the bytes of the log.
use runit.Base.{
  ℕ, ◌≡◌, ◌≤◌, ◌⊎◌, inl, inr, Bool, true, false, List, [], ◌∷◌, ◌++◌, none, some, if◌then◌else◌,
  ◌==◌, ◌||◌, length, take, drop, arith, refl, ◌∙◌, ap, All, Bool-cases, length-append,
  append_assoc, append-nil,
}
use runit.Runsvdir.Defs.{Entry, Effect, terminate, Dir, emit}
use runit.Runsvdir.Loop.{Main, terminate_all, check_exit, shift, read_log}

-- Whether SIGTERM was sent to a process.
abbrev pub sent_term : ℕ → List Effect → Bool
sent_term p [] = false
sent_term p (terminate q ∷ es) = (p == q) || sent_term p es
sent_term p (_ ∷ es) = sent_term p es

-- The entry has no process, or that was sent SIGTERM.
abbrev pub Told : List Effect → Entry → Type 0
Told trace e = (e.pid ≡ 0) ⊎ (sent_term e.pid trace ≡ true)

sent_still :
    (p q : ℕ) (es : List Effect) → sent_term p es ≡ true → sent_term p (terminate q ∷ es) ≡ true
sent_still p q es h = ground (arith, h)

if_sent :
    (b : Bool) (p : ℕ) (g k : Dir)
    → sent_term p g.trace ≡ true
    → sent_term p k.trace ≡ true
    → sent_term p (if b then g else k).trace ≡ true
if_sent true p g k x y = x
if_sent false p g k x y = y

keeps :
    (p : ℕ) (es : List Entry) (g : Dir)
    → sent_term p g.trace ≡ true
    → sent_term p (terminate_all es g).trace ≡ true
unfolding terminate_all
keeps p [] g h = h
keeps p (e ∷ es) g h =
    keeps p es _
      (if_sent (e.pid == 0) p g (emit (terminate e.pid) g) h (sent_still p e.pid g.trace h))

told : (es : List Entry) (g : Dir) → All (Told (terminate_all es g).trace) es
unfolding terminate_all
told [] g = tt
told (e ∷ es) g = (
  elim (Bool-cases (e.pid == 0)) [
    | inl y ↦ inl (ground (arith, y))
    | inr n ↦
        let self : sent_term e.pid (terminate e.pid ∷ g.trace) ≡ true = ground arith in
        inr (keeps e.pid es _ (rw n self))
  ],
  told es _,
)

-- `exitsoon` decides on the end of a round: with 2, which SIGHUP sets, the program ends with 111 and
-- SIGTERM was sent to the process of every entry that has one; with 1, which SIGTERM sets, it ends
-- with 0 and sends nothing; and otherwise it goes on.
pub check_exit_lem :
    (m : Main)
    → ((check_exit 2 m).0 ≡ some 111)
      × All (Told (check_exit 2 m).1.dir.trace) m.dir.sv
      × (check_exit 1 m ≡ (some 0, m))
      × (check_exit 0 m ≡ (none, m))
unfolding check_exit
check_exit_lem m = (refl, told m.dir.sv m.dir, refl, refl)

abbrev pub letters : List ℕ → List ℕ
letters [] = []
letters (c ∷ cs) = let rest = letters cs in if c == 0 then rest else c ∷ rest

tail_lem :
    (chs : List ℕ) (a b c d e : ℕ) (t : List ℕ)
    → 1 ≤ length t
    → read_log chs (a ∷ b ∷ c ∷ d ∷ e ∷ t)
      ≡ a ∷ b ∷ c ∷ d ∷ e ∷ drop (length (letters chs)) (t ++ letters chs)
unfolding read_log shift
tail_lem [] a b c d e t h = rw append-nil refl
tail_lem (ch ∷ chs) a b c d e [] h = absurd (omega (arith, h))
tail_lem (ch ∷ chs) a b c d e (x ∷ xs) h = elim (Bool-cases (ch == 0)) [
  | inl y ↦ rw y (tail_lem chs a b c d e (x ∷ xs) h)
  | inr n ↦
      let k =
        tail_lem chs a b c d e (xs ++ (ch ∷ [])) (omega (arith, length-append xs (ch ∷ []))) in
      rw n (
        k
        ∙ ap (λ l. a ∷ b ∷ c ∷ d ∷ e ∷ drop (length (letters chs)) l)
            (append_assoc xs (ch ∷ []) (letters chs)))
]

-- A log of at least seven bytes keeps its first five, and behind them stand the last of its
-- bytes and of those that came through the pipe, less the zeros, in their order.
pub read_log_lem :
    (chs log : List ℕ)
    → 7 ≤ length log
    → read_log chs log ≡ take 5 log ++ drop (length (letters chs)) (drop 5 log ++ letters chs)
read_log_lem chs [] h = absurd (omega (arith, h))
read_log_lem chs (a ∷ []) h = absurd (omega (arith, h))
read_log_lem chs (a ∷ b ∷ []) h = absurd (omega (arith, h))
read_log_lem chs (a ∷ b ∷ c ∷ []) h = absurd (omega (arith, h))
read_log_lem chs (a ∷ b ∷ c ∷ d ∷ []) h = absurd (omega (arith, h))
read_log_lem chs (a ∷ b ∷ c ∷ d ∷ e ∷ t) h = tail_lem chs a b c d e t (omega (arith, h))
