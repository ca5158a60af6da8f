-- ===== src/Svlogd/Input.antt =====
-- utils/svlogd.c: what `buffer_pread` and SIGTERM make of standard input.
use runit.Base.{ℕ, Bool, true, false, List, [], ◌∷◌, ◌++◌, if◌then◌else◌, ◌==◌, ◌&&◌, ◌||◌}

-- What `read` returns: EAGAIN or EINTR, the end or another error, or bytes, at most as many as the
-- buffer has.
pub data Got : Type 0 where
  again ended : Got
  bytes : ℕ → List ℕ → Got

-- One wait for input: whether SIGTERM comes then, and what `read` returns behind.
pub record Wake : Type 0 where
  pub term : Bool
  pub got : Got

-- A byte that `buffer_GETC` gives, and `exitasap && ! data.p` behind it.
pub record Item : Type 0 where
  pub value : ℕ
  pub drained : Bool

-- The bytes of one `read`, of which only the last one leaves the buffer empty.
unfoldable pub chunk : Bool → ℕ → List ℕ → List Item
chunk exitasap c [] = record { value = c; drained = exitasap } ∷ []
chunk exitasap c (d ∷ rest) = record { value = c; drained = false } ∷ chunk exitasap d rest

-- `linecomplete` behind them.
unfoldable pub complete : ℕ → List ℕ → Bool
complete c [] = c == b'\n'
complete c (d ∷ rest) = complete d rest

-- With `exitasap`, bytes are read one by one, up to the end of the line.
unfoldable pub one_by_one : ℕ → List ℕ → List Item → List Item
one_by_one c [] next = record { value = c; drained = true } ∷ (if c == b'\n' then [] else next)
one_by_one c (d ∷ rest) next =
    let behind = one_by_one d rest next in
    record { value = c; drained = true } ∷ (if c == b'\n' then [] else behind)

-- One wait, from the values of `exitasap` and `linecomplete`, with what follows it for the new values.
unfoldable pub input_wake : Got → Bool → (Bool → Bool → List Item) → Bool → Bool → List Item
unfolding chunk complete one_by_one
input_wake again term next exitasap linecomplete =
    if exitasap && linecomplete then [] else next (exitasap || term) linecomplete
input_wake ended term next exitasap linecomplete = []
input_wake (bytes c l) term next true linecomplete =
    if linecomplete then [] else one_by_one c l (next true false)
input_wake (bytes c l) term next false linecomplete = chunk term c l ++ next term (complete c l)

-- What `buffer_GETC` gives, call by call, until it returns 0 or -1. Behind the last wait the input is
-- at its end.
unfoldable pub input : List Wake → Bool → Bool → List Item
unfolding input_wake
input [] exitasap linecomplete = []
input (w ∷ rest) exitasap linecomplete = input_wake w.got w.term (input rest) exitasap linecomplete
