-- ===== src/Unix/Tests.antt =====
-- libunix: the theorems at concrete inputs.
use runit.Base.{◌≡◌, [], ◌∷◌, arith, refl}
use runit.Unix.Output.{interrupted, failed, took, Buffer, error, buffer_put}
use runit.Unix.Stream.{Delivers}
use runit.Unix.Deliver.{buffer_put-Delivers}
use runit.Unix.Input.{Reader, buffer_get, buffer_bget}
use runit.Unix.Draws.{Draws, buffer_get-Draws}

-- A buffer of four bytes that holds three, and answers that take them in two parts.
abbrev filled : Buffer
filled = record {
  held = 1 ∷ 2 ∷ 3 ∷ [];
  size = 4;
  out = 0 ∷ [];
  answers = took 2 ∷ interrupted ∷ took 1 ∷ took 6 ∷ took 1 ∷ took 1 ∷ [];
}

buffer_put-Delivers_example :
    Delivers
      (0 ∷ 1 ∷ 2 ∷ 3 ∷ 4 ∷ 5 ∷ [])
      4
      (buffer_put (4 ∷ 5 ∷ []) filled).0
      (buffer_put (4 ∷ 5 ∷ []) filled).1
buffer_put-Delivers_example = buffer_put-Delivers (4 ∷ 5 ∷ []) filled (omega arith)

-- An error of `op` in the middle of a flush: what was held and not taken is lost.
failing_put :
    buffer_put (4 ∷ 5 ∷ []) (record filled { answers = took 2 ∷ failed ∷ [] })
    ≡ (error, record filled { held = []; out = 0 ∷ 1 ∷ 2 ∷ []; answers = [] })
unfolding buffer_put
failing_put = refl

-- An empty buffer of three bytes.
abbrev reader : Reader
reader = record {
  held = [];
  n = 3;
  source = 1 ∷ 2 ∷ 3 ∷ 4 ∷ [];
  answers = interrupted ∷ took 2 ∷ [];
}

buffer_get-Draws_example :
    Draws (1 ∷ 2 ∷ 3 ∷ 4 ∷ []) 1 3 (buffer_get 1 reader).0 (buffer_get 1 reader).1
    × Draws (1 ∷ 2 ∷ 3 ∷ 4 ∷ []) 1 3 (buffer_bget 1 reader).0 (buffer_bget 1 reader).1
buffer_get-Draws_example = buffer_get-Draws 1 reader
