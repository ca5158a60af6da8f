-- ===== src/Time/Tests.antt =====
-- libtime: the theorems at concrete inputs.
use runit.Base.{arith}
use runit.Time.Taia.{Taia, IsNormal}

abbrev stamp : Taia
stamp = record { sec = 4611686018427387914; nano = 999999999; atto = 5 }

abbrev second : Taia
second = record { sec = 1; nano = 500; atto = 999999999 }

stamp-IsNormal : IsNormal stamp
stamp-IsNormal = record { sec_fits = omega arith; nano_fits = omega arith; atto_fits = omega arith }

second-IsNormal : IsNormal second
second-IsNormal = record {
  sec_fits = omega arith;
  nano_fits = omega arith;
  atto_fits = omega arith;
}
