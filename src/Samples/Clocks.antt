-- ===== src/Samples/Clocks.antt =====
-- A clock for the tests.
use ocgeo_fdw.Prelude.{◌+◌, ◌*◌, ◌/◌, ◌%◌, arith}
use ocgeo_fdw.Prelude.Int.{ℤ, pos_part}
use ocgeo_fdw.Limiter.{Timeval}
use ocgeo_fdw.Limiter.Rounds.{IsClock}

-- A clock on which a sleep lasts exactly as long as was asked for.
abbrev pub exact : Timeval → ℤ → Timeval
exact t d =
    let later = t.sec * 1_000_000 + t.usec + pos_part d in
    record { sec = later / 1_000_000; usec = later % 1_000_000 }

pub exact-IsClock : IsClock exact
exact-IsClock = record {
  canonical = λ t d. omega arith;
  sleeps = λ t d. omega arith;
  wakes = λ t d. omega arith;
}
