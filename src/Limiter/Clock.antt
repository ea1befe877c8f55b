-- ===== src/Limiter/Clock.antt =====
-- How far TIMEVALDIFF is from the elapsed time.
use ocgeo_fdw.Prelude.{ℕ, ◌+◌, ◌*◌, ◌^◌, ◌≤◌, ◌<◌, ◌≡◌, arith}
use ocgeo_fdw.Prelude.Int.{ℤ, pos, ◌+ℤ◌, ◌-ℤ◌, ◌*ℤ◌, tdiv, int64_of_IsInt64, pos_part}
use ocgeo_fdw.Limiter.{Timeval, timeval_diff}

-- The time in microseconds.
abbrev pub micros : Timeval → ℕ
micros t = t.sec * 1_000_000 + t.usec

-- What gettimeofday fills in.
abbrev pub IsCanonical : Timeval → Type 0
IsCanonical t = t.usec < 1_000_000

-- Later, by at most 2 ^ 40 microseconds (12 days).
abbrev pub Follows : Timeval → Timeval → Type 0
Follows start ts = (micros ts ≤ micros start) × (micros start ≤ micros ts + 2 ^ 40)

-- The value of the macro before it is cut to a `long`.
abbrev raw_diff : Timeval → Timeval → ℤ
raw_diff end start =
    (pos end.sec -ℤ pos start.sec) *ℤ 1000 +ℤ tdiv (pos end.usec -ℤ pos start.usec) 1000

raw_diff_close :
    (start ts : Timeval)
    → IsCanonical start
    → IsCanonical ts
    → Follows start ts
    → (ms : ℕ) × (raw_diff start ts ≡ pos ms)
      × (micros ts + ms * 1000 < micros start + 1000)
      × (micros start < micros ts + ms * 1000 + 1000)
unfolding ◌+ℤ◌ ◌-ℤ◌ ◌*ℤ◌ tdiv
raw_diff_close start ts hs ht h =
    (pos_part (raw_diff start ts), ground arith, ground arith, ground arith)

-- For canonical times in order, at most 2 ^ 40 microseconds (12 days) apart, TIMEVALDIFF is a
-- number of milliseconds, and it is off by less than one.
pub timeval_diff_close :
    (start ts : Timeval)
    → IsCanonical start
    → IsCanonical ts
    → Follows start ts
    → (ms : ℕ) × (timeval_diff start ts ≡ pos ms)
      × (micros ts + ms * 1000 < micros start + 1000)
      × (micros start < micros ts + ms * 1000 + 1000)
unfolding timeval_diff
timeval_diff_close start ts hs ht h =
    let (ms, e, lo, hi) = raw_diff_close start ts hs ht h in
    (ms, rw e (int64_of_IsInt64 (pos ms) (omega arith)), lo, hi)
