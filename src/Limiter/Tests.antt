-- ===== src/Limiter/Tests.antt =====
-- Runs of the limiter, and its theorems at them.
use ocgeo_fdw.Prelude.{[], ◌∷◌, ℕ, ◌+◌, ◌-◌, ◌*◌, ◌/◌, ◌≤◌, ◌<◌, ◌≡◌, refl, Bool, true, none, arith}
use ocgeo_fdw.Prelude.Int.{pos, negsuc, int32}
use ocgeo_fdw.Prelude.Exec.{ok, crash, division_by_zero}
use ocgeo_fdw.Api.Types.{RateInfo, Response, zero_response, no_rate_info}
use ocgeo_fdw.Samples.{whole, tree}
use ocgeo_fdw.Samples.Clocks.{exact, exact-IsClock}
use ocgeo_fdw.Limiter.{
  Forward, timeval_diff, Readings, Counters, max_reqs_per_sec, period_of, record_call, wait,
  submit_answered, submit_request_with_rate_limiter,
}
use ocgeo_fdw.Limiter.Clock.{timeval_diff_close}
use ocgeo_fdw.Limiter.Budget.{IsLimit, IsBucket, IsTimely}
use ocgeo_fdw.Limiter.Bucket.{least}
use ocgeo_fdw.Limiter.AtOnce.{submit-at_once, submit_below_zero}
use ocgeo_fdw.Limiter.Outcome.{submit_above_1000}

abbrev readings : Readings
readings = record {
  first = record { sec = 1000; usec = 200_000 };
  wake = exact;
  more_rounds = 2;
  finish = λ t. record { sec = t.sec + 2; usec = t.usec };
}

abbrev info : RateInfo
info = record { limit = pos 2500; remaining = pos 2499; reset = pos 0 }

abbrev answer : Response tree
answer = record (zero_response tree) {
  status = record { code = pos 200; message = none };
  rate_info = info;
}

abbrev reply : Bool × Response tree
reply = (true, answer)

-- A service that is sent a query and answers it.
abbrev once : Forward tree
once sent = ok (reply, "Berlin" ∷ sent)

abbrev fresh : Counters whole
fresh = record {
  calls = pos 0;
  success_calls = pos 0;
  total_time = pos 0;
  rate_info = no_rate_info;
  ts = record { sec = 999; usec = 900_500 };
  tokens = pos 0;
}

-- 300 milliseconds after the last call, with no token: the call sleeps until the second is over.
abbrev served : Counters whole
served = record {
  calls = pos 1;
  success_calls = pos 1;
  total_time = pos 2000;
  rate_info = info;
  ts = record { sec = 1000; usec = 900_000 };
  tokens = pos 0;
}

submit_sleeps :
    submit_answered {F = whole} {J = tree} readings reply (pos 1) fresh ≡ ok (true, served, answer)
unfolding submit_request_with_rate_limiter wait timeval_diff max_reqs_per_sec period_of int32
submit_sleeps = refl

timeval_diff_close_example :
    (ms : ℕ) × (timeval_diff
        (record { sec = 1000; usec = 900_000 })
        (record { sec = 999; usec = 900_500 })
      ≡ pos ms)
    × (999_900_500 + ms * 1000 < 1_000_900_000 + 1000)
    × (1_000_900_000 < 999_900_500 + ms * 1000 + 1000)
timeval_diff_close_example =
    timeval_diff_close (record { sec = 1000; usec = 900_000 })
      (record { sec = 999; usec = 900_500 }) (omega arith) (omega arith) (omega arith)

submit_above_1000_example :
    submit_request_with_rate_limiter readings once (pos 5000) fresh [] ≡ crash division_by_zero
submit_above_1000_example = submit_above_1000 readings once 5000 fresh [] (omega arith)

-- Counters with two tokens left, under a limit of 4 requests a second.
abbrev supplied : Counters whole
supplied = record fresh { tokens = pos 2 }

two_within : 2 ≤ max_reqs_per_sec (pos 4)
unfolding max_reqs_per_sec
two_within = omega arith

abbrev supplied_bucket : IsBucket (pos 4) supplied
supplied_bucket = record { left = 2; tokens = refl; within = two_within; canonical = omega arith }

supplied-IsTimely : IsTimely readings supplied
supplied-IsTimely = record {
  clock_runs = exact-IsClock;
  rounds = omega arith;
  first_canonical = omega arith;
  first_follows = omega arith;
}

four-IsLimit : IsLimit (pos 4)
unfolding max_reqs_per_sec
four-IsLimit = omega arith

submit-at_once_example :
    (ms left : ℕ) × (timeval_diff readings.first supplied.ts ≡ pos ms)
    × (left + 1 ≡ least (max_reqs_per_sec (pos 4)) (supplied_bucket.left + ms / period_of (pos 4)))
    × (submit_answered readings reply (pos 4) supplied
        ≡ ok (
            record_call
              (timeval_diff (readings.finish readings.first) readings.first)
              true
              answer
              (record supplied { ts = readings.first; tokens = pos left })))
submit-at_once_example =
    submit-at_once (pos 4) supplied readings reply four-IsLimit supplied_bucket supplied-IsTimely
      (omega arith)

-- What a limit of -401 gives a new user.
abbrev indebted : Counters whole
indebted = record fresh { tokens = negsuc 400 }

indebted_elapsed : timeval_diff readings.first indebted.ts ≡ pos 300
unfolding timeval_diff
indebted_elapsed = refl

negative-IsLimit : IsLimit (negsuc 400)
unfolding max_reqs_per_sec
negative-IsLimit = omega arith

few_periods : 300 / period_of (negsuc 400) ≤ 400
unfolding period_of max_reqs_per_sec
few_periods = omega arith

submit_below_zero_example :
    submit_answered readings reply (negsuc 400) indebted
    ≡ ok (
        record_call
          (timeval_diff (readings.finish readings.first) readings.first)
          true
          answer
          (record indebted {
            ts = readings.first;
            tokens = negsuc (400 - 300 / period_of (negsuc 400) + 1);
          }))
submit_below_zero_example =
    submit_below_zero (negsuc 400) indebted readings reply 400 300 negative-IsLimit refl
      (omega arith) indebted_elapsed few_periods
