-- ===== src/Limiter.antt =====
-- The rate limiter of ocgeo_fdw.c: the time arithmetic, the wait for a permit, and
-- `submitRequestWithRateLimiter`, which keeps the per-user counters. The readings of the clock and
-- the call of the service are arguments.
pub mod Clock
pub mod Rounds
pub mod Budget
pub mod Rate
pub mod Bucket
pub mod AtOnce
pub mod Outcome
mod Tests
use ocgeo_fdw.Prelude.{
  ℕ, zero, suc, ◌/◌, ◌==◌, Bool, true, false, ◌&&◌, if◌then◌else◌, List, [], String,
}
use ocgeo_fdw.Prelude.Int.{ℤ, pos, negsuc, ◌+ℤ◌, ◌-ℤ◌, ◌*ℤ◌, tdiv, int32, int64, eqb_ℤ, ltb_ℤ}
use ocgeo_fdw.Prelude.Exec.{Exec, ok, crash, unfinished, division_by_zero, ◌>>=◌}
use ocgeo_fdw.Foreign.{Floating, Cjson}
use ocgeo_fdw.Api.Types.{RateInfo, Response, response_ok}

pub record Timeval : Type 0 where
  pub sec : ℕ
  pub usec : ℕ

-- TIMEVALDIFF: milliseconds, as a `long`.
unfoldable pub timeval_diff : Timeval → Timeval → ℤ
unfolding ◌+ℤ◌ ◌-ℤ◌ ◌*ℤ◌ tdiv int64
timeval_diff end start =
    int64 ((pos end.sec -ℤ pos start.sec) *ℤ 1000 +ℤ tdiv (pos end.usec -ℤ pos start.usec) 1000)

-- The macro MIN.
abbrev pub min_ℤ : ℤ → ℤ → ℤ
min_ℤ a b = if ltb_ℤ a b then a else b

-- The option's value where it is positive.
unfoldable pub max_reqs_per_sec : ℤ → ℕ
max_reqs_per_sec (pos zero) = 1000
max_reqs_per_sec (pos (suc n)) = suc n
max_reqs_per_sec (negsuc n) = 1000

unfoldable pub period_of : ℤ → ℕ
unfolding max_reqs_per_sec
period_of max_reqs_per_second = 1000 / max_reqs_per_sec max_reqs_per_second

-- The readings of the clock in one call: the first, the one that follows a sleep of so many
-- microseconds begun at a given time, and the one after the service has answered; and how many
-- rounds the loop may make after its first one.
pub record Readings : Type 0 where
  pub first : Timeval
  pub wake : Timeval → ℤ → Timeval
  pub finish : Timeval → Timeval
  pub more_rounds : ℕ

pub data Wait : Type 0 where
  proceed : (start_time : Timeval) → (permits : ℤ) → Wait
  no_period : Wait
  out_of_fuel : Wait

abbrev pub permits_at : ℕ → ℤ → Timeval → Timeval → ℤ
permits_at period tokens ts start = int32 (tokens +ℤ tdiv (timeval_diff start ts) period)

-- pg_usleep's argument.
abbrev pub sleep_at : ℕ → Timeval → Timeval → ℤ
sleep_at period ts start = (pos period -ℤ timeval_diff start ts) *ℤ 1000

-- The loop `while(true)`. A round divides by the period, and sleeps if there is no permit.
unfoldable pub wait : ℕ → (Timeval → ℤ → Timeval) → ℕ → ℤ → Timeval → Timeval → Wait
wait zero wake period tokens ts start = out_of_fuel
wait (suc fuel) wake period tokens ts start =
    let again = wait fuel wake period tokens ts (wake start (sleep_at period ts start)) in
    let permits = permits_at period tokens ts start in
    if period == 0
    then no_period
    else (if eqb_ℤ permits (pos 0) then again else proceed start permits)

-- The counters that the hash table keeps per user.
pub record Counters (F : Floating) : Type 0 where
  pub calls : ℤ
  pub success_calls : ℤ
  pub total_time : F.Double
  pub rate_info : RateInfo
  pub ts : Timeval
  pub tokens : ℤ

-- What is recorded before the request is sent.
abbrev pub take_token : {F : Floating} → ℕ → Timeval → ℤ → Counters F → Counters F
take_token most start permits stats = record stats {
  ts = start;
  tokens = int32 (min_ℤ (pos most) permits -ℤ pos 1);
}

-- A call of the service: with the queries that were sent before it, the latest first, it gives
-- what it returned and the queries that have been sent since.
abbrev pub Forward : {F : Floating} → Cjson F → Type 0
Forward J = List String → Exec ((Bool × Response J) × List String)

module _ {F : Floating} {J : Cjson F} where
  -- What is recorded once the service has answered.
  abbrev pub record_call : ℤ → Bool → Response J → Counters F → Bool × Counters F × Response J
  record_call tm answered response stats =
      let counted = record stats {
        calls = int32 (stats.calls +ℤ pos 1);
        total_time = F.add stats.total_time (F.of_long tm);
      } in
      if answered && response_ok response
      then (
        true,
        record counted {
          success_calls = int32 (stats.success_calls +ℤ pos 1);
          rate_info = response.rate_info;
        },
        response,
      )
      else (false, counted, response)

  abbrev pub send :
      Readings
      → Forward J
      → ℕ
      → Counters F
      → List String
      → Wait
      → Exec ((Bool × Counters F × Response J) × List String)
  send clock forward most stats sent (proceed start permits) = forward sent >>= λ r. ok (
    record_call (timeval_diff (clock.finish start) start) r.0.0 r.0.1
        (take_token most start permits stats),
    r.1,
  )
  send clock forward most stats sent no_period = crash division_by_zero
  send clock forward most stats sent out_of_fuel = unfinished

  -- submitRequestWithRateLimiter, with the call of `ocgeo_forward` as an argument.
  unfoldable pub submit_request_with_rate_limiter :
      Readings
      → Forward J
      → ℤ
      → Counters F
      → List String
      → Exec ((Bool × Counters F × Response J) × List String)
  submit_request_with_rate_limiter clock forward max_reqs_per_second stats sent =
      send clock forward (max_reqs_per_sec max_reqs_per_second) stats sent (
        wait (suc clock.more_rounds) clock.wake (period_of max_reqs_per_second) stats.tokens
          stats.ts clock.first)

  -- A service that returns this at any time.
  abbrev pub returning : Bool × Response J → Forward J
  returning reply sent = ok (reply, sent)

  -- What a call returns and stores where the service returns this.
  abbrev pub submit_answered :
      Readings → Bool × Response J → ℤ → Counters F → Exec (Bool × Counters F × Response J)
  submit_answered clock reply max_reqs_per_second stats =
      submit_request_with_rate_limiter clock (returning reply) max_reqs_per_second stats [] >>= λ r.
      ok r.0
