-- ===== src/Limiter/Outcome.antt =====
-- What submitRequestWithRateLimiter returns and counts, and when it stops the backend.
use ocgeo_fdw.Prelude.{
  List, [], String, ◌∙◌, ap, ℕ, zero, suc, ◌<◌, ◌≡◌, refl, Bool, ◌&&◌, if◌then◌else◌, arith,
}
use ocgeo_fdw.Prelude.Int.{ℤ, pos, ◌+ℤ◌, int32}
use ocgeo_fdw.Prelude.Exec.{>>=-eq-ok, ◌>>=◌, ok-injective, ok, crash, division_by_zero}
use ocgeo_fdw.Foreign.{Floating, Cjson}
use ocgeo_fdw.Api.Types.{Response, response_ok}
use ocgeo_fdw.Limiter.{
  Forward, returning, timeval_diff, Readings, Counters, Wait, proceed, no_period, out_of_fuel,
  max_reqs_per_sec, period_of, record_call, take_token, send, wait, submit_answered,
  submit_request_with_rate_limiter,
}

-- `if (ok && ocgeo_response_ok(response))`, and what each branch leaves in the counters.
abbrev pub succeeds : {F : Floating} {J : Cjson F} → Bool × Response J → Bool
succeeds reply = reply.0 && response_ok reply.1

-- The counters that a call leaves: one more call; one more success and the new rate information
-- exactly if the service answered with status 200.
pub record Counts {F : Floating} {J : Cjson F} (c : Counters F) (reply : Bool × Response J)
    (result : Bool × Counters F × Response J) : Type 0 where
  pub returned : result.0 ≡ succeeds reply
  pub response : result.2 ≡ reply.1
  pub calls : result.1.calls ≡ int32 (c.calls +ℤ pos 1)
  pub success_calls :
      result.1.success_calls
      ≡ (if succeeds reply then int32 (c.success_calls +ℤ pos 1) else c.success_calls)
  pub rate_info : result.1.rate_info ≡ (if succeeds reply then reply.1.rate_info else c.rate_info)

period_of-eq-zero : (n : ℕ) → 1000 < n → period_of (pos n) ≡ 0
unfolding period_of max_reqs_per_sec
period_of-eq-zero zero h = absurd (omega arith)
period_of-eq-zero (suc n) h = grind arith

module _ {F : Floating} {J : Cjson F} where
  record_call-Counts :
      (tm : ℤ) (c c' : Counters F) (reply : Bool × Response J)
      → c'.calls ≡ c.calls
      → c'.success_calls ≡ c.success_calls
      → c'.rate_info ≡ c.rate_info
      → Counts c reply (record_call tm reply.0 reply.1 c')
  record_call-Counts tm c c' reply h h' h'' = record {
    returned = ground arith;
    response = ground arith;
    calls = ground arith;
    success_calls = ground arith;
    rate_info = ground arith;
  }

  send-Counts :
      (clock : Readings) (most : ℕ) (c : Counters F) (w : Wait) (reply : Bool × Response J)
      {result : Bool × Counters F × Response J}
      → (send clock (returning reply) most c [] w >>= λ r. ok r.0) ≡ ok result
      → Counts c reply result
  send-Counts clock most c (proceed s p) reply {result} e =
      let same : record_call (timeval_diff (clock.finish s) s) reply.0 reply.1
            (take_token most s p c)
          ≡ result =
        cc in
      rw (← same) (record_call-Counts _ c (take_token most s p c) reply refl refl refl)
  send-Counts clock most c no_period reply e = cc
  send-Counts clock most c out_of_fuel reply e = cc

  pub answered-Counts :
      (clock : Readings) (m : ℤ) (c : Counters F) (reply : Bool × Response J)
      {result : Bool × Counters F × Response J}
      → submit_answered clock reply m c ≡ ok result
      → Counts c reply result
  unfolding submit_request_with_rate_limiter
  answered-Counts clock m c reply e = send-Counts clock _ c _ reply e

  send-once :
      (clock : Readings) (forward : Forward J) (most : ℕ) (c : Counters F) (sent : List String)
      (w : Wait) {result : Bool × Counters F × Response J} {sent' : List String}
      → send clock forward most c sent w ≡ ok (result, sent')
      → (reply : Bool × Response J) × (forward sent ≡ ok (reply, sent'))
        × ((send clock (returning reply) most c [] w >>= λ r. ok r.0) ≡ ok result)
  send-once clock forward most c sent (proceed s p) h =
      let ((reply, after), e, e') = >>=-eq-ok (forward sent) _ h in
      (
        reply,
        e ∙ ap (λ l. ok (reply, l)) (ap (λ r. r.1) (ok-injective e')),
        ap (λ r. ok r.0) (ok-injective e'),
      )
  send-once clock forward most c sent no_period h = cc
  send-once clock forward most c sent out_of_fuel h = cc

  -- A call that returns has called the service exactly once, after what was sent before it: what was
  -- sent by then is what that call has sent, and the rest is as with a service that returns its
  -- reply.
  pub submit-once :
      (clock : Readings) (forward : Forward J) (m : ℤ) (c : Counters F) (sent : List String)
      {result : Bool × Counters F × Response J} {sent' : List String}
      → submit_request_with_rate_limiter clock forward m c sent ≡ ok (result, sent')
      → (reply : Bool × Response J) × (forward sent ≡ ok (reply, sent'))
        × (submit_answered clock reply m c ≡ ok result)
  unfolding submit_request_with_rate_limiter
  submit-once clock forward m c sent h = send-once clock forward _ c sent _ h

  pub submit-Counts :
      (clock : Readings) (forward : Forward J) (m : ℤ) (c : Counters F) (sent : List String)
      {result : Bool × Counters F × Response J} {sent' : List String}
      → submit_request_with_rate_limiter clock forward m c sent ≡ ok (result, sent')
      → (reply : Bool × Response J) × (forward sent ≡ ok (reply, sent')) × Counts c reply result
  submit-Counts clock forward m c sent h =
      let (reply, once, answered) = submit-once clock forward m c sent h in
      (reply, once, answered-Counts clock m c reply answered)

  -- A limit of more than 1000 requests a second makes the period zero, and the division by it
  -- stops the backend, whatever the counters, the clock and the service.
  pub submit_above_1000 :
      (clock : Readings) (forward : Forward J) (n : ℕ) (c : Counters F) (sent : List String)
      → 1000 < n
      → submit_request_with_rate_limiter clock forward (pos n) c sent ≡ crash division_by_zero
  unfolding submit_request_with_rate_limiter wait
  submit_above_1000 clock forward n c sent h = rw (period_of-eq-zero n h) refl
