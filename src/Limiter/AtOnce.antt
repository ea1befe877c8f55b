-- ===== src/Limiter/AtOnce.antt =====
-- The calls that do not wait: the loop's first round finds permits that are not 0.
use ocgeo_fdw.Prelude.{
  ℕ, suc, ◌+◌, ◌-◌, ◌/◌, ◌^◌, ◌≤◌, ◌<◌, ◌≡◌, refl, ap, ◌∙◌, Bool, false, ◌==◌, arith,
}
use ocgeo_fdw.Prelude.Int.{ℤ, pos, negsuc, ◌+ℤ◌, ◌-ℤ◌, int32, int32_of_IsInt32, eqb_ℤ, tdiv-pos}
use ocgeo_fdw.Prelude.Exec.{ok}
use ocgeo_fdw.Foreign.{Floating, Cjson}
use ocgeo_fdw.Api.Types.{Response}
use ocgeo_fdw.Limiter.{
  Timeval, timeval_diff, Counters, Readings, min_ℤ, proceed, max_reqs_per_sec, period_of,
  permits_at, take_token, wait, record_call, submit_answered, submit_request_with_rate_limiter,
}
use ocgeo_fdw.Limiter.Clock.{timeval_diff_close}
use ocgeo_fdw.Limiter.Rounds.{permits_lem}
use ocgeo_fdw.Limiter.Budget.{IsLimit, period_of_bounds, max_reqs_per_sec_pos, IsBucket, IsTimely}
use ocgeo_fdw.Limiter.Bucket.{tokens_exact, least}

wait_proceeds :
    (fuel : ℕ) (wake : Timeval → ℤ → Timeval) (period : ℕ) (tokens : ℤ) (ts start : Timeval) {p : ℤ}
    → 0 < period
    → permits_at period tokens ts start ≡ p
    → eqb_ℤ p (pos 0) ≡ false
    → wait (suc fuel) wake period tokens ts start ≡ proceed start p
unfolding wait
wait_proceeds fuel wake period tokens ts start {p} some_period e some =
    let positive : (period == 0) ≡ false = ground arith in rw (positive, e, some) refl

negsuc_add : (k n : ℕ) → n ≤ k → negsuc k +ℤ pos n ≡ negsuc (k - n)
unfolding ◌+ℤ◌
negsuc_add k n h = ground arith

negative_lem :
    (period k ms : ℕ) (ts start : Timeval)
    → k < 2 ^ 30
    → ms / period ≤ k
    → timeval_diff start ts ≡ pos ms
    → permits_at period (negsuc k) ts start ≡ negsuc (k - ms / period)
negative_lem period k ms ts start hk hm e =
    rw (e, tdiv-pos ms period, negsuc_add k (ms / period) hm)
      (int32_of_IsInt32 (negsuc (k - ms / period)) (omega arith))

-- The token that is taken below zero.
below_lem :
    (most n : ℕ) → n < 2 ^ 30 → int32 (min_ℤ (pos most) (negsuc n) -ℤ pos 1) ≡ negsuc (n + 1)
unfolding ◌-ℤ◌
below_lem most n h = ground (arith, int32_of_IsInt32 (negsuc (n + 1)))

module _ {F : Floating} {J : Cjson F} where
  submit_proceeds :
      (m : ℤ) (c : Counters F) (clock : Readings) (reply : Bool × Response J) {p : ℤ}
      → IsLimit m
      → permits_at (period_of m) c.tokens c.ts clock.first ≡ p
      → eqb_ℤ p (pos 0) ≡ false
      → submit_answered clock reply m c
        ≡ ok (
            record_call
              (timeval_diff (clock.finish clock.first) clock.first)
              reply.0
              reply.1
              (take_token (max_reqs_per_sec m) clock.first p c))
  unfolding submit_request_with_rate_limiter
  submit_proceeds m c clock reply hm e some =
      rw
        (wait_proceeds clock.more_rounds clock.wake (period_of m) c.tokens c.ts clock.first
          (period_of_bounds m hm).0 e some)
        refl

  -- Under a limit of at most 1000 requests a second, a call that finds between one token and the
  -- limit left, at most 2 ^ 40 microseconds (12 days) after the last one, with three rounds of the
  -- loop and a pg_usleep that sleeps at least as long as asked and less than 2 ^ 38 microseconds
  -- longer, does not wait: it is made at the first reading of the clock, and leaves one token less
  -- than the least of the limit and of the tokens left with one more for each whole period of the
  -- elapsed milliseconds.
  pub submit-at_once :
      (m : ℤ) (c : Counters F) (clock : Readings) (reply : Bool × Response J)
      → IsLimit m
      → (b : IsBucket m c) → IsTimely clock c
      → 0 < b.left
      → (ms left : ℕ) × (timeval_diff clock.first c.ts ≡ pos ms)
        × (left + 1 ≡ least (max_reqs_per_sec m) (b.left + ms / period_of m))
        × (submit_answered clock reply m c
            ≡ ok (
                record_call
                  (timeval_diff (clock.finish clock.first) clock.first)
                  reply.0
                  reply.1
                  (record c { ts = clock.first; tokens = pos left })))
  submit-at_once m c clock reply hm b t some_left =
      let period = period_of m in
      let (ms, e, lo, hi) =
        timeval_diff_close clock.first c.ts t.first_canonical b.canonical t.first_follows in
      let counted =
        permits_lem period b.left ms c.ts clock.first (omega (arith, b.within)) (omega arith) e in
      let (left, token, taken) =
        tokens_exact (max_reqs_per_sec m) (b.left + ms / period) (max_reqs_per_sec_pos m) hm
          (omega arith) in
      (
        ms,
        left,
        e,
        taken,
        submit_proceeds m c clock reply hm
              (ap (λ k. permits_at period k c.ts clock.first) b.tokens ∙ counted) (ground arith)
            ∙ rw (token) refl,
      )

  -- Tokens below zero, but not below - 2 ^ 30, do not make a call wait: under a limit of at most
  -- 1000 requests a second, a call that finds a negative number of permits, the tokens left with
  -- one more for each whole period of the elapsed milliseconds, is made at the first reading of
  -- the clock and leaves one token less than that.
  pub submit_below_zero :
      (m : ℤ) (c : Counters F) (clock : Readings) (reply : Bool × Response J) (k ms : ℕ)
      → IsLimit m
      → c.tokens ≡ negsuc k
      → k < 2 ^ 30
      → timeval_diff clock.first c.ts ≡ pos ms
      → ms / period_of m ≤ k
      → submit_answered clock reply m c
        ≡ ok (
            record_call
              (timeval_diff (clock.finish clock.first) clock.first)
              reply.0
              reply.1
              (record c { ts = clock.first; tokens = negsuc (k - ms / period_of m + 1) }))
  submit_below_zero m c clock reply k ms hm same hk e few =
      let period = period_of m in
      let permits = negative_lem period k ms c.ts clock.first (omega arith) few e in
      submit_proceeds m c clock reply hm
        (ap (λ k. permits_at period k c.ts clock.first) same ∙ permits) (ground arith)
      ∙ rw (below_lem (max_reqs_per_sec m) (k - ms / period) (omega arith)) refl
