-- ===== src/Limiter/Rate.antt =====
-- The number of requests that the limiter lets through in a given time.
use ocgeo_fdw.Prelude.{[], ℕ, zero, suc, ◌+◌, ◌*◌, ◌≤◌, ◌≡◌, refl, ap, ◌∙◌, Bool, arith}
use ocgeo_fdw.Prelude.Int.{ℤ}
use ocgeo_fdw.Prelude.Exec.{ok}
use ocgeo_fdw.Foreign.{Floating, Cjson}
use ocgeo_fdw.Api.Types.{Response}
use ocgeo_fdw.Limiter.{
  returning, Readings, Counters, timeval_diff, period_of, record_call, submit_answered,
}
use ocgeo_fdw.Limiter.Clock.{micros}
use ocgeo_fdw.Limiter.Budget.{IsLimit, IsBucket, IsTimely, Spends, submit-Spends}

module _ {F : Floating} where
  Spends-IsBucket :
      {m : ℤ} {before after : Counters F} {left : ℕ} → Spends m before left after → IsBucket m after
  Spends-IsBucket s = record {
    left = s.left';
    tokens = s.tokens;
    within = omega (arith, s.below);
    canonical = s.canonical;
  }

module _ {F : Floating} (J : Cjson F) where
  -- Some calls in a row under one limit, each at a time that its clock gives.
  pub data Served (m : ℤ) (c : Counters F) : ℕ → Counters F → Type 1 where
    none_yet : Served m c zero c
    one_more :
        {n : ℕ} {before : Counters F}
        → Served m c n before
        → (clock : Readings) (reply : Bool × Response J) → IsTimely clock before
        → {answered : Bool} {after : Counters F} {response : Response J}
        → submit_answered clock reply m before ≡ ok (answered, after, response)
        → Served m c (suc n) after

module _ {F : Floating} {J : Cjson F} where
  pub record_call_bucket :
      (tm : ℤ) (answered : Bool) (response : Response J) (c : Counters F)
      → ((record_call tm answered response c).1.tokens ≡ c.tokens)
        × ((record_call tm answered response c).1.ts ≡ c.ts)
  record_call_bucket tm answered response c = ground arith

  -- A call keeps the tokens within the limit, and uses up one.
  pub submit-spent :
      (m : ℤ) {before : Counters F} (clock : Readings) (reply : Bool × Response J)
      → IsLimit m
      → (b : IsBucket m before) → IsTimely clock before
      → {answered : Bool} {after : Counters F} {response : Response J}
      → submit_answered clock reply m before ≡ ok (answered, after, response)
      → Spends m before b.left after
  submit-spent m {before} clock reply hm b t {after} e =
      let (s, c', returned, _, _, _, spends) =
        submit-Spends clock (returning reply) m before [] refl hm b t in
      let tm = timeval_diff (clock.finish s) s in
      let (same_tokens, same_ts) = record_call_bucket tm reply.0 reply.1 c' in
      let same : after ≡ (record_call tm reply.0 reply.1 c').1 = cc in
      record {
        left' = spends.left';
        tokens = ap (λ (c : Counters F). c.tokens) same ∙ same_tokens ∙ spends.tokens;
        below = spends.below;
        canonical = rw (same, same_ts) spends.canonical;
        spent = rw (same, same_ts) spends.spent;
      }

  -- In any number `n` of calls in a row, under a limit of at most 1000 requests a second and from
  -- counters whose tokens are between 0 and the limit: the tokens stay there, and `n` is at most
  -- the tokens at the beginning and one for each period of the time that has passed, where a
  -- period counts for a millisecond less than it is.
  requests_within_rate :
      (m : ℤ) (c : Counters F)
      → IsLimit m
      → (b : IsBucket m c) → (n : ℕ) (c' : Counters F) → Served J m c n c'
      → (b' : IsBucket m c') × (n * (period_of m * 1000)
            + b'.left * (period_of m * 1000)
            + micros c.ts
          ≤ b.left * (period_of m * 1000) + micros c'.ts + n * 999)
  unfolding Spends-IsBucket
  requests_within_rate m c hm b _ _ none_yet = (b, omega arith)
  requests_within_rate m c hm b _ after
        (one_more {n = n} {before = before} earlier clock reply t e) =
      let (b₁, rate) = requests_within_rate m c hm b n before earlier in
      let s = submit-spent m clock reply hm b₁ t e in
      (Spends-IsBucket s, omega (arith, s.spent, rate))
