-- ===== src/Limiter/Budget.antt =====
-- What submit_request_with_rate_limiter does to the counters, and the number of requests that it
-- lets through.
use native.Mathlib.Nat.{mul-div-le, mul-le-mul_right}
use ocgeo_fdw.Prelude.{
  List, String, ℕ, ◌+◌, ◌-◌, ◌*◌, suc, ◌/◌, ◌≤◌, ◌<◌, ◌≡◌, refl, inl, inr, Bool, Bool-cases, leb,
  arith,
}
use ocgeo_fdw.Prelude.Int.{ℤ, pos, ◌-ℤ◌, int32, int32_of_IsInt32, pos_sub}
use ocgeo_fdw.Prelude.Exec.{ok}
use ocgeo_fdw.Foreign.{Floating, Cjson}
use ocgeo_fdw.Api.Types.{Response}
use ocgeo_fdw.Limiter.{
  Forward, Timeval, timeval_diff, Counters, Readings, min_ℤ, max_reqs_per_sec, period_of,
  take_token, record_call, submit_request_with_rate_limiter,
}
use ocgeo_fdw.Limiter.Clock.{micros, IsCanonical, Follows}
use ocgeo_fdw.Limiter.Rounds.{IsClock, wait_ends}

-- The limits for which a period lasts a millisecond at least.
abbrev pub IsLimit : ℤ → Type 0
IsLimit m = max_reqs_per_sec m ≤ 1000

pub max_reqs_per_sec_pos : (m : ℤ) → 0 < max_reqs_per_sec m
unfolding max_reqs_per_sec
max_reqs_per_sec_pos m = ground arith

pub period_of_bounds : (m : ℤ) → IsLimit m → (0 < period_of m) × (period_of m ≤ 1000)
unfolding period_of
period_of_bounds m h = let p = max_reqs_per_sec_pos m in grind arith

-- The least of the limit and the permits, less the token that the request takes.
tokens_lem :
    (most p : ℕ)
    → 0 < most
    → most ≤ 1000
    → 0 < p
    → (left : ℕ) × (int32 (min_ℤ (pos most) (pos p) -ℤ pos 1) ≡ pos left)
      × (left < most)
      × (left < p)
tokens_lem most p h h' hp = elim (Bool-cases (leb p most)) [
  | inl fits ↦ (
    p - 1,
    ground (arith, pos_sub p 1, int32_of_IsInt32 (pos (p - 1)), pos_sub most 1),
    ground arith,
    omega arith,
  )
  | inr more ↦ (
    most - 1,
    ground (arith, pos_sub most 1, int32_of_IsInt32 (pos (most - 1))),
    omega arith,
    ground arith,
  )
]

spent_lem :
    (taken left q period ms ts s : ℕ)
    → taken ≤ left + q
    → period * q ≤ ms
    → ts + ms * 1000 < s + 1000
    → taken * (period * 1000) + ts < left * (period * 1000) + s + 1000
spent_lem taken left q period ms ts s h h' h'' =
    let scaled : taken * (period * 1000) ≤ (left + q) * (period * 1000) =
      mul-le-mul_right (period * 1000) h in
    omega arith

module _ {F : Floating} where
  -- The counters of a user whose tokens are between 0 and the limit.
  pub record IsBucket (m : ℤ) (c : Counters F) : Type 0 where
    pub left : ℕ
    pub tokens : c.tokens ≡ pos left
    pub within : left ≤ max_reqs_per_sec m
    pub canonical : IsCanonical c.ts

  -- The call is made no earlier than the last one and at most 2 ^ 40 microseconds (12 days) after it,
  -- by a clock, with three rounds of the loop.
  pub record IsTimely (clock : Readings) (c : Counters F) : Type 0 where
    pub clock_runs : IsClock clock.wake
    pub rounds : 2 ≤ clock.more_rounds
    pub first_canonical : IsCanonical clock.first
    pub first_follows : Follows clock.first c.ts

  -- The counters after a call, and what it used up: a token, of those that were left and those
  -- that the elapsed time brought.
  pub record Spends (m : ℤ) (c : Counters F) (left : ℕ) (c' : Counters F) : Type 0 where
    pub left' : ℕ
    pub tokens : c'.tokens ≡ pos left'
    pub below : left' < max_reqs_per_sec m
    pub canonical : IsCanonical c'.ts
    pub spent :
        (left' + 1) * (period_of m * 1000) + micros c.ts
        < left * (period_of m * 1000) + micros c'.ts + 1000

module _ {F : Floating} {J : Cjson F} where
  pub submit-Spends :
      (clock : Readings) (forward : Forward J) (m : ℤ) (c : Counters F) (sent : List String)
      {reply : Bool × Response J} {sent' : List String}
      → forward sent ≡ ok (reply, sent')
      → IsLimit m
      → (b : IsBucket m c) → IsTimely clock c
      → (s : Timeval) × (c' : Counters F) × (submit_request_with_rate_limiter clock forward m c sent
          ≡ ok (record_call (timeval_diff (clock.finish s) s) reply.0 reply.1 c', sent'))
        × (micros clock.first ≤ micros s)
        × (c'.ts ≡ s)
        × (c' ≡ record c { ts = s; tokens = c'.tokens })
        × Spends m c b.left c'
  unfolding submit_request_with_rate_limiter
  submit-Spends clock forward m c sent e hm b t =
      let period = period_of m in
      let most = max_reqs_per_sec m in
      let (some_period, short) = period_of_bounds m hm in
      let positive = max_reqs_per_sec_pos m in
      let p =
        wait_ends clock.wake t.clock_runs period b.left some_period (omega (arith, b.within)) c.ts
          b.canonical short (suc clock.more_rounds) clock.first (omega (arith, t.rounds))
          t.first_canonical t.first_follows in
      let permits = b.left + p.ms / period in
      let (left', token, below, taken) = tokens_lem most permits positive hm p.permitted in
      (
        p.s,
        take_token most p.s (pos permits) c,
        rw (b.tokens, p.ended, e) refl,
        p.later,
        refl,
        refl,
        record {
          left' = left';
          tokens = token;
          below = below;
          canonical = p.canonical;
          spent =
              spent_lem _ b.left (p.ms / period) period p.ms (micros c.ts) (micros p.s)
                (omega arith) (mul-div-le p.ms period) p.not_less;
        },
      )
