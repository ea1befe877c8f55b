-- ===== src/Limiter/Bucket.antt =====
-- The limiter as a token bucket: a level that rises by one in each period, up to a capacity, and
-- from which each request takes one.
use native.Mathlib.Nat.{mul-div-le, lt-mul-div-succ}
use ocgeo_fdw.Prelude.{
  ℕ, zero, suc, ◌+◌, ◌-◌, ◌*◌, ◌/◌, ◌≤◌, ◌<◌, ◌≡◌, refl, sym, ap, ◌∙◌, inl, inr, Bool, Bool-cases,
  leb, if◌then◌else◌, arith,
}
use ocgeo_fdw.Prelude.Int.{ℤ, pos, ◌-ℤ◌, int32, int32_of_IsInt32, pos_sub}
use ocgeo_fdw.Prelude.Exec.{ok}
use ocgeo_fdw.Foreign.{Floating, Cjson}
use ocgeo_fdw.Api.Types.{Response}
use ocgeo_fdw.Limiter.{
  timeval_diff, Counters, Readings, min_ℤ, max_reqs_per_sec, period_of, take_token, record_call,
  submit_answered, submit_request_with_rate_limiter,
}
use ocgeo_fdw.Limiter.Clock.{micros, timeval_diff_close}
use ocgeo_fdw.Limiter.Rounds.{wait_ends}
use ocgeo_fdw.Limiter.Budget.{IsLimit, max_reqs_per_sec_pos, period_of_bounds, IsBucket, IsTimely}
use ocgeo_fdw.Limiter.Rate.{Served, none_yet, one_more, record_call_bucket}

-- The level after the last request, and its time in microseconds.
pub record Bucket : Type 0 where
  pub level : ℕ
  pub at : ℕ

abbrev pub least : ℕ → ℕ → ℕ
least a b = if leb a b then a else b

-- A request is granted: since the last one the level has risen by one for each period that has
-- passed, up to the capacity, and it is one less then. A period may count up to a millisecond
-- before it is over, and counts when it is over.
pub record Grants (period capacity : ℕ) (b b' : Bucket) : Type 0 where
  pub gained : ℕ
  pub takes : b'.level + 1 ≡ least capacity (b.level + gained)
  pub forth : b.at ≤ b'.at
  pub not_early : gained * period + b.at < b'.at + 1000
  pub not_late : b'.at < b.at + (gained + 1) * period

-- Some requests in a row.
pub data Granted (period capacity : ℕ) (b : Bucket) : ℕ → Bucket → Type 0 where
  none_granted : Granted period capacity b zero b
  one_granted :
      {n : ℕ} {b' b'' : Bucket}
      → Granted period capacity b n b'
      → Grants period capacity b' b''
      → Granted period capacity b (suc n) b''

pub tokens_exact :
    (most p : ℕ)
    → 0 < most
    → most ≤ 1000
    → 0 < p
    → (left : ℕ) × (int32 (min_ℤ (pos most) (pos p) -ℤ pos 1) ≡ pos left)
      × (left + 1 ≡ least most p)
tokens_exact most p h h' hp = elim (Bool-cases (leb p most)) [
  | inl fits ↦ (
    p - 1,
    ground (arith, pos_sub p 1, int32_of_IsInt32 (pos (p - 1)), pos_sub most 1),
    ground arith,
  )
  | inr more ↦
      (most - 1, ground (arith, pos_sub most 1, int32_of_IsInt32 (pos (most - 1))), ground arith)
]

pos-injective : {a b : ℕ} → pos a ≡ pos b → a ≡ b
pos-injective h = cc

module _ {F : Floating} where
  -- The bucket that counters stand for.
  abbrev pub bucket_of : {m : ℤ} (c : Counters F) → IsBucket m c → Bucket
  bucket_of c b = record { level = b.left; at = micros c.ts }

early_lem :
    (q period ms ts s : ℕ)
    → period * q ≤ ms
    → ts + ms * 1000 < s + 1000
    → q * (period * 1000) + ts < s + 1000
early_lem q period ms ts s h h' = omega arith

late_lem :
    (q period ms ts s : ℕ)
    → ms < period * (q + 1)
    → s < ts + ms * 1000 + 1000
    → s < ts + (q + 1) * (period * 1000)
late_lem q period ms ts s h h' = omega arith

module _ {F : Floating} {J : Cjson F} where
  -- A call, as a grant of the bucket.
  pub submit-Grants :
      (m : ℤ) {before : Counters F} (clock : Readings) (reply : Bool × Response J)
      → IsLimit m
      → (b : IsBucket m before) → IsTimely clock before
      → {answered : Bool} {after : Counters F} {response : Response J}
      → submit_answered clock reply m before ≡ ok (answered, after, response)
      → (b' : IsBucket m after) × Grants
          (period_of m * 1000)
          (max_reqs_per_sec m)
          (bucket_of before b)
          (bucket_of after b')
  unfolding submit_request_with_rate_limiter
  submit-Grants m {before} clock reply hm b t {after = after} e =
      let period = period_of m in
      let most = max_reqs_per_sec m in
      let (some_period, short) = period_of_bounds m hm in
      let p =
        wait_ends clock.wake t.clock_runs period b.left some_period (omega (arith, b.within))
          before.ts b.canonical short (suc clock.more_rounds) clock.first (omega (arith, t.rounds))
          t.first_canonical t.first_follows in
      let gained = p.ms / period in
      let permits = b.left + gained in
      let (left', token, taken) =
        tokens_exact most permits (max_reqs_per_sec_pos m) hm p.permitted in
      let used : Counters F = take_token most p.s (pos permits) before in
      let tm = timeval_diff (clock.finish p.s) p.s in
      let (same_tokens, same_ts) = record_call_bucket tm reply.0 reply.1 used in
      let returned : submit_answered clock reply m before
          ≡ ok (record_call tm reply.0 reply.1 used) =
        rw (b.tokens, p.ended) refl in
      let same : after ≡ (record_call tm reply.0 reply.1 used).1 = cc in
      let (ms', e', lo, hi) = timeval_diff_close p.s before.ts p.canonical b.canonical p.follows in
      let ms_same : ms' ≡ p.ms = pos-injective (sym e' ∙ p.elapsed) in
      (
        record {
          left = left';
          tokens = ap (λ (c : Counters F). c.tokens) same ∙ same_tokens ∙ token;
          within = ground arith;
          canonical = rw (same, same_ts) p.canonical;
        },
        record {
          gained = gained;
          takes = taken;
          forth = rw (same, same_ts) p.follows.0;
          not_early =
              rw (same, same_ts)
                (early_lem gained period p.ms _ _ (mul-div-le p.ms period) p.not_less);
          not_late =
              rw (same, same_ts)
                (late_lem gained period p.ms _ _ (lt-mul-div-succ p.ms some_period) (omega arith));
        },
      )

  -- The limiter implements the token bucket: any number of calls in a row, under a limit of at most
  -- 1000 requests a second, from counters whose tokens are between 0 and the limit and on a clock
  -- that runs on, are as many grants in a row of a bucket of that capacity, which gains one in each
  -- period, from the level and the time of the counters before to those of the counters after.
  Served-Granted :
      (m : ℤ) (c : Counters F)
      → IsLimit m
      → (b : IsBucket m c) → (n : ℕ) (c' : Counters F) → Served J m c n c'
      → (b' : IsBucket m c') × Granted
          (period_of m * 1000)
          (max_reqs_per_sec m)
          (bucket_of c b)
          n
          (bucket_of c' b')
  Served-Granted m c hm b _ _ none_yet = (b, none_granted)
  Served-Granted m c hm b _ after (one_more {n = n} {before = before} earlier clock reply t e) =
      let (b₁, granted) = Served-Granted m c hm b n before earlier in
      let (b₂, grant) = submit-Grants m clock reply hm b₁ t e in (b₂, one_granted granted grant)
