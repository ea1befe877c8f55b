-- ===== src/Limiter/Rounds.antt =====
-- The wait for a permit ends: with a clock that does not run backwards, three rounds are enough.
use ocgeo_fdw.Prelude.{
  ℕ, suc, ◌+◌, ◌-◌, ◌*◌, ◌/◌, ◌^◌, ◌≤◌, ◌<◌, ◌≡◌, refl, ◌∙◌, ◌⊎◌, inl, inr, Bool-cases, ◌==◌, arith,
}
use ocgeo_fdw.Prelude.Int.{ℤ, pos, int32_of_IsInt32, pos_add, pos_sub, pos_mul, tdiv-pos}
use native.Mathlib.Nat.{div-le_self}
use ocgeo_fdw.Limiter.{Timeval, timeval_diff, Wait, proceed, permits_at, sleep_at, wait}
use ocgeo_fdw.Limiter.Clock.{micros, IsCanonical, Follows, timeval_diff_close}

-- What a clock and pg_usleep promise: a sleep lasts at least as long as was asked for, and less
-- than 2 ^ 38 microseconds (3 days) longer.
pub record IsClock (wake : Timeval → ℤ → Timeval) : Type 0 where
  pub canonical : (t : Timeval) (d : ℕ) → IsCanonical (wake t (pos d))
  pub sleeps : (t : Timeval) (d : ℕ) → micros t + d ≤ micros (wake t (pos d))
  pub wakes : (t : Timeval) (d : ℕ) → micros (wake t (pos d)) ≤ micros t + d + 2 ^ 38

-- The wait has ended at a time `s` after `start`, with a positive number of permits: the tokens
-- left and one for each period since the last request.
pub record Proceeds (period k : ℕ) (ts start : Timeval) (w : Wait) : Type 0 where
  pub s : Timeval
  pub ms : ℕ
  pub ended : w ≡ proceed s (pos (k + ms / period))
  pub permitted : 0 < k + ms / period
  pub later : micros start ≤ micros s
  pub canonical : IsCanonical s
  pub follows : Follows s ts
  pub elapsed : timeval_diff s ts ≡ pos ms
  pub not_less : micros ts + ms * 1000 < micros s + 1000

pub permits_lem :
    (period k ms : ℕ) (ts start : Timeval)
    → k < 2 ^ 29
    → ms < 1_100_000_000
    → timeval_diff start ts ≡ pos ms
    → permits_at period (pos k) ts start ≡ pos (k + ms / period)
permits_lem period k ms ts start hk hm e =
    rw (e, tdiv-pos ms period, pos_add k (ms / period))
      (int32_of_IsInt32 (pos (k + ms / period)) (omega (arith, div-le_self ms period)))

sleep_lem :
    (period ms : ℕ) (ts start : Timeval)
    → ms < period
    → timeval_diff start ts ≡ pos ms
    → sleep_at period ts start ≡ pos ((period - ms) * 1000)
sleep_lem period ms ts start h e =
    rw (e, pos_sub period ms (omega arith), pos_mul (period - ms) 1000) refl

-- A wait that goes on from a later time.
resume :
    {period k : ℕ} {ts start start' : Timeval} {w w' : Wait}
    → micros start ≤ micros start'
    → w ≡ w'
    → Proceeds period k ts start' w'
    → Proceeds period k ts start w
resume h e p = record {
  s = p.s;
  ms = p.ms;
  ended = e ∙ p.ended;
  permitted = p.permitted;
  later = omega (arith, p.later);
  canonical = p.canonical;
  follows = p.follows;
  elapsed = p.elapsed;
  not_less = p.not_less;
}

module _ (wake : Timeval → ℤ → Timeval) (clock : IsClock wake) (period k : ℕ)
    (some_period : 0 < period) (hk : k < 2 ^ 29) (ts : Timeval) (ht : IsCanonical ts) where
  -- One round: it ends the wait, or it found no permit and sleeps for the rest of the period.
  round :
      (fuel : ℕ) (start : Timeval) (ms : ℕ)
      → IsCanonical start
      → Follows start ts
      → timeval_diff start ts ≡ pos ms
      → micros ts + ms * 1000 < micros start + 1000
      → Proceeds period k ts start (wait (suc fuel) wake period (pos k) ts start)
        ⊎ ((ms < period)
            × (wait (suc fuel) wake period (pos k) ts start
                ≡ wait fuel wake period (pos k) ts (wake start (pos ((period - ms) * 1000)))))
  unfolding wait
  round fuel start ms hs hf e lo = elim (Bool-cases ((k + ms / period) == 0)) [
    | inl nothing ↦ inr (
      ground arith,
      rw (permits_lem period k ms ts start hk (omega arith) e)
          (rw (sleep_lem period ms ts start (ground arith) e) (ground arith)),
    )
    | inr permitted ↦ inl (record {
      s = start;
      ms = ms;
      ended = rw (permits_lem period k ms ts start hk (omega arith) e) (ground arith);
      permitted = ground arith;
      later = omega arith;
      canonical = hs;
      follows = hf;
      elapsed = e;
      not_less = lo;
    })
  ]

  -- A full period has passed: the wait ends in this round.
  wait_at_period :
      (fuel : ℕ) (start : Timeval)
      → IsCanonical start
      → Follows start ts
      → micros ts + period * 1000 ≤ micros start
      → Proceeds period k ts start (wait (suc fuel) wake period (pos k) ts start)
  wait_at_period fuel start hs hf full =
      let (ms, e, lo, hi) = timeval_diff_close start ts hs ht hf in
      elim (round fuel start ms hs hf e lo) [ inl p ↦ p | inr (short, _) ↦ absurd (omega arith) ]

  module _ (most : period ≤ 1000) where
    -- A full period but for the rounding of TIMEVALDIFF: one more round at most.
    wait_near_period :
        (fuel : ℕ) (start : Timeval)
        → IsCanonical start
        → Follows start ts
        → micros ts + period * 1000 < micros start + 1000
        → Proceeds period k ts start (wait (suc (suc fuel)) wake period (pos k) ts start)
    wait_near_period fuel start hs hf near =
        let (ms, e, lo, hi) = timeval_diff_close start ts hs ht hf in
        elim (round (suc fuel) start ms hs hf e lo) [
          | inl p ↦ p
          | inr (short, same) ↦
              let d = (period - ms) * 1000 in
              let slept = clock.sleeps start d in
              let woke = clock.wakes start d in
              resume (omega arith) same (
                wait_at_period fuel (wake start (pos d)) (clock.canonical start d) (omega arith)
                  (omega arith))
        ]

    -- Whatever the time: two more rounds at most.
    wait_three :
        (fuel : ℕ) (start : Timeval)
        → IsCanonical start
        → Follows start ts
        → Proceeds period k ts start (wait (suc (suc (suc fuel))) wake period (pos k) ts start)
    wait_three fuel start hs hf =
        let (ms, e, lo, hi) = timeval_diff_close start ts hs ht hf in
        elim (round (suc (suc fuel)) start ms hs hf e lo) [
          | inl p ↦ p
          | inr (short, same) ↦
              let d = (period - ms) * 1000 in
              let slept = clock.sleeps start d in
              let woke = clock.wakes start d in
              resume (omega arith) same (
                wait_near_period fuel (wake start (pos d)) (clock.canonical start d) (omega arith)
                  (omega arith))
        ]

    pub wait_ends :
        (fuel : ℕ) (start : Timeval)
        → 3 ≤ fuel
        → IsCanonical start
        → Follows start ts
        → Proceeds period k ts start (wait fuel wake period (pos k) ts start)
    wait_ends (suc (suc (suc fuel))) start h hs hf = wait_three fuel start hs hf
    wait_ends _ start h hs hf = absurd (omega arith)
