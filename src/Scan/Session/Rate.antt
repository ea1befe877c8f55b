-- ===== src/Scan/Session/Rate.antt =====
-- The requests that a user's scans send, whatever scans of other users run in between.
use ocgeo_fdw.Prelude.{
  ℕ, ◌+◌, ◌*◌, ◌≤◌, ◌<◌, ◌⊎◌, inl, inr, ◌≡◌, refl, sym, ◌∙◌, Bool, Option, some, none, arith,
}
use ocgeo_fdw.Prelude.Int.{ℤ, pos}
use mathlib.Core.Path.{subst}
use mathlib.Core.Option.{some-injective}
use ocgeo_fdw.Prelude.Exec.{ok}
use ocgeo_fdw.Foreign.{Floating, Cjson}
use ocgeo_fdw.Api.Types.{Response}
use ocgeo_fdw.Limiter.{Counters, Readings, period_of, submit_answered}
use ocgeo_fdw.Limiter.Clock.{micros}
use ocgeo_fdw.Limiter.Budget.{IsLimit, IsBucket, IsTimely}
use ocgeo_fdw.Limiter.Rate.{submit-spent}
use ocgeo_fdw.Stats.{IsMap, table_of, new_counters}
use ocgeo_fdw.Stats.Users.{positive_limit}
use ocgeo_fdw.World.{World}
use ocgeo_fdw.Scan.Session.{Backend, Runs}
use ocgeo_fdw.Scan.Session.Users.{Current, known, newly_made, Runs-Keeps}

module _ {F : Floating} (m : ℤ) where
  -- From a time in microseconds, with so many tokens left then, to the counters now, with `n` requests
  -- in between: the tokens are between 0 and the limit, and each request has used up one.
  record HasSpent (start left n : ℕ) (now : Counters F) : Type 0 where
    bucket : IsBucket m now
    spent :
        n * (period_of m * 1000) + bucket.left * (period_of m * 1000) + start
        ≤ left * (period_of m * 1000) + micros now.ts + n * 999

  HasSpent-start :
      {start : ℕ} {c : Counters F} (b : IsBucket m c)
      → start ≤ micros c.ts
      → HasSpent start b.left 0 c
  HasSpent-start b h = record { bucket = b; spent = omega arith }

module _ {F : Floating} {J : Cjson F} (m : ℤ) (hm : IsLimit m) where
  HasSpent-submit :
      {start left n : ℕ} (clock : Readings) (reply : Bool × Response J) {c : Counters F}
      (result : Bool × Counters F × Response J)
      → HasSpent m start left n c
      → IsTimely clock c
      → submit_answered clock reply m c ≡ ok result
      → HasSpent m start left (n + 1) result.1
  HasSpent-submit clock reply result spent t h =
      let spends =
        submit-spent m clock reply hm spent.bucket t {answered = result.0} {after = result.1}
          {response = result.2} h in
      record {
        bucket = record {
          left = spends.left';
          tokens = spends.tokens;
          within = omega (arith, spends.below);
          canonical = spends.canonical;
        };
        spent = omega (arith, spent.spent, spends.spent);
      }

module _ (W : World) (laws : IsMap W.htab) (u : ℕ) (m : ℤ) (hm : IsLimit m) where
  open W use {htab as H, floating as F, cjson as J}

  -- The user is in the table, and the requests have been paid for.
  data Pays (start left n : ℕ) (o : Option (Counters F)) : Type 0 where
    paid : (now : Counters F) → o ≡ some now → HasSpent m start left n now → Pays start left n o

  Pays-submit :
      {start left : ℕ} {o : Option (Counters F)} {c : Counters F} {started : ℕ} (n : ℕ)
      (clock : Readings) (reply : Bool × Response J) (result : Bool × Counters F × Response J)
      → Current m started o c
      → IsTimely clock c
      → submit_answered clock reply m c ≡ ok result
      → Pays start left n o
      → Pays start left (n + 1) (some result.1)
  Pays-submit n clock reply result (known e) t h (paid now found spent) =
      let same : now ≡ _ = some-injective _ _ (sym found ∙ e) in
      paid result.1 refl
        (HasSpent-submit m hm clock reply result (subst (HasSpent m _ _ n) same spent) t h)
  Pays-submit n clock reply result (newly_made options now absent e _ _ _) t h
        (paid c found spent) =
      absurd (cc (absent, found))

  Pays-result :
      {start left n : ℕ} {o : Option (Counters F)}
      → Pays start left n o
      → (c' : Counters F) × (bucket' : IsBucket m c') × (o ≡ some c')
        × (n * (period_of m * 1000) + bucket'.left * (period_of m * 1000) + start
            ≤ left * (period_of m * 1000) + micros c'.ts + n * 999)
  Pays-result (paid now found spent) = (now, spent.bucket, found, spent.spent)

  -- Whatever scans of a backend begin, go on, begin again at a later time and end, in any order
  -- and of any users: if a user's counters have between 0 tokens and the user's limit, which is at
  -- most 1000 requests a second, and the clock runs on for the user (at most 2 ^ 40 microseconds
  -- (12 days) lie between a request of the user and the next, and pg_usleep sleeps at least as
  -- long as asked and less than 2 ^ 38 microseconds longer, with three rounds of the loop to
  -- make), then the counters stay so, and the queries that the service is sent for the user's
  -- scans are at most the tokens at the beginning and one for each period of the time that has
  -- passed, where a period counts for a millisecond less than it is.
  pub Runs-within_rate :
      {b b' : Backend W} {n : ℕ} (c : Counters F) (bucket : IsBucket m c)
      → H.find (table_of H b.hash) u ≡ some c
      → Runs W u m b n b'
      → (c' : Counters F) × (bucket' : IsBucket m c') × (H.find (table_of H b'.hash) u ≡ some c')
        × (n * (period_of m * 1000) + bucket'.left * (period_of m * 1000) + micros c.ts
            ≤ bucket.left * (period_of m * 1000) + micros c'.ts + n * 999)
  Runs-within_rate {b} {b'} c bucket found r =
      let (k, _) =
        Runs-Keeps W laws u m b.started (Pays (micros c.ts) bucket.left)
          (λ n clock reply o c' result now t h p. Pays-submit n clock reply result now t h p) refl r
          (record { holds = paid c found (HasSpent-start m bucket (omega arith)) }) in
      Pays-result k.holds

module _ (W : World) (laws : IsMap W.htab) (u k : ℕ) (some_limit : 0 < k)
    (hm : IsLimit (pos k)) where
  open W use {htab as H, floating as F, cjson as J}

  -- The user has sent no request, or is in the table with counters that have paid for all of them.
  data Starts (start n : ℕ) (o : Option (Counters F)) : Type 0 where
    absent : o ≡ none → n ≡ 0 → Starts start n o
    present : (now : Counters F) → o ≡ some now → HasSpent (pos k) start k n now → Starts start n o

  Starts-submit :
      {start : ℕ} {o : Option (Counters F)} {c : Counters F} (n : ℕ) (clock : Readings)
      (reply : Bool × Response J) (result : Bool × Counters F × Response J)
      → Current (pos k) start o c
      → IsTimely clock c
      → submit_answered clock reply (pos k) c ≡ ok result
      → Starts start n o
      → Starts start (n + 1) (some result.1)
  Starts-submit n clock reply result (known e) t h (present now found spent) =
      let same : now ≡ _ = some-injective _ _ (sym found ∙ e) in
      present result.1 refl (
        HasSpent-submit (pos k) hm clock reply result (subst (HasSpent (pos k) _ _ n) same spent) t
          h)
  Starts-submit n clock reply result (known e) t h (absent e' none_sent) = absurd (cc (e, e'))
  Starts-submit n clock reply result (newly_made options now e _ _ _ _) t h
        (present c found spent) =
      absurd (cc (e, found))
  Starts-submit {start} {c = c} n clock reply result
        (newly_made options now e made limit canonical after) t h (absent e' none_sent) =
      let new = new_counters {F = F} options now in
      let paid : HasSpent (pos k) start k 0 new = record {
        bucket = record {
          left = k;
          tokens = limit;
          within = positive_limit k some_limit;
          canonical = canonical;
        };
        spent = omega (arith, after);
      } in
      let paid' : HasSpent (pos k) start k n c =
        subst (λ (x : ℕ × Counters F). HasSpent (pos k) start k x.0 x.1) (cc (none_sent, made))
          paid in
      present result.1 refl (HasSpent-submit (pos k) hm clock reply result paid' t h)

  Starts-result :
      {start n : ℕ} {o : Option (Counters F)}
      → Starts start n o
      → ((n ≡ 0) × (o ≡ none))
        ⊎ ((c' : Counters F) × (bucket' : IsBucket (pos k) c') × (o ≡ some c')
            × (n * (period_of (pos k) * 1000) + bucket'.left * (period_of (pos k) * 1000) + start
                ≤ k * (period_of (pos k) * 1000) + micros c'.ts + n * 999))
  Starts-result (absent e none_sent) = inl (none_sent, e)
  Starts-result (present now found spent) = inr (now, spent.bucket, found, spent.spent)

  -- A backend has started at a time at which a user, with a limit of 1 to 1000 requests a second,
  -- has no counters. Whatever scans of whatever users it begins, goes on with, begins again at a
  -- later time and ends, while the clock runs on for the user: at most 2 ^ 40 microseconds (12
  -- days) lie between a request of the user and the next, and pg_usleep sleeps at least as long as
  -- asked and less than 2 ^ 38 microseconds longer, with three rounds of the loop to make. Then
  -- the queries that the service has been sent for the user's scans are none, or the user has
  -- counters, with between 0 tokens and the limit, and those queries are at most the limit and one
  -- for each period of the time from the start to the last of them, where a period counts for a
  -- millisecond less than it is.
  pub Runs-from_start :
      {b b' : Backend W} {n : ℕ}
      → H.find (table_of H b.hash) u ≡ none
      → Runs W u (pos k) b n b'
      → ((n ≡ 0) × (H.find (table_of H b'.hash) u ≡ none))
        ⊎ ((c' : Counters F) × (bucket' : IsBucket (pos k) c') × (H.find (table_of H b'.hash) u
              ≡ some c')
            × (n * (period_of (pos k) * 1000)
                  + bucket'.left * (period_of (pos k) * 1000)
                  + b.started
                ≤ k * (period_of (pos k) * 1000) + micros c'.ts + n * 999))
  Runs-from_start {b} none_found r =
      let (kept, _) =
        Runs-Keeps W laws u (pos k) b.started (Starts b.started)
          (λ n clock reply o c' result now t h p. Starts-submit n clock reply result now t h p) refl
          r (record { holds = absent none_found refl }) in
      Starts-result kept.holds
