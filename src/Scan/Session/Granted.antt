-- ===== src/Scan/Session/Granted.antt =====
-- The requests of a user in a backend as grants of a token bucket.
use ocgeo_fdw.Prelude.{
  ℕ, ◌+◌, ◌*◌, ◌≤◌, ◌<◌, ◌⊎◌, inl, inr, ◌≡◌, refl, sym, ap, ◌∙◌, Bool, Option, some, none, arith,
}
use ocgeo_fdw.Prelude.Int.{pos}
use mathlib.Core.Path.{subst}
use mathlib.Core.Option.{some-injective}
use ocgeo_fdw.Prelude.Exec.{ok}
use ocgeo_fdw.Foreign.{Floating}
use ocgeo_fdw.Api.Types.{Response}
use ocgeo_fdw.Limiter.{Counters, Readings, period_of, max_reqs_per_sec, submit_answered}
use ocgeo_fdw.Limiter.Clock.{micros}
use ocgeo_fdw.Limiter.Budget.{IsLimit, IsBucket, IsTimely}
use ocgeo_fdw.Limiter.Bucket.{Bucket, Granted, none_granted, one_granted, bucket_of, submit-Grants}
use ocgeo_fdw.Stats.{IsMap, table_of}
use ocgeo_fdw.Stats.Users.{positive_limit}
use ocgeo_fdw.World.{World}
use ocgeo_fdw.Scan.Session.{Backend, Runs}
use ocgeo_fdw.Scan.Session.Users.{Current, known, newly_made, Runs-Keeps}

-- A bucket that is full at a time.
abbrev pub full_at : ℕ → ℕ → Bucket
full_at k time = record { level = k; at = time }

-- So many requests were granted, under a limit, since a time at which the bucket was full.
abbrev pub IsGranted : {F : Floating} (k time n : ℕ) (c : Counters F) → IsBucket (pos k) c → Type 0
IsGranted k time n c bucket =
    Granted (period_of (pos k) * 1000) (max_reqs_per_sec (pos k)) (full_at k time) n
      (bucket_of c bucket)

module _ (W : World) (laws : IsMap W.htab) (u k : ℕ) (some_limit : 0 < k)
    (hm : IsLimit (pos k)) where
  open W use {htab as H, floating as F, cjson as J}

  data Grantable (start n : ℕ) (o : Option (Counters F)) : Type 0 where
    absent : o ≡ none → n ≡ 0 → Grantable start n o
    present :
        (time : ℕ) (now : Counters F) (bucket : IsBucket (pos k) now)
        → start ≤ time
        → o ≡ some now
        → IsGranted k time n now bucket
        → Grantable start n o

  -- One more grant, from counters that have had some.
  Grantable-next :
      {start : ℕ} (time n : ℕ) (clock : Readings) (reply : Bool × Response J) (c : Counters F)
      (bucket : IsBucket (pos k) c) (result : Bool × Counters F × Response J)
      → start ≤ time
      → IsGranted k time n c bucket
      → IsTimely clock c
      → submit_answered clock reply (pos k) c ≡ ok result
      → Grantable start (n + 1) (some result.1)
  Grantable-next {start} time n clock reply c bucket result after granted t h =
      let (bucket', grant) =
        submit-Grants (pos k) clock reply hm bucket t {answered = result.0} {after = result.1}
          {response = result.2} h in
      subst (λ x. Grantable start x (some result.1)) (omega arith)
        (present time result.1 bucket' after refl (one_granted granted grant))

  Grantable-submit :
      {start : ℕ} {o : Option (Counters F)} {c : Counters F} (n : ℕ) (clock : Readings)
      (reply : Bool × Response J) (result : Bool × Counters F × Response J)
      → Current (pos k) start o c
      → IsTimely clock c
      → submit_answered clock reply (pos k) c ≡ ok result
      → Grantable start n o
      → Grantable start (n + 1) (some result.1)
  Grantable-submit n clock reply result (known e) t h
        (present time now bucket after found granted) =
      let same : now ≡ _ = some-injective _ _ (sym found ∙ e) in
      Grantable-next time n clock reply now bucket result after granted (rw same t) (rw same h)
  Grantable-submit n clock reply result (known e) t h (absent e' none_sent) = absurd (cc (e, e'))
  Grantable-submit n clock reply result (newly_made options now e _ _ _ _) t h
        (present _ c _ _ found granted) =
      absurd (cc (e, found))
  Grantable-submit {start} {c = c} n clock reply result
        (newly_made options now e made limit canonical after) t h (absent e' none_sent) =
      let tokens : c.tokens ≡ pos k = ap (λ (x : Counters F). x.tokens) made ∙ limit in
      let time : c.ts ≡ now = ap (λ (x : Counters F). x.ts) made in
      let bucket : IsBucket (pos k) c = record {
        left = k;
        tokens = tokens;
        within = positive_limit k some_limit;
        canonical = rw time canonical;
      } in
      Grantable-next (micros c.ts) n clock reply c bucket result (rw time after)
        (rw none_sent none_granted) t h

  Grantable-result :
      {start n : ℕ} {o : Option (Counters F)}
      → Grantable start n o
      → ((n ≡ 0) × (o ≡ none))
        ⊎ ((time : ℕ) × (c' : Counters F) × (bucket' : IsBucket (pos k) c') × (o ≡ some c')
            × (start ≤ time)
            × IsGranted k time n c' bucket')
  Grantable-result (absent e none_sent) = inl (none_sent, e)
  Grantable-result (present time now bucket after found granted) =
      inr (time, now, bucket, found, after, granted)

  -- A backend has started at a time at which a user, with a limit of 1 to 1000 requests a second,
  -- has no counters. Whatever scans of whatever users it begins, goes on with, begins again at a
  -- later time and ends, while the clock runs on for the user (at most 2 ^ 40 microseconds (12
  -- days) lie between a request of the user and the next, and pg_usleep sleeps at least as long as
  -- asked and less than 2 ^ 38 microseconds longer, with three rounds of the loop to make): the
  -- service has been sent no query for the user's scans, or as many as there are grants in a row,
  -- up to the user's counters now, of one bucket with the capacity of the limit that gains one in
  -- each period and was full at some time since the start.
  pub Runs-Granted :
      {b b' : Backend W} {n : ℕ}
      → H.find (table_of H b.hash) u ≡ none
      → Runs W u (pos k) b n b'
      → ((n ≡ 0) × (H.find (table_of H b'.hash) u ≡ none))
        ⊎ ((time : ℕ) × (c' : Counters F) × (bucket' : IsBucket (pos k) c') × (H.find
                (table_of H b'.hash)
                u
              ≡ some c')
            × (b.started ≤ time)
            × IsGranted k time n c' bucket')
  Runs-Granted {b} none_found r =
      let (kept, _) =
        Runs-Keeps W laws u (pos k) b.started (Grantable b.started)
          (λ n clock reply o c' result now t h p. Grantable-submit n clock reply result now t h p)
          refl r (record { holds = absent none_found refl }) in
      Grantable-result kept.holds
