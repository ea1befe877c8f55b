-- ===== src/Stats/Users.antt =====
-- The table of counters, user by user.
use ocgeo_fdw.Prelude.{
  ap, ℕ, zero, suc, ◌<◌, ◌≤◌, ◌≡◌, ◌≢◌, refl, Option, none, some, inl, inr, Option-cases, arith,
}
use ocgeo_fdw.Prelude.Int.{pos}
use ocgeo_fdw.Foreign.{Floating}
use ocgeo_fdw.Limiter.{Timeval, Counters, max_reqs_per_sec}
use ocgeo_fdw.Limiter.Clock.{IsCanonical}
use ocgeo_fdw.Limiter.Budget.{IsBucket}
use ocgeo_fdw.Options.{TableOptions}
use ocgeo_fdw.Stats.{Htab, IsMap, new_counters, table_of, get_counters}

-- The counters of the user are those in the table; a user that is not there gets new ones;
-- and the counters of every other user stay.
pub get_counters_lem :
    {F : Floating} {H : Htab F}
    → IsMap H
    → (hash : Option H.Table) (options : TableOptions) (now : Timeval)
    → let (t, c) = get_counters H hash options now in
      (H.find t options.user_id ≡ some c)
      × (H.find (table_of H hash) options.user_id ≡ none → c ≡ new_counters options now)
      × ((old : Counters F) → H.find (table_of H hash) options.user_id ≡ some old → c ≡ old)
      × ((k : ℕ) → options.user_id ≢ k → H.find t k ≡ H.find (table_of H hash) k)
unfolding get_counters
get_counters_lem {F} {H} m hash options now =
    let c = new_counters {F = F} options now in
    let t = table_of H hash in
    let same = m.find_enter t options.user_id options.user_id c in
    elim (Option-cases (H.find t options.user_id)) [
      | inl new ↦
          rw (new, get_counters)
            (
              ground (arith, same),
              λ _. refl,
              λ old h. cc,
              λ k h. ground (arith, m.find_enter t options.user_id k c),
            )
      | inr (old, found) ↦ rw (found, get_counters) (found, λ h. cc, λ old' h. cc, λ k h. refl)
    ]

-- The counters that a user has before the first call: none is counted, there are as many tokens as
-- the option `max_reqs_sec` says, and time counts from now.
pub record IsNew {F : Floating} (options : TableOptions) (now : Timeval) (c : Counters F)
    : Type 0 where
  pub calls : c.calls ≡ pos 0
  pub success_calls : c.success_calls ≡ pos 0
  pub total_time : c.total_time ≡ F.of_long (pos 0)
  pub tokens : c.tokens ≡ options.max_reqs_sec
  pub ts : c.ts ≡ now

new_counters-IsNew :
    {F : Floating} (options : TableOptions) (now : Timeval) (c : Counters F)
    → c ≡ new_counters options now
    → IsNew options now c
new_counters-IsNew options now c e = record {
  calls = ap (λ (x : Counters _). x.calls) e;
  success_calls = ap (λ (x : Counters _). x.success_calls) e;
  total_time = ap (λ (x : Counters _). x.total_time) e;
  tokens = ap (λ (x : Counters _). x.tokens) e;
  ts = ap (λ (x : Counters _). x.ts) e;
}

-- After a look-up the user is in the table with the counters that are returned: those that were
-- there, or, where there were none, new ones with nothing counted, as many tokens as the option
-- `max_reqs_sec` says, and the time from now. The counters of every other user stay.
pub get_counters-IsNew :
    {F : Floating} {H : Htab F}
    → IsMap H
    → (hash : Option H.Table) (options : TableOptions) (now : Timeval)
    → let (t, c) = get_counters H hash options now in
      (H.find t options.user_id ≡ some c)
      × (H.find (table_of H hash) options.user_id ≡ none → IsNew options now c)
      × ((old : Counters F) → H.find (table_of H hash) options.user_id ≡ some old → c ≡ old)
      × ((k : ℕ) → options.user_id ≢ k → H.find t k ≡ H.find (table_of H hash) k)
get_counters-IsNew m hash options now =
    let (own, new, old, others) = get_counters_lem m hash options now in
    (own, λ h. new_counters-IsNew options now _ (new h), old, others)

pub positive_limit : (n : ℕ) → 0 < n → n ≤ max_reqs_per_sec (pos n)
unfolding max_reqs_per_sec
positive_limit zero h = absurd (omega arith)
positive_limit (suc n) h = omega arith

-- New counters of a user with a limit of 1 or more, made at a canonical time, satisfy the limiter's
-- invariant: their tokens are between 0 and the limit.
new_counters-IsBucket :
    {F : Floating} (options : TableOptions) (now : Timeval) (n : ℕ)
    → options.max_reqs_sec ≡ pos n
    → 0 < n
    → IsCanonical now
    → IsBucket options.max_reqs_sec (new_counters {F = F} options now)
new_counters-IsBucket options now n e h canonical = record {
  left = n;
  tokens = e;
  within = rw e (positive_limit n h);
  canonical = canonical;
}
