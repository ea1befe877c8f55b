-- ===== src/Scan/Session/Users.antt =====
-- What holds of a user's counters from request to request, whatever scans of other users run in
-- between.
use mathlib.Core.Path.{subst}
use ocgeo_fdw.Prelude.{
  ◌⊎◌, List, length, ◌-◌, ℕ, ◌+◌, ◌≡◌, ◌≢◌, refl, sym, ap, ◌≤◌, ◌∙◌, inl, inr, ◌==◌, Bool, true,
  false, Bool-cases, Option, none, some, Option-cases, String, arith, ==_iff,
}
use ocgeo_fdw.Prelude.Int.{ℤ}
use ocgeo_fdw.Prelude.Exec.{ok, >>=-eq-ok}
use ocgeo_fdw.Foreign.{Floating, Cjson}
use ocgeo_fdw.Api.Types.{Response}
use ocgeo_fdw.Limiter.Outcome.{submit-once}
use ocgeo_fdw.Limiter.{
  Forward, Timeval, Counters, Readings, submit_answered, submit_request_with_rate_limiter,
}
use ocgeo_fdw.Limiter.Clock.{micros, IsCanonical}
use ocgeo_fdw.Limiter.Budget.{IsTimely}
use ocgeo_fdw.Options.{TableOptions}
use ocgeo_fdw.Stats.{IsMap, table_of, new_counters, get_counters}
use ocgeo_fdw.Stats.Users.{get_counters_lem}
use ocgeo_fdw.World.{World}
use ocgeo_fdw.Scan.{
  ScanState, Plan, options_of, begin_foreign_scan, rescan_foreign_scan, end_foreign_scan,
}
use ocgeo_fdw.Scan.Begin.{begin_foreign_scan-Begun}
use ocgeo_fdw.Scan.Sends.{Sends, begin_foreign_scan-Sends}
use ocgeo_fdw.Scan.Session.{
  Backend, Regular, requests_of, Step, begins, iterates, rescans, ends, Runs, idle, more,
}

module _ {F : Floating} {J : Cjson F} where
  submit-replied :
      (clock : Readings) (forward : Forward J) (l m : ℤ) (c : Counters F) (sent : List String)
      {result : Bool × Counters F × Response J} {sent' : List String}
      → l ≡ m
      → submit_request_with_rate_limiter clock forward l c sent ≡ ok (result, sent')
      → (reply : Bool × Response J) × (submit_answered clock reply m c ≡ ok result)
  submit-replied clock forward l m c sent e h =
      let (reply, _, answer) = submit-once clock forward l c sent h in (reply, cc (e, answer))

-- The counters that a request of a user starts from: those found in the table, or new ones.
pub data Current {F : Floating} (m : ℤ) (started : ℕ) (o : Option (Counters F)) (c : Counters F)
    : Type 0 where
  known : o ≡ some c → Current m started o c
  newly_made :
      (options : TableOptions) (now : Timeval)
      → o ≡ none
      → c ≡ new_counters options now
      → options.max_reqs_sec ≡ m
      → IsCanonical now
      → started ≤ micros now
      → Current m started o c

module _ (W : World) (laws : IsMap W.htab) (u : ℕ) (m : ℤ) (started : ℕ)
    (R : ℕ → Option (Counters W.floating) → Type 0)
    (step : (n : ℕ) (clock : Readings) (reply : Bool × Response W.cjson)
        (o : Option (Counters W.floating)) (c : Counters W.floating)
        (result : Bool × Counters W.floating × Response W.cjson)
      → Current m started o c
      → IsTimely clock c
      → submit_answered clock reply m c ≡ ok result
      → R n o
      → R (n + 1) (some result.1)) where
  open W use {htab as H, floating as F}

  -- `R` holds of what the table has for the user after `n` requests.
  pub record Keeps (n : ℕ) (hash : Option H.Table) : Type 0 where
    pub holds : R n (H.find (table_of H hash) u)

  Keeps-same :
      {n n' : ℕ} {hash hash' : Option H.Table}
      → n ≡ n'
      → hash ≡ hash'
      → Keeps n hash
      → Keeps n' hash'
  Keeps-same e e' k = subst (λ (x : ℕ × Option H.Table). Keeps x.0 x.1) (cc (e, e')) k

  current :
      (plan : Plan W) (hash : Option H.Table)
      → Regular W u m plan started hash
      → (options_of W plan).user_id ≡ u
      → Current m started
          (H.find (table_of H hash) u)
          (get_counters H hash (options_of W plan) plan.now).1
  current plan hash regular e =
      let (_, new, old, _) = get_counters_lem laws hash (options_of W plan) plan.now in
      elim (Option-cases (H.find (table_of H hash) u)) [
        | inl absent ↦
            newly_made (options_of W plan) plan.now absent (new (rw e absent)) (regular.limit e)
              (regular.canonical e) (regular.after_start e)
        | inr (c, found) ↦ known (found ∙ ap some (sym (old c (rw e found))))
      ]

  -- The user's own request.
  Keeps-own :
      {n : ℕ} (plan : Plan W) (hash : Option H.Table) (query : String) {s : ScanState W}
      {hash' : Option H.Table}
      → Regular W u m plan started hash
      → Sends W plan hash query s hash'
      → (options_of W plan).user_id ≡ u
      → Keeps n hash
      → Keeps (n + 1) hash'
  Keeps-own {n} plan hash query {s} {hash'} regular sent e k =
      let c = (get_counters H hash (options_of W plan) plan.now).1 in
      let (reply, called) = submit-replied plan.clock _ _ m c _ (regular.limit e) sent.request in
      let found : H.find (table_of H hash') u ≡ some sent.stats =
        rw sent.stored (rw e at sent.own) in
      record {
        holds = subst (R (n + 1)) (sym found) (
            step n plan.clock reply _ c (sent.answered, sent.stats, s.response)
              (current plan hash regular e) (regular.timely e) called k.holds);
      }

  -- The request of another user.
  Keeps-other :
      {n : ℕ} (plan : Plan W) (hash : Option H.Table) (query : String) {s : ScanState W}
      {hash' : Option H.Table}
      → Sends W plan hash query s hash'
      → (options_of W plan).user_id ≢ u
      → Keeps n hash
      → Keeps n hash'
  Keeps-other {n} plan hash query {hash' = hash'} sent apart k =
      let same : H.find (table_of H hash') u ≡ H.find (table_of H hash) u =
        rw sent.stored (sent.others u apart) in
      record { holds = subst (R n) (sym same) k.holds }

  Keeps-Sends :
      {n : ℕ} (plan : Plan W) (hash : Option H.Table) (query : String) {s : ScanState W}
      {hash' : Option H.Table}
      → Regular W u m plan started hash
      → Sends W plan hash query s hash'
      → Keeps n hash
      → Keeps (n + requests_of W u plan s) hash'
  Keeps-Sends plan hash query {s} regular sent k =
      let user = (options_of W plan).user_id in
      let one : length s.sent - length plan.sent ≡ 1 = rw sent.sent_once (omega arith) in
      elim (Bool-cases (user == u)) [
        | inl own ↦ rw (own, one) (Keeps-own plan hash query regular sent ((==_iff user u).0 own) k)
        | inr other ↦ rw other (
            Keeps-same (omega arith) refl
              (Keeps-other plan hash query sent (λ e. absurd (cc (other, (==_iff user u).1 e))) k))
      ]

  -- A scan that sends no request.
  Keeps-unsent :
      {n : ℕ} (plan : Plan W) (explain_only : Bool) (hash : Option H.Table) {s : ScanState W}
      {hash' : Option H.Table}
      → begin_foreign_scan W plan explain_only hash ≡ ok (s, hash')
      → (explain_only ≡ true) ⊎ (s.qual_value ≡ none)
      → Keeps n hash
      → Keeps (n + requests_of W u plan s) hash'
  Keeps-unsent plan explain_only hash {s} h unsent k =
      let (_, _, logged, same) =
        (begin_foreign_scan-Begun W plan explain_only hash h).no_request unsent in
      let none_sent : requests_of W u plan s ≡ 0 = rw logged (ground arith) in
      Keeps-same (rw none_sent (omega arith)) (sym same) k

  Keeps-begins :
      {n : ℕ} (plan : Plan W) (explain_only : Bool) (hash : Option H.Table) {s : ScanState W}
      {hash' : Option H.Table}
      → Regular W u m plan started hash
      → begin_foreign_scan W plan explain_only hash ≡ ok (s, hash')
      → Keeps n hash
      → Keeps (n + requests_of W u plan s) hash'
  Keeps-begins plan true hash {s} regular h k = Keeps-unsent plan true hash h (inl refl) k
  Keeps-begins plan false hash {s} regular h k = elim (Option-cases s.qual_value) [
    | inl none_given ↦ Keeps-unsent plan false hash h (inr none_given) k
    | inr (query, given) ↦
        Keeps-Sends plan hash query regular
          (begin_foreign_scan-Sends W laws plan hash query h given) k
  ]

  Step-Keeps :
      {n k : ℕ} {b b' : Backend W}
      → b.started ≡ started
      → Step W u m b k b'
      → Keeps n b.hash
      → Keeps (n + k) b'.hash
  unfolding rescan_foreign_scan
  Step-Keeps {b = b} e (begins plan explain_only s hash logged regular h) k =
      Keeps-begins plan explain_only _ (rw e at regular) h k
  Step-Keeps e (iterates natts plan s s' row before after e' h) k = Keeps-same (omega arith) refl k
  Step-Keeps e (rescans plan plan' s s' hash before after e' again logged regular h) k =
      let (ended, _, h') = >>=-eq-ok (end_foreign_scan W s) _ h in
      Keeps-begins plan' false _ (rw e at regular) h' k
  Step-Keeps e (ends plan s s' before after e' h) k = Keeps-same (omega arith) refl k

  Step-started : {k : ℕ} {b b' : Backend W} → Step W u m b k b' → b'.started ≡ b.started
  Step-started (begins plan explain_only s hash logged regular h) = refl
  Step-started (iterates natts plan s s' row before after e' h) = refl
  Step-started (rescans plan plan' s s' hash before after e' again logged regular h) = refl
  Step-started (ends plan s s' before after e' h) = refl

  -- What each request of the user carries on holds of the user's counters after any run.
  pub Runs-Keeps :
      {b : Backend W} {k : ℕ} {b' : Backend W}
      → b.started ≡ started
      → Runs W u m b k b'
      → Keeps 0 b.hash
      → Keeps k b'.hash × (b'.started ≡ started)
  Runs-Keeps e idle k = (k, e)
  Runs-Keeps e (more {n = n} r st) k =
      let (k', e') = Runs-Keeps e r k in (Step-Keeps e' st k', Step-started st ∙ e')
