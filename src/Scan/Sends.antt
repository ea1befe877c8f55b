-- ===== src/Scan/Sends.antt =====
-- The request that a scan sends as it begins, and what it leaves.
use ocgeo_fdw.Prelude.{
  ℕ, ◌≡◌, ◌≢◌, refl, sym, ap, ◌∙◌, Bool, false, Option, none, some, String, List, [], ◌∷◌, arith,
  if◌then◌else◌,
}
use mathlib.Core.Path.{subst}
use mathlib.Core.Option.{some-injective}
use ocgeo_fdw.Prelude.Exec.{ok, >>=-eq-ok, ok-injective}
use ocgeo_fdw.Api.Types.{Response, chain, zero_response}
use ocgeo_fdw.Api.Request.{forward}
use ocgeo_fdw.Limiter.{Counters, submit_request_with_rate_limiter}
use ocgeo_fdw.Limiter.Outcome.{submit-once}
use ocgeo_fdw.Stats.{IsMap, table_of, get_counters}
use ocgeo_fdw.Stats.Users.{get_counters_lem}
use ocgeo_fdw.World.{World}
use ocgeo_fdw.Scan.{
  opened, ScanState, Plan, nothing_pushed, prepared, apply_quals, collect_quals, scan_params,
  options_of, client_of, service_of, submit_query, after_query, send_query, query_if_any,
  begin_foreign_scan,
}

none-some : {A : Type 0} {a : A} → none ≡ some a → ⊥
none-some h = cc

module _ (W : World) where
  open W use {floating as F, cjson as J, sds as S, curl as C, htab as H}

  -- One request by way of the limiter, with the query, the least confidence and the counters of the
  -- user. The response is kept, its results are gone through if the request was answered, and the
  -- new counters of the user are in the table, in which those of the others stay.
  pub record Sends (plan : Plan W) (hash : Option H.Table) (query : String) (s : ScanState W)
      (hash' : Option H.Table) : Type 0 where
    pub answered : Bool
    pub stats : Counters F
    pub request :
        submit_request_with_rate_limiter plan.clock
          (service_of W plan query s.min_confidence (zero_response J))
          (options_of W plan).max_reqs_sec
          (get_counters H hash (options_of W plan) plan.now).1
          plan.sent
        ≡ ok ((answered, stats, s.response), s.sent)
    pub sent_once : s.sent ≡ query ∷ plan.sent
    pub client : s.api ≡ opened (client_of W plan)
    pub results : s.cursor ≡ (if answered then s.response.results else chain [])
    pub table : H.Table
    pub stored : hash' ≡ some table
    pub own : H.find table (options_of W plan).user_id ≡ some stats
    pub others :
        (k : ℕ) → (options_of W plan).user_id ≢ k → H.find table k ≡ H.find (table_of H hash) k

  after_query-Sends :
      (m : IsMap H) (plan : Plan W) (hash : Option H.Table) (s : ScanState W) (query : String)
      (answered : Bool) (stats : Counters F) (response : Response J) (sent : List String)
      → s.response ≡ zero_response J
      → s.sent ≡ plan.sent
      → submit_query W plan hash s query ≡ ok ((answered, stats, response), sent)
      → let (s', hash') = after_query W plan hash s ((answered, stats, response), sent) in
        Sends plan hash query s' hash'
  unfolding submit_query
  after_query-Sends m plan hash s query answered stats response sent fresh before_it e =
      let user = (options_of W plan).user_id in
      let (t, c) = get_counters H hash (options_of W plan) plan.now in
      let before = get_counters_lem m hash (options_of W plan) plan.now in
      let (reply, once, _) = submit-once plan.clock _ _ c s.sent e in
      let (_, _, logged) =
        >>=-eq-ok
          (forward J S C (client_of W plan) query (some (scan_params W s.min_confidence))
            s.response)
          _ once in
      record {
        answered = answered;
        stats = stats;
        request = rw (← fresh, ← before_it) e;
        sent_once =
            ap (λ (x : (Bool × Response J) × List String). x.1) (sym (ok-injective logged))
            ∙ ap (λ l. query ∷ l) before_it;
        client = refl;
        results = refl;
        table = H.enter t user stats;
        stored = refl;
        own = ground (arith, m.find_enter t user user stats);
        others = λ k h. ground (arith, m.find_enter t user k stats, before.3 k h);
      }

  send_query-Sends :
      (m : IsMap H) (plan : Plan W) (hash : Option H.Table) (s : ScanState W) (q query : String)
      {s' : ScanState W} {hash' : Option H.Table}
      → s.response ≡ zero_response J
      → s.sent ≡ plan.sent
      → s.qual_value ≡ some q
      → send_query W plan hash s q ≡ ok (s', hash')
      → s'.qual_value ≡ some query
      → Sends plan hash query s' hash'
  unfolding send_query
  send_query-Sends m plan hash s q query {s'} {hash'} fresh before value h asked =
      let (((answered, stats, response), sent), e, e') =
        >>=-eq-ok (submit_query W plan hash s q) _ h in
      let done = ok-injective e' in
      let same : q ≡ query =
        some-injective q query
          (sym value ∙ ap (λ (x : ScanState W × Option H.Table). x.0.qual_value) done ∙ asked) in
      subst (λ t. Sends plan hash t s' hash') same
        (subst (λ (x : ScanState W × Option H.Table). Sends plan hash q x.0 x.1) done
          (after_query-Sends m plan hash s q answered stats response sent fresh before e))

  query_if_any-Sends :
      (m : IsMap H) (plan : Plan W) (hash : Option H.Table) (s : ScanState W)
      (value : Option String) (query : String) {s' : ScanState W} {hash' : Option H.Table}
      → s.response ≡ zero_response J
      → s.sent ≡ plan.sent
      → s.qual_value ≡ value
      → query_if_any W plan false hash s value ≡ ok (s', hash')
      → s'.qual_value ≡ some query
      → Sends plan hash query s' hash'
  query_if_any-Sends m plan hash s none query fresh before value h asked = absurd (
      none-some (
        sym value
        ∙ ap (λ (x : ScanState W × Option H.Table). x.0.qual_value) (ok-injective h)
        ∙ asked))
  query_if_any-Sends m plan hash s (some q) query fresh before value h asked =
      send_query-Sends m plan hash s q query fresh before value h asked

  -- A scan that begins, is not only explained and has a query sends exactly one request by way of
  -- the limiter, after what was sent before it, with that query, its least confidence and the counters of its user. Its response is
  -- what came back, its results are those of an answered request and none of a failed one, the
  -- counters that the limiter returned are in the table for the user, and the counters of every
  -- other user stay.
  pub begin_foreign_scan-Sends :
      (m : IsMap H) (plan : Plan W) (hash : Option H.Table) (query : String) {s : ScanState W}
      {hash' : Option H.Table}
      → begin_foreign_scan W plan false hash ≡ ok (s, hash')
      → s.qual_value ≡ some query
      → Sends plan hash query s hash'
  unfolding begin_foreign_scan
  begin_foreign_scan-Sends m plan hash query h asked =
      let (quals, collected, h₁) =
        >>=-eq-ok (collect_quals W plan.scanrelid plan.fdw_exprs []) _ h in
      let (p, pushed, h₂) = >>=-eq-ok (apply_quals W plan.params quals (nothing_pushed W)) _ h₁ in
      let ready = prepared W plan p in
      query_if_any-Sends m plan hash ready ready.qual_value query refl refl refl h₂ asked
