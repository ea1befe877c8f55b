-- ===== src/Scan/Life.antt =====
-- The life of a scan's client, over the beginning, rescans and the end of a scan.
use ocgeo_fdw.Prelude.{◌≡◌, refl, sym, ap, ◌∙◌, [], Bool, true, false, Option, none, some, String}
use ocgeo_fdw.Prelude.Exec.{ok, >>=-eq-ok, ok-injective}
use ocgeo_fdw.Api.Request.{Api}
use ocgeo_fdw.World.{World}
use ocgeo_fdw.Scan.{
  ApiPointer, null, opened, freed, ScanState, Plan, nothing_pushed, prepared, apply_quals,
  collect_quals, close, client_of, submit_query, send_query, query_if_any, begin_foreign_scan,
  end_foreign_scan, rescan_foreign_scan,
}

module _ (W : World) where
  open W use {sds as S, htab as H}

  -- A scan has no client, or one that is open: that of its options.
  pub data Owns (plan : Plan W) (s : ScanState W) : Type 0 where
    no_client : s.api ≡ null → Owns plan s
    one_client : s.api ≡ opened (client_of W plan) → Owns plan s

  send_query-Owns :
      (plan : Plan W) (hash : Option H.Table) (s : ScanState W) (query : String) {s' : ScanState W}
      {hash' : Option H.Table}
      → send_query W plan hash s query ≡ ok (s', hash')
      → Owns plan s'
  unfolding send_query
  send_query-Owns plan hash s query h =
      let (r, e, e') = >>=-eq-ok (submit_query W plan hash s query) _ h in
      one_client (ap (λ (x : ScanState W × Option H.Table). x.0.api) (sym (ok-injective e')))

  query_if_any-Owns :
      (plan : Plan W) (explain_only : Bool) (hash : Option H.Table) (s : ScanState W)
      (value : Option String) {s' : ScanState W} {hash' : Option H.Table}
      → s.api ≡ null
      → query_if_any W plan explain_only hash s value ≡ ok (s', hash')
      → Owns plan s'
  query_if_any-Owns plan true hash s value idle h =
      no_client (ap (λ (x : ScanState W × Option H.Table). x.0.api) (sym (ok-injective h)) ∙ idle)
  query_if_any-Owns plan false hash s none idle h =
      no_client (ap (λ (x : ScanState W × Option H.Table). x.0.api) (sym (ok-injective h)) ∙ idle)
  query_if_any-Owns plan false hash s (some query) idle h = send_query-Owns plan hash s query h

  pub begin_foreign_scan-Owns :
      (plan : Plan W) (explain_only : Bool) (hash : Option H.Table) {s : ScanState W}
      {hash' : Option H.Table}
      → begin_foreign_scan W plan explain_only hash ≡ ok (s, hash')
      → Owns plan s
  unfolding begin_foreign_scan
  begin_foreign_scan-Owns plan explain_only hash h =
      let (quals, collected, h₁) =
        >>=-eq-ok (collect_quals W plan.scanrelid plan.fdw_exprs []) _ h in
      let (p, pushed, h₂) = >>=-eq-ok (apply_quals W plan.params quals (nothing_pushed W)) _ h₁ in
      let ready = prepared W plan p in
      query_if_any-Owns plan explain_only hash ready ready.qual_value refl h₂

  pub close-Owns :
      (plan : Plan W) (s : ScanState W)
      → Owns plan s
      → (api : ApiPointer (Api S)) × (close W s.api ≡ ok api)
  close-Owns plan s (no_client e) = (null, rw e refl)
  close-Owns plan s (one_client e) = (freed, rw e refl)

  -- A scan that has begun can be ended, with its client given back, and nothing else of it
  -- changes; and a rescan of it is a scan begun anew, which keeps the counters.
  pub begin_foreign_scan-ends :
      (plan : Plan W) (explain_only : Bool) (hash : Option H.Table) {s : ScanState W}
      {hash' : Option H.Table}
      → begin_foreign_scan W plan explain_only hash ≡ ok (s, hash')
      → ((api : ApiPointer (Api S)) × (close W s.api ≡ ok api)
          × (end_foreign_scan W s ≡ ok (record s { api = api })))
        × (rescan_foreign_scan W plan s hash' ≡ begin_foreign_scan W plan false hash')
  unfolding end_foreign_scan rescan_foreign_scan
  begin_foreign_scan-ends plan explain_only hash {s} h =
      let (api, closed) = close-Owns plan s (begin_foreign_scan-Owns plan explain_only hash h) in
      ((api, closed, rw closed refl), rw closed refl)
