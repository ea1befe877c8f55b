-- ===== src/Scan/Memory.antt =====
-- The memory of a scan (ocgeoBeginForeignScan, ocgeoReScanForeignScan, ocgeoEndForeignScan): what
-- it acquires from the client and what it gives back. What PostgreSQL allocates is freed with its
-- memory context and is not counted.
pub mod Released
mod Tests
use ocgeo_fdw.Prelude.{
  ◌⊎◌, ℕ, suc, ◌+◌, ◌≡◌, refl, ap, ◌∙◌, sym, Option, none, some, String, List, [], ◌∷◌, ◌++◌,
  length, arith, Bool, true, false,
}
use ocgeo_fdw.Prelude.Exec.{Exec, ok, >>=-eq-ok, ok-injective, ◌>>=◌}
use ocgeo_fdw.Api.Types.{Response, chain, zero_response}
use ocgeo_fdw.Api.Request.{Api, forward}
use ocgeo_fdw.Api.Memory.{
  Block, client, client_key, client_server, Event, releases, settle, init_events, close_events,
  forward_events,
}
use ocgeo_fdw.Api.Memory.Settled.{one, settle-++, settle-acquires, settle-releases, response_held}
use ocgeo_fdw.Limiter.Outcome.{submit-Counts}
use ocgeo_fdw.Stats.{get_counters}
use ocgeo_fdw.World.{World}
use ocgeo_fdw.Scan.Life.{Owns, no_client, one_client, begin_foreign_scan-Owns}
use ocgeo_fdw.Scan.{
  Again, ApiPointer, null, opened, freed, ScanState, Plan, Pushed, nothing_pushed, prepared,
  collect_quals, apply_quals, client_of, options_of, scan_params, submit_query, send_query,
  query_if_any, begin_foreign_scan, end_foreign_scan, rescan_foreign_scan,
}

module _ (W : World) where
  open W use {cjson as J, sds as S, curl as C, htab as H}

  -- What the client is called for when a scan begins, in a state that is prepared.
  abbrev pub query_events : Plan W → Bool → ScanState W → Option String → List Event
  query_events plan true s value = []
  query_events plan false s none = []
  query_events plan false s (some query) =
      init_events
      ++ forward_events J S C (client_of W plan) query (some (scan_params W s.min_confidence))
          s.response

  abbrev pub pushed_events : Plan W → Bool → Exec (Pushed W) → List Event
  pushed_events plan explain_only pushed = elim pushed [
    | ok p ↦ query_events plan explain_only (prepared W plan p) (prepared W plan p).qual_value
    | _ ↦ []
  ]

  unfoldable pub begin_events : Plan W → Bool → List Event
  begin_events plan explain_only = pushed_events plan explain_only (
      collect_quals W plan.scanrelid plan.fdw_exprs [] >>= λ quals.
      apply_quals W plan.params quals (nothing_pushed W))

  -- ocgeo_close of the scan's client.
  abbrev pub end_events : ApiPointer (Api S) → List Event
  end_events null = []
  end_events (opened api) = close_events
  end_events freed = close_events

  -- A beginning of a scan, and the state in which the scan was then.
  pub record Beginning : Type 0 where
    pub plan : Plan W
    pub explain_only : Bool
    pub state : ScanState W

  -- Whether the request of a beginning was answered: that is what the call of the service returned.
  pub data IsAnswer (x : Beginning) : Bool → Type 0 where
    unasked : (x.explain_only ≡ true) ⊎ (x.state.qual_value ≡ none) → IsAnswer x false
    asked :
        (query : String) {answered : Bool}
        → x.explain_only ≡ false
        → x.state.qual_value ≡ some query
        → forward J S C
            (client_of W x.plan)
            query
            (some (scan_params W x.state.min_confidence))
            (zero_response J)
          ≡ ok (answered, x.state.response)
        → IsAnswer x answered

  -- One for each beginning.
  unfoldable pub AreAnswers : List Beginning → List Bool → Type 0
  AreAnswers [] [] = Unit
  AreAnswers [] (answered ∷ answers) = ⊥
  AreAnswers (x ∷ xs) [] = ⊥
  AreAnswers (x ∷ xs) (answered ∷ answers) = IsAnswer x answered × AreAnswers xs answers

  -- A scan that has begun and was rescanned any number of times, each time with a plan of its time:
  -- what it has acquired and released so far, and its beginnings, the latest first.
  pub data Scanning : Plan W → List Event → List Beginning → ScanState W → Type 0 where
    begun :
        {plan : Plan W} (explain_only : Bool) (hash : Option H.Table) {s : ScanState W}
        {hash' : Option H.Table}
        → begin_foreign_scan W plan explain_only hash ≡ ok (s, hash')
        → Scanning plan
            (begin_events plan explain_only)
            (record { plan = plan; explain_only = explain_only; state = s } ∷ [])
            s
    rescanned :
        {plan plan' : Plan W} {es : List Event} {xs : List Beginning} {s s' : ScanState W}
        (hash : Option H.Table) {hash' : Option H.Table}
        → Scanning plan es xs s
        → Again W plan plan'
        → rescan_foreign_scan W plan' s hash ≡ ok (s', hash')
        → Scanning plan'
            (es ++ end_events s.api ++ begin_events plan' false)
            (record { plan = plan'; explain_only = false; state = s' } ∷ xs)
            s'
