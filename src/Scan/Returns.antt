-- ===== src/Scan/Returns.antt =====
-- Which scans run from their beginning to their end without a fault.
use ocgeo_fdw.Prelude.{
  ℕ, suc, ◌^◌, ◌<◌, ◌&&◌, Bool-cases, ◌≡◌, refl, ap, ◌∙◌, ◌⊎◌, inl, inr, Bool, true, false, String,
  Option, none, some, List, [], ◌∷◌, map, length, All, arith, if◌then◌else◌,
}
use ocgeo_fdw.Prelude.Int.{ℤ}
use ocgeo_fdw.Prelude.Exec.{ok}
use ocgeo_fdw.Foreign.{Floating, Cjson, AppendsText}
use ocgeo_fdw.Api.Types.{Response, GeoResult, chain, response_ok}
use ocgeo_fdw.Api.Request.{forward}
use ocgeo_fdw.Api.Request.Total.{
  HasAnswer, broken, unreadable, replied, answer_of, requested_url, do_request-answer_of,
}
use ocgeo_fdw.Limiter.{Counters, record_call}
use ocgeo_fdw.Limiter.Budget.{IsLimit, IsBucket, IsTimely, submit-Spends}
use ocgeo_fdw.Server.{Var}
use ocgeo_fdw.Stats.{get_counters}
use ocgeo_fdw.Quals.Total.{IsSimple}
use ocgeo_fdw.World.{World, IsNameMap}
use ocgeo_fdw.Scan.Reads.{IsKeyed, plan-IsRead, key_of_value}
use ocgeo_fdw.Scan.Mapping.{IsDistinct}
use ocgeo_fdw.Scan.Rows.{rows_of, iterate_all_rows}
use ocgeo_fdw.Scan.Cells.{IsPlaced, IsReady, row_cells, iterate_all-cells}
use ocgeo_fdw.Scan.{
  service_of, options_of, client_of, scan_params, submit_query, after_query, send_query,
  query_if_any, begin_foreign_scan, iterate_all, end_foreign_scan, ScanState, Plan, Pushed,
  prepared,
}

length-map : {A B : Type 0} (f : A → B) (xs : List A) → length (map f xs) ≡ length xs
length-map f [] = refl
length-map f (x ∷ xs) = omega (arith, length-map f xs)

-- A response with a list of results, as it is before a request, is one after it.
answer_of-chain :
    {F : Floating} (J : Cjson F) {t : List String × Bool} (h : HasAnswer J t) (r : Response J)
    → r.results ≡ chain []
    → (rs : List (GeoResult J)) × ((answer_of J h r).1.results ≡ chain rs)
answer_of-chain J (broken chunks) r e = ([], e)
answer_of-chain J (unreadable chunks e') r e = ([], e)
answer_of-chain J (replied chunks json e' h) r e = (_, refl)

record_call-chain :
    {F : Floating} {J : Cjson F} (tm : ℤ) (reply : Bool × Response J) (c : Counters F)
    (rs : List (GeoResult J))
    → reply.1.results ≡ chain rs
    → let (answered, _, response) = record_call tm reply.0 reply.1 c in
      (rs' : List (GeoResult J)) × ((if answered then response.results else chain []) ≡ chain rs')
record_call-chain tm reply c rs e = elim (Bool-cases (reply.0 && response_ok reply.1)) [
  | inl good ↦ (rs, rw good e)
  | inr bad ↦ ([], rw bad refl)
]

module _ (W : World) where
  open W use {
    floating as F, cjson as J, sds as S, curl as C, server as P, htab as H, name_table as N,
    column_names as names,
  }

  -- Columns of a table of so many, with different names.
  pub record HasColumns (natts : ℕ) (cs : List Var) : Type 0 where
    pub small : natts < 2 ^ 31
    pub placed : All (IsPlaced natts) cs
    pub distinct : IsDistinct N names cs

  -- A plan whose scan works: its clauses compare columns and values; the user's limit is at most
  -- 1000 requests a second, with between 0 tokens and that limit left; the clock runs on from the
  -- user's last request; and a transfer breaks, or brings what is no document or a document of the
  -- shape that the service sends.
  pub record Works (plan : Plan W) (hash : Option H.Table) : Type 0 where
    pub simple : All (IsSimple P) plan.fdw_exprs
    pub limit : IsLimit (options_of W plan).max_reqs_sec
    pub bucket :
        IsBucket
          (options_of W plan).max_reqs_sec
          (get_counters H hash (options_of W plan) plan.now).1
    pub timely : IsTimely plan.clock (get_counters H hash (options_of W plan) plan.now).1
    pub service : (url agent : String) → HasAnswer J (C.perform url agent)

  -- A scan runs from its beginning to its end: it begins, gives a row for each result in as many
  -- calls as there are results and one more, and ends.
  pub record Completes (natts : ℕ) (plan : Plan W) (explain_only : Bool) (hash : Option H.Table)
      : Type 0 where
    pub state : ScanState W
    pub counted : Option H.Table
    pub begun : begin_foreign_scan W plan explain_only hash ≡ ok (state, counted)
    pub results : List (GeoResult J)
    pub found : state.cursor ≡ chain results
    pub rows : List (List (Option P.Datum))
    pub shown : iterate_all W (suc (length results)) natts state ≡ ok rows
    pub one_each : length rows ≡ length results
    pub closed : ScanState W
    pub ended : end_foreign_scan W state ≡ ok closed

  module _ (laws : AppendsText S) (natts : ℕ) (plan : Plan W) (hash : Option H.Table)
      (works : Works plan hash) (columns : HasColumns natts plan.fdw_private) where
    submit_query-returns :
        (s : ScanState W) (query : String)
        → s.response.results ≡ chain []
        → (r : (Bool × Counters F × Response J) × List String) × (submit_query W plan hash s query
            ≡ ok r)
          × (rs : List (GeoResult J)) × ((if r.0.0 then r.0.2.results else chain []) ≡ chain rs)
    unfolding submit_query forward
    submit_query-returns s query e =
        let h = works.service _ _ in
        let reply = answer_of J h (record s.response {
          url = some (
              requested_url J S C true query (S.text_of (client_of W plan).api_key)
                (S.text_of (client_of W plan).server) (some (scan_params W s.min_confidence)));
        }) in
        let answered =
          do_request-answer_of J laws C true query (S.text_of (client_of W plan).api_key)
            (S.text_of (client_of W plan).server) (some (scan_params W s.min_confidence)) s.response
            h in
        let once : service_of W plan query s.min_confidence s.response s.sent
            ≡ ok (reply, query ∷ s.sent) =
          rw answered refl in
        let (start, c', returned, _, _, _, _) =
          submit-Spends plan.clock (service_of W plan query s.min_confidence s.response)
            (options_of W plan).max_reqs_sec (get_counters H hash (options_of W plan) plan.now).1
            s.sent {reply = reply} {sent' = query ∷ s.sent} once works.limit works.bucket
            works.timely in
        let (rs, chained) = answer_of-chain J h _ e in
        let (shown, same) = record_call-chain _ reply c' rs chained in (_, returned, shown, same)

    -- A scan that has begun, with the results that it will go through, and what it needs to make
    -- rows of them if there are any.
    record HasBegun (s : ScanState W) : Type 0 where
      results : List (GeoResult J)
      cursor : s.cursor ≡ chain results
      ready : (results ≡ []) ⊎ ((query : String) × IsReady W natts query s)
      ended : (s' : ScanState W) × (end_foreign_scan W s ≡ ok s')

    idle_HasBegun : (p : Pushed W) → HasBegun (prepared W plan p)
    unfolding end_foreign_scan
    idle_HasBegun p = record { results = []; cursor = refl; ready = inl refl; ended = (_, refl) }

    query_if_any-returns :
        (explain_only : Bool) (p : Pushed W) (value : Option String)
        → IsKeyed W p
        → (prepared W plan p).qual_value ≡ value
        → (s : ScanState W) × (hash' : Option H.Table) × (query_if_any W plan explain_only hash
              (prepared W plan p)
              value
            ≡ ok (s, hash'))
          × HasBegun s
    unfolding send_query end_foreign_scan
    query_if_any-returns true p value k e = (prepared W plan p, hash, refl, idle_HasBegun p)
    query_if_any-returns false p none k e = (prepared W plan p, hash, refl, idle_HasBegun p)
    query_if_any-returns false p (some query) k e =
        let (r, sent, results, cursor) = submit_query-returns (prepared W plan p) query refl in
        let (s, hash') = after_query W plan hash (prepared W plan p) r in
        (
          s,
          hash',
          rw (sent, send_query) refl,
          record {
            results = results;
            cursor = cursor;
            ready = inr (
              query,
              record {
                small = columns.small;
                key = key_of_value W p k e;
                value = e;
                mapping = refl;
                placed = columns.placed;
                distinct = columns.distinct;
              },
            );
            ended = (_, refl);
          },
        )

    rows_return :
        (names_kept : IsNameMap N) (s : ScanState W) (rs : List (GeoResult J))
        → s.cursor ≡ chain rs
        → (rs ≡ []) ⊎ ((query : String) × IsReady W natts query s)
        → (rows : List (List (Option P.Datum))) × (iterate_all W (suc (length rs)) natts s
            ≡ ok rows)
          × (length rows ≡ length rs)
    unfolding rows_of
    rows_return names_kept s rs e (inl none_found) = (
      [],
      rw none_found (iterate_all_rows W natts s [] (e ∙ ap chain none_found)),
      rw none_found refl,
    )
    rows_return names_kept s rs e (inr (query, ready)) = (
      map (row_cells W natts query s.column_list) rs,
      iterate_all-cells W names_kept natts query s rs ready e,
      length-map (row_cells W natts query s.column_list) rs,
    )

    -- A scan whose plan works, on columns of the table with different names, begins, explained or
    -- not, gives a row for each result in as many calls as there are results and one more, and ends,
    -- all without a fault.
    pub scan_returns :
        (names_kept : IsNameMap N) (explain_only : Bool) → Completes natts plan explain_only hash
    unfolding begin_foreign_scan
    scan_returns names_kept explain_only =
        let read = plan-IsRead W plan works.simple in
        let ready = prepared W plan read.pushed in
        let (s, hash', sent, begun) =
          query_if_any-returns explain_only read.pushed ready.qual_value read.keyed refl in
        let (rows, shown, same) = rows_return names_kept s begun.results begun.cursor begun.ready in
        let (s', ended) = begun.ended in
        record {
          state = s;
          counted = hash';
          begun = rw (read.collected, read.applied) sent;
          results = begun.results;
          found = begun.cursor;
          rows = rows;
          shown = shown;
          one_each = same;
          closed = s';
          ended = ended;
        }
