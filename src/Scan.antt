-- ===== src/Scan.antt =====
-- The foreign scan of ocgeo_fdw.c: ColumnMappingHash, ocgeoBeginForeignScan,
-- ocgeoIterateForeignScan, ocgeoReScanForeignScan, ocgeoEndForeignScan, ocgeoExplainForeignScan.
mod Columns
pub mod Mapping
pub mod Cells
pub mod Fields
pub mod Places
pub mod Begin
pub mod Rows
pub mod Life
pub mod Memory
pub mod Session
pub mod Reads
pub mod Returns
pub mod Shows
pub mod Planned
pub mod Asks
pub mod Sends
pub mod Tests
pub use Columns.*
use text.Mathlib.Text.{◌==◌ as str_eq}
use ocgeo_fdw.Prelude.{
  ◌≡◌, ℕ, zero, suc, Bool, true, false, not, ◌&&◌, ◌||◌, String, Option, none, some, List, [], ◌∷◌,
  if◌then◌else◌,
}
use ocgeo_fdw.Prelude.Int.{ℤ, pos, eqb_ℤ}
use ocgeo_fdw.Prelude.Exec.{
  Exec, ok, crash, unfinished, null_dereference, uninitialised_read, ◌>>=◌,
}
use ocgeo_fdw.Prelude.Ctext.{◌<>◌, print_int}
use ocgeo_fdw.Api.Types.{
  GeoResult, Results, chain, uninitialised, Response, zero_response, Params, default_params,
}
use ocgeo_fdw.Api.Request.{Api, init, forward}
use ocgeo_fdw.Limiter.{Forward, Timeval, Readings, Counters, submit_request_with_rate_limiter}
use ocgeo_fdw.Options.{TableOptions, CatalogEntries, get_options}
use ocgeo_fdw.Stats.{get_counters}
use ocgeo_fdw.Server.{Var, Node, var, const, param}
use ocgeo_fdw.Quals.{Qual, extract_restrictions}
use ocgeo_fdw.World.{World}

-- The pointer to the client: NULL, a client, or one that ocgeo_close has freed.
pub data ApiPointer (A : Type 0) : Type 0 where
  null : ApiPointer A
  opened : A → ApiPointer A
  freed : ApiPointer A

module _ (W : World) where
  open W use {
    floating as F, cjson as J, sds as S, curl as C, bitmapsets as B, server as P, htab as H,
    name_table as N, column_names as names,
  }

  pub record ScanState : Type 0 where
    pub qual_key : Option String
    pub qual_value : Option String
    pub min_confidence : ℤ
    pub column_list : List Var
    pub column_mapping : N.Table
    pub api : ApiPointer (Api S)
    pub response : Response J
    pub cursor : Results J
    pub sent : List String

  -- The local variables of the loop over the restrictions.
  pub record Pushed : Type 0 where
    pub qual_key : Option String
    pub qual_value : Option String
    pub pushdown : Bool
    pub min_confidence : ℤ

  abbrev pub nothing_pushed : Pushed
  nothing_pushed = record {
    qual_key = none;
    qual_value = none;
    pushdown = false;
    min_confidence = pos 0;
  }

  -- The value of the right operand, where the parameters have these, and whether it is null. No
  -- case of the switch but these two writes to `value`.
  abbrev pub operand_value : (ℕ → P.Datum × Bool) → Node P.Datum → Exec (P.Datum × Bool)
  operand_value params (param i) = ok (params i)
  operand_value params (const isnull v) = ok (v, isnull)
  operand_value params node = crash uninitialised_read

  abbrev pub push_value : String → String → P.Datum → Pushed → Pushed
  push_value attname op value p =
      if str_eq attname "q" && str_eq op "="
      then record p {
        qual_key = some "q";
        qual_value = some (P.text_to_cstring value);
        pushdown = true;
      }
      else (if str_eq attname "confidence" && str_eq op ">="
          then record p { min_confidence = P.datum_get_int32 value }
          else p)

  -- The body of the loop.
  unfoldable pub apply_qual : (ℕ → P.Datum × Bool) → Qual P.Datum → Pushed → Exec Pushed
  apply_qual params q p = operand_value params q.right >>= λ v. ok (
      if v.1 || P.is_zero v.0
      then p
      else push_value (names.tuple_attname q.left.varattno) q.opname v.0 p)

  unfoldable pub apply_quals : (ℕ → P.Datum × Bool) → List (Qual P.Datum) → Pushed → Exec Pushed
  unfolding apply_qual
  apply_quals params [] p = ok p
  apply_quals params (q ∷ qs) p = apply_qual params q p >>= apply_quals params qs

  -- The loop over the expressions of the plan.
  unfoldable pub collect_quals :
      ℕ → List (Node P.Datum) → List (Qual P.Datum) → Exec (List (Qual P.Datum))
  collect_quals scanrelid [] quals = ok quals
  collect_quals scanrelid (e ∷ es) quals =
      extract_restrictions P (B.make_singleton scanrelid) e quals >>= collect_quals scanrelid es

  -- What a scan is begun with: the plan's relation, expressions and columns, the catalogs, the
  -- structure for the options before it is filled, what the query's parameters are then and
  -- whether they are null, the time, and the queries that the service was
  -- sent before, the latest first.
  pub record Plan : Type 0 where
    pub scanrelid : ℕ
    pub fdw_exprs : List (Node P.Datum)
    pub fdw_private : List Var
    pub catalogs : CatalogEntries
    pub stack : TableOptions
    pub params : ℕ → P.Datum × Bool
    pub now : Timeval
    pub clock : Readings
    pub sent : List String

  -- The plan of a scan at a later time: its relation, expressions, columns and catalogs are the
  -- same, the parameters and the clock are read anew, and more may have been sent.
  pub record Again (plan plan' : Plan) : Type 0 where
    pub scanrelid : plan'.scanrelid ≡ plan.scanrelid
    pub fdw_exprs : plan'.fdw_exprs ≡ plan.fdw_exprs
    pub fdw_private : plan'.fdw_private ≡ plan.fdw_private
    pub catalogs : plan'.catalogs ≡ plan.catalogs
    pub stack : plan'.stack ≡ plan.stack

  abbrev pub prepared : Plan → Pushed → ScanState
  prepared plan p = record {
    qual_key = p.qual_key;
    qual_value = if p.pushdown then p.qual_value else none;
    min_confidence = p.min_confidence;
    column_list = plan.fdw_private;
    column_mapping = column_mapping_hash N names plan.fdw_private;
    api = null;
    response = zero_response J;
    cursor = chain [];
    sent = plan.sent;
  }

  abbrev pub max_results_requested : ℤ
  max_results_requested = pos 50

  unfoldable pub scan_params : ℤ → Params F
  unfolding default_params
  scan_params min_confidence =
      let params = record (default_params F) { limit = max_results_requested } in
      if not (eqb_ℤ min_confidence (pos 0))
      then record params { min_confidence = min_confidence }
      else params

  abbrev pub options_of : Plan → TableOptions
  options_of plan = get_options plan.catalogs plan.stack

  abbrev pub client_of : Plan → Api S
  client_of plan = let options = options_of plan in init S options.api_key options.uri

  -- The call of ocgeo_forward, which sends its query once.
  abbrev pub service_of : Plan → String → ℤ → Response J → Forward J
  service_of plan query min_confidence response sent =
      forward J S C (client_of plan) query (some (scan_params min_confidence)) response >>= λ r.
      ok (r, query ∷ sent)

  -- The user's counters, and the request with the query.
  unfoldable pub submit_query :
      Plan
      → Option H.Table
      → ScanState
      → String
      → Exec ((Bool × Counters F × Response J) × List String)
  submit_query plan ocgeo_hash s query =
      submit_request_with_rate_limiter plan.clock
        (service_of plan query s.min_confidence s.response) (options_of plan).max_reqs_sec
        (get_counters H ocgeo_hash (options_of plan) plan.now).1 s.sent

  -- What the request leaves in the state and in the table of counters.
  abbrev pub after_query :
      Plan
      → Option H.Table
      → ScanState
      → (Bool × Counters F × Response J) × List String
      → ScanState × Option H.Table
  after_query plan ocgeo_hash s ((answered, stats, response), sent) = (
    record s {
      api = opened (client_of plan);
      response = response;
      cursor = if answered then response.results else chain [];
      sent = sent;
    },
    some (
        H.enter (get_counters H ocgeo_hash (options_of plan) plan.now).0 (options_of plan).user_id
          stats),
  )

  unfoldable pub send_query :
      Plan → Option H.Table → ScanState → String → Exec (ScanState × Option H.Table)
  send_query plan ocgeo_hash s query =
      submit_query plan ocgeo_hash s query >>= λ r. ok (after_query plan ocgeo_hash s r)

  abbrev pub query_if_any :
      Plan → Bool → Option H.Table → ScanState → Option String → Exec (ScanState × Option H.Table)
  query_if_any plan true ocgeo_hash s value = ok (s, ocgeo_hash)
  query_if_any plan false ocgeo_hash s none = ok (s, ocgeo_hash)
  query_if_any plan false ocgeo_hash s (some query) = send_query plan ocgeo_hash s query

  unfoldable pub begin_foreign_scan :
      Plan → Bool → Option H.Table → Exec (ScanState × Option H.Table)
  begin_foreign_scan plan explain_only ocgeo_hash =
      collect_quals plan.scanrelid plan.fdw_exprs [] >>= λ quals.
      apply_quals plan.params quals nothing_pushed >>= λ p.
      query_if_any plan explain_only ocgeo_hash (prepared plan p) (prepared plan p).qual_value

  -- One row: the values of the columns by their places, none for null; no row at the end.
  unfoldable pub row_for : ℕ → ScanState → GeoResult J → Exec (List (Option P.Datum))
  row_for natts s result =
      fill_columns J S P N names s.qual_key s.qual_value s.column_mapping result s.column_list
        (null_row natts)

  unfoldable pub iterate_foreign_scan :
      ℕ → ScanState → Exec (Option (List (Option P.Datum)) × ScanState)
  iterate_foreign_scan natts s = elim s.cursor [
    | uninitialised ↦ crash uninitialised_read
    | chain [] ↦ ok (none, s)
    | chain (r ∷ rs) ↦ row_for natts s r >>= λ row. ok (some row, record s { cursor = chain rs })
  ]

  -- The calls that the executor makes until there is no row.
  unfoldable pub iterate_all : ℕ → ℕ → ScanState → Exec (List (List (Option P.Datum)))
  iterate_all zero natts s = unfinished
  iterate_all (suc fuel) natts s = iterate_foreign_scan natts s >>= λ r. elim r.0 [
    | none ↦ ok []
    | some row ↦ iterate_all fuel natts r.1 >>= λ rows. ok (row ∷ rows)
  ]

  -- ocgeo_close, by which the scan gives up its client.
  abbrev pub close : ApiPointer (Api S) → Exec (ApiPointer (Api S))
  close null = ok null
  close (opened api) = ok freed
  close freed = crash uninitialised_read

  unfoldable pub end_foreign_scan : ScanState → Exec ScanState
  end_foreign_scan s = close s.api >>= λ api. ok (record s { api = api })

  unfoldable pub rescan_foreign_scan :
      Plan → ScanState → Option H.Table → Exec (ScanState × Option H.Table)
  rescan_foreign_scan plan s ocgeo_hash =
      end_foreign_scan s >>= λ _. begin_foreign_scan plan false ocgeo_hash

  unfoldable pub explain_foreign_scan : ScanState → String
  explain_foreign_scan s =
      let query : String = elim s.qual_value [ some v ↦ "q='" <> v <> "'" | none ↦ "q=(null)" ] in
      if not (eqb_ℤ s.min_confidence (pos 0))
      then query <> " min_confidence=" <> print_int s.min_confidence
      else query
