-- ===== src/Setup/Query.antt =====
-- A query from the first callback of the planner to the end of its scan.
use mathlib.Core.Path.{subst, sym}
use ocgeo_fdw.Prelude.{
  suc, map, get_elem?, arith, ℕ, ◌^◌, ◌<◌, ◌≡◌, refl, Bool, false, String, Option, some, List, [],
  ◌∷◌, ◌++◌, All,
}
use ocgeo_fdw.Prelude.Exec.{ok}
use ocgeo_fdw.Foreign.{AppendsText}
use ocgeo_fdw.Server.{Var, TypeId, Node, Bitmapsets, Server}
use ocgeo_fdw.Stats.{IsMap}
use ocgeo_fdw.World.{World, IsNameMap, ColumnNames}
use ocgeo_fdw.Planner.{
  Joins, classify_conditions, RestrictInfo, RelOptInfo, PlannerInfo, PlanState, ForeignPath,
  ForeignScan, get_foreign_rel_size, get_foreign_paths,
}
use ocgeo_fdw.Planner.Columns.{column_list, needed_columns}
use ocgeo_fdw.Planner.Needed.{Picks-has, column_list-Picks}
use ocgeo_fdw.Prelude.Int.{pos}
use ocgeo_fdw.Planner.Classified.{IsServable, Splits, to_service, stays, classify_conditions-Splits}
use ocgeo_fdw.Planner.Paths.{Offers, by_join, by_condition, nothing, get_foreign_paths-Offers}
use ocgeo_fdw.Planner.Plans.{get_foreign_plan_iff, classify_from-returns}
use ocgeo_fdw.Planner.Printing.Printed.{IsPrintable}
use ocgeo_fdw.Api.Types.{GeoResult}
use ocgeo_fdw.Scan.Fields.{Shows, shown-Shows}
use ocgeo_fdw.Scan.{Plan, options_of}
use ocgeo_fdw.Scan.Asks.{KnowsConstants, IsQuestion, begin_foreign_scan-asks}
use ocgeo_fdw.Scan.Sends.{Sends, begin_foreign_scan-Sends}
use ocgeo_fdw.Scan.Cells.{row_of, shown}
use ocgeo_fdw.Scan.Shows.{rows_show, row_cells-hold}
use ocgeo_fdw.Scan.Returns.{Works, Completes}
use ocgeo_fdw.Scan.Planned.{column_list-HasColumns, HasNames, on_plan, planned_scan_returns}
use ocgeo_fdw.Setup.{FdwRoutine, fdw_handler}

module _ {B : Bitmapsets} (P : Server B) (names : ColumnNames) (relids : B.Set) where
  -- Where a condition is servable, some condition is for the service.
  Splits-nonempty :
      (before after : List (RestrictInfo P)) (ri : RestrictInfo P)
      {remote local : List (RestrictInfo P)}
      → IsServable P names relids ri
      → Splits P names relids (before ++ ri ∷ after) remote local
      → remote ≡ []
      → ⊥
  Splits-nonempty [] after ri s (to_service _ s' rest) h = cc
  Splits-nonempty [] after ri s (stays _ not_servable rest) h = not_servable s
  Splits-nonempty (x ∷ before) after ri s (to_service _ s' rest) h = cc
  Splits-nonempty (x ∷ before) after ri s (stays _ not_servable rest) h =
      Splits-nonempty before after ri s rest h

module _ (W : World) where
  open W use {server as P, bitmapsets as B, column_names as names, htab as H}

  -- A path of the list that the planner is given.
  Offers-some :
      {rel : RelOptInfo P} {attrs : List (String × Bool)} {joins : ℕ → Joins P}
      {state : PlanState P} {paths : List (ForeignPath P)}
      → (state.conditions.remote_conds ≡ [] → ⊥)
      → Offers P rel attrs state joins paths
      → (p : ForeignPath P) × (paths ≡ p ∷ [])
  Offers-some some_remote (by_join attnum p e joins) = (p, refl)
  Offers-some some_remote (by_condition p e rows h unjoined) = (p, refl)
  Offers-some some_remote (nothing e unjoined) = absurd (some_remote e)

  -- The plan of a table for the clauses that the planner hands over.
  abbrev pub scan_of :
      (List (RestrictInfo P) → List (Node P.Datum))
      → RelOptInfo P
      → List (RestrictInfo P)
      → ForeignScan P
  scan_of extract_actual_clauses rel scan_clauses = record {
    qual = extract_actual_clauses scan_clauses;
    scanrelid = rel.relid;
    fdw_exprs = extract_actual_clauses scan_clauses;
    fdw_private = column_list P rel;
  }

  -- What the callbacks of a wrapper do with a query: the size is estimated, a path is offered, a
  -- plan is made, and a scan on it sends a request and runs to its end.
  pub record Serves (r : FdwRoutine W) (root : PlannerInfo P) (rel : RelOptInfo P)
      (attrs : List (String × Bool)) (scan_clauses : List (RestrictInfo P)) (context : Plan W)
      (hash : Option H.Table) (place : ℕ) : Type 0 where
    pub state : PlanState P
    pub sized : RelOptInfo P
    pub sizes : r.get_foreign_rel_size (ok (options_of W context)) rel ≡ ok (state, sized)
    pub path : ForeignPath P
    pub offers : r.get_foreign_paths root sized attrs state ≡ path ∷ []
    pub fs : ForeignScan P
    pub plans : r.get_foreign_plan sized scan_clauses ≡ ok fs
    pub completes : Completes W rel.max_attr (on_plan W fs context) false hash
    pub begins :
        r.begin_foreign_scan (on_plan W fs context) false hash
        ≡ ok (completes.state, completes.counted)
    pub query : String
    pub asked : completes.state.qual_value ≡ some query
    pub sends : Sends W (on_plan W fs context) hash query completes.state completes.counted
    pub show : GeoResult W.cjson → Var → Option P.Datum
    pub fields : (r : GeoResult W.cjson) (c : Var) → Shows W query r c (show r c)
    pub shows :
        completes.rows ≡ map (λ r. row_of rel.max_attr fs.fdw_private (show r)) completes.results
    pub holds :
        All (λ row. get_elem? row place ≡ some (some (P.cstring_to_text query))) completes.rows
    pub ends : r.end_foreign_scan completes.state ≡ ok completes.closed

  -- The planner is offered one path, if a condition is for the service.
  offers_one :
      (root : PlannerInfo P) (rel : RelOptInfo P) (attrs : List (String × Bool))
      (state : PlanState P) (ris ris' : List (RestrictInfo P)) (ri : RestrictInfo P)
      {local : List (RestrictInfo P)}
      → IsServable P names (B.make_singleton rel.relid) ri
      → Splits P names rel.relids rel.baserestrictinfo state.conditions.remote_conds local
      → rel.relids ≡ B.make_singleton rel.relid
      → rel.baserestrictinfo ≡ ris ++ ri ∷ ris'
      → (p : ForeignPath P) × (get_foreign_paths P root (record rel { rows = 50 }) attrs state
          ≡ p ∷ [])
  offers_one root rel attrs state ris ris' ri {local = local} servable splits single given =
      Offers-some
        (λ none_remote.
          Splits-nonempty P names (B.make_singleton rel.relid) ris ris' ri {local = local} servable
            (rw (← single, ← given) splits) none_remote)
        (get_foreign_paths-Offers P root (record rel { rows = 50 }) attrs state)

  -- A condition `q = …` with a constant on a table whose conditions can be printed, which the
  -- planner also hands over: by the callbacks of the handler the table's size is estimated, one
  -- path is offered, a plan is made, and a scan on it sends exactly one query to the service by
  -- way of the limiter, gives a row for each result, and ends. In each place of a row stands what
  -- the last of the plan's columns there shows: the query in the column of the query, and else
  -- what the document has for the name and the type of the column. Each row has the query that was
  -- sent in the place of the query column, so that the condition is checked again on that. The
  -- conditions on the rest: text buffers append, tables keep what is entered, a constant is not
  -- volatile and names no relation, the table has less than 2 ^ 31 columns with different names,
  -- the catalog has the columns of its conditions, its query column is needed, its only relation
  -- is its own, the user has a mapping, the clauses compare columns and values, the user's limit
  -- is at most 1000 requests a second with between 0 tokens and that limit left, the last request
  -- was at most 2 ^ 40 microseconds (12 days) ago, pg_usleep sleeps at least as long as asked and
  -- less than 2 ^ 38 microseconds longer, the limiter may make three rounds, and a transfer
  -- breaks, or brings what is no document or a document of the shape that the service sends.
  pub fdw_handler-Serves :
      (laws : AppendsText W.sds) (names_kept : IsNameMap W.name_table)
      (constants : KnowsConstants P) (counters : IsMap H) (type_oid : TypeId → ℕ)
      (extract_actual_clauses : List (RestrictInfo P) → List (Node P.Datum)) (root : PlannerInfo P)
      (rel : RelOptInfo P) (attrs : List (String × Bool)) (scan_clauses : List (RestrictInfo P))
      (context : Plan W) (hash : Option H.Table) (ris ris' : List (RestrictInfo P))
      (before after : List (Node P.Datum)) (clause : Node P.Datum) (place : ℕ) (vs vs' : List Var)
      (v : Var)
      → rel.max_attr < 2 ^ 31
      → HasNames names rel.max_attr
      → All (λ ri. IsPrintable P names ri.clause) rel.baserestrictinfo
      → rel.relids ≡ B.make_singleton rel.relid
      → (question : IsQuestion W rel.relid clause)
      → rel.baserestrictinfo
        ≡ ris ++ record { clause = clause; outer_relids = question.outer_relids } ∷ ris'
      → extract_actual_clauses scan_clauses ≡ before ++ clause ∷ after
      → Works W (on_plan W (scan_of extract_actual_clauses rel scan_clauses) context) hash
      → place < rel.max_attr
      → names.relid_attname (pos (suc place)) ≡ "q"
      → needed_columns P rel.target_exprs rel.baserestrictinfo ≡ vs ++ v ∷ vs'
      → v.varattno ≡ pos (suc place)
      → Serves
          (fdw_handler W type_oid extract_actual_clauses)
          root
          rel
          attrs
          scan_clauses
          context
          hash
          place
  unfolding fdw_handler get_foreign_rel_size column_list classify_conditions
  fdw_handler-Serves laws names_kept constants counters type_oid extract_actual_clauses root rel
        attrs scan_clauses context hash ris ris' before after clause place vs vs' v small distinct
        printable single question given handed works within named needed attno =
      let fs = scan_of extract_actual_clauses rel scan_clauses in
      let sized : RelOptInfo P = record rel { rows = 50 } in
      let (c, classified) =
        classify_from-returns P names rel.relids rel.baserestrictinfo
          (record { remote_conds = []; local_conds = [] }) printable in
      let planned =
        (get_foreign_plan_iff P names type_oid extract_actual_clauses sized scan_clauses fs).1
          (printable, (c, classified), refl) in
      let completes =
        planned_scan_returns W laws names_kept type_oid extract_actual_clauses sized scan_clauses
          context hash false small distinct planned works in
      let conditions : classify_conditions P names rel rel.baserestrictinfo ≡ ok c = classified in
      let state : PlanState P = record { conditions = c; startup_cost = 25; total_cost = 75 } in
      let (path, offered) =
        offers_one root rel attrs state ris ris' _ question.servable
          (classify_conditions-Splits P names rel rel.baserestrictinfo conditions) single given in
      let (query, asked) =
        begin_foreign_scan-asks W constants (on_plan W fs context) false hash before after clause
          handed question completes.begun in
      let shows =
        rows_show W names_kept rel.max_attr (on_plan W fs context) hash query works.simple
          (column_list-HasColumns W rel small distinct) completes asked in
      let (cs, cs', c, found, number) =
        Picks-has P 1 rel.max_attr (suc place) vs vs' v (column_list-Picks P rel) needed attno
          (omega arith) (omega arith) in
      record {
        state = state;
        sized = sized;
        sizes = rw classified refl;
        path = path;
        offers = offered;
        fs = fs;
        plans = planned;
        completes = completes;
        begins = completes.begun;
        query = query;
        asked = asked;
        show = shown W "q" query;
        fields = shown-Shows W query;
        shows = shows;
        holds =
            subst (All (λ row. get_elem? row place ≡ some (some (P.cstring_to_text query))))
              (sym shows)
              (row_cells-hold W rel.max_attr query (column_list P rel) cs cs' c place
                completes.results named within found number);
        sends =
            begin_foreign_scan-Sends W counters (on_plan W fs context) hash query completes.begun
              asked;
        ends = completes.ended;
      }
