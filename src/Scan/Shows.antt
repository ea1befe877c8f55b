-- ===== src/Scan/Shows.antt =====
-- What the rows of a scan show that has begun with a query.
use ocgeo_fdw.Prelude.{
  ℕ, suc, ◌++◌, ◌∷◌, ◌⊎◌, inl, inr, arith, zero, ◌<◌, Bool-cases, get_elem?, ◌≡◌, refl, sym, ap,
  ◌∙◌, Bool, true, false, Option, none, some, String, List, [], All, map, if◌then◌else◌,
}
use ocgeo_fdw.Prelude.Exec.{ok, >>=-eq-ok, ok-injective}
use ocgeo_fdw.Api.Types.{GeoResult}
use ocgeo_fdw.Server.{Var}
use ocgeo_fdw.Prelude.Int.{pos, eqb_ℤ, eq_of_parts}
use ocgeo_fdw.World.{World, IsNameMap}
use ocgeo_fdw.Scan.Columns.{column_mapping_hash}
use ocgeo_fdw.Scan.{
  ScanState, Plan, prepared, submit_query, after_query, send_query, query_if_any,
  begin_foreign_scan,
}
use ocgeo_fdw.Scan.Reads.{plan-IsRead, key_of_value}
use ocgeo_fdw.Scan.Begin.{begin_foreign_scan-Begun}
use ocgeo_fdw.Scan.Cells.{cell, shown, tabulate, IsReady, row_cells, iterate_all-cells}
use ocgeo_fdw.Scan.Returns.{HasColumns, Completes}
use ocgeo_fdw.Quals.Total.{IsSimple}

module _ (W : World) where
  open W use {cjson as J, server as P, htab as H, name_table as N, column_names as names}

  -- What the request leaves alone.
  record Keeps (s s' : ScanState W) : Type 0 where
    key : s'.qual_key ≡ s.qual_key
    value : s'.qual_value ≡ s.qual_value
    mapping : s'.column_mapping ≡ s.column_mapping
    columns : s'.column_list ≡ s.column_list

  Keeps-same : (s s' : ScanState W) → s ≡ s' → Keeps s s'
  Keeps-same s s' e = record {
    key = ap (λ (x : ScanState W). x.qual_key) (sym e);
    value = ap (λ (x : ScanState W). x.qual_value) (sym e);
    mapping = ap (λ (x : ScanState W). x.column_mapping) (sym e);
    columns = ap (λ (x : ScanState W). x.column_list) (sym e);
  }

  state_of :
      {s s' : ScanState W} {hash hash' : Option H.Table}
      → ◌≡◌ {A = ScanState W × Option H.Table} (s, hash) (s', hash')
      → s ≡ s'
  state_of e = ap (λ (x : ScanState W × Option H.Table). x.0) e

  query_if_any-Keeps :
      (plan : Plan W) (explain_only : Bool) (hash : Option H.Table) (s : ScanState W)
      (value : Option String) {s' : ScanState W} {hash' : Option H.Table}
      → query_if_any W plan explain_only hash s value ≡ ok (s', hash')
      → Keeps s s'
  unfolding send_query
  query_if_any-Keeps plan true hash s value {s' = s'} h =
      Keeps-same s s' (state_of (ok-injective h))
  query_if_any-Keeps plan false hash s none {s' = s'} h =
      Keeps-same s s' (state_of (ok-injective h))
  query_if_any-Keeps plan false hash s (some query) {s' = s'} h =
      let (r, e, e') = >>=-eq-ok (submit_query W plan hash s query) _ h in
      let after = Keeps-same (after_query W plan hash s r).0 s' (state_of (ok-injective e')) in
      record {
        key = after.key;
        value = after.value;
        mapping = after.mapping;
        columns = after.columns;
      }

  begin_foreign_scan-IsReady :
      (natts : ℕ) (plan : Plan W) (explain_only : Bool) (hash : Option H.Table) (query : String)
      {s : ScanState W} {hash' : Option H.Table}
      → All (IsSimple P) plan.fdw_exprs
      → HasColumns W natts plan.fdw_private
      → begin_foreign_scan W plan explain_only hash ≡ ok (s, hash')
      → s.qual_value ≡ some query
      → IsReady W natts query s
  unfolding begin_foreign_scan
  begin_foreign_scan-IsReady natts plan explain_only hash query {s = s} simple columns h asked =
      let read = plan-IsRead W plan simple in
      let ready = prepared W plan read.pushed in
      let kept : Keeps ready s =
        query_if_any-Keeps plan explain_only hash ready ready.qual_value
          (rw (read.collected, read.applied) at h) in
      record {
        small = columns.small;
        key = kept.key ∙ key_of_value W read.pushed read.keyed (sym kept.value ∙ asked);
        value = asked;
        mapping = kept.mapping ∙ ap (column_mapping_hash N names) (sym kept.columns);
        placed = rw kept.columns columns.placed;
        distinct = rw kept.columns columns.distinct;
      }

  -- The rows of a scan that has begun with a query, place by place.
  pub rows_show :
      (names_kept : IsNameMap N) (natts : ℕ) (plan : Plan W) (hash : Option H.Table)
      (query : String)
      → All (IsSimple P) plan.fdw_exprs
      → HasColumns W natts plan.fdw_private
      → (c : Completes W natts plan false hash) → c.state.qual_value ≡ some query
      → c.rows ≡ map (row_cells W natts query plan.fdw_private) c.results
  rows_show names_kept natts plan hash query simple columns c asked =
      let ready =
        begin_foreign_scan-IsReady natts plan false hash query simple columns c.begun asked in
      let begun = begin_foreign_scan-Begun W plan false hash c.begun in
      ok-injective
        (sym c.shown ∙ iterate_all-cells W names_kept natts query c.state c.results ready c.found)
      ∙ ap (λ cs. map (row_cells W natts query cs) c.results) begun.columns

  shown_query :
      (query : String) (r : GeoResult J) (c : Var) (i : ℕ)
      → names.relid_attname (pos (suc i)) ≡ "q"
      → c.varattno ≡ pos (suc i)
      → shown W "q" query r c ≡ some (P.cstring_to_text query)
  shown_query query r c i named attno = rw (attno, named) refl

  -- What a column shows at the place of the query column: nothing, if it is another one.
  shown_at :
      (query : String) (r : GeoResult J) (c : Var) (i : ℕ)
      → names.relid_attname (pos (suc i)) ≡ "q"
      → let x = if eqb_ℤ c.varattno (pos (suc i)) then shown W "q" query r c else none in
        (x ≡ none) ⊎ (x ≡ some (P.cstring_to_text query))
  shown_at query r c i named = elim (Bool-cases (eqb_ℤ c.varattno (pos (suc i)))) [
    | inr other ↦ inl (rw other refl)
    | inl same ↦ inr (
        rw same (
          shown_query query r c i named
            (eq_of_parts c.varattno (pos (suc i)) (ground (arith, same)))))
  ]

  cell_or_none :
      (query : String) (r : GeoResult J) (cs : List Var) (i : ℕ)
      → names.relid_attname (pos (suc i)) ≡ "q"
      → (cell W "q" query r cs i ≡ none)
        ⊎ (cell W "q" query r cs i ≡ some (P.cstring_to_text query))
  cell_or_none query r [] i named = inl refl
  cell_or_none query r (c ∷ cs) i named = elim (cell_or_none query r cs i named) [
    | inl e ↦ rw e (shown_at query r c i named)
    | inr e ↦ inr (rw e refl)
  ]

  -- The column of the query shows the query, wherever it stands among the columns of the scan.
  pub cell_shows :
      (query : String) (r : GeoResult J) (before after : List Var) (c : Var) (i : ℕ)
      → names.relid_attname (pos (suc i)) ≡ "q"
      → c.varattno ≡ pos (suc i)
      → cell W "q" query r (before ++ c ∷ after) i ≡ some (P.cstring_to_text query)
  cell_shows query r [] after c i named attno = elim (cell_or_none query r after i named) [
    | inl e ↦
        let here : eqb_ℤ c.varattno (pos (suc i)) ≡ true = rw attno (ground arith) in
        rw (e, here) (shown_query query r c i named attno)
    | inr e ↦ rw e refl
  ]
  cell_shows query r (d ∷ before) after c i named attno =
      rw (cell_shows query r before after c i named attno) refl

  get_elem?-tabulate :
      {A : Type 0} (n i : ℕ) (f : ℕ → Option A) → i < n → get_elem? (tabulate n f) i ≡ some (f i)
  get_elem?-tabulate zero i f h = absurd (omega arith)
  get_elem?-tabulate (suc n) zero f h = refl
  get_elem?-tabulate (suc n) (suc i) f h = get_elem?-tabulate n i (λ k. f (suc k)) (omega arith)

  -- Every row holds the query in the place of its column, so that a condition `q = …` that is
  -- checked again on it compares the query that was sent.
  pub row_cells-hold :
      (natts : ℕ) (query : String) (cs before after : List Var) (c : Var) (i : ℕ)
      (rs : List (GeoResult J))
      → names.relid_attname (pos (suc i)) ≡ "q"
      → i < natts
      → cs ≡ before ++ c ∷ after
      → c.varattno ≡ pos (suc i)
      → All
          (λ row. get_elem? row i ≡ some (some (P.cstring_to_text query)))
          (map (row_cells W natts query cs) rs)
  row_cells-hold natts query cs before after c i [] named within e attno = tt
  row_cells-hold natts query cs before after c i (r ∷ rs) named within e attno = (
    get_elem?-tabulate natts i (cell W "q" query r cs) within
        ∙ ap some (rw e (cell_shows query r before after c i named attno)),
    row_cells-hold natts query cs before after c i rs named within e attno,
  )
