-- ===== src/Scan/Begin.antt =====
-- When a scan sends a request, and what it asks for.
use text.Mathlib.Text.{◌==◌ as str_eq}
use text.Mathlib.TextEquality.{eq_iff}
use ocgeo_fdw.Prelude.{
  ℕ, ◌≡◌, ◌⊎◌, inl, inr, refl, sym, ap, ◌∙◌, Bool, true, false, not, ◌&&◌, ◌||◌, String, Option,
  none, some, List, [], ◌∷◌, arith, if◌then◌else◌,
}
use ocgeo_fdw.Prelude.Int.{pos}
use ocgeo_fdw.Prelude.Exec.{ok, >>=-eq-ok, ok-injective}
use ocgeo_fdw.Api.Types.{chain}
use ocgeo_fdw.World.{World}
use ocgeo_fdw.Quals.{Qual}
use ocgeo_fdw.Scan.{
  ScanState, Pushed, nothing_pushed, operand_value, apply_qual, apply_quals, Plan, prepared,
  collect_quals, query_if_any, submit_query, after_query, send_query, begin_foreign_scan, null,
}

module _ (W : World) (params : ℕ → W.server.Datum × Bool) where
  open W use {server as P, column_names as names}

  -- A restriction by name and operator with a value that is given.
  abbrev pub gives : String → String → Qual P.Datum → Option P.Datum
  gives attname op q = elim (operand_value W params q.right) [
    | ok (v, isnull) ↦
        if str_eq (names.tuple_attname q.left.varattno) attname
          && str_eq q.opname op
          && not (isnull || P.is_zero v)
        then some v
        else none
    | _ ↦ none
  ]

  abbrev pub or_last {ℓ} : {A : Type ℓ} → Option A → Option A → Option A
  or_last (some v) o = some v
  or_last none o = o

  -- The last value that restrictions give.
  unfoldable pub last_given : String → String → List (Qual P.Datum) → Option P.Datum
  last_given attname op [] = none
  last_given attname op (q ∷ qs) = or_last (last_given attname op qs) (gives attname op q)

  -- The local variables after the restrictions: the query is the text of the last value that is
  -- given by `q =`, and the least confidence the last by `confidence >=`.
  pub record Pushes (qs : List (Qual P.Datum)) (before after : Pushed W) : Type 0 where
    pub query : after.qual_value ≡ elim (last_given "q" "=" qs) [
      | none ↦ before.qual_value
      | some v ↦ some (P.text_to_cstring v)
    ]
    pub pushdown :
        after.pushdown ≡ elim (last_given "q" "=" qs) [ none ↦ before.pushdown | some _ ↦ true ]
    pub min_confidence : after.min_confidence ≡ elim (last_given "confidence" ">=" qs) [
      | none ↦ before.min_confidence
      | some v ↦ P.datum_get_int32 v
    ]

  -- The same for one restriction.
  record PushesOne (q : Qual P.Datum) (before after : Pushed W) : Type 0 where
    query :
        after.qual_value
        ≡ elim (gives "q" "=" q) [ none ↦ before.qual_value | some v ↦ some (P.text_to_cstring v) ]
    pushdown : after.pushdown ≡ elim (gives "q" "=" q) [ none ↦ before.pushdown | some _ ↦ true ]
    min_confidence : after.min_confidence ≡ elim (gives "confidence" ">=" q) [
      | none ↦ before.min_confidence
      | some v ↦ P.datum_get_int32 v
    ]

  apply_qual-PushesOne :
      (q : Qual P.Datum) (p : Pushed W) {p' : Pushed W}
      → apply_qual W params q p ≡ ok p'
      → PushesOne q p p'
  unfolding apply_qual
  apply_qual-PushesOne q p h =
      let ((v, isnull), e, e') = >>=-eq-ok (operand_value W params q.right) _ h in
      let name = names.tuple_attname q.left.varattno in
      rw (← ok-injective e') (record {
        query = rw e (ground arith);
        pushdown = rw e (ground arith);
        min_confidence =
            rw e
              (ground (arith, eq_iff name "q", eq_iff name "confidence", eq_iff "q" "confidence"));
      })

  apply_quals-Pushes :
      (qs : List (Qual P.Datum)) (p : Pushed W) {p' : Pushed W}
      → apply_quals W params qs p ≡ ok p'
      → Pushes qs p p'
  unfolding apply_quals last_given
  apply_quals-Pushes [] p h =
      rw (← ok-injective h) (record { query = refl; pushdown = refl; min_confidence = refl })
  apply_quals-Pushes (q ∷ qs) p h =
      let (p₁, e, h') = >>=-eq-ok (apply_qual W params q p) _ h in
      let one = apply_qual-PushesOne q p e in
      let rest = apply_quals-Pushes qs p₁ h' in
      record {
        query = ground (arith, one.query, rest.query);
        pushdown = ground (arith, one.pushdown, rest.pushdown);
        min_confidence = ground (arith, one.min_confidence, rest.min_confidence);
      }

module _ (W : World) where
  open W use {server as P, column_names as names}

  -- The state of a scan that has begun, by the restrictions that were taken from the plan.
  pub record Begun (plan : Plan W) (explain_only : Bool) (hash : Option W.htab.Table)
      (s : ScanState W) (hash' : Option W.htab.Table) : Type 0 where
    pub quals : List (Qual P.Datum)
    pub collected : collect_quals W plan.scanrelid plan.fdw_exprs [] ≡ ok quals
    pub query : s.qual_value ≡ elim (last_given W plan.params "q" "=" quals) [
      | none ↦ none
      | some v ↦ some (P.text_to_cstring v)
    ]
    pub min_confidence :
        s.min_confidence ≡ elim (last_given W plan.params "confidence" ">=" quals) [
          | none ↦ pos 0
          | some v ↦ P.datum_get_int32 v
        ]
    pub columns : s.column_list ≡ plan.fdw_private
    pub no_request :
        (explain_only ≡ true) ⊎ (s.qual_value ≡ none)
        → (s.api ≡ null) × (s.cursor ≡ chain []) × (s.sent ≡ plan.sent) × (hash' ≡ hash)

  -- What the request leaves alone.
  record Sent (s s' : ScanState W) : Type 0 where
    query : s'.qual_value ≡ s.qual_value
    min_confidence : s'.min_confidence ≡ s.min_confidence
    columns : s'.column_list ≡ s.column_list

  send_query-Sent :
      (plan : Plan W) (hash : Option W.htab.Table) (s : ScanState W) (query : String)
      {s' : ScanState W} {hash' : Option W.htab.Table}
      → send_query W plan hash s query ≡ ok (s', hash')
      → Sent s s'
  unfolding send_query
  send_query-Sent plan hash s query {s'} h =
      let (r, e, e') = >>=-eq-ok (submit_query W plan hash s query) _ h in
      let same : (after_query W plan hash s r).0 ≡ s' =
        ap (λ (x : ScanState W × Option W.htab.Table). x.0) (ok-injective e') in
      rw (← same) (record { query = refl; min_confidence = refl; columns = refl })

  query_if_any-Sent :
      (plan : Plan W) (explain_only : Bool) (hash : Option W.htab.Table) (s : ScanState W)
      (value : Option String) {s' : ScanState W} {hash' : Option W.htab.Table}
      → query_if_any W plan explain_only hash s value ≡ ok (s', hash')
      → Sent s s' × ((explain_only ≡ true) ⊎ (value ≡ none) → (s' ≡ s) × (hash' ≡ hash))
  query_if_any-Sent plan true hash s value h = (
    rw (← ap (λ (x : ScanState W × Option W.htab.Table). x.0) (ok-injective h))
        (record { query = refl; min_confidence = refl; columns = refl }),
    λ _. (cc, cc),
  )
  query_if_any-Sent plan false hash s none h = (
    rw (← ap (λ (x : ScanState W × Option W.htab.Table). x.0) (ok-injective h))
        (record { query = refl; min_confidence = refl; columns = refl }),
    λ _. (cc, cc),
  )
  query_if_any-Sent plan false hash s (some query) h =
      (send_query-Sent plan hash s query h, λ d. ground arith)

  idle_before :
      {explain_only : Bool} {s s' : ScanState W}
      → Sent s s'
      → (explain_only ≡ true) ⊎ (s'.qual_value ≡ none)
      → (explain_only ≡ true) ⊎ (s.qual_value ≡ none)
  idle_before sent (inl e) = inl e
  idle_before sent (inr e) = inr (sym sent.query ∙ e)

  unsent_lem :
      {s' : ScanState W} {hash hash' : Option W.htab.Table} (plan : Plan W) (p : Pushed W)
      → (s' ≡ prepared W plan p) × (hash' ≡ hash)
      → (s'.api ≡ null) × (s'.cursor ≡ chain []) × (s'.sent ≡ plan.sent) × (hash' ≡ hash)
  unsent_lem plan p (e, e') = (
    ap (λ (s : ScanState W). s.api) e,
    ap (λ (s : ScanState W). s.cursor) e,
    ap (λ (s : ScanState W). s.sent) e,
    e',
  )

  -- A scan that has begun asks for what the restrictions of its plan say, last values first, and
  -- if it is only explained or no restriction gives a query it sends no request: it has no client
  -- and no results, nothing more has been sent, and the counters stay.
  pub begin_foreign_scan-Begun :
      (plan : Plan W) (explain_only : Bool) (hash : Option W.htab.Table) {s : ScanState W}
      {hash' : Option W.htab.Table}
      → begin_foreign_scan W plan explain_only hash ≡ ok (s, hash')
      → Begun plan explain_only hash s hash'
  unfolding begin_foreign_scan
  begin_foreign_scan-Begun plan explain_only hash {s} h =
      let (quals, collected, h₁) =
        >>=-eq-ok (collect_quals W plan.scanrelid plan.fdw_exprs []) _ h in
      let (p, pushed, h₂) = >>=-eq-ok (apply_quals W plan.params quals (nothing_pushed W)) _ h₁ in
      let ready = prepared W plan p in
      let pushes = apply_quals-Pushes W plan.params quals (nothing_pushed W) pushed in
      let (sent, unsent) = query_if_any-Sent plan explain_only hash ready ready.qual_value h₂ in
      record {
        quals = quals;
        collected = collected;
        query = sent.query ∙ ground (arith, pushes.query, pushes.pushdown);
        min_confidence = sent.min_confidence ∙ pushes.min_confidence;
        columns = sent.columns;
        no_request = λ d. unsent_lem plan p (unsent (idle_before sent d));
      }
