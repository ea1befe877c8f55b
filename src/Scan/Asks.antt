-- ===== src/Scan/Asks.antt =====
-- What the planner counts for the service is what the scan asks it for.
use package.text.Mathlib.TextEquality.{eq_iff}
use ocgeo_fdw.Prelude.{
  ℕ, ◌≡◌, refl, sym, ◌∙◌, inl, inr, Bool, true, false, String, Option, some, Option-cases, List, [],
  ◌∷◌, ◌++◌, arith,
}
use mathlib.Core.Path.{subst}
use ocgeo_fdw.Prelude.Int.{pos, ltb_ℤ}
use ocgeo_fdw.Prelude.Exec.{ok, >>=-eq-ok, ok-injective}
use ocgeo_fdw.Server.{Var, OpHead, Node, var, const, op_expr, nil, cons, Bitmapsets, Server}
use ocgeo_fdw.Quals.{
  Qual, extract_restrictions, extract_clause_from_op_expr, canonical_op_expr,
  swap_operands_as_needed, unnest_clause, canonical_form, add_qual,
}
use ocgeo_fdw.Quals.Total.{operator_returns}
use ocgeo_fdw.Quals.Canonical.{Adds, nothing, one, extract_restrictions-Adds}
use ocgeo_fdw.Planner.Classified.{IsServable}
use ocgeo_fdw.World.{World}
use ocgeo_fdw.Scan.{ScanState, Plan, collect_quals, begin_foreign_scan}
use ocgeo_fdw.Scan.Begin.{gives, or_last, last_given, begin_foreign_scan-Begun}

-- What the server says of a constant: it is not volatile and names no relation.
pub record KnowsConstants {B : Bitmapsets} (P : Server B) : Type 0 where
  pub not_volatile :
      (isnull : Bool) (v : P.Datum) → P.contain_volatile_functions (const isnull v) ≡ false
  pub names_none :
      (r : ℕ) (isnull : Bool) (v : P.Datum)
      → B.is_subset (B.make_singleton r) (P.pull_varnos (const isnull v)) ≡ false

module _ {B : Bitmapsets} (P : Server B) (laws : KnowsConstants P) where
  -- A column compared with a constant is a restriction as it stands.
  extract_column :
      (r : ℕ) (op : OpHead) (v : Var) (isnull : Bool) (d : P.Datum) (quals : List (Qual P.Datum))
      {quals' : List (Qual P.Datum)}
      → B.is_member v.varno (B.make_singleton r) ≡ true
      → ltb_ℤ (pos 0) v.varattno ≡ true
      → extract_restrictions P
          (B.make_singleton r)
          (op_expr op (cons (var v) (cons (const isnull d) nil)))
          quals
        ≡ ok quals'
      → quals'
        ≡ quals ++ record { left = v; opname = P.get_opname op.opno; right = const isnull d } ∷ []
  unfolding unnest_clause extract_restrictions extract_clause_from_op_expr canonical_op_expr
      swap_operands_as_needed
  extract_column r op v isnull d quals member column h = elim (Option-cases (P.oprcom op.opno)) [
    | inl missing ↦ absurd (cc (rw (missing, swap_operands_as_needed) at h))
    | inr (c, e) ↦
        let returned =
          operator_returns P (B.make_singleton r) op (var v) (const isnull d) c quals e in
        ok-injective (
          sym h
          ∙ returned
          ∙ rw
              (
                canonical_form,
                member,
                column,
                add_qual,
                laws.not_volatile isnull d,
                laws.names_none r isnull d,
              )
              refl)
  ]

module _ (W : World) (params : ℕ → W.server.Datum × Bool) where
  open W use {server as P, column_names as names, bitmapsets as B}

  or_last_assoc {ℓ} :
      {A : Type ℓ} (a b c : Option A)
      → or_last W params (or_last W params a b) c ≡ or_last W params a (or_last W params b c)
  or_last_assoc a b c = ground arith

  last_given-append :
      (attname op : String) (xs ys : List (Qual P.Datum))
      → last_given W params attname op (xs ++ ys)
        ≡ or_last W params (last_given W params attname op ys) (last_given W params attname op xs)
  unfolding last_given
  last_given-append attname op [] ys = ground arith
  last_given-append attname op (x ∷ xs) ys = rw (last_given-append attname op xs ys) (
      or_last_assoc (last_given W params attname op ys) (last_given W params attname op xs)
        (gives W params attname op x))

  -- Some restriction gives a query.
  abbrev IsAsked : List (Qual P.Datum) → Type 0
  IsAsked qs = (v : P.Datum) × (last_given W params "q" "=" qs ≡ some v)

  IsAsked-append : (xs ys : List (Qual P.Datum)) → IsAsked xs → IsAsked (xs ++ ys)
  IsAsked-append xs ys (v, e) = elim (Option-cases (last_given W params "q" "=" ys)) [
    | inl e' ↦ (v, rw (last_given-append "q" "=" xs ys, e') e)
    | inr (w, e') ↦ (w, rw (last_given-append "q" "=" xs ys, e') refl)
  ]

  IsAsked-end :
      (xs : List (Qual P.Datum)) (q : Qual P.Datum) {v : P.Datum}
      → gives W params "q" "=" q ≡ some v
      → IsAsked (xs ++ q ∷ [])
  unfolding last_given
  IsAsked-end xs q {v} e = (v, rw (last_given-append "q" "=" xs (q ∷ []), e) refl)

  Adds-IsAsked :
      (base : B.Set) (node : Node P.Datum) {before after : List (Qual P.Datum)}
      → Adds P base node before after
      → IsAsked before
      → IsAsked after
  Adds-IsAsked base node (nothing e) h = subst IsAsked (sym e) h
  Adds-IsAsked base node (one op a b q ne e pushable says) h =
      subst IsAsked (sym e) (IsAsked-append _ (q ∷ []) h)

  collect_quals-IsAsked :
      (r : ℕ) (es : List (Node P.Datum)) (quals : List (Qual P.Datum))
      {quals' : List (Qual P.Datum)}
      → IsAsked quals
      → collect_quals W r es quals ≡ ok quals'
      → IsAsked quals'
  unfolding collect_quals
  collect_quals-IsAsked r [] quals asked h = subst IsAsked (ok-injective h) asked
  collect_quals-IsAsked r (e ∷ es) quals asked h =
      let (q₁, first, rest) = >>=-eq-ok (extract_restrictions P (B.make_singleton r) e quals) _ h in
      collect_quals-IsAsked r es q₁
        (Adds-IsAsked _ e (extract_restrictions-Adds P (B.make_singleton r) e quals first) asked)
        rest

module _ (W : World) where
  open W use {server as P, column_names as names, bitmapsets as B}

  -- A condition on the query column, as the planner counts it for the service, with a constant.
  pub record IsQuestion (r : ℕ) (clause : Node P.Datum) : Type 0 where
    pub outer_relids : B.Set
    pub servable :
        IsServable P names
          (B.make_singleton r)
          (record { clause = clause; outer_relids = outer_relids })
    pub by_equality : P.get_opname servable.op.opno ≡ "="
    pub value : P.Datum
    pub constant : servable.operand ≡ const false value
    pub not_zero : P.is_zero value ≡ false
    pub is_column : ltb_ℤ (pos 0) servable.column.varattno ≡ true
    pub one_name :
        names.tuple_attname servable.column.varattno ≡ names.relid_attname servable.column.varattno

  equality_lem : {op : String} → op ≡ "=" → op ≡ ">=" → ⊥
  equality_lem e e' = ground (arith, eq_iff "=" ">=")

module _ (W : World) (params : ℕ → W.server.Datum × Bool) where
  open W use {server as P, column_names as names, bitmapsets as B}

  IsQuestion-gives :
      (r : ℕ) (clause : Node P.Datum) (h : IsQuestion W r clause)
      → gives W params "q" "=" (record {
        left = h.servable.column;
        opname = P.get_opname h.servable.op.opno;
        right = const false h.value;
      })
        ≡ some h.value
  IsQuestion-gives r clause h = elim h.servable.named [
    | inl (opname, attname) ↦ rw (h.one_name, attname, opname, h.not_zero) refl
    | inr (opname, attname) ↦ absurd (equality_lem W h.by_equality opname)
  ]

  collect_quals_question :
      (laws : KnowsConstants P) (r : ℕ) (before after : List (Node P.Datum)) (clause : Node P.Datum)
      (quals : List (Qual P.Datum)) {quals' : List (Qual P.Datum)}
      → IsQuestion W r clause
      → collect_quals W r (before ++ clause ∷ after) quals ≡ ok quals'
      → IsAsked W params quals'
  unfolding collect_quals
  collect_quals_question laws r [] after clause quals q h =
      let (q₁, first, rest) =
        >>=-eq-ok (extract_restrictions P (B.make_singleton r) clause quals) _ h in
      let added =
        extract_column P laws r q.servable.op q.servable.column false q.value quals
          q.servable.of_table q.is_column (rw (q.servable.form, q.constant) at first) in
      collect_quals-IsAsked W params r after q₁
        (subst (IsAsked W params) (sym added)
          (IsAsked-end W params quals _ (IsQuestion-gives r clause q)))
        rest
  collect_quals_question laws r (e ∷ es) after clause quals q h =
      let (q₁, first, rest) = >>=-eq-ok (extract_restrictions P (B.make_singleton r) e quals) _ h in
      collect_quals_question laws r es after clause q₁ q rest

module _ (W : World) where
  open W use {server as P, column_names as names, bitmapsets as B}

  -- On a server where a constant is not volatile and names no relation, a scan that has begun on a
  -- plan with a condition `q = …` that the planner counts for the service, on a column that the
  -- catalogs call by one name and with a constant that is not null, asks for a query, whatever other
  -- clauses the plan has.
  pub begin_foreign_scan-asks :
      (laws : KnowsConstants P) (plan : Plan W) (explain_only : Bool) (hash : Option W.htab.Table)
      (before after : List (Node P.Datum)) (clause : Node P.Datum) {s : ScanState W}
      {hash' : Option W.htab.Table}
      → plan.fdw_exprs ≡ before ++ clause ∷ after
      → IsQuestion W plan.scanrelid clause
      → begin_foreign_scan W plan explain_only hash ≡ ok (s, hash')
      → (query : String) × (s.qual_value ≡ some query)
  begin_foreign_scan-asks laws plan explain_only hash before after clause e q h =
      let begun = begin_foreign_scan-Begun W plan explain_only hash h in
      let (v, given) =
        collect_quals_question W plan.params laws plan.scanrelid before after clause [] q
          (rw e at begun.collected) in
      (P.text_to_cstring v, begun.query ∙ rw given refl)
