-- ===== src/Planner/Plans.antt =====
-- The plan that the planner is given, and when it is given one (ocgeoGetForeignRelSize and
-- ocgeoGetForeignPlan).
use ocgeo_fdw.Prelude.{
  false, Bool-cases, inl, inr, ◌≡◌, ◌↔◌, refl, sym, ap, ℕ, Bool, List, [], ◌∷◌, All,
}
use ocgeo_fdw.Prelude.Exec.{ok, >>=-eq-ok, ok-injective}
use ocgeo_fdw.Server.{TypeId, Node, var, op_expr, nil, cons, Bitmapsets, Server}
use ocgeo_fdw.World.{ColumnNames}
use ocgeo_fdw.Planner.Printing.{print_restrict_info_list}
use ocgeo_fdw.Planner.Printing.Printed.{IsPrintable, print_restrict_info_list_iff}
use ocgeo_fdw.Planner.{
  RestrictInfo, RelOptInfo, Conditions, ForeignScan, get_foreign_plan, is_remote_name, is_remote,
  classify_from, classify_conditions, add_condition,
}
use ocgeo_fdw.Planner.Columns.{column_list}

module _ {B : Bitmapsets} (P : Server B) (names : ColumnNames) where
  is_remote-returns :
      (relids : B.Set) (n : Node P.Datum)
      → IsPrintable P names n
      → (remote : Bool) × (is_remote P names relids n ≡ ok remote)
  unfolding is_remote
  is_remote-returns relids (op_expr op (cons (var v) (cons b nil))) h =
      elim (Bool-cases (B.is_member v.varno relids)) [
        | inl here ↦ (
          is_remote_name P (P.get_opname op.opno) (names.relid_attname v.varattno),
          rw (here, h.0) refl,
        )
        | inr elsewhere ↦ (false, rw elsewhere refl)
      ]
  is_remote-returns relids (op_expr op (cons (var v) (cons b (cons c rest)))) h = (_, refl)
  is_remote-returns relids (op_expr op (cons a nil)) h = absurd h
  is_remote-returns relids (op_expr op (cons a (cons b rest))) h = absurd h
  is_remote-returns relids _ h = (_, refl)

  pub classify_from-returns :
      (relids : B.Set) (ris : List (RestrictInfo P)) (c : Conditions P)
      → All (λ ri. IsPrintable P names ri.clause) ris
      → (c' : Conditions P) × (classify_from P names relids ris c ≡ ok c')
  unfolding classify_from
  classify_from-returns relids [] c h = (c, refl)
  classify_from-returns relids (ri ∷ ris) c h =
      let (remote, e) = is_remote-returns relids ri.clause h.0 in
      let (c', rest) = classify_from-returns relids ris (add_condition P remote ri c) h.1 in
      (c', rw (e, classify_from) rest)

  module _ (type_oid : TypeId → ℕ)
      (extract_actual_clauses : List (RestrictInfo P) → List (Node P.Datum)) where
    pub get_foreign_plan_iff :
        (rel : RelOptInfo P) (scan_clauses : List (RestrictInfo P)) (plan : ForeignScan P)
        → (get_foreign_plan P names type_oid extract_actual_clauses rel scan_clauses ≡ ok plan) ↔ (
            All (λ ri. IsPrintable P names ri.clause) rel.baserestrictinfo
            × ((c : Conditions P) × (classify_conditions P names rel rel.baserestrictinfo ≡ ok c))
            × (plan ≡ record {
              qual = extract_actual_clauses scan_clauses;
              scanrelid = rel.relid;
              fdw_exprs = extract_actual_clauses scan_clauses;
              fdw_private = column_list P rel;
            }))
    unfolding get_foreign_plan classify_conditions
    get_foreign_plan_iff rel scan_clauses plan = (
      λ h.
          let (o, printed, made) =
            >>=-eq-ok (print_restrict_info_list P names type_oid rel.baserestrictinfo) _ h in
          let printable =
            (print_restrict_info_list_iff P names type_oid rel.baserestrictinfo).0 (o, printed) in
          (
            printable,
            classify_from-returns rel.relids rel.baserestrictinfo _ printable,
            sym (ok-injective made),
          ),
      λ (printable, _, same).
          let (o, printed) =
            (print_restrict_info_list_iff P names type_oid rel.baserestrictinfo).1 printable in
          rw (printed, get_foreign_plan) (ap ok (sym same)),
    )
