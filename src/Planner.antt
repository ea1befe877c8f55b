-- ===== src/Planner.antt =====
-- Planning in ocgeo_fdw.c: classifyConditions, isAttrInRestrictInfo,
-- clausesInvolvingAttr, findPaths, ocgeoGetForeignPaths and ocgeoGetForeignPlan. The child Printing
-- is printRestrictInfoList, the child Columns is ColumnList.
mod Types
pub mod Printing
pub mod Columns
pub mod Classified
mod Joined
pub mod Paths
pub mod Needed
pub mod Wanted
pub mod Plans
mod Tests
pub use Types.*
use text.Mathlib.Text.{◌==◌ as str_eq}
use ocgeo_fdw.Prelude.{
  ℕ, zero, suc, ◌+◌, ◌*◌, Bool, true, false, not, ◌&&◌, ◌||◌, ◌==◌, String, Option, none, some,
  List, [], ◌∷◌, ◌++◌, length, ltb, if◌then◌else◌,
}
use ocgeo_fdw.Prelude.Int.{ℤ, pos, eqb_ℤ}
use ocgeo_fdw.Options.{TableOptions}
use ocgeo_fdw.Prelude.Exec.{Exec, ok, error, cache_lookup_failed, crash, misread_node, ◌>>=◌}
use ocgeo_fdw.Server.{
  TypeId, Var, OpHead, Node, var, const, op_expr, Nodes, nil, cons, Bitmapsets, Server,
}
use ocgeo_fdw.World.{ColumnNames}
use ocgeo_fdw.Planner.Columns.{column_list}
use ocgeo_fdw.Planner.Printing.{print_restrict_info_list}

module _ {B : Bitmapsets} (P : Server B) where
  -- A condition on the query or on the confidence is for the service.
  abbrev pub is_remote_name : String → String → Bool
  is_remote_name opname attname =
      (str_eq opname "=" && str_eq attname "q")
      || (str_eq opname ">=" && str_eq attname "confidence")

  abbrev is_const : Node P.Datum → Bool
  is_const (const isnull v) = true
  is_const _ = false

  -- The tests of one condition. The code turns to `add_local` only if neither operand is of the
  -- kind that is wanted, and then takes the first operand for a column, whatever it is.
  abbrev pub is_remote_column : ColumnNames → B.Set → OpHead → Var → Exec Bool
  is_remote_column names relids op v =
      if B.is_member v.varno relids
      then (if names.has_column v.varattno
          then ok (is_remote_name (P.get_opname op.opno) (names.relid_attname v.varattno))
          else error cache_lookup_failed)
      else ok false

  unfoldable pub is_remote : ColumnNames → B.Set → Node P.Datum → Exec Bool
  is_remote names relids (op_expr op (cons (var v) (cons b nil))) =
      is_remote_column names relids op v
  is_remote names relids (op_expr op (cons a (cons b nil))) =
      if is_const b then crash misread_node else ok false
  is_remote names relids clause = ok false

  -- The conditions for the service and those that stay here, in their order.
  pub record Conditions : Type 0 where
    pub remote_conds : List (RestrictInfo P)
    pub local_conds : List (RestrictInfo P)

  abbrev pub add_condition : Bool → RestrictInfo P → Conditions → Conditions
  add_condition true ri c = record c { remote_conds = c.remote_conds ++ ri ∷ [] }
  add_condition false ri c = record c { local_conds = c.local_conds ++ ri ∷ [] }

  unfoldable pub classify_from :
      ColumnNames → B.Set → List (RestrictInfo P) → Conditions → Exec Conditions
  unfolding is_remote
  classify_from names relids [] c = ok c
  classify_from names relids (ri ∷ ris) c = is_remote names relids ri.clause >>= λ remote.
      classify_from names relids ris (add_condition remote ri c)

  unfoldable pub classify_conditions :
      ColumnNames → RelOptInfo P → List (RestrictInfo P) → Exec Conditions
  unfolding classify_from
  classify_conditions names baserel input_conds =
      classify_from names baserel.relids input_conds
        (record { remote_conds = []; local_conds = [] })

  unfoldable pub has_var : ℕ → ℕ → List Var → Bool
  has_var relid attno [] = false
  has_var relid attno (v ∷ vs) =
      (v.varno == relid && eqb_ℤ v.varattno (pos attno)) || has_var relid attno vs

  unfoldable pub is_attr_in_restrict_info : ℕ → ℕ → RestrictInfo P → Bool
  unfolding has_var
  is_attr_in_restrict_info relid attno ri = has_var relid attno (P.pull_var_clause ri.clause)

  unfoldable pub clauses_with_attr : ℕ → ℕ → List (RestrictInfo P) → List (RestrictInfo P)
  clauses_with_attr relid attnum [] = []
  clauses_with_attr relid attnum (ri ∷ ris) =
      let rest = clauses_with_attr relid attnum ris in
      if is_attr_in_restrict_info relid attnum ri then ri ∷ rest else rest

  -- A class of one member is left alone.
  unfoldable pub clauses_involving_attr : ℕ → ℕ → EquivalenceClass P → List (RestrictInfo P)
  unfolding clauses_with_attr
  clauses_involving_attr relid attnum ec =
      if ltb 1 ec.members then clauses_with_attr relid attnum ec.sources else []

  -- The attribute number of the query column: the first of that name that is not dropped.
  unfoldable pub query_attnum : ℕ → List (String × Bool) → Option ℕ
  query_attnum i [] = none
  query_attnum i ((attname, isdropped) ∷ attrs) =
      let rest = query_attnum (i + 1) attrs in
      if isdropped then rest else (if str_eq attname "q" then some (i + 1) else rest)

  -- The join clauses on the query column and the relations that they name.
  pub record Joins : Type 0 where
    pub clauses : List (RestrictInfo P)
    pub outer_relids : B.Set

  unfoldable pub class_joins : ℕ → ℕ → List (EquivalenceClass P) → Joins → Joins
  class_joins relid attnum [] j = j
  class_joins relid attnum (ec ∷ ecs) j =
      let ec_clauses = clauses_involving_attr relid attnum ec in
      class_joins relid attnum ecs (record {
        clauses = j.clauses ++ ec_clauses;
        outer_relids = elim ec_clauses [
          | [] ↦ j.outer_relids
          | _ ∷ _ ↦ B.union j.outer_relids ec.relids
        ];
      })

  unfoldable pub outer_joins : ℕ → ℕ → List (RestrictInfo P) → Joins → Joins
  outer_joins relid attnum [] j = j
  outer_joins relid attnum (ri ∷ ris) j = outer_joins relid attnum ris (
      if is_attr_in_restrict_info relid attnum ri
      then record {
        clauses = j.clauses ++ ri ∷ [];
        outer_relids = B.union j.outer_relids ri.outer_relids;
      }
      else j)

  -- A path with its costs, and its parameters if it has any.
  pub record ForeignPath : Type 0 where
    pub rows : ℕ
    pub startup_cost : ℕ
    pub total_cost : ℕ
    pub param_info : Option Joins

  abbrev pub join_path : RelOptInfo P → ℕ → Joins → List ForeignPath
  join_path baserel startup_cost j =
      let req_outer = B.difference j.outer_relids (B.make_singleton baserel.relid) in
      if B.is_empty req_outer
      then []
      else record {
        rows = 10;
        startup_cost = startup_cost;
        total_cost = 10 * baserel.width;
        param_info = some (record { clauses = j.clauses; outer_relids = req_outer });
      }
        ∷ []

  abbrev pub joins_of : PlannerInfo P → RelOptInfo P → ℕ → Joins
  joins_of root baserel attnum =
      outer_joins baserel.relid attnum
        (P.list_union (RestrictInfo P) root.left_join_clauses root.right_join_clauses)
        (class_joins baserel.relid attnum root.eq_classes
          (record { clauses = []; outer_relids = B.empty }))

  unfoldable pub find_paths :
      PlannerInfo P → RelOptInfo P → List (String × Bool) → ℕ → List ForeignPath
  find_paths root baserel attrs startup_cost = elim (query_attnum 0 attrs) [
    | none ↦ []
    | some attnum ↦ elim (joins_of root baserel attnum).clauses [
      | [] ↦ []
      | _ ∷ _ ↦ join_path baserel startup_cost (joins_of root baserel attnum)
    ]
  ]

  -- What ocgeoGetForeignRelSize leaves for the later calls, and the rows that it estimates.
  pub record PlanState : Type 0 where
    pub conditions : Conditions
    pub startup_cost : ℕ
    pub total_cost : ℕ

  -- It ends where ocgeoGetOptions does, whose result is not used.
  unfoldable pub get_foreign_rel_size :
      ColumnNames → Exec TableOptions → RelOptInfo P → Exec (PlanState × RelOptInfo P)
  unfolding classify_conditions
  get_foreign_rel_size names table_options baserel =
      classify_conditions names baserel baserel.baserestrictinfo >>= λ c. table_options >>= λ _.
      ok (
        record { conditions = c; startup_cost = 25; total_cost = 25 + 50 },
        record baserel { rows = 50 },
      )

  -- The simple path, where a condition is for the service and no join gives a path.
  abbrev pub default_path : RelOptInfo P → PlanState → ForeignPath
  default_path baserel state = record {
    rows = baserel.rows;
    startup_cost = state.startup_cost;
    total_cost = baserel.rows * baserel.width;
    param_info = none;
  }

  abbrev pub or_default_path : RelOptInfo P → PlanState → List ForeignPath → List ForeignPath
  or_default_path baserel state [] =
      if ltb 0 (length state.conditions.remote_conds) then default_path baserel state ∷ [] else []
  or_default_path baserel state (p ∷ ps) = p ∷ ps

  unfoldable pub get_foreign_paths :
      PlannerInfo P → RelOptInfo P → List (String × Bool) → PlanState → List ForeignPath
  unfolding find_paths
  get_foreign_paths root baserel attrs state =
      or_default_path baserel state (find_paths root baserel attrs state.startup_cost)

  -- The plan: the clauses are evaluated before the scan and checked again after it.
  pub record ForeignScan : Type 0 where
    pub qual : List (Node P.Datum)
    pub scanrelid : ℕ
    pub fdw_exprs : List (Node P.Datum)
    pub fdw_private : List Var

  unfoldable pub get_foreign_plan :
      ColumnNames
      → (TypeId → ℕ)
      → (List (RestrictInfo P) → List (Node P.Datum))
      → RelOptInfo P
      → List (RestrictInfo P)
      → Exec ForeignScan
  unfolding print_restrict_info_list column_list
  get_foreign_plan names type_oid extract_actual_clauses baserel scan_clauses =
      print_restrict_info_list P names type_oid baserel.baserestrictinfo >>= λ printed. ok (
        let clauses = extract_actual_clauses scan_clauses in
        record {
          qual = clauses;
          scanrelid = baserel.relid;
          fdw_exprs = clauses;
          fdw_private = column_list P baserel;
        })
