-- ===== src/Planner/Tests.antt =====
-- The planner on a table with a condition on its query column, and its theorems there.
use ocgeo_fdw.Prelude.{ℕ, ◌≡◌, refl, false, none, some, Bool, String, List, [], ◌∷◌}
use ocgeo_fdw.Prelude.Exec.{ok, crash, misread_node}
use ocgeo_fdw.Samples.Database.{
  operator, database, table_names, q_column, confidence_column, is_berlin, is_confident,
}
use ocgeo_fdw.Planner.{
  get_foreign_plan, ForeignScan, RestrictInfo, RelOptInfo, PlannerInfo, Conditions, PlanState,
  ForeignPath, is_remote, classify_from, classify_conditions, query_attnum, class_joins,
  outer_joins, find_paths, get_foreign_paths,
}
use ocgeo_fdw.Planner.Columns.{needed_columns, pick_column, columns_from, column_list}
use ocgeo_fdw.Planner.Classified.{Splits, classify_conditions-Splits}
use ocgeo_fdw.Planner.Printing.{print_clause, print_clauses, print_restrict_info_list}
use ocgeo_fdw.Server.{TypeId, int4, Node, var, param, op_expr, cons, nil}

abbrev on_query : RestrictInfo database
on_query = record { clause = is_berlin; outer_relids = [] }

-- `5 <= confidence` stays, since its column is the second operand.
abbrev on_confidence : RestrictInfo database
on_confidence = record { clause = is_confident; outer_relids = [] }

abbrev rel : RelOptInfo database
rel = record {
  relid = 1;
  relids = 1 ∷ [];
  max_attr = 3;
  target_exprs = confidence_column ∷ q_column ∷ [];
  baserestrictinfo = on_query ∷ on_confidence ∷ [];
  rows = 50;
  width = 100;
}

abbrev conditions : Conditions database
conditions = record { remote_conds = on_query ∷ []; local_conds = on_confidence ∷ [] }

abbrev state : PlanState database
state = record { conditions = conditions; startup_cost = 25; total_cost = 75 }

abbrev root : PlannerInfo database
root = record { eq_classes = []; left_join_clauses = []; right_join_clauses = [] }

abbrev attributes : List (String × Bool)
attributes = ("q", false) ∷ ("confidence", false) ∷ ("formatted", false) ∷ []

abbrev simple_path : ForeignPath database
simple_path = record { rows = 50; startup_cost = 25; total_cost = 5000; param_info = none }

classified :
    classify_conditions database table_names rel (on_query ∷ on_confidence ∷ []) ≡ ok conditions
unfolding classify_conditions classify_from is_remote
classified = refl

classify_conditions-Splits_example :
    Splits database table_names
      (1 ∷ [])
      (on_query ∷ on_confidence ∷ [])
      (on_query ∷ [])
      (on_confidence ∷ [])
classify_conditions-Splits_example =
    classify_conditions-Splits database table_names rel (on_query ∷ on_confidence ∷ []) classified

columns_in_order : column_list database rel ≡ q_column ∷ confidence_column ∷ []
unfolding column_list needed_columns columns_from pick_column
columns_in_order = refl

one_path : get_foreign_paths database root rel attributes state ≡ simple_path ∷ []
unfolding get_foreign_paths find_paths query_attnum class_joins outer_joins
one_path = refl

-- The numbers of the types in the catalog.
abbrev type_oid : TypeId → ℕ
type_oid int4 = 23
type_oid _ = 25

abbrev actual_clauses : List (RestrictInfo database) → List (Node database.Datum)
actual_clauses [] = []
actual_clauses (ri ∷ ris) = ri.clause ∷ actual_clauses ris

abbrev asked : RelOptInfo database
asked = record rel { baserestrictinfo = on_query ∷ [] }

abbrev planned : List (RestrictInfo database) → ForeignScan database
planned scan_clauses = record {
  qual = actual_clauses scan_clauses;
  scanrelid = 1;
  fdw_exprs = actual_clauses scan_clauses;
  fdw_private = column_list database asked;
}

asked_text :
    print_restrict_info_list database table_names type_oid (on_query ∷ on_query ∷ [])
    ≡ ok (some "(q = 'Berlin') AND (q = 'Berlin')")
unfolding print_restrict_info_list print_clauses print_clause
asked_text = refl

-- `q = $1`, as the plan of a prepared statement has it.
abbrev on_parameter : RestrictInfo database
on_parameter = record {
  clause = op_expr (operator 98) (cons (var q_column) (cons (param 1) nil));
  outer_relids = [];
}

parameter_faults :
    get_foreign_plan database table_names type_oid actual_clauses
      (record rel { baserestrictinfo = on_parameter ∷ [] })
      (on_parameter ∷ [])
    ≡ crash misread_node
unfolding get_foreign_plan print_restrict_info_list print_clauses print_clause
parameter_faults = refl
