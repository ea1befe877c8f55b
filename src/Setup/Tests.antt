-- ===== src/Setup/Tests.antt =====
-- A process that loads the module, and a query on a table with a condition on its query column.
use ocgeo_fdw.Prelude.{◌≡◌, refl, false, none, String, Bool, [], ◌∷◌, List, arith}
use ocgeo_fdw.Samples.{texts-AppendsText}
use ocgeo_fdw.Samples.Database.{
  database, world, columns-IsNameMap, users-IsMap, is_berlin, q_column, confidence_column,
}
use ocgeo_fdw.Planner.{PlannerInfo}
use ocgeo_fdw.Planner.Columns.{column_list, needed_columns}
use ocgeo_fdw.Scan.Tests.{plan}
use ocgeo_fdw.Scan.Planned.Tests.{
  rel, on_query, type_oid, actual_clauses, rel-HasNames, planned-Works, database-KnowsConstants,
  berlin_question,
}
use ocgeo_fdw.Setup.{other_hook, pg_init, run_hooks, fdw_handler}
use ocgeo_fdw.Setup.Query.{Serves, fdw_handler-Serves}

-- The module sets libcurl up once, and its hook cleans it up once.
loaded :
    run_hooks (other_hook 7 ∷ (pg_init (record { curl_users = 1; exit_hooks = [] })).exit_hooks) 2
    ≡ 1
unfolding pg_init run_hooks
loaded = refl

abbrev root : PlannerInfo database
root = record { eq_classes = []; left_join_clauses = []; right_join_clauses = [] }

abbrev attrs : List (String × Bool)
attrs = ("q", false) ∷ ("confidence", false) ∷ []

fdw_handler-Serves_example :
    Serves world
      (fdw_handler world type_oid actual_clauses)
      root
      rel
      attrs
      (on_query ∷ [])
      plan
      none
      0
unfolding column_list needed_columns
fdw_handler-Serves_example =
    fdw_handler-Serves world texts-AppendsText columns-IsNameMap database-KnowsConstants users-IsMap
      type_oid actual_clauses root rel attrs (on_query ∷ []) plan none [] [] [] [] is_berlin 0
      (confidence_column ∷ []) (q_column ∷ []) q_column (omega arith) rel-HasNames
      ((refl, refl), tt) refl berlin_question refl refl planned-Works (omega arith) refl refl refl
