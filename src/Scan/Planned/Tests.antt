-- ===== src/Scan/Planned/Tests.antt =====
-- A table with three columns, planned with a condition on its query and scanned.
use ocgeo_fdw.Prelude.{
  ℕ, zero, suc, ◌<◌, ◌≡◌, refl, inl, false, none, some, String, List, [], ◌∷◌, arith,
}
use ocgeo_fdw.Prelude.Int.{pos}
use ocgeo_fdw.Prelude.Exec.{ok}
use ocgeo_fdw.Server.{TypeId, int4, Node, const}
use ocgeo_fdw.Samples.Database.{
  database, world, table_names, q_column, confidence_column, is_berlin, is_confident, operator,
  text_datum,
}
use ocgeo_fdw.Planner.{RestrictInfo, RelOptInfo, ForeignScan, get_foreign_plan}
use ocgeo_fdw.Planner.Columns.{needed_columns, pick_column, columns_from, column_list}
use ocgeo_fdw.Planner.Printing.{print_clause, print_clauses, print_restrict_info_list}
use ocgeo_fdw.Scan.Asks.{KnowsConstants, IsQuestion, begin_foreign_scan-asks}
use ocgeo_fdw.Scan.Tests.{plan, begun, scan_begun, plan-Works}
use ocgeo_fdw.Scan.Returns.{Works}
use ocgeo_fdw.Scan.Planned.{HasNames, on_plan}

abbrev pub on_query : RestrictInfo database
on_query = record { clause = is_berlin; outer_relids = [] }

abbrev pub rel : RelOptInfo database
rel = record {
  relid = 1;
  relids = 1 ∷ [];
  max_attr = 3;
  target_exprs = confidence_column ∷ q_column ∷ [];
  baserestrictinfo = on_query ∷ [];
  rows = 50;
  width = 100;
}

abbrev pub type_oid : TypeId → ℕ
type_oid int4 = 23
type_oid _ = 25

abbrev pub actual_clauses : List (RestrictInfo database) → List (Node database.Datum)
actual_clauses [] = []
actual_clauses (ri ∷ ris) = ri.clause ∷ actual_clauses ris

abbrev foreign_scan : ForeignScan database
foreign_scan = record {
  qual = is_berlin ∷ [];
  scanrelid = 1;
  fdw_exprs = is_berlin ∷ [];
  fdw_private = q_column ∷ confidence_column ∷ [];
}

rel_planned :
    get_foreign_plan database table_names type_oid actual_clauses rel (on_query ∷ [])
    ≡ ok foreign_scan
unfolding get_foreign_plan print_restrict_info_list print_clauses print_clause column_list
    needed_columns columns_from pick_column
rel_planned = refl

three_names :
    (i j : ℕ)
    → i < 3
    → j < 3
    → table_names.relid_attname (pos (suc i)) ≡ table_names.relid_attname (pos (suc j))
    → i ≡ j
three_names zero zero hi hj e = refl
three_names zero (suc zero) hi hj e = cc
three_names zero (suc (suc zero)) hi hj e = cc
three_names (suc zero) zero hi hj e = cc
three_names (suc zero) (suc zero) hi hj e = refl
three_names (suc zero) (suc (suc zero)) hi hj e = cc
three_names (suc (suc zero)) zero hi hj e = cc
three_names (suc (suc zero)) (suc zero) hi hj e = cc
three_names (suc (suc zero)) (suc (suc zero)) hi hj e = refl
three_names (suc (suc (suc i))) j hi hj e = absurd (omega arith)
three_names i (suc (suc (suc j))) hi hj e = absurd (omega arith)

pub rel-HasNames : HasNames table_names 3
rel-HasNames = record { apart = three_names }

pub planned-Works : Works world (on_plan world foreign_scan plan) none
planned-Works = record {
  simple = (plan-Works.simple.0, tt);
  limit = plan-Works.limit;
  bucket = plan-Works.bucket;
  timely = plan-Works.timely;
  service = plan-Works.service;
}

pub database-KnowsConstants : KnowsConstants database
database-KnowsConstants = record {
  not_volatile = λ isnull v. refl;
  names_none = λ r isnull v. refl;
}

abbrev pub berlin_question : IsQuestion world 1 is_berlin
berlin_question = record {
  outer_relids = [];
  servable = record {
    op = operator 98;
    column = q_column;
    operand = const false (text_datum "Berlin");
    form = refl;
    of_table = refl;
    named = inl (refl, refl);
  };
  by_equality = refl;
  value = text_datum "Berlin";
  constant = refl;
  not_zero = refl;
  is_column = refl;
  one_name = refl;
}

begin_foreign_scan-asks_example : (query : String) × (begun.qual_value ≡ some query)
begin_foreign_scan-asks_example =
    begin_foreign_scan-asks world database-KnowsConstants plan false none [] (is_confident ∷ [])
      is_berlin refl berlin_question scan_begun
