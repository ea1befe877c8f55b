-- ===== src/Planner/Printing.antt =====
-- The text of a table's conditions (printRestrictInfoList in ocgeo_fdw.c). It goes to the log, but
-- it is made whatever the log's level is.
pub mod Printed
use package.text.Mathlib.Text
use ocgeo_fdw.Prelude.{ℕ, Bool, String, Option, none, some, List, [], ◌∷◌, if◌then◌else◌}
use ocgeo_fdw.Prelude.Int.{pos}
use ocgeo_fdw.Prelude.Ctext.{◌<>◌, print_int}
use ocgeo_fdw.Prelude.Exec.{
  error, cache_lookup_failed, Exec, ok, crash, null_dereference, misread_node, ◌>>=◌,
}
use ocgeo_fdw.Server.{
  TypeId, text, varchar, int2, int4, OpHead, Var, Node, var, const, op_expr, Nodes, nil, cons,
  Bitmapsets, Server,
}
use ocgeo_fdw.World.{ColumnNames}
use ocgeo_fdw.Planner.Types.{RestrictInfo}

module _ {B : Bitmapsets} (P : Server B) (names : ColumnNames) (type_oid : TypeId → ℕ) where
  -- The second operand is taken for a constant, whatever it is.
  abbrev pub text_operand : Node P.Datum → Exec String
  text_operand (const isnull v) =
      if P.is_zero v then crash null_dereference else ok ("'" <> P.text_to_cstring v <> "')")
  text_operand _ = crash misread_node

  abbrev pub int_operand : Node P.Datum → Exec String
  int_operand (const isnull v) = ok (print_int (P.datum_get_int32 v) <> ")")
  int_operand _ = crash misread_node

  -- The switch on the type of the column.
  abbrev pub print_operand : TypeId → Node P.Datum → Exec String
  print_operand text b = text_operand b
  print_operand varchar b = text_operand b
  print_operand int4 b = int_operand b
  print_operand int2 b = int_operand b
  print_operand t b = ok ("..{" <> print_int (pos (type_oid t)) <> "})")

  -- One condition, or nothing where it is passed over. The first operand is taken for a column,
  -- whatever it is, and the second is read without a look at their number.
  unfoldable pub print_clause : Node P.Datum → Exec (Option String)
  unfolding print_int
  print_clause (op_expr op nil) = ok none
  print_clause (op_expr op (cons a nil)) = crash null_dereference
  print_clause (op_expr op (cons (var v) (cons b rest))) =
      if names.has_column v.varattno
      then (print_operand v.vartype b >>= λ t.
          ok (
            some
              ("(" <> names.relid_attname v.varattno <> " " <> P.get_opname op.opno <> " " <> t)))
      else error cache_lookup_failed
  print_clause (op_expr op (cons a (cons b rest))) = crash misread_node
  print_clause clause = ok none

  abbrev pub and_if_more : List (RestrictInfo P) → String
  and_if_more [] = ""
  and_if_more (_ ∷ _) = " AND "

  abbrev pub append_clause : Option String → List (RestrictInfo P) → String → String
  append_clause none ris t = t
  append_clause (some clause) ris t = t <> clause <> and_if_more ris

  -- The loop, with the text so far.
  unfoldable pub print_clauses : List (RestrictInfo P) → String → Exec String
  unfolding print_clause
  print_clauses [] t = ok t
  print_clauses (ri ∷ ris) t =
      print_clause ri.clause >>= λ clause. print_clauses ris (append_clause clause ris t)

  -- Nothing is printed of no conditions.
  unfoldable pub print_restrict_info_list : List (RestrictInfo P) → Exec (Option String)
  unfolding print_clauses
  print_restrict_info_list [] = ok none
  print_restrict_info_list (ri ∷ ris) = print_clauses (ri ∷ ris) "" >>= λ t. ok (some t)
