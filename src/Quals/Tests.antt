-- ===== src/Quals/Tests.antt =====
-- The restrictions of clauses, and the theorem on them at one.
use ocgeo_fdw.Prelude.{◌+◌, ◌==◌, if◌then◌else◌, none, some, ◌≡◌, refl, false, List, [], ◌∷◌}
use ocgeo_fdw.Prelude.Int.{pos}
use ocgeo_fdw.Prelude.Exec.{ok}
use ocgeo_fdw.Server.{const}
use ocgeo_fdw.Samples.Database.{
  Datum, text_datum, int_datum, database, q_column, confidence_column, is_berlin, is_confident,
}
use ocgeo_fdw.Quals.{
  colname_from_var, Qual, unnest_clause, swap_operands_as_needed, canonical_op_expr,
  extract_clause_from_op_expr, extract_restrictions,
}
use ocgeo_fdw.Quals.Canonical.{Adds, extract_restrictions-Adds}

abbrev on_q : List (Qual Datum)
on_q = record { left = q_column; opname = "="; right = const false (text_datum "Berlin") } ∷ []

abbrev on_confidence : List (Qual Datum)
on_confidence =
    record { left = confidence_column; opname = ">="; right = const false (int_datum (pos 5)) } ∷ []

restriction_of_q : extract_restrictions database (1 ∷ []) is_berlin [] ≡ ok on_q
unfolding extract_restrictions extract_clause_from_op_expr canonical_op_expr swap_operands_as_needed
    unnest_clause
restriction_of_q = refl

restriction_of_confidence :
    extract_restrictions database (1 ∷ []) is_confident [] ≡ ok on_confidence
unfolding extract_restrictions extract_clause_from_op_expr canonical_op_expr swap_operands_as_needed
    unnest_clause
restriction_of_confidence = refl

extract_restrictions-Adds_example : Adds database (1 ∷ []) is_confident [] on_confidence
extract_restrictions-Adds_example =
    extract_restrictions-Adds database (1 ∷ []) is_confident [] restriction_of_confidence

q_named :
    colname_from_var
      (λ r. r + 100)
      (λ relid attno. if relid == 101 then some "q" else none)
      q_column
    ≡ some "q"
unfolding colname_from_var
q_named = refl
