-- ===== src/Quals.antt =====
-- Taking restrictions apart (utils.c).
pub mod Canonical
pub mod Total
mod Tests
use ocgeo_fdw.Prelude.{
  ℕ, Bool, true, false, not, ◌&&◌, ◌||◌, ◌==◌, String, Option, none, some, List, [], ◌∷◌, ◌++◌,
  if◌then◌else◌,
}
use ocgeo_fdw.Prelude.Int.{ℤ, pos, ltb_ℤ}
use ocgeo_fdw.Prelude.Exec.{Exec, ok, error, cache_lookup_failed, ◌>>=◌}
use ocgeo_fdw.Server.{
  Var, OpHead, Node, var, const, param, op_expr, relabel_type, array_coerce_expr, other_node, Nodes,
  nil, cons, Bitmapsets, Server,
}

-- An operator with its two operands.
pub record Binary (D : Type 0) : Type 0 where
  pub left : Node D
  pub right : Node D
  pub opoid : ℕ

-- A restriction on a column: the list that extractClauseFromOpExpr appends.
pub record Qual (D : Type 0) : Type 0 where
  pub left : Var
  pub opname : String
  pub right : Node D

unfoldable pub unnest_clause : {D : Type 0} → Node D → Node D
unnest_clause (relabel_type arg) = arg
unnest_clause (array_coerce_expr arg) = arg
unnest_clause node = node

-- colnameFromVar: the relation of the range table's entry, and the name of its column; NULL if there
-- is none.
unfoldable pub colname_from_var :
    (rt_fetch : ℕ → ℕ) → (get_attname : ℕ → ℤ → Option String) → Var → Option String
colname_from_var rt_fetch get_attname v = get_attname (rt_fetch v.varno) v.varattno

module _ {B : Bitmapsets} (P : Server B) where
  -- `!IsA(l, Var) || (l is of another relation and r is of this one)`, where r is a Var.
  abbrev pub should_swap : B.Set → Node P.Datum → Var → Bool
  should_swap base_relids (var l) r =
      not (B.is_member l.varno base_relids) && B.is_member r.varno base_relids
  should_swap base_relids l r = true

  abbrev pub swap_with : ℕ → Binary P.Datum → Binary P.Datum
  swap_with oprcom b =
      if oprcom == 0 then b else record { left = b.right; right = b.left; opoid = oprcom }

  abbrev pub swap_at : B.Set → ℕ → Node P.Datum → Binary P.Datum → Binary P.Datum
  swap_at base_relids oprcom (var r) b =
      if should_swap base_relids b.left r then swap_with oprcom b else b
  swap_at base_relids oprcom r b = b

  unfoldable pub swap_operands_as_needed : B.Set → Binary P.Datum → Exec (Binary P.Datum)
  swap_operands_as_needed base_relids b = elim (P.oprcom b.opoid) [
    | none ↦ error cache_lookup_failed
    | some oprcom ↦ ok (swap_at base_relids oprcom b.right b)
  ]

  -- The left operand if it is a column of the base relation.
  abbrev pub base_column : B.Set → Node P.Datum → Option Var
  base_column base_relids (var l) =
      if B.is_member l.varno base_relids && ltb_ℤ (pos 0) l.varattno then some l else none
  base_column base_relids l = none

  abbrev pub canonical_form : B.Set → Binary P.Datum → Option (Var × Binary P.Datum)
  canonical_form base_relids s = elim (base_column base_relids s.left) [
    | none ↦ none
    | some l ↦ some (l, s)
  ]

  -- canonicalOpExpr, with the column that it has put to the left.
  unfoldable pub canonical_op_expr :
      B.Set → OpHead → Nodes P.Datum → Exec (Option (Var × Binary P.Datum))
  unfolding unnest_clause swap_operands_as_needed
  canonical_op_expr base_relids op (cons a (cons b nil)) =
      swap_operands_as_needed base_relids
        (record { left = unnest_clause a; right = unnest_clause b; opoid = op.opno })
      >>= λ s. ok (canonical_form base_relids s)
  canonical_op_expr base_relids op args = ok none

  -- `contain_volatile_functions(right) || bms_is_subset(base_relids, pull_varnos(right))`
  abbrev pub is_unsafe : B.Set → Node P.Datum → Bool
  is_unsafe base_relids right =
      P.contain_volatile_functions right || B.is_subset base_relids (P.pull_varnos right)

  abbrev pub add_qual :
      B.Set → Option (Var × Binary P.Datum) → List (Qual P.Datum) → List (Qual P.Datum)
  add_qual base_relids none quals = quals
  add_qual base_relids (some (l, s)) quals =
      if is_unsafe base_relids s.right
      then quals
      else quals ++ record { left = l; opname = P.get_opname s.opoid; right = s.right } ∷ []

  unfoldable pub extract_clause_from_op_expr :
      B.Set → OpHead → Nodes P.Datum → List (Qual P.Datum) → Exec (List (Qual P.Datum))
  unfolding canonical_op_expr
  extract_clause_from_op_expr base_relids op args quals =
      canonical_op_expr base_relids op args >>= λ c. ok (add_qual base_relids c quals)

  -- Any other node gives a warning.
  unfoldable pub extract_restrictions :
      B.Set → Node P.Datum → List (Qual P.Datum) → Exec (List (Qual P.Datum))
  unfolding extract_clause_from_op_expr
  extract_restrictions base_relids (op_expr op args) quals =
      extract_clause_from_op_expr base_relids op args quals
  extract_restrictions base_relids node quals = ok quals
