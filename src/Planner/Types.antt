-- ===== src/Planner/Types.antt =====
-- What the planner of the server hands to the wrapper: conditions with the relations that they
-- name, equivalence classes, the relation that is scanned, and the clauses of joins.
use ocgeo_fdw.Prelude.{ℕ, List}
use ocgeo_fdw.Server.{Var, Node, Bitmapsets, Server}

module _ {B : Bitmapsets} (P : Server B) where
  pub record RestrictInfo : Type 0 where
    pub clause : Node P.Datum
    pub outer_relids : B.Set

  pub record EquivalenceClass : Type 0 where
    pub members : ℕ
    pub sources : List RestrictInfo
    pub relids : B.Set

  pub record RelOptInfo : Type 0 where
    pub relid : ℕ
    pub relids : B.Set
    pub max_attr : ℕ
    pub target_exprs : List Var
    pub baserestrictinfo : List RestrictInfo
    pub rows : ℕ
    pub width : ℕ

  pub record PlannerInfo : Type 0 where
    pub eq_classes : List EquivalenceClass
    pub left_join_clauses : List RestrictInfo
    pub right_join_clauses : List RestrictInfo
