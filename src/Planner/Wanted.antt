-- ===== src/Planner/Wanted.antt =====
-- Which columns a query needs (the first half of ColumnList).
use ocgeo_fdw.Prelude.{◌≡◌, ◌⊎◌, List, [], ◌∷◌, ◌↔◌}
use ocgeo_fdw.Server.{Var, Bitmapsets, Server}
use ocgeo_fdw.Planner.{RestrictInfo}

-- A variable of a list.
unfoldable pub IsIn : Var → List Var → Type 0
IsIn v [] = ⊥
IsIn v (w ∷ ws) = (v ≡ w) ⊎ IsIn v ws

module _ {B : Bitmapsets} (P : Server B) where
  -- list_union adds to the first list what of the second is not in it.
  pub record IsUnion : Type 0 where
    pub members :
        (v : Var) (vs ws : List Var) → IsIn v (P.list_union Var vs ws) ↔ (IsIn v vs ⊎ IsIn v ws)

  -- A variable of some condition.
  unfoldable pub IsInConditions : Var → List (RestrictInfo P) → Type 0
  unfolding IsIn
  IsInConditions v [] = ⊥
  IsInConditions v (ri ∷ ris) = IsIn v (P.pull_var_clause ri.clause) ⊎ IsInConditions v ris
