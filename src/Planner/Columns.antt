-- ===== src/Planner/Columns.antt =====
-- The columns that a scan is asked for (ColumnList in ocgeo_fdw.c).
use ocgeo_fdw.Prelude.{ℕ, zero, suc, ◌+◌, Option, none, some, List, [], ◌∷◌, if◌then◌else◌}
use ocgeo_fdw.Prelude.Int.{pos, eqb_ℤ}
use ocgeo_fdw.Server.{Var, Bitmapsets, Server}
use ocgeo_fdw.Planner.Types.{RestrictInfo, RelOptInfo}

module _ {B : Bitmapsets} (P : Server B) where
  -- The columns that a query needs, with repetitions.
  unfoldable pub needed_columns : List Var → List (RestrictInfo P) → List Var
  needed_columns needed [] = needed
  needed_columns needed (ri ∷ ris) =
      needed_columns (P.list_union Var needed (P.pull_var_clause ri.clause)) ris

  -- The first needed column with a number.
  unfoldable pub pick_column : ℕ → List Var → Option Var
  pick_column index [] = none
  pick_column index (v ∷ vs) = if eqb_ℤ v.varattno (pos index) then some v else pick_column index vs

  abbrev pub some_cons {ℓ} : {A : Type ℓ} → Option A → List A → List A
  some_cons none xs = xs
  some_cons (some x) xs = x ∷ xs

  -- The loop over the columns of the table.
  unfoldable pub columns_from : ℕ → ℕ → List Var → List Var
  unfolding pick_column
  columns_from zero index needed = []
  columns_from (suc n) index needed =
      some_cons (pick_column index needed) (columns_from n (index + 1) needed)

  unfoldable pub column_list : RelOptInfo P → List Var
  unfolding needed_columns columns_from
  column_list baserel =
      columns_from baserel.max_attr 1 (needed_columns baserel.target_exprs baserel.baserestrictinfo)
