-- ===== src/Scan/Places.antt =====
-- The places that ColumnMappingHash keeps for the columns of a table.
use ocgeo_fdw.Prelude.{ℕ, suc, ◌^◌, ◌<◌, ◌≡◌, ap, ◌∙◌, some, List, [], ◌∷◌, All}
use ocgeo_fdw.Prelude.Int.{pos}
use ocgeo_fdw.Server.{Var}
use ocgeo_fdw.World.{World, IsNameMap}
use ocgeo_fdw.Scan.Columns.{column_mapping_hash}
use ocgeo_fdw.Scan.Mapping.{name_of, IsDistinct, IsEntered, column_mapping_hash-IsEntered}
use ocgeo_fdw.Scan.Cells.{IsPlaced, index_of_IsPlaced}

module _ (W : World) where
  open W use {name_table as N, column_names as names}

  -- The table has under the column's name the place that is one less than the column's number, and
  -- its type.
  pub record IsFound (t : N.Table) (c : Var) : Type 0 where
    pub place : ℕ
    pub attno : c.varattno ≡ pos (suc place)
    pub found :
        N.find t (name_of N names c)
        ≡ some (record { column_index = place; column_type = c.vartype })

  module _ (natts : ℕ) (small : natts < 2 ^ 31) (t : N.Table) where
    IsEntered-IsFound : (c : Var) → IsPlaced natts c → IsEntered N names t c → IsFound t c
    IsEntered-IsFound c h e = record {
      place = h.place;
      attno = h.attno;
      found =
          e
          ∙ ap (λ i. some (record { column_index = i; column_type = c.vartype }))
              (index_of_IsPlaced W natts c h small);
    }

    all_entered-IsFound :
        (cs : List Var)
        → All (IsPlaced natts) cs
        → All (IsEntered N names t) cs
        → All (IsFound t) cs
    all_entered-IsFound [] h e = tt
    all_entered-IsFound (c ∷ cs) h e = (IsEntered-IsFound c h.0 e.0, all_entered-IsFound cs h.1 e.1)

  -- In a list of columns of a table of less than 2 ^ 31 columns, with different names, each column
  -- is found under its name, with the place that is one less than its number and with its type.
  pub column_mapping_hash-IsFound :
      (laws : IsNameMap N) (natts : ℕ) (cs : List Var)
      → natts < 2 ^ 31
      → All (IsPlaced natts) cs
      → IsDistinct N names cs
      → All (IsFound (column_mapping_hash N names cs)) cs
  column_mapping_hash-IsFound laws natts cs small placed distinct =
      all_entered-IsFound natts small _ cs placed
        (column_mapping_hash-IsEntered laws names cs distinct)
