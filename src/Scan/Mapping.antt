-- ===== src/Scan/Mapping.antt =====
-- The hash table of columns: what ColumnMappingHash enters under a name is found under it.
use package.text.Mathlib.Text.{◌==◌ as str_eq}
use package.text.Mathlib.TextEquality.{eq_iff}
use ocgeo_fdw.Prelude.{◌≡◌, refl, ◌∙◌, false, String, some, List, [], ◌∷◌, All}
use ocgeo_fdw.Server.{Var}
use ocgeo_fdw.World.{NameTable, IsNameMap, ColumnNames}
use ocgeo_fdw.Scan.Columns.{mapping_of, enter_columns, column_mapping_hash}

module _ (N : NameTable) (names : ColumnNames) where
  abbrev pub name_of : Var → String
  name_of c = names.relid_attname c.varattno

  -- No two columns of a list have the same name.
  abbrev pub IsDistinct : List Var → Type 0
  IsDistinct [] = Unit
  IsDistinct (c ∷ cs) = All (λ d. str_eq (name_of d) (name_of c) ≡ false) cs × IsDistinct cs

  -- The table holds the mapping of a column under its name.
  abbrev pub IsEntered : N.Table → Var → Type 0
  IsEntered t c = N.find t (name_of c) ≡ some (mapping_of N names c)

module _ {N : NameTable} (laws : IsNameMap N) (names : ColumnNames) where
  enter_columns-other :
      (t : N.Table) (cs : List Var) (k : String)
      → All (λ d. str_eq (name_of N names d) k ≡ false) cs
      → N.find (enter_columns N names t cs) k ≡ N.find t k
  unfolding enter_columns
  enter_columns-other t [] k h = refl
  enter_columns-other t (c ∷ cs) k h =
      enter_columns-other (N.enter t (name_of N names c) (mapping_of N names c)) cs k h.1
      ∙ laws.find_enter t (name_of N names c) k (mapping_of N names c)
      ∙ rw (h.0) refl

  enter_columns-IsEntered :
      (t : N.Table) (cs : List Var)
      → IsDistinct N names cs
      → All (IsEntered N names (enter_columns N names t cs)) cs
  unfolding enter_columns
  enter_columns-IsEntered t [] h = tt
  enter_columns-IsEntered t (c ∷ cs) h =
      let k = name_of N names c in
      let t' = N.enter t k (mapping_of N names c) in
      (
        enter_columns-other t' cs k h.0
            ∙ laws.find_enter t k k (mapping_of N names c)
            ∙ rw ((eq_iff k k).1 refl) refl,
        enter_columns-IsEntered t' cs h.1,
      )

  -- In a list of columns with different names each column is found under its name, with its own
  -- place and type.
  pub column_mapping_hash-IsEntered :
      (cs : List Var)
      → IsDistinct N names cs
      → All (IsEntered N names (column_mapping_hash N names cs)) cs
  unfolding column_mapping_hash
  column_mapping_hash-IsEntered cs h = enter_columns-IsEntered N.create cs h
