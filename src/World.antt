-- ===== src/World.antt =====
-- The parameters of the model together: what the scan and the planner take from elsewhere.
use package.text.Mathlib.Text.{◌==◌ as str_eq}
use ocgeo_fdw.Prelude.{Bool, ℕ, ◌≡◌, String, Option, some, if◌then◌else◌}
use ocgeo_fdw.Prelude.Int.{ℤ}
use ocgeo_fdw.Foreign.{Floating, Cjson, Sds, Curl}
use ocgeo_fdw.Server.{TypeId, Bitmapsets, Server}
use ocgeo_fdw.Stats.{Htab}

-- A column's place in the tuple and its type (ColumnMapping).
pub record ColumnMapping : Type 0 where
  pub column_index : ℕ
  pub column_type : TypeId

-- A hash table from column names to mappings; `find` looks up, `enter` writes an entry.
pub record NameTable : Type 1 where
  pub Table : Type 0
  pub create : Table
  pub find : Table → String → Option ColumnMapping
  pub enter : Table → String → ColumnMapping → Table

-- What dynahash promises of these.
pub record IsNameMap (N : NameTable) : Type 0 where
  pub find_enter :
      (t : N.Table) (j k : String) (m : ColumnMapping)
      → N.find (N.enter t j m) k ≡ (if str_eq j k then some m else N.find t k)

-- The names of the foreign table's columns, by attribute number: from the tuple descriptor, and
-- from the catalog (get_attname), which has none for the number 0 of a whole row.
pub record ColumnNames : Type 0 where
  pub tuple_attname : ℤ → String
  pub relid_attname : ℤ → String
  pub has_column : ℤ → Bool

pub record World : Type 1 where
  pub floating : Floating
  pub cjson : Cjson floating
  pub sds : Sds
  pub curl : Curl
  pub bitmapsets : Bitmapsets
  pub server : Server bitmapsets
  pub htab : Htab floating
  pub name_table : NameTable
  pub column_names : ColumnNames
