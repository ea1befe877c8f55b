-- ===== src/Scan/Columns.antt =====
-- From a result to the columns of a row (ColumnMappingHash and the loop over the columns in
-- ocgeoIterateForeignScan).
use package.text.Mathlib.Text.{◌==◌ as str_eq}
use ocgeo_fdw.Prelude.{
  ℕ, zero, suc, ◌-◌, ◌%◌, ◌^◌, Bool, ◌||◌, String, Option, none, some, List, [], ◌∷◌, if◌then◌else◌,
}
use ocgeo_fdw.Prelude.Int.{ℤ, pos, negsuc, ◌-ℤ◌}
use ocgeo_fdw.Prelude.Exec.{Exec, ok, crash, uninitialised_read, buffer_overflow, ◌>>=◌}
use ocgeo_fdw.Prelude.Ctext.{◌<>◌}
use ocgeo_fdw.Foreign.{Floating, Cjson, Sds}
use ocgeo_fdw.Api.Types.{GeoResult}
use ocgeo_fdw.Api.Reply.{deref}
use ocgeo_fdw.Api.Path.{response_get_str, response_get_int, response_get_dbl}
use ocgeo_fdw.Server.{
  TypeId, text, varchar, int2, int4, int8, point, box, jsonb, other_type, Var, Bitmapsets, Server,
}
use ocgeo_fdw.World.{ColumnMapping, NameTable, ColumnNames}

-- The conversion to a `uint32`.
abbrev pub to_uint32 : ℤ → ℕ
to_uint32 (pos n) = n % 2 ^ 32
to_uint32 (negsuc n) = 2 ^ 32 - 1 - n % 2 ^ 32

module _ (N : NameTable) (names : ColumnNames) where
  abbrev pub mapping_of : Var → ColumnMapping
  mapping_of column = record {
    column_index = to_uint32 (column.varattno -ℤ pos 1);
    column_type = column.vartype;
  }

  unfoldable pub enter_columns : N.Table → List Var → N.Table
  enter_columns t [] = t
  enter_columns t (column ∷ columns) =
      enter_columns (N.enter t (names.relid_attname column.varattno) (mapping_of column)) columns

  unfoldable pub column_mapping_hash : List Var → N.Table
  unfolding enter_columns
  column_mapping_hash columns = enter_columns N.create columns

-- The field of the document that a column shows.
abbrev pub field_of : String → String
field_of name =
    if str_eq name "confidence" || str_eq name "formatted" then name else "components." <> name

abbrev pub null_row {ℓ} : {A : Type ℓ} → ℕ → List (Option A)
null_row zero = []
null_row (suc n) = none ∷ null_row n

-- A value in its place; beyond the arrays of the slot it is written out of bounds. A column that
-- has no value stays null.
abbrev pub store_column {ℓ} : {A : Type ℓ} → ℕ → Option A → List (Option A) → Exec (List (Option A))
store_column i none row = ok row
store_column i (some v) [] = crash buffer_overflow
store_column zero (some v) (x ∷ row) = ok (some v ∷ row)
store_column (suc i) (some v) (x ∷ row) = store_column i (some v) row >>= λ rest. ok (x ∷ rest)

module _ {F : Floating} (J : Cjson F) (S : Sds) {B : Bitmapsets} (P : Server B) where
  infixl 5 ◌>>?◌
  abbrev ◌>>?◌ {ℓ} : {A : Type ℓ} → Option A → (A → Option P.Datum) → Option P.Datum
  none >>? f = none
  some a >>? f = f a

  -- A pair of coordinates, printed and read by the server.
  abbrev pub pair_text : F.Double → F.Double → String
  pair_text a b = "(" <> F.print_6 a <> "," <> F.print_6 b <> ")"

  -- The switch over the type of the column: the value, if the document has one.
  unfoldable pub typed_value : TypeId → GeoResult J → String → Option P.Datum
  typed_value text r field = response_get_str J S r field >>? λ v. some (P.cstring_to_text v)
  typed_value varchar r field = response_get_str J S r field >>? λ v. some (P.cstring_to_text v)
  typed_value int4 r field = response_get_int J S r field >>? λ v. some (P.int32_get_datum v)
  typed_value int8 r field = response_get_int J S r field >>? λ v. some (P.int32_get_datum v)
  typed_value point r field = response_get_dbl J S r "geometry.lat" >>? λ lat.
      response_get_dbl J S r "geometry.lng" >>? λ lon. some (P.point_in (pair_text lat lon))
  typed_value box r field = response_get_dbl J S r "bounds.northeast.lat" >>? λ lat1.
      response_get_dbl J S r "bounds.northeast.lng" >>? λ lon1.
      response_get_dbl J S r "bounds.southwest.lat" >>? λ lat2.
      response_get_dbl J S r "bounds.southwest.lng" >>? λ lon2.
      some (P.box_in ("(" <> pair_text lat1 lon1 <> "," <> pair_text lat2 lon2 <> ")"))
  typed_value jsonb r field = some (P.jsonb_in (J.print_unformatted r.internal))
  typed_value int2 r field = none
  typed_value (other_type t) r field = none

  module _ (N : NameTable) (names : ColumnNames) (qual_key qual_value : Option String) where
    abbrev pub query_or_field : Bool → TypeId → GeoResult J → String → Exec (Option P.Datum)
    query_or_field is_query column_type r name =
        if is_query
        then (deref qual_value >>= λ v. ok (some (P.cstring_to_text v)))
        else ok (typed_value column_type r (field_of name))

    -- The body of the loop: the mapping of a column is the one that is entered under its name.
    unfoldable pub fill_column :
        N.Table → GeoResult J → Var → List (Option P.Datum) → Exec (List (Option P.Datum))
    fill_column mapping r column row =
        let name = names.relid_attname column.varattno in
        elim (N.find mapping name) [
          | none ↦ crash uninitialised_read
          | some m ↦ deref qual_key >>= λ key.
              query_or_field (str_eq key name) m.column_type r name >>= λ value.
              store_column m.column_index value row
        ]

    unfoldable pub fill_columns :
        N.Table → GeoResult J → List Var → List (Option P.Datum) → Exec (List (Option P.Datum))
    fill_columns mapping r [] row = ok row
    fill_columns mapping r (column ∷ columns) row =
        fill_column mapping r column row >>= fill_columns mapping r columns
