-- ===== src/Scan/Fields.antt =====
-- What the columns of a scan show of a result, by their names and types (the loop over the columns
-- in ocgeoIterateForeignScan).
use package.text.Mathlib.Text.{◌==◌ as str_eq}
use package.text.Mathlib.TextEquality.{eq_iff}
use ocgeo_fdw.Prelude.{
  ℕ, suc, ◌≡◌, ◌≢◌, refl, ◌⊎◌, inl, inr, Bool-cases, Option, none, some, Option-cases, String, List,
  length, map, arith,
}
use ocgeo_fdw.Prelude.Int.{ℤ}
use ocgeo_fdw.Prelude.Exec.{ok}
use ocgeo_fdw.Prelude.Ctext.{◌<>◌}
use ocgeo_fdw.Api.Types.{GeoResult, chain}
use ocgeo_fdw.Api.Path.{response_get_str, response_get_int, response_get_dbl}
use ocgeo_fdw.Server.{TypeId, text, varchar, int2, int4, int8, point, box, jsonb, other_type, Var}
use ocgeo_fdw.World.{World, IsNameMap}
use ocgeo_fdw.Scan.Columns.{typed_value, field_of}
use ocgeo_fdw.Scan.Mapping.{name_of}
use ocgeo_fdw.Scan.Cells.{shown, row_of, IsReady, iterate_all-cells}
use ocgeo_fdw.Scan.{ScanState, iterate_all}

-- Where the document has what a column of a name shows: the confidence and the formatted address at
-- the top, all else among the components.
pub data IsPath (name : String) : String → Type 0 where
  top : (name ≡ "confidence") ⊎ (name ≡ "formatted") → IsPath name name
  component : name ≢ "confidence" → name ≢ "formatted" → IsPath name ("components." <> name)

field_of-IsPath : (name : String) → IsPath name (field_of name)
field_of-IsPath name = elim (Bool-cases (str_eq name "confidence")) [
  | inl e ↦ rw e (top (inl ((eq_iff name "confidence").0 e)))
  | inr e ↦ elim (Bool-cases (str_eq name "formatted")) [
    | inl e' ↦ rw (e, e') (top (inr ((eq_iff name "formatted").0 e')))
    | inr e' ↦
        rw (e, e')
          (component (λ h. absurd (ground (arith, e, (eq_iff name "confidence").1 h)))
            (λ h. absurd (ground (arith, e', (eq_iff name "formatted").1 h))))
  ]
]

module _ (W : World) where
  open W use {
    floating as F, cjson as J, sds as S, server as P, name_table as N, column_names as names,
  }

  -- What a column of a type shows of a result: the value that the document has at the column's path,
  -- as a text or a number; the coordinates of the place, the latitude first; the corners of its
  -- bounds, the north-eastern first; the document itself. Where a part is missing it is null, and so
  -- it is for any other type.
  pub data ShowsField (r : GeoResult J) (path : String) : TypeId → Option P.Datum → Type 0 where
    text_there :
        (v : String)
        → response_get_str J S r path ≡ some v
        → ShowsField r path text (some (P.cstring_to_text v))
    text_missing : response_get_str J S r path ≡ none → ShowsField r path text none
    varchar_there :
        (v : String)
        → response_get_str J S r path ≡ some v
        → ShowsField r path varchar (some (P.cstring_to_text v))
    varchar_missing : response_get_str J S r path ≡ none → ShowsField r path varchar none
    int4_there :
        (v : ℤ)
        → response_get_int J S r path ≡ some v
        → ShowsField r path int4 (some (P.int32_get_datum v))
    int4_missing : response_get_int J S r path ≡ none → ShowsField r path int4 none
    int8_there :
        (v : ℤ)
        → response_get_int J S r path ≡ some v
        → ShowsField r path int8 (some (P.int32_get_datum v))
    int8_missing : response_get_int J S r path ≡ none → ShowsField r path int8 none
    point_there :
        (lat lng : F.Double)
        → response_get_dbl J S r "geometry.lat" ≡ some lat
        → response_get_dbl J S r "geometry.lng" ≡ some lng
        → ShowsField r path point
            (some (P.point_in ("(" <> F.print_6 lat <> "," <> F.print_6 lng <> ")")))
    point_missing :
        (response_get_dbl J S r "geometry.lat" ≡ none)
          ⊎ (response_get_dbl J S r "geometry.lng" ≡ none)
        → ShowsField r path point none
    box_there :
        (north east south west : F.Double)
        → response_get_dbl J S r "bounds.northeast.lat" ≡ some north
        → response_get_dbl J S r "bounds.northeast.lng" ≡ some east
        → response_get_dbl J S r "bounds.southwest.lat" ≡ some south
        → response_get_dbl J S r "bounds.southwest.lng" ≡ some west
        → ShowsField r path box (
            some (
              P.box_in (
                "("
                <> ("(" <> F.print_6 north <> "," <> F.print_6 east <> ")")
                <> ","
                <> ("(" <> F.print_6 south <> "," <> F.print_6 west <> ")")
                <> ")")))
    box_missing :
        (corner : String)
        → (corner ≡ "bounds.northeast.lat")
          ⊎ (corner ≡ "bounds.northeast.lng")
          ⊎ (corner ≡ "bounds.southwest.lat")
          ⊎ (corner ≡ "bounds.southwest.lng")
        → response_get_dbl J S r corner ≡ none
        → ShowsField r path box none
    document : ShowsField r path jsonb (some (P.jsonb_in (J.print_unformatted r.internal)))
    no_int2 : ShowsField r path int2 none
    no_other : (t : ℕ) → ShowsField r path (other_type t) none

  point-ShowsField :
      (r : GeoResult J) (path : String) → ShowsField r path point (typed_value J S P point r path)
  unfolding typed_value
  point-ShowsField r path = elim (Option-cases (response_get_dbl J S r "geometry.lat")) [
    | inl e ↦ rw e (point_missing (inl e))
    | inr (lat, e) ↦ elim (Option-cases (response_get_dbl J S r "geometry.lng")) [
      | inl e' ↦ rw (e, e') (point_missing (inr e'))
      | inr (lng, e') ↦ rw (e, e') (point_there lat lng e e')
    ]
  ]

  box-ShowsField :
      (r : GeoResult J) (path : String) → ShowsField r path box (typed_value J S P box r path)
  unfolding typed_value
  box-ShowsField r path = elim (Option-cases (response_get_dbl J S r "bounds.northeast.lat")) [
    | inl e ↦ rw e (box_missing _ (inl refl) e)
    | inr (north, e) ↦ elim (Option-cases (response_get_dbl J S r "bounds.northeast.lng")) [
      | inl e' ↦ rw (e, e') (box_missing _ (inr (inl refl)) e')
      | inr (east, e') ↦ elim (Option-cases (response_get_dbl J S r "bounds.southwest.lat")) [
        | inl e₂ ↦ rw (e, e', e₂) (box_missing _ (inr (inr (inl refl))) e₂)
        | inr (south, e₂) ↦ elim (Option-cases (response_get_dbl J S r "bounds.southwest.lng")) [
          | inl e₃ ↦ rw (e, e', e₂, e₃) (box_missing _ (inr (inr (inr refl))) e₃)
          | inr (west, e₃) ↦ rw (e, e', e₂, e₃) (box_there north east south west e e' e₂ e₃)
        ]
      ]
    ]
  ]

  typed_value-ShowsField :
      (t : TypeId) (r : GeoResult J) (path : String)
      → ShowsField r path t (typed_value J S P t r path)
  unfolding typed_value
  typed_value-ShowsField text r path = elim (Option-cases (response_get_str J S r path)) [
    | inl e ↦ rw e (text_missing e)
    | inr (v, e) ↦ rw e (text_there v e)
  ]
  typed_value-ShowsField varchar r path = elim (Option-cases (response_get_str J S r path)) [
    | inl e ↦ rw e (varchar_missing e)
    | inr (v, e) ↦ rw e (varchar_there v e)
  ]
  typed_value-ShowsField int4 r path = elim (Option-cases (response_get_int J S r path)) [
    | inl e ↦ rw e (int4_missing e)
    | inr (v, e) ↦ rw e (int4_there v e)
  ]
  typed_value-ShowsField int8 r path = elim (Option-cases (response_get_int J S r path)) [
    | inl e ↦ rw e (int8_missing e)
    | inr (v, e) ↦ rw e (int8_there v e)
  ]
  typed_value-ShowsField point r path = point-ShowsField r path
  typed_value-ShowsField box r path = box-ShowsField r path
  typed_value-ShowsField jsonb r path = document
  typed_value-ShowsField int2 r path = no_int2
  typed_value-ShowsField (other_type t) r path = no_other t

  -- What a column shows in a scan with a query: the query in the column of that name, and else what
  -- the document has for the column's name and type.
  pub data Shows (query : String) (r : GeoResult J) (c : Var) : Option P.Datum → Type 0 where
    the_query : "q" ≡ name_of N names c → Shows query r c (some (P.cstring_to_text query))
    a_field :
        {v : Option P.Datum} (path : String)
        → "q" ≢ name_of N names c
        → IsPath (name_of N names c) path
        → ShowsField r path c.vartype v
        → Shows query r c v

  pub shown-Shows :
      (query : String) (r : GeoResult J) (c : Var) → Shows query r c (shown W "q" query r c)
  shown-Shows query r c = elim (Bool-cases (str_eq "q" (name_of N names c))) [
    | inl e ↦ rw e (the_query ((eq_iff "q" (name_of N names c)).0 e))
    | inr e ↦ rw e (
        a_field (field_of (name_of N names c))
          (λ h. absurd (ground (arith, e, (eq_iff "q" (name_of N names c)).1 h)))
          (field_of-IsPath (name_of N names c))
          (typed_value-ShowsField c.vartype r (field_of (name_of N names c))))
  ]

  -- A scan with a query, whose columns have different names and are columns of the table, gives a
  -- row for each result and fails at none. A row has a place for each column of the table: the
  -- query stands in the column of the query, in every other column of the scan what the document has
  -- for a column of its name and type, or null, and in all other places null.
  pub iterate_all-Shows :
      (laws : IsNameMap N) (natts : ℕ) (query : String) (s : ScanState W) (rs : List (GeoResult J))
      → IsReady W natts query s
      → s.cursor ≡ chain rs
      → (show : GeoResult J → Var → Option P.Datum) × ((r : GeoResult J) (c : Var)
          → Shows query r c (show r c))
        × (iterate_all W (suc (length rs)) natts s
            ≡ ok (map (λ r. row_of natts s.column_list (show r)) rs))
  iterate_all-Shows laws natts query s rs h e =
      (shown W "q" query, shown-Shows query, iterate_all-cells W laws natts query s rs h e)
