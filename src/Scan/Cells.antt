-- ===== src/Scan/Cells.antt =====
-- What stands in each place of a row.
use package.text.Mathlib.Text.{◌==◌ as str_eq}
use ocgeo_fdw.Prelude.{
  ℕ, zero, suc, ◌^◌, ◌<◌, ◌≡◌, refl, ap, ◌∙◌, ◌==◌, Option, none, some, List, [], ◌∷◌, String,
  length, All, if◌then◌else◌, arith, map,
}
use ocgeo_fdw.Prelude.Int.{pos, eqb_ℤ, pos_sub}
use ocgeo_fdw.Prelude.Exec.{ok}
use ocgeo_fdw.Api.Types.{GeoResult, chain}
use ocgeo_fdw.Server.{Var}
use ocgeo_fdw.World.{World, IsNameMap}
use ocgeo_fdw.Scan.Columns.{
  mapping_of, column_mapping_hash, field_of, null_row, store_column, typed_value, query_or_field,
  fill_column, fill_columns,
}
use ocgeo_fdw.Scan.Mapping.{name_of, IsDistinct, IsEntered, column_mapping_hash-IsEntered}
use ocgeo_fdw.Scan.{ScanState, row_for, iterate_all}
use ocgeo_fdw.Scan.Rows.{rows_of, iterate_all_rows}

module _ {ℓ} {A : Type ℓ} where
  -- A row of `n` places, each with a value or null.
  abbrev pub tabulate : ℕ → (ℕ → Option A) → List (Option A)
  tabulate zero f = []
  tabulate (suc n) f = f 0 ∷ tabulate n (λ i. f (suc i))

  tabulate-cong : (n : ℕ) {f g : ℕ → Option A} → ((i : ℕ) → f i ≡ g i) → tabulate n f ≡ tabulate n g
  tabulate-cong zero h = refl
  tabulate-cong (suc n) h = cc (h 0, tabulate-cong n (λ i. h (suc i)))

  null_row-tabulate : (n : ℕ) → null_row {A = A} n ≡ tabulate n (λ i. none)
  null_row-tabulate zero = refl
  null_row-tabulate (suc n) = ap (λ r. none ∷ r) (null_row-tabulate n)

  step : (k : ℕ) (v : A) (x : Option A) → x ≡ (if 0 == suc k then some v else x)
  step k v x = ground arith

  store_column-tabulate :
      (n k : ℕ) (v : A) (f : ℕ → Option A)
      → k < n
      → store_column k (some v) (tabulate n f)
        ≡ ok (tabulate n (λ i. if i == k then some v else f i))
  store_column-tabulate zero k v f h = absurd (omega arith)
  store_column-tabulate (suc n) zero v f h =
      ap (λ r. ok (some v ∷ r)) (tabulate-cong n (λ i. ground arith))
  store_column-tabulate (suc n) (suc k) v f h =
      rw (store_column-tabulate n k v (λ i. f (suc i)) (omega arith)) (
        ap ok (
          cc (
            step k v (f 0),
            tabulate-cong n {f = λ i. if i == k then some v else f (suc i)}
                {g = λ i. if suc i == suc k then some v else f (suc i)} (λ i. ground arith),
          )))

abbrev pub or_else {ℓ} : {A : Type ℓ} → Option A → Option A → Option A
or_else (some v) o = some v
or_else none o = o

-- A column of a table with so many columns.
pub record IsPlaced (natts : ℕ) (c : Var) : Type 0 where
  pub place : ℕ
  pub attno : c.varattno ≡ pos (suc place)
  pub within : place < natts

-- What stands in a place, where columns show these values: what the last of the columns there does.
abbrev pub cell_of {ℓ} : {A : Type ℓ} → (Var → Option A) → List Var → ℕ → Option A
cell_of show [] i = none
cell_of show (c ∷ cs) i =
    or_else (cell_of show cs i) (if eqb_ℤ c.varattno (pos (suc i)) then show c else none)

-- A row of so many places of these columns.
abbrev pub row_of {ℓ} : {A : Type ℓ} → ℕ → List Var → (Var → Option A) → List (Option A)
row_of natts cs show = tabulate natts (cell_of show cs)

module _ (W : World) where
  open W use {
    floating as F, cjson as J, sds as S, server as P, name_table as N, column_names as names,
  }

  -- What a column shows of a result: the query of the scan in the column of the query, and else what
  -- the document has for a column of that name and type.
  abbrev pub shown : String → String → GeoResult J → Var → Option P.Datum
  shown key query r c =
      if str_eq key (name_of N names c)
      then some (P.cstring_to_text query)
      else typed_value J S P c.vartype r (field_of (name_of N names c))

  -- What the last of the columns at a place shows.
  abbrev pub cell : String → String → GeoResult J → List Var → ℕ → Option P.Datum
  cell key query r cs i = cell_of (shown key query r) cs i

  pub index_of_IsPlaced :
      (natts : ℕ) (c : Var) (h : IsPlaced natts c)
      → natts < 2 ^ 31
      → (mapping_of N names c).column_index ≡ h.place
  index_of_IsPlaced natts c h small =
      let w = h.within in rw (h.attno, pos_sub (suc h.place) 1 (omega arith)) (omega arith)

  store-shown :
      (natts : ℕ) (c : Var) (h : IsPlaced natts c) (o : Option P.Datum) (f : ℕ → Option P.Datum)
      → store_column h.place o (tabulate natts f)
        ≡ ok (
            tabulate natts
              (λ i. or_else (if eqb_ℤ c.varattno (pos (suc i)) then o else none) (f i)))
  store-shown natts c h none f = ap ok (tabulate-cong natts (λ i. ground arith))
  store-shown natts c h (some v) f =
      store_column-tabulate natts h.place v f h.within
      ∙ ap ok (tabulate-cong natts (λ i. ground (arith, h.attno)))

  module _ (key query : String) (r : GeoResult J) (natts : ℕ) (small : natts < 2 ^ 31) where
    query_or_field-shown :
        (c : Var)
        → query_or_field J S P N names
            (some key)
            (some query)
            (str_eq key (name_of N names c))
            c.vartype
            r
            (name_of N names c)
          ≡ ok (shown key query r c)
    query_or_field-shown c = ground arith

    fill_column-shown :
        (t : N.Table) (c : Var) (f : ℕ → Option P.Datum)
        → IsPlaced natts c
        → IsEntered N names t c
        → fill_column J S P N names (some key) (some query) t r c (tabulate natts f)
          ≡ ok (
              tabulate natts (λ i.
                or_else
                  (if eqb_ℤ c.varattno (pos (suc i)) then shown key query r c else none)
                  (f i)))
    unfolding fill_column
    fill_column-shown t c f h e =
        rw (e, fill_column, query_or_field-shown c, index_of_IsPlaced natts c h small)
          (store-shown natts c h (shown key query r c) f)

    or_else_assoc :
        (cs : List Var) (a b : Option P.Datum) (i : ℕ)
        → or_else (cell key query r cs i) (or_else a b)
          ≡ or_else (or_else (cell key query r cs i) a) b
    or_else_assoc cs a b i = ground arith

    fill_columns-cell :
        (t : N.Table) (cs : List Var) (f : ℕ → Option P.Datum)
        → All (IsPlaced natts) cs
        → All (IsEntered N names t) cs
        → fill_columns J S P N names (some key) (some query) t r cs (tabulate natts f)
          ≡ ok (tabulate natts (λ i. or_else (cell key query r cs i) (f i)))
    unfolding fill_columns
    fill_columns-cell t [] f h e = refl
    fill_columns-cell t (c ∷ cs) f h e = rw (fill_column-shown t c f h.0 e.0) (
        fill_columns-cell t cs _ h.1 e.1
        ∙ ap ok (tabulate-cong natts (λ i. or_else_assoc cs _ (f i) i)))

module _ (W : World) where
  open W use {cjson as J, server as P, name_table as N, column_names as names}

  -- A scan that has a query, and whose columns have different names and are columns of the table.
  pub record IsReady (natts : ℕ) (query : String) (s : ScanState W) : Type 0 where
    pub small : natts < 2 ^ 31
    pub key : s.qual_key ≡ some "q"
    pub value : s.qual_value ≡ some query
    pub mapping : s.column_mapping ≡ column_mapping_hash N names s.column_list
    pub placed : All (IsPlaced natts) s.column_list
    pub distinct : IsDistinct N names s.column_list

  or_else-none : (o : Option P.Datum) → or_else o none ≡ o
  or_else-none o = ground arith

  -- The row of a result: in each place what the last column of that place shows, and null where no
  -- column of the scan stands.
  abbrev pub row_cells : ℕ → String → List Var → GeoResult J → List (Option P.Datum)
  row_cells natts query cs r = tabulate natts (cell W "q" query r cs)

  row_for-cells :
      (laws : IsNameMap N) (natts : ℕ) (query : String) (s : ScanState W) (r : GeoResult J)
      → IsReady natts query s
      → row_for W natts s r ≡ ok (row_cells natts query s.column_list r)
  unfolding row_for
  row_for-cells laws natts query s r h =
      rw (h.key, h.value, h.mapping, null_row-tabulate {A = P.Datum} natts)
        (fill_columns-cell W "q" query r natts h.small _ s.column_list (λ i. none) h.placed
            (column_mapping_hash-IsEntered laws names s.column_list h.distinct)
          ∙ ap ok (tabulate-cong natts (λ i. or_else-none (cell W "q" query r s.column_list i))))

  rows_of-cells :
      (laws : IsNameMap N) (natts : ℕ) (query : String) (s : ScanState W) (rs : List (GeoResult J))
      → IsReady natts query s
      → rows_of W natts s rs ≡ ok (map (row_cells natts query s.column_list) rs)
  unfolding rows_of
  rows_of-cells laws natts query s [] h = refl
  rows_of-cells laws natts query s (r ∷ rs) h =
      rw (row_for-cells laws natts query s r h, rows_of-cells laws natts query s rs h) refl

  -- A scan with a query, whose columns have different names and are columns of the table, gives a
  -- row for each result and fails at none. A row has a place for each column of the table: the
  -- query stands in the column of the query, in every other column of the scan what the document has
  -- for a column of its name and type, or null, and in all other places null.
  pub iterate_all-cells :
      (laws : IsNameMap N) (natts : ℕ) (query : String) (s : ScanState W) (rs : List (GeoResult J))
      → IsReady natts query s
      → s.cursor ≡ chain rs
      → iterate_all W (suc (length rs)) natts s ≡ ok (map (row_cells natts query s.column_list) rs)
  iterate_all-cells laws natts query s rs h e =
      iterate_all_rows W natts s rs e ∙ rows_of-cells laws natts query s rs h
