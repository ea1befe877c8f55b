-- ===== src/Scan/Rows.antt =====
-- The rows that a scan gives.
use ocgeo_fdw.Prelude.{ℕ, suc, ◌≡◌, refl, ap, ◌∙◌, Option, List, [], ◌∷◌, length}
use ocgeo_fdw.Prelude.Exec.{Exec, ok, ◌>>=◌, >>=-assoc, >>=-cong}
use ocgeo_fdw.Api.Types.{GeoResult, Results, chain}
use ocgeo_fdw.World.{World}
use ocgeo_fdw.Scan.{ScanState, row_for, iterate_foreign_scan, iterate_all}

module _ (W : World) (natts : ℕ) where
  abbrev Row : Type 0
  Row = List (Option W.server.Datum)

  -- The rows of the results, in their order; the first that fails ends the scan.
  unfoldable pub rows_of : ScanState W → List (GeoResult W.cjson) → Exec (List Row)
  rows_of s [] = ok []
  rows_of s (r ∷ rs) = row_for W natts s r >>= λ row. rows_of s rs >>= λ rows. ok (row ∷ rows)

  rows_of-cursor :
      (s : ScanState W) (c : Results W.cjson) (rs : List (GeoResult W.cjson))
      → rows_of (record s { cursor = c }) rs ≡ rows_of s rs
  unfolding rows_of row_for
  rows_of-cursor s c [] = refl
  rows_of-cursor s c (r ∷ rs) = rw (rows_of-cursor s c rs) refl

  -- A scan whose cursor is at a list of results gives one row for each of them, in their order, and
  -- then no more; it fails exactly where the row of a result fails. One call more than there are
  -- results is enough.
  pub iterate_all_rows :
      (s : ScanState W) (rs : List (GeoResult W.cjson))
      → s.cursor ≡ chain rs
      → iterate_all W (suc (length rs)) natts s ≡ rows_of s rs
  unfolding iterate_all iterate_foreign_scan rows_of row_for
  iterate_all_rows s [] e = rw e refl
  iterate_all_rows s (r ∷ rs) e =
      let rest = iterate_all_rows (record s { cursor = chain rs }) rs refl in
      rw e (
        >>=-assoc (row_for W natts s r) _ _
        ∙ >>=-cong (row_for W natts s r) (λ row.
          ap (λ m. m >>= λ rows. ok (row ∷ rows)) (rest ∙ rows_of-cursor s (chain rs) rs)))
