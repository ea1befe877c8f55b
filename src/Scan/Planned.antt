-- ===== src/Scan/Planned.antt =====
-- A table from its plan to its rows: the columns that the planner asks for are such that the scan
-- can place them.
pub mod Tests
use package.text.Mathlib.Text.{◌==◌ as str_eq}
use package.text.Mathlib.TextEquality.{eq_iff}
use ocgeo_fdw.Prelude.{
  ℕ, zero, suc, ◌+◌, ◌-◌, ◌^◌, ◌≤◌, ◌<◌, ◌≡◌, ◌≢◌, refl, sym, ap, ◌∙◌, inl, inr, Bool, true, false,
  Bool-cases, List, [], ◌∷◌, All, Option, arith,
}
use mathlib.Core.Path.{subst}
use ocgeo_fdw.Prelude.Int.{pos, eqb_ℤ, eq_of_parts}
use ocgeo_fdw.Prelude.Exec.{ok}
use ocgeo_fdw.Foreign.{AppendsText}
use ocgeo_fdw.Server.{TypeId, Var, Node, Bitmapsets, Server}
use ocgeo_fdw.Planner.{RestrictInfo, RelOptInfo, ForeignScan, get_foreign_plan}
use ocgeo_fdw.Planner.Columns.{column_list}
use ocgeo_fdw.Planner.Needed.{Picks, ended, picked, left_out, column_list-Picks}
use ocgeo_fdw.Planner.Plans.{get_foreign_plan_iff}
use ocgeo_fdw.World.{World, IsNameMap, ColumnNames, NameTable}
use ocgeo_fdw.Scan.Mapping.{name_of, IsDistinct}
use ocgeo_fdw.Scan.Cells.{IsPlaced}
use ocgeo_fdw.Scan.Returns.{HasColumns, Works, Completes, scan_returns}
use ocgeo_fdw.Scan.{Plan}

-- A column whose number is from `lo` on and below `hi`.
record IsWithin (lo hi : ℕ) (v : Var) : Type 0 where
  attno : ℕ
  same : v.varattno ≡ pos attno
  from : lo ≤ attno
  below : attno < hi

All-map {ℓ κ μ} :
    {A : Type ℓ} {P : A → Type κ} {Q : A → Type μ} (f : (x : A) → P x → Q x) (xs : List A)
    → All P xs
    → All Q xs
All-map f [] h = tt
All-map f (x ∷ xs) h = (f x h.0, All-map f xs h.1)

module _ {B : Bitmapsets} (P : Server B) where
  Picks-IsWithin :
      {needed : List Var} {i n : ℕ} {vs : List Var}
      → Picks P needed i n vs
      → All (IsWithin i (i + n)) vs
  Picks-IsWithin (ended i) = tt
  Picks-IsWithin (picked {i = i} v e rest) = (
    record {
      attno = i;
      same = eq_of_parts v.varattno (pos i) (ground (arith, e.number));
      from = omega arith;
      below = omega arith;
    },
    All-map
        (λ w h. record {
          attno = h.attno;
          same = h.same;
          from = omega (arith, h.from);
          below = omega (arith, h.below);
        })
        _ (Picks-IsWithin rest),
  )
  Picks-IsWithin (left_out none_such rest) =
      All-map
        (λ w h. record {
          attno = h.attno;
          same = h.same;
          from = omega (arith, h.from);
          below = omega (arith, h.below);
        })
        _ (Picks-IsWithin rest)

-- No two columns of the table have the same name.
pub record HasNames (names : ColumnNames) (natts : ℕ) : Type 0 where
  pub apart :
      (i j : ℕ)
      → i < natts
      → j < natts
      → names.relid_attname (pos (suc i)) ≡ names.relid_attname (pos (suc j))
      → i ≡ j

module _ (N : NameTable) (names : ColumnNames) (natts : ℕ) (distinct : HasNames names natts) where
  -- Columns of different numbers have different names.
  names_differ :
      (v d : Var) (i j : ℕ)
      → v.varattno ≡ pos (suc i)
      → d.varattno ≡ pos (suc j)
      → i < natts
      → j < natts
      → i ≢ j
      → str_eq (name_of N names d) (name_of N names v) ≡ false
  names_differ v d i j e e' hi hj apart =
      elim (Bool-cases (str_eq (name_of N names d) (name_of N names v))) [
        | inr differ ↦ differ
        | inl same ↦
            let one = (eq_iff (name_of N names d) (name_of N names v)).0 same in
            absurd (
              apart (
                sym (
                  distinct.apart j i hj hi
                    (ap names.relid_attname (sym e') ∙ one ∙ ap names.relid_attname e))))
      ]

  IsWithin-differs :
      (v d : Var) (i hi : ℕ)
      → v.varattno ≡ pos (suc i)
      → i < natts
      → hi ≤ natts + 1
      → IsWithin (suc i + 1) hi d
      → str_eq (name_of N names d) (name_of N names v) ≡ false
  IsWithin-differs v d i hi e small fits h =
      names_differ v d i (h.attno - 1) e (h.same ∙ ap pos (omega (arith, h.from))) small
        (omega (arith, h.from, h.below)) (omega (arith, h.from))

  module _ {B : Bitmapsets} (P : Server B) where
    Picks-IsDistinct :
        {needed : List Var} {i n : ℕ} {vs : List Var}
        → 0 < i
        → i + n ≤ natts + 1
        → Picks P needed i n vs
        → IsDistinct N names vs
    Picks-IsDistinct positive fits (ended i) = tt
    Picks-IsDistinct positive fits (picked {i = i} v e rest) = (
      All-map
          (λ d h.
            IsWithin-differs v d (i - 1) _
              (eq_of_parts v.varattno (pos (suc (i - 1))) (ground (arith, e.number))) (omega arith)
              fits
              (record {
                attno = h.attno;
                same = h.same;
                from = omega (arith, h.from);
                below = omega (arith, h.below);
              }))
          _ (Picks-IsWithin P rest),
      Picks-IsDistinct (omega arith) (omega arith) rest,
    )
    Picks-IsDistinct positive fits (left_out none_such rest) =
        Picks-IsDistinct (omega arith) (omega arith) rest

module _ (W : World) where
  open W use {server as P, name_table as N, column_names as names}

  -- The columns that the planner asks for are columns of the table with different names.
  pub column_list-HasColumns :
      (rel : RelOptInfo P)
      → rel.max_attr < 2 ^ 31
      → HasNames names rel.max_attr
      → HasColumns W rel.max_attr (column_list P rel)
  column_list-HasColumns rel small distinct =
      let picks = column_list-Picks P rel in
      record {
        small = small;
        placed =
            All-map
              (λ v h. record {
                place = h.attno - 1;
                attno = h.same ∙ ap pos (omega (arith, h.from));
                within = omega (arith, h.from, h.below);
              })
              _ (Picks-IsWithin P picks);
        distinct =
            Picks-IsDistinct N names rel.max_attr distinct P (omega arith) (omega arith) picks;
      }

  -- What the scan is begun with on the plan of the planner; catalogs and clock as in `context`.
  abbrev pub on_plan : ForeignScan P → Plan W → Plan W
  on_plan fs context = record context {
    scanrelid = fs.scanrelid;
    fdw_exprs = fs.fdw_exprs;
    fdw_private = fs.fdw_private;
  }

  -- Over text buffers that append and a table of columns that keeps what is entered: a table of less
  -- than 2 ^ 31 columns with different names, for which the planner is given a plan, can be
  -- scanned by that plan, if its clauses compare columns and values, the user's limit is at most
  -- 1000 requests a second with between 0 tokens and that limit left, the clock runs on from the
  -- user's last request, and a transfer breaks, or brings what is no document or a document of the
  -- shape that the service sends: the scan begins, explained or not, gives a row for each result in
  -- as many calls as there are results and one more, and ends, all without a fault.
  pub planned_scan_returns :
      (laws : AppendsText W.sds) (names_kept : IsNameMap N) (type_oid : TypeId → ℕ)
      (extract_actual_clauses : List (RestrictInfo P) → List (Node P.Datum)) (rel : RelOptInfo P)
      (scan_clauses : List (RestrictInfo P)) (context : Plan W) (hash : Option W.htab.Table)
      (explain_only : Bool) {fs : ForeignScan P}
      → rel.max_attr < 2 ^ 31
      → HasNames names rel.max_attr
      → get_foreign_plan P names type_oid extract_actual_clauses rel scan_clauses ≡ ok fs
      → Works W (on_plan fs context) hash
      → Completes W rel.max_attr (on_plan fs context) explain_only hash
  planned_scan_returns laws names_kept type_oid extract_actual_clauses rel scan_clauses context hash
        explain_only {fs} small distinct h works =
      let (_, _, made) =
        (get_foreign_plan_iff P names type_oid extract_actual_clauses rel scan_clauses fs).0 h in
      let columns : HasColumns W rel.max_attr fs.fdw_private =
        subst (λ (p : ForeignScan P). HasColumns W rel.max_attr p.fdw_private) (sym made)
          (column_list-HasColumns rel small distinct) in
      scan_returns W laws rel.max_attr (on_plan fs context) hash works columns names_kept
        explain_only
