-- ===== src/Planner/Joined.antt =====
-- The joins on the query column (the two loops of findPaths).
use ocgeo_fdw.Prelude.{
  ℕ, ◌≡◌, refl, sym, ◌∙◌, ap, inl, inr, Bool-cases, List, [], ◌∷◌, ◌++◌, if◌then◌else◌, ltb,
}
use mathlib.Core.List.{append-nil, append_assoc}
use ocgeo_fdw.Server.{Bitmapsets, Server}
use ocgeo_fdw.Planner.{
  RestrictInfo, EquivalenceClass, PlannerInfo, RelOptInfo, Joins, is_attr_in_restrict_info,
  clauses_with_attr, clauses_involving_attr, class_joins, outer_joins, joins_of,
}

module _ {B : Bitmapsets} (P : Server B) (relid attnum : ℕ) where
  -- The conditions of a list that have a variable of the table with the number.
  abbrev pub on_column : List (RestrictInfo P) → List (RestrictInfo P)
  on_column [] = []
  on_column (ri ∷ ris) =
      let rest = on_column ris in
      if is_attr_in_restrict_info P relid attnum ri then ri ∷ rest else rest

  abbrev pub of_class : EquivalenceClass P → List (RestrictInfo P)
  of_class ec = if ltb 1 ec.members then on_column ec.sources else []

  abbrev pub of_classes : List (EquivalenceClass P) → List (RestrictInfo P)
  of_classes [] = []
  of_classes (ec ∷ ecs) = of_class ec ++ of_classes ecs

  abbrev pub relids_of_classes : List (EquivalenceClass P) → List B.Set
  relids_of_classes [] = []
  relids_of_classes (ec ∷ ecs) =
      let rest = relids_of_classes ecs in
      elim (of_class ec) [ [] ↦ rest | _ ∷ _ ↦ ec.relids ∷ rest ]

  abbrev pub outer_relids_of : List (RestrictInfo P) → List B.Set
  outer_relids_of [] = []
  outer_relids_of (ri ∷ ris) = ri.outer_relids ∷ outer_relids_of ris

  abbrev pub unions : B.Set → List B.Set → B.Set
  unions s [] = s
  unions s (t ∷ ts) = unions (B.union s t) ts

  -- Joins with more clauses and relations.
  abbrev extended : Joins P → List (RestrictInfo P) → List B.Set → Joins P
  extended j ris sets = record {
    clauses = j.clauses ++ ris;
    outer_relids = unions j.outer_relids sets;
  }

  clauses_with_attr-on_column :
      (ris : List (RestrictInfo P)) → clauses_with_attr P relid attnum ris ≡ on_column ris
  unfolding clauses_with_attr
  clauses_with_attr-on_column [] = refl
  clauses_with_attr-on_column (ri ∷ ris) = rw (clauses_with_attr-on_column ris) refl

  clauses_involving_attr-of_class :
      (ec : EquivalenceClass P) → clauses_involving_attr P relid attnum ec ≡ of_class ec
  unfolding clauses_involving_attr
  clauses_involving_attr-of_class ec = rw (clauses_with_attr-on_column ec.sources) refl

  abbrev with_class : EquivalenceClass P → Joins P → List (RestrictInfo P) → Joins P
  with_class ec j found = record {
    clauses = j.clauses ++ found;
    outer_relids = elim found [ [] ↦ j.outer_relids | _ ∷ _ ↦ B.union j.outer_relids ec.relids ];
  }

  extended-class :
      (ec : EquivalenceClass P) (j : Joins P) (found rest : List (RestrictInfo P))
      (sets : List B.Set)
      → extended (with_class ec j found) rest sets
        ≡ extended j (found ++ rest) (elim found [ [] ↦ sets | _ ∷ _ ↦ ec.relids ∷ sets ])
  extended-class ec j [] rest sets =
      ap (λ l. record { clauses = l ++ rest; outer_relids = unions j.outer_relids sets })
        (append-nil j.clauses)
  extended-class ec j (ri ∷ found) rest sets =
      ap
        (λ l. record { clauses = l; outer_relids = unions (B.union j.outer_relids ec.relids) sets })
        (append_assoc j.clauses (ri ∷ found) rest)

  class_joins-extended :
      (ecs : List (EquivalenceClass P)) (j : Joins P)
      → class_joins P relid attnum ecs j ≡ extended j (of_classes ecs) (relids_of_classes ecs)
  unfolding class_joins
  class_joins-extended [] j =
      ap (λ l. record { clauses = l; outer_relids = j.outer_relids }) (sym (append-nil j.clauses))
  class_joins-extended (ec ∷ ecs) j =
      rw (clauses_involving_attr-of_class ec, class_joins)
        (class_joins-extended ecs (with_class ec j (of_class ec))
          ∙ extended-class ec j (of_class ec) (of_classes ecs) (relids_of_classes ecs))

  outer_joins-extended :
      (ris : List (RestrictInfo P)) (j : Joins P)
      → outer_joins P relid attnum ris j
        ≡ extended j (on_column ris) (outer_relids_of (on_column ris))
  unfolding outer_joins
  outer_joins-extended [] j =
      ap (λ l. record { clauses = l; outer_relids = j.outer_relids }) (sym (append-nil j.clauses))
  outer_joins-extended (ri ∷ ris) j =
      elim (Bool-cases (is_attr_in_restrict_info P relid attnum ri)) [
        | inl here ↦
            rw (here, outer_joins)
              (outer_joins-extended ris (record {
                clauses = j.clauses ++ ri ∷ [];
                outer_relids = B.union j.outer_relids ri.outer_relids;
              })
                ∙ ap
                    (λ l. record {
                      clauses = l;
                      outer_relids =
                          unions (B.union j.outer_relids ri.outer_relids)
                            (outer_relids_of (on_column ris));
                    })
                    (append_assoc j.clauses (ri ∷ []) (on_column ris)))
        | inr missing ↦ rw (missing, outer_joins) (outer_joins-extended ris j)
      ]

module _ {B : Bitmapsets} (P : Server B) where
  -- The joins on a column of the table: the clauses on it of the classes and then of the outer
  -- joins, and the relations that these name.
  abbrev pub all_joins : PlannerInfo P → RelOptInfo P → ℕ → Joins P
  all_joins root rel attnum =
      let outer =
        on_column P rel.relid attnum
          (P.list_union (RestrictInfo P) root.left_join_clauses root.right_join_clauses) in
      record {
        clauses = of_classes P rel.relid attnum root.eq_classes ++ outer;
        outer_relids =
            unions P rel.relid attnum
              (unions P rel.relid attnum B.empty
                (relids_of_classes P rel.relid attnum root.eq_classes))
              (outer_relids_of P rel.relid attnum outer);
      }

  pub joins_of-all_joins :
      (root : PlannerInfo P) (rel : RelOptInfo P) (attnum : ℕ)
      → joins_of P root rel attnum ≡ all_joins root rel attnum
  joins_of-all_joins root rel attnum =
      rw
        (class_joins-extended P rel.relid attnum root.eq_classes
          (record { clauses = []; outer_relids = B.empty }))
        (outer_joins-extended P rel.relid attnum
          (P.list_union (RestrictInfo P) root.left_join_clauses root.right_join_clauses) _)
