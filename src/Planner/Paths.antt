-- ===== src/Planner/Paths.antt =====
-- Which access paths the planner is given (ocgeoGetForeignPaths, findPaths).
use mathlib.Core.Path.{subst}
use ocgeo_fdw.Planner.Joined.{all_joins, joins_of-all_joins}
use ocgeo_fdw.Prelude.{
  ◌⊎◌, sym, ◌∙◌, true, ℕ, suc, ◌*◌, ◌≡◌, refl, inl, inr, Bool, false, Bool-cases, lt→ltb, String,
  Option, none, some, List, [], ◌∷◌, length, ltb, if◌then◌else◌, arith,
}
use ocgeo_fdw.Server.{Bitmapsets, Server}
use ocgeo_fdw.Planner.{
  Joins, ForeignPath, PlanState, RelOptInfo, PlannerInfo, RestrictInfo, find_paths, join_path,
  query_attnum, joins_of, get_foreign_paths, or_default_path, default_path,
}

cons-nil : {A : Type 0} {x : A} {xs : List A} → x ∷ xs ≡ [] → ⊥
cons-nil h = cc

module _ {B : Bitmapsets} (P : Server B) where
  -- A path that takes its query from a join: on the clauses found, with the relations that they
  -- name, less the table itself.
  pub record JoinsOn (rel : RelOptInfo P) (joins : Joins P) (p : ForeignPath P) : Type 0 where
    pub outer : B.Set
    pub params : p.param_info ≡ some (record { clauses = joins.clauses; outer_relids = outer })
    pub some_clause : joins.clauses ≡ [] → ⊥
    pub less_self : outer ≡ B.difference joins.outer_relids (B.make_singleton rel.relid)
    pub not_empty : B.is_empty outer ≡ false
    pub cost : p.total_cost ≡ 10 * rel.width

  -- Joins that give no path: they have no clause, or name no relation but the table itself.
  abbrev pub NoJoin : RelOptInfo P → Joins P → Type 0
  NoJoin rel joins =
      (joins.clauses ≡ [])
      ⊎ (B.is_empty (B.difference joins.outer_relids (B.make_singleton rel.relid)) ≡ true)

  -- No join gives a path: the table has no query column, or the joins on it give none.
  abbrev pub NoPath : RelOptInfo P → List (String × Bool) → (ℕ → Joins P) → Type 0
  NoPath rel attrs joins =
      (query_attnum P 0 attrs ≡ none)
      ⊎ ((attnum : ℕ) × (query_attnum P 0 attrs ≡ some attnum) × NoJoin rel (joins attnum))

  -- What the planner is given, for the joins on each column: one path by a join, or the simple path where a condition is for the
  -- service, or none.
  pub data Offers (rel : RelOptInfo P) (attrs : List (String × Bool)) (state : PlanState P)
      (joins : ℕ → Joins P) : List (ForeignPath P) → Type 0 where
    by_join :
        (attnum : ℕ) (p : ForeignPath P)
        → query_attnum P 0 attrs ≡ some attnum
        → JoinsOn rel (joins attnum) p
        → Offers rel attrs state joins (p ∷ [])
    by_condition :
        (p : ForeignPath P)
        → p.param_info ≡ none
        → p.rows ≡ rel.rows
        → ((state.conditions.remote_conds ≡ []) → ⊥)
        → NoPath rel attrs joins
        → Offers rel attrs state joins (p ∷ [])
    nothing :
        state.conditions.remote_conds ≡ []
        → NoPath rel attrs joins
        → Offers rel attrs state joins []

  module _ (rel : RelOptInfo P) (attrs : List (String × Bool)) (state : PlanState P)
      (joins : ℕ → Joins P) where
    -- The list of one path, or the simple path where a condition is for the service.
    default_path-Offers :
        (remote : List (RestrictInfo P))
        → state.conditions.remote_conds ≡ remote
        → NoPath rel attrs joins
        → Offers rel attrs state joins
            (if ltb 0 (length remote) then default_path P rel state ∷ [] else [])
    default_path-Offers [] h unjoined = nothing h unjoined
    default_path-Offers (ri ∷ ris) h unjoined =
        rw (lt→ltb 0 (suc (length ris)) (omega arith))
          (by_condition (default_path P rel state) refl refl (λ e. cc) unjoined)

    unjoined-Offers :
        NoPath rel attrs joins → Offers rel attrs state joins (or_default_path P rel state [])
    unjoined-Offers unjoined = default_path-Offers state.conditions.remote_conds refl unjoined

    join_path-Offers :
        (attnum : ℕ)
        → query_attnum P 0 attrs ≡ some attnum
        → ((joins attnum).clauses ≡ [] → ⊥)
        → Offers rel attrs state joins
            (or_default_path P rel state (join_path P rel state.startup_cost (joins attnum)))
    join_path-Offers attnum h some_clause =
        let outer = B.difference (joins attnum).outer_relids (B.make_singleton rel.relid) in
        elim (Bool-cases (B.is_empty outer)) [
          | inl e ↦ rw e (unjoined-Offers (inr (attnum, h, inr e)))
          | inr e ↦ rw e (
              by_join attnum _ h (record {
                outer = outer;
                params = refl;
                some_clause = some_clause;
                less_self = refl;
                not_empty = e;
                cost = refl;
              }))
        ]

    -- The joins that give a path have clauses; without any there is no path from them.
    clauses-Offers :
        (attnum : ℕ) (clauses : List (RestrictInfo P))
        → query_attnum P 0 attrs ≡ some attnum
        → (joins attnum).clauses ≡ clauses
        → Offers rel attrs state joins (
            or_default_path P rel state (elim clauses [
              | [] ↦ []
              | _ ∷ _ ↦ join_path P rel state.startup_cost (joins attnum)
            ]))
    clauses-Offers attnum [] h e = unjoined-Offers (inr (attnum, h, inl e))
    clauses-Offers attnum (ri ∷ ris) h e =
        join_path-Offers attnum h (λ e'. absurd (cons-nil (sym e ∙ e')))

    query-Offers :
        (found : Option ℕ)
        → query_attnum P 0 attrs ≡ found
        → Offers rel attrs state joins (
            or_default_path P rel state (elim found [
              | none ↦ []
              | some attnum ↦ elim (joins attnum).clauses [
                | [] ↦ []
                | _ ∷ _ ↦ join_path P rel state.startup_cost (joins attnum)
              ]
            ]))
    query-Offers none h = unjoined-Offers (inl h)
    query-Offers (some attnum) h = clauses-Offers attnum (joins attnum).clauses h refl

  pub get_foreign_paths-Offers :
      (root : PlannerInfo P) (rel : RelOptInfo P) (attrs : List (String × Bool))
      (state : PlanState P)
      → Offers rel attrs state (all_joins P root rel) (get_foreign_paths P root rel attrs state)
  unfolding get_foreign_paths find_paths
  get_foreign_paths-Offers root rel attrs state =
      subst
        (λ (joins : ℕ → Joins P).
          Offers rel attrs state joins (get_foreign_paths P root rel attrs state))
        (λ i n. joins_of-all_joins P root rel n i)
        (query-Offers rel attrs state (joins_of P root rel) (query_attnum P 0 attrs) refl)
