-- ===== src/Planner/Needed.antt =====
-- The columns that a scan is asked for (ColumnList).
use ocgeo_fdw.Prelude.{
  ◌++◌, ◌≤◌, ◌<◌, ◌==◌, arith, ℕ, zero, suc, ◌+◌, ◌≡◌, refl, inl, inr, true, false, Bool-cases,
  Option, none, some, List, All, [], ◌∷◌, ◌∙◌, sym, ap,
}
use ocgeo_fdw.Prelude.Int.{pos, eqb_ℤ, eq_of_parts}
use ocgeo_fdw.Server.{Var, Bitmapsets, Server}
use ocgeo_fdw.Planner.{RelOptInfo}
use ocgeo_fdw.Planner.Columns.{needed_columns, pick_column, some_cons, columns_from, column_list}

-- A variable with a number, and none before it in the list has that number.
pub record IsFirst (i : ℕ) (v : Var) (needed : List Var) : Type 0 where
  pub before : List Var
  pub after : List Var
  pub place : needed ≡ before ++ v ∷ after
  pub number : eqb_ℤ v.varattno (pos i) ≡ true
  pub first : All (λ w. eqb_ℤ w.varattno (pos i) ≡ false) before

-- A list of variables in which each one is the first of `needed` with its column number, the
-- numbers from `i` on, and a number that is left out is that of no variable of `needed`.
pub data Picks {B : Bitmapsets} (P : Server B) (needed : List Var) : ℕ → ℕ → List Var → Type 0 where
  ended : (i : ℕ) → Picks P needed i zero []
  picked :
      {i n : ℕ} {vs : List Var} (v : Var)
      → IsFirst i v needed
      → Picks P needed (i + 1) n vs
      → Picks P needed i (suc n) (v ∷ vs)
  left_out :
      {i n : ℕ} {vs : List Var}
      → All (λ v. eqb_ℤ v.varattno (pos i) ≡ false) needed
      → Picks P needed (i + 1) n vs
      → Picks P needed i (suc n) vs

module _ {B : Bitmapsets} (P : Server B) where
  pick-here :
      (k : ℕ) (w : Var) (vs : List Var)
      → eqb_ℤ w.varattno (pos k) ≡ true
      → pick_column P k (w ∷ vs) ≡ some w
  unfolding pick_column
  pick-here k w vs e = rw (e, pick_column) refl

  pick-there :
      (k : ℕ) (w : Var) (vs : List Var)
      → eqb_ℤ w.varattno (pos k) ≡ false
      → pick_column P k (w ∷ vs) ≡ pick_column P k vs
  unfolding pick_column
  pick-there k w vs e = rw (e, pick_column) refl

  same_var : {v w : Var} → some v ≡ some w → v ≡ w
  same_var h = cc

  some-none : {v : Var} → some v ≡ none → ⊥
  some-none h = cc

  pick_column-IsFirst :
      (k : ℕ) (vs : List Var) (v : Var) → pick_column P k vs ≡ some v → IsFirst k v vs
  unfolding pick_column
  pick_column-IsFirst k [] v h = cc
  pick_column-IsFirst k (w ∷ vs) v h = elim (Bool-cases (eqb_ℤ w.varattno (pos k))) [
    | inl e ↦
        let same : v ≡ w = same_var (sym h ∙ pick-here k w vs e) in
        record {
          before = [];
          after = vs;
          place = ap (λ u. u ∷ vs) (sym same);
          number = ap (λ u. eqb_ℤ u.varattno (pos k)) same ∙ e;
          first = tt;
        }
    | inr e ↦
        let rest = pick_column-IsFirst k vs v (sym (pick-there k w vs e) ∙ h) in
        record {
          before = w ∷ rest.before;
          after = rest.after;
          place = ap (λ l. w ∷ l) rest.place;
          number = rest.number;
          first = (e, rest.first);
        }
  ]

  pick_column-none :
      (k : ℕ) (vs : List Var)
      → pick_column P k vs ≡ none
      → All (λ v. eqb_ℤ v.varattno (pos k) ≡ false) vs
  unfolding pick_column
  pick_column-none k [] h = tt
  pick_column-none k (w ∷ vs) h = elim (Bool-cases (eqb_ℤ w.varattno (pos k))) [
    | inl e ↦ absurd (some-none (sym (pick-here k w vs e) ∙ h))
    | inr e ↦ (e, pick_column-none k vs (sym (pick-there k w vs e) ∙ h))
  ]

  columns_from-cons :
      (n i : ℕ) (needed : List Var) (found : Option Var) {vs : List Var}
      → pick_column P i needed ≡ found
      → Picks P needed (i + 1) n vs
      → Picks P needed i (suc n) (some_cons P found vs)
  columns_from-cons n i needed none h rest = left_out (pick_column-none i needed h) rest
  columns_from-cons n i needed (some v) h rest = picked v (pick_column-IsFirst i needed v h) rest

  columns_from-Picks :
      (n i : ℕ) (needed : List Var) → Picks P needed i n (columns_from P n i needed)
  unfolding columns_from
  columns_from-Picks zero i needed = ended i
  columns_from-Picks (suc n) i needed =
      columns_from-cons n i needed (pick_column P i needed) refl
        (columns_from-Picks n (i + 1) needed)

  -- The columns that a scan is asked for are, for each column number of the table from 1 in its
  -- order, the first needed variable with that number; a number is left out only if no needed
  -- variable has it.
  pub column_list-Picks :
      (rel : RelOptInfo P)
      → Picks P
          (needed_columns P rel.target_exprs rel.baserestrictinfo)
          1
          rel.max_attr
          (column_list P rel)
  unfolding column_list
  column_list-Picks rel = columns_from-Picks rel.max_attr 1 _

All-at {ℓ κ} : {A : Type ℓ} (Q : A → Type κ) (xs ys : List A) (x : A) → All Q (xs ++ x ∷ ys) → Q x
All-at Q [] ys x h = h.0
All-at Q (y ∷ xs) ys x h = All-at Q xs ys x h.1

module _ {B : Bitmapsets} (P : Server B) where
  -- A number of the table that some needed variable has is that of a column that is asked for.
  pub Picks-has :
      {needed : List Var} {vs : List Var} (lo n k : ℕ) (xs ys : List Var) (v : Var)
      → Picks P needed lo n vs
      → needed ≡ xs ++ v ∷ ys
      → v.varattno ≡ pos k
      → lo ≤ k
      → k < lo + n
      → (before : List Var) × (after : List Var) × (c : Var) × (vs ≡ before ++ c ∷ after)
        × (c.varattno ≡ pos k)
  Picks-has lo zero k xs ys v (ended i) e attno from below = absurd (omega arith)
  Picks-has lo (suc n) k xs ys v (picked {vs = vs} w p rest) e attno from below =
      elim (Bool-cases (lo == k)) [
        | inl here ↦
            ([], vs, w, refl, eq_of_parts w.varattno (pos k) (ground (arith, p.number, here)))
        | inr later ↦
            let (before, after, c, found, number) =
              Picks-has (lo + 1) n k xs ys v rest e attno (ground (arith, later)) (omega arith) in
            (w ∷ before, after, c, ap (λ l. w ∷ l) found, number)
      ]
  Picks-has lo (suc n) k xs ys v (left_out none_such rest) e attno from below =
      elim (Bool-cases (lo == k)) [
        | inl here ↦
            let differs = All-at _ xs ys v (rw e at none_such) in
            absurd (ground (arith, differs, here, attno))
        | inr later ↦
            Picks-has (lo + 1) n k xs ys v rest e attno (ground (arith, later)) (omega arith)
      ]
