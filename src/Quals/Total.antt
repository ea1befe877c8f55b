-- ===== src/Quals/Total.antt =====
-- The clauses whose restrictions are taken out without an error, and what stands in them.
use ocgeo_fdw.Prelude.{ℕ, ◌≡◌, refl, sym, Bool, true, false, some, List, [], ◌∷◌, ◌++◌, All}
use mathlib.Core.Path.{subst}
use ocgeo_fdw.Prelude.Exec.{ok}
use ocgeo_fdw.Server.{
  Var, OpHead, Node, var, const, param, op_expr, relabel_type, array_coerce_expr, other_node, nil,
  cons, Bitmapsets, Server,
}
use ocgeo_fdw.Quals.{
  add_qual, canonical_form, swap_at, Qual, unnest_clause, swap_operands_as_needed,
  canonical_op_expr, extract_clause_from_op_expr, extract_restrictions,
}
use ocgeo_fdw.Quals.Canonical.{
  Adds, nothing, one, Says, straight, commuted, extract_restrictions-Adds,
}

-- A value that is known before the scan.
pub data IsValue {D : Type 0} : Node D → Type 0 where
  is_const : (isnull : Bool) (v : D) → IsValue (const isnull v)
  is_param : (i : ℕ) → IsValue (param i)

not_var : {D : Type 0} {n : Node D} {v : Var} → IsValue n → n ≡ var v → ⊥
not_var (is_const isnull v) e = cc
not_var (is_param i) e = cc

abbrev pub is_op_expr : {D : Type 0} → Node D → Bool
is_op_expr (op_expr op args) = true
is_op_expr _ = false

module _ {B : Bitmapsets} (P : Server B) where
  -- An operator that the catalog has compares a column and a value.
  pub data Compares (op : OpHead) (a b : Node P.Datum) : Type 0 where
    column_first :
        (v : Var) (c : ℕ)
        → unnest_clause a ≡ var v
        → IsValue (unnest_clause b)
        → P.oprcom op.opno ≡ some c
        → Compares op a b
    value_first :
        (v : Var) (c : ℕ)
        → IsValue (unnest_clause a)
        → unnest_clause b ≡ var v
        → P.oprcom op.opno ≡ some c
        → Compares op a b

  -- A clause that is such a comparison, or no operator's.
  pub data IsSimple (node : Node P.Datum) : Type 0 where
    compares :
        (op : OpHead) (a b : Node P.Datum)
        → node ≡ op_expr op (cons a (cons b nil))
        → Compares op a b
        → IsSimple node
    no_operator : is_op_expr node ≡ false → IsSimple node

  abbrev pub HasValues : List (Qual P.Datum) → Type 0
  HasValues = All (λ (q : Qual P.Datum). IsValue q.right)

  module _ (base_relids : B.Set) where
    pub operator_returns :
        (op : OpHead) (a b : Node P.Datum) (c : ℕ) (quals : List (Qual P.Datum))
        → P.oprcom op.opno ≡ some c
        → extract_restrictions P base_relids (op_expr op (cons a (cons b nil))) quals
          ≡ ok (
              add_qual P base_relids
                (canonical_form P base_relids (
                  swap_at P base_relids c
                    (unnest_clause b)
                    (record { left = unnest_clause a; right = unnest_clause b; opoid = op.opno })))
                quals)
    unfolding extract_restrictions extract_clause_from_op_expr canonical_op_expr
        swap_operands_as_needed
    operator_returns op a b c quals e = rw (e, swap_operands_as_needed) refl

    other_returns :
        (node : Node P.Datum) (quals : List (Qual P.Datum))
        → is_op_expr node ≡ false
        → extract_restrictions P base_relids node quals ≡ ok quals
    unfolding extract_restrictions
    other_returns (op_expr op args) quals h = cc
    other_returns (var v) quals h = refl
    other_returns (const isnull v) quals h = refl
    other_returns (param i) quals h = refl
    other_returns (relabel_type n) quals h = refl
    other_returns (array_coerce_expr n) quals h = refl
    other_returns (other_node n) quals h = refl

    HasValues-append :
        (quals : List (Qual P.Datum)) (q : Qual P.Datum)
        → HasValues quals
        → IsValue q.right
        → HasValues (quals ++ q ∷ [])
    HasValues-append [] q h v = (v, tt)
    HasValues-append (x ∷ quals) q h v = (h.0, HasValues-append quals q h.1 v)

    -- A restriction of such a comparison has a value on its other side.
    Says-IsValue :
        (op : OpHead) (a b : Node P.Datum) (q : Qual P.Datum)
        → Compares op a b
        → Says P base_relids op (unnest_clause a) (unnest_clause b) q
        → IsValue q.right
    Says-IsValue op a b q (column_first v c is_column value e) (straight l r o) =
        subst IsValue (sym r) value
    Says-IsValue op a b q (column_first v c is_column value e) (commuted k f nz r l o) =
        absurd (not_var value r)
    Says-IsValue op a b q (value_first v c value is_column e) (straight l r o) =
        absurd (not_var value l)
    Says-IsValue op a b q (value_first v c value is_column e) (commuted k f nz r l o) =
        subst IsValue (sym l) value

    Adds-HasValues :
        (op : OpHead) (a b : Node P.Datum) (quals : List (Qual P.Datum))
        {quals' : List (Qual P.Datum)}
        → Compares op a b
        → Adds P base_relids (op_expr op (cons a (cons b nil))) quals quals'
        → HasValues quals
        → HasValues quals'
    Adds-HasValues op a b quals k (nothing e) h = subst HasValues (sym e) h
    Adds-HasValues op a b quals k (one op' a' b' q ne e pushable says) h =
        let k' : Compares op' a' b' =
          subst (λ (x : OpHead × Node P.Datum × Node P.Datum). Compares x.0 x.1 x.2) (cc ne) k in
        subst HasValues (sym e) (HasValues-append quals q h (Says-IsValue op' a' b' q k' says))

    commutator_of :
        {op : OpHead} {a b : Node P.Datum} → Compares op a b → (c : ℕ) × (P.oprcom op.opno ≡ some c)
    commutator_of (column_first v c h h' e) = (c, e)
    commutator_of (value_first v c h h' e) = (c, e)

    comparison_returns :
        (op : OpHead) (a b : Node P.Datum) (quals : List (Qual P.Datum))
        → Compares op a b
        → HasValues quals
        → (quals' : List (Qual P.Datum)) × (extract_restrictions P base_relids
              (op_expr op (cons a (cons b nil)))
              quals
            ≡ ok quals')
          × HasValues quals'
    comparison_returns op a b quals k h =
        let (c, e) = commutator_of k in
        let returned = operator_returns op a b c quals e in
        (
          _,
          returned,
          Adds-HasValues op a b quals k
              (extract_restrictions-Adds P base_relids (op_expr op (cons a (cons b nil))) quals
                returned)
              h,
        )

    pub extract_restrictions-returns :
        (node : Node P.Datum) (quals : List (Qual P.Datum))
        → IsSimple node
        → HasValues quals
        → (quals' : List (Qual P.Datum)) × (extract_restrictions P base_relids node quals
            ≡ ok quals')
          × HasValues quals'
    extract_restrictions-returns node quals (compares op a b e k) h =
        rw e (comparison_returns op a b quals k h)
    extract_restrictions-returns node quals (no_operator e) h =
        (quals, other_returns node quals e, h)
