-- ===== src/Quals/Canonical.antt =====
-- The restrictions that are taken out of a clause.
use ocgeo_fdw.Prelude.{
  ℕ, Bool, ◌||◌, ◌≡◌, ◌≢◌, refl, sym, ap, ◌∙◌, inl, inr, true, false, ◌==◌, some, List, [], ◌∷◌,
  ◌++◌, arith, Option-cases, Bool-cases,
}
use ocgeo_fdw.Prelude.Int.{pos, ltb_ℤ}
use ocgeo_fdw.Prelude.Exec.{ok, >>=-eq-ok, ok-injective}
use ocgeo_fdw.Server.{
  Var, OpHead, Node, var, const, param, op_expr, relabel_type, array_coerce_expr, other_node, nil,
  cons, Bitmapsets, Server,
}
use ocgeo_fdw.Quals.{
  Binary, Qual, should_swap, swap_with, swap_at, unnest_clause, swap_operands_as_needed,
  base_column, canonical_form, canonical_op_expr, is_unsafe, add_qual, extract_restrictions,
}

or-false : (a b : Bool) → (a || b) ≡ false → (a ≡ false) × (b ≡ false)
or-false true b h = cc
or-false false b h = (refl, h)

module _ {B : Bitmapsets} (P : Server B) (base_relids : B.Set) where
  -- A restriction that can be evaluated before the scan: its column is one of the base relation,
  -- no system column, and its other side neither is volatile nor names every base relation.
  pub record IsPushable (q : Qual P.Datum) : Type 0 where
    pub of_base : B.is_member q.left.varno base_relids ≡ true
    pub is_column : ltb_ℤ (pos 0) q.left.varattno ≡ true
    pub not_volatile : P.contain_volatile_functions q.right ≡ false
    pub other_side : B.is_subset base_relids (P.pull_varnos q.right) ≡ false

  base_column-some :
      (l : Node P.Datum) {v : Var}
      → base_column P base_relids l ≡ some v
      → (B.is_member v.varno base_relids ≡ true) × (ltb_ℤ (pos 0) v.varattno ≡ true)
  base_column-some (var x) h = ground arith
  base_column-some _ h = cc

  -- The operands as they were, or exchanged under the commutator.
  data Swapped (b s : Binary P.Datum) : Type 0 where
    kept : s ≡ b → Swapped b s
    exchanged :
        (c : ℕ)
        → P.oprcom b.opoid ≡ some c
        → c ≢ 0
        → s ≡ record { left = b.right; right = b.left; opoid = c }
        → Swapped b s

  swap_with-Swapped :
      (b : Binary P.Datum) (c : ℕ) → P.oprcom b.opoid ≡ some c → Swapped b (swap_with P c b)
  swap_with-Swapped b c e = elim (Bool-cases (c == 0)) [
    | inl none_known ↦ kept (ground arith)
    | inr known ↦ exchanged c e (ground arith) (ground arith)
  ]

  swap_at-Swapped :
      (b : Binary P.Datum) (c : ℕ) (r : Node P.Datum)
      → P.oprcom b.opoid ≡ some c
      → Swapped b (swap_at P base_relids c r b)
  swap_at-Swapped b c (var r) e = elim (Bool-cases (should_swap P base_relids b.left r)) [
    | inl needed ↦ rw needed (swap_with-Swapped b c e)
    | inr fine ↦ rw fine (kept refl)
  ]
  swap_at-Swapped b c _ e = kept refl

  swap_operands-Swapped :
      (b : Binary P.Datum) {s : Binary P.Datum}
      → swap_operands_as_needed P base_relids b ≡ ok s
      → Swapped b s
  unfolding swap_operands_as_needed
  swap_operands-Swapped b h = elim (Option-cases (P.oprcom b.opoid)) [
    | inl missing ↦ absurd (cc (rw (missing, swap_operands_as_needed) at h))
    | inr (c, e) ↦
        rw (← ok-injective (rw (e, swap_operands_as_needed) at h)) (swap_at-Swapped b c b.right e)
  ]

  -- A restriction says what the clause says: the column is one operand and its other side the
  -- other, under the operator itself or under its commutator.
  pub data Says (op : OpHead) (l r : Node P.Datum) (q : Qual P.Datum) : Type 0 where
    straight : l ≡ var q.left → q.right ≡ r → q.opname ≡ P.get_opname op.opno → Says op l r q
    commuted :
        (c : ℕ)
        → P.oprcom op.opno ≡ some c
        → c ≢ 0
        → r ≡ var q.left
        → q.right ≡ l
        → q.opname ≡ P.get_opname c
        → Says op l r q

  -- What a node adds to the restrictions: nothing, or one that can be pushed down and says what a
  -- clause of two operands says.
  pub data Adds (node : Node P.Datum) (quals quals' : List (Qual P.Datum)) : Type 0 where
    nothing : quals' ≡ quals → Adds node quals quals'
    one :
        (op : OpHead) (a b : Node P.Datum) (q : Qual P.Datum)
        → node ≡ op_expr op (cons a (cons b nil))
        → quals' ≡ quals ++ q ∷ []
        → IsPushable q
        → Says op (unnest_clause a) (unnest_clause b) q
        → Adds node quals quals'

  base_column-var : (l : Node P.Datum) {v : Var} → base_column P base_relids l ≡ some v → l ≡ var v
  base_column-var (var x) h = ground arith
  base_column-var _ h = cc

  Swapped-Says :
      (op : OpHead) (l r : Node P.Datum) (s : Binary P.Datum) (v : Var)
      → Swapped (record { left = l; right = r; opoid = op.opno }) s
      → s.left ≡ var v
      → Says op l r (record { left = v; opname = P.get_opname s.opoid; right = s.right })
  Swapped-Says op l r s v (kept e) h =
      straight (ap (λ (b : Binary P.Datum). b.left) (sym e) ∙ h)
        (ap (λ (b : Binary P.Datum). b.right) e)
        (ap (λ (b : Binary P.Datum). P.get_opname b.opoid) e)
  Swapped-Says op l r s v (exchanged c found known e) h =
      commuted c found known (ap (λ (b : Binary P.Datum). b.left) (sym e) ∙ h)
        (ap (λ (b : Binary P.Datum). b.right) e)
        (ap (λ (b : Binary P.Datum). P.get_opname b.opoid) e)

  add_qual-Adds :
      (op : OpHead) (a b : Node P.Datum) (s : Binary P.Datum) (quals : List (Qual P.Datum))
      → Swapped (record { left = unnest_clause a; right = unnest_clause b; opoid = op.opno }) s
      → Adds
          (op_expr op (cons a (cons b nil)))
          quals
          (add_qual P base_relids (canonical_form P base_relids s) quals)
  add_qual-Adds op a b s quals w = elim (Option-cases (base_column P base_relids s.left)) [
    | inl missing ↦ rw (missing, add_qual) (nothing refl)
    | inr (v, found) ↦ elim (Bool-cases (is_unsafe P base_relids s.right)) [
      | inl unsafe ↦ rw (found, add_qual, unsafe) (nothing refl)
      | inr safe ↦
          let (member, column) = base_column-some s.left found in
          rw (found, add_qual, safe)
            (one op a b (record { left = v; opname = P.get_opname s.opoid; right = s.right }) refl
              refl
              (record {
                of_base = member;
                is_column = column;
                not_volatile = (or-false _ _ safe).0;
                other_side = (or-false _ _ safe).1;
              })
              (Swapped-Says op (unnest_clause a) (unnest_clause b) s v w
                (base_column-var s.left found)))
    ]
  ]

  -- Whatever a node is, if the look-up of its operator does not fail, it adds at most one
  -- restriction: on a column of the base relation, with another side that is not volatile and does
  -- not name every base relation, and it says what the node says, under the node's operator or under
  -- its commutator with the operands exchanged.
  pub extract_restrictions-Adds :
      (node : Node P.Datum) (quals : List (Qual P.Datum)) {quals' : List (Qual P.Datum)}
      → extract_restrictions P base_relids node quals ≡ ok quals'
      → Adds node quals quals'
  unfolding extract_restrictions
  extract_restrictions-Adds (op_expr op (cons a (cons b nil))) quals h =
      let start : Binary P.Datum = record {
        left = unnest_clause a;
        right = unnest_clause b;
        opoid = op.opno;
      } in
      let (c, e, h') = >>=-eq-ok (canonical_op_expr P base_relids op (cons a (cons b nil))) _ h in
      let (s, swapped, e') = >>=-eq-ok (swap_operands_as_needed P base_relids start) _ e in
      rw (← ok-injective h', ← ok-injective e')
        (add_qual-Adds op a b s quals (swap_operands-Swapped start swapped))
  extract_restrictions-Adds (op_expr op nil) quals h = nothing (sym (ok-injective h))
  extract_restrictions-Adds (op_expr op (cons a nil)) quals h = nothing (sym (ok-injective h))
  extract_restrictions-Adds (op_expr op (cons a (cons b (cons c r)))) quals h =
      nothing (sym (ok-injective h))
  extract_restrictions-Adds (var v) quals h = nothing (sym (ok-injective h))
  extract_restrictions-Adds (const isnull v) quals h = nothing (sym (ok-injective h))
  extract_restrictions-Adds (param i) quals h = nothing (sym (ok-injective h))
  extract_restrictions-Adds (relabel_type n) quals h = nothing (sym (ok-injective h))
  extract_restrictions-Adds (array_coerce_expr n) quals h = nothing (sym (ok-injective h))
  extract_restrictions-Adds (other_node n) quals h = nothing (sym (ok-injective h))
