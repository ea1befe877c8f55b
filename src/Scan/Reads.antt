-- ===== src/Scan/Reads.antt =====
-- The clauses of a plan that a scan reads without a fault as it begins.
use ocgeo_fdw.Prelude.{
  ℕ, ◌≡◌, refl, ◌⊎◌, inl, Bool, ◌||◌, false, String, none, some, List, [], ◌∷◌, All, arith,
  if◌then◌else◌,
}
use ocgeo_fdw.Prelude.Exec.{ok}
use ocgeo_fdw.Server.{Node}
use ocgeo_fdw.Quals.{Qual}
use ocgeo_fdw.Quals.Total.{
  IsValue, is_const, is_param, IsSimple, HasValues, extract_restrictions-returns,
}
use ocgeo_fdw.World.{World}
use ocgeo_fdw.Scan.{
  Plan, Pushed, nothing_pushed, push_value, operand_value, apply_qual, apply_quals, collect_quals,
}

module _ (W : World) where
  open W use {server as P, bitmapsets as B, column_names as names}

  collect_quals-returns :
      (scanrelid : ℕ) (es : List (Node P.Datum)) (quals : List (Qual P.Datum))
      → All (IsSimple P) es
      → HasValues P quals
      → (quals' : List (Qual P.Datum)) × (collect_quals W scanrelid es quals ≡ ok quals')
        × HasValues P quals'
  unfolding collect_quals
  collect_quals-returns scanrelid [] quals h h' = (quals, refl, h')
  collect_quals-returns scanrelid (e ∷ es) quals h h' =
      let (q₁, e₁, v₁) =
        extract_restrictions-returns P (B.make_singleton scanrelid) e quals h.0 h' in
      let (q₂, e₂, v₂) = collect_quals-returns scanrelid es q₁ h.1 v₁ in (q₂, rw (e₁, e₂) refl, v₂)

  -- A query that is pushed down is pushed down for the column of the query.
  abbrev pub IsKeyed : Pushed W → Type 0
  IsKeyed p = (p.pushdown ≡ false) ⊎ (p.qual_key ≡ some "q")

  operand_value-returns :
      (params : ℕ → P.Datum × Bool) (n : Node P.Datum)
      → IsValue n
      → (v : P.Datum × Bool) × (operand_value W params n ≡ ok v)
  operand_value-returns params n (is_const isnull v) = ((v, isnull), refl)
  operand_value-returns params n (is_param i) = (params i, refl)

  abbrev pushed_by : Qual P.Datum → P.Datum × Bool → Pushed W → Pushed W
  pushed_by q v p =
      if v.1 || P.is_zero v.0
      then p
      else push_value W (names.tuple_attname q.left.varattno) q.opname v.0 p

  pushed_by-IsKeyed :
      (q : Qual P.Datum) (v : P.Datum × Bool) (p : Pushed W) → IsKeyed p → IsKeyed (pushed_by q v p)
  pushed_by-IsKeyed q v p k = ground arith

  apply_qual-returns :
      (params : ℕ → P.Datum × Bool) (q : Qual P.Datum) (p : Pushed W)
      → IsValue q.right
      → IsKeyed p
      → (p' : Pushed W) × (apply_qual W params q p ≡ ok p') × IsKeyed p'
  unfolding apply_qual
  apply_qual-returns params q p h k =
      let (v, e) = operand_value-returns params q.right h in
      (pushed_by q v p, rw e refl, pushed_by-IsKeyed q v p k)

  apply_quals-returns :
      (params : ℕ → P.Datum × Bool) (qs : List (Qual P.Datum)) (p : Pushed W)
      → HasValues P qs
      → IsKeyed p
      → (p' : Pushed W) × (apply_quals W params qs p ≡ ok p') × IsKeyed p'
  unfolding apply_quals
  apply_quals-returns params [] p h k = (p, refl, k)
  apply_quals-returns params (q ∷ qs) p h k =
      let (p₁, e₁, k₁) = apply_qual-returns params q p h.0 k in
      let (p₂, e₂, k₂) = apply_quals-returns params qs p₁ h.1 k₁ in (p₂, rw (e₁, e₂) refl, k₂)

  -- The clauses of a plan are read without a fault, and a query is pushed down for its own column.
  pub record IsRead (plan : Plan W) : Type 0 where
    pub quals : List (Qual P.Datum)
    pub pushed : Pushed W
    pub collected : collect_quals W plan.scanrelid plan.fdw_exprs [] ≡ ok quals
    pub applied : apply_quals W plan.params quals (nothing_pushed W) ≡ ok pushed
    pub keyed : IsKeyed pushed

  pub plan-IsRead : (plan : Plan W) → All (IsSimple P) plan.fdw_exprs → IsRead plan
  plan-IsRead plan h =
      let (quals, e, v) = collect_quals-returns plan.scanrelid plan.fdw_exprs [] h tt in
      let (p, e', k) = apply_quals-returns plan.params quals (nothing_pushed W) v (inl refl) in
      record { quals = quals; pushed = p; collected = e; applied = e'; keyed = k }

  pub key_of_value :
      (p : Pushed W) {query : String}
      → IsKeyed p
      → (if p.pushdown then p.qual_value else none) ≡ some query
      → p.qual_key ≡ some "q"
  key_of_value p k h = ground arith
