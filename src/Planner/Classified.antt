-- ===== src/Planner/Classified.antt =====
-- Which conditions are for the service (classifyConditions).
use package.text.Mathlib.TextEquality.{eq_iff}
use ocgeo_fdw.Prelude.{
  Bool-cases, inl, inr, ◌≡◌, ◌↔◌, ◌⊎◌, String, refl, sym, ap, ◌∙◌, Bool, true, false, List, [], ◌∷◌,
  ◌++◌, arith,
}
use mathlib.Core.Path.{subst}
use mathlib.Core.List.{append-nil, append_assoc}
use ocgeo_fdw.Prelude.Exec.{ok, >>=-eq-ok, ok-injective}
use ocgeo_fdw.Server.{Var, OpHead, Node, var, op_expr, nil, cons, Bitmapsets, Server}
use ocgeo_fdw.World.{ColumnNames}
use ocgeo_fdw.Planner.{
  RestrictInfo, RelOptInfo, Conditions, is_remote_name, is_remote, add_condition, classify_from,
  classify_conditions,
}

-- The two forms that the service can take.
abbrev pub IsServed : String → String → Type 0
IsServed opname attname =
    ((opname ≡ "=") × (attname ≡ "q")) ⊎ ((opname ≡ ">=") × (attname ≡ "confidence"))

is_remote_name_iff :
    {B : Bitmapsets} (P : Server B) (opname attname : String)
    → (is_remote_name P opname attname ≡ true) ↔ IsServed opname attname
is_remote_name_iff P opname attname = (
  λ h. ground (
    arith,
    eq_iff opname "=",
    eq_iff attname "q",
    eq_iff opname ">=",
    eq_iff attname "confidence",
  ),
  λ h. ground (
    arith,
    eq_iff opname "=",
    eq_iff attname "q",
    eq_iff opname ">=",
    eq_iff attname "confidence",
  ),
)

module _ {B : Bitmapsets} (P : Server B) (names : ColumnNames) (relids : B.Set) where
  -- The form `q = …` or `confidence >= …`, on a column of the table.
  pub record IsServable (ri : RestrictInfo P) : Type 0 where
    pub op : OpHead
    pub column : Var
    pub operand : Node P.Datum
    pub form : ri.clause ≡ op_expr op (cons (var column) (cons operand nil))
    pub of_table : B.is_member column.varno relids ≡ true
    pub named : IsServed (P.get_opname op.opno) (names.relid_attname column.varattno)

  is_remote-IsServable :
      (clause : Node P.Datum)
      → is_remote P names relids clause ≡ ok true
      → (outer : B.Set) → IsServable (record { clause = clause; outer_relids = outer })
  unfolding is_remote
  is_remote-IsServable (op_expr op (cons (var v) (cons b nil))) h outer = record {
    op = op;
    column = v;
    operand = b;
    form = refl;
    of_table = ground arith;
    named =
        (is_remote_name_iff P (P.get_opname op.opno) (names.relid_attname v.varattno)).0
          (ground arith);
  }
  is_remote-IsServable _ h outer = ground arith

  is_remote-not_IsServable :
      (clause : Node P.Datum)
      → is_remote P names relids clause ≡ ok false
      → (outer : B.Set) → IsServable (record { clause = clause; outer_relids = outer })
      → ⊥
  unfolding is_remote
  is_remote-not_IsServable clause h outer s =
      let name =
        (is_remote_name_iff P (P.get_opname s.op.opno) (names.relid_attname s.column.varattno)).1
          s.named in
      elim (Bool-cases (names.has_column s.column.varattno)) [
        | inl there ↦ absurd (cc (rw (s.form, is_remote, s.of_table, there, name) at h))
        | inr missing ↦ absurd (cc (rw (s.form, is_remote, s.of_table, missing) at h))
      ]

  -- A list is taken apart into two that keep its order.
  pub data Splits
      : List (RestrictInfo P) → List (RestrictInfo P) → List (RestrictInfo P) → Type 0 where
    done : Splits [] [] []
    to_service :
        (ri : RestrictInfo P) {all remote local : List (RestrictInfo P)}
        → IsServable ri
        → Splits all remote local
        → Splits (ri ∷ all) (ri ∷ remote) local
    stays :
        (ri : RestrictInfo P) {all remote local : List (RestrictInfo P)}
        → (IsServable ri → ⊥)
        → Splits all remote local
        → Splits (ri ∷ all) remote (ri ∷ local)

  -- The two lists grow at their ends by the parts of the input.
  pub record Grows (input : List (RestrictInfo P)) (before after : Conditions P) : Type 0 where
    pub remote : List (RestrictInfo P)
    pub local : List (RestrictInfo P)
    pub remote_end : after.remote_conds ≡ before.remote_conds ++ remote
    pub local_end : after.local_conds ≡ before.local_conds ++ local
    pub splits : Splits input remote local

  Grows-remote :
      (clause : Node P.Datum)
      → (outer : B.Set) {ris : List (RestrictInfo P)}
      → (before : Conditions P) {after : Conditions P} → is_remote P names relids clause ≡ ok true
      → Grows ris
          (add_condition P true (record { clause = clause; outer_relids = outer }) before)
          after
      → Grows (record { clause = clause; outer_relids = outer } ∷ ris) before after
  Grows-remote clause outer before h g = record {
    remote = record { clause = clause; outer_relids = outer } ∷ g.remote;
    local = g.local;
    remote_end = g.remote_end ∙ append_assoc before.remote_conds _ g.remote;
    local_end = g.local_end;
    splits = to_service _ (is_remote-IsServable clause h outer) g.splits;
  }

  Grows-local :
      (clause : Node P.Datum)
      → (outer : B.Set) {ris : List (RestrictInfo P)}
      → (before : Conditions P) {after : Conditions P} → is_remote P names relids clause ≡ ok false
      → Grows ris
          (add_condition P false (record { clause = clause; outer_relids = outer }) before)
          after
      → Grows (record { clause = clause; outer_relids = outer } ∷ ris) before after
  Grows-local clause outer before h g = record {
    remote = g.remote;
    local = record { clause = clause; outer_relids = outer } ∷ g.local;
    remote_end = g.remote_end;
    local_end = g.local_end ∙ append_assoc before.local_conds _ g.local;
    splits = stays _ (is_remote-not_IsServable clause h outer) g.splits;
  }

  Grows-cons :
      (ri : RestrictInfo P)
      → (remote : Bool) {ris : List (RestrictInfo P)}
      → (before : Conditions P) {after : Conditions P}
      → is_remote P names relids ri.clause ≡ ok remote
      → Grows ris (add_condition P remote ri before) after
      → Grows (ri ∷ ris) before after
  Grows-cons ri true before h g = Grows-remote ri.clause ri.outer_relids before h g
  Grows-cons ri false before h g = Grows-local ri.clause ri.outer_relids before h g

  classify_from-Grows :
      (input : List (RestrictInfo P))
      → (before : Conditions P) {after : Conditions P}
      → classify_from P names relids input before ≡ ok after
      → Grows input before after
  unfolding classify_from
  classify_from-Grows [] before h = record {
    remote = [];
    local = [];
    remote_end =
        ap (λ c. c.remote_conds) (sym (ok-injective h)) ∙ sym (append-nil before.remote_conds);
    local_end =
        ap (λ c. c.local_conds) (sym (ok-injective h)) ∙ sym (append-nil before.local_conds);
    splits = done;
  }
  classify_from-Grows (ri ∷ ris) before h =
      let step = >>=-eq-ok (is_remote P names relids ri.clause) _ h in
      Grows-cons ri step.0 before step.1 (classify_from-Grows ris _ step.2)

-- If the conditions of a table can be told apart, those for the service and those that stay are
-- the input taken apart in its order: each one for the service has the form `q = …` or
-- `confidence >= …` on a column of that table, and none of those that stay has.
pub classify_conditions-Splits :
    {B : Bitmapsets} (P : Server B) (names : ColumnNames) (baserel : RelOptInfo P)
    → (input : List (RestrictInfo P)) {c : Conditions P}
    → classify_conditions P names baserel input ≡ ok c
    → Splits P names baserel.relids input c.remote_conds c.local_conds
unfolding classify_conditions
classify_conditions-Splits P names baserel input {c} h =
    let g =
      classify_from-Grows P names baserel.relids input
        (record { remote_conds = []; local_conds = [] }) h in
    subst (λ l. Splits P names baserel.relids input l c.local_conds) (sym g.remote_end)
      (subst (λ l. Splits P names baserel.relids input g.remote l) (sym g.local_end) g.splits)
