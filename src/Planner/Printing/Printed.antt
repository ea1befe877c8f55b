-- ===== src/Planner/Printing/Printed.antt =====
-- Of which conditions the text is made without a fault.
use ocgeo_fdw.Prelude.{
  true, Bool-cases, inl, inr, ◌≡◌, ◌↔◌, refl, false, String, Option, none, some, List, [], ◌∷◌, ℕ,
  All, arith,
}
use ocgeo_fdw.Prelude.Ctext.{◌<>◌}
use ocgeo_fdw.Prelude.Exec.{ok, >>=-eq-ok}
use ocgeo_fdw.Server.{
  TypeId, text, varchar, int2, int4, Node, var, const, op_expr, nil, cons, Bitmapsets, Server,
}
use ocgeo_fdw.World.{ColumnNames}
use ocgeo_fdw.Planner.Types.{RestrictInfo}
use ocgeo_fdw.Planner.Printing.{
  text_operand, int_operand, print_operand, print_clause, print_clauses, append_clause,
  print_restrict_info_list,
}

module _ {B : Bitmapsets} (P : Server B) (names : ColumnNames) where
  -- A constant that is not null, and any constant.
  abbrev pub IsText : Node P.Datum → Type 0
  IsText (const isnull v) = P.is_zero v ≡ false
  IsText _ = ⊥

  abbrev pub IsNumber : Node P.Datum → Type 0
  IsNumber (const isnull v) = Unit
  IsNumber _ = ⊥

  -- What a column of a type may be compared with.
  abbrev pub IsOperand : TypeId → Node P.Datum → Type 0
  IsOperand text b = IsText b
  IsOperand varchar b = IsText b
  IsOperand int4 b = IsNumber b
  IsOperand int2 b = IsNumber b
  IsOperand _ b = Unit

  -- An operator has no operand, or a column that the catalog has and
  -- what goes with its type; what is no operator may be
  -- anything.
  abbrev pub IsPrintable : Node P.Datum → Type 0
  IsPrintable (op_expr op nil) = Unit
  IsPrintable (op_expr op (cons a nil)) = ⊥
  IsPrintable (op_expr op (cons (var v) (cons b rest))) =
      (names.has_column v.varattno ≡ true) × IsOperand v.vartype b
  IsPrintable (op_expr op (cons a (cons b rest))) = ⊥
  IsPrintable _ = Unit

  module _ (type_oid : TypeId → ℕ) where
    text_operand-IsText :
        (b : Node P.Datum) {t : String} → text_operand P names type_oid b ≡ ok t → IsText b
    text_operand-IsText b h = ground arith

    text_operand-prints :
        (b : Node P.Datum) → IsText b → (t : String) × (text_operand P names type_oid b ≡ ok t)
    text_operand-prints (const isnull v) h = ("'" <> P.text_to_cstring v <> "')", rw h refl)
    text_operand-prints _ h = absurd h

    int_operand-prints :
        (b : Node P.Datum) → IsNumber b → (t : String) × (int_operand P names type_oid b ≡ ok t)
    int_operand-prints (const isnull v) h = (_, refl)
    int_operand-prints _ h = absurd h

    print_operand-IsOperand :
        (t : TypeId) (b : Node P.Datum) {s : String}
        → print_operand P names type_oid t b ≡ ok s
        → IsOperand t b
    print_operand-IsOperand text b h = text_operand-IsText b h
    print_operand-IsOperand varchar b h = text_operand-IsText b h
    print_operand-IsOperand int4 b h = ground arith
    print_operand-IsOperand int2 b h = ground arith
    print_operand-IsOperand _ b h = tt

    print_operand-prints :
        (t : TypeId) (b : Node P.Datum)
        → IsOperand t b
        → (s : String) × (print_operand P names type_oid t b ≡ ok s)
    print_operand-prints text b h = text_operand-prints b h
    print_operand-prints varchar b h = text_operand-prints b h
    print_operand-prints int4 b h = int_operand-prints b h
    print_operand-prints int2 b h = int_operand-prints b h
    print_operand-prints _ b h = (_, refl)

    print_clause-IsPrintable :
        (n : Node P.Datum) {o : Option String}
        → print_clause P names type_oid n ≡ ok o
        → IsPrintable n
    unfolding print_clause
    print_clause-IsPrintable (op_expr op (cons (var v) (cons b rest))) h =
        elim (Bool-cases (names.has_column v.varattno)) [
          | inl there ↦
              let (s, printed, _) =
                >>=-eq-ok (print_operand P names type_oid v.vartype b) _ (rw there at h) in
              (there, print_operand-IsOperand v.vartype b printed)
          | inr missing ↦ absurd (cc (rw missing at h))
        ]
    print_clause-IsPrintable _ h = ground arith

    print_clause-prints :
        (n : Node P.Datum)
        → IsPrintable n
        → (o : Option String) × (print_clause P names type_oid n ≡ ok o)
    unfolding print_clause
    print_clause-prints (op_expr op (cons (var v) (cons b rest))) h =
        let (s, printed) = print_operand-prints v.vartype b h.1 in
        (
          some ("(" <> names.relid_attname v.varattno <> " " <> P.get_opname op.opno <> " " <> s),
          rw (h.0, printed) refl,
        )
    print_clause-prints (op_expr op (cons a nil)) h = absurd h
    print_clause-prints (op_expr op (cons a (cons b rest))) h = absurd h
    print_clause-prints _ h = (_, refl)

    print_clauses-IsPrintable :
        (ris : List (RestrictInfo P)) (t : String) {t' : String}
        → print_clauses P names type_oid ris t ≡ ok t'
        → All (λ ri. IsPrintable ri.clause) ris
    unfolding print_clauses
    print_clauses-IsPrintable [] t h = tt
    print_clauses-IsPrintable (ri ∷ ris) t h =
        let (o, printed, rest) = >>=-eq-ok (print_clause P names type_oid ri.clause) _ h in
        (print_clause-IsPrintable ri.clause printed, print_clauses-IsPrintable ris _ rest)

    print_clauses-prints :
        (ris : List (RestrictInfo P)) (t : String)
        → All (λ ri. IsPrintable ri.clause) ris
        → (t' : String) × (print_clauses P names type_oid ris t ≡ ok t')
    unfolding print_clauses
    print_clauses-prints [] t h = (t, refl)
    print_clauses-prints (ri ∷ ris) t h =
        let (o, printed) = print_clause-prints ri.clause h.0 in
        let (t', rest) = print_clauses-prints ris (append_clause P names type_oid o ris t) h.1 in
        (t', rw (printed, print_clauses) rest)

    -- The text is made exactly if every condition is printable.
    pub print_restrict_info_list_iff :
        (ris : List (RestrictInfo P))
        → ((o : Option String) × (print_restrict_info_list P names type_oid ris ≡ ok o))
          ↔ All (λ ri. IsPrintable ri.clause) ris
    unfolding print_restrict_info_list
    print_restrict_info_list_iff [] = (λ h. tt, λ h. (none, refl))
    print_restrict_info_list_iff (ri ∷ ris) = (
      λ (o, h).
          let (t, made, _) = >>=-eq-ok (print_clauses P names type_oid (ri ∷ ris) "") _ h in
          print_clauses-IsPrintable (ri ∷ ris) "" made,
      λ h. let (t, made) = print_clauses-prints (ri ∷ ris) "" h in (some t, rw made refl),
    )
