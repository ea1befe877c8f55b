-- ===== src/Server.antt =====
-- What the wrapper uses of PostgreSQL: expression nodes, sets of relations, and the functions of
-- the server that the code calls.
use ocgeo_fdw.Prelude.{ℕ, Bool, String, Option, List}
use ocgeo_fdw.Prelude.Int.{ℤ}

-- The types of columns that the code tells apart (TEXTOID and so on).
pub data TypeId : Type 0 where
  text varchar int2 int4 int8 point box jsonb : TypeId
  other_type : ℕ → TypeId

pub record Var : Type 0 where
  pub varno : ℕ
  pub varattno : ℤ
  pub vartype : TypeId

pub record OpHead : Type 0 where
  pub opno : ℕ
  pub opresulttype : ℕ
  pub opretset : Bool
  pub opcollid : ℕ
  pub inputcollid : ℕ

-- A node of an expression, over the type of the values (Datum).
mutual
  pub data Node (D : Type 0) : Type 0 where
    var : Var → Node D
    const : (constisnull : Bool) → (constvalue : D) → Node D
    param : (paramid : ℕ) → Node D
    op_expr : OpHead → Nodes D → Node D
    relabel_type : Node D → Node D
    array_coerce_expr : Node D → Node D
    other_node : ℕ → Node D

  pub data Nodes (D : Type 0) : Type 0 where
    nil : Nodes D
    cons : Node D → Nodes D → Nodes D

-- bitmapset.h
pub record Bitmapsets : Type 1 where
  pub Set : Type 0
  pub empty : Set
  pub make_singleton : ℕ → Set
  pub union : Set → Set → Set
  pub difference : Set → Set → Set
  pub is_member : ℕ → Set → Bool
  pub is_subset : Set → Set → Bool
  pub is_empty : Set → Bool

-- Values, the system catalogs, and the walks over expressions. `oprcom` is the commutator of an
-- operator in the system cache, 0 if it has none; no entry if the lookup fails.
pub record Server (B : Bitmapsets) : Type 1 where
  pub Datum : Type 0
  pub is_zero : Datum → Bool
  pub text_to_cstring : Datum → String
  pub cstring_to_text : String → Datum
  pub datum_get_int32 : Datum → ℤ
  pub int32_get_datum : ℤ → Datum
  pub point_in : String → Datum
  pub box_in : String → Datum
  pub jsonb_in : String → Datum
  pub oprcom : ℕ → Option ℕ
  pub get_opname : ℕ → String
  pub contain_volatile_functions : Node Datum → Bool
  pub pull_varnos : Node Datum → B.Set
  pub pull_var_clause : Node Datum → List Var
  pub list_union : (A : Type 0) → List A → List A → List A
