-- ===== src/Samples/Database.antt =====
-- Concrete values for what the wrapper uses of the server: sets of relations as lists, hash tables
-- as association lists, and values that are texts or whole numbers.
use package.text.Mathlib.Text.{◌==◌ as str_eq}
use ocgeo_fdw.Prelude.{
  ℕ, ◌≡◌, refl, Bool, true, false, ◌||◌, ◌&&◌, ◌==◌, String, Option, none, some, List, [], ◌∷◌,
  ◌++◌, if◌then◌else◌, arith,
}
use ocgeo_fdw.Prelude.Int.{ℤ, pos, eqb_ℤ, ltb_ℤ}
use ocgeo_fdw.Server.{
  text, int4, Var, OpHead, Node, var, const, op_expr, nil, cons, Bitmapsets, Server,
}
use ocgeo_fdw.Limiter.{Counters}
use ocgeo_fdw.Stats.{Htab, IsMap}
use ocgeo_fdw.World.{ColumnMapping, NameTable, IsNameMap, ColumnNames, World}
use ocgeo_fdw.Samples.{whole, tree, texts, service}

abbrev member : ℕ → List ℕ → Bool
member k [] = false
member k (x ∷ xs) = x == k || member k xs

abbrev subset : List ℕ → List ℕ → Bool
subset [] ys = true
subset (x ∷ xs) ys = member x ys && subset xs ys

abbrev without : List ℕ → List ℕ → List ℕ
without [] ys = []
without (x ∷ xs) ys = let rest = without xs ys in if member x ys then rest else x ∷ rest

abbrev no_elements : List ℕ → Bool
no_elements [] = true
no_elements (_ ∷ _) = false

abbrev pub sets : Bitmapsets
sets = record {
  Set = List ℕ;
  empty = [];
  make_singleton = λ k. k ∷ [];
  union = λ xs ys. xs ++ ys;
  difference = without;
  is_member = member;
  is_subset = subset;
  is_empty = no_elements;
}

pub data Datum : Type 0 where
  text_datum : String → Datum
  int_datum : ℤ → Datum

abbrev text_value : Datum → String
text_value (text_datum s) = s
text_value (int_datum n) = ""

abbrev int_value : Datum → ℤ
int_value (text_datum s) = pos 0
int_value (int_datum n) = n

abbrev is_zero_value : Datum → Bool
is_zero_value (text_datum s) = false
is_zero_value (int_datum n) = eqb_ℤ n (pos 0)

-- The operators `=` on texts (98), and `>=` (525) and `<=` (523) on numbers.
abbrev commutator : ℕ → Option ℕ
commutator k =
    if k == 98
    then some 98
    else (if k == 525 then some 523 else (if k == 523 then some 525 else none))

abbrev name_of : ℕ → String
name_of k = if k == 98 then "=" else (if k == 525 then ">=" else "<=")

abbrev varnos : Node Datum → List ℕ
varnos (var v) = v.varno ∷ []
varnos _ = []

abbrev vars : Node Datum → List Var
vars (op_expr op (cons (var v) r)) = v ∷ []
vars _ = []

abbrev pub database : Server sets
database = record {
  Datum = Datum;
  is_zero = is_zero_value;
  text_to_cstring = text_value;
  cstring_to_text = text_datum;
  datum_get_int32 = int_value;
  int32_get_datum = int_datum;
  point_in = text_datum;
  box_in = text_datum;
  jsonb_in = text_datum;
  oprcom = commutator;
  get_opname = name_of;
  contain_volatile_functions = λ n. false;
  pull_varnos = varnos;
  pull_var_clause = vars;
  list_union = λ A xs ys. xs ++ ys;
}

abbrev Users : Type 0
Users = List (ℕ × Counters whole)

abbrev find_user : Users → ℕ → Option (Counters whole)
find_user [] k = none
find_user ((j, c) ∷ us) k = if j == k then some c else find_user us k

abbrev enter_user : Users → ℕ → Counters whole → Users
enter_user [] k c = (k, c) ∷ []
enter_user ((j, d) ∷ us) k c = if j == k then (k, c) ∷ us else (j, d) ∷ enter_user us k c

abbrev all_users : Users → List (Counters whole)
all_users [] = []
all_users ((j, c) ∷ us) = c ∷ all_users us

abbrev pub users : Htab whole
users = record {
  Table = Users;
  create = [];
  find = find_user;
  enter = enter_user;
  entries = all_users;
}

find_enter_user :
    (us : Users) (j k : ℕ) (c : Counters whole)
    → find_user (enter_user us j c) k ≡ (if j == k then some c else find_user us k)
find_enter_user [] j k c = refl
find_enter_user ((i, d) ∷ us) j k c = ground (arith, find_enter_user us j k c)

pub users-IsMap : IsMap users
users-IsMap = record { find_create = λ k. refl; find_enter = find_enter_user }

abbrev Columns : Type 0
Columns = List (String × ColumnMapping)

abbrev find_column : Columns → String → Option ColumnMapping
find_column [] name = none
find_column ((n, m) ∷ ms) name = if str_eq n name then some m else find_column ms name

abbrev pub columns : NameTable
columns = record {
  Table = Columns;
  create = [];
  find = find_column;
  enter = λ ms name m. (name, m) ∷ ms;
}

pub columns-IsNameMap : IsNameMap columns
columns-IsNameMap = record { find_enter = λ t j k m. refl }

-- The columns of the foreign table: q, confidence, formatted.
abbrev attname : ℤ → String
attname k = if eqb_ℤ k (pos 1) then "q" else (if eqb_ℤ k (pos 2) then "confidence" else "formatted")

abbrev pub table_names : ColumnNames
table_names = record {
  tuple_attname = attname;
  relid_attname = attname;
  has_column = λ k. ltb_ℤ (pos 0) k && ltb_ℤ k (pos 4);
}

abbrev pub world : World
world = record {
  floating = whole;
  cjson = tree;
  sds = texts;
  curl = service;
  bitmapsets = sets;
  server = database;
  htab = users;
  name_table = columns;
  column_names = table_names;
}

-- The columns as the planner names them, of the relation 1, and conditions on the first two.
abbrev pub q_column : Var
q_column = record { varno = 1; varattno = pos 1; vartype = text }

abbrev pub confidence_column : Var
confidence_column = record { varno = 1; varattno = pos 2; vartype = int4 }

abbrev pub operator : ℕ → OpHead
operator k = record {
  opno = k;
  opresulttype = 16;
  opretset = false;
  opcollid = 0;
  inputcollid = 100;
}

abbrev pub is_berlin : Node Datum
is_berlin =
    op_expr (operator 98) (cons (var q_column) (cons (const false (text_datum "Berlin")) nil))

-- The constant stands on the left: `5 <= confidence`.
abbrev pub is_confident : Node Datum
is_confident =
    op_expr (operator 523)
      (cons (const false (int_datum (pos 5))) (cons (var confidence_column) nil))
