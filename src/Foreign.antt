-- ===== src/Foreign.antt =====
-- What the program uses and this repository does not implement, or holds a copy of: the
-- floating-point arithmetic of the machine, and the JSON library (cJSON.c, cJSON.h).
use Prim.Native.String
use ocgeo_fdw.Prelude.{◌^◌, ◌≤◌, ◌≡◌, Bool, true, false, not, Option, some, List}
use Prim.Native.String.{String}
use ocgeo_fdw.Prelude.Int.{ℤ, ltb_ℤ, pos_part, neg_part}

-- `double`: the conversion from an integer, what is computed with it, and what printf makes of it
-- under "%.8F", "%.6lf" and "%.2lf".
pub record Floating : Type 1 where
  pub Double : Type 0
  pub of_long : ℤ → Double
  pub add : Double → Double → Double
  pub divide : Double → Double → Double
  pub double_leb : Double → Double → Bool
  pub print_8 : Double → String
  pub print_6 : Double → String
  pub print_2 : Double → String

-- The nodes of a parsed document. A pointer that may be NULL is an `Option`. `elements` reads the
-- list that starts at `child` and goes on by `next`. A node is of one type: at most one of the
-- three tests holds.
pub record Cjson (F : Floating) : Type 1 where
  pub Node : Type 0
  pub parse : String → Option Node
  pub print_unformatted : Node → String
  pub get_object_item : Node → String → Option Node
  pub get_object_item_case_sensitive : Node → String → Option Node
  pub get_array_item : Node → ℤ → Option Node
  pub get_string_value : Node → Option String
  pub elements : Node → List Node
  pub is_null : Node → Bool
  pub is_string : Node → Bool
  pub is_number : Node → Bool
  pub valueint : Node → ℤ
  pub valuedouble : Node → F.Double
  pub valuestring : Node → String

-- The type bits of a node are exclusive (cJSON.h): what is null is no string and no number.
pub record HasOneType {F : Floating} (J : Cjson F) : Type 0 where
  pub null_no_string : (n : J.Node) → J.is_string n ≡ true → J.is_null n ≡ false
  pub null_no_number : (n : J.Node) → J.is_number n ≡ true → J.is_null n ≡ false

-- The integers that every double format holds exactly.
abbrev pub IsExact : ℤ → Type 0
IsExact a = (pos_part a ≤ 2 ^ 53) × (neg_part a ≤ 2 ^ 53)

-- `double_leb` agrees with the order of the integers that a double holds exactly.
pub record OrdersIntegers (F : Floating) : Type 0 where
  pub same_order :
      (a b : ℤ) → IsExact a → IsExact b → F.double_leb (F.of_long a) (F.of_long b) ≡ not (ltb_ℤ b a)

-- Strings of the library sds (sds.c, sds.h): what is appended stands behind what was there. The
-- text that `cat_printf` appends is the formatted one. `split_len` cuts a text at a separator.
pub record Sds : Type 1 where
  pub Buffer : Type 0
  pub empty : Buffer
  pub new : Option String → Buffer
  pub cat : Buffer → String → Buffer
  pub cat_len : Buffer → String → Buffer
  pub cat_printf : Buffer → String → Buffer
  pub text_of : Buffer → String
  pub split_len : String → String → Option (List String)

-- What sds.h says of these functions.
pub record AppendsText (S : Sds) : Type 0 where
  pub text_empty : S.text_of S.empty ≡ ""
  pub text_new : (s : String) → S.text_of (S.new (some s)) ≡ s
  pub text_cat : (b : S.Buffer) (s : String) → S.text_of (S.cat b s) ≡ String.◌++◌ (S.text_of b) s
  pub text_cat_len :
      (b : S.Buffer) (s : String) → S.text_of (S.cat_len b s) ≡ String.◌++◌ (S.text_of b) s
  pub text_cat_printf :
      (b : S.Buffer) (s : String) → S.text_of (S.cat_printf b s) ≡ String.◌++◌ (S.text_of b) s

-- The library curl: `perform` takes the URL and the user agent; it hands the chunks of the body to
-- the callback, in their order, and says whether the transfer succeeded (CURLE_OK).
pub record Curl : Type 0 where
  pub easy_escape : String → String
  pub version : String
  pub perform : String → String → List String × Bool
