-- ===== src/Samples.antt =====
-- Concrete values for the parameters of the model, on which the tests and the examples run: whole
-- numbers for doubles, documents as trees, texts as buffers, and in Samples/Database what the
-- wrapper uses of the server.
pub mod Database
pub mod Clocks
pub mod Shapes
use Prim.Native.String
use text.Mathlib.TextLemmas.{nil-append}
use text.Mathlib.Text.{◌==◌ as str_eq}
use ocgeo_fdw.Prelude.{
  ℕ, zero, suc, ◌≡◌, refl, Bool, true, false, not, String, Option, none, some, List, [], ◌∷◌,
  if◌then◌else◌,
}
use ocgeo_fdw.Prelude.Int.{ℤ, pos, ◌+ℤ◌, ltb_ℤ}
use ocgeo_fdw.Foreign.{Floating, Cjson, HasOneType, OrdersIntegers, Sds, AppendsText, Curl}

abbrev leb_whole : ℤ → ℤ → Bool
leb_whole a b = not (ltb_ℤ b a)

abbrev pub whole : Floating
whole = record {
  Double = ℤ;
  of_long = λ n. n;
  add = ◌+ℤ◌;
  divide = λ a b. a;
  double_leb = leb_whole;
  print_8 = λ a. "0.00000000";
  print_6 = λ a. "0.000000";
  print_2 = λ a. "0.00";
}

mutual
  pub data Json : Type 0 where
    null : Json
    num : ℤ → Json
    str : String → Json
    arr : Items → Json
    obj : Fields → Json

  pub data Items : Type 0 where
    nil : Items
    item : Json → Items → Items

  pub data Fields : Type 0 where
    end : Fields
    field : String → Json → Fields → Fields

abbrev lookup : String → Fields → Option Json
lookup k end = none
lookup k (field j v fs) = if str_eq j k then some v else lookup k fs

abbrev get_field : Json → String → Option Json
get_field (obj fs) k = lookup k fs
get_field _ k = none

abbrev nth : Items → ℕ → Option Json
nth nil i = none
nth (item v vs) zero = some v
nth (item v vs) (suc i) = nth vs i

abbrev get_item : Json → ℤ → Option Json
get_item (arr vs) (pos i) = nth vs i
get_item _ _ = none

abbrev item_list : Items → List Json
item_list nil = []
item_list (item v vs) = v ∷ item_list vs

abbrev field_list : Fields → List Json
field_list end = []
field_list (field k v fs) = v ∷ field_list fs

abbrev children : Json → List Json
children (arr vs) = item_list vs
children (obj fs) = field_list fs
children _ = []

abbrev string_value : Json → Option String
string_value (str s) = some s
string_value _ = none

abbrev content : Json → String
content (str s) = s
content _ = ""

abbrev number : Json → ℤ
number (num n) = n
number _ = pos 0

abbrev is_null : Json → Bool
is_null null = true
is_null _ = false

abbrev is_str : Json → Bool
is_str (str s) = true
is_str _ = false

abbrev is_num : Json → Bool
is_num (num n) = true
is_num _ = false

-- A reply with one result.
abbrev pub reply_text : String
reply_text = "{...}"

abbrev pub found : Json
found = obj (
    field "confidence" (num (pos 9)) (
      field "formatted" (str "Berlin, Germany") (
        field "geometry" (obj (field "lat" (num (pos 52)) (field "lng" (num (pos 13)) end)))
          (field "lines" (arr (item (str "one") (item (str "two") nil))) end))))

-- A document that states one result and holds the given ones.
abbrev pub document : Items → Json
document results = obj (
    field "status" (obj (field "code" (num (pos 200)) (field "message" (str "OK") end))) (
      field "rate"
        (obj (
          field "limit" (num (pos 2500))
            (field "remaining" (num (pos 2499)) (field "reset" (num (pos 1_700_000_000)) end))))
        (field "total_results" (num (pos 1)) (field "results" (arr results) end))))

abbrev parse_text : String → Option Json
parse_text s = if str_eq s reply_text then some (document (item found nil)) else none

abbrev pub tree : Cjson whole
tree = record {
  Node = Json;
  parse = parse_text;
  print_unformatted = λ n. "{}";
  get_object_item = get_field;
  get_object_item_case_sensitive = get_field;
  get_array_item = get_item;
  get_string_value = string_value;
  elements = children;
  is_null = is_null;
  is_string = is_str;
  is_number = is_num;
  valueint = number;
  valuedouble = number;
  valuestring = content;
}

null_no_str : (n : Json) → is_str n ≡ true → is_null n ≡ false
null_no_str null h = cc
null_no_str (num n) h = refl
null_no_str (str s) h = refl
null_no_str (arr vs) h = refl
null_no_str (obj fs) h = refl

null_no_num : (n : Json) → is_num n ≡ true → is_null n ≡ false
null_no_num null h = cc
null_no_num (num n) h = refl
null_no_num (str s) h = refl
null_no_num (arr vs) h = refl
null_no_num (obj fs) h = refl

pub tree-HasOneType : HasOneType tree
tree-HasOneType = record { null_no_string = null_no_str; null_no_number = null_no_num }

-- Whole numbers are ordered as they are.
pub whole-OrdersIntegers : OrdersIntegers whole
whole-OrdersIntegers = record { same_order = λ a b h h'. refl }

-- The parts of a text between its dots.
abbrev to_front : String → List String → List String
to_front c [] = []
to_front c (s ∷ ss) = String.◌++◌ c s ∷ ss

abbrev pub split_dots : String → List String
split_dots String.[] = "" ∷ []
split_dots (String.◌∷◌ c s) =
    let rest = split_dots s in
    if str_eq (String.◌∷◌ c "") "." then "" ∷ rest else to_front (String.◌∷◌ c "") rest

abbrev new_text : Option String → String
new_text none = ""
new_text (some s) = s

-- Buffers that are their texts.
abbrev pub texts : Sds
texts = record {
  Buffer = String;
  empty = "";
  new = new_text;
  cat = String.◌++◌;
  cat_len = String.◌++◌;
  cat_printf = String.◌++◌;
  text_of = λ s. s;
  split_len = λ s separator. some (split_dots s);
}

pub texts-AppendsText : AppendsText texts
texts-AppendsText = record {
  text_empty = refl;
  text_new = λ s. refl;
  text_cat = λ b s. refl;
  text_cat_len = λ b s. refl;
  text_cat_printf = λ b s. refl;
}

-- A service that sends the reply in two chunks, whatever it is asked.
abbrev pub service : Curl
service = record {
  easy_escape = λ s. s;
  version = "8.0.0";
  perform = λ url agent. ("{.." ∷ ".}" ∷ [], true);
}
