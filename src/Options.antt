-- ===== src/Options.antt =====
-- The options of servers and user mappings: the table of valid options, ocgeo_fdw_validator and
-- ocgeoGetOptions in ocgeo_fdw.c. The object identifiers of the catalogs are parameters.
pub mod Validated
pub mod Merged
pub mod Numbers
mod Tests
use text.Mathlib.Text.{◌==◌ as str_eq}
use ocgeo_fdw.Prelude.{
  ℕ, ◌%◌, ◌^◌, ◌-◌, Bool, true, false, ◌&&◌, ◌||◌, not, String, Option, none, some, List, [], ◌∷◌,
  ◌++◌, ltb, ◌==◌, if◌then◌else◌,
}
use ocgeo_fdw.Prelude.Int.{ℤ, pos, negsuc}
use ocgeo_fdw.Prelude.Exec.{
  Exec, ok, error, invalid_option_name, invalid_attribute_value, option_name_not_found, ◌>>=◌,
}
use ocgeo_fdw.Prelude.Ctext.{◌<>◌, codes, strtol, atoi}

pub record FdwOption : Type 0 where
  pub optname : String
  pub optcontext : ℕ
  pub optrequired : Bool

-- An option as it is given: its name and its value.
pub record DefElem : Type 0 where
  pub defname : String
  pub arg : String

-- The catalogs ForeignServerRelationId and UserMappingRelationId.
pub record Catalogs : Type 0 where
  pub foreign_server : ℕ
  pub user_mapping : ℕ

abbrev pub valid_options : Catalogs → List FdwOption
valid_options c =
    record { optname = "uri"; optcontext = c.foreign_server; optrequired = true }
    ∷ record { optname = "api_key"; optcontext = c.user_mapping; optrequired = true }
    ∷ record { optname = "max_reqs_sec"; optcontext = c.user_mapping; optrequired = false }
    ∷ record { optname = "max_reqs_day"; optcontext = c.user_mapping; optrequired = false }
    ∷ []

abbrev pub none_given : List Bool
none_given = false ∷ false ∷ false ∷ false ∷ []

abbrev pub is_option : ℕ → String → FdwOption → Bool
is_option catalog name o = catalog == o.optcontext && str_eq o.optname name

-- The search in the table: the marks with that of the option found set.
unfoldable pub mark_option : ℕ → String → List FdwOption → List Bool → Option (List Bool)
mark_option catalog name [] given = none
mark_option catalog name (o ∷ os) [] = none
mark_option catalog name (o ∷ os) (g ∷ gs) = elim (is_option catalog name o) [
  | true ↦ some (true ∷ gs)
  | false ↦ elim (mark_option catalog name os gs) [ none ↦ none | some gs' ↦ some (g ∷ gs') ]
]

-- The list of the options of a catalog, with the text so far.
unfoldable pub list_options : ℕ → List FdwOption → String → String
list_options catalog [] buf = buf
list_options catalog (o ∷ os) buf =
    let separator = if str_eq buf "" then "" else ", " in
    list_options catalog os (if catalog == o.optcontext then buf <> separator <> o.optname else buf)

abbrev pub options_hint : ℕ → List FdwOption → String
options_hint catalog options =
    "Valid options in this context are: " <> list_options catalog options ""

-- strtol's result is kept in an `unsigned long`.
abbrev pub to_unsigned : ℤ → ℕ
to_unsigned (pos n) = n % 2 ^ 64
to_unsigned (negsuc n) = 2 ^ 64 - 1 - n % 2 ^ 64

abbrev pub is_empty : List ℕ → Bool
is_empty [] = true
is_empty (_ ∷ _) = false

-- `val[0] == '\0' || *endptr != '\0' || numVal < 0`
unfoldable pub is_bad_number : String → Bool
is_bad_number val =
    let (number, endptr) = strtol 0 (codes val) in
    is_empty (codes val) || not (is_empty endptr) || ltb (to_unsigned number) 0

abbrev pub is_limit_option : String → Bool
is_limit_option name = str_eq name "max_reqs_sec" || str_eq name "max_reqs_day"

-- The loop over the options given.
unfoldable pub check_options : Catalogs → ℕ → List DefElem → List Bool → Exec (List Bool)
unfolding mark_option is_bad_number
check_options c catalog [] given = ok given
check_options c catalog (def ∷ defs) given =
    elim (mark_option catalog def.defname (valid_options c) given) [
      | none ↦ error (invalid_option_name def.defname (options_hint catalog (valid_options c)))
      | some given' ↦ elim (is_limit_option def.defname && is_bad_number def.arg) [
        | true ↦ error (invalid_attribute_value def.defname)
        | false ↦ check_options c catalog defs given'
      ]
    ]

abbrev pub is_missing : ℕ → FdwOption → Bool → Bool
is_missing catalog o given = catalog == o.optcontext && o.optrequired && not given

-- The loop over the required options.
unfoldable pub check_required : ℕ → List FdwOption → List Bool → Exec (Unit {0})
check_required catalog [] given = ok tt
check_required catalog (o ∷ os) [] = ok tt
check_required catalog (o ∷ os) (g ∷ gs) =
    if is_missing catalog o g
    then error (option_name_not_found o.optname)
    else check_required catalog os gs

unfoldable pub fdw_validator : Catalogs → List DefElem → ℕ → Exec (Unit {0})
unfolding check_options check_required
fdw_validator c options_list catalog =
    check_options c catalog options_list none_given >>= check_required catalog (valid_options c)

-- ocgeoTableOptions. A pointer that nothing was written to is whatever it was.
pub record TableOptions : Type 0 where
  pub server_id : ℕ
  pub user_id : ℕ
  pub uri : Option String
  pub api_key : Option String
  pub max_reqs_sec : ℤ
  pub max_reqs_day : ℤ

-- The body of the loop in ocgeoGetOptions.
unfoldable pub apply_option : TableOptions → DefElem → TableOptions
apply_option t def = record t {
  uri = if str_eq def.defname "uri" then some def.arg else t.uri;
  api_key = if str_eq def.defname "api_key" then some def.arg else t.api_key;
  max_reqs_sec = if str_eq def.defname "max_reqs_sec" then atoi def.arg else t.max_reqs_sec;
  max_reqs_day = if str_eq def.defname "max_reqs_day" then atoi def.arg else t.max_reqs_day;
}

unfoldable pub apply_options : TableOptions → List DefElem → TableOptions
unfolding apply_option
apply_options t [] = t
apply_options t (def ∷ defs) = apply_options (apply_option t def) defs

-- The options of a table, its server and the user's mapping, as the catalogs give them.
pub record CatalogEntries : Type 0 where
  pub server_id : ℕ
  pub user_id : ℕ
  pub table_options : List DefElem
  pub server_options : List DefElem
  pub mapping_options : List DefElem

unfoldable pub get_options : CatalogEntries → TableOptions → TableOptions
unfolding apply_options
get_options e before =
    apply_options
      (record before {
        server_id = e.server_id;
        user_id = e.user_id;
        max_reqs_day = pos 2500;
        max_reqs_sec = pos 1;
      })
      ((e.table_options ++ e.server_options) ++ e.mapping_options)
