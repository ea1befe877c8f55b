-- ===== src/Options/Merged.antt =====
-- Which of several settings of an option counts.
use text.Mathlib.Text.{◌==◌ as str_eq}
use ocgeo_fdw.Prelude.{
  ◌≡◌, refl, String, Option, none, some, List, [], ◌∷◌, ◌++◌, if◌then◌else◌, arith,
}
use ocgeo_fdw.Prelude.Int.{ℤ, pos}
use ocgeo_fdw.Prelude.Ctext.{atoi}
use ocgeo_fdw.Options.{
  DefElem, TableOptions, apply_option, apply_options, CatalogEntries, get_options,
}

abbrev pub or_else {ℓ} : {A : Type ℓ} → Option A → Option A → Option A
or_else (some v) o = some v
or_else none o = o

-- The last value that a list gives for a name.
unfoldable pub last_value : String → List DefElem → Option String
last_value key [] = none
last_value key (def ∷ defs) =
    or_else (last_value key defs) (if str_eq def.defname key then some def.arg else none)

-- The value of the user mapping, else that of the server, else that of the table.
unfoldable pub setting : String → CatalogEntries → Option String
setting key e =
    or_else (last_value key e.mapping_options)
      (or_else (last_value key e.server_options) (last_value key e.table_options))

abbrev pub number_or : Option String → ℤ → ℤ
number_or none d = d
number_or (some s) d = atoi s

last_value-append :
    (key : String) (xs ys : List DefElem)
    → last_value key (xs ++ ys) ≡ or_else (last_value key ys) (last_value key xs)
unfolding last_value
last_value-append key [] ys = ground arith
last_value-append key (x ∷ xs) ys = ground (arith, last_value-append key xs ys)

-- The settings of `t`, overridden by what a list gives.
record Overrides (t t' : TableOptions) (defs : List DefElem) : Type 0 where
  uri : t'.uri ≡ or_else (last_value "uri" defs) t.uri
  api_key : t'.api_key ≡ or_else (last_value "api_key" defs) t.api_key
  max_reqs_sec : t'.max_reqs_sec ≡ number_or (last_value "max_reqs_sec" defs) t.max_reqs_sec
  max_reqs_day : t'.max_reqs_day ≡ number_or (last_value "max_reqs_day" defs) t.max_reqs_day
  user_id : t'.user_id ≡ t.user_id

apply_options-Overrides :
    (t : TableOptions) (defs : List DefElem) → Overrides t (apply_options t defs) defs
unfolding last_value apply_option apply_options
apply_options-Overrides t [] = record {
  uri = refl;
  api_key = refl;
  max_reqs_sec = refl;
  max_reqs_day = refl;
  user_id = refl;
}
apply_options-Overrides t (def ∷ defs) =
    let o = apply_options-Overrides (apply_option t def) defs in
    record {
      uri = ground (arith, o.uri);
      api_key = ground (arith, o.api_key);
      max_reqs_sec = ground (arith, o.max_reqs_sec);
      max_reqs_day = ground (arith, o.max_reqs_day);
      user_id = o.user_id;
    }

setting-append :
    (key : String) (e : CatalogEntries)
    → last_value key ((e.table_options ++ e.server_options) ++ e.mapping_options) ≡ setting key e
unfolding setting
setting-append key e =
    rw
      (
        last_value-append key (e.table_options ++ e.server_options) e.mapping_options,
        last_value-append key e.table_options e.server_options,
      )
      refl

-- The user mapping's value of an option counts before the server's and the server's before the
-- table's, and of one list the last; without any, a user has 1 request a second and 2500 a day,
-- and the address and the key are what the structure held before.
pub get_options_lem :
    (e : CatalogEntries) (before : TableOptions)
    → ((get_options e before).user_id ≡ e.user_id)
      × ((get_options e before).uri ≡ or_else (setting "uri" e) before.uri)
      × ((get_options e before).api_key ≡ or_else (setting "api_key" e) before.api_key)
      × ((get_options e before).max_reqs_sec ≡ number_or (setting "max_reqs_sec" e) (pos 1))
      × ((get_options e before).max_reqs_day ≡ number_or (setting "max_reqs_day" e) (pos 2500))
unfolding get_options
get_options_lem e before =
    let o =
      apply_options-Overrides _ ((e.table_options ++ e.server_options) ++ e.mapping_options) in
    (
      o.user_id,
      rw (← setting-append "uri" e) o.uri,
      rw (← setting-append "api_key" e) o.api_key,
      rw (← setting-append "max_reqs_sec" e) o.max_reqs_sec,
      rw (← setting-append "max_reqs_day" e) o.max_reqs_day,
    )
