-- ===== src/Options/Tests.antt =====
-- Runs of the validator and of the merging of options, and their theorems at them.
use ocgeo_fdw.Prelude.{◌≡◌, refl, inr, false, some, none, List, [], ◌∷◌, arith}
use ocgeo_fdw.Prelude.Int.{pos}
use ocgeo_fdw.Prelude.Exec.{
  ok, error, invalid_option_name, option_name_not_found, invalid_attribute_value,
}
use ocgeo_fdw.Prelude.Ctext.{strtol, scan_digits, skip_spaces, atoi}
use ocgeo_fdw.Options.{
  Catalogs, DefElem, TableOptions, CatalogEntries, is_bad_number, mark_option, check_options,
  check_required, list_options, fdw_validator, get_options,
}
use ocgeo_fdw.Options.Validated.{first_refused, names, fdw_validator-verdict}
use ocgeo_fdw.Options.Merged.{last_value, setting, get_options_lem}
use ocgeo_fdw.Options.Numbers.{decimal_accepted}

abbrev catalogs : Catalogs
catalogs = record { foreign_server = 1417; user_mapping = 1418 }

abbrev user_options : List DefElem
user_options =
    record { defname = "max_reqs_sec"; arg = "5" } ∷ record { defname = "api_key"; arg = "k" } ∷ []

abbrev no_key : List DefElem
no_key = record { defname = "max_reqs_sec"; arg = "5" } ∷ []

abbrev bad_limit : List DefElem
bad_limit = record { defname = "max_reqs_sec"; arg = "5x" } ∷ []

validator_wants_key : fdw_validator catalogs no_key 1418 ≡ error (option_name_not_found "api_key")
unfolding fdw_validator check_options check_required mark_option is_bad_number strtol scan_digits
    skip_spaces
validator_wants_key = refl

validator_wants_number :
    fdw_validator catalogs bad_limit 1418 ≡ error (invalid_attribute_value "max_reqs_sec")
unfolding fdw_validator check_options check_required mark_option is_bad_number strtol scan_digits
    skip_spaces
validator_wants_number = refl

abbrev misspelt : List DefElem
misspelt =
    record { defname = "api_key"; arg = "k" } ∷ record { defname = "max_reqs"; arg = "5" } ∷ []

fdw_validator-verdict_example :
    fdw_validator catalogs misspelt 1418
    ≡ error (
        invalid_option_name "max_reqs"
          "Valid options in this context are: api_key, max_reqs_sec, max_reqs_day")
unfolding first_refused names list_options
fdw_validator-verdict_example = fdw_validator-verdict catalogs misspelt 1418

user_options_accepted : fdw_validator catalogs user_options 1418 ≡ ok tt
unfolding fdw_validator check_options check_required mark_option is_bad_number strtol scan_digits
    skip_spaces
user_options_accepted = refl

abbrev entries : CatalogEntries
entries = record {
  server_id = 1;
  user_id = 10;
  table_options = [];
  server_options = record { defname = "uri"; arg = "https://api" } ∷ [];
  mapping_options = user_options;
}

abbrev before : TableOptions
before = record {
  server_id = 0;
  user_id = 0;
  uri = none;
  api_key = none;
  max_reqs_sec = pos 0;
  max_reqs_day = pos 0;
}

get_options_lem_example :
    ((get_options entries before).user_id ≡ 10)
    × ((get_options entries before).uri ≡ some "https://api")
    × ((get_options entries before).api_key ≡ some "k")
    × ((get_options entries before).max_reqs_sec ≡ pos 5)
    × ((get_options entries before).max_reqs_day ≡ pos 2500)
unfolding setting last_value atoi strtol scan_digits skip_spaces
get_options_lem_example = get_options_lem entries before

decimal_accepted_example : is_bad_number "-5" ≡ false
decimal_accepted_example = decimal_accepted "-5" b'5' [] (omega arith) (omega arith) tt (inr refl)
