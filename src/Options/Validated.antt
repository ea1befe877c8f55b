-- ===== src/Options/Validated.antt =====
-- When the validator accepts the options of a catalog.
use text.Mathlib.Text.{◌==◌ as str_eq}
use text.Mathlib.TextEquality.{eq_iff}
use ocgeo_fdw.Prelude.{
  ℕ, ◌≡◌, refl, sym, Bool, true, false, ◌&&◌, ◌||◌, not, String, Option, none, some, List, [], ◌∷◌,
  ◌==◌, inl, inr, Bool-cases, if◌then◌else◌, arith,
}
use ocgeo_fdw.Prelude.Exec.{
  Exec, ok, crash, error, unfinished, ◌>>=◌, Report, invalid_option_name, invalid_attribute_value,
  option_name_not_found,
}
use ocgeo_fdw.Options.{
  Catalogs, DefElem, options_hint, valid_options, mark_option, is_bad_number, is_limit_option,
  check_options, check_required, fdw_validator,
}

abbrev is_ok {ℓ} : {A : Type ℓ} → Exec A → Bool
is_ok (ok a) = true
is_ok (crash c) = false
is_ok (error r) = false
is_ok unfinished = false

-- The options that a server and a user mapping may have.
abbrev pub is_listed : Catalogs → ℕ → String → Bool
is_listed c catalog name =
    (catalog == c.foreign_server && str_eq "uri" name)
    || (catalog == c.user_mapping
        && (str_eq "api_key" name || (str_eq "max_reqs_sec" name || str_eq "max_reqs_day" name)))

abbrev pub is_accepted : Catalogs → ℕ → DefElem → Bool
is_accepted c catalog def =
    is_listed c catalog def.defname && not (is_limit_option def.defname && is_bad_number def.arg)

unfoldable all_accepted : Catalogs → ℕ → List DefElem → Bool
all_accepted c catalog [] = true
all_accepted c catalog (def ∷ defs) = is_accepted c catalog def && all_accepted c catalog defs

unfoldable pub names : String → List DefElem → Bool
names name [] = false
names name (def ∷ defs) = str_eq name def.defname || names name defs

-- The first option that is not accepted.
unfoldable pub first_refused : Catalogs → ℕ → List DefElem → Option DefElem
first_refused c catalog [] = none
first_refused c catalog (def ∷ defs) =
    let rest = first_refused c catalog defs in if is_accepted c catalog def then rest else some def

-- What is reported of it: its value if its name is one of the catalog's.
abbrev pub report_of : Catalogs → ℕ → DefElem → Report
report_of c catalog def =
    if is_listed c catalog def.defname
    then invalid_attribute_value def.defname
    else invalid_option_name def.defname (options_hint catalog (valid_options c))

-- What is reported of the options that are missing: a server's address, then a user mapping's key.
abbrev pub complete : Catalogs → ℕ → Bool → Bool → Exec (Unit {0})
complete c catalog has_uri has_key =
    if catalog == c.foreign_server && not has_uri
    then error (option_name_not_found "uri")
    else (if catalog == c.user_mapping && not has_key
        then error (option_name_not_found "api_key")
        else ok tt)

abbrev pub verdict : Catalogs → ℕ → Bool → Bool → List DefElem → Exec (Unit {0})
verdict c catalog has_uri has_key defs = elim (first_refused c catalog defs) [
  | some def ↦ error (report_of c catalog def)
  | none ↦ complete c catalog (has_uri || names "uri" defs) (has_key || names "api_key" defs)
]

-- The names that the table holds, and the others.
data Kind (name : String) : Type 0 where
  is_uri : name ≡ "uri" → Kind name
  is_api_key : name ≡ "api_key" → Kind name
  is_max_reqs_sec : name ≡ "max_reqs_sec" → Kind name
  is_max_reqs_day : name ≡ "max_reqs_day" → Kind name
  is_other :
      str_eq "uri" name ≡ false
      → str_eq "api_key" name ≡ false
      → str_eq "max_reqs_sec" name ≡ false
      → str_eq "max_reqs_day" name ≡ false
      → Kind name

kind : (name : String) → Kind name
kind name = elim (Bool-cases (str_eq "uri" name)) [
  | inl h ↦ is_uri (sym ((eq_iff "uri" name).0 h))
  | inr h₀ ↦ elim (Bool-cases (str_eq "api_key" name)) [
    | inl h ↦ is_api_key (sym ((eq_iff "api_key" name).0 h))
    | inr h₁ ↦ elim (Bool-cases (str_eq "max_reqs_sec" name)) [
      | inl h ↦ is_max_reqs_sec (sym ((eq_iff "max_reqs_sec" name).0 h))
      | inr h₂ ↦ elim (Bool-cases (str_eq "max_reqs_day" name)) [
        | inl h ↦ is_max_reqs_day (sym ((eq_iff "max_reqs_day" name).0 h))
        | inr h₃ ↦ is_other h₀ h₁ h₂ h₃
      ]
    ]
  ]
]

module _ (c : Catalogs) (catalog : ℕ) where
  abbrev marks : Bool → Bool → Bool → Bool → List Bool
  marks g₀ g₁ g₂ g₃ = g₀ ∷ g₁ ∷ g₂ ∷ g₃ ∷ []

  abbrev run : List DefElem → List Bool → Exec (Unit {0})
  run defs given = check_options c catalog defs given >>= check_required catalog (valid_options c)

  mark_option_lem :
      (name : String) (g₀ g₁ g₂ g₃ : Bool)
      → mark_option catalog name (valid_options c) (marks g₀ g₁ g₂ g₃) ≡ (
          if catalog == c.foreign_server && str_eq "uri" name
          then some (marks true g₁ g₂ g₃)
          else (if catalog == c.user_mapping && str_eq "api_key" name
              then some (marks g₀ true g₂ g₃)
              else (if catalog == c.user_mapping && str_eq "max_reqs_sec" name
                  then some (marks g₀ g₁ true g₃)
                  else (if catalog == c.user_mapping && str_eq "max_reqs_day" name
                      then some (marks g₀ g₁ g₂ true)
                      else none))))
  unfolding mark_option
  mark_option_lem name g₀ g₁ g₂ g₃ = ground arith

  check_required_lem :
      (g₀ g₁ g₂ g₃ : Bool)
      → check_required catalog (valid_options c) (marks g₀ g₁ g₂ g₃) ≡ complete c catalog g₀ g₁
  unfolding check_required
  check_required_lem g₀ g₁ g₂ g₃ = ground arith

  -- What the loop does with the options that remain.
  abbrev Runs : List DefElem → Type 0
  Runs defs = (g₀ g₁ g₂ g₃ : Bool) → run defs (marks g₀ g₁ g₂ g₃) ≡ verdict c catalog g₀ g₁ defs

  run_step :
      (name arg : String) (defs : List DefElem)
      → Kind name
      → Runs defs
      → Runs (record { defname = name; arg = arg } ∷ defs)
  unfolding check_options first_refused names
  run_step name arg defs (is_uri e) ih g₀ g₁ g₂ g₃ =
      rw e (ground (arith, mark_option_lem "uri" g₀ g₁ g₂ g₃, ih true g₁ g₂ g₃))
  run_step name arg defs (is_api_key e) ih g₀ g₁ g₂ g₃ =
      rw e (ground (arith, mark_option_lem "api_key" g₀ g₁ g₂ g₃, ih g₀ true g₂ g₃))
  run_step name arg defs (is_max_reqs_sec e) ih g₀ g₁ g₂ g₃ =
      rw e (ground (arith, mark_option_lem "max_reqs_sec" g₀ g₁ g₂ g₃, ih g₀ g₁ true g₃))
  run_step name arg defs (is_max_reqs_day e) ih g₀ g₁ g₂ g₃ =
      rw e (ground (arith, mark_option_lem "max_reqs_day" g₀ g₁ g₂ g₃, ih g₀ g₁ g₂ true))
  run_step name arg defs (is_other h₀ h₁ h₂ h₃) ih g₀ g₁ g₂ g₃ =
      ground (arith, mark_option_lem name g₀ g₁ g₂ g₃)

  run_lem : (defs : List DefElem) → Runs defs
  unfolding check_options first_refused names
  run_lem [] g₀ g₁ g₂ g₃ = ground (arith, check_required_lem g₀ g₁ g₂ g₃)
  run_lem (def ∷ defs) g₀ g₁ g₂ g₃ =
      run_step def.defname def.arg defs (kind def.defname) (run_lem defs) g₀ g₁ g₂ g₃

-- The validator reports the first option of the list that is not one of its catalog, or whose value
-- is no number where one is wanted: in the first case by its name and the list of the catalog's
-- options, in the second by its name alone. If there is none, it reports that a server's list names
-- no address or that a user mapping's names no key, and otherwise it accepts the list.
pub fdw_validator-verdict :
    (c : Catalogs) (defs : List DefElem) (catalog : ℕ)
    → fdw_validator c defs catalog ≡ verdict c catalog false false defs
unfolding fdw_validator
fdw_validator-verdict c defs catalog = run_lem c catalog defs false false false false

all_accepted-first_refused :
    (c : Catalogs) (catalog : ℕ) (defs : List DefElem)
    → all_accepted c catalog defs
      ≡ elim (first_refused c catalog defs) [ none ↦ true | some _ ↦ false ]
unfolding all_accepted first_refused
all_accepted-first_refused c catalog [] = refl
all_accepted-first_refused c catalog (def ∷ defs) =
    ground (arith, all_accepted-first_refused c catalog defs)

-- The validator accepts a list of options exactly if each is one of its catalog, with a number
-- where one is wanted, and a server's list names its address, a user mapping's its key.
fdw_validator_lem :
    (c : Catalogs) (defs : List DefElem) (catalog : ℕ)
    → is_ok (fdw_validator c defs catalog) ≡ (
        all_accepted c catalog defs
        && ((not (catalog == c.foreign_server) || names "uri" defs)
            && (not (catalog == c.user_mapping) || names "api_key" defs)))
fdw_validator_lem c defs catalog =
    rw (fdw_validator-verdict c defs catalog, all_accepted-first_refused c catalog defs)
      (ground arith)
