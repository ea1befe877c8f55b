-- ===== src/Api/Url.antt =====
-- The URL of a request (ocgeo_is_valid_latlng and ocgeo_server_request_uri_impl in ocgeo_api.c).
pub mod Fields
use ocgeo_fdw.Prelude.{Bool, true, false, not, ◌&&◌, String, Option, none, some, if◌then◌else◌}
use ocgeo_fdw.Prelude.Int.{ℤ, pos, negsuc, eqb_ℤ}
use ocgeo_fdw.Prelude.Ctext.{◌<>◌, print_int}
use ocgeo_fdw.Foreign.{Floating, Sds}
use ocgeo_fdw.Api.Types.{LatLng, Params}

unfoldable pub is_valid_latlng : {F : Floating} → LatLng F → Bool
is_valid_latlng {F} coords =
    F.double_leb (F.of_long (negsuc 89)) coords.lat
    && F.double_leb coords.lat (F.of_long (pos 90))
    && F.double_leb (F.of_long (negsuc 179)) coords.lng
    && F.double_leb coords.lng (F.of_long (pos 180))

abbrev pub is_set : ℤ → Bool
is_set n = not (eqb_ℤ n (pos 0))

module _ (S : Sds) where
  -- `if (test) url = sdscatprintf(url, ...)`, or sdscat.
  abbrev pub printf_if : Bool → String → S.Buffer → S.Buffer
  printf_if test s url = if test then S.cat_printf url s else url

  abbrev pub cat_if : Bool → String → S.Buffer → S.Buffer
  cat_if test s url = if test then S.cat url s else url

  -- The same for a pointer that may be NULL.
  abbrev pub printf_some : Bool → String → Option String → S.Buffer → S.Buffer
  printf_some test key none url = url
  printf_some test key (some v) url = printf_if test (key <> v) url

  unfoldable pub server_request_uri_impl :
      {F : Floating} (escape : String → String) (api_key server query : String)
      → Bool
      → Params F
      → S.Buffer
  server_request_uri_impl {F} escape api_key server query is_fwd params =
      let q_escaped = escape query in
      let url = S.cat_printf S.empty (server <> "?q=" <> q_escaped <> "&key=" <> api_key) in
      let url = printf_some is_fwd "&countrycode=" params.countrycode url in
      let url = printf_some true "&language=" params.language url in
      let url = printf_if (is_set params.limit) ("&limit=" <> print_int params.limit) url in
      let url =
        printf_if (is_set params.min_confidence)
          ("&min_confidence=" <> print_int params.min_confidence) url in
      let url =
        S.cat_printf url
          ("&no_annotations=" <> print_int (if params.no_annotations then pos 1 else pos 0)) in
      let url = cat_if params.no_dedupe "&no_dedupe=1" url in
      let url = cat_if params.no_record "&no_record=1" url in
      let url = cat_if (is_fwd && params.roadinfo) "&roadinfo=1" url in
      printf_if (is_fwd && is_valid_latlng params.proximity)
        ("&proximity=" <> F.print_8 params.proximity.lat <> "," <> F.print_8 params.proximity.lng)
        url
