-- ===== src/Api/Reply.antt =====
-- Reading the reply of the service (parse_latlng and parse_response_json in ocgeo_api.c), and
-- giving its memory back (ocgeo_response_cleanup).
pub mod Sound
pub mod Faults
pub mod Shape
pub mod Total
use ocgeo_fdw.Prelude.{
  ℕ, zero, suc, Bool, true, false, String, Option, none, some, List, [], ◌∷◌, if◌then◌else◌,
}
use ocgeo_fdw.Prelude.Int.{ℤ, pos, ltb_ℤ, pos_part}
use ocgeo_fdw.Prelude.Exec.{
  Exec, ok, crash, null_dereference, assertion_failed, buffer_overflow, uninitialised_read, ◌>>=◌,
}
use ocgeo_fdw.Foreign.{Floating, Cjson}
use ocgeo_fdw.Api.Types.{
  Status, RateInfo, no_rate_info, LatLng, LatLngBounds, GeoResult, Results, chain, uninitialised,
  Response, zero_response, invalid_point,
}

-- A pointer that is dereferenced.
abbrev pub deref {ℓ} : {A : Type ℓ} → Option A → Exec A
deref none = crash null_dereference
deref (some a) = ok a

-- assert(p)
abbrev pub assert_some {ℓ} : {A : Type ℓ} → Option A → Exec A
assert_some none = crash assertion_failed
assert_some (some a) = ok a

module _ {F : Floating} (J : Cjson F) where
  -- The functions of cJSON return NULL for a NULL object.
  abbrev pub get_case_sensitive : Option J.Node → String → Option J.Node
  get_case_sensitive none name = none
  get_case_sensitive (some n) name = J.get_object_item_case_sensitive n name

  abbrev pub json_int_value : J.Node → ℤ
  json_int_value n = if J.is_null n then pos 0 else J.valueint n

  abbrev pub json_obj_get_int : Option J.Node → String → Exec ℤ
  json_obj_get_int obj name = do n ← deref (get_case_sensitive obj name); ok (J.valueint n)

  abbrev pub string_value : Option J.Node → Option String
  string_value none = none
  string_value (some n) = J.get_string_value n

  abbrev pub get_double : Option J.Node → String → Exec F.Double
  get_double json name = do n ← deref (get_case_sensitive json name); ok (J.valuedouble n)

  unfoldable pub parse_latlng : Option J.Node → Exec (LatLng F)
  parse_latlng json = do
    lat ← get_double json "lat"
    lng ← get_double json "lng"
    ok (record { lat = lat; lng = lng })

  abbrev pub parse_status : J.Node → Exec Status
  parse_status obj = do
    code ← json_obj_get_int (some obj) "code"
    ok (record { code = code; message = string_value (get_case_sensitive (some obj) "message") })

  abbrev pub parse_rate : Option J.Node → Exec RateInfo
  parse_rate none = ok no_rate_info
  parse_rate (some obj) = do
    limit ← json_obj_get_int (some obj) "limit"
    remaining ← json_obj_get_int (some obj) "remaining"
    reset ← json_obj_get_int (some obj) "reset"
    ok (record { limit = limit; remaining = remaining; reset = reset })

  abbrev pub parse_bounds : Option J.Node → Exec (Option (LatLngBounds F))
  parse_bounds none = ok none
  parse_bounds (some bounds_js) = do
    northeast ← parse_latlng (J.get_object_item bounds_js "northeast")
    southwest ← parse_latlng (J.get_object_item bounds_js "southwest")
    ok (some (record { northeast = northeast; southwest = southwest }))

  abbrev pub parse_geometry : Option J.Node → Exec (LatLng F)
  parse_geometry none = ok (invalid_point F)
  parse_geometry (some geom_js) = parse_latlng (some geom_js)

  -- The body of the loop over the results.
  unfoldable pub parse_result : J.Node → Exec (GeoResult J)
  parse_result result_js = do
    confidence ← json_obj_get_int (some result_js) "confidence"
    bounds ← parse_bounds (J.get_object_item_case_sensitive result_js "bounds")
    geometry ← parse_geometry (J.get_object_item_case_sensitive result_js "geometry")
    ok (record {
      bounds = bounds;
      geometry = geometry;
      confidence = confidence;
      internal = result_js;
    })

  -- The loop, with the room that is left in the array of results.
  unfoldable pub parse_results : ℕ → List J.Node → Exec (List (GeoResult J))
  parse_results room [] = ok []
  parse_results zero (result_js ∷ rest) = crash buffer_overflow
  parse_results (suc room) (result_js ∷ rest) = do
    result ← parse_result result_js
    results ← parse_results room rest
    ok (result ∷ results)

  -- `results` points to the array from the start, and each result is linked to the one before.
  abbrev pub link_results : List (GeoResult J) → Results J
  link_results [] = uninitialised
  link_results (r ∷ rs) = chain (r ∷ rs)

  abbrev pub parse_array : J.Node → ℤ → Exec (Results J)
  parse_array json total = do
    obj ← assert_some (J.get_object_item_case_sensitive json "results")
    results ← parse_results (pos_part total) (J.elements obj)
    ok (link_results results)

  unfoldable pub parse_response_json : J.Node → Response J → Exec (Response J)
  parse_response_json json response = do
    status_js ← assert_some (J.get_object_item_case_sensitive json "status")
    status ← parse_status status_js
    rate_info ← parse_rate (J.get_object_item json "rate")
    total_js ← assert_some (J.get_object_item json "total_results")
    let total = json_int_value total_js
    results ← (if ltb_ℤ (pos 0) total then parse_array json total else ok (chain []))
    ok (record {
      status = status;
      url = response.url;
      rate_info = rate_info;
      total_results = total;
      results = results;
    })

  -- What the loop over `results` frees; a result is reached only through what was written.
  unfoldable pub response_cleanup : Response J → Exec (Response J)
  response_cleanup r = elim r.results [
    | chain rs ↦ ok (record r { url = none; total_results = pos 0; results = chain [] })
    | uninitialised ↦ crash uninitialised_read
  ]
